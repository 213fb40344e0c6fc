-- ===== src/ReapQueue/Nodes/Laws.antt =====
-- What `reap_enqueue`, `reap_dequeue` and `reaper_main` of 1.6/src/queue.h do to the nodes of the queue.
use os_5_sem.Base.{
  ℕ, zero, suc, ◌<◌, ◌≡◌, refl, ◌≢◌, false, ◌||◌, Option, none, some, [], ◌∷◌, ◌++◌, ◌∙◌, sym,
  arith, ◌==◌, if◌then◌else◌, length,
}
use os_5_sem.ReapQueue.Nodes.{
  Node, Memory, write, Queue, append_node, reap_dequeue, walk, Cells, has, first, last, threads,
  Linked, IsQueue,
}

Linked-write :
    (h : Memory) (p : ℕ) (c : Option Node) (xs : Cells)
    → has p xs ≡ false
    → Linked h xs
    → Linked (write h p c) xs
Linked-write h p c [] out l = tt
Linked-write h p c ((q, t) ∷ xs) out l =
    (l.0, l.1, ground arith, Linked-write h p c xs (ground arith) l.3)

has-append_end : (a : ℕ) (xs : Cells) (p t : ℕ) → has a (xs ++ (p, t) ∷ []) ≡ (has a xs || (a == p))
has-append_end a [] p t = ground arith
has-append_end a ((q, s) ∷ xs) p t = ground (arith, has-append_end a xs p t)

ne-last : (a p t : ℕ) (xs : Cells) → has a ((p, t) ∷ xs) ≡ false → a ≢ last p xs
ne-last a p t [] out = ground arith
ne-last a p t ((q, s) ∷ xs) out = ne-last a q s xs (ground arith)

last_cell :
    (h : Memory) (p t : ℕ) (xs : Cells)
    → Linked h ((p, t) ∷ xs)
    → (u : ℕ) × (h (last p xs) ≡ some (record { thread = u; next = 0 })) × (last p xs ≢ 0)
last_cell h p t [] l = (t, l.2, l.0)
last_cell h p t ((q, s) ∷ xs) l = last_cell h q s xs l.3

-- `g` is `h` with a node added that the last node points to.
module _ (h g : Memory) (node thread : ℕ) (ne : node ≢ 0)
    (new : g node ≡ some (record { thread = thread; next = 0 })) where
  Linked-append :
      (p t : ℕ) (xs : Cells)
      → Linked h ((p, t) ∷ xs)
      → has node ((p, t) ∷ xs) ≡ false
      → ((u : ℕ)
          → h (last p xs) ≡ some (record { thread = u; next = 0 })
          → g (last p xs) ≡ some (record { thread = u; next = node }))
      → ((a : ℕ) → a ≢ node → a ≢ last p xs → g a ≡ h a)
      → Linked g ((p, t) ∷ (xs ++ (node, thread) ∷ []))
  Linked-append p t [] l out end same = (l.0, ground arith, end t l.2, (ne, refl, new, tt))
  Linked-append p t ((q, s) ∷ xs) l out end same = (
    l.0,
    ground (arith, l.1, has-append_end p ((q, s) ∷ xs) node thread),
    same p (ground arith) (ne-last p q s xs l.1) ∙ l.2,
    Linked-append q s xs l.3 (ground arith) end same,
  )

last-append_end : (d : ℕ) (xs : Cells) (p t : ℕ) → last d (xs ++ (p, t) ∷ []) ≡ p
last-append_end d [] p t = refl
last-append_end d ((q, s) ∷ xs) p t = last-append_end q xs p t

-- With a last node at `l`, the code writes the new node and the last one's pointer.
module _ (m : Memory) (l u node thread : ℕ) (at : m l ≡ some (record { thread = u; next = 0 }))
    (apart : node ≢ l) where
  abbrev appended : Memory
  appended =
      write (write m node (some (record { thread = thread; next = 0 }))) l
        (some (record { thread = u; next = node }))

  append_node-at :
      (q : Queue)
      → q.memory ≡ m
      → q.tail ≡ l
      → l ≢ 0
      → append_node node thread q ≡ some (record { head = q.head; tail = node; memory = appended })
  unfolding append_node
  append_node-at q em et ne = rw (em, et) (ground arith)

  appended_new : appended node ≡ some (record { thread = thread; next = 0 })
  appended_new = ground arith

  appended_last :
      (v : ℕ)
      → m l ≡ some (record { thread = v; next = 0 })
      → appended l ≡ some (record { thread = v; next = node })
  appended_last v e = ground arith

  appended_same : (a : ℕ) → a ≢ node → a ≢ l → appended a ≡ m a
  appended_same a na nl = ground arith

-- Where the queue is a list of nodes and malloc returned an address that none of them has,
-- `reap_enqueue` does not fault, and the queue is then that list with the new node at its end.
pub append_node-IsQueue :
    {q : Queue} {xs : Cells} (node thread : ℕ)
    → IsQueue q xs
    → node ≢ 0
    → has node xs ≡ false
    → (q' : Queue) × (append_node node thread q ≡ some q') × IsQueue q' (xs ++ (node, thread) ∷ [])
unfolding append_node
append_node-IsQueue {q} {xs = []} node thread is ne out = (
  record {
    head = node;
    tail = node;
    memory = write q.memory node (some (record { thread = thread; next = 0 }));
  },
  ground (arith, is.at_tail),
  record { at_head = refl; at_tail = refl; linked = (ne, refl, ground arith, tt) },
)
append_node-IsQueue {q} {xs = (p, t) ∷ xs} node thread is ne out =
    let (u, cell, filled) = last_cell q.memory p t xs is.linked in
    let apart = ne-last node p t xs out in
    let g = appended q.memory (last p xs) u node thread cell apart in
    (
      record { head = q.head; tail = node; memory = g },
      append_node-at q.memory (last p xs) u node thread cell apart q refl is.at_tail filled,
      record {
        at_head = is.at_head;
        at_tail = sym (last-append_end p xs node thread);
        linked =
            Linked-append q.memory g node thread ne
              (appended_new q.memory (last p xs) u node thread cell apart) p t xs is.linked out
              (appended_last q.memory (last p xs) u node thread cell apart)
              (appended_same q.memory (last p xs) u node thread cell apart);
      },
    )

walk-threads :
    (fuel : ℕ) (h : Memory) (xs : Cells)
    → Linked h xs
    → length xs < fuel
    → (g : Memory) × (walk fuel (first xs) h ≡ some (threads xs, g))
      × ((a : ℕ) → g a ≡ (if has a xs then none else h a))
unfolding walk
walk-threads zero h xs l enough = absurd (omega arith)
walk-threads (suc k) h [] l enough = (h, refl, λ a. refl)
walk-threads (suc k) h ((p, t) ∷ xs) l enough =
    let (g, walked, freed) =
      walk-threads k (write h p none) xs (Linked-write h p none xs l.1 l.3) (omega arith) in
    (g, ground (arith, l.0, l.2, walked), λ a. ground (arith, freed a))

reap_dequeue-head :
    (q : Queue) → ((reap_dequeue q).0 ≡ q.head) × ((reap_dequeue q).1.memory ≡ q.memory)
unfolding reap_dequeue
reap_dequeue-head q = ground arith

emptied : {q : Queue} (xs : Cells) → IsQueue q xs → IsQueue (reap_dequeue q).1 []
unfolding reap_dequeue
emptied [] is = record {
  at_head = ground (arith, is.at_head);
  at_tail = ground (arith, is.at_head, is.at_tail);
  linked = tt;
}
emptied ((p, t) ∷ xs) is = record {
  at_head = ground (arith, is.at_head, is.linked.0);
  at_tail = ground (arith, is.at_head, is.linked.0);
  linked = tt;
}

-- Where the queue is a list of nodes, `reap_dequeue` leaves an empty queue, and the walk over what it
-- returns ends, does not fault, gives the threads of the list in order, frees each of its nodes and
-- changes no other memory.
pub reap_dequeue-walk :
    {q : Queue} {xs : Cells} (fuel : ℕ)
    → IsQueue q xs
    → length xs < fuel
    → IsQueue (reap_dequeue q).1 []
      × ((g : Memory) × (walk fuel (reap_dequeue q).0 (reap_dequeue q).1.memory
            ≡ some (threads xs, g))
          × ((a : ℕ) → g a ≡ (if has a xs then none else q.memory a)))
reap_dequeue-walk {q} {xs} fuel is enough = (
  emptied xs is,
  rw ((reap_dequeue-head q).0, (reap_dequeue-head q).1, is.at_head)
      (walk-threads fuel q.memory xs is.linked enough),
)
