-- ===== src/ReapQueue/Nodes.antt =====
-- The nodes of the reap queue of 1.6/src/queue.h in memory: what `reap_enqueue` and `reap_dequeue` do
-- to them under the lock, and the walk of `reaper_main`. `none` is a fault or a lack of fuel.
pub mod Laws
use mathlib.Core.Option
use os_5_sem.Base.{
  ℕ, zero, suc, ◌<◌, ◌≡◌, refl, ◌≢◌, Bool, false, ◌||◌, Option, none, some, List, [], ◌∷◌, ◌++◌,
  ◌∙◌, sym, arith, ◌==◌, if◌then◌else◌, length,
}

-- `reap_node_t`: pointers are numbers and NULL is 0.
pub record Node : Type 0 where
  pub thread : ℕ
  pub next : ℕ

abbrev pub Memory : Type 0
Memory = ℕ → Option Node

abbrev pub write : Memory → ℕ → Option Node → Memory
write h p c a = if a == p then c else h a

-- `reap_queue_t`, with the memory that its nodes lie in.
pub record Queue : Type 0 where
  pub head : ℕ
  pub tail : ℕ
  pub memory : Memory

-- `p->next = q`
abbrev pub set_next : ℕ → ℕ → Memory → Option Memory
set_next p q h = elim (h p) [
  | none ↦ none
  | some c ↦ some (write h p (some (record c { next = q })))
]

-- `node` is the address that malloc returned.
pub append_node : (node thread : ℕ) → Queue → Option Queue
append_node node thread q =
    let h = write q.memory node (some (record { thread = thread; next = 0 })) in
    if q.tail == 0
    then some (record { head = node; tail = node; memory = h })
    else Option.map (λ h'. record { head = q.head; tail = node; memory = h' })
        (set_next q.tail node h)

pub reap_dequeue : Queue → ℕ × Queue
reap_dequeue q = if q.head == 0 then (q.head, q) else (q.head, record q { head = 0; tail = 0 })

-- The threads of the list from `current` on, whose nodes are freed.
pub walk : (fuel current : ℕ) → Memory → Option (List ℕ × Memory)
walk zero current h = none
walk (suc k) current h = if current == 0 then some ([], h) else elim (h current) [
  | none ↦ none
  | some c ↦ Option.map (λ (ts, h'). (c.thread ∷ ts, h')) (walk k c.next (write h current none))
]

-- Addresses and threads of a list of nodes, in order.
abbrev pub Cells : Type 0
Cells = List (ℕ × ℕ)

abbrev pub has : ℕ → Cells → Bool
has a [] = false
has a ((p, t) ∷ xs) = (a == p) || has a xs

abbrev pub first : Cells → ℕ
first [] = 0
first ((p, t) ∷ xs) = p

abbrev pub last : ℕ → Cells → ℕ
last p [] = p
last p ((q, t) ∷ xs) = last q xs

abbrev pub threads : Cells → List ℕ
threads [] = []
threads ((p, t) ∷ xs) = t ∷ threads xs

-- Distinct nodes, each pointing to the one behind it.
abbrev pub Linked : Memory → Cells → Type 0
Linked h [] = Unit {0}
Linked h ((p, t) ∷ xs) =
    (p ≢ 0)
    × (has p xs ≡ false)
    × (h p ≡ some (record { thread = t; next = first xs }))
    × Linked h xs

pub record IsQueue (q : Queue) (xs : Cells) : Type 0 where
  pub at_head : q.head ≡ first xs
  pub at_tail : q.tail ≡ last 0 xs
  pub linked : Linked q.memory xs
