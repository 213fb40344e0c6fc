-- ===== src/Storage/Swap.antt =====
-- `swap_pairs` of 2.3/src on a list that no other thread changes.
use os_5_sem.Base.{
  ℕ, zero, suc, ◌+◌, ◌-◌, ◌%◌, ◌≤◌, ◌≡◌, refl, Bool, false, Option, none, some, List, [], ◌∷◌, ◌==◌,
  ◌∙◌, ap, arith, length, bit, if◌then◌else◌, Bool-cases, inl, inr,
}
use os_5_sem.Storage.Memory.{
  Node, Store, exclusive, lock, unlock, next_of, len_of, set_next, write, holds, release,
  next_of-ok, lock-ok, unlock-ok, ◌>>=◌, ◌>>◌,
}
use os_5_sem.Storage.Layout.{
  Cells, first_of, has, Linked, store, swap_at, swaps_at, has-swap_at, Linked-write,
}
use os_5_sem.Storage.{Storage, walk, swap_nodes, swap_here, swap_from, swap_pairs}

module _ (cmp : ℕ → ℕ → Bool) (h : ℕ → Option Node) (prev cur : ℕ) (u v : List ℕ) (i p w : ℕ) where
  -- The memory after `swap_nodes`.
  abbrev pub swapped : ℕ → List ℕ → Cells → ℕ → Option Node
  swapped next t xs =
      write
        (write (write h prev (some (record { value = u; next = next }))) cur
          (some (record { value = v; next = first_of xs })))
        next (some (record { value = t; next = cur }))

  abbrev here : Store
  here = store h ((cur, exclusive) ∷ (prev, exclusive) ∷ []) i p w

  swap_here-end :
      Linked h ((prev, u) ∷ (cur, v) ∷ [])
      → swap_here cmp prev cur here ≡ some (tt, store h [] i p w)
  unfolding swap_here lock unlock next_of len_of set_next
  swap_here-end l = ground (arith, l.0, l.1, l.2, l.3.0, l.3.2)

  swap_here-next :
      (next : ℕ) (t : List ℕ) (xs : Cells)
      → Linked h ((prev, u) ∷ (cur, v) ∷ (next, t) ∷ xs)
      → swap_here cmp prev cur here
        ≡ some (
          tt,
          if cmp (length v) (length t)
              then store (swapped next t xs) [] i p (w + 1)
              else store h [] i p w,
        )
  unfolding swap_here swap_nodes lock unlock next_of len_of set_next
  swap_here-next next t xs l = ground (arith, l.0, l.1, l.2, l.3.0, l.3.1, l.3.2, l.3.3.0, l.3.3.2)

  pub Linked-swapped :
      (next : ℕ) (t : List ℕ) (xs : Cells)
      → Linked h ((prev, u) ∷ (cur, v) ∷ (next, t) ∷ xs)
      → Linked (swapped next t xs) ((prev, u) ∷ (next, t) ∷ (cur, v) ∷ xs)
  Linked-swapped next t xs l = (
    l.0,
    ground (arith, l.1),
    ground (arith, l.1),
    (
      l.3.3.0,
      ground (arith, l.3.1, l.3.3.1),
      ground arith,
      (
        l.3.0,
        ground (arith, l.3.1),
        ground (arith, l.3.1),
        Linked-write _ next _ xs l.3.3.1 (
            Linked-write _ cur _ xs (ground (arith, l.3.1))
              (Linked-write h prev _ xs (ground (arith, l.1)) l.3.3.3)),
      ),
    ),
  )

  walk-end :
      (n : ℕ)
      → Linked h ((prev, u) ∷ (cur, v) ∷ [])
      → walk (suc n) prev cur here ≡ some ((prev, cur), here)
  unfolding walk
  walk-end n l =
      rw (next_of-ok cur here (record { value = v; next = 0 }) (ground arith) l.3.2, ◌>>=◌)

  walk-step :
      (n b : ℕ) (t : List ℕ) (xs : Cells)
      → Linked h ((prev, u) ∷ (cur, v) ∷ (b, t) ∷ xs)
      → walk (suc n) prev cur here
        ≡ walk n cur b (store h ((b, exclusive) ∷ (cur, exclusive) ∷ []) i p w)
  unfolding walk
  walk-step n b t xs l =
      let some_next : (b == 0) ≡ false = ground (arith, l.3.3.0) in
      let unlocked : holds b here.held ≡ false = ground (arith, l.1, l.3.1) in
      let between = store h ((b, exclusive) ∷ here.held) i p w in
      let released : release prev between.held ≡ (b, exclusive) ∷ (cur, exclusive) ∷ [] =
        ground (arith, l.1) in
      rw (next_of-ok cur here (record { value = v; next = b }) (ground arith) l.3.2, ◌>>=◌)
        (rw some_next (
          rw
            (
              lock-ok exclusive b here (record { value = t; next = first_of xs }) unlocked l.3.3.2,
              ◌>>=◌,
              ◌>>◌,
            )
            (rw (unlock-ok prev between (ground arith), ◌>>=◌, ◌>>◌)
              (ap (λ r. walk n cur b (store h r i p w)) released))))

  pub swapped_same :
      (next : ℕ) (t : List ℕ) (xs : Cells) (a : ℕ)
      → has a ((prev, u) ∷ (cur, v) ∷ (next, t) ∷ xs) ≡ false
      → swapped next t xs a ≡ h a
  swapped_same next t xs a out = ground arith

-- `swap_here` on what the walk gives.
abbrev arrive : (ℕ → ℕ → Bool) → Option ((ℕ × ℕ) × Store) → Option (Unit {0} × Store)
arrive cmp r = elim r [ none ↦ none | some (a, s) ↦ swap_here cmp a.0 a.1 s ]

module _ (cmp : ℕ → ℕ → Bool) (h : ℕ → Option Node) where
  -- The list from `prev` on after an attempt to swap at `n` behind it, in the memory `g`.
  record Swapped (n prev cur : ℕ) (u v : List ℕ) (xs : Cells) (i p w : ℕ) : Type 0 where
    memory : ℕ → Option Node
    runs :
        swap_from cmp n prev cur (store h ((cur, exclusive) ∷ (prev, exclusive) ∷ []) i p w)
        ≡ some (tt, store memory [] i p (w + bit (swaps_at cmp n ((cur, v) ∷ xs))))
    linked : Linked memory ((prev, u) ∷ swap_at cmp n ((cur, v) ∷ xs))
    same : (a : ℕ) → has a ((prev, u) ∷ (cur, v) ∷ xs) ≡ false → memory a ≡ h a

  swap_from-Swapped :
      (n prev cur : ℕ) (u v : List ℕ) (xs : Cells) (i p w : ℕ)
      → Linked h ((prev, u) ∷ (cur, v) ∷ xs)
      → Swapped n prev cur u v xs i p w
  unfolding swap_from swap_at swaps_at
  swap_from-Swapped zero prev cur u v [] i p w l = record {
    memory = h;
    runs =
        swap_here-end cmp h prev cur u v i p w l
        ∙ ap (λ n. some (tt, store h [] i p n)) (omega arith);
    linked = l;
    same = λ a out. refl;
  }
  swap_from-Swapped zero prev cur u v ((next, t) ∷ xs) i p w l =
      elim (Bool-cases (cmp (length v) (length t))) [
        | inl yes_swap ↦ record {
          memory = swapped cmp h prev cur u v i p w next t xs;
          runs = swap_here-next cmp h prev cur u v i p w next t xs l ∙ rw yes_swap;
          linked = rw yes_swap (Linked-swapped cmp h prev cur u v i p w next t xs l);
          same = swapped_same cmp h prev cur u v i p w next t xs;
        }
        | inr no_swap ↦ record {
          memory = h;
          runs =
              swap_here-next cmp h prev cur u v i p w next t xs l
              ∙ rw no_swap (ap (λ n. some (tt, store h [] i p n)) (omega arith));
          linked = rw no_swap l;
          same = λ a out. refl;
        }
      ]
  swap_from-Swapped (suc n) prev cur u v [] i p w l = record {
    memory = h;
    runs =
        ap (arrive cmp) (walk-end cmp h prev cur u v i p w n l)
        ∙ swap_here-end cmp h prev cur u v i p w l
        ∙ ap (λ n. some (tt, store h [] i p n)) (omega arith);
    linked = l;
    same = λ a out. refl;
  }
  swap_from-Swapped (suc n) prev cur u v ((b, t) ∷ xs) i p w l =
      let rest = swap_from-Swapped n cur b v t xs i p w l.3 in
      record {
        memory = rest.memory;
        runs = ap (arrive cmp) (walk-step cmp h prev cur u v i p w n b t xs l) ∙ rest.runs;
        linked = (
          l.0,
          ground (arith, l.1, has-swap_at cmp prev n ((b, t) ∷ xs)),
          rest.same prev l.1 ∙ l.2,
          rest.linked,
        );
        same = λ a out. rest.same a (ground arith);
      }

-- The two locks at the start of `swap_pairs`.
swap_pairs-starts :
    (cmp : ℕ → ℕ → Bool) (random : ℕ) (s : Storage) (u v : List ℕ) (cur : ℕ) (xs : Cells)
    (h : ℕ → Option Node) (i p w : ℕ)
    → Linked h ((s.first, u) ∷ (cur, v) ∷ xs)
    → swap_pairs cmp random s (store h [] i p w)
      ≡ swap_from cmp
          (random % (s.size - 1))
          s.first
          cur
          (store h ((cur, exclusive) ∷ (s.first, exclusive) ∷ []) i p w)
unfolding swap_pairs
swap_pairs-starts cmp random s u v cur xs h i p w l =
    let some_first : (s.first == 0) ≡ false = ground (arith, l.0) in
    let some_cur : (cur == 0) ≡ false = ground (arith, l.3.0) in
    let before = store h [] i p w in
    let with_first = store h ((s.first, exclusive) ∷ []) i p w in
    let apart : holds cur with_first.held ≡ false = ground (arith, l.1) in
    rw some_first (
      rw (lock-ok exclusive s.first before (record { value = u; next = cur }) refl l.2, ◌>>=◌, ◌>>◌)
        (rw
          (
            next_of-ok s.first with_first (record { value = u; next = cur }) (ground arith) l.2,
            ◌>>=◌,
          )
          (rw some_cur (
            rw (
              lock-ok exclusive cur with_first (record { value = v; next = first_of xs }) apart
                  l.3.2,
              ◌>>=◌,
              ◌>>◌,
            )))))

-- On a list of `size` nodes behind its first one, two at least, with no lock held, `swap_pairs` does
-- not fault and ends with no lock held. With `n = random % (size - 1)` the list is then that list
-- with the nodes at `n` and `n + 1` behind the first swapped if `cmp` holds of their lengths, and
-- unchanged if not; the swap is counted exactly if it was made; the other counters and all memory
-- outside the list are as before.
pub swap_pairs-swap_at :
    (cmp : ℕ → ℕ → Bool) (random : ℕ) (s : Storage) (u : List ℕ) (xs : Cells) (h : ℕ → Option Node)
    (i p w : ℕ)
    → Linked h ((s.first, u) ∷ xs)
    → s.size ≡ length xs
    → 2 ≤ s.size
    → (g : ℕ → Option Node) × (swap_pairs cmp random s (store h [] i p w)
        ≡ some (tt, store g [] i p (w + bit (swaps_at cmp (random % (s.size - 1)) xs))))
      × Linked g ((s.first, u) ∷ swap_at cmp (random % (s.size - 1)) xs)
      × ((a : ℕ) → has a ((s.first, u) ∷ xs) ≡ false → g a ≡ h a)
unfolding swap_pairs
swap_pairs-swap_at cmp random s u [] h i p w l es two = absurd (omega (arith, es))
swap_pairs-swap_at cmp random s u ((cur, v) ∷ xs) h i p w l es two =
    let done = swap_from-Swapped cmp h (random % (s.size - 1)) s.first cur u v xs i p w l in
    (
      done.memory,
      swap_pairs-starts cmp random s u v cur xs h i p w l ∙ done.runs,
      done.linked,
      done.same,
    )
