-- ===== src/Storage/Threads/Blocks/Search.antt =====
-- The steps of `search_pairs` in Storage/Threads.antt.
use os_5_sem.Base.{
  ℕ, ◌+◌, ◌-◌, ◌<◌, ◌≤◌, ◌≡◌, ◌≢◌, refl, ap, ◌∙◌, true, Option, some, List, [], ◌∷◌, ◌==◌, arith,
  length, if◌then◌else◌, Bool-cases, inl, inr,
}
use os_5_sem.Storage.Memory.{
  Node, Mode, unlock, release, next_of-ok, len_of-ok, lock-ok, unlock-ok, ◌>>=◌, ◌>>◌,
}
use os_5_sem.Storage.Layout.{Cells, has, Linked, store}
use os_5_sem.Storage.Threads.{
  Role, Pc, outside, search_first, search_second, search_next, Choice, search_at, block, wanted,
  cmp_of,
}
use os_5_sem.Storage.Threads.Order.{
  succ, rank, Linked-node, has-succ, succ-ne, rank-succ, rank-lt_length,
}
use os_5_sem.Storage.Threads.Blocks.{
  to_go, taking, Within, Outcome, quiet, Within-nil, Tally, count_round,
}

search_at-run :
    (mode : Mode) (h : ℕ → Option Node) (xs : Cells) (a k i p w : ℕ)
    → Linked h xs
    → has a xs ≡ true
    → search_at a k (store h ((a, mode) ∷ []) i p w) ≡ (
        if succ xs a == 0
        then some (outside, store h [] (i + 1) (p + k) w)
        else some (search_next a (succ xs a) k, store h ((a, mode) ∷ []) i p w))
unfolding search_at unlock
search_at-run mode h xs a k i p w l member =
    let (v, node) = Linked-node h a xs l member in
    let s = store h ((a, mode) ∷ []) i p w in
    rw (next_of-ok a s (record { value = v; next = succ xs a }) (ground arith) node, ◌>>=◌)
      (elim (Bool-cases (succ xs a == 0)) [ inl end ↦ rw end (ground arith) | inr more ↦ rw more ])

module _ (mode : Mode) (first size : ℕ) (c : Choice) (role : Role) (h : ℕ → Option Node)
    (xs : Cells) (i p w : ℕ) (l : Linked h xs) (root : has first xs ≡ true) where
  pub search_first-Outcome : Outcome mode first size c role search_first h xs [] i p w
  unfolding block wanted unlock to_go
  search_first-Outcome =
      let (v, node) = Linked-node h first xs l root in
      let cell : Node = record { value = v; next = succ xs first } in
      let s = store h ((first, mode) ∷ []) i p w in
      let locked = lock-ok mode first (store h [] i p w) cell refl node in
      let read = next_of-ok first s cell (ground arith) node in
      elim (Bool-cases (succ xs first == 0)) [
        | inl end ↦
            quiet outside [] (i + 1) p w l
              (rw (locked, ◌>>=◌, ◌>>◌) (rw (read, ◌>>=◌) (rw end (ground arith)))) refl
              (Within-nil _) (λ e. omega arith)
              (λ t. (tt, omega (arith, count_round i p 0 (length xs - 2) t.1 (omega arith))))
              (omega arith)
        | inr more ↦
            quiet (search_second (succ xs first)) ((first, mode) ∷ []) i p w l
              (rw (locked, ◌>>=◌, ◌>>◌) (rw (read, ◌>>=◌) (rw more))) (refl, refl, ground arith)
              (record { all = λ x e. e; exclusive_ones = λ x e. e }) (λ e. omega arith)
              (λ t. (tt, t.1)) (omega arith)
      ]

  -- A thread that comes to the head of the inner loop of `search_pairs`.
  search_settled :
      {at : Pc} {held : List (ℕ × Mode)} (a k : ℕ)
      → has a xs ≡ true
      → block mode first size c role at (store h held i p w)
        ≡ search_at a k (store h ((a, mode) ∷ []) i p w)
      → Within ((a, mode) ∷ []) (taking (wanted mode first size at) held)
      → length xs - rank xs a < to_go xs at
      → (Tally xs at i p → k + 1 ≤ rank xs a)
      → Outcome mode first size c role at h xs held i p w
  unfolding to_go
  search_settled a k member run within sooner few = elim (Bool-cases (succ xs a == 0)) [
    | inl end ↦
        quiet outside [] (i + 1) (p + k) w l
          (run ∙ search_at-run mode h xs a k i p w l member ∙ rw end) refl (Within-nil _)
          (λ e. omega (arith, sooner))
          (λ t. (
            tt,
            count_round i p k (length xs - 2) t.1
                (omega (arith, few t, rank-lt_length a xs member)),
          ))
          (omega arith)
    | inr more ↦
        quiet (search_next a (succ xs a) k) ((a, mode) ∷ []) i p w l
          (run ∙ search_at-run mode h xs a k i p w l member ∙ rw more)
          (refl, member, refl, ground arith) within (λ e. sooner) (λ t. (few t, t.1)) (omega arith)
  ]

  pub search_second-Outcome :
      (a : ℕ)
      → succ xs first ≡ a
      → a ≢ 0
      → Outcome mode first size c role (search_second a) h xs ((first, mode) ∷ []) i p w
  unfolding block wanted to_go
  search_second-Outcome a e ne =
      let member : has a xs ≡ true = ground (arith, has-succ first xs) in
      let apart : a ≢ first = ground (arith, succ-ne h first xs l) in
      let (v, node) = Linked-node h a xs l member in
      let s = store h ((first, mode) ∷ []) i p w in
      let s' = store h ((a, mode) ∷ (first, mode) ∷ []) i p w in
      let locked = lock-ok mode a s (record { value = v; next = succ xs a }) (ground arith) node in
      let released : release first s'.held ≡ (a, mode) ∷ [] = ground (arith, apart) in
      search_settled a 0 member
        (rw (locked, ◌>>=◌, ◌>>◌)
          (rw (unlock-ok first s' (ground arith), ◌>>=◌, ◌>>◌)
            (ap (λ r. search_at a 0 (store h r i p w)) released)))
        (record { all = λ x e. ground arith; exclusive_ones = λ x e. ground arith })
        (ground (arith, rank-succ h first xs l, rank-lt_length a xs member))
        (λ t. ground (arith, rank-succ h first xs l))

  pub search_next-Outcome :
      (a b k : ℕ)
      → has a xs ≡ true
      → succ xs a ≡ b
      → b ≢ 0
      → Outcome mode first size c role (search_next a b k) h xs ((a, mode) ∷ []) i p w
  unfolding block wanted to_go
  search_next-Outcome a b k old e ne =
      let member : has b xs ≡ true = ground (arith, has-succ a xs) in
      let apart : b ≢ a = ground (arith, succ-ne h a xs l) in
      let (v, node) = Linked-node h b xs l member in
      let (u, node_a) = Linked-node h a xs l old in
      let cell : Node = record { value = v; next = succ xs b } in
      let cell_a : Node = record { value = u; next = succ xs a } in
      let s = store h ((a, mode) ∷ []) i p w in
      let s' = store h ((b, mode) ∷ (a, mode) ∷ []) i p w in
      let locked = lock-ok mode b s cell (ground arith) node in
      let k' = if cmp_of role (length u) (length v) then k + 1 else k in
      let released : release a s'.held ≡ (b, mode) ∷ [] = ground (arith, apart) in
      search_settled b k' member
        (rw (locked, ◌>>=◌, ◌>>◌)
          (rw (len_of-ok a s' cell_a (ground arith) node_a, ◌>>=◌)
            (rw (len_of-ok b s' cell (ground arith) node, ◌>>=◌)
              (rw (unlock-ok a s' (ground arith), ◌>>=◌, ◌>>◌)
                (ap (λ r. search_at b k' (store h r i p w)) released)))))
        (record { all = λ x e. ground arith; exclusive_ones = λ x e. ground arith })
        (ground (arith, rank-succ h a xs l, rank-lt_length b xs member))
        (λ t. ground (arith, rank-succ h a xs l, t.0))
