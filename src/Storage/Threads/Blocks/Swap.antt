-- ===== src/Storage/Threads/Blocks/Swap.antt =====
-- The steps of `swap_pairs` in Storage/Threads.antt.
use os_5_sem.Base.{
  ℕ, zero, suc, ◌+◌, ◌-◌, ◌<◌, ◌≡◌, ◌≢◌, refl, ap, ◌∙◌, true, Option, some, List, [], ◌∷◌, ◌==◌,
  arith, bit, length, if◌then◌else◌, Bool-cases, inl, inr,
}
use os_5_sem.Storage.Memory.{
  Node, Mode, exclusive, unlock, release, next_of-ok, lock-ok, unlock-ok, ◌>>=◌, ◌>>◌,
}
use os_5_sem.Storage.Layout.{Cells, has, Linked, store}
use os_5_sem.Storage.Threads.{
  Role, Pc, outside, swap_first, swap_second, swap_walk, swap_last, Choice, walk_at, block, wanted,
  cmp_of,
}
use os_5_sem.Storage.Threads.Order.{
  succ, rank, Linked-node, has-succ, InARow, InARow-apart, succ-ne, rank-succ, rank-lt_length,
}
use os_5_sem.Storage.Threads.Order.Swapped.{swap_three-Swapped}
use os_5_sem.Storage.Threads.Blocks.{to_go, taking, Within, Outcome, quiet, Within-nil, Within-same}

-- The head of the walk.
walk_at-run :
    (h : ℕ → Option Node) (xs : Cells) (rounds prev cur i p w : ℕ)
    → Linked h xs
    → has cur xs ≡ true
    → prev ≢ cur
    → walk_at rounds prev cur (store h ((cur, exclusive) ∷ (prev, exclusive) ∷ []) i p w) ≡ (
        if succ xs cur == 0
        then some (outside, store h [] i p w)
        else some (
          elim rounds [
            | zero ↦ swap_last prev cur (succ xs cur)
            | suc k ↦ swap_walk k prev cur (succ xs cur)
          ],
          store h ((cur, exclusive) ∷ (prev, exclusive) ∷ []) i p w,
        ))
unfolding walk_at unlock
walk_at-run h xs zero prev cur i p w l member apart =
    let (v, node) = Linked-node h cur xs l member in
    let s = store h ((cur, exclusive) ∷ (prev, exclusive) ∷ []) i p w in
    rw (next_of-ok cur s (record { value = v; next = succ xs cur }) (ground arith) node, ◌>>=◌)
      (elim (Bool-cases (succ xs cur == 0)) [
        | inl end ↦ rw end (ground (arith, apart))
        | inr more ↦ rw more
      ])
walk_at-run h xs (suc k) prev cur i p w l member apart =
    let (v, node) = Linked-node h cur xs l member in
    let s = store h ((cur, exclusive) ∷ (prev, exclusive) ∷ []) i p w in
    rw (next_of-ok cur s (record { value = v; next = succ xs cur }) (ground arith) node, ◌>>=◌)
      (elim (Bool-cases (succ xs cur == 0)) [
        | inl end ↦ rw end (ground (arith, apart))
        | inr more ↦ rw more
      ])

module _ (mode : Mode) (first size : ℕ) (c : Choice) (role : Role) (h : ℕ → Option Node)
    (xs : Cells) (i p w : ℕ) (l : Linked h xs) (root : has first xs ≡ true) where
  -- Where the walk goes on, from the head of a round.
  walk_on :
      {at : Pc} {held : List (ℕ × Mode)} (rounds prev cur next : ℕ)
      → InARow prev cur next xs
      → block mode first size c role at (store h held i p w)
        ≡ some (
          elim rounds [ zero ↦ swap_last prev cur next | suc k ↦ swap_walk k prev cur next ],
          store h ((cur, exclusive) ∷ (prev, exclusive) ∷ []) i p w,
        )
      → Within ((cur, exclusive) ∷ (prev, exclusive) ∷ []) (taking (wanted mode first size at) held)
      → length xs - rank xs cur < to_go xs at
      → Outcome mode first size c role at h xs held i p w
  unfolding to_go
  walk_on zero prev cur next row run within sooner =
      let step = row.second_step in
      let some_next = row.some_next in
      let member : has next xs ≡ true = ground (arith, has-succ cur xs) in
      quiet (swap_last prev cur next) ((cur, exclusive) ∷ (prev, exclusive) ∷ []) i p w l run
        (refl, row) within
        (λ e. ground (arith, sooner, rank-succ h cur xs l, rank-lt_length next xs member))
        (λ t. (tt, t.1)) (omega arith)
  walk_on (suc k) prev cur next row run within sooner =
      quiet (swap_walk k prev cur next) ((cur, exclusive) ∷ (prev, exclusive) ∷ []) i p w l run
        (refl, row) within (λ e. sooner) (λ t. (tt, t.1)) (omega arith)

  -- One that comes to the head of the walk of `swap_pairs`.
  walk_settled :
      {at : Pc} {held : List (ℕ × Mode)} (rounds prev cur : ℕ)
      → has prev xs ≡ true
      → succ xs prev ≡ cur
      → cur ≢ 0
      → block mode first size c role at (store h held i p w)
        ≡ walk_at rounds prev cur (store h ((cur, exclusive) ∷ (prev, exclusive) ∷ []) i p w)
      → Within ((cur, exclusive) ∷ (prev, exclusive) ∷ []) (taking (wanted mode first size at) held)
      → length xs - rank xs cur < to_go xs at
      → Outcome mode first size c role at h xs held i p w
  unfolding to_go
  walk_settled rounds prev cur member e ne run within sooner =
      let apart : prev ≢ cur = ground (arith, succ-ne h prev xs l) in
      let cur_member : has cur xs ≡ true = ground (arith, has-succ prev xs) in
      let runs = run ∙ walk_at-run h xs rounds prev cur i p w l cur_member apart in
      elim (Bool-cases (succ xs cur == 0)) [
        | inl end ↦
            quiet outside [] i p w l (runs ∙ rw end) refl (Within-nil _)
              (λ e. omega (arith, sooner)) (λ t. (tt, t.1)) (omega arith)
        | inr more ↦
            let row : InARow prev cur (succ xs cur) xs = record {
              member = member;
              first_step = e;
              some_cur = ne;
              second_step = refl;
              some_next = ground arith;
            } in
            walk_on rounds prev cur (succ xs cur) row (runs ∙ rw more) within sooner
      ]

  pub swap_first-Outcome : (j : ℕ) → Outcome mode first size c role (swap_first j) h xs [] i p w
  unfolding block wanted unlock to_go
  swap_first-Outcome j =
      let (v, node) = Linked-node h first xs l root in
      let cell : Node = record { value = v; next = succ xs first } in
      let s = store h ((first, exclusive) ∷ []) i p w in
      let locked = lock-ok exclusive first (store h [] i p w) cell refl node in
      let read = next_of-ok first s cell (ground arith) node in
      elim (Bool-cases (succ xs first == 0)) [
        | inl end ↦
            quiet outside [] i p w l
              (rw (locked, ◌>>=◌, ◌>>◌) (rw (read, ◌>>=◌) (rw end (ground arith)))) refl
              (Within-nil _) (λ e. omega arith) (λ t. (tt, t.1)) (omega arith)
        | inr more ↦
            quiet (swap_second j (succ xs first)) ((first, exclusive) ∷ []) i p w l
              (rw (locked, ◌>>=◌, ◌>>◌) (rw (read, ◌>>=◌) (rw more))) (refl, refl, ground arith)
              (Within-same _) (λ e. omega arith) (λ t. (tt, t.1)) (omega arith)
      ]

  pub swap_second-Outcome :
      (j cur : ℕ)
      → succ xs first ≡ cur
      → cur ≢ 0
      → Outcome mode first size c role (swap_second j cur) h xs ((first, exclusive) ∷ []) i p w
  unfolding block wanted to_go
  swap_second-Outcome j cur e ne =
      let member : has cur xs ≡ true = ground (arith, has-succ first xs) in
      let apart : cur ≢ first = ground (arith, succ-ne h first xs l) in
      let (v, node) = Linked-node h cur xs l member in
      let s = store h ((first, exclusive) ∷ []) i p w in
      let locked =
        lock-ok exclusive cur s (record { value = v; next = succ xs cur }) (ground arith) node in
      walk_settled j first cur root e ne (rw (locked, ◌>>=◌, ◌>>◌)) (Within-same _)
        (ground (arith, rank-succ h first xs l, rank-lt_length cur xs member))

  pub swap_walk-Outcome :
      (j prev cur next : ℕ)
      → InARow prev cur next xs
      → Outcome mode first size c role
          (swap_walk j prev cur next)
          h
          xs
          ((cur, exclusive) ∷ (prev, exclusive) ∷ [])
          i
          p
          w
  unfolding block wanted to_go
  swap_walk-Outcome j prev cur next row =
      let cur_member : has cur xs ≡ true =
        ground (arith, row.first_step, row.some_cur, has-succ prev xs) in
      let member : has next xs ≡ true =
        ground (arith, row.second_step, row.some_next, has-succ cur xs) in
      let (v, node) = Linked-node h next xs l member in
      let apart = InARow-apart h xs l row in
      let held : List (ℕ × Mode) = (cur, exclusive) ∷ (prev, exclusive) ∷ [] in
      let s = store h held i p w in
      let s' = store h ((next, exclusive) ∷ held) i p w in
      let locked =
        lock-ok exclusive next s (record { value = v; next = succ xs next }) (ground (arith, apart))
          node in
      let released : release prev s'.held ≡ (next, exclusive) ∷ (cur, exclusive) ∷ [] =
        ground (arith, apart) in
      walk_settled j cur next cur_member row.second_step row.some_next
        (rw (locked, ◌>>=◌, ◌>>◌)
          (rw (unlock-ok prev s' (ground arith), ◌>>=◌, ◌>>◌)
            (ap (λ r. walk_at j cur next (store h r i p w)) released)))
        (record { all = λ x e. ground arith; exclusive_ones = λ x e. ground arith })
        (ground (
          arith,
          row.second_step,
          row.some_next,
          rank-succ h cur xs l,
          rank-lt_length next xs member,
        ))

  pub swap_last-Outcome :
      (prev cur next : ℕ)
      → InARow prev cur next xs
      → Outcome mode first size c role
          (swap_last prev cur next)
          h
          xs
          ((cur, exclusive) ∷ (prev, exclusive) ∷ [])
          i
          p
          w
  unfolding block wanted to_go
  swap_last-Outcome prev cur next row =
      let member : has next xs ≡ true =
        ground (arith, row.second_step, row.some_next, has-succ cur xs) in
      let (v, node) = Linked-node h next xs l member in
      let apart = InARow-apart h xs l row in
      let held : List (ℕ × Mode) = (cur, exclusive) ∷ (prev, exclusive) ∷ [] in
      let s = store h held i p w in
      let locked =
        lock-ok exclusive next s (record { value = v; next = succ xs next }) (ground (arith, apart))
          node in
      let r = swap_three-Swapped (cmp_of role) h prev cur next i p w xs l row in
      record {
        memory = r.memory;
        list = r.list;
        next_at = outside;
        next_held = [];
        iterations = i;
        pairs = p;
        swaps = w + bit r.made;
        runs = rw (locked, ◌>>=◌, ◌>>◌) r.runs;
        linked = r.linked;
        top = r.top;
        perm = r.perm;
        members = r.members;
        same = r.same;
        order = λ x free. r.order x (ground arith) (ground arith) (ground arith);
        ranks = λ x free. r.ranks x (ground arith) (ground arith) (ground arith);
        lengths = r.lengths;
        sooner = λ e. omega arith;
        mine = refl;
        within = Within-nil _;
        tally = λ t. (tt, rw r.lengths t.1);
        grows = omega arith;
      }
