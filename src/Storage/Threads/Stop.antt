-- ===== src/Storage/Threads/Stop.antt =====
-- The steps of the threads of 2.3/src after `stop` has cleared `is_running`, up to where `main` joins them.
use os_5_sem.Base.{
  ℕ, ◌+◌, ◌*◌, ◌<◌, ◌≤◌, ◌≡◌, ◌≢◌, refl, sym, ap, ◌∙◌, true, false, not, ◌&&◌, Option, some, List,
  [], ◌∷◌, ◌==◌, arith, length, if◌then◌else◌, total, total-le_by, total-bound, Bool-cases,
  Option-cases, inl, inr, ==_iff,
}
use os_5_sem.Storage.Memory.{Node, Mode, Store}
use os_5_sem.Storage.Layout.{Cells, first_of, Linked, store}
use os_5_sem.Storage.Threads.{
  Role, searcher, swapper, Pc, outside, search_first, search_second, search_next, swap_first,
  swap_second, swap_walk, swap_last, Choice, Thread, System, enter, block, wanted, waits, turn,
  Reach,
}
use os_5_sem.Storage.Threads.Blocks.{to_go, is_outside}
use os_5_sem.Storage.Threads.Invariant.{Inv, Reach-Inv}
use os_5_sem.Storage.Threads.Bounded.{spends, Below, Pace, turn-Pace, to_go-le_length}

is_outside-eq : (at : Pc) → is_outside at ≡ true → at ≡ outside
is_outside-eq outside e = refl
is_outside-eq search_first e = cc
is_outside-eq (search_second a) e = cc
is_outside-eq (search_next a b k) e = cc
is_outside-eq (swap_first i) e = cc
is_outside-eq (swap_second i cur) e = cc
is_outside-eq (swap_walk i prev cur next) e = cc
is_outside-eq (swap_last prev cur next) e = cc

to_go-outside : (xs : Cells) (at : Pc) → is_outside at ≡ true → to_go xs at ≡ 0
unfolding to_go
to_go-outside xs at e = rw (is_outside-eq at e) refl

enter_stopped :
    (first size : ℕ) (c : Choice) (role : Role)
    → c.running ≡ false
    → enter first size c role ≡ outside
unfolding enter
enter_stopped first size c (searcher cmp) off = rw off refl
enter_stopped first size c (swapper cmp) off = rw off refl

module _ (mode : Mode) (first size n : ℕ) where
  block_stopped :
      (c : Choice) (role : Role) (at : Pc) (st : Store) (after : Pc × Store)
      → c.running ≡ false
      → at ≡ outside
      → block mode first size c role at st ≡ some after
      → is_outside after.0 ≡ true
  unfolding block
  block_stopped c role at st after off out run =
      let e : block mode first size c role outside st ≡ some after =
        ap (λ (x : Pc). block mode first size c role x st) (sym out) ∙ run in
      let stays = enter_stopped first size c role off in ground (arith, e, stays)

  -- No thread enters its function again.
  turn_stays :
      (c : Choice) (i j : ℕ) (s : System)
      → c.running ≡ false
      → is_outside (s.threads j).at ≡ true
      → is_outside ((turn mode first size n c i s).threads j).at ≡ true
  unfolding turn
  turn_stays c i j s off out =
      elim (Bool-cases (waits n i s.threads (wanted mode first size (s.threads i).at))) [
        | inl blocked ↦ rw blocked out
        | inr free ↦
            elim (Option-cases (
              block mode first size c (s.threads i).role (s.threads i).at (
                store s.memory (s.threads i).held (s.threads i).iterations (s.threads i).pairs
                  (s.threads i).swaps))) [
                    | inl fault ↦ rw (free, fault) out
                    | inr (after, run) ↦ elim (Bool-cases (i == j)) [
                      | inr other ↦ rw free (rw run (rw other out))
                      | inl same ↦
                          let e : (s.threads i).at ≡ outside =
                            is_outside-eq (s.threads i).at
                              (ground (arith, (==_iff i j).0 same, out)) in
                          rw free (
                            rw run (
                              rw same (
                                block_stopped c (s.threads i).role (s.threads i).at
                                  (store s.memory (s.threads i).held (s.threads i).iterations
                                    (s.threads i).pairs (s.threads i).swaps)
                                  after off e run)))
                    ]
                  ]
      ]

  -- A step of a thread that is inside its function and does not have to wait.
  works : ℕ → System → ℕ
  works i s =
      if not (is_outside (s.threads i).at)
        && not (waits n i s.threads (wanted mode first size (s.threads i).at))
      then 1
      else 0

  pub busy_steps : List (Choice × ℕ) → System → ℕ
  unfolding works
  busy_steps [] s = 0
  busy_steps ((c, i) ∷ turns) s = works i s + busy_steps turns (turn mode first size n c i s)

abbrev pub Stopped : List (Choice × ℕ) → Type 0
Stopped [] = Unit
Stopped ((c, i) ∷ turns) = (c.running ≡ false) × Stopped turns

module _ (mode : Mode) (first size n : ℕ) (h : ℕ → Option Node) (xs : Cells)
    (first_node : first ≢ 0) where
  abbrev weight : Cells → Thread → ℕ
  weight ys t = to_go ys t.at

  works-le :
      (c : Choice) (i : ℕ) (s : System)
      → i < n
      → c.running ≡ false
      → (inv : Inv mode first n h xs s)
      → (p : Pace mode first size n h xs first_node i s (turn mode first size n c i s) inv)
      → total (weight p.kept.list) n (turn mode first size n c i s).threads
          + works mode first size n i s
        ≤ total (weight inv.list) n s.threads
  unfolding works spends
  works-le c i s inside off inv p =
      total-le_by (weight inv.list) (weight p.kept.list) n s.threads
        (turn mode first size n c i s).threads i (works mode first size n i s) inside
        (λ j j_inside. elim (Bool-cases (is_outside (s.threads j).at)) [
          | inl out ↦ omega (
            arith,
            to_go-outside p.kept.list ((turn mode first size n c i s).threads j).at
                (turn_stays mode first size n c i j s off out),
          )
          | inr busy ↦ omega (arith, p.pace j j_inside busy)
        ])
        (elim (Bool-cases (is_outside (s.threads i).at)) [
          | inl out ↦ rw out (
              omega (
                arith,
                to_go-outside p.kept.list ((turn mode first size n c i s).threads i).at
                    (turn_stays mode first size n c i i s off out),
              ))
          | inr busy ↦ ground (arith, p.pace i inside busy, busy)
        ])

  busy_steps-le :
      (turns : List (Choice × ℕ)) (s : System)
      → Below n turns
      → Stopped turns
      → (inv : Inv mode first n h xs s)
      → busy_steps mode first size n turns s ≤ total (weight inv.list) n s.threads
  unfolding busy_steps
  busy_steps-le [] s below stopped inv = omega arith
  busy_steps-le ((c, i) ∷ turns) s below stopped inv =
      let p = turn-Pace mode first size n h xs first_node c i s below.0 inv in
      omega (
        arith,
        works-le c i s below.0 stopped.0 inv p,
        busy_steps-le turns (turn mode first size n c i s) below.1 stopped.1 p.kept,
      )

  -- On a list with a first node, from every reachable state, in any sequence of steps after
  -- `is_running` is clear, the `n` threads together make at most `n` times as many steps as the
  -- list has nodes, the first included, and one more; steps that must wait and those of threads
  -- that are outside their function are not counted. And a thread that is outside stays there.
  pub stop_ends :
      (roles : ℕ → Role)
      → Linked h xs
      → first_of xs ≡ first
      → {s : System} → Reach mode first size n h roles s
      → (turns : List (Choice × ℕ)) → Below n turns
      → Stopped turns
      → (busy_steps mode first size n turns s ≤ n * (length xs + 1))
        × ((c : Choice) (i j : ℕ)
            → c.running ≡ false
            → is_outside (s.threads j).at ≡ true
            → is_outside ((turn mode first size n c i s).threads j).at ≡ true)
  stop_ends roles l top {s} r turns below stopped =
      let inv = Reach-Inv mode first size n h xs first_node roles l top r in
      let some_node : inv.list ≢ [] =
        λ none_left. first_node (sym inv.top ∙ ap first_of none_left) in
      (
        omega (
          arith,
          busy_steps-le turns s below stopped inv,
          total-bound (weight inv.list) n (length xs + 1) s.threads (λ j lt.
              omega (arith, to_go-le_length inv.list (s.threads j).at some_node, inv.lengths)),
        ),
        λ c i j off out. turn_stays mode first size n c i j s off out,
      )
