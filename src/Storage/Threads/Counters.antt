-- ===== src/Storage/Threads/Counters.antt =====
-- The counters that the threads of 2.3/src keep.
use os_5_sem.Base.{
  ℕ, ◌+◌, ◌-◌, ◌*◌, ◌<◌, ◌≤◌, ◌≡◌, ◌≢◌, Option, arith, length, Bool-cases, inl, inr,
}
use os_5_sem.Storage.Memory.{Node, Mode}
use os_5_sem.Storage.Layout.{Cells, first_of, Linked}
use os_5_sem.Storage.Threads.{Role, search_next, Choice, Thread, System, wanted, waits, turn, Reach}
use os_5_sem.Storage.Threads.Order.{rank-lt_length}
use os_5_sem.Storage.Threads.Invariant.{Reach-Inv, outcome, turn-moved}

-- No counter of the thread is less than before.
abbrev pub Grows : Thread → Thread → Type 0
Grows t u = (t.iterations ≤ u.iterations) × (t.pairs ≤ u.pairs) × (t.swaps ≤ u.swaps)

module _ (mode : Mode) (first size n : ℕ) (h : ℕ → Option Node) (xs : Cells) (roles : ℕ → Role)
    (l : Linked h xs) (top : first_of xs ≡ first) (some_first : first ≢ 0) {s : System}
    (r : Reach mode first size n h roles s) where
  -- Started on a list with a first node, in every reachable state every thread has counted at most as
  -- many pairs as its finished rounds times the nodes of the list without the first and one more; and
  -- in the round that it is in, while it waits for the next node, at most that many.
  pub counts_bounded :
      (i : ℕ)
      → i < n
      → ((s.threads i).pairs ≤ (s.threads i).iterations * (length xs - 2))
        × ((a b k : ℕ) → (s.threads i).at ≡ search_next a b k → k + 2 ≤ length xs)
  counts_bounded i inside =
      let inv = Reach-Inv mode first size n h xs some_first roles l top r in
      let t = inv.tally i inside in
      let here = inv.place i inside in
      (
        ground (arith, t.1, inv.lengths),
        λ a b k e. ground (arith, e, t.0, here, inv.lengths, rank-lt_length a inv.list),
      )

  -- A step leaves no thread's counter less than before.
  pub turn-Grows :
      (c : Choice) (i : ℕ)
      → i < n
      → (j : ℕ) → Grows (s.threads j) ((turn mode first size n c i s).threads j)
  unfolding turn
  turn-Grows c i inside j =
      let inv = Reach-Inv mode first size n h xs some_first roles l top r in
      elim (Bool-cases (waits n i s.threads (wanted mode first size (s.threads i).at))) [
        | inl blocked ↦ rw blocked (omega arith)
        | inr free ↦
            let step = outcome mode first size n h xs some_first c i s inside inv free in
            rw (turn-moved mode first size n h xs some_first c i s inside inv free)
              (ground (arith, step.grows))
      ]
