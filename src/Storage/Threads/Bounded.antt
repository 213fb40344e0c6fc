-- ===== src/Storage/Threads/Bounded.antt =====
-- What a thread of 2.3/src has to go before it is outside its function again, step by step.
use mathlib.Core.Path.{subst}
use os_5_sem.Base.{
  ℕ, ◌+◌, ◌<◌, ◌≤◌, ◌≡◌, ◌≢◌, refl, sym, ap, ◌∙◌, Bool, true, false, not, ◌&&◌, Option, List, [],
  ◌∷◌, ◌==◌, arith, length, if◌then◌else◌, Bool-cases, inl, inr, ==_iff,
}
use os_5_sem.Storage.Memory.{Node, Mode, holds_exclusive}
use os_5_sem.Storage.Layout.{Cells, first_of, Linked}
use os_5_sem.Storage.Threads.{
  Role, Pc, outside, search_first, search_second, search_next, swap_first, swap_second, swap_walk,
  swap_last, Choice, System, wanted, waits, turn, Reach,
}
use os_5_sem.Storage.Threads.Order.{rank}
use os_5_sem.Storage.Threads.Blocks.{Local, to_go, is_outside}
use os_5_sem.Storage.Threads.Exclusion.{Excludes}
use os_5_sem.Storage.Threads.Invariant.{
  Inv, Reach-Inv, rank-kept, outcome, granted, against, moved, turn-moved, moved-Inv,
}

-- What a thread has to go does not change where another permutes nodes that it has locked.
module _ (mode : Mode) (first : ℕ) (xs ys : Cells) (granted held : List (ℕ × Mode))
    (apart : Excludes granted held) (lengths : length ys ≡ length xs)
    (ranks : (x : ℕ) → holds_exclusive x granted ≡ false → rank ys x ≡ rank xs x) where
  to_go-kept : (at : Pc) → Local mode first xs at held → to_go ys at ≡ to_go xs at
  unfolding to_go
  to_go-kept outside here = refl
  to_go-kept search_first here = rw lengths
  to_go-kept (search_second a) here = lengths
  to_go-kept (search_next a b k) here =
      omega
        (arith, lengths, rank-kept xs ys granted held apart ranks a (rw (here.0) (ground arith)))
  to_go-kept (swap_first i) here = rw lengths
  to_go-kept (swap_second i cur) here = lengths
  to_go-kept (swap_walk i prev cur next) here =
      omega
        (arith, lengths, rank-kept xs ys granted held apart ranks cur (rw (here.0) (ground arith)))
  to_go-kept (swap_last prev cur next) here = refl

-- No pass has more to go than that.
pub to_go-le_length : (xs : Cells) (at : Pc) → xs ≢ [] → to_go xs at ≤ length xs + 1
unfolding to_go
to_go-le_length [] at some_node = absurd (some_node refl)
to_go-le_length ((p, v) ∷ xs) outside some_node = omega arith
to_go-le_length ((p, v) ∷ xs) search_first some_node = omega arith
to_go-le_length ((p, v) ∷ xs) (search_second a) some_node = omega arith
to_go-le_length ((p, v) ∷ xs) (search_next a b k) some_node = omega arith
to_go-le_length ((p, v) ∷ xs) (swap_first i) some_node = omega arith
to_go-le_length ((p, v) ∷ xs) (swap_second i cur) some_node = omega arith
to_go-le_length ((p, v) ∷ xs) (swap_walk i prev cur next) some_node = omega arith
to_go-le_length ((p, v) ∷ xs) (swap_last prev cur next) some_node = omega arith

module _ (mode : Mode) (first size n : ℕ) where
  -- 1 where the step of thread `i` is one that `j` makes, and 0 where it is another's or must wait.
  unfoldable pub spends : (j i : ℕ) → System → ℕ
  spends j i s =
      if (j == i) && not (waits n i s.threads (wanted mode first size (s.threads i).at))
      then 1
      else 0

  spends-le : (j i : ℕ) (s : System) → spends j i s ≤ 1
  unfolding spends
  spends-le j i s = ground arith

  spends-other : (j i : ℕ) (s : System) → (i == j) ≡ false → spends j i s ≡ 0
  unfolding spends
  spends-other j i s e = ground (arith, e)

  -- How many steps `j` makes, and whether it is inside a pass all along.
  pub own_steps : List (Choice × ℕ) → ℕ → System → ℕ
  unfolding spends
  own_steps [] j s = 0
  own_steps ((c, i) ∷ turns) j s = spends j i s + own_steps turns j (turn mode first size n c i s)

  unfoldable pub always_inside : List (Choice × ℕ) → ℕ → System → Bool
  always_inside [] j s = true
  always_inside ((c, i) ∷ turns) j s =
      not (is_outside (s.threads j).at) && always_inside turns j (turn mode first size n c i s)

abbrev pub Below : ℕ → List (Choice × ℕ) → Type 0
Below n [] = Unit
Below n ((c, i) ∷ turns) = (i < n) × Below n turns

module _ (mode : Mode) (first size n : ℕ) (h : ℕ → Option Node) (xs : Cells)
    (first_node : first ≢ 0) where
  -- A step, and what each thread has to go after it.
  pub record Pace (i : ℕ) (s next : System) (inv : Inv mode first n h xs s) : Type 0 where
    pub kept : Inv mode first n h xs next
    pub pace :
        (j : ℕ)
        → j < n
        → is_outside (s.threads j).at ≡ false
        → to_go kept.list (next.threads j).at + spends mode first size n j i s
          ≤ to_go inv.list (s.threads j).at

  moving-Pace :
      (c : Choice) (i : ℕ) (s : System) (inside : i < n) (inv : Inv mode first n h xs s)
      (free : waits n i s.threads (wanted mode first size (s.threads i).at) ≡ false)
      → Pace i s (moved mode first size n h xs first_node c i s inside inv free) inv
  unfolding moved-Inv
  moving-Pace c i s inside inv free =
      let step = outcome mode first size n h xs first_node c i s inside inv free in
      record {
        kept = moved-Inv mode first size n h xs first_node c i s inside inv free;
        pace = λ j j_inside busy. elim (Bool-cases (i == j)) [
          | inl same ↦
              let e : i ≡ j = (==_iff i j).0 same in
              let sooner : to_go step.list step.next_at < to_go inv.list (s.threads j).at =
                subst (λ (k : ℕ). to_go step.list step.next_at < to_go inv.list (s.threads k).at) e
                  (step.sooner (ap (λ (k : ℕ). is_outside (s.threads k).at) e ∙ busy)) in
              rw same (omega (arith, sooner, spends-le mode first size n j i s))
          | inr other ↦
              let e =
                to_go-kept mode first inv.list step.list
                  (granted mode first size n h xs first_node c i s inside inv free)
                  (s.threads j).held
                  (against mode first size n h xs first_node c i s inside inv free j j_inside
                    (ground arith)).0
                  step.lengths step.ranks (s.threads j).at (inv.place j j_inside) in
              rw other (omega (arith, e, spends-other mode first size n j i s other))
        ];
      }

  waiting-Pace :
      (c : Choice) (i : ℕ) (s : System) (inv : Inv mode first n h xs s)
      → waits n i s.threads (wanted mode first size (s.threads i).at) ≡ true
      → Pace i s s inv
  unfolding spends
  waiting-Pace c i s inv blocked = record {
    kept = inv;
    pace = λ j j_inside busy. rw blocked (ground arith);
  }

  pub turn-Pace :
      (c : Choice) (i : ℕ) (s : System)
      → i < n
      → (inv : Inv mode first n h xs s) → Pace i s (turn mode first size n c i s) inv
  turn-Pace c i s inside inv =
      elim (Bool-cases (waits n i s.threads (wanted mode first size (s.threads i).at))) [
        | inl blocked ↦ rw (turn_waits c i s blocked) (waiting-Pace c i s inv blocked)
        | inr free ↦
            rw (turn-moved mode first size n h xs first_node c i s inside inv free)
              (moving-Pace c i s inside inv free)
      ]
    where
      turn_waits :
          (c : Choice) (i : ℕ) (s : System)
          → waits n i s.threads (wanted mode first size (s.threads i).at) ≡ true
          → turn mode first size n c i s ≡ s
      turn_waits c i s e = unfold turn in rw e

  steps_bounded :
      (turns : List (Choice × ℕ)) (j : ℕ) (s : System)
      → j < n
      → Below n turns
      → (inv : Inv mode first n h xs s) → always_inside mode first size n turns j s ≡ true
      → own_steps mode first size n turns j s ≤ to_go inv.list (s.threads j).at
  unfolding own_steps always_inside
  steps_bounded [] j s j_inside below inv busy = omega arith
  steps_bounded ((c, i) ∷ turns) j s j_inside below inv busy =
      let p = turn-Pace c i s below.0 inv in
      let now = p.pace j j_inside (ground arith) in
      let later = steps_bounded turns j (turn mode first size n c i s) j_inside below.1 p.kept in
      ground (arith, now, later)

  -- On a list with a first node, from every reachable state, a thread makes at most as many steps
  -- as the list has nodes, the first included, and one more, before it is outside its function,
  -- whatever steps the other threads make in between. Steps at which it must wait are not counted.
  pub pass_bounded :
      (roles : ℕ → Role)
      → Linked h xs
      → first_of xs ≡ first
      → {s : System} → Reach mode first size n h roles s
      → (turns : List (Choice × ℕ)) (j : ℕ) → j < n
      → Below n turns
      → always_inside mode first size n turns j s ≡ true
      → own_steps mode first size n turns j s ≤ length xs + 1
  pass_bounded roles l top {s} r turns j inside below busy =
      let inv = Reach-Inv mode first size n h xs first_node roles l top r in
      omega (
        arith,
        steps_bounded turns j s inside below inv busy,
        to_go-le_length inv.list (s.threads j).at (some_node inv.list inv.top),
        inv.lengths,
      )
    where
      some_node : (ys : Cells) → first_of ys ≡ first → ys ≢ []
      some_node ys e none_left = first_node (sym e ∙ ap first_of none_left)
