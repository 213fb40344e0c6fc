-- ===== src/Storage/Threads/Invariant.antt =====
-- What every interleaving of the threads of Storage/Threads.antt keeps: the list behind its first node, who
-- holds which lock, and where each thread stands.
use mathlib.Core.List.{Perm}
use mathlib.Core.List.Perm
use os_5_sem.Base.{
  ℕ, ◌<◌, ◌≡◌, ◌≢◌, refl, sym, ◌∙◌, true, false, Option, List, [], ◌∷◌, ◌==◌, arith, length, update,
  Bool-cases, inl, inr,
}
use os_5_sem.Storage.Memory.{Node, Mode, exclusive, holds, holds_exclusive}
use os_5_sem.Storage.Layout.{Cells, first_of, has, Linked}
use os_5_sem.Storage.Threads.{
  Role, Pc, outside, search_first, search_second, search_next, swap_first, swap_second, swap_walk,
  swap_last, Choice, Thread, System, wanted, waits, turn, Reach, start, later,
}
use os_5_sem.Storage.Threads.Exclusion.{Excludes, taking-Excludes, waits-bars}
use os_5_sem.Storage.Threads.Order.{succ, rank, InARow}
use os_5_sem.Storage.Threads.Blocks.{Local, taking, InRound, Tally, Outcome}
use os_5_sem.Storage.Threads.Blocks.Step.{step-Outcome}

pub record Inv (mode : Mode) (first n : ℕ) (h : ℕ → Option Node) (xs : Cells) (s : System)
    : Type 0 where
  pub list : Cells
  pub linked : Linked s.memory list
  pub top : first_of list ≡ first
  pub perm : Perm list xs
  pub lengths : length list ≡ length xs
  pub members : (x : ℕ) → has x list ≡ has x xs
  pub same : (x : ℕ) → has x xs ≡ false → s.memory x ≡ h x
  pub place : (i : ℕ) → i < n → Local mode first list (s.threads i).at (s.threads i).held
  pub apart : (i j : ℕ) → i < n → j < n → i ≢ j → Excludes (s.threads i).held (s.threads j).held
  pub tally :
      (i : ℕ) → i < n → Tally list (s.threads i).at (s.threads i).iterations (s.threads i).pairs
  pub safe : s.faulted ≡ false

has-first_of : (first : ℕ) (xs : Cells) → first_of xs ≡ first → first ≢ 0 → has first xs ≡ true
has-first_of first [] e ne = absurd (ground arith)
has-first_of first ((p, v) ∷ xs) e ne = ground arith

-- What a thread has locked keeps its place while another permutes nodes that it has locked exclusively.
module _ (mode : Mode) (first : ℕ) (xs ys : Cells) (granted held : List (ℕ × Mode))
    (apart : Excludes granted held) (members : (x : ℕ) → has x ys ≡ has x xs)
    (order : (x : ℕ) → holds_exclusive x granted ≡ false → succ ys x ≡ succ xs x) where
  succ-kept : (x : ℕ) → holds x held ≡ true → succ ys x ≡ succ xs x
  succ-kept x mine = elim (Bool-cases (holds_exclusive x granted)) [
    | inl taken ↦ absurd (ground (arith, apart x taken))
    | inr free ↦ order x free
  ]

  InARow-kept :
      {prev cur next : ℕ}
      → held ≡ (cur, exclusive) ∷ (prev, exclusive) ∷ []
      → InARow prev cur next xs
      → InARow prev cur next ys
  InARow-kept {prev} {cur} e row = record {
    member = members prev ∙ row.member;
    first_step = succ-kept prev (rw e (ground arith)) ∙ row.first_step;
    some_cur = row.some_cur;
    second_step = succ-kept cur (rw e (ground arith)) ∙ row.second_step;
    some_next = row.some_next;
  }

  Local-kept : (at : Pc) → Local mode first xs at held → Local mode first ys at held
  Local-kept outside here = here
  Local-kept search_first here = here
  Local-kept (search_second a) here =
      (here.0, succ-kept first (rw (here.0) (ground arith)) ∙ here.1, here.2)
  Local-kept (search_next a b k) here =
      (here.0, members a ∙ here.1, succ-kept a (rw (here.0) (ground arith)) ∙ here.2, here.3)
  Local-kept (swap_first i) here = here
  Local-kept (swap_second i cur) here =
      (here.0, succ-kept first (rw (here.0) (ground arith)) ∙ here.1, here.2)
  Local-kept (swap_walk i prev cur next) here = (here.0, InARow-kept here.0 here.1)
  Local-kept (swap_last prev cur next) here = (here.0, InARow-kept here.0 here.1)

-- The same of its rank, and of what it has counted.
module _ (xs ys : Cells) (granted held : List (ℕ × Mode)) (apart : Excludes granted held)
    (ranks : (x : ℕ) → holds_exclusive x granted ≡ false → rank ys x ≡ rank xs x) where
  pub rank-kept : (x : ℕ) → holds x held ≡ true → rank ys x ≡ rank xs x
  rank-kept x mine = elim (Bool-cases (holds_exclusive x granted)) [
    | inl taken ↦ absurd (ground (arith, apart x taken))
    | inr free ↦ ranks x free
  ]

  InRound-kept :
      (mode : Mode) (first : ℕ) (at : Pc)
      → Local mode first xs at held
      → InRound xs at
      → InRound ys at
  InRound-kept mode first outside here t = t
  InRound-kept mode first search_first here t = t
  InRound-kept mode first (search_second a) here t = t
  InRound-kept mode first (search_next a b k) here t =
      omega (arith, t, rank-kept a (rw (here.0) (ground arith)))
  InRound-kept mode first (swap_first i) here t = t
  InRound-kept mode first (swap_second i cur) here t = t
  InRound-kept mode first (swap_walk i prev cur next) here t = t
  InRound-kept mode first (swap_last prev cur next) here t = t

module _ (mode : Mode) (first size n : ℕ) (h : ℕ → Option Node) (xs : Cells)
    (first_node : first ≢ 0) where
  -- The step of a thread whose lock is granted.
  module _ (c : Choice) (i : ℕ) (s : System) (inside : i < n) (inv : Inv mode first n h xs s)
      (free : waits n i s.threads (wanted mode first size (s.threads i).at) ≡ false) where
    abbrev pub me : Thread
    me = s.threads i

    pub outcome :
        Outcome mode first size c me.role me.at s.memory inv.list me.held me.iterations me.pairs
          me.swaps
    outcome =
        step-Outcome mode first size c me.role s.memory inv.list me.iterations me.pairs me.swaps
          inv.linked (has-first_of first inv.list inv.top first_node) me.at me.held
          (inv.place i inside)

    abbrev pub granted : List (ℕ × Mode)
    granted = taking (wanted mode first size me.at) me.held

    pub against :
        (j : ℕ)
        → j < n
        → j ≢ i
        → Excludes granted (s.threads j).held × Excludes (s.threads j).held granted
    against j j_inside other =
        taking-Excludes me.held (s.threads j).held
          (inv.apart i j inside j_inside (λ e. other (sym e))) (inv.apart j i j_inside inside other)
          (wanted mode first size me.at)
          (waits-bars n i j s.threads (wanted mode first size me.at) free j_inside other)

    abbrev pub moved : System
    moved = record {
      memory = outcome.memory;
      threads = update s.threads i (record {
        role = me.role;
        at = outcome.next_at;
        held = outcome.next_held;
        iterations = outcome.iterations;
        pairs = outcome.pairs;
        swaps = outcome.swaps;
      });
      faulted = s.faulted;
    }

    pub moved-place :
        (j : ℕ) → j < n → Local mode first outcome.list (moved.threads j).at (moved.threads j).held
    moved-place j j_inside = elim (Bool-cases (i == j)) [
      | inl same ↦ rw same outcome.mine
      | inr other ↦ rw other (
          Local-kept mode first inv.list outcome.list granted (s.threads j).held
            (against j j_inside (ground arith)).0 outcome.members outcome.order (s.threads j).at
            (inv.place j j_inside))
    ]

    pub moved-apart :
        (a b : ℕ) → a < n → b < n → a ≢ b → Excludes (moved.threads a).held (moved.threads b).held
    moved-apart a b a_inside b_inside ne = elim (Bool-cases (i == a)) [
      | inl first_one ↦ elim (Bool-cases (i == b)) [
        | inl second_one ↦ absurd (ground arith)
        | inr other ↦ rw first_one (
            rw other
              (λ x e. (against b b_inside (ground arith)).0 x (outcome.within.exclusive_ones x e)))
      ]
      | inr other ↦ elim (Bool-cases (i == b)) [
        | inl second_one ↦ rw other (
            rw second_one (λ x e.
              ground (arith, (against a a_inside (ground arith)).1 x e, outcome.within.all x)))
        | inr neither ↦ rw other (rw neither (inv.apart a b a_inside b_inside ne))
      ]
    ]

    pub moved-Tally :
        (j : ℕ)
        → j < n
        → Tally outcome.list
            (moved.threads j).at
            (moved.threads j).iterations
            (moved.threads j).pairs
    moved-Tally j j_inside = elim (Bool-cases (i == j)) [
      | inl same ↦ rw same (outcome.tally (inv.tally i inside))
      | inr other ↦
          let t = inv.tally j j_inside in
          rw (other, outcome.lengths)
            (
              InRound-kept inv.list outcome.list granted (s.threads j).held
                  (against j j_inside (ground arith)).0 outcome.ranks mode first (s.threads j).at
                  (inv.place j j_inside) t.0,
              t.1,
            )
    ]

    unfoldable pub moved-Inv : Inv mode first n h xs moved
    moved-Inv = record {
      list = outcome.list;
      linked = outcome.linked;
      top = outcome.top ∙ inv.top;
      perm = Perm.trans outcome.perm inv.perm;
      lengths = outcome.lengths ∙ inv.lengths;
      members = λ x. outcome.members x ∙ inv.members x;
      same = λ x out. outcome.same x (inv.members x ∙ out) ∙ inv.same x out;
      place = moved-place;
      apart = moved-apart;
      tally = moved-Tally;
      safe = inv.safe;
    }

    pub turn-moved : turn mode first size n c i s ≡ moved
    unfolding turn
    turn-moved = rw free (rw outcome.runs)

  turn-Inv :
      (c : Choice) (i : ℕ) (s : System)
      → i < n
      → Inv mode first n h xs s
      → Inv mode first n h xs (turn mode first size n c i s)
  unfolding turn
  turn-Inv c i s inside inv =
      elim (Bool-cases (waits n i s.threads (wanted mode first size (s.threads i).at))) [
        | inl blocked ↦ rw blocked inv
        | inr free ↦ rw (turn-moved c i s inside inv free) (moved-Inv c i s inside inv free)
      ]

  pub Reach-Inv :
      (roles : ℕ → Role)
      → Linked h xs
      → first_of xs ≡ first
      → {s : System} → Reach mode first size n h roles s
      → Inv mode first n h xs s
  Reach-Inv roles l top start = record {
    list = xs;
    linked = l;
    top = top;
    perm = Perm.refl xs;
    lengths = refl;
    members = λ x. refl;
    same = λ x out. refl;
    place = λ i lt. refl;
    apart = λ i j a b ne x e. refl;
    tally = λ i lt. (tt, omega arith);
    safe = refl;
  }
  Reach-Inv roles l top (later {s} r c i inside) = turn-Inv c i s inside (Reach-Inv roles l top r)
