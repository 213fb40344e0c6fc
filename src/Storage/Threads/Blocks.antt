-- ===== src/Storage/Threads/Blocks.antt =====
-- What one step of a thread of Storage/Threads.antt does from a place where it holds what it should.
pub mod Search
pub mod Swap
pub mod Step
use mathlib.Core.List.{Perm}
use mathlib.Core.List.Perm
use os_5_sem.Base.{
  ℕ, zero, suc, ◌+◌, ◌-◌, ◌%◌, ◌<◌, ◌≤◌, ◌*◌, ◌≡◌, ◌≢◌, refl, sym, ap, ◌∙◌, Bool, true, false, not,
  ◌&&◌, ◌||◌, Option, none, some, List, [], ◌∷◌, ◌==◌, arith, bit, length, ltb, if◌then◌else◌,
  Bool-cases, inl, inr, ==_iff,
}
use os_5_sem.Storage.Memory.{
  Node, Mode, exclusive, Store, lock, unlock, next_of, len_of, holds, holds_exclusive, release,
  next_of-ok, len_of-ok, lock-ok, unlock-ok, pure, count_pairs, count_iteration, ◌>>=◌, ◌>>◌,
}
use os_5_sem.Storage.Layout.{Cells, first_of, has, Linked, store}
use os_5_sem.Storage.Threads.{
  Role, searcher, swapper, Pc, outside, search_first, search_second, search_next, swap_first,
  swap_second, swap_walk, swap_last, Choice, search_at, walk_at, enter, block, wanted, cmp_of,
}
use os_5_sem.Storage.Threads.Order.{
  succ, rank, Linked-node, has-succ, InARow, InARow-apart, succ-ne, rank-succ, rank-lt_length,
}

-- A thread at its place: the locks that it holds, and where its pointers stand in the list.
abbrev pub Local : (mode : Mode) (first : ℕ) → Cells → Pc → List (ℕ × Mode) → Type 0
Local mode first xs outside held = held ≡ []
Local mode first xs search_first held = held ≡ []
Local mode first xs (search_second a) held =
    (held ≡ (first, mode) ∷ []) × (succ xs first ≡ a) × (a ≢ 0)
Local mode first xs (search_next a b k) held =
    (held ≡ (a, mode) ∷ []) × (has a xs ≡ true) × (succ xs a ≡ b) × (b ≢ 0)
Local mode first xs (swap_first i) held = held ≡ []
Local mode first xs (swap_second i cur) held =
    (held ≡ (first, exclusive) ∷ []) × (succ xs first ≡ cur) × (cur ≢ 0)
Local mode first xs (swap_walk i prev cur next) held =
    (held ≡ (cur, exclusive) ∷ (prev, exclusive) ∷ []) × InARow prev cur next xs
Local mode first xs (swap_last prev cur next) held =
    (held ≡ (cur, exclusive) ∷ (prev, exclusive) ∷ []) × InARow prev cur next xs

-- The locks held once the one waited for is granted.
abbrev pub taking : Option (ℕ × Mode) → List (ℕ × Mode) → List (ℕ × Mode)
taking none held = held
taking (some l) held = l ∷ held

-- Every lock of the first list is in the second, in the same mode.
pub record Within (held granted : List (ℕ × Mode)) : Type 0 where
  pub all : (x : ℕ) → holds x held ≡ true → holds x granted ≡ true
  pub exclusive_ones : (x : ℕ) → holds_exclusive x held ≡ true → holds_exclusive x granted ≡ true

-- How many steps of its own are left at most before a thread is outside again.
unfoldable pub to_go : Cells → Pc → ℕ
unfolding rank
to_go xs outside = 0
to_go xs search_first = length xs + 1
to_go xs (search_second a) = length xs
to_go xs (search_next a b k) = length xs - rank xs a
to_go xs (swap_first i) = length xs + 1
to_go xs (swap_second i cur) = length xs
to_go xs (swap_walk i prev cur next) = length xs - rank xs cur
to_go xs (swap_last prev cur next) = 1

abbrev pub is_outside : Pc → Bool
is_outside outside = true
is_outside search_first = false
is_outside (search_second a) = false
is_outside (search_next a b k) = false
is_outside (swap_first i) = false
is_outside (swap_second i cur) = false
is_outside (swap_walk i prev cur next) = false
is_outside (swap_last prev cur next) = false

-- What a thread has counted: in the round that it is in, and in all.
abbrev pub InRound : Cells → Pc → Type 0
InRound xs outside = Unit {0}
InRound xs search_first = Unit {0}
InRound xs (search_second a) = Unit {0}
InRound xs (search_next a b k) = k + 1 ≤ rank xs a
InRound xs (swap_first i) = Unit {0}
InRound xs (swap_second i cur) = Unit {0}
InRound xs (swap_walk i prev cur next) = Unit {0}
InRound xs (swap_last prev cur next) = Unit {0}

abbrev pub Tally : Cells → Pc → (iterations pairs : ℕ) → Type 0
Tally xs at i p = InRound xs at × (p ≤ i * (length xs - 2))

-- The step runs without a fault; the list is permuted behind the same first node, and no node changes its
-- place behind another that the thread has not locked exclusively.
pub record Outcome (mode : Mode) (first size : ℕ) (c : Choice) (role : Role) (at : Pc)
    (h : ℕ → Option Node) (xs : Cells) (held : List (ℕ × Mode)) (i p w : ℕ) : Type 0 where
  pub memory : ℕ → Option Node
  pub list : Cells
  pub next_at : Pc
  pub next_held : List (ℕ × Mode)
  pub iterations : ℕ
  pub pairs : ℕ
  pub swaps : ℕ
  pub runs :
      block mode first size c role at (store h held i p w)
      ≡ some (next_at, store memory next_held iterations pairs swaps)
  pub linked : Linked memory list
  pub top : first_of list ≡ first_of xs
  pub perm : Perm list xs
  pub members : (x : ℕ) → has x list ≡ has x xs
  pub same : (x : ℕ) → has x xs ≡ false → memory x ≡ h x
  pub order :
      (x : ℕ)
      → holds_exclusive x (taking (wanted mode first size at) held) ≡ false
      → succ list x ≡ succ xs x
  pub ranks :
      (x : ℕ)
      → holds_exclusive x (taking (wanted mode first size at) held) ≡ false
      → rank list x ≡ rank xs x
  pub lengths : length list ≡ length xs
  pub sooner : is_outside at ≡ false → to_go list next_at < to_go xs at
  pub mine : Local mode first list next_at next_held
  pub within : Within next_held (taking (wanted mode first size at) held)
  pub tally : Tally xs at i p → Tally list next_at iterations pairs
  pub grows : (i ≤ iterations) × (p ≤ pairs) × (w ≤ swaps)

module _ {mode : Mode} {first size : ℕ} {c : Choice} {role : Role} {at : Pc} {h : ℕ → Option Node}
    {xs : Cells} {held : List (ℕ × Mode)} {i p w : ℕ} where
  -- A step that changes no node.
  pub quiet :
      (next_at : Pc) (next_held : List (ℕ × Mode)) (i' p' w' : ℕ)
      → Linked h xs
      → block mode first size c role at (store h held i p w)
        ≡ some (next_at, store h next_held i' p' w')
      → Local mode first xs next_at next_held
      → Within next_held (taking (wanted mode first size at) held)
      → (is_outside at ≡ false → to_go xs next_at < to_go xs at)
      → (Tally xs at i p → Tally xs next_at i' p')
      → (i ≤ i') × (p ≤ p') × (w ≤ w')
      → Outcome mode first size c role at h xs held i p w
  quiet next_at next_held i' p' w' l run here within sooner tally grows = record {
    memory = h;
    list = xs;
    next_at = next_at;
    next_held = next_held;
    iterations = i';
    pairs = p';
    swaps = w';
    runs = run;
    linked = l;
    top = refl;
    perm = Perm.refl xs;
    members = λ x. refl;
    same = λ x out. refl;
    order = λ x free. refl;
    ranks = λ x free. refl;
    lengths = refl;
    sooner = sooner;
    mine = here;
    within = within;
    tally = tally;
    grows = grows;
  }

pub Within-nil : (granted : List (ℕ × Mode)) → Within [] granted
Within-nil granted = record { all = λ x e. cc; exclusive_ones = λ x e. cc }

pub Local-enter :
    (mode : Mode) (first size : ℕ) (c : Choice) (role : Role) (xs : Cells)
    → Local mode first xs (enter first size c role) []
unfolding enter
Local-enter mode first size c (searcher cmp) xs =
    elim (Bool-cases (c.running && not (ltb size 2) && not (first == 0))) [
      | inl goes ↦ rw goes refl
      | inr stays ↦ rw stays refl
    ]
Local-enter mode first size c (swapper cmp) xs =
    elim (Bool-cases (c.running && not (ltb size 2) && not (first == 0))) [
      | inl goes ↦ rw goes refl
      | inr stays ↦ rw stays refl
    ]

pub Within-same : (granted : List (ℕ × Mode)) → Within granted granted
Within-same granted = record { all = λ x e. e; exclusive_ones = λ x e. e }

pub Tally-enter :
    (first size : ℕ) (c : Choice) (role : Role) (xs : Cells) (i p : ℕ)
    → p ≤ i * (length xs - 2)
    → Tally xs (enter first size c role) i p
unfolding enter
Tally-enter first size c (searcher cmp) xs i p less =
    elim (Bool-cases (c.running && not (ltb size 2) && not (first == 0))) [
      | inl goes ↦ rw goes (tt, less)
      | inr stays ↦ rw stays (tt, less)
    ]
Tally-enter first size c (swapper cmp) xs i p less =
    elim (Bool-cases (c.running && not (ltb size 2) && not (first == 0))) [
      | inl goes ↦ rw goes (tt, less)
      | inr stays ↦ rw stays (tt, less)
    ]

-- One more round of at most `d` pairs.
pub count_round : (i p k d : ℕ) → p ≤ i * d → k ≤ d → p + k ≤ (i + 1) * d
count_round i p k d less few =
    let step : (i + 1) * d ≡ i * d + d = grind arith in omega (arith, less, few, step)
