-- ===== src/Storage/Threads/Order.antt =====
-- The order of the nodes in a list.
pub mod Swapped
use mathlib.Core.List.{Perm}
use mathlib.Core.List.Perm
use os_5_sem.Base.{
  ℕ, zero, suc, ◌+◌, ◌<◌, ◌≡◌, ◌≢◌, refl, sym, ap, ◌∙◌, Bool, true, false, ◌||◌, Option, none, some,
  List, [], ◌∷◌, ◌==◌, arith, bit, length, if◌then◌else◌, Bool-cases, inl, inr, ==_iff,
}
use os_5_sem.Storage.Memory.{
  Node, Mode, Store, exclusive, lock, unlock, next_of, len_of, len_of-ok, ◌>>=◌, set_next, write,
}
use os_5_sem.Storage.Layout.{Cells, first_of, has, Linked, store}
use os_5_sem.Storage.Swap.{swapped, Linked-swapped, swapped_same}
use os_5_sem.Storage.{swap_nodes}
use os_5_sem.Storage.Threads.{Pc, outside, swap_three}

-- The node behind `x`, or NULL.
unfoldable pub succ : Cells → ℕ → ℕ
succ [] x = 0
succ ((p, v) ∷ xs) x = if p == x then first_of xs else succ xs x

pub Linked-node :
    (h : ℕ → Option Node) (x : ℕ) (xs : Cells)
    → Linked h xs
    → has x xs ≡ true
    → (v : List ℕ) × (h x ≡ some (record { value = v; next = succ xs x }))
unfolding succ
Linked-node h x [] l member = absurd (ground arith)
Linked-node h x ((p, v) ∷ xs) l member = elim (Bool-cases (p == x)) [
  | inl here ↦ (v, ground (arith, l.2))
  | inr behind ↦ let (u, e) = Linked-node h x xs l.3 (ground arith) in (u, rw behind e)
]

pub has-succ : (x : ℕ) (xs : Cells) → succ xs x ≢ 0 → has (succ xs x) xs ≡ true
unfolding succ
has-succ x [] ne = absurd (ne refl)
has-succ x ((p, v) ∷ []) ne = absurd (ne (ground arith))
has-succ x ((p, v) ∷ (q, u) ∷ xs) ne = ground (arith, has-succ x ((q, u) ∷ xs))

pub succ-ne :
    (h : ℕ → Option Node) (x : ℕ) (xs : Cells) → Linked h xs → succ xs x ≢ 0 → succ xs x ≢ x
unfolding succ
succ-ne h x [] l ne = absurd (ne refl)
succ-ne h x ((p, v) ∷ []) l ne = absurd (ne (ground arith))
succ-ne h x ((p, v) ∷ (q, u) ∷ xs) l ne = ground (arith, l.1, succ-ne h x ((q, u) ∷ xs) l.3)

-- How many nodes stand before `x`.
unfoldable pub rank : Cells → ℕ → ℕ
rank [] x = 0
rank ((p, v) ∷ xs) x = if p == x then 0 else suc (rank xs x)

pub rank-succ :
    (h : ℕ → Option Node) (x : ℕ) (xs : Cells)
    → Linked h xs
    → succ xs x ≢ 0
    → rank xs (succ xs x) ≡ rank xs x + 1
unfolding rank succ
rank-succ h x [] l ne = absurd (ne refl)
rank-succ h x ((p, v) ∷ []) l ne = absurd (ne (ground arith))
rank-succ h x ((p, v) ∷ (q, u) ∷ xs) l ne =
    ground (arith, l.1, has-succ x ((q, u) ∷ xs), rank-succ h x ((q, u) ∷ xs) l.3)

pub rank-lt_length : (x : ℕ) (xs : Cells) → has x xs ≡ true → rank xs x < length xs
unfolding rank
rank-lt_length x [] member = absurd (ground arith)
rank-lt_length x ((p, v) ∷ xs) member = ground (arith, rank-lt_length x xs)

-- `prev`, `cur` and `next` stand behind one another.
pub record InARow (prev cur next : ℕ) (xs : Cells) : Type 0 where
  pub member : has prev xs ≡ true
  pub first_step : succ xs prev ≡ cur
  pub some_cur : cur ≢ 0
  pub second_step : succ xs cur ≡ next
  pub some_next : next ≢ 0

-- The row stands behind a front node that is not its first.
pub InARow-tail :
    {prev cur next q : ℕ} {u : List ℕ} (h : ℕ → Option Node) (xs : Cells)
    → Linked h ((q, u) ∷ xs)
    → InARow prev cur next ((q, u) ∷ xs)
    → (q == prev) ≡ false
    → InARow prev cur next xs
unfolding succ
InARow-tail {prev} h xs l row behind =
    let cur_behind : has (succ xs prev) xs ≡ true =
      has-succ prev xs (ground (arith, row.first_step, row.some_cur)) in
    record {
      member = ground (arith, row.member);
      first_step = ground (arith, row.first_step);
      some_cur = row.some_cur;
      second_step = ground (arith, row.first_step, row.second_step, cur_behind, l.1);
      some_next = row.some_next;
    }

-- Three nodes in a row are distinct.
pub InARow-apart :
    {prev cur next : ℕ} (h : ℕ → Option Node) (xs : Cells)
    → Linked h xs
    → InARow prev cur next xs
    → (prev ≢ cur) × (cur ≢ next) × (prev ≢ next)
unfolding succ
InARow-apart h [] l row = absurd (ground (arith, row.member))
InARow-apart {prev} {cur} {next} h ((q, u) ∷ xs) l row = elim (Bool-cases (q == prev)) [
  | inl front ↦
      let cur_behind : has cur xs ≡ true =
        cur_member xs (ground (arith, row.first_step)) row.some_cur in
      let step : succ xs cur ≡ next = ground (arith, row.second_step, cur_behind, l.1) in
      let next_behind : has next xs ≡ true = ground (arith, has-succ cur xs, row.some_next) in
      (
        ground (arith, cur_behind, l.1),
        ground (arith, succ-ne h cur xs l.3, row.some_next),
        ground (arith, next_behind, l.1),
      )
  | inr behind ↦ InARow-apart h xs l.3 (InARow-tail h xs l row behind)
]
  where
    cur_member : (ys : Cells) → first_of ys ≡ cur → cur ≢ 0 → has cur ys ≡ true
    cur_member [] e ne = absurd (ground arith)
    cur_member ((c, v) ∷ ys) e ne = ground arith
