-- ===== src/Storage.antt =====
-- The linked list of 2.3/src with a lock in each node. The three programs there differ in the lock
-- alone: mutex and spinlock take it exclusively, rwlock shares it among the searching threads.
pub mod Memory
pub mod Layout
pub mod Search
pub mod Swap
pub mod Swapper
pub mod Build
pub mod Threads
pub mod Program
pub mod Monitor
pub mod Rwlock
pub mod Spinlock
mod Tests
use os_5_sem.Base.{
  ℕ, zero, suc, ◌+◌, ◌-◌, ◌%◌, Bool, true, false, not, ◌||◌, Option, none, some, List, [], ◌∷◌,
  ◌==◌, ltb, if◌then◌else◌,
}
use os_5_sem.Storage.Memory.{
  Mode, exclusive, Store, Cmd, pure, ◌>>=◌, ◌>>◌, lock, unlock, next_of, len_of, set_next, stuck,
  count_pairs, count_iteration, count_swap,
}

-- `struct _Storage`.
pub record Storage : Type 0 where
  pub first : ℕ
  pub size : ℕ

pub cmp_asc : ℕ → ℕ → Bool
cmp_asc len_1 len_2 = ltb len_1 len_2

pub cmp_desc : ℕ → ℕ → Bool
cmp_desc len_1 len_2 = ltb len_2 len_1

pub cmp_equal : ℕ → ℕ → Bool
cmp_equal len_1 len_2 = len_1 == len_2

-- The inner loop of `search_pairs`; the result is `cycle_pairs`.
pub search_loop : Mode → (ℕ → ℕ → Bool) → (fuel a cycle_pairs : ℕ) → Cmd ℕ
search_loop mode cmp zero a cycle_pairs = stuck
search_loop mode cmp (suc k) a cycle_pairs = if a == 0 then pure cycle_pairs else do
  b ← next_of a
  if b == 0 then (do unlock a; pure cycle_pairs) else do
    lock mode b
    len_a ← len_of a
    len_b ← len_of b
    unlock a
    search_loop mode cmp k b (if cmp len_a len_b then cycle_pairs + 1 else cycle_pairs)

-- One round of the outer loop of `search_pairs`; false where the function returns.
pub search_cycle : Mode → (ℕ → ℕ → Bool) → (fuel : ℕ) → Storage → Cmd Bool
unfolding search_loop
search_cycle mode cmp fuel s = if s.first == 0 then pure false else do
  lock mode s.first
  a ← next_of s.first
  if a == 0 then (do unlock s.first; count_iteration; pure true) else do
    lock mode a
    unlock s.first
    cycle_pairs ← search_loop mode cmp fuel a 0
    count_pairs cycle_pairs
    count_iteration
    pure true

-- `search_pairs` over the rounds in which it finds `is_running` set.
pub search_pairs : Mode → (ℕ → ℕ → Bool) → (fuel rounds : ℕ) → Storage → Cmd (Unit {0})
search_pairs mode cmp fuel zero s = pure tt
search_pairs mode cmp fuel (suc rounds) s = do
  again ← search_cycle mode cmp fuel s
  if again then search_pairs mode cmp fuel rounds s else pure tt

-- `pair_searcher_asc` and its two companions, which differ in `cmp`.
pub pair_searcher : Mode → (ℕ → ℕ → Bool) → (fuel rounds : ℕ) → Storage → Cmd (Unit {0})
unfolding search_pairs
pair_searcher mode cmp fuel rounds s =
    if ltb s.size 2 then pure tt else search_pairs mode cmp fuel rounds s

pub swap_asc_func : ℕ → ℕ → Bool
swap_asc_func len_1 len_2 = ltb len_2 len_1

pub swap_desc_func : ℕ → ℕ → Bool
swap_desc_func len_1 len_2 = ltb len_1 len_2

pub swap_not_equal_func : ℕ → ℕ → Bool
swap_not_equal_func len_1 len_2 = not (len_1 == len_2)

pub swap_nodes : (prev node_left node_right : ℕ) → Cmd (Unit {0})
swap_nodes prev node_left node_right = do
  set_next prev node_right
  after ← next_of node_right
  set_next node_left after
  set_next node_right node_left

-- The walk of `swap_pairs`, over the rounds left; the result is `prev` and `cur`.
pub walk : (rounds prev cur : ℕ) → Cmd (ℕ × ℕ)
walk zero prev cur = pure (prev, cur)
walk (suc i) prev cur = do
  next ← next_of cur
  if next == 0 then pure (prev, cur) else do lock exclusive next; unlock prev; walk i cur next

-- `swap_pairs` once it has arrived.
pub swap_here : (ℕ → ℕ → Bool) → (prev cur : ℕ) → Cmd (Unit {0})
unfolding swap_nodes
swap_here cmp prev cur = do
  next ← next_of cur
  if next == 0 then (do unlock cur; unlock prev) else do
    lock exclusive next
    len_left ← len_of cur
    len_right ← len_of next
    if cmp len_left len_right then (do swap_nodes prev cur next; count_swap) else pure tt
    unlock next
    unlock cur
    unlock prev

-- From the walk on.
pub swap_from : (ℕ → ℕ → Bool) → (rounds prev cur : ℕ) → Cmd (Unit {0})
unfolding walk swap_here
swap_from cmp rounds prev cur = do (left, right) ← walk rounds prev cur; swap_here cmp left right

-- `random` is what `rand_r` returns; the callers have checked that the size is 2 at least.
pub swap_pairs : (ℕ → ℕ → Bool) → (random : ℕ) → Storage → Cmd (Unit {0})
unfolding swap_from
swap_pairs cmp random s =
    let left_index = random % (s.size - 1) in
    if s.first == 0 then pure tt else do
      lock exclusive s.first
      cur ← next_of s.first
      if cur == 0 then unlock s.first else do
        lock exclusive cur
        (prev, at) ← walk left_index s.first cur
        swap_here cmp prev at

-- The loop of `swapper_asc` and its two companions over the rounds in which they find `is_running`
-- set, with what `rand_r` returns in each.
pub swap_rounds : (ℕ → ℕ → Bool) → List ℕ → Storage → Cmd (Unit {0})
swap_rounds cmp [] s = pure tt
swap_rounds cmp (random ∷ rest) s = do swap_pairs cmp random s; swap_rounds cmp rest s

-- `swapper_asc` and its two companions, which differ in `cmp`.
pub swapper : (ℕ → ℕ → Bool) → List ℕ → Storage → Cmd (Unit {0})
unfolding swap_rounds
swapper cmp randoms s = if ltb s.size 2 then pure tt else swap_rounds cmp randoms s
