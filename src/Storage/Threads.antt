-- ===== src/Storage/Threads.antt =====
-- The searching and swapping threads of 2.3/src, interleaved. A step runs from the acquisition of one
-- lock to the wait for the next one; what it reads and writes is checked against the locks held. The
-- pthread lock is given by what it grants: a node to no one else, or to several that share it.
pub mod Order
pub mod Blocks
pub mod Exclusion
pub mod Invariant
pub mod Safety
pub mod Counters
pub mod Progress
pub mod Bounded
pub mod Stop
mod Tests
use os_5_sem.Base.{
  ℕ, zero, suc, ◌+◌, ◌-◌, ◌%◌, ◌<◌, Bool, true, false, not, ◌&&◌, ◌||◌, Option, none, some, List,
  [], ◌∷◌, ◌==◌, ltb, if◌then◌else◌, update,
}
use os_5_sem.Storage.Memory.{
  Node, Mode, exclusive, Cmd, pure, ◌>>=◌, ◌>>◌, lock, unlock, next_of, len_of, holds,
  holds_exclusive, bars, count_pairs, count_iteration, count_swap,
}
use os_5_sem.Storage.Layout.{store}
use os_5_sem.Storage.{swap_nodes}

-- What a thread runs: `search_pairs` or `swap_pairs`, each with its comparison.
pub data Role : Type 0 where
  searcher swapper : (ℕ → ℕ → Bool) → Role

-- Where a thread waits, with its live locals. `outside` is the test of `is_running`.
pub data Pc : Type 0 where
  outside : Pc
  -- `search_pairs`: for the lock of the first node, of `a` behind it, and of `b` behind `a`.
  search_first : Pc
  search_second : (a : ℕ) → Pc
  search_next : (a b cycle_pairs : ℕ) → Pc
  -- `swap_pairs`: for the first node, the one behind it, and the one behind `cur` in the walk, with the
  -- rounds left behind it, and after the walk.
  swap_first : (left_index : ℕ) → Pc
  swap_second : (left_index cur : ℕ) → Pc
  swap_walk : (rounds prev cur next : ℕ) → Pc
  swap_last : (prev cur next : ℕ) → Pc

-- A thread with the locks that it holds and its counters.
pub record Thread : Type 0 where
  pub role : Role
  pub at : Pc
  pub held : List (ℕ × Mode)
  pub iterations : ℕ
  pub pairs : ℕ
  pub swaps : ℕ

-- `faulted` says that some thread touched a node that it had not locked or that is no node, locked a
-- node twice, or unlocked one that it did not hold.
pub record System : Type 0 where
  pub memory : ℕ → Option Node
  pub threads : ℕ → Thread
  pub faulted : Bool

-- What the environment decides: whether `is_running` is still set, and what `rand_r` returns.
pub record Choice : Type 0 where
  pub running : Bool
  pub random : ℕ

-- The head of the inner loop of `search_pairs`, with `a` locked.
pub search_at : (a cycle_pairs : ℕ) → Cmd Pc
search_at a cycle_pairs = do
  b ← next_of a
  if b == 0
      then (do unlock a; count_pairs cycle_pairs; count_iteration; pure outside)
      else pure (search_next a b cycle_pairs)

-- The head of the walk of `swap_pairs`, with `prev` and `cur` locked.
pub walk_at : (rounds prev cur : ℕ) → Cmd Pc
walk_at zero prev cur = do
  next ← next_of cur
  if next == 0 then (do unlock cur; unlock prev; pure outside) else pure (swap_last prev cur next)
walk_at (suc i) prev cur = do
  next ← next_of cur
  if next == 0 then (do unlock cur; unlock prev; pure outside) else pure (swap_walk i prev cur next)

-- The end of `swap_pairs`, with all three locked.
pub swap_three : (ℕ → ℕ → Bool) → (prev cur next : ℕ) → Cmd Pc
unfolding swap_nodes
swap_three cmp prev cur next = do
  len_left ← len_of cur
  len_right ← len_of next
  if cmp len_left len_right then (do swap_nodes prev cur next; count_swap) else pure tt
  unlock next
  unlock cur
  unlock prev
  pure outside

abbrev pub cmp_of : Role → ℕ → ℕ → Bool
cmp_of (searcher cmp) = cmp
cmp_of (swapper cmp) = cmp

-- Where `role` enters its function, if `is_running` is set, the list has two nodes, and `first` is not NULL.
pub enter : (first size : ℕ) → Choice → Role → Pc
enter first size c (searcher cmp) =
    if c.running && not (ltb size 2) && not (first == 0) then search_first else outside
enter first size c (swapper cmp) =
    if c.running && not (ltb size 2) && not (first == 0)
    then swap_first (c.random % (size - 1))
    else outside

-- `mode` is how the searching threads lock: shared in rwlock, exclusive in mutex and spinlock.
module _ (mode : Mode) (first size : ℕ) where
  -- From the acquisition on.
  pub block : Choice → Role → Pc → Cmd Pc
  unfolding search_at walk_at swap_three enter
  block c role outside = pure (enter first size c role)
  block c role search_first = do
    lock mode first
    a ← next_of first
    if a == 0 then (do unlock first; count_iteration; pure outside) else pure (search_second a)
  block c role (search_second a) = do lock mode a; unlock first; search_at a 0
  block c role (search_next a b k) = do
    lock mode b
    len_a ← len_of a
    len_b ← len_of b
    unlock a
    search_at b (if cmp_of role len_a len_b then k + 1 else k)
  block c role (swap_first i) = do
    lock exclusive first
    cur ← next_of first
    if cur == 0 then (do unlock first; pure outside) else pure (swap_second i cur)
  block c role (swap_second i cur) = do lock exclusive cur; walk_at i first cur
  block c role (swap_walk i prev cur next) = do lock exclusive next; unlock prev; walk_at i cur next
  block c role (swap_last prev cur next) = do
    lock exclusive next
    swap_three (cmp_of role) prev cur next

  -- The lock that a thread waits for.
  pub wanted : Pc → Option (ℕ × Mode)
  wanted outside = none
  wanted search_first = some (first, mode)
  wanted (search_second a) = some (a, mode)
  wanted (search_next a b k) = some (b, mode)
  wanted (swap_first i) = some (first, exclusive)
  wanted (swap_second i cur) = some (cur, exclusive)
  wanted (swap_walk i prev cur next) = some (next, exclusive)
  wanted (swap_last prev cur next) = some (next, exclusive)

-- One of the threads below `n` other than `i` bars the lock.
pub barred : (n i : ℕ) → (ℕ → Thread) → ℕ × Mode → Bool
barred zero i ts l = false
barred (suc n) i ts l = (not (n == i) && bars l.0 l.1 (ts n).held) || barred n i ts l

pub waits : (n i : ℕ) → (ℕ → Thread) → Option (ℕ × Mode) → Bool
unfolding barred
waits n i ts none = false
waits n i ts (some l) = barred n i ts l

module _ (mode : Mode) (first size n : ℕ) where
  -- Thread `i` makes a step, unless the lock that it waits for is held by another.
  pub turn : Choice → ℕ → System → System
  unfolding block wanted waits
  turn c i s =
      let t = s.threads i in
      if waits n i s.threads (wanted mode first size t.at)
      then s
      else elim (block mode first size c t.role t.at
          (store s.memory t.held t.iterations t.pairs t.swaps)) [
            | none ↦ record s { faulted = true }
            | some (at, st) ↦ record {
              memory = st.node;
              threads = update s.threads i (record t {
                at = at;
                held = st.held;
                iterations = st.iterations;
                pairs = st.pairs;
                swaps = st.swaps;
              });
              faulted = s.faulted;
            }
          ]

-- A thread that has not started.
abbrev pub new_thread : Role → Thread
new_thread role = record {
  role = role;
  at = outside;
  held = [];
  iterations = 0;
  pairs = 0;
  swaps = 0;
}

abbrev pub init : (ℕ → Option Node) → (ℕ → Role) → System
init h roles = record { memory = h; threads = λ i. new_thread (roles i); faulted = false }

-- The states that `n` threads reach in any order of steps.
pub data Reach (mode : Mode) (first size n : ℕ) (h : ℕ → Option Node) (roles : ℕ → Role)
    : System → Type 0 where
  start : Reach mode first size n h roles (init h roles)
  later :
      {s : System}
      → Reach mode first size n h roles s
      → (c : Choice) (i : ℕ) → i < n
      → Reach mode first size n h roles (turn mode first size n c i s)
