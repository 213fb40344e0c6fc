-- ===== src/ReapQueue.antt =====
-- The reap queue of 1.6/src/queue.h: any number of threads in `reap_enqueue` and one in
-- `reaper_main`, interleaved. A step is one access to shared memory; under the spin lock, the queue
-- is read in one step and written back in the next, and what another agent wrote in between would be
-- lost. Threads are named by numbers.
pub mod Invariant
pub mod Delivery
pub mod Nodes
mod Tests
use os_5_sem.Base.{
  ℕ, zero, suc, ◌+◌, ◌<◌, ◌&&◌, Bool, true, false, not, List, [], ◌∷◌, ◌++◌, ◌==◌, ltb,
  if◌then◌else◌, update,
}
use os_5_sem.Base.Int.{ℤ, pos, negsuc, plus, minus, is_zero}

-- `queue` is what hangs between head and tail. `sleeping` says that the reaper sleeps in the futex
-- on `count`, `errors` counts the messages "old < processed". `linked` and `delivered` record what
-- was linked and what the reaper has handled, in order.
pub record Shared : Type 0 where
  pub lock : Bool
  pub queue : List ℕ
  pub count : ℤ
  pub sleeping : Bool
  pub errors : ℕ
  pub linked : List ℕ
  pub delivered : List ℕ

-- `reap_enqueue`, with the object to enqueue and the queue that it read under the lock.
pub data Enqueue : Type 0 where
  idle : Enqueue
  enter link : ℕ → Enqueue
  hook : ℕ → List ℕ → Enqueue
  unlock add wake : Enqueue

-- `reaper_main`: the queue that it read under the lock, a list taken and not yet handled, and the
-- number handled.
pub data Reaper : Type 0 where
  load futex asleep spin take : Reaper
  cut release : List ℕ → Reaper
  process : List ℕ → ℕ → Reaper
  subtract : ℕ → Reaper

-- What the environment decides: the object to enqueue, the failure of malloc, and the spurious
-- failure of the lock's weak compare-and-swap or wake-up from the futex.
pub record Choice : Type 0 where
  pub thread : ℕ
  pub no_memory : Bool
  pub spurious : Bool

-- The compare-and-swap of `spin_lock` succeeds.
abbrev pub wins : Choice → Shared → Bool
wins c m = not m.lock && not c.spurious

-- `reap_enqueue`. The wake-up ends the sleep of the reaper.
pub enqueue_step : Choice → Shared → Enqueue → Shared × Enqueue
enqueue_step c m idle = (m, if c.no_memory then idle else enter c.thread)
enqueue_step c m (enter t) = if wins c m then (record m { lock = true }, link t) else (m, enter t)
enqueue_step c m (link t) = (m, hook t m.queue)
enqueue_step c m (hook t q) =
    (record m { queue = q ++ t ∷ []; linked = m.linked ++ t ∷ [] }, unlock)
enqueue_step c m unlock = (record m { lock = false }, add)
enqueue_step c m add = (record m { count = plus m.count 1 }, if is_zero m.count then wake else idle)
enqueue_step c m wake = (record m { sleeping = false }, idle)

-- `old < processed`
abbrev pub below : ℤ → ℕ → Bool
below (pos n) k = ltb n k
below (negsuc n) k = true

-- An empty list sends the reaper back to the load.
abbrev pub after_take : List ℕ → Reaper
after_take [] = load
after_take (t ∷ ts) = process (t ∷ ts) 0

pub reaper_step : Choice → Shared → Reaper → Shared × Reaper
reaper_step c m load = (m, if is_zero m.count then futex else spin)
reaper_step c m futex =
    if is_zero m.count then (record m { sleeping = true }, asleep) else (m, load)
reaper_step c m asleep =
    if m.sleeping && not c.spurious then (m, asleep) else (record m { sleeping = false }, load)
reaper_step c m spin = if wins c m then (record m { lock = true }, take) else (m, spin)
reaper_step c m take = (m, cut m.queue)
reaper_step c m (cut q) = (record m { queue = [] }, release q)
reaper_step c m (release ts) = (record m { lock = false }, after_take ts)
reaper_step c m (process [] k) = (m, subtract k)
reaper_step c m (process (t ∷ ts) k) =
    (record m { delivered = m.delivered ++ t ∷ [] }, process ts (k + 1))
reaper_step c m (subtract k) = (
  record m { count = minus m.count k; errors = m.errors + (if below m.count k then 1 else 0) },
  load,
)

pub record System : Type 0 where
  pub mem : Shared
  pub reaper : Reaper
  pub pc : ℕ → Enqueue

abbrev pub init : System
init = record {
  mem = record {
    lock = false;
    queue = [];
    count = pos 0;
    sleeping = false;
    errors = 0;
    linked = [];
    delivered = [];
  };
  reaper = load;
  pc = λ i. idle;
}

-- The reaper makes its next step.
pub reap : Choice → System → System
unfolding reaper_step
reap c s = let (m, r) = reaper_step c s.mem s.reaper in record s { mem = m; reaper = r }

-- Thread `i` makes its next step.
pub enqueue : Choice → ℕ → System → System
unfolding enqueue_step
enqueue c i s =
    let (m, p) = enqueue_step c s.mem (s.pc i) in record s { mem = m; pc = update s.pc i p }

-- The states that the reaper and `n` threads reach in any order of steps.
pub data Reach (n : ℕ) : System → Type 0 where
  start : Reach n init
  by_reaper : {s : System} → Reach n s → (c : Choice) → Reach n (reap c s)
  by_thread : {s : System} → Reach n s → (c : Choice) (i : ℕ) → i < n → Reach n (enqueue c i s)
