-- ===== src/Mythread/Protocol.antt =====
-- 1.6/src/mythread.c and the reaper of 1.6/src/queue.h around one `mythread_t`: the thread
-- itself, the reaper and any number of callers of join and detach, interleaved. A step is one
-- access to shared memory, with the local computation up to the next one.
pub mod Invariant
pub mod Safety
pub mod Later
pub mod Waking
pub mod Returns
pub mod Detachers
pub mod OneCall
pub mod Play
mod Tests
use os_5_sem.Base.{
  ℕ, zero, suc, ◌+◌, ◌<◌, ◌&&◌, ◌||◌, ltb, Bool, true, false, not, ◌==◌, if◌then◌else◌, update,
}
use os_5_sem.Mythread.Flags.{
  detached, joined, reaped, queued, Flags, no_flags, has, raise, same_flags,
}

-- The shared fields of the object. `nodes` counts its nodes in the reap queue, `released` the
-- times that its stack was unmapped and its memory freed, `lost` the nodes that malloc refused.
-- `sleeping` says that a call of join sleeps in the futex on `finished`; no two calls
-- wait at once. What is read after a release is what was there before it.
pub record Shared : Type 0 where
  pub retval : ℕ
  pub finished : Bool
  pub sleeping : Bool
  pub state : Flags
  pub nodes : ℕ
  pub released : ℕ
  pub lost : ℕ

-- `mythread_join`: where the call stands, with its live locals. `join_failed` is a return of -1
-- with errno EINVAL.
pub data Join : Type 0 where
  join_loop : Flags → Join
  join_wait join_futex join_asleep join_read : Join
  join_reap join_release join_ok : ℕ → Join
  join_failed : Join

-- `mythread_detach`. `detach_failed` is a return of -1 with errno EINVAL.
pub data Detach : Type 0 where
  detach_loop : Flags → Detach
  detach_check detach_mark detach_enqueue detach_ok detach_failed : Detach

-- `thread_startup`.
pub data Startup : Type 0 where
  run finish wake load_state mark enqueue exited : Startup

-- `reaper_main`: the count is of the nodes left in the list that it took.
pub data Reaper : Type 0 where
  reaper_wait : Reaper
  reaper_reap reaper_release : ℕ → Reaper

-- What the environment decides: the call that an idle agent makes, the spurious failure of a weak
-- compare-and-swap or wake-up from the futex, and the failure of malloc.
pub data Call : Type 0 where
  call_join call_join_null call_detach call_detach_null : Call

pub record Choice : Type 0 where
  pub call : Call
  pub spurious : Bool
  pub no_memory : Bool

pub data Pc : Type 0 where
  idle : Pc
  joining : Join → Pc
  detaching : Detach → Pc
  starting : Startup → Pc
  reaping : Reaper → Pc

-- `reap_enqueue`, as one step. The call of `start_reaper` before it finds the reaper started.
pub reap_enqueue : Choice → Shared → Shared
reap_enqueue c m =
    if c.no_memory then record m { lost = m.lost + 1 } else record m { nodes = m.nodes + 1 }

-- The tests of `mythread_join` on the loaded word, and the compare-and-swap.
pub join_loop_step : Shared → Flags → Shared × Join
join_loop_step m s =
    if has detached s
    then (m, join_failed)
    else if has joined s
    then (m, join_failed)
    else if same_flags m.state s
    then (record m { state = raise joined s }, join_wait)
    else (m, join_loop m.state)

pub join_step : Choice → Shared → Join → Shared × Join
unfolding join_loop_step
join_step c m (join_loop s) = join_loop_step m s
join_step c m join_wait = (m, if m.finished then join_read else join_futex)
join_step c m join_futex =
    if m.finished then (m, join_wait) else (record m { sleeping = true }, join_asleep)
join_step c m join_asleep =
    if m.sleeping && not c.spurious
    then (m, join_asleep)
    else (record m { sleeping = false }, join_wait)
join_step c m join_read = (m, join_reap m.retval)
join_step c m (join_reap v) = (
  record m { state = raise reaped m.state },
  if has reaped m.state then join_ok v else join_release v,
)
join_step c m (join_release v) = (record m { released = m.released + 1 }, join_ok v)
join_step c m (join_ok v) = (m, join_ok v)
join_step c m join_failed = (m, join_failed)

-- The tests of `mythread_detach` on the loaded word, and the weak compare-and-swap.
pub detach_loop_step : Choice → Shared → Flags → Shared × Detach
detach_loop_step c m s =
    if has detached s
    then (m, detach_ok)
    else if has joined s
    then (m, detach_failed)
    else if same_flags m.state s && not c.spurious
    then (record m { state = raise detached s }, detach_check)
    else (m, detach_loop m.state)

pub detach_step : Choice → Shared → Detach → Shared × Detach
unfolding detach_loop_step reap_enqueue
detach_step c m (detach_loop s) = detach_loop_step c m s
detach_step c m detach_check = (m, if m.finished then detach_mark else detach_ok)
detach_step c m detach_mark = (
  record m { state = raise queued m.state },
  if has queued m.state then detach_ok else detach_enqueue,
)
detach_step c m detach_enqueue = (reap_enqueue c m, detach_ok)
detach_step c m detach_ok = (m, detach_ok)
detach_step c m detach_failed = (m, detach_failed)

-- `result` is what `start_routine(arg)` returns.
pub startup_step : (result : ℕ) → Choice → Shared → Startup → Shared × Startup
unfolding reap_enqueue
startup_step result c m run = (record m { retval = result }, finish)
startup_step result c m finish = (record m { finished = true }, wake)
startup_step result c m wake = (record m { sleeping = false }, load_state)
startup_step result c m load_state = (m, if has detached m.state then mark else exited)
startup_step result c m mark =
    (record m { state = raise queued m.state }, if has queued m.state then exited else enqueue)
startup_step result c m enqueue = (reap_enqueue c m, exited)
startup_step result c m exited = (m, exited)

-- The reaper takes the whole queue, here the nodes of this object in it.
pub reaper_step : Shared → Reaper → Shared × Reaper
reaper_step m reaper_wait =
    if m.nodes == 0 then (m, reaper_wait) else (record m { nodes = 0 }, reaper_reap m.nodes)
reaper_step m (reaper_reap zero) = (m, reaper_wait)
reaper_step m (reaper_reap (suc k)) = (
  record m { state = raise reaped m.state },
  if has reaped m.state then reaper_reap k else reaper_release k,
)
reaper_step m (reaper_release k) = (record m { released = m.released + 1 }, reaper_reap k)

-- An idle agent calls join or detach, which load the word if the pointer is not NULL.
abbrev pub begin : Call → Shared → Pc
begin call_join m = joining (join_loop m.state)
begin call_join_null m = joining join_failed
begin call_detach m = detaching (detach_loop m.state)
begin call_detach_null m = detaching detach_failed

-- A call that has returned leaves its agent free to call again.
module _ (result : ℕ) where
  pub step : Choice → Shared → Pc → Shared × Pc
  unfolding join_step detach_step startup_step reaper_step
  step c m idle = (m, begin c.call m)
  step c m (joining (join_ok v)) = (m, idle)
  step c m (joining join_failed) = (m, idle)
  step c m (joining j) = let (m', j') = join_step c m j in (m', joining j')
  step c m (detaching detach_ok) = (m, idle)
  step c m (detaching detach_failed) = (m, idle)
  step c m (detaching d) = let (m', d') = detach_step c m d in (m', detaching d')
  step c m (starting t) = let (m', t') = startup_step result c m t in (m', starting t')
  step c m (reaping r) = let (m', r') = reaper_step m r in (m', reaping r')

-- The next step reads or writes the object, or runs on its stack.
abbrev pub loads : Call → Bool
loads call_join = true
loads call_join_null = false
loads call_detach = true
loads call_detach_null = false

abbrev pub touches : Choice → Pc → Bool
touches c idle = loads c.call
touches c (joining (join_ok v)) = false
touches c (joining join_failed) = false
touches c (joining j) = true
touches c (detaching detach_ok) = false
touches c (detaching detach_failed) = false
touches c (detaching d) = true
touches c (starting exited) = false
touches c (starting t) = true
touches c (reaping reaper_wait) = false
touches c (reaping (reaper_reap zero)) = false
touches c (reaping r) = true

-- `ended`: a step has touched the object after its release, which the process need not survive. What the
-- agents do from there on stands for a process that survives it. The thread's exit is one with its
-- last access to the object.
pub record System : Type 0 where
  pub mem : Shared
  pub pc : ℕ → Pc
  pub ended : Bool

-- After `mythread_create`: agent 0 is the thread, agent 1 the reaper, the others are callers.
unfoldable pub init_pc : ℕ → Pc
init_pc zero = starting run
init_pc (suc zero) = reaping reaper_wait
init_pc (suc (suc i)) = idle

abbrev pub init : System
init = record {
  mem = record {
    retval = 0;
    finished = false;
    sleeping = false;
    state = no_flags;
    nodes = 0;
    released = 0;
    lost = 0;
  };
  pc = init_pc;
  ended = false;
}

module _ (result : ℕ) where
  -- Agent `i` makes its next step.
  unfoldable pub turn : Choice → ℕ → System → System
  unfolding step
  turn c i s =
      let (m, p) = step result c s.mem (s.pc i) in
      record {
        mem = m;
        pc = update s.pc i p;
        ended = s.ended || touches c (s.pc i) && ltb 0 s.mem.released;
      }

-- The states that `n` agents reach in any order of steps.
pub data Reach (n result : ℕ) : System → Type 0 where
  start : Reach n result init
  later :
      {s : System}
      → Reach n result s
      → (c : Choice) (i : ℕ) → i < n
      → Reach n result (turn result c i s)
