-- ===== src/WoReaper.antt =====
-- 1.6/src/wo_reaper/mythread.c: the same library without a reaper, around one `mythread_t`. Agents
-- are interleaved; a step is one access to shared memory, with the local computation up to the next.
pub mod Invariant
pub mod Safety
pub mod Create
pub mod Runs
pub mod Programs
mod Tests
use os_5_sem.Base.{
  ℕ, zero, suc, ◌+◌, ◌<◌, ◌&&◌, ltb, Bool, true, false, not, ◌||◌, ◌==◌, if◌then◌else◌, update,
}

-- The shared fields of the object. `released` counts the times that its stack was unmapped and its
-- memory freed, `abandoned` the times that the code gave up a claim without doing so. What is read
-- after a release is what was there before it.
pub record Shared : Type 0 where
  pub retval : ℕ
  pub finished : Bool
  pub joined : Bool
  pub detached : Bool
  pub released : ℕ
  pub abandoned : ℕ

-- `mythread_join`. `join_failed` is a return of -1 with errno EINVAL.
pub data Join : Type 0 where
  join_enter join_wait join_read : Join
  join_exchange join_release join_ok : ℕ → Join
  join_failed : Join

-- `mythread_detach`.
pub data Detach : Type 0 where
  detach_store detach_check detach_claim detach_release detach_ok detach_failed : Detach

-- `thread_startup` and `cleanup_and_exit_from_other_stack`; `killed` is the end of the process.
pub data Startup : Type 0 where
  run finish claim check_detached cleanup exited killed : Startup

pub data Call : Type 0 where
  call_join call_join_null call_detach call_detach_null : Call

-- What the environment decides: the call of an idle agent, and whether the temporary stack is mapped.
pub record Choice : Type 0 where
  pub call : Call
  pub no_memory : Bool

pub data Pc : Type 0 where
  idle : Pc
  joining : Join → Pc
  detaching : Detach → Pc
  starting : Startup → Pc

pub join_step : Shared → Join → Shared × Join
join_step m join_enter = (m, if m.detached then join_failed else join_wait)
join_step m join_wait = (m, if m.finished then join_read else join_wait)
join_step m join_read = (m, join_exchange m.retval)
join_step m (join_exchange v) =
    (record m { joined = true }, if m.joined then join_ok v else join_release v)
join_step m (join_release v) = (record m { released = m.released + 1 }, join_ok v)
join_step m (join_ok v) = (m, join_ok v)
join_step m join_failed = (m, join_failed)

pub detach_step : Shared → Detach → Shared × Detach
detach_step m detach_store = (record m { detached = true }, detach_check)
detach_step m detach_check = (m, if m.finished then detach_claim else detach_ok)
detach_step m detach_claim =
    (record m { joined = true }, if m.joined then detach_ok else detach_release)
detach_step m detach_release = (record m { released = m.released + 1 }, detach_ok)
detach_step m detach_ok = (m, detach_ok)
detach_step m detach_failed = (m, detach_failed)

-- Unmapping the stack and freeing the object from a temporary stack, or `_exit` where there is none.
pub cleanup_and_exit_from_other_stack : Choice → Shared → Shared × Startup
cleanup_and_exit_from_other_stack c m =
    if c.no_memory
    then (record m { abandoned = m.abandoned + 1 }, killed)
    else (record m { released = m.released + 1 }, exited)

-- `result` is what `start_routine(arg)` returns.
pub startup_step : (result : ℕ) → Choice → Shared → Startup → Shared × Startup
unfolding cleanup_and_exit_from_other_stack
startup_step result c m run = (record m { retval = result }, finish)
startup_step result c m finish = (record m { finished = true }, claim)
startup_step result c m claim =
    (record m { joined = true }, if m.joined then exited else check_detached)
startup_step result c m check_detached =
    if m.detached then (m, cleanup) else (record m { abandoned = m.abandoned + 1 }, exited)
startup_step result c m cleanup = cleanup_and_exit_from_other_stack c m
startup_step result c m exited = (m, exited)
startup_step result c m killed = (m, killed)

abbrev pub begin : Call → Pc
begin call_join = joining join_enter
begin call_join_null = joining join_failed
begin call_detach = detaching detach_store
begin call_detach_null = detaching detach_failed

-- A call that has returned leaves its agent free to call again.
module _ (result : ℕ) where
  pub step : Choice → Shared → Pc → Shared × Pc
  unfolding join_step detach_step startup_step
  step c m idle = (m, begin c.call)
  step c m (joining (join_ok v)) = (m, idle)
  step c m (joining join_failed) = (m, idle)
  step c m (joining j) = let (m', j') = join_step m j in (m', joining j')
  step c m (detaching detach_ok) = (m, idle)
  step c m (detaching detach_failed) = (m, idle)
  step c m (detaching d) = let (m', d') = detach_step m d in (m', detaching d')
  step c m (starting t) = let (m', t') = startup_step result c m t in (m', starting t')

-- The next step reads or writes the object, or runs on its stack.
abbrev pub touches : Pc → Bool
touches idle = false
touches (joining (join_ok v)) = false
touches (joining join_failed) = false
touches (joining j) = true
touches (detaching detach_ok) = false
touches (detaching detach_failed) = false
touches (detaching d) = true
touches (starting exited) = false
touches (starting killed) = false
touches (starting t) = true

-- `_exit` in the thread.
abbrev pub is_killed : Pc → Bool
is_killed (starting killed) = true
is_killed _ = false

-- `ended`: `_exit` has ended the process, or a step has touched the object after its release, which the
-- process need not survive. What the agents do from there on stands for a process that goes on. The
-- thread's exit is one with its last access to the object.
pub record System : Type 0 where
  pub mem : Shared
  pub pc : ℕ → Pc
  pub ended : Bool

-- After `mythread_create`: agent 0 is the thread, the others are callers.
pub init_pc : ℕ → Pc
init_pc zero = starting run
init_pc (suc i) = idle

abbrev pub init : System
init = record {
  mem = record {
    retval = 0;
    finished = false;
    joined = false;
    detached = false;
    released = 0;
    abandoned = 0;
  };
  pc = init_pc;
  ended = false;
}

module _ (result : ℕ) where
  -- Agent `i` makes its next step.
  pub turn : Choice → ℕ → System → System
  unfolding step
  turn c i s =
      let (m, p) = step result c s.mem (s.pc i) in
      record {
        mem = m;
        pc = update s.pc i p;
        ended = s.ended || is_killed p || touches (s.pc i) && ltb 0 s.mem.released;
      }

-- The states that `n` agents reach in any order of steps.
pub data Reach (n result : ℕ) : System → Type 0 where
  start : Reach n result init
  later :
      {s : System}
      → Reach n result s
      → (c : Choice) (i : ℕ) → i < n
      → Reach n result (turn result c i s)
