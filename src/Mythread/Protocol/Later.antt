-- ===== src/Mythread/Protocol/Later.antt =====
-- What the agents of Mythread/Protocol.antt reach from a state on.
use os_5_sem.Base.{ℕ, zero, suc, ◌<◌, ◌≡◌, true, arith}
use os_5_sem.Mythread.Protocol.{
  Shared, Join, join_loop, join_wait, join_futex, join_asleep, join_read, join_reap, join_release,
  join_ok, join_failed, Detach, detach_loop, detach_check, detach_mark, detach_enqueue, detach_ok,
  detach_failed, Startup, run, finish, wake, load_state, mark, enqueue, exited, Reaper, reaper_wait,
  reaper_reap, reaper_release, Choice, Pc, idle, joining, detaching, starting, reaping, System,
  turn, step, join_step, detach_step, startup_step, reaper_step, Reach, later,
}

-- The states that the agents reach from `s` on.
pub data After (n result : ℕ) (s : System) : System → Type 0 where
  same : After n result s s
  more :
      {t : System}
      → After n result s t
      → (c : Choice) (i : ℕ) → i < n
      → After n result s (turn result c i t)

pub After-Reach :
    {n result : ℕ} {s t : System} → Reach n result s → After n result s t → Reach n result t
After-Reach r same = r
After-Reach r (more a c i inside) = later (After-Reach r a) c i inside

join_step-keeps :
    (c : Choice) (m : Shared) (j : Join)
    → m.state.is_detached ≡ true
    → (join_step c m j).0.state.is_detached ≡ true
unfolding join_step
join_step-keeps c m (join_loop s) e = ground arith
join_step-keeps c m join_wait e = e
join_step-keeps c m join_futex e = ground arith
join_step-keeps c m join_asleep e = ground arith
join_step-keeps c m join_read e = e
join_step-keeps c m (join_reap v) e = ground arith
join_step-keeps c m (join_release v) e = e
join_step-keeps c m (join_ok v) e = e
join_step-keeps c m join_failed e = e

detach_step-keeps :
    (c : Choice) (m : Shared) (d : Detach)
    → m.state.is_detached ≡ true
    → (detach_step c m d).0.state.is_detached ≡ true
unfolding detach_step
detach_step-keeps c m (detach_loop s) e = ground arith
detach_step-keeps c m detach_check e = e
detach_step-keeps c m detach_mark e = ground arith
detach_step-keeps c m detach_enqueue e = ground arith
detach_step-keeps c m detach_ok e = e
detach_step-keeps c m detach_failed e = e

startup_step-keeps :
    (result : ℕ) (c : Choice) (m : Shared) (t : Startup)
    → m.state.is_detached ≡ true
    → (startup_step result c m t).0.state.is_detached ≡ true
unfolding startup_step
startup_step-keeps result c m run e = e
startup_step-keeps result c m finish e = e
startup_step-keeps result c m wake e = e
startup_step-keeps result c m load_state e = e
startup_step-keeps result c m mark e = ground arith
startup_step-keeps result c m enqueue e = ground arith
startup_step-keeps result c m exited e = e

reaper_step-keeps :
    (m : Shared) (r : Reaper)
    → m.state.is_detached ≡ true
    → (reaper_step m r).0.state.is_detached ≡ true
unfolding reaper_step
reaper_step-keeps m reaper_wait e = ground arith
reaper_step-keeps m (reaper_reap zero) e = e
reaper_step-keeps m (reaper_reap (suc k)) e = ground arith
reaper_step-keeps m (reaper_release k) e = e

step_keeps :
    (result : ℕ) (c : Choice) (m : Shared) (p : Pc)
    → m.state.is_detached ≡ true
    → (step result c m p).0.state.is_detached ≡ true
unfolding step
step_keeps result c m idle e = e
step_keeps result c m (joining (join_loop s)) e = join_step-keeps c m (join_loop s) e
step_keeps result c m (joining join_wait) e = join_step-keeps c m join_wait e
step_keeps result c m (joining join_futex) e = join_step-keeps c m join_futex e
step_keeps result c m (joining join_asleep) e = join_step-keeps c m join_asleep e
step_keeps result c m (joining join_read) e = join_step-keeps c m join_read e
step_keeps result c m (joining (join_reap v)) e = join_step-keeps c m (join_reap v) e
step_keeps result c m (joining (join_release v)) e = join_step-keeps c m (join_release v) e
step_keeps result c m (joining (join_ok v)) e = e
step_keeps result c m (joining join_failed) e = e
step_keeps result c m (detaching (detach_loop s)) e = detach_step-keeps c m (detach_loop s) e
step_keeps result c m (detaching detach_check) e = detach_step-keeps c m detach_check e
step_keeps result c m (detaching detach_mark) e = detach_step-keeps c m detach_mark e
step_keeps result c m (detaching detach_enqueue) e = detach_step-keeps c m detach_enqueue e
step_keeps result c m (detaching detach_ok) e = e
step_keeps result c m (detaching detach_failed) e = e
step_keeps result c m (starting t) e = startup_step-keeps result c m t e
step_keeps result c m (reaping r) e = reaper_step-keeps m r e

-- Once detached, always detached.
pub After-detached :
    {n result : ℕ} {s t : System}
    → After n result s t
    → s.mem.state.is_detached ≡ true
    → t.mem.state.is_detached ≡ true
unfolding turn
After-detached same e = e
After-detached {result = result} (more {t} a c i inside) e =
    step_keeps result c t.mem (t.pc i) (After-detached a e)
