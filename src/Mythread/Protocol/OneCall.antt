-- ===== src/Mythread/Protocol/OneCall.antt =====
-- The runs of Mythread/Protocol.antt in which one caller makes one call of join, and no other call is made.
use os_5_sem.Base.{ℕ, zero, suc, ◌<◌, ◌≡◌, ◌≢◌, ◌∙◌, refl, false, arith}
use os_5_sem.Mythread.Protocol.{
  Shared, join_loop, join_wait, join_futex, join_asleep, join_read, join_reap, join_release,
  join_ok, join_failed, Choice, call_join, Pc, idle, joining, detaching, starting, reaping,
  reaper_wait, reaper_reap, reaper_release, System, init, init_pc, turn, step, Reach, start, later,
}
use os_5_sem.Mythread.Protocol.Returns.{returned}

-- Agent 2 calls join, and makes no step once that call has returned. Only the thread and the reaper run
-- beside it.
pub data OneJoin (result : ℕ) : System → Type 0 where
  begin : OneJoin result init
  next :
      {s : System}
      → OneJoin result s
      → (c : Choice) (i : ℕ) → i < 3
      → c.call ≡ call_join
      → returned (s.pc i) ≡ false
      → OneJoin result (turn result c i s)

pub OneJoin-Reach : {result : ℕ} {s : System} → OneJoin result s → Reach 3 result s
OneJoin-Reach begin = start
OneJoin-Reach (next d c i inside e busy) = later (OneJoin-Reach d) c i inside

-- What agent 2 knows.
abbrev Caller : Shared → Pc → Type 0
Caller m idle = m.state.is_joined ≡ false
Caller m (joining (join_loop f)) =
    (m.state.is_joined ≡ false) × (f.is_joined ≡ false) × (f.is_detached ≡ false)
Caller m (joining join_wait) = Unit {0}
Caller m (joining join_futex) = Unit {0}
Caller m (joining join_asleep) = Unit {0}
Caller m (joining join_read) = Unit {0}
Caller m (joining (join_reap v)) = Unit {0}
Caller m (joining (join_release v)) = Unit {0}
Caller m (joining (join_ok v)) = Unit {0}
Caller m (joining join_failed) = ⊥
Caller m (detaching d) = ⊥
Caller m (starting t) = ⊥
Caller m (reaping r) = ⊥

-- The thread and the reaper.
abbrev Worker : Pc → Type 0
Worker idle = ⊥
Worker (joining j) = ⊥
Worker (detaching d) = ⊥
Worker (starting t) = Unit {0}
Worker (reaping r) = Unit {0}

Caller-step :
    (result : ℕ) (c : Choice) (m : Shared) (p : Pc)
    → c.call ≡ call_join
    → returned p ≡ false
    → m.state.is_detached ≡ false
    → Caller m p
    → ((step result c m p).0.state.is_detached ≡ false)
      × Caller (step result c m p).0 (step result c m p).1
unfolding step
Caller-step result c m idle e busy d h = ground (arith, e)
Caller-step result c m (joining (join_loop f)) e busy d h = ground arith
Caller-step result c m (joining join_wait) e busy d h = ground arith
Caller-step result c m (joining join_futex) e busy d h = ground arith
Caller-step result c m (joining join_asleep) e busy d h = ground arith
Caller-step result c m (joining join_read) e busy d h = ground arith
Caller-step result c m (joining (join_reap v)) e busy d h = ground arith
Caller-step result c m (joining (join_release v)) e busy d h = ground arith
Caller-step result c m (joining (join_ok v)) e busy d h = absurd (cc)
Caller-step result c m (joining join_failed) e busy d h = absurd h
Caller-step result c m (detaching x) e busy d h = absurd h
Caller-step result c m (starting t) e busy d h = absurd h
Caller-step result c m (reaping r) e busy d h = absurd h

Worker-step :
    (result : ℕ) (c : Choice) (m : Shared) (p : Pc)
    → Worker p
    → ((step result c m p).0.state.is_detached ≡ m.state.is_detached)
      × ((step result c m p).0.state.is_joined ≡ m.state.is_joined)
      × Worker (step result c m p).1
unfolding step
Worker-step result c m idle h = absurd h
Worker-step result c m (joining j) h = absurd h
Worker-step result c m (detaching d) h = absurd h
Worker-step result c m (starting t) h = ground arith
Worker-step result c m (reaping reaper_wait) h = ground arith
Worker-step result c m (reaping (reaper_reap zero)) h = ground arith
Worker-step result c m (reaping (reaper_reap (suc k))) h = ground arith
Worker-step result c m (reaping (reaper_release k)) h = ground arith

-- The caller's knowledge outlasts a step that leaves both flags alone.
Caller-kept :
    (m m' : Shared) (p : Pc) → m'.state.is_joined ≡ m.state.is_joined → Caller m p → Caller m' p
Caller-kept m m' idle e h = ground (arith, e)
Caller-kept m m' (joining (join_loop f)) e h = ground (arith, e)
Caller-kept m m' (joining join_wait) e h = h
Caller-kept m m' (joining join_futex) e h = h
Caller-kept m m' (joining join_asleep) e h = h
Caller-kept m m' (joining join_read) e h = h
Caller-kept m m' (joining (join_reap v)) e h = h
Caller-kept m m' (joining (join_release v)) e h = h
Caller-kept m m' (joining (join_ok v)) e h = h
Caller-kept m m' (joining join_failed) e h = h
Caller-kept m m' (detaching x) e h = h
Caller-kept m m' (starting t) e h = h
Caller-kept m m' (reaping r) e h = h

record Alone (s : System) : Type 0 where
  never_detached : s.mem.state.is_detached ≡ false
  thread : Worker (s.pc 0)
  reaper : Worker (s.pc 1)
  caller : Caller s.mem (s.pc 2)

OneJoin-Alone : {result : ℕ} {s : System} → OneJoin result s → Alone s
unfolding turn init_pc
OneJoin-Alone begin = record { never_detached = refl; thread = tt; reaper = tt; caller = refl }
OneJoin-Alone {result = result} (next {s} d c zero inside e busy) =
    let a = OneJoin-Alone d in
    let (flag, joined, w) = Worker-step result c s.mem (s.pc 0) a.thread in
    record {
      never_detached = flag ∙ a.never_detached;
      thread = w;
      reaper = a.reaper;
      caller = Caller-kept s.mem (step result c s.mem (s.pc 0)).0 (s.pc 2) joined a.caller;
    }
OneJoin-Alone {result = result} (next {s} d c (suc zero) inside e busy) =
    let a = OneJoin-Alone d in
    let (flag, joined, w) = Worker-step result c s.mem (s.pc 1) a.reaper in
    record {
      never_detached = flag ∙ a.never_detached;
      thread = a.thread;
      reaper = w;
      caller = Caller-kept s.mem (step result c s.mem (s.pc 1)).0 (s.pc 2) joined a.caller;
    }
OneJoin-Alone {result = result} (next {s} d c (suc (suc zero)) inside e busy) =
    let a = OneJoin-Alone d in
    let (flag, now) = Caller-step result c s.mem (s.pc 2) e busy a.never_detached a.caller in
    record { never_detached = flag; thread = a.thread; reaper = a.reaper; caller = now }
OneJoin-Alone (next d c (suc (suc (suc i))) inside e busy) = absurd (omega arith)

-- In every state of a run in which one caller makes one call of join and none is made of detach, that call has
-- not failed.
pub OneJoin-succeeds : {result : ℕ} {s : System} → OneJoin result s → s.pc 2 ≢ joining join_failed
OneJoin-succeeds d e = ground (arith, e, (OneJoin-Alone d).caller)
