-- ===== src/Mythread/Protocol/Invariant.antt =====
-- What every interleaving of 1.6/src/mythread.c and the reaper keeps: who may still release the
-- object, and what an agent's place in the code says of shared memory.
use os_5_sem.Base.{
  ℕ, zero, suc, ◌+◌, ◌≤◌, ◌<◌, ◌≡◌, refl, true, false, ◌||◌, arith, bit, update, total,
  total-update, total-ge, total-eq_zero,
}
use os_5_sem.Mythread.Flags.{Flags, eq_of_same}
use os_5_sem.Mythread.Protocol.{
  Shared, join_loop, join_wait, join_futex, join_asleep, join_read, join_reap, join_release,
  join_ok, join_failed, detach_loop, detach_check, detach_mark, detach_enqueue, detach_ok,
  detach_failed, run, finish, wake, load_state, mark, enqueue, exited, reaper_wait, reaper_reap,
  reaper_release, Choice, Pc, idle, joining, detaching, starting, reaping, step, System, init_pc,
  init, turn, Reach, start, later,
}

-- Releases that an agent may still make and for which it has not set MT_REAPED.
abbrev pub pending : Pc → ℕ
pending (joining join_wait) = 1
pending (joining join_futex) = 1
pending (joining join_asleep) = 1
pending (joining join_read) = 1
pending (joining (join_reap v)) = 1
pending (detaching detach_enqueue) = 1
pending (starting enqueue) = 1
pending (reaping (reaper_reap k)) = k
pending (reaping (reaper_release k)) = k
pending _ = 0

-- Releases that an agent is about to make, having set MT_REAPED.
abbrev pub releasing : Pc → ℕ
releasing (joining (join_release v)) = 1
releasing (reaping (reaper_release k)) = 1
releasing _ = 0

-- The object has been claimed, by a join or by the queue.
abbrev pub claimed : Flags → ℕ
claimed s = bit (s.is_joined || s.is_queued)

-- Every flag of the first word is set in the second.
abbrev pub Within : Flags → Flags → Type 0
Within s t =
    (bit s.is_detached ≤ bit t.is_detached)
    × (bit s.is_joined ≤ bit t.is_joined)
    × (bit s.is_reaped ≤ bit t.is_reaped)
    × (bit s.is_queued ≤ bit t.is_queued)

-- What an agent knows where it stands.
abbrev pub Seen : (result : ℕ) → Shared → Pc → Type 0
Seen result m (joining (join_loop s)) = Within s m.state
Seen result m (joining join_wait) = m.state.is_joined ≡ true
Seen result m (joining join_futex) = m.state.is_joined ≡ true
Seen result m (joining join_asleep) = m.state.is_joined ≡ true
Seen result m (joining join_read) = (m.state.is_joined ≡ true) × (m.finished ≡ true)
Seen result m (joining (join_reap v)) =
    (m.state.is_joined ≡ true) × (m.finished ≡ true) × (v ≡ result)
Seen result m (joining (join_release v)) =
    (m.state.is_joined ≡ true) × (m.finished ≡ true) × (v ≡ result)
Seen result m (joining (join_ok v)) =
    (m.state.is_joined ≡ true) × (m.finished ≡ true) × (v ≡ result)
Seen result m (detaching (detach_loop s)) = Within s m.state
Seen result m (detaching detach_check) = m.state.is_detached ≡ true
Seen result m (detaching detach_mark) = (m.state.is_detached ≡ true) × (m.finished ≡ true)
Seen result m (detaching detach_enqueue) = (m.state.is_detached ≡ true) × (m.finished ≡ true)
Seen result m (detaching detach_ok) = m.state.is_detached ≡ true
Seen result m (starting finish) = m.retval ≡ result
Seen result m (starting wake) = m.finished ≡ true
Seen result m (starting load_state) = m.finished ≡ true
Seen result m (starting mark) = (m.state.is_detached ≡ true) × (m.finished ≡ true)
Seen result m (starting enqueue) = m.finished ≡ true
Seen result m (starting exited) = m.finished ≡ true
Seen result m (reaping (reaper_reap k)) = 0 < k → m.finished ≡ true
Seen result m (reaping (reaper_release k)) = m.finished ≡ true
Seen result m _ = Unit {0}

pub record Inv (n result : ℕ) (m : Shared) (pc : ℕ → Pc) : Type 0 where
  pub exclusive : m.state.is_joined ≡ true → m.state.is_detached ≡ false
  pub queued_detached : m.state.is_queued ≡ true → m.state.is_detached ≡ true
  -- Each claim gives one right to release, and it is pending, queued, lost or used.
  pub rights :
      total pending n pc + total releasing n pc + m.nodes + m.released + m.lost ≡ claimed m.state
  pub reaped_once : total releasing n pc + m.released ≡ bit m.state.is_reaped
  pub result_stored : m.finished ≡ true → m.retval ≡ result
  pub queued_finished : 0 < m.nodes → m.finished ≡ true
  pub released_finished : 0 < m.released → m.finished ≡ true
  pub seen : (i : ℕ) → Seen result m (pc i)

-- What an agent at `p` may rely on.
record Local (result : ℕ) (m : Shared) (p : Pc) : Type 0 where
  exclusive : m.state.is_joined ≡ true → m.state.is_detached ≡ false
  queued_detached : m.state.is_queued ≡ true → m.state.is_detached ≡ true
  room : pending p + bit m.state.is_reaped + m.nodes + m.lost ≤ claimed m.state
  result_stored : m.finished ≡ true → m.retval ≡ result
  queued_finished : 0 < m.nodes → m.finished ≡ true
  released_finished : 0 < m.released → m.finished ≡ true
  known : Seen result m p

-- What its step does, in shared memory and to its own rights.
record Effect (result : ℕ) (m m' : Shared) (p p' : Pc) : Type 0 where
  exclusive : m'.state.is_joined ≡ true → m'.state.is_detached ≡ false
  queued_detached : m'.state.is_queued ≡ true → m'.state.is_detached ≡ true
  rights :
      pending p' + releasing p' + m'.nodes + m'.released + m'.lost + claimed m.state
      ≡ pending p + releasing p + m.nodes + m.released + m.lost + claimed m'.state
  reaped_once :
      releasing p' + m'.released + bit m.state.is_reaped
      ≡ releasing p + m.released + bit m'.state.is_reaped
  result_stored : m'.finished ≡ true → m'.retval ≡ result
  queued_finished : 0 < m'.nodes → m'.finished ≡ true
  released_finished : 0 < m'.released → m'.finished ≡ true
  known : Seen result m' p'
  still_finished : m.finished ≡ true → m'.finished ≡ true
  grows : Within m.state m'.state
  still_stored : m.retval ≡ result → m'.retval ≡ result

step-Effect :
    (result : ℕ) (c : Choice) (m : Shared) (p : Pc)
    → Local result m p
    → Effect result m (step result c m p).0 p (step result c m p).1
unfolding step
step-Effect result c m idle h = ground arith
step-Effect result c m (joining (join_loop s)) h = ground (arith, eq_of_same m.state s)
step-Effect result c m (joining j) h = ground arith
step-Effect result c m (detaching (detach_loop s)) h = ground (arith, eq_of_same m.state s)
step-Effect result c m (detaching d) h = ground arith
step-Effect result c m (starting run) h = ground arith
step-Effect result c m (starting t) h = ground arith
step-Effect result c m (reaping reaper_wait) h = ground arith
step-Effect result c m (reaping (reaper_reap zero)) h = ground arith
step-Effect result c m (reaping (reaper_reap (suc k))) h = ground arith
step-Effect result c m (reaping (reaper_release k)) h = ground arith

Seen-mono :
    {result : ℕ} {m m' : Shared} {q q' : Pc} (p : Pc)
    → Effect result m m' q q'
    → Seen result m p
    → Seen result m' p
Seen-mono idle e h = tt
Seen-mono (joining join_failed) e h = tt
Seen-mono (joining j) e h = ground arith
Seen-mono (detaching detach_failed) e h = tt
Seen-mono (detaching d) e h = ground arith
Seen-mono (starting finish) e h = ground arith
Seen-mono (starting t) e h = ground arith
Seen-mono (reaping reaper_wait) e h = ground arith
Seen-mono (reaping (reaper_reap k)) e h = λ lt. ground (arith, h lt)
Seen-mono (reaping (reaper_release k)) e h = ground arith

module _ {n result : ℕ} {m : Shared} {pc : ℕ → Pc} (inv : Inv n result m pc) (i : ℕ)
    (lt : i < n) where
  local : Local result m (pc i)
  local = record {
    exclusive = inv.exclusive;
    queued_detached = inv.queued_detached;
    room = omega (arith, inv.rights, inv.reaped_once, total-ge pending n pc i lt);
    result_stored = inv.result_stored;
    queued_finished = inv.queued_finished;
    released_finished = inv.released_finished;
    known = inv.seen i;
  }

  Effect-Inv :
      {m' : Shared} {p' : Pc} → Effect result m m' (pc i) p' → Inv n result m' (update pc i p')
  Effect-Inv {p'} e = record {
    exclusive = e.exclusive;
    queued_detached = e.queued_detached;
    rights = omega (
      arith,
      e.rights,
      inv.rights,
      total-update pending n pc i p' lt,
      total-update releasing n pc i p' lt,
    );
    reaped_once =
        omega (arith, e.reaped_once, inv.reaped_once, total-update releasing n pc i p' lt);
    result_stored = e.result_stored;
    queued_finished = e.queued_finished;
    released_finished = e.released_finished;
    seen = λ j. ground (arith, e.known, Seen-mono (pc j) e (inv.seen j));
  }

init-Inv : (n result : ℕ) → Inv n result init.mem init.pc
unfolding init_pc
init-Inv n result = record {
  exclusive = λ h. cc;
  queued_detached = λ h. cc;
  rights = omega (
    arith,
    total-eq_zero pending n init_pc init_pending,
    total-eq_zero releasing n init_pc init_releasing,
  );
  reaped_once = omega (arith, total-eq_zero releasing n init_pc init_releasing);
  result_stored = λ h. cc;
  queued_finished = λ h. absurd (omega arith);
  released_finished = λ h. absurd (omega arith);
  seen = init_seen;
}
  where
    init_pending : (i : ℕ) → pending (init_pc i) ≡ 0
    init_pending zero = refl
    init_pending (suc zero) = refl
    init_pending (suc (suc i)) = refl

    init_releasing : (i : ℕ) → releasing (init_pc i) ≡ 0
    init_releasing zero = refl
    init_releasing (suc zero) = refl
    init_releasing (suc (suc i)) = refl

    init_seen : (i : ℕ) → Seen result init.mem (init_pc i)
    init_seen zero = tt
    init_seen (suc zero) = tt
    init_seen (suc (suc i)) = tt

-- Every reachable state satisfies the invariant.
pub Reach-Inv : {n result : ℕ} {s : System} → Reach n result s → Inv n result s.mem s.pc
unfolding turn
Reach-Inv {n} {result} start = init-Inv n result
Reach-Inv {result} (later {s} r c i lt) =
    Effect-Inv (Reach-Inv r) i lt (step-Effect result c s.mem (s.pc i) (local (Reach-Inv r) i lt))

-- A step leaves a finished thread finished.
pub turn-finished :
    {n result : ℕ} {s : System}
    → Reach n result s
    → (c : Choice) (i : ℕ) → i < n
    → s.mem.finished ≡ true
    → (turn result c i s).mem.finished ≡ true
unfolding turn
turn-finished {result = result} {s = s} r c i lt =
    (step-Effect result c s.mem (s.pc i) (local (Reach-Inv r) i lt)).still_finished
