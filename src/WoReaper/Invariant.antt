-- ===== src/WoReaper/Invariant.antt =====
-- What every interleaving of 1.6/src/wo_reaper/mythread.c keeps: the flag `joined` gives one right
-- to release, and an agent's place in the code says what shared memory holds.
use os_5_sem.Base.{
  ℕ, zero, suc, ◌+◌, ◌≤◌, ◌<◌, ◌≡◌, refl, true, arith, bit, update, total, total-update, total-ge,
  total-eq_zero,
}
use os_5_sem.WoReaper.{
  Shared, join_read, join_exchange, join_release, join_ok, join_failed, join_enter, detach_release,
  detach_check, detach_claim, detach_failed, detach_store, run, finish, claim, check_detached,
  cleanup, exited, Choice, Pc, idle, joining, detaching, starting, step, System, init_pc, init,
  turn, Reach, start, later,
}

-- The agent has claimed the object and has still to release it.
abbrev pub pending : Pc → ℕ
pending (joining (join_release v)) = 1
pending (detaching detach_release) = 1
pending (starting check_detached) = 1
pending (starting cleanup) = 1
pending _ = 0

abbrev pub Seen : (result : ℕ) → Shared → Pc → Type 0
Seen result m (joining join_read) = m.finished ≡ true
Seen result m (joining (join_exchange v)) = (m.finished ≡ true) × (v ≡ result)
Seen result m (joining (join_release v)) = (m.finished ≡ true) × (v ≡ result)
Seen result m (joining (join_ok v)) = (m.finished ≡ true) × (m.joined ≡ true) × (v ≡ result)
Seen result m (detaching detach_check) = m.detached ≡ true
Seen result m (detaching detach_claim) = m.finished ≡ true
Seen result m (detaching detach_release) = m.finished ≡ true
Seen result m (starting finish) = m.retval ≡ result
Seen result m (starting claim) = m.finished ≡ true
Seen result m (starting check_detached) = m.finished ≡ true
Seen result m (starting cleanup) = (m.finished ≡ true) × (m.detached ≡ true)
Seen result m (starting exited) = (m.finished ≡ true) × (m.joined ≡ true)
Seen result m _ = Unit {0}

pub record Inv (n result : ℕ) (m : Shared) (pc : ℕ → Pc) : Type 0 where
  pub rights : total pending n pc + m.released + m.abandoned ≡ bit m.joined
  pub result_stored : m.finished ≡ true → m.retval ≡ result
  pub released_finished : 0 < m.released → m.finished ≡ true
  pub seen : (i : ℕ) → Seen result m (pc i)

-- What an agent at `p` may rely on.
record Local (result : ℕ) (m : Shared) (p : Pc) : Type 0 where
  room : pending p + m.released + m.abandoned ≤ bit m.joined
  result_stored : m.finished ≡ true → m.retval ≡ result
  released_finished : 0 < m.released → m.finished ≡ true
  known : Seen result m p

-- What its step does, in shared memory and to its own right.
record Effect (result : ℕ) (m m' : Shared) (p p' : Pc) : Type 0 where
  rights :
      pending p' + m'.released + m'.abandoned + bit m.joined
      ≡ pending p + m.released + m.abandoned + bit m'.joined
  result_stored : m'.finished ≡ true → m'.retval ≡ result
  released_finished : 0 < m'.released → m'.finished ≡ true
  known : Seen result m' p'
  still_finished : m.finished ≡ true → m'.finished ≡ true
  still_detached : m.detached ≡ true → m'.detached ≡ true
  still_joined : m.joined ≡ true → m'.joined ≡ true
  still_stored : m.retval ≡ result → m'.retval ≡ result

step-Effect :
    (result : ℕ) (c : Choice) (m : Shared) (p : Pc)
    → Local result m p
    → Effect result m (step result c m p).0 p (step result c m p).1
unfolding step
step-Effect result c m idle h = ground arith
step-Effect result c m (joining join_failed) h = ground arith
step-Effect result c m (joining j) h = ground arith
step-Effect result c m (detaching detach_failed) h = ground arith
step-Effect result c m (detaching d) h = ground arith
step-Effect result c m (starting run) h = ground arith
step-Effect result c m (starting t) h = ground arith

Seen-mono :
    {result : ℕ} {m m' : Shared} {q q' : Pc} (p : Pc)
    → Effect result m m' q q'
    → Seen result m p
    → Seen result m' p
Seen-mono idle e h = tt
Seen-mono (joining join_enter) e h = tt
Seen-mono (joining j) e h = ground arith
Seen-mono (detaching detach_store) e h = tt
Seen-mono (detaching d) e h = ground arith
Seen-mono (starting run) e h = tt
Seen-mono (starting t) e h = ground arith

module _ {n result : ℕ} {m : Shared} {pc : ℕ → Pc} (inv : Inv n result m pc) (i : ℕ)
    (lt : i < n) where
  local : Local result m (pc i)
  local = record {
    room = omega (arith, inv.rights, total-ge pending n pc i lt);
    result_stored = inv.result_stored;
    released_finished = inv.released_finished;
    known = inv.seen i;
  }

  Effect-Inv :
      {m' : Shared} {p' : Pc} → Effect result m m' (pc i) p' → Inv n result m' (update pc i p')
  Effect-Inv {p'} e = record {
    rights = omega (arith, e.rights, inv.rights, total-update pending n pc i p' lt);
    result_stored = e.result_stored;
    released_finished = e.released_finished;
    seen = λ j. ground (arith, e.known, Seen-mono (pc j) e (inv.seen j));
  }

init-Inv : (n result : ℕ) → Inv n result init.mem init.pc
unfolding init_pc
init-Inv n result = record {
  rights = omega (arith, total-eq_zero pending n init_pc init_pending);
  result_stored = λ h. cc;
  released_finished = λ h. absurd (omega arith);
  seen = init_seen;
}
  where
    init_pending : (i : ℕ) → pending (init_pc i) ≡ 0
    init_pending zero = refl
    init_pending (suc i) = refl

    init_seen : (i : ℕ) → Seen result init.mem (init_pc i)
    init_seen zero = tt
    init_seen (suc i) = tt

-- Every reachable state satisfies the invariant.
pub Reach-Inv : {n result : ℕ} {s : System} → Reach n result s → Inv n result s.mem s.pc
unfolding turn
Reach-Inv {n} {result} start = init-Inv n result
Reach-Inv {result} (later {s} r c i lt) =
    Effect-Inv (Reach-Inv r) i lt (step-Effect result c s.mem (s.pc i) (local (Reach-Inv r) i lt))
