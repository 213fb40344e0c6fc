-- ===== src/Mythread/Protocol/Waking.antt =====
-- The sleep of `mythread_join` in the futex on `finished`, and the wake-up of 1.6/src/mythread.c by the
-- thread.
use os_5_sem.Base.{
  ℕ, zero, suc, ◌≡◌, refl, sym, ◌∙◌, Bool, true, false, ◌==◌, arith, Bool-cases, inl, inr,
}
use os_5_sem.Mythread.Protocol.{
  Shared, Choice, Pc, idle, joining, detaching, starting, reaping, Startup, run, finish, wake,
  load_state, mark, enqueue, exited, reaper_wait, reaper_reap, reaper_release, System, init_pc,
  turn, step, Reach, start, later,
}

-- Only between its store to `finished` and its wake-up may the thread leave a sleeper.
abbrev pub Awake : Shared → Pc → Type 0
Awake m thread = m.sleeping ≡ true → m.finished ≡ true → thread ≡ starting wake

-- The thread has made its wake-up.
abbrev pub woke : Pc → Bool
woke (starting load_state) = true
woke (starting mark) = true
woke (starting enqueue) = true
woke (starting exited) = true
woke _ = false

abbrev is_thread : Pc → Bool
is_thread (starting t) = true
is_thread _ = false

-- Agent 0 is the thread, and no other agent is.
abbrev number_is : ℕ → Bool
number_is zero = true
number_is (suc i) = false

thread_step-Awake :
    (result : ℕ) (c : Choice) (m : Shared) (t : Startup)
    → Awake m (starting t)
    → Awake (step result c m (starting t)).0 (step result c m (starting t)).1
unfolding step
thread_step-Awake result c m run h = λ asleep done. absurd (ground (arith, h asleep done))
thread_step-Awake result c m finish h = λ asleep done. refl
thread_step-Awake result c m wake h = λ asleep done. absurd (cc)
thread_step-Awake result c m load_state h = λ asleep done. absurd (ground (arith, h asleep done))
thread_step-Awake result c m mark h = λ asleep done. absurd (ground (arith, h asleep done))
thread_step-Awake result c m enqueue h = elim (Bool-cases c.no_memory) [
  | inl full ↦ rw full (λ asleep done. absurd (ground (arith, h asleep done)))
  | inr more ↦ rw more (λ asleep done. absurd (ground (arith, h asleep done)))
]
thread_step-Awake result c m exited h = λ asleep done. absurd (ground (arith, h asleep done))

-- No other agent sets `finished`, and none goes to sleep once it is set.
step-sleeping :
    (result : ℕ) (c : Choice) (m : Shared) (p : Pc)
    → is_thread p ≡ false
    → ((step result c m p).0.finished ≡ m.finished)
      × ((step result c m p).0.sleeping ≡ true → m.finished ≡ true → m.sleeping ≡ true)
unfolding step
step-sleeping result c m idle no_thread = ground arith
step-sleeping result c m (joining j) no_thread = ground arith
step-sleeping result c m (detaching d) no_thread = ground arith
step-sleeping result c m (starting t) no_thread = absurd (cc)
step-sleeping result c m (reaping reaper_wait) no_thread = ground arith
step-sleeping result c m (reaping (reaper_reap zero)) no_thread = ground arith
step-sleeping result c m (reaping (reaper_reap (suc k))) no_thread = ground arith
step-sleeping result c m (reaping (reaper_release k)) no_thread = ground arith

-- A step keeps the kind of its agent, and the thread past its wake-up.
pub step-kind :
    (result : ℕ) (c : Choice) (m : Shared) (p : Pc)
    → (is_thread (step result c m p).1 ≡ is_thread p)
      × (woke p ≡ true → woke (step result c m p).1 ≡ true)
unfolding step
step-kind result c m idle = ground arith
step-kind result c m (joining j) = ground arith
step-kind result c m (detaching d) = ground arith
step-kind result c m (starting t) = ground arith
step-kind result c m (reaping reaper_wait) = ground arith
step-kind result c m (reaping (reaper_reap zero)) = ground arith
step-kind result c m (reaping (reaper_reap (suc k))) = ground arith
step-kind result c m (reaping (reaper_release k)) = ground arith

turn-kind :
    (result : ℕ) (c : Choice) (i : ℕ) (s : System) (k : ℕ)
    → is_thread ((turn result c i s).pc k) ≡ is_thread (s.pc k)
unfolding turn
turn-kind result c i s k = elim (Bool-cases (i == k)) [
  | inl same ↦ ground (arith, same, (step-kind result c s.mem (s.pc i)).0)
  | inr other ↦ rw other refl
]

Reach-kind :
    {n result : ℕ} {s : System} → Reach n result s → (k : ℕ) → is_thread (s.pc k) ≡ number_is k
unfolding init_pc
Reach-kind start zero = refl
Reach-kind start (suc zero) = refl
Reach-kind start (suc (suc k)) = refl
Reach-kind {result = result} (later {s} r c i lt) k = rw (turn-kind result c i s k) (Reach-kind r k)

thread_place : (p : Pc) → is_thread p ≡ true → (t : Startup) × (p ≡ starting t)
thread_place (starting t) e = (t, refl)
thread_place idle e = absurd (cc)
thread_place (joining j) e = absurd (cc)
thread_place (detaching d) e = absurd (cc)
thread_place (reaping r) e = absurd (cc)

-- In every reachable state where a call of join sleeps although the thread has finished, the thread's
-- next step is its wake-up.
pub Reach-Awake : {n result : ℕ} {s : System} → Reach n result s → Awake s.mem (s.pc 0)
unfolding turn init_pc
Reach-Awake start = λ asleep done. absurd (cc)
Reach-Awake {result = result} (later {s} r c zero lt) =
    let (t, at) = thread_place (s.pc 0) (Reach-kind r 0) in
    let before = Reach-Awake r in
    rw at (thread_step-Awake result c s.mem t (λ asleep done. sym at ∙ before asleep done))
Reach-Awake {result = result} (later {s} r c (suc i) lt) =
    let other = step-sleeping result c s.mem (s.pc (suc i)) (Reach-kind r (suc i)) in
    let apart : (suc i == 0) ≡ false = ground arith in
    rw apart (λ asleep done.
      let was : s.mem.finished ≡ true = sym other.0 ∙ done in
      Reach-Awake r (other.1 asleep was) was)

-- Once the thread has made its wake-up, no call sleeps.
pub woke-sleeping :
    {n result : ℕ} {s : System}
    → Reach n result s
    → s.mem.finished ≡ true
    → woke (s.pc 0) ≡ true
    → s.mem.sleeping ≡ false
woke-sleeping {s = s} r done past = elim (Bool-cases s.mem.sleeping) [
  | inl asleep ↦ absurd (ground (arith, past, Reach-Awake r asleep done))
  | inr up ↦ up
]
