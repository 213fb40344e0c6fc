-- ===== src/Mythread/Protocol/Detachers.antt =====
-- The runs of Mythread/Protocol.antt in which the callers call nothing but detach.
use os_5_sem.Base.{
  ℕ, zero, suc, ◌<◌, ◌≤◌, ◌≡◌, refl, List, [], ◌∷◌, true, false, ◌==◌, arith, Bool-cases, inl, inr,
}
use os_5_sem.Mythread.Protocol.Safety.{load_after_release}
use os_5_sem.Mythread.Protocol.Later.{After, same, more}
use os_5_sem.Mythread.Protocol.{
  Shared, join_release, join_ok, detach_loop, detach_check, detach_mark, detach_enqueue, detach_ok,
  detach_failed, reaper_wait, reaper_reap, reaper_release, Choice, call_detach, Pc, idle, joining,
  detaching, starting, load_state, reaping, System, init, init_pc, turn, step, Reach, start, later,
}

-- The states that `n` agents reach where every call is one of detach, in any order of steps.
pub data OnlyDetach (n result : ℕ) : System → Type 0 where
  begin : OnlyDetach n result init
  next :
      {s : System}
      → OnlyDetach n result s
      → (c : Choice) (i : ℕ) → i < n
      → c.call ≡ call_detach
      → OnlyDetach n result (turn result c i s)

pub OnlyDetach-Reach : {n result : ℕ} {s : System} → OnlyDetach n result s → Reach n result s
OnlyDetach-Reach begin = start
OnlyDetach-Reach (next d c i inside e) = later (OnlyDetach-Reach d) c i inside

-- No call is one of join, and none has seen a join or failed.
abbrev pub Calm : Pc → Type 0
Calm idle = Unit {0}
Calm (joining j) = ⊥
Calm (detaching (detach_loop f)) = f.is_joined ≡ false
Calm (detaching detach_check) = Unit {0}
Calm (detaching detach_mark) = Unit {0}
Calm (detaching detach_enqueue) = Unit {0}
Calm (detaching detach_ok) = Unit {0}
Calm (detaching detach_failed) = ⊥
Calm (starting t) = Unit {0}
Calm (reaping r) = Unit {0}

step-Calm :
    (result : ℕ) (c : Choice) (m : Shared) (p : Pc)
    → c.call ≡ call_detach
    → m.state.is_joined ≡ false
    → Calm p
    → ((step result c m p).0.state.is_joined ≡ false) × Calm (step result c m p).1
unfolding step
step-Calm result c m idle e j h = ground (arith, e)
step-Calm result c m (joining x) e j h = absurd h
step-Calm result c m (detaching (detach_loop f)) e j h = ground arith
step-Calm result c m (detaching detach_check) e j h = ground arith
step-Calm result c m (detaching detach_mark) e j h = ground arith
step-Calm result c m (detaching detach_enqueue) e j h = ground arith
step-Calm result c m (detaching detach_ok) e j h = ground arith
step-Calm result c m (detaching detach_failed) e j h = absurd h
step-Calm result c m (starting t) e j h = ground arith
step-Calm result c m (reaping reaper_wait) e j h = ground arith
step-Calm result c m (reaping (reaper_reap zero)) e j h = ground arith
step-Calm result c m (reaping (reaper_reap (suc k))) e j h = ground arith
step-Calm result c m (reaping (reaper_release k)) e j h = ground arith

pub OnlyDetach-Calm :
    {n result : ℕ} {s : System}
    → OnlyDetach n result s
    → (s.mem.state.is_joined ≡ false) × ((i : ℕ) → Calm (s.pc i))
unfolding turn init_pc
OnlyDetach-Calm begin = (refl, start_calm)
  where
    start_calm : (i : ℕ) → Calm (init_pc i)
    start_calm zero = tt
    start_calm (suc zero) = tt
    start_calm (suc (suc i)) = tt
OnlyDetach-Calm {result = result} (next {s} d c i inside e) =
    let (j, calm) = OnlyDetach-Calm d in
    let now = step-Calm result c s.mem (s.pc i) e j (calm i) in
    (
      now.0,
      λ k. elim (Bool-cases (i == k)) [ inl it ↦ rw it now.1 | inr other ↦ rw other (calm k) ],
    )

abbrev detaches : Choice
detaches = record { call = call_detach; spurious = false; no_memory = false }

-- The agents of the list step from `s`, the last of the list first.
abbrev play : (result : ℕ) → System → List ℕ → System
play result s [] = s
play result s (i ∷ is) = turn result detaches i (play result s is)

abbrev Below : ℕ → List ℕ → Type 0
Below n [] = Unit {0}
Below n (i ∷ is) = (i < n) × Below n is

play-OnlyDetach :
    {n result : ℕ} {s : System}
    → OnlyDetach n result s
    → (is : List ℕ) → Below n is
    → OnlyDetach n result (play result s is)
play-OnlyDetach d [] below = d
play-OnlyDetach d (i ∷ is) below = next (play-OnlyDetach d is below.1) detaches i below.0 refl

play-After :
    {n result : ℕ} {s : System} (is : List ℕ) → Below n is → After n result s (play result s is)
play-After [] below = same
play-After (i ∷ is) below = more (play-After is below.1) detaches i below.0

-- A caller that detaches twice, on an object that the reaper frees in between.
detach_of_released :
    (n result : ℕ)
    → 3 ≤ n
    → (c : Choice) → c.call ≡ call_detach
    → (s : System) × (t : System) × OnlyDetach n result s
      × (s.pc 2 ≡ detaching detach_ok)
      × After n result s t
      × OnlyDetach n result t
      × (t.pc 2 ≡ idle)
      × (t.mem.released ≡ 1)
      × ((turn result c 2 t).pc 2 ≡ detaching (detach_loop t.mem.state))
      × (t.ended ≡ false)
      × ((turn result c 2 t).ended ≡ true)
unfolding turn init_pc
detach_of_released n result h c e =
    let once : OnlyDetach n result (play result init (2 ∷ 2 ∷ 2 ∷ [])) =
      play-OnlyDetach begin (2 ∷ 2 ∷ 2 ∷ []) (omega arith) in
    let rest : Below n (1 ∷ 1 ∷ 1 ∷ 0 ∷ 0 ∷ 0 ∷ 0 ∷ 0 ∷ 0 ∷ 2 ∷ []) = omega arith in
    (
      play result init (2 ∷ 2 ∷ 2 ∷ []),
      play result (play result init (2 ∷ 2 ∷ 2 ∷ [])) (1 ∷ 1 ∷ 1 ∷ 0 ∷ 0 ∷ 0 ∷ 0 ∷ 0 ∷ 0 ∷ 2 ∷ []),
      once,
      refl,
      play-After (1 ∷ 1 ∷ 1 ∷ 0 ∷ 0 ∷ 0 ∷ 0 ∷ 0 ∷ 0 ∷ 2 ∷ []) rest,
      play-OnlyDetach once (1 ∷ 1 ∷ 1 ∷ 0 ∷ 0 ∷ 0 ∷ 0 ∷ 0 ∷ 0 ∷ 2 ∷ []) rest,
      refl,
      refl,
      rw e refl,
      refl,
      rw e refl,
    )

-- For every result and every number of agents from three on, a freed object is read. A state is reachable
-- where the thread still has to load `state`, the object has not been released and a join is about to
-- release it; the next step of that join frees the object, unmaps the thread's stack and makes it return
-- the result with success, and the thread's next step, the load, touches the freed object. And where
-- nothing but detach is called, a state is reachable in which a caller has had 0 from detach, and from it
-- one in which the object has been released and the same caller is idle; calling detach once more, its
-- next step loads the word of the released object. No step before these has touched it.
pub freed_object_used :
    (n result : ℕ)
    → 3 ≤ n
    → (c : Choice) → c.call ≡ call_detach
    → ((s : System) × Reach n result s
        × (s.mem.released ≡ 0)
        × (s.pc 2 ≡ joining (join_release result))
        × (s.pc 0 ≡ starting load_state)
        × ((turn result c 2 s).mem.released ≡ 1)
        × ((turn result c 2 s).pc 2 ≡ joining (join_ok result))
        × ((turn result c 2 s).pc 0 ≡ starting load_state)
        × ((turn result c 2 s).ended ≡ false)
        × ((turn result c 0 (turn result c 2 s)).ended ≡ true))
      × ((s : System) × (t : System) × OnlyDetach n result s
          × (s.pc 2 ≡ detaching detach_ok)
          × After n result s t
          × OnlyDetach n result t
          × (t.pc 2 ≡ idle)
          × (t.mem.released ≡ 1)
          × ((turn result c 2 t).pc 2 ≡ detaching (detach_loop t.mem.state))
          × (t.ended ≡ false)
          × ((turn result c 2 t).ended ≡ true))
freed_object_used n result h c e =
    (load_after_release n result h c, detach_of_released n result h c e)
