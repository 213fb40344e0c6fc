-- ===== src/WoReaper/Runs.antt =====
-- Runs of WoReaper.antt with the calls that a test of 1.6/src/wo_reaper/main.c makes on one thread.
use os_5_sem.Base.{
  ℕ, zero, suc, ◌<◌, ◌≡◌, ◌∙◌, refl, Bool, true, false, arith, ◌==◌, Bool-cases, inl, inr,
}
use os_5_sem.WoReaper.{
  Shared, join_wait, join_read, join_exchange, join_release, join_ok, join_failed, detach_check,
  detach_claim, detach_release, detach_ok, detach_failed, Choice, call_join, call_detach, Pc,
  joining, detaching, starting, System, init, init_pc, turn, step, Reach, start, later,
}

-- The states that `n` agents reach where every call is one of detach, in any order of steps.
pub data OnlyDetach (n result : ℕ) : System → Type 0 where
  begins : OnlyDetach n result init
  next :
      {s : System}
      → OnlyDetach n result s
      → (c : Choice) (i : ℕ) → i < n
      → c.call ≡ call_detach
      → OnlyDetach n result (turn result c i s)

-- The states that they reach from `s` on, with any calls.
pub data After (n result : ℕ) (s : System) : System → Type 0 where
  same : After n result s s
  more :
      {t : System}
      → After n result s t
      → (c : Choice) (i : ℕ) → i < n
      → After n result s (turn result c i t)

-- Agent 1 calls join, and makes no step once that call has returned. Only the thread runs beside it.
abbrev pub returned : Pc → Bool
returned (joining (join_ok v)) = true
returned (joining join_failed) = true
returned _ = false

pub data OneJoin (result : ℕ) : System → Type 0 where
  starts : OneJoin result init
  then_next :
      {s : System}
      → OneJoin result s
      → (c : Choice) (i : ℕ) → i < 2
      → c.call ≡ call_join
      → returned (s.pc i) ≡ false
      → OneJoin result (turn result c i s)

pub OneJoin-Reach : {result : ℕ} {s : System} → OneJoin result s → Reach 2 result s
OneJoin-Reach starts = start
OneJoin-Reach (then_next d c i inside e busy) = later (OneJoin-Reach d) c i inside

-- No call is one of join, and none of detach has failed; one that has stored the flag finds it set.
abbrev pub Calm : Shared → Pc → Type 0
Calm m (joining j) = ⊥
Calm m (detaching detach_failed) = ⊥
Calm m (detaching detach_check) = m.detached ≡ true
Calm m (detaching detach_claim) = m.detached ≡ true
Calm m (detaching detach_release) = m.detached ≡ true
Calm m (detaching detach_ok) = m.detached ≡ true
Calm m _ = Unit {0}

-- No call of join has passed the test of `detached`.
abbrev pub Refused : Pc → Type 0
Refused (joining join_wait) = ⊥
Refused (joining join_read) = ⊥
Refused (joining (join_exchange v)) = ⊥
Refused (joining (join_release v)) = ⊥
Refused (joining (join_ok v)) = ⊥
Refused _ = Unit {0}

-- The one caller, where nothing is detached, and the thread.
abbrev pub Caller : Pc → Type 0
Caller (joining join_failed) = ⊥
Caller (detaching d) = ⊥
Caller (starting t) = ⊥
Caller _ = Unit {0}

abbrev pub Worker : Pc → Type 0
Worker (starting t) = Unit {0}
Worker _ = ⊥

step-Calm :
    (result : ℕ) (c : Choice) (m : Shared) (p : Pc)
    → c.call ≡ call_detach
    → Calm m p
    → Calm (step result c m p).0 (step result c m p).1
unfolding step
step-Calm result c m p e h = ground (arith, e)

-- A step never takes the flag back.
still_detached :
    (result : ℕ) (c : Choice) (m : Shared) (p : Pc)
    → m.detached ≡ true
    → (step result c m p).0.detached ≡ true
unfolding step
still_detached result c m p e = ground (arith, e)

Calm-kept :
    (m m' : Shared) (p : Pc) → (m.detached ≡ true → m'.detached ≡ true) → Calm m p → Calm m' p
Calm-kept m m' p keep h = ground (arith, keep)

step-Refused :
    (result : ℕ) (c : Choice) (m : Shared) (p : Pc)
    → m.detached ≡ true
    → Refused p
    → ((step result c m p).0.detached ≡ true) × Refused (step result c m p).1
unfolding step
step-Refused result c m p e h = ground (arith, e)

step-Caller :
    (result : ℕ) (c : Choice) (m : Shared) (p : Pc)
    → c.call ≡ call_join
    → m.detached ≡ false
    → Caller p
    → ((step result c m p).0.detached ≡ false) × Caller (step result c m p).1
unfolding step
step-Caller result c m p e d h = ground (arith, e)

step-Worker :
    (result : ℕ) (c : Choice) (m : Shared) (p : Pc)
    → Worker p
    → ((step result c m p).0.detached ≡ m.detached) × Worker (step result c m p).1
unfolding step
step-Worker result c m p h = ground arith

pub OnlyDetach-Calm :
    {n result : ℕ} {s : System} → OnlyDetach n result s → (i : ℕ) → Calm s.mem (s.pc i)
unfolding turn init_pc
OnlyDetach-Calm begins zero = tt
OnlyDetach-Calm begins (suc i) = tt
OnlyDetach-Calm {result = result} (next {s} d c i inside e) k =
    let calm = OnlyDetach-Calm d in
    elim (Bool-cases (i == k)) [
      | inl same_one ↦ rw same_one (step-Calm result c s.mem (s.pc i) e (calm i))
      | inr other ↦ rw other (
          Calm-kept s.mem (step result c s.mem (s.pc i)).0 (s.pc k)
            (still_detached result c s.mem (s.pc i)) (calm k))
    ]

-- After a detach among detaches, no call of join passes its test.
pub After-Refused :
    {n result : ℕ} {s t : System}
    → After n result s t
    → s.mem.detached ≡ true
    → ((i : ℕ) → Refused (s.pc i))
    → (t.mem.detached ≡ true) × ((i : ℕ) → Refused (t.pc i))
unfolding turn
After-Refused same e h = (e, h)
After-Refused {result = result} (more {t} a c i inside) e h =
    let (flag, refused) = After-Refused a e h in
    let now = step-Refused result c t.mem (t.pc i) flag (refused i) in
    (
      now.0,
      λ k. elim (Bool-cases (i == k)) [
        | inl same_one ↦ rw same_one now.1
        | inr other ↦ rw other (refused k)
      ],
    )

pub Calm-Refused : (m : Shared) (p : Pc) → Calm m p → Refused p
Calm-Refused m p h = ground arith

pub OneJoin-Caller :
    {result : ℕ} {s : System}
    → OneJoin result s
    → (s.mem.detached ≡ false) × Worker (s.pc 0) × Caller (s.pc 1)
unfolding turn init_pc
OneJoin-Caller starts = (refl, tt, tt)
OneJoin-Caller {result = result} (then_next {s} d c zero inside e busy) =
    let (flag, thread, caller) = OneJoin-Caller d in
    let now = step-Worker result c s.mem (s.pc 0) thread in (now.0 ∙ flag, now.1, caller)
OneJoin-Caller {result = result} (then_next {s} d c (suc zero) inside e busy) =
    let (flag, thread, caller) = OneJoin-Caller d in
    let now = step-Caller result c s.mem (s.pc 1) e flag caller in (now.0, thread, now.1)
OneJoin-Caller (then_next d c (suc (suc i)) inside e busy) = absurd (omega arith)
