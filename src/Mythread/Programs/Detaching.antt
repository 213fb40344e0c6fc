-- ===== src/Mythread/Programs/Detaching.antt =====
-- The tests of 1.6/src/main.c that only detach, and its main. The sleeps are steps of the thread and of
-- the reaper.
use os_5_sem.Base.{
  ℕ, zero, suc, ◌<◌, ◌≡◌, refl, Bool, true, false, not, Option, none, some, ◌==◌, arith,
  if◌then◌else◌,
}
use os_5_sem.Mythread.Kernel.{einval}
use os_5_sem.Mythread.Protocol.{
  detach_loop, detach_check, detach_mark, detach_enqueue, detach_ok, detach_failed, Pc, idle,
  joining, detaching, starting, reaping, System,
}
use mathlib.Core.Path.{subst}
use os_5_sem.Mythread.Protocol.Later.{After}
use os_5_sem.Mythread.Protocol.Detachers.{OnlyDetach, Calm, OnlyDetach-Calm}
use os_5_sem.Mythread.Programs.{Verdict, passed, failed, aborted, JoinAnswer, answer_of}

-- What `mythread_detach` returned: 0, or -1 with an errno.
pub data DetachAnswer : Type 0 where
  detach_done : DetachAnswer
  detach_error : ℕ → DetachAnswer

abbrev pub is_done : DetachAnswer → Bool
is_done detach_done = true
is_done (detach_error e) = false

unfoldable pub test_detach_after_exit : (created detached : Bool) → Bool
test_detach_after_exit created detached = if not created then false else detached

unfoldable pub test_multiple_detach : (created first second : Bool) → Bool
test_multiple_detach created first second =
    if not created then false else if not first then false else second

unfoldable pub test_detach_long_running : (created detached : Bool) → Bool
test_detach_long_running created detached = if not created then false else detached

-- The loop, with `n` rounds left; an error other than EINVAL ends it.
unfoldable pub detach_rounds : (n : ℕ) → (detaches : ℕ → DetachAnswer) → Bool
detach_rounds zero detaches = true
detach_rounds (suc n) detaches =
    let rest = detach_rounds n detaches in
    elim (detaches n) [
      | detach_done ↦ rest
      | detach_error e ↦ if not (e == einval) then false else rest
    ]

unfoldable pub test_race_detach_vs_exit : (created : Bool) → (ℕ → DetachAnswer) → Bool
unfolding detach_rounds
test_race_detach_vs_exit created detaches =
    if not created then false else detach_rounds 1000 detaches

-- `main`, on what its tests return, in their order.
unfoldable pub main :
    (joined : Verdict) → (before after multiple long race then_join : Bool) → Verdict
main passed before after multiple long race then_join =
    if not before
    then failed
    else if not after
    then failed
    else if not multiple
    then failed
    else if not long
    then failed
    else if not race
    then failed
    else if not then_join
    then failed
    else passed
main failed before after multiple long race then_join = failed
main aborted before after multiple long race then_join = aborted

-- What a returning call of detach gives its caller.
abbrev pub detach_answer : Pc → Option DetachAnswer
detach_answer idle = none
detach_answer (joining j) = none
detach_answer (detaching (detach_loop f)) = none
detach_answer (detaching detach_check) = none
detach_answer (detaching detach_mark) = none
detach_answer (detaching detach_enqueue) = none
detach_answer (detaching detach_ok) = some detach_done
detach_answer (detaching detach_failed) = some (detach_error einval)
detach_answer (starting t) = none
detach_answer (reaping r) = none

-- A call of detach returns from a run of the library where nothing but detach is called. The run goes on
-- after that, and no step of it touches the object after its release.
abbrev pub FromDetach : DetachAnswer → Type 0
FromDetach d =
    (n : ℕ) × (result : ℕ) × (s : System) × (t : System) × (k : ℕ) × OnlyDetach n result s
    × (detach_answer (s.pc k) ≡ some d)
    × After n result s t
    × (t.ended ≡ false)

Calm-detach_answer :
    (p : Pc) (d : DetachAnswer) → Calm p → detach_answer p ≡ some d → is_done d ≡ true
Calm-detach_answer idle d calm e = cc
Calm-detach_answer (joining j) d calm e = absurd calm
Calm-detach_answer (detaching (detach_loop f)) d calm e = cc
Calm-detach_answer (detaching detach_check) d calm e = cc
Calm-detach_answer (detaching detach_mark) d calm e = cc
Calm-detach_answer (detaching detach_enqueue) d calm e = cc
Calm-detach_answer (detaching detach_ok) d calm e = subst (λ x. answer_done x ≡ true) e refl
  where
    answer_done : Option DetachAnswer → Bool
    answer_done none = true
    answer_done (some x) = is_done x
Calm-detach_answer (detaching detach_failed) d calm e = absurd calm
Calm-detach_answer (starting t) d calm e = cc
Calm-detach_answer (reaping r) d calm e = cc

pub detach_succeeds : (d : DetachAnswer) → FromDetach d → is_done d ≡ true
detach_succeeds d (n, result, s, t, k, only, e, rest, lives) =
    Calm-detach_answer (s.pc k) d ((OnlyDetach-Calm only).1 k) e

pub detach_rounds-true :
    (n : ℕ) (detaches : ℕ → DetachAnswer)
    → ((i : ℕ) → i < n → is_done (detaches i) ≡ true)
    → detach_rounds n detaches ≡ true
unfolding detach_rounds
detach_rounds-true zero detaches all = refl
detach_rounds-true (suc n) detaches all =
    let here = all n (omega arith) in
    let rest = detach_rounds-true n detaches (λ i lt. all i (omega arith)) in
    by_answer (detaches n) here rest
  where
    by_answer :
        (d : DetachAnswer)
        → is_done d ≡ true
        → detach_rounds n detaches ≡ true
        → elim d [
          | detach_done ↦ detach_rounds n detaches
          | detach_error e ↦ if not (e == einval) then false else detach_rounds n detaches
        ]
          ≡ true
    by_answer detach_done here rest = rest
    by_answer (detach_error e) here rest = cc

-- A call of join returns from a run of the library after a detach that returned 0; the run as above.
abbrev pub FromJoinAfter : JoinAnswer → Type 0
FromJoinAfter a =
    (n : ℕ) × (result : ℕ) × (s : System) × (t : System) × (u : System) × (i : ℕ) × (j : ℕ)
    × OnlyDetach n result s
    × (s.pc i ≡ detaching detach_ok)
    × After n result s t
    × (answer_of (t.pc j) ≡ some a)
    × After n result t u
    × (u.ended ≡ false)
