-- ===== src/WoReaper/Programs.antt =====
-- The tests of 1.6/src/wo_reaper/main.c, as functions of what the calls of the library return. All but one
-- are the text of 1.6/src/main.c. The sleeps are steps of the threads.
mod Tests
use mathlib.Core.Option
use os_5_sem.Base.{
  ℕ, zero, suc, ◌*◌, ◌%◌, ◌^◌, ◌<◌, ◌≡◌, ◌≢◌, refl, ap, sym, ◌∙◌, Bool, true, false, not, ◌&&◌,
  Option, none, some, arith, if◌then◌else◌,
}
use os_5_sem.Mythread.Kernel.{einval}
use os_5_sem.Mythread.Programs.{
  Verdict, passed, failed, mythread_1, JoinAnswer, joined_with, join_error, test_join-doubles,
}
use os_5_sem.Mythread.Programs as Common
use os_5_sem.Mythread.Programs.Detaching.{
  DetachAnswer, detach_done, detach_error, is_done, detach_rounds-true,
}
use os_5_sem.Mythread.Programs.Detaching as Detaching
use os_5_sem.WoReaper.{
  Shared, join_enter, join_wait, join_read, join_exchange, join_release, join_ok, join_failed,
  detach_store, detach_check, detach_claim, detach_release, detach_ok, detach_failed, Pc, idle,
  joining, detaching, starting, System,
}
use os_5_sem.WoReaper.Runs.{
  OnlyDetach, After, OneJoin, OneJoin-Reach, Calm, Refused, Caller, OnlyDetach-Calm, After-Refused,
  Calm-Refused, OneJoin-Caller,
}
use os_5_sem.WoReaper.Safety.{join_returns_result}

abbrev pub test_detach_after_exit : (created detached : Bool) → Bool
test_detach_after_exit = Detaching.test_detach_after_exit

abbrev pub test_detach_before_exit : (created detached : Bool) → JoinAnswer → Bool
test_detach_before_exit = Common.test_detach_before_exit

abbrev pub test_join : (created : ℕ → Bool) → (joins : ℕ → JoinAnswer) → Verdict
test_join = Common.test_join

abbrev pub test_multiple_detach : (created first second : Bool) → Bool
test_multiple_detach = Detaching.test_multiple_detach

abbrev pub test_detach_long_running : (created detached : Bool) → Bool
test_detach_long_running = Detaching.test_detach_long_running

abbrev pub test_race_detach_vs_exit : (created : Bool) → (ℕ → DetachAnswer) → Bool
test_race_detach_vs_exit = Detaching.test_race_detach_vs_exit

abbrev pub test_detach_then_join_fails : (created detached : Bool) → JoinAnswer → Bool
test_detach_then_join_fails = Common.test_detach_then_join_fails

-- The loop over `n` threads; each is created and detached.
unfoldable pub test_many_detached_threads : (n : ℕ) → (created detached : ℕ → Bool) → Bool
test_many_detached_threads zero created detached = true
test_many_detached_threads (suc n) created detached =
    test_many_detached_threads n created detached && (created n && detached n)

-- `main`, on what its tests return, in their order.
unfoldable pub main :
    (joined : Verdict) → (before after multiple long race then_join many : Bool) → Verdict
main joined before after multiple long race then_join many =
    elim (Detaching.main joined before after multiple long race then_join) [
      | passed ↦ if not many then failed else passed
      | other ↦ other
    ]

-- What a returning call gives its caller.
abbrev pub join_answer : Pc → Option JoinAnswer
join_answer (joining (join_ok v)) = some (joined_with v)
join_answer (joining join_failed) = some (join_error einval)
join_answer _ = none

abbrev pub detach_answer : Pc → Option DetachAnswer
detach_answer (detaching detach_ok) = some detach_done
detach_answer (detaching detach_failed) = some (detach_error einval)
detach_answer _ = none

-- A call of join on the thread that runs `mythread_1` on `i`, the only call made on it, in a run that goes
-- on after its return, in which no step ends the process or touches the object after its release.
abbrev pub FromJoin : ℕ → JoinAnswer → Type 0
FromJoin i a =
    (s : System) × OneJoin (mythread_1 i) s × (s.ended ≡ false) × (join_answer (s.pc 1) ≡ some a)

-- A call of detach where nothing but detach is called; the run as above.
abbrev pub FromDetach : DetachAnswer → Type 0
FromDetach d =
    (n : ℕ) × (result : ℕ) × (s : System) × (t : System) × (k : ℕ) × OnlyDetach n result s
    × (detach_answer (s.pc k) ≡ some d)
    × After n result s t
    × (t.ended ≡ false)

-- A call of join after a detach that returned 0; the run as above.
abbrev pub FromJoinAfter : JoinAnswer → Type 0
FromJoinAfter a =
    (n : ℕ) × (result : ℕ) × (s : System) × (t : System) × (u : System) × (i : ℕ) × (j : ℕ)
    × OnlyDetach n result s
    × (s.pc i ≡ detaching detach_ok)
    × After n result s t
    × (join_answer (t.pc j) ≡ some a)
    × After n result t u
    × (u.ended ≡ false)

Calm-is_done :
    (m : Shared) (p : Pc) (d : DetachAnswer)
    → Calm m p
    → detach_answer p ≡ some d
    → is_done d ≡ true
Calm-is_done m p d calm e = ground arith

join_one :
    (p : Pc) (a : JoinAnswer)
    → Caller p
    → join_answer p ≡ some a
    → (v : ℕ) × (a ≡ joined_with v) × (p ≡ joining (join_ok v))
join_one p (joined_with v) h e = (v, refl, ground arith)
join_one p (join_error k) h e = absurd (ground arith)

Refused-join_answer :
    (p : Pc) (a : JoinAnswer) → Refused p → join_answer p ≡ some a → a ≡ join_error einval
Refused-join_answer p a h e = ground arith

-- What the calls of join and detach in each test return, where every call of create returns 0.
pub record Answers : Type 0 where
  pub joins : ℕ → JoinAnswer
  pub before : JoinAnswer
  pub after : DetachAnswer
  pub first : DetachAnswer
  pub second : DetachAnswer
  pub long : DetachAnswer
  pub race : ℕ → DetachAnswer
  pub then_join : JoinAnswer
  pub many : ℕ → DetachAnswer

abbrev pub run_main : Answers → Verdict
run_main a =
    main (test_join (λ i. true) a.joins) (test_detach_before_exit true true a.before)
      (test_detach_after_exit true (is_done a.after))
      (test_multiple_detach true (is_done a.first) (is_done a.second))
      (test_detach_long_running true (is_done a.long)) (test_race_detach_vs_exit true a.race)
      (test_detach_then_join_fails true true a.then_join)
      (test_many_detached_threads 50 (λ i. true) (λ i. is_done (a.many i)))

-- Each call is one in a run of the library with the calls that its test makes.
pub record FromRuns (a : Answers) : Type 0 where
  pub joins : (i : ℕ) → i < 10 → FromJoin i (a.joins i)
  pub before : FromJoinAfter a.before
  pub after : FromDetach a.after
  pub first : FromDetach a.first
  pub second : FromDetach a.second
  pub long : FromDetach a.long
  pub race : (i : ℕ) → i < 1000 → FromDetach (a.race i)
  pub then_join : FromJoinAfter a.then_join
  pub many : (i : ℕ) → i < 50 → FromDetach (a.many i)

joins_double : (a : Answers) → FromRuns a → (i : ℕ) → i < 10 → a.joins i ≡ joined_with (i * 2)
joins_double a from i small =
    let (s, one, lives, e) = from.joins i small in
    let (v, is, at) = join_one (s.pc 1) (a.joins i) (OneJoin-Caller one).2 e in
    let result = join_returns_result (OneJoin-Reach one) 1 at in
    let value : v ≡ i * 2 = result.0 ∙ omega arith in is ∙ ap (λ (x : ℕ). joined_with x) value

detach_succeeds : (d : DetachAnswer) → FromDetach d → is_done d ≡ true
detach_succeeds d (n, result, s, t, k, only, e, rest, lives) =
    Calm-is_done s.mem (s.pc k) d (OnlyDetach-Calm only k) e

join_fails : (a : JoinAnswer) → FromJoinAfter a → a ≡ join_error einval
join_fails a (n, result, s, t, u, i, j, only, done, on, e, rest, lives) =
    let calm = OnlyDetach-Calm only in
    let flag : s.mem.detached ≡ true = ground (arith, done, calm i) in
    let refused = After-Refused on flag (λ k. Calm-Refused s.mem (s.pc k) (calm k)) in
    Refused-join_answer (t.pc j) a (refused.1 j) e

many_pass :
    (n : ℕ) (detached : ℕ → Bool)
    → ((i : ℕ) → i < n → detached i ≡ true)
    → test_many_detached_threads n (λ i. true) detached ≡ true
unfolding test_many_detached_threads
many_pass zero detached all = refl
many_pass (suc n) detached all =
    let here = all n (omega arith) in
    let rest = many_pass n detached (λ i lt. all i (omega arith)) in ground (arith, here, rest)

-- Where every call of create returns 0, and every call of join and detach returns in a run of the library
-- without a reaper in which the calls on its thread are those of its test, in any order of the steps of the
-- callers and the thread, but with no step, up to the end of the run, that ends the process by `_exit` or
-- touches the object or the thread's stack after the release, every test of `main` passes, no assert
-- fails, and `main` returns 0.
pub wo_main_passes : (a : Answers) → FromRuns a → run_main a ≡ passed
unfolding main Detaching.main Detaching.test_detach_after_exit Detaching.test_multiple_detach
    Detaching.test_detach_long_running Detaching.test_race_detach_vs_exit
    Common.test_detach_before_exit Common.test_detach_then_join_fails
wo_main_passes a from =
    rw
      (
        test_join-doubles a.joins (joins_double a from),
        join_fails a.before from.before,
        detach_succeeds a.after from.after,
        detach_succeeds a.first from.first,
        detach_succeeds a.second from.second,
        detach_succeeds a.long from.long,
        detach_rounds-true 1000 a.race (λ i lt. detach_succeeds (a.race i) (from.race i lt)),
        join_fails a.then_join from.then_join,
        many_pass 50 (λ i. is_done (a.many i))
            (λ i lt. detach_succeeds (a.many i) (from.many i lt)),
      )
      refl
