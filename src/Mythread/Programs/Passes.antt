-- ===== src/Mythread/Programs/Passes.antt =====
-- What main of 1.6/src/main.c returns, over the runs of the library that its tests make.
use os_5_sem.Base.{false, ℕ, ◌<◌, ◌≡◌, ◌≢◌, refl, true, some}
use os_5_sem.Mythread.Protocol.{System, Pc, joining, join_failed}
use os_5_sem.Mythread.Protocol.Detachers.{OnlyDetach-Reach}
use os_5_sem.Mythread.Protocol.OneCall.{OneJoin, OneJoin-Reach, OneJoin-succeeds}
use os_5_sem.Mythread.Programs.{
  Verdict, passed, mythread_1, JoinAnswer, joined_with, join_error, test_join, is_joined, FromRun,
  test_join_holds, answer_of, detach_tests_pass, test_detach_before_exit,
  test_detach_then_join_fails, refused_with,
}
use os_5_sem.Mythread.Programs.Detaching.{
  DetachAnswer, is_done, test_detach_after_exit, test_multiple_detach, test_detach_long_running,
  test_race_detach_vs_exit, main, FromDetach, detach_succeeds, detach_rounds-true, FromJoinAfter,
}

-- What the calls of join and detach in each test return, where every call of create returns 0.
pub record Answers : Type 0 where
  pub joins : ℕ → JoinAnswer
  pub before : JoinAnswer
  pub after : DetachAnswer
  pub first : DetachAnswer
  pub second : DetachAnswer
  pub long : DetachAnswer
  pub race : ℕ → DetachAnswer
  pub then_join : JoinAnswer

abbrev pub run_main : Answers → Verdict
run_main a =
    main (test_join (λ i. true) a.joins) (test_detach_before_exit true true a.before)
      (test_detach_after_exit true (is_done a.after))
      (test_multiple_detach true (is_done a.first) (is_done a.second))
      (test_detach_long_running true (is_done a.long)) (test_race_detach_vs_exit true a.race)
      (test_detach_then_join_fails true true a.then_join)

-- A call of join on the thread that runs `mythread_1` on `i`, the only call made on it, in a run that goes
-- on after its return, in which no step touches the object after its release.
abbrev pub FromJoin : ℕ → JoinAnswer → Type 0
FromJoin i a =
    (s : System) × OneJoin (mythread_1 i) s × (s.ended ≡ false) × (answer_of (s.pc 2) ≡ some a)

-- Each call is one in a run of the library with the calls that its test makes: one join on each of ten
-- threads, a join after a detach, or detaches alone.
pub record FromRuns (a : Answers) : Type 0 where
  pub joins : (i : ℕ) → i < 10 → FromJoin i (a.joins i)
  pub before : FromJoinAfter a.before
  pub after : FromDetach a.after
  pub first : FromDetach a.first
  pub second : FromDetach a.second
  pub long : FromDetach a.long
  pub race : (i : ℕ) → i < 1000 → FromDetach (a.race i)
  pub then_join : FromJoinAfter a.then_join

join_succeeds :
    (p : Pc) (a : JoinAnswer) → p ≢ joining join_failed → answer_of p ≡ some a → is_joined a ≡ true
join_succeeds p (joined_with v) ok e = refl
join_succeeds p (join_error k) ok e = absurd (ok (refused_with p k e).1)

joins_succeed : (a : Answers) → FromRuns a → (i : ℕ) → i < 10 → is_joined (a.joins i) ≡ true
joins_succeed a from i lt =
    let (s, one, lives, e) = from.joins i lt in
    join_succeeds (s.pc 2) (a.joins i) (OneJoin-succeeds one) e

joins_run : (a : Answers) → FromRuns a → (i : ℕ) → i < 10 → FromRun i (a.joins i)
joins_run a from i lt = let (s, one, lives, e) = from.joins i lt in (3, s, 2, OneJoin-Reach one, e)

both_pass :
    (a : JoinAnswer)
    → FromJoinAfter a
    → (test_detach_before_exit true true a ≡ true)
      × (test_detach_then_join_fails true true a ≡ true)
both_pass a (n, result, s, t, u, i, j, only, done, on, e, rest, lives) =
    detach_tests_pass (OnlyDetach-Reach only) i done on j a e

-- Where every call of create returns 0, and every call of join and detach returns in a run of the library
-- in which the calls on its thread are those of its test, in any order of the steps of the callers, the
-- thread and the reaper, but with no step, up to the end of the run, that touches the object or the
-- thread's stack after the release, every test of `main` passes, no assert fails, and `main` returns 0.
pub main_passes : (a : Answers) → FromRuns a → run_main a ≡ passed
unfolding main test_detach_after_exit test_multiple_detach test_detach_long_running
    test_race_detach_vs_exit
main_passes a from =
    let joined : test_join (λ i. true) a.joins ≡ passed =
      (test_join_holds (λ i. true) a.joins (joins_run a from)).1 (λ i lt. refl)
        (joins_succeed a from) in
    rw
      (
        joined,
        (both_pass a.before from.before).0,
        detach_succeeds a.after from.after,
        detach_succeeds a.first from.first,
        detach_succeeds a.second from.second,
        detach_succeeds a.long from.long,
        detach_rounds-true 1000 a.race (λ i lt. detach_succeeds (a.race i) (from.race i lt)),
        (both_pass a.then_join from.then_join).1,
      )
      refl
