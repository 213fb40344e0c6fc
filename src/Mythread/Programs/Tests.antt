-- ===== src/Mythread/Programs/Tests.antt =====
-- The calls of the tests of 1.6/src/main.c, each in a run of the library.
use os_5_sem.Base.{ℕ, ◌<◌, ◌≡◌, refl, [], ◌∷◌, arith}
use os_5_sem.Mythread.Kernel.{einval}
use os_5_sem.Mythread.Protocol.{Choice, call_join, call_detach, System, turn, init_pc}
use os_5_sem.Mythread.Protocol.Later.{same, more}
use os_5_sem.Mythread.Protocol.Detachers.{OnlyDetach}
use os_5_sem.Mythread.Protocol.Detachers
use os_5_sem.Mythread.Protocol.OneCall.{OneJoin}
use os_5_sem.Mythread.Protocol.OneCall
use os_5_sem.Mythread.Protocol.Play.{calling, play}
use os_5_sem.Mythread.Programs.{mythread_1, joined_with, join_error, passed}
use os_5_sem.Mythread.Programs.Detaching.{detach_done, FromDetach, FromJoinAfter}
use os_5_sem.Mythread.Programs.Passes.{Answers, run_main, FromJoin, main_passes}

abbrev joins : Choice
joins = calling call_join

thread_in : 0 < 3
thread_in = omega arith

caller_in : 2 < 3
caller_in = omega arith

joined_run :
    (i : ℕ)
    → OneJoin
        (mythread_1 i)
        (play (mythread_1 i) joins (2 ∷ 2 ∷ 2 ∷ 2 ∷ 2 ∷ 2 ∷ 0 ∷ 0 ∷ 0 ∷ 0 ∷ []))
unfolding turn init_pc
joined_run i =
    let s2 =
      OneCall.next (OneCall.next OneCall.begin joins 0 thread_in refl refl) joins 0 thread_in refl
        refl in
    let s3 =
      OneCall.next (OneCall.next s2 joins 0 thread_in refl refl) joins 0 thread_in refl refl in
    let s4 =
      OneCall.next (OneCall.next s3 joins 2 caller_in refl refl) joins 2 caller_in refl refl in
    let s6 =
      OneCall.next (OneCall.next s4 joins 2 caller_in refl refl) joins 2 caller_in refl refl in
    OneCall.next (OneCall.next s6 joins 2 caller_in refl refl) joins 2 caller_in refl refl

-- The thread exits, and agent 2 joins it.
joins_double : (i : ℕ) → FromJoin i (joined_with (mythread_1 i))
unfolding turn init_pc
joins_double i = (
  play (mythread_1 i) joins (2 ∷ 2 ∷ 2 ∷ 2 ∷ 2 ∷ 2 ∷ 0 ∷ 0 ∷ 0 ∷ 0 ∷ []),
  joined_run i,
  refl,
  refl,
)

abbrev detaches : Choice
detaches = calling call_detach

-- Agent 2 detaches the thread.
abbrev detached : System
detached = play 7 detaches (2 ∷ 2 ∷ 2 ∷ [])

detached_run : OnlyDetach 4 7 detached
detached_run =
    Detachers.next
      (Detachers.next (Detachers.next Detachers.begin detaches 2 (omega arith) refl) detaches 2
        (omega arith) refl)
      detaches 2 (omega arith) refl

detach_returns : FromDetach detach_done
unfolding turn init_pc
detach_returns = (4, 7, detached, detached, 2, detached_run, refl, same, refl)

-- Agent 3 then calls join.
join_fails : FromJoinAfter (join_error einval)
unfolding turn init_pc
join_fails = (
  4,
  7,
  detached,
  turn 7 joins 3 (turn 7 joins 3 detached),
  turn 7 joins 3 (turn 7 joins 3 detached),
  2,
  3,
  detached_run,
  refl,
  more (more same joins 3 (omega arith)) joins 3 (omega arith),
  refl,
  same,
  refl,
)

abbrev answers : Answers
answers = record {
  joins = λ i. joined_with (mythread_1 i);
  before = join_error einval;
  after = detach_done;
  first = detach_done;
  second = detach_done;
  long = detach_done;
  race = λ i. detach_done;
  then_join = join_error einval;
}

main_passes_example : run_main answers ≡ passed
main_passes_example = main_passes answers (record {
  joins = λ i lt. joins_double i;
  before = join_fails;
  after = detach_returns;
  first = detach_returns;
  second = detach_returns;
  long = detach_returns;
  race = λ i lt. detach_returns;
  then_join = join_fails;
})
