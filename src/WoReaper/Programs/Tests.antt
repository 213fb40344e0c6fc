-- ===== src/WoReaper/Programs/Tests.antt =====
-- The calls of the tests of 1.6/src/wo_reaper/main.c, each in a run of the library.
use os_5_sem.Base.{ℕ, ◌<◌, ◌≡◌, refl, false, List, [], ◌∷◌, arith}
use os_5_sem.Mythread.Kernel.{einval}
use os_5_sem.Mythread.Programs.{mythread_1, joined_with, join_error, passed}
use os_5_sem.Mythread.Programs.Detaching.{detach_done}
use os_5_sem.WoReaper.{Choice, Call, call_join, call_detach, System, init, turn, init_pc}
use os_5_sem.WoReaper.Runs.{OnlyDetach, begins, next, same, more, OneJoin, starts, then_next}
use os_5_sem.WoReaper.Programs.{
  Answers, run_main, FromJoin, FromDetach, FromJoinAfter, wo_main_passes,
}

abbrev calling : Call → Choice
calling call = record { call = call; no_memory = false }

abbrev joins : Choice
joins = calling call_join

abbrev detaches : Choice
detaches = calling call_detach

-- The agents of the list step one after the other, the last of the list first.
abbrev play : (result : ℕ) → Choice → List ℕ → System
play result c [] = init
play result c (i ∷ is) = turn result c i (play result c is)

thread_in : 0 < 2
thread_in = omega arith

caller_in : 1 < 2
caller_in = omega arith

joined_run :
    (i : ℕ)
    → OneJoin (mythread_1 i) (play (mythread_1 i) joins (1 ∷ 1 ∷ 1 ∷ 1 ∷ 1 ∷ 0 ∷ 0 ∷ 0 ∷ 0 ∷ []))
unfolding turn init_pc
joined_run i =
    let s2 = then_next (then_next starts joins 0 thread_in refl refl) joins 0 thread_in refl refl in
    let s4 = then_next (then_next s2 joins 0 thread_in refl refl) joins 0 thread_in refl refl in
    let s6 = then_next (then_next s4 joins 1 caller_in refl refl) joins 1 caller_in refl refl in
    let s8 = then_next (then_next s6 joins 1 caller_in refl refl) joins 1 caller_in refl refl in
    then_next s8 joins 1 caller_in refl refl

-- The thread exits, and agent 1 joins it.
joins_double : (i : ℕ) → FromJoin i (joined_with (mythread_1 i))
unfolding turn init_pc
joins_double i =
    (play (mythread_1 i) joins (1 ∷ 1 ∷ 1 ∷ 1 ∷ 1 ∷ 0 ∷ 0 ∷ 0 ∷ 0 ∷ []), joined_run i, refl, refl)

-- Agent 1 detaches the thread.
abbrev detached : System
detached = play 7 detaches (1 ∷ 1 ∷ 1 ∷ [])

detached_run : OnlyDetach 2 7 detached
detached_run =
    next (next (next begins detaches 1 caller_in refl) detaches 1 caller_in refl) detaches 1
      caller_in refl

detach_returns : FromDetach detach_done
unfolding turn init_pc
detach_returns = (2, 7, detached, detached, 1, detached_run, refl, same, refl)

-- It then calls join.
join_fails : FromJoinAfter (join_error einval)
unfolding turn init_pc
join_fails = (
  2,
  7,
  detached,
  turn 7 joins 1 (turn 7 joins 1 (turn 7 joins 1 detached)),
  turn 7 joins 1 (turn 7 joins 1 (turn 7 joins 1 detached)),
  1,
  1,
  detached_run,
  refl,
  more (more (more same joins 1 caller_in) joins 1 caller_in) joins 1 caller_in,
  refl,
  same,
  refl,
)

abbrev answers : Answers
answers = record {
  joins = λ i. joined_with (mythread_1 i);
  before = join_error einval;
  after = detach_done;
  first = detach_done;
  second = detach_done;
  long = detach_done;
  race = λ i. detach_done;
  then_join = join_error einval;
  many = λ i. detach_done;
}

wo_main_passes_example : run_main answers ≡ passed
wo_main_passes_example = wo_main_passes answers (record {
  joins = λ i lt. joins_double i;
  before = join_fails;
  after = detach_returns;
  first = detach_returns;
  second = detach_returns;
  long = detach_returns;
  race = λ i lt. detach_returns;
  then_join = join_fails;
  many = λ i lt. detach_returns;
})
