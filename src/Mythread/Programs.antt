-- ===== src/Mythread/Programs.antt =====
-- The tests of 1.6/src/main.c that join, as functions of what the calls of the library return, and their
-- results on the runs of Mythread/Protocol.antt. The tests take a thread to be created and joined by its
-- object; what they print is left out.
pub mod Detaching
pub mod Passes
mod Tests
use mathlib.Core.Path.{subst}
use os_5_sem.Base.{
  ◌⊎◌, ==_iff, ℕ, zero, suc, ◌+◌, ◌*◌, ◌%◌, ◌^◌, ◌<◌, ◌≤◌, ◌≡◌, ◌≢◌, refl, ap, sym, ◌∙◌, Bool, true,
  false, not, ◌&&◌, Option, none, some, ◌==◌, arith, if◌then◌else◌, Bool-cases, inl, inr, update,
}
use os_5_sem.Mythread.Flags.{Flags, has, raise, same_flags}
use os_5_sem.Mythread.Kernel.{einval}
use os_5_sem.Mythread.Protocol.{
  Shared, Join, join_loop, join_wait, join_futex, join_asleep, join_read, join_reap, join_release,
  join_ok, join_failed, Detach, detach_loop, detach_check, detach_mark, detach_enqueue, detach_ok,
  detach_failed, Startup, run, finish, wake, load_state, mark, enqueue, exited, Reaper, reaper_wait,
  reaper_reap, reaper_release, Choice, Pc, idle, joining, detaching, starting, reaping, System,
  turn, step, Reach, later,
}
use os_5_sem.Mythread.Protocol.Invariant.{Reach-Inv}
use os_5_sem.Mythread.Protocol.Safety.{join_result}
use os_5_sem.Mythread.Protocol.Later.{After, After-Reach, After-detached}

-- The routine of `test_join`.
abbrev pub mythread_1 : ℕ → ℕ
mythread_1 v = v * 2 % 2 ^ 64

-- What `mythread_join` returned: 0 with a result, or -1 with an errno.
pub data JoinAnswer : Type 0 where
  joined_with join_error : ℕ → JoinAnswer

-- `created` and `detached` say whether mythread_create and mythread_detach returned 0. The result is true
-- for a return of 0.
unfoldable pub test_detach_before_exit : (created detached : Bool) → JoinAnswer → Bool
test_detach_before_exit created detached answer =
    if not created
    then false
    else if not detached
    then false
    else elim answer [ joined_with v ↦ false | join_error e ↦ true ]

unfoldable pub test_detach_then_join_fails : (created detached : Bool) → JoinAnswer → Bool
test_detach_then_join_fails created detached answer =
    if not created
    then false
    else if not detached
    then false
    else elim answer [ joined_with v ↦ false | join_error e ↦ e == einval ]

-- How `test_join` ends; `aborted` is a failing assert.
pub data Verdict : Type 0 where
  passed failed aborted : Verdict

-- Its first loop, up to the thread `n`.
pub create_all : (n : ℕ) → (created : ℕ → Bool) → Bool
create_all zero created = true
create_all (suc i) created = create_all i created && created i

-- Its second loop, from the thread below `n` down.
pub join_all : (n : ℕ) → (joins : ℕ → JoinAnswer) → Verdict
join_all zero joins = passed
join_all (suc i) joins =
    let rest = join_all i joins in
    elim (joins i) [ joined_with v ↦ if v == i * 2 then rest else aborted | join_error e ↦ failed ]

pub test_join : (created : ℕ → Bool) → (joins : ℕ → JoinAnswer) → Verdict
unfolding create_all join_all
test_join created joins = if create_all 10 created then join_all 10 joins else failed

-- What a returning call of join gives its caller.
abbrev pub join_answer : Join → Option JoinAnswer
join_answer (join_loop s) = none
join_answer join_wait = none
join_answer join_futex = none
join_answer join_asleep = none
join_answer join_read = none
join_answer (join_reap v) = none
join_answer (join_release v) = none
join_answer (join_ok v) = some (joined_with v)
join_answer join_failed = some (join_error einval)

abbrev pub answer_of : Pc → Option JoinAnswer
answer_of idle = none
answer_of (joining j) = join_answer j
answer_of (detaching d) = none
answer_of (starting t) = none
answer_of (reaping r) = none

answered : (p : Pc) (v : ℕ) → answer_of p ≡ some (joined_with v) → p ≡ joining (join_ok v)
answered idle v e = cc
answered (joining (join_loop s)) v e = cc
answered (joining join_wait) v e = cc
answered (joining join_futex) v e = cc
answered (joining join_asleep) v e = cc
answered (joining join_read) v e = cc
answered (joining (join_reap u)) v e = cc
answered (joining (join_release u)) v e = cc
answered (joining (join_ok u)) v e = cc
answered (joining join_failed) v e = cc
answered (detaching d) v e = cc
answered (starting t) v e = cc
answered (reaping r) v e = cc

pub refused_with :
    (p : Pc) (k : ℕ) → answer_of p ≡ some (join_error k) → (k ≡ einval) × (p ≡ joining join_failed)
refused_with idle k e = absurd (cc)
refused_with (joining (join_loop s)) k e = absurd (cc)
refused_with (joining join_wait) k e = absurd (cc)
refused_with (joining join_futex) k e = absurd (cc)
refused_with (joining join_asleep) k e = absurd (cc)
refused_with (joining join_read) k e = absurd (cc)
refused_with (joining (join_reap u)) k e = absurd (cc)
refused_with (joining (join_release u)) k e = absurd (cc)
refused_with (joining (join_ok u)) k e = absurd (cc)
refused_with (joining join_failed) k e = (cc, refl)
refused_with (detaching d) k e = absurd (cc)
refused_with (starting t) k e = absurd (cc)
refused_with (reaping r) k e = absurd (cc)

-- Where a call of detach has returned 0, every call of join that returns later, in any order of steps,
-- makes both tests of a join after a detach return 0: it fails, with EINVAL.
pub detach_tests_pass :
    {n result : ℕ} {s t : System}
    → Reach n result s
    → (i : ℕ) → s.pc i ≡ detaching detach_ok
    → After n result s t
    → (j : ℕ) (a : JoinAnswer) → answer_of (t.pc j) ≡ some a
    → (test_detach_before_exit true true a ≡ true)
      × (test_detach_then_join_fails true true a ≡ true)
unfolding test_detach_before_exit test_detach_then_join_fails
detach_tests_pass {s = s} {t = t} r i done later_on j (joined_with v) e =
    let now : s.mem.state.is_detached ≡ true = ground (arith, (Reach-Inv r).seen i) in
    let kept = After-detached later_on now in
    let ok = join_result (After-Reach r later_on) j (answered (t.pc j) v e) in
    absurd (ground (arith, kept, ok))
detach_tests_pass {t = t} r i done later_on j (join_error k) e =
    (refl, ground (arith, (refused_with (t.pc j) k e).0))

answer-cases : (a : JoinAnswer) → ((v : ℕ) × (a ≡ joined_with v)) ⊎ ((k : ℕ) × (a ≡ join_error k))
answer-cases (joined_with v) = inl (v, refl)
answer-cases (join_error k) = inr (k, refl)

abbrev pub is_joined : JoinAnswer → Bool
is_joined (joined_with v) = true
is_joined (join_error k) = false

-- Call `i` of join returns from a run of the library whose thread runs `mythread_1` on `i`.
abbrev pub FromRun : ℕ → JoinAnswer → Type 0
FromRun i a =
    (n : ℕ) × (s : System) × (k : ℕ) × Reach n (mythread_1 i) s × (answer_of (s.pc k) ≡ some a)

joined-value : (i v : ℕ) → i < 10 → FromRun i (joined_with v) → v ≡ i * 2
joined-value i v small (n, s, k, r, e) =
    let (value, finished, was_joined, not_detached) = join_result r k (answered (s.pc k) v e) in
    value ∙ omega arith

module _ (joins : ℕ → JoinAnswer) (runs : (i : ℕ) → i < 10 → FromRun i (joins i)) where
  -- One round of the second loop.
  join_all-suc :
      (i v : ℕ) → i < 10 → joins i ≡ joined_with v → join_all (suc i) joins ≡ join_all i joins
  unfolding join_all
  join_all-suc i v small ok =
      let value = joined-value i v small (subst (FromRun i) ok (runs i small)) in
      let right : (v == i * 2) ≡ true = (==_iff v (i * 2)).1 value in ground (arith, ok, right)

  join_all-holds : (m : ℕ) → m ≤ 10 → join_all m joins ≢ aborted
  unfolding join_all
  join_all-holds zero le = λ e. cc
  join_all-holds (suc i) le =
      let rest = join_all-holds i (omega arith) in
      elim (answer-cases (joins i)) [
        | inr (k, refused) ↦ λ e. ground (arith, refused, e)
        | inl (v, ok) ↦ λ e. rest (sym (join_all-suc i v (omega arith) ok) ∙ e)
      ]

  join_all-passes :
      (m : ℕ) → m ≤ 10 → ((i : ℕ) → i < 10 → is_joined (joins i) ≡ true) → join_all m joins ≡ passed
  unfolding join_all
  join_all-passes zero le all = refl
  join_all-passes (suc i) le all =
      let rest = join_all-passes i (omega arith) all in
      elim (answer-cases (joins i)) [
        | inr (k, refused) ↦ let ok = all i (omega arith) in absurd (ground (arith, ok, refused))
        | inl (v, ok) ↦ join_all-suc i v (omega arith) ok ∙ rest
      ]

create_all-true :
    (n : ℕ) (created : ℕ → Bool)
    → ((i : ℕ) → i < n → created i ≡ true)
    → create_all n created ≡ true
unfolding create_all
create_all-true zero created all = refl
create_all-true (suc i) created all =
    let last = all i (omega arith) in
    let rest = create_all-true i created (λ j lt. all j (omega arith)) in ground (arith, last, rest)

join_all-doubles :
    (m : ℕ) (joins : ℕ → JoinAnswer)
    → ((i : ℕ) → i < m → joins i ≡ joined_with (i * 2))
    → join_all m joins ≡ passed
unfolding join_all
join_all-doubles zero joins all = refl
join_all-doubles (suc i) joins all =
    let here = all i (omega arith) in
    let rest = join_all-doubles i joins (λ j lt. all j (omega arith)) in
    let right : ((i * 2) == (i * 2)) ≡ true = (==_iff (i * 2) (i * 2)).1 refl in
    ground (arith, here, right, rest)

-- The calls of join that `test_join` expects.
pub test_join-doubles :
    (joins : ℕ → JoinAnswer)
    → ((i : ℕ) → i < 10 → joins i ≡ joined_with (i * 2))
    → test_join (λ i. true) joins ≡ passed
unfolding test_join create_all
test_join-doubles joins all = join_all-doubles 10 joins all

-- Where each of the ten calls of join in `test_join` returns from a run of the library whose thread runs
-- `mythread_1` on its number, the assert of `test_join` does not fail; and if every call of create
-- and of join returns 0, then so does `test_join`.
pub test_join_holds :
    (created : ℕ → Bool) (joins : ℕ → JoinAnswer)
    → ((i : ℕ) → i < 10 → FromRun i (joins i))
    → (test_join created joins ≢ aborted)
      × (((i : ℕ) → i < 10 → created i ≡ true)
          → ((i : ℕ) → i < 10 → is_joined (joins i) ≡ true)
          → test_join created joins ≡ passed)
unfolding test_join
test_join_holds created joins runs = (
  elim (Bool-cases (create_all 10 created)) [
    | inl made ↦ rw made (join_all-holds joins runs 10 (omega arith))
    | inr refused ↦ rw refused (λ e. cc)
  ],
  λ made joined.
      let all_made : create_all 10 created ≡ true = create_all-true 10 created made in
      let all_joined : join_all 10 joins ≡ passed =
        join_all-passes joins runs 10 (omega arith) joined in
      rw all_made all_joined,
)
