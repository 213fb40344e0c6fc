-- ===== src/Mythread/Protocol/Tests.antt =====
-- Runs of the model of 1.6/src/mythread.c with one thread, one reaper and two callers.
use os_5_sem.Base.{ℕ, ◌+◌, ◌<◌, ◌≤◌, ◌≡◌, refl, true, false, List, [], ◌∷◌, arith, zero, suc}
use os_5_sem.Mythread.Protocol.Detachers.{OnlyDetach, freed_object_used}
use os_5_sem.Mythread.Protocol.{
  call_join, call_detach, System, Reach, turn, init_pc, starting, load_state, joining, join_release,
  join_ok, idle, detaching, detach_loop, detach_ok,
}
use os_5_sem.Mythread.Protocol.Later.{After}
use os_5_sem.Mythread.Protocol.Play.{calling, play, play-Reach}
use os_5_sem.Mythread.Protocol.Returns.{
  is_joining, is_detaching, returned, During, here, own, other, call_returns,
}
use os_5_sem.Mythread.Protocol.Waking.{woke}
use os_5_sem.Mythread.Protocol.Invariant.{pending, releasing}
use os_5_sem.Mythread.Protocol.Safety.{released_once, released_when_quiet, join_result}

-- The thread finishes and agent 2 joins it.
abbrev joined : System
joined = play 7 (calling call_join) (2 ∷ 2 ∷ 2 ∷ 2 ∷ 2 ∷ 2 ∷ 0 ∷ 0 ∷ 0 ∷ [])

joined-Reach : Reach 4 7 joined
joined-Reach = play-Reach 7 (calling call_join) (2 ∷ 2 ∷ 2 ∷ 2 ∷ 2 ∷ 2 ∷ 0 ∷ 0 ∷ 0 ∷ [])

joined-quiet : (i : ℕ) → pending (joined.pc i) + releasing (joined.pc i) ≡ 0
unfolding turn init_pc
joined-quiet zero = refl
joined-quiet (suc zero) = refl
joined-quiet (suc (suc zero)) = refl
joined-quiet (suc (suc (suc i))) = ground arith

-- Agent 2 detaches, the thread enqueues itself and the reaper releases it.
abbrev reaped_run : List ℕ
reaped_run = 1 ∷ 1 ∷ 1 ∷ 0 ∷ 0 ∷ 0 ∷ 0 ∷ 0 ∷ 0 ∷ 2 ∷ 2 ∷ []

released_once_example :
    ((play 7 (calling call_detach) reaped_run).mem.released
        + (play 7 (calling call_detach) reaped_run).mem.nodes
      ≤ 1)
    × (0
          < (play 7 (calling call_detach) reaped_run).mem.released
            + (play 7 (calling call_detach) reaped_run).mem.nodes
        → (play 7 (calling call_detach) reaped_run).mem.finished ≡ true)
released_once_example = released_once (play-Reach 7 (calling call_detach) reaped_run)

released_when_quiet_example : joined.mem.released ≡ 1
unfolding turn init_pc
released_when_quiet_example = released_when_quiet joined-Reach joined-quiet refl refl

join_result_example :
    (joined.mem.retval ≡ 7)
    × (joined.mem.finished ≡ true)
    × (joined.mem.state.is_joined ≡ true)
    × (joined.mem.state.is_detached ≡ false)
unfolding turn init_pc
join_result_example = join_result joined-Reach 2 refl

-- Agent 2 joins and goes to sleep, the thread finishes and wakes it, and agent 3 calls join in between.
abbrev woken_run : List ℕ
woken_run = 0 ∷ 0 ∷ 0 ∷ 2 ∷ 2 ∷ 2 ∷ 2 ∷ []

abbrev woken : System
woken = play 7 (calling call_join) woken_run

-- Agent 2 returns after its fifth step.
abbrev five_more : System
five_more = play 7 (calling call_join) (2 ∷ 2 ∷ 2 ∷ 2 ∷ 3 ∷ 2 ∷ woken_run)

during_five : During 4 7 woken 2 5 0 five_more
unfolding turn init_pc
during_five =
    let step1 = own here (calling call_join) refl in
    let step2 = other step1 (calling call_join) 3 (omega arith) (omega arith) in
    let step4 = own (own step2 (calling call_join) refl) (calling call_join) refl in
    own (own step4 (calling call_join) refl) (calling call_join) refl

call_returns_example :
    (is_joining (woken.pc 2) ≡ true
      → woke (woken.pc 0) ≡ true
      → (5 ≤ 9) × (9 ≤ 5 → returned (five_more.pc 2) ≡ true))
    × (is_detaching (woken.pc 2) ≡ true
        → (5 ≤ 8 + 0) × (8 + 0 ≤ 5 → returned (five_more.pc 2) ≡ true))
call_returns_example =
    call_returns (play-Reach 7 (calling call_join) woken_run) (omega arith) during_five

freed_object_used_example :
    ((s : System) × Reach 3 7 s
      × (s.mem.released ≡ 0)
      × (s.pc 2 ≡ joining (join_release 7))
      × (s.pc 0 ≡ starting load_state)
      × ((turn 7 (calling call_detach) 2 s).mem.released ≡ 1)
      × ((turn 7 (calling call_detach) 2 s).pc 2 ≡ joining (join_ok 7))
      × ((turn 7 (calling call_detach) 2 s).pc 0 ≡ starting load_state)
      × ((turn 7 (calling call_detach) 2 s).ended ≡ false)
      × ((turn 7 (calling call_detach) 0 (turn 7 (calling call_detach) 2 s)).ended ≡ true))
    × ((s : System) × (t : System) × OnlyDetach 3 7 s
        × (s.pc 2 ≡ detaching detach_ok)
        × After 3 7 s t
        × OnlyDetach 3 7 t
        × (t.pc 2 ≡ idle)
        × (t.mem.released ≡ 1)
        × ((turn 7 (calling call_detach) 2 t).pc 2 ≡ detaching (detach_loop t.mem.state))
        × (t.ended ≡ false)
        × ((turn 7 (calling call_detach) 2 t).ended ≡ true))
freed_object_used_example = freed_object_used 3 7 (omega arith) (calling call_detach) refl
