-- ===== src/WoReaper/Tests.antt =====
-- Runs of the model of 1.6/src/wo_reaper/mythread.c with one thread and two callers.
use os_5_sem.Base.{ℕ, ◌+◌, ◌%◌, ◌<◌, ◌≤◌, ◌≡◌, true, false, List, [], ◌∷◌, arith}
use os_5_sem.WoReaper.{
  Choice, Call, call_join, System, Reach, start, later, init, turn, starting, exited, claim,
  joining, join_ok, join_release,
}
use os_5_sem.WoReaper.Invariant.{pending}
use os_5_sem.WoReaper.Safety.{released_or_abandoned, join_leaks, claim_after_release}

abbrev calling : Call → Choice
calling call = record { call = call; no_memory = false }

-- The agents of the list step one after the other, the last of the list first.
abbrev play : Choice → List ℕ → System
play c [] = init
play c (i ∷ is) = turn 7 c (i % 3) (play c is)

play-Reach : (c : Choice) (is : List ℕ) → Reach 3 7 (play c is)
play-Reach c [] = start
play-Reach c (i ∷ is) = later (play-Reach c is) c (i % 3) (omega arith)

-- The thread finishes, and agent 2 joins it before the thread claims itself.
abbrev joined_run : List ℕ
joined_run = 2 ∷ 2 ∷ 2 ∷ 2 ∷ 2 ∷ 2 ∷ 0 ∷ 0 ∷ []

abbrev joined : System
joined = play (calling call_join) joined_run

released_or_abandoned_example :
    (joined.mem.released ≤ 1)
    × (0 < joined.mem.released → joined.mem.finished ≡ true)
    × (joined.mem.abandoned ≡ 1 → joined.mem.released ≡ 0)
    × (((i : ℕ) → pending (joined.pc i) ≡ 0)
        → (joined.mem.joined ≡ true → joined.mem.released + joined.mem.abandoned ≡ 1)
          × (joined.mem.joined ≡ false → joined.mem.released ≡ 0))
released_or_abandoned_example = released_or_abandoned (play-Reach (calling call_join) joined_run)

join_leaks_example :
    (s : System) × Reach 2 7 s
    × (s.pc 0 ≡ starting exited)
    × (s.pc 1 ≡ joining (join_ok 7))
    × (s.mem.released ≡ 0)
    × (s.mem.abandoned ≡ 1)
join_leaks_example = join_leaks 2 7 (omega arith)

claim_after_release_example :
    (s : System) × Reach 2 7 s
    × (s.mem.released ≡ 0)
    × (s.pc 1 ≡ joining (join_release 7))
    × (s.pc 0 ≡ starting claim)
    × ((turn 7 (calling call_join) 1 s).mem.released ≡ 1)
    × ((turn 7 (calling call_join) 1 s).pc 1 ≡ joining (join_ok 7))
    × ((turn 7 (calling call_join) 1 s).pc 0 ≡ starting claim)
    × ((turn 7 (calling call_join) 1 s).ended ≡ false)
    × ((turn 7 (calling call_join) 0 (turn 7 (calling call_join) 1 s)).ended ≡ true)
claim_after_release_example = claim_after_release 2 7 (omega arith) (calling call_join)
