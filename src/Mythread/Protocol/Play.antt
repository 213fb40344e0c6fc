-- ===== src/Mythread/Protocol/Play.antt =====
-- Runs of the model of 1.6/src/mythread.c with one thread, one reaper and two callers.
use os_5_sem.Base.{ℕ, ◌%◌, false, List, [], ◌∷◌, arith}
use os_5_sem.Mythread.Protocol.{Choice, Call, System, Reach, start, later, init, turn}

abbrev pub calling : Call → Choice
calling call = record { call = call; spurious = false; no_memory = false }

-- The agents of the list step one after the other, the last of the list first.
abbrev pub play : (result : ℕ) → Choice → List ℕ → System
play result c [] = init
play result c (i ∷ is) = turn result c (i % 4) (play result c is)

pub play-Reach : (result : ℕ) (c : Choice) (is : List ℕ) → Reach 4 result (play result c is)
play-Reach result c [] = start
play-Reach result c (i ∷ is) = later (play-Reach result c is) c (i % 4) (omega arith)
