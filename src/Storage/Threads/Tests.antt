-- ===== src/Storage/Threads/Tests.antt =====
-- A searching thread under read locks and a swapping one, on the list of Storage/Tests.antt.
use mathlib.Core.List.{Perm}
use os_5_sem.Base.{
  some, ℕ, zero, suc, ◌+◌, ◌*◌, ◌<◌, ◌≤◌, ◌≡◌, refl, true, false, List, [], ◌∷◌, arith,
}
use os_5_sem.Storage.{cmp_asc, swap_asc_func}
use os_5_sem.Storage.Memory.{Mode, bars, shared, lock, next_of, len_of, set_next, unlock}
use os_5_sem.Storage.Layout.{Cells, first_of, has, Linked}
use os_5_sem.Storage.Tests.{three, nodes, nodes-Linked}
use os_5_sem.Storage.Threads.{
  Role, searcher, swapper, search_next, Choice, System, wanted, waits, turn, init, Reach, start,
  later,
}
use os_5_sem.Storage.Threads.Blocks.{is_outside}
use os_5_sem.Storage.Threads.Stop.{busy_steps, stop_ends}
use os_5_sem.Storage.Threads.Safety.{list_kept}
use os_5_sem.Storage.Threads.Counters.{counts_bounded}
use os_5_sem.Storage.Threads.Progress.{no_deadlock}
use os_5_sem.Storage.Threads.Bounded.{Below, own_steps, always_inside, pass_bounded}

abbrev roles : ℕ → Role
roles zero = searcher cmp_asc
roles (suc i) = swapper swap_asc_func

abbrev go : Choice
go = record { running = true; random = 4 }

-- Both threads enter, the swapping one locks the first two nodes, and the searching one must wait.
abbrev turns : List (Choice × ℕ)
turns = (go, 1) ∷ (go, 0) ∷ (go, 1) ∷ (go, 1) ∷ (go, 0) ∷ []

abbrev play : List (Choice × ℕ) → System → System
play [] s = s
play ((c, i) ∷ cs) s = play cs (turn shared 10 3 2 c i s)

abbrev cells : Cells
cells = (10, []) ∷ three

play-Reach :
    (cs : List (Choice × ℕ)) (s : System)
    → Below 2 cs
    → Reach shared 10 3 2 nodes roles s
    → Reach shared 10 3 2 nodes roles (play cs s)
play-Reach [] s below r = r
play-Reach ((c, i) ∷ cs) s below r =
    play-Reach cs (turn shared 10 3 2 c i s) below.1 (later r c i below.0)

abbrev busy : System
busy = play turns (init nodes roles)

busy-Reach : Reach shared 10 3 2 nodes roles busy
busy-Reach = play-Reach turns (init nodes roles) (omega arith) start

-- The swapping thread then locks the third node, exchanges two and returns.
swapped_once : ((play ((go, 1) ∷ []) busy).threads 1).swaps ≡ 1
unfolding turn swap_asc_func lock next_of len_of set_next unlock
swapped_once = refl

list_kept_example :
    (busy.faulted ≡ false)
    × ((ys : Cells) × Linked busy.memory ys
        × (first_of ys ≡ 10)
        × Perm ys cells
        × ((x : ℕ) → has x cells ≡ false → busy.memory x ≡ nodes x))
list_kept_example =
    list_kept shared 10 3 2 nodes cells roles nodes-Linked refl (omega arith) busy-Reach

no_deadlock_example :
    ((number : ℕ → ℕ) × ((j k p : ℕ) (m : Mode)
        → j < 2
        → wanted shared 10 3 (busy.threads j).at ≡ some (p, m)
        → bars p m (busy.threads k).held ≡ true
        → number j < number k))
    × ((j : ℕ)
        → j < 2
        → is_outside (busy.threads j).at ≡ false
        → (k : ℕ) × (k < 2)
          × (is_outside (busy.threads k).at ≡ false)
          × (waits 2 k busy.threads (wanted shared 10 3 (busy.threads k).at) ≡ false))
no_deadlock_example =
    no_deadlock shared 10 3 2 nodes cells roles nodes-Linked refl (omega arith) busy-Reach

abbrev entered : System
entered = play ((go, 1) ∷ []) (init nodes roles)

abbrev rest : List (Choice × ℕ)
rest = (go, 0) ∷ (go, 1) ∷ (go, 0) ∷ (go, 1) ∷ (go, 1) ∷ []

rest_inside : always_inside shared 10 3 2 rest 1 entered ≡ true
unfolding always_inside turn swap_asc_func lock next_of len_of set_next unlock
rest_inside = refl

pass_bounded_example : own_steps shared 10 3 2 rest 1 entered ≤ 5
pass_bounded_example =
    pass_bounded shared 10 3 2 nodes cells (omega arith) roles nodes-Linked refl
      (play-Reach ((go, 1) ∷ []) (init nodes roles) (omega arith) start) rest 1 (omega arith)
      (omega arith) rest_inside

abbrev halt : Choice
halt = record { running = false; random = 0 }

abbrev last_turns : List (Choice × ℕ)
last_turns = (halt, 1) ∷ (halt, 0) ∷ (halt, 0) ∷ (halt, 1) ∷ []

stop_ends_example :
    (busy_steps shared 10 3 2 last_turns busy ≤ 10)
    × ((c : Choice) (i j : ℕ)
        → c.running ≡ false
        → is_outside (busy.threads j).at ≡ true
        → is_outside ((turn shared 10 3 2 c i busy).threads j).at ≡ true)
stop_ends_example =
    stop_ends shared 10 3 2 nodes cells (omega arith) roles nodes-Linked refl busy-Reach last_turns
      (omega arith) (refl, (refl, (refl, (refl, tt))))

counts_bounded_example :
    ((busy.threads 0).pairs ≤ (busy.threads 0).iterations * 2)
    × ((a b k : ℕ) → (busy.threads 0).at ≡ search_next a b k → k + 2 ≤ 4)
counts_bounded_example =
    counts_bounded shared 10 3 2 nodes cells roles nodes-Linked refl (omega arith) busy-Reach 0
      (omega arith)
