-- ===== src/Storage/Monitor/Tests.antt =====
-- A report beside two threads on the list of Storage/Tests.antt.
use os_5_sem.Base.{ℕ, zero, suc, ◌<◌, ◌≤◌, ◌≡◌, refl, [], ◌∷◌, arith}
use os_5_sem.Storage.{cmp_asc, swap_asc_func}
use os_5_sem.Storage.Memory.{shared}
use os_5_sem.Storage.Tests.{nodes, nodes-Linked, three}
use os_5_sem.Storage.Threads.{Role, searcher, swapper, init}
use os_5_sem.Storage.Monitor.{
  figure, Watch, monitor_func, monitor_at, print_result, stop, begin, Runs, begins, monitors, stops,
}
use os_5_sem.Storage.Monitor.Reports.{Growing, last, reports_grow}

abbrev roles : ℕ → Role
roles zero = searcher cmp_asc
roles (suc i) = swapper swap_asc_func

-- The monitor makes so many steps.
abbrev watched : ℕ → Watch → Watch
watched zero w = w
watched (suc k) w = monitor_func (watched k w)

watched-Runs :
    (k : ℕ) {w : Watch}
    → Runs shared 10 3 2 nodes roles w
    → Runs shared 10 3 2 nodes roles (watched k w)
watched-Runs zero r = r
watched-Runs (suc k) r = monitors (watched-Runs k r)

-- Two reports, and `stop` in between.
abbrev reported : Watch
reported = watched 11 (stop (watched 12 (begin (init nodes roles))))

reports_grow_example :
    Growing reported.printed
    × ((k : ℕ) → k < 9 → last reported.printed k ≤ figure k reported.system)
reports_grow_example =
    reports_grow shared 10 3 2 nodes ((10, []) ∷ three) roles nodes-Linked refl (omega arith)
      (watched-Runs 11 (stops (watched-Runs 12 begins)))

-- They are numbered 1 and 2.
two_reports : reported.iter ≡ 3
unfolding monitor_func monitor_at print_result stop
two_reports = refl
