-- ===== src/Storage/Monitor.antt =====
-- The monitor thread of main.c of 2.3/src beside the other threads, and the end of its loops: `stop`,
-- `print_result` and `monitor_func`. The sleeps are steps of the other threads; a report is the
-- figures that it prints, without the text around them.
pub mod Reports
mod Tests
use mathlib.Core.Option
use os_5_sem.Base.{
  ℕ, zero, suc, ◌+◌, ◌<◌, ◌≤◌, ◌≡◌, ◌≢◌, refl, Bool, true, false, Option, List, [], ◌∷◌, ◌==◌,
  arith, if◌then◌else◌, update, Bool-cases, inl, inr, ==_iff,
}
use os_5_sem.Storage.Memory.{Node, Mode}
use os_5_sem.Storage.Layout.{Cells, first_of, Linked}
use os_5_sem.Storage.Threads.{Role, Choice, System, turn, init, Reach, start, later}
use os_5_sem.Storage.Threads.Counters.{turn-Grows}

-- The counters in the order in which a report names them. Thread 0, 1 and 2 search, and 3, 4 and 5
-- swap, each three in the order ascending, descending, and equal or not.
unfoldable pub figure : ℕ → System → ℕ
figure zero s = (s.threads 0).iterations
figure (suc zero) s = (s.threads 0).pairs
figure (suc (suc zero)) s = (s.threads 3).swaps
figure (suc (suc (suc zero))) s = (s.threads 1).iterations
figure (suc (suc (suc (suc zero)))) s = (s.threads 1).pairs
figure (suc (suc (suc (suc (suc zero))))) s = (s.threads 4).swaps
figure (suc (suc (suc (suc (suc (suc zero)))))) s = (s.threads 2).iterations
figure (suc (suc (suc (suc (suc (suc (suc zero))))))) s = (s.threads 2).pairs
figure (suc (suc (suc (suc (suc (suc (suc (suc k)))))))) s = (s.threads 5).swaps

-- Where the monitor stands: at its test of `is_running`, in a report of which it has loaded some
-- figures, or at its end.
pub data At : Type 0 where
  testing ended : At
  printing : (loaded : ℕ) → At

-- The threads, the flag, the monitor with the report that it is at, and the reports printed, the last
-- first, each with its number `iter`.
pub record Watch : Type 0 where
  pub system : System
  pub is_running : Bool
  pub at : At
  pub iter : ℕ
  pub line : ℕ → ℕ
  pub printed : List (ℕ × (ℕ → ℕ))

pub stop : Watch → Watch
stop w = record w { is_running = false }

-- The load of one figure, and the end of `print_result` behind the last.
pub print_result : (loaded : ℕ) → Watch → Watch
unfolding figure
print_result loaded w =
    if loaded == 9
    then record w { at = testing; iter = w.iter + 1; printed = (w.iter, w.line) ∷ w.printed }
    else record w {
      at = printing (loaded + 1);
      line = update w.line loaded (figure loaded w.system);
    }

-- A step from the place where it stands.
pub monitor_at : Watch → At → Watch
unfolding print_result
monitor_at w testing = record w { at = if w.is_running then printing 0 else ended }
monitor_at w (printing loaded) = print_result loaded w
monitor_at w ended = w

pub monitor_func : Watch → Watch
unfolding monitor_at
monitor_func w = monitor_at w w.at

abbrev pub begin : System → Watch
begin s = record {
  system = s;
  is_running = true;
  at = testing;
  iter = 1;
  line = λ k. 0;
  printed = [];
}

-- The states that the threads, the monitor and main's `stop` reach in any order of steps.
pub data Runs (mode : Mode) (first size n : ℕ) (h : ℕ → Option Node) (roles : ℕ → Role)
    : Watch → Type 0 where
  begins : Runs mode first size n h roles (begin (init h roles))
  turns :
      {w : Watch}
      → Runs mode first size n h roles w
      → (random i : ℕ) → i < n
      → Runs mode first size n h roles (record w {
        system =
            turn mode first size n (record { running = w.is_running; random = random }) i w.system;
      })
  monitors :
      {w : Watch}
      → Runs mode first size n h roles w
      → Runs mode first size n h roles (monitor_func w)
  stops : {w : Watch} → Runs mode first size n h roles w → Runs mode first size n h roles (stop w)
