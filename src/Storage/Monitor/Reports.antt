-- ===== src/Storage/Monitor/Reports.antt =====
-- The reports that the monitor of 2.3/src prints.
use os_5_sem.Base.{
  ℕ, zero, suc, ◌+◌, ◌<◌, ◌≤◌, ◌≡◌, ◌≢◌, refl, Option, List, [], ◌∷◌, ◌==◌, arith, update,
  Bool-cases, inl, inr, ==_iff,
}
use os_5_sem.Storage.Memory.{Node, Mode}
use os_5_sem.Storage.Layout.{Cells, first_of, Linked}
use os_5_sem.Storage.Threads.{Role, Choice, System, turn, Reach, start, later}
use os_5_sem.Storage.Threads.Counters.{Grows, turn-Grows}
use os_5_sem.Storage.Monitor.{
  figure, At, testing, ended, printing, Watch, stop, print_result, monitor_at, monitor_func, Runs,
  begins, turns, monitors, stops,
}

-- Each report has the number of those before it and one more, and no figure is less than in the one
-- before.
abbrev pub Growing : List (ℕ × (ℕ → ℕ)) → Type 0
Growing [] = Unit {0}
Growing ((i, r) ∷ []) = i ≡ 1
Growing ((i, r) ∷ (j, q) ∷ rest) =
    (i ≡ j + 1) × ((k : ℕ) → k < 9 → q k ≤ r k) × Growing ((j, q) ∷ rest)

-- The figures of the report before, 0 where there is none.
abbrev pub last : List (ℕ × (ℕ → ℕ)) → ℕ → ℕ
last [] k = 0
last ((i, r) ∷ rest) k = r k

abbrev Follows : ℕ → List (ℕ × (ℕ → ℕ)) → Type 0
Follows iter [] = iter ≡ 1
Follows iter ((j, r) ∷ rest) = iter ≡ j + 1

-- A report that the monitor is at, up to the figures loaded.
abbrev Partial : Watch → At → Type 0
Partial w testing = Unit {0}
Partial w ended = Unit {0}
Partial w (printing loaded) =
    (loaded ≤ 9)
    × ((k : ℕ) → k < loaded → (last w.printed k ≤ w.line k) × (w.line k ≤ figure k w.system))

record Sound (w : Watch) : Type 0 where
  growing : Growing w.printed
  follows : Follows w.iter w.printed
  current : (k : ℕ) → k < 9 → last w.printed k ≤ figure k w.system
  partial : Partial w w.at

add_report :
    (iter : ℕ) (line : ℕ → ℕ) (printed : List (ℕ × (ℕ → ℕ)))
    → Growing printed
    → Follows iter printed
    → ((k : ℕ) → k < 9 → last printed k ≤ line k)
    → Growing ((iter, line) ∷ printed)
add_report iter line [] g f le = f
add_report iter line ((j, r) ∷ rest) g f le = (f, le, g)

load_figure :
    (w : Watch) (loaded : ℕ)
    → loaded < 9
    → Sound w
    → Partial w (printing loaded)
    → Sound (record w {
      at = printing (loaded + 1);
      line = update w.line loaded (figure loaded w.system);
    })
load_figure w loaded more s p = record {
  growing = s.growing;
  follows = s.follows;
  current = s.current;
  partial = (
    omega arith,
    λ k lt. elim (Bool-cases (loaded == k)) [
      | inl new ↦ ground (arith, s.current k)
      | inr old ↦ ground (arith, p.1 k)
    ],
  );
}

print_result-Sound :
    (w : Watch) (loaded : ℕ) → Sound w → Partial w (printing loaded) → Sound (print_result loaded w)
unfolding print_result
print_result-Sound w loaded s p = elim (Bool-cases (loaded == 9)) [
  | inl full ↦
      let e : loaded ≡ 9 = (==_iff loaded 9).0 full in
      rw full (record {
        growing =
            add_report w.iter w.line w.printed s.growing s.follows
              (λ k lt. (p.1 k (omega (arith, e))).0);
        follows = refl;
        current = λ k lt. (p.1 k (omega (arith, e))).1;
        partial = tt;
      })
  | inr not_full ↦ rw not_full (load_figure w loaded (ground (arith, p.0)) s p)
]

monitor_func-Sound : (w : Watch) → Sound w → Sound (monitor_func w)
unfolding monitor_func monitor_at
monitor_func-Sound w s = at_place w.at s.partial s
  where
    at_place : (p : At) → Partial w p → Sound w → Sound (monitor_at w p)
    at_place testing p s = elim (Bool-cases w.is_running) [
      | inl on ↦ rw on (record {
        growing = s.growing;
        follows = s.follows;
        current = s.current;
        partial = (omega arith, λ k lt. absurd (omega arith));
      })
      | inr off ↦
          rw off
            (record { growing = s.growing; follows = s.follows; current = s.current; partial = tt })
    ]
    at_place (printing loaded) p s = print_result-Sound w loaded s p
    at_place ended p s = s

figure-Grows :
    (s t : System)
    → ((j : ℕ) → Grows (s.threads j) (t.threads j))
    → (k : ℕ) → figure k s ≤ figure k t
unfolding figure
figure-Grows s t g zero = (g 0).0
figure-Grows s t g (suc zero) = (g 0).1
figure-Grows s t g (suc (suc zero)) = (g 3).2
figure-Grows s t g (suc (suc (suc zero))) = (g 1).0
figure-Grows s t g (suc (suc (suc (suc zero)))) = (g 1).1
figure-Grows s t g (suc (suc (suc (suc (suc zero))))) = (g 4).2
figure-Grows s t g (suc (suc (suc (suc (suc (suc zero)))))) = (g 2).0
figure-Grows s t g (suc (suc (suc (suc (suc (suc (suc zero))))))) = (g 2).1
figure-Grows s t g (suc (suc (suc (suc (suc (suc (suc (suc k)))))))) = (g 5).2

-- The monitor changes nothing of the other threads.
monitor_func-system : (w : Watch) → (monitor_func w).system ≡ w.system
unfolding monitor_func monitor_at print_result
monitor_func-system w = at_place w.at
  where
    at_place : (p : At) → (monitor_at w p).system ≡ w.system
    at_place testing = refl
    at_place (printing loaded) = elim (Bool-cases (loaded == 9)) [
      | inl full ↦ rw full refl
      | inr not_full ↦ rw not_full refl
    ]
    at_place ended = refl

-- The threads have moved on, and no counter is less than before.
moved_on :
    (w : Watch) (t : System)
    → ((k : ℕ) → figure k w.system ≤ figure k t)
    → Sound w
    → Sound (record w { system = t })
moved_on w t more s = record {
  growing = s.growing;
  follows = s.follows;
  current = λ k lt. omega (arith, s.current k lt, more k);
  partial = at_place w.at s.partial;
}
  where
    at_place : (p : At) → Partial w p → Partial (record w { system = t }) p
    at_place testing q = tt
    at_place ended q = tt
    at_place (printing loaded) q =
        (q.0, λ k lt. ((q.1 k lt).0, omega (arith, (q.1 k lt).1, more k)))

module _ (mode : Mode) (first size n : ℕ) (h : ℕ → Option Node) (xs : Cells) (roles : ℕ → Role)
    (l : Linked h xs) (list_top : first_of xs ≡ first) (some_first : first ≢ 0) where
  Runs-Reach :
      {w : Watch} → Runs mode first size n h roles w → Reach mode first size n h roles w.system
  unfolding stop
  Runs-Reach begins = start
  Runs-Reach (turns {w} r random i inside) =
      later (Runs-Reach r) (record { running = w.is_running; random = random }) i inside
  Runs-Reach (monitors {w} r) = rw (monitor_func-system w) (Runs-Reach r)
  Runs-Reach (stops r) = Runs-Reach r

  Runs-Sound : {w : Watch} → Runs mode first size n h roles w → Sound w
  unfolding stop
  Runs-Sound begins = record {
    growing = tt;
    follows = refl;
    current = λ k lt. omega arith;
    partial = tt;
  }
  Runs-Sound (turns {w} r random i inside) =
      let c : Choice = record { running = w.is_running; random = random } in
      moved_on w (turn mode first size n c i w.system)
        (figure-Grows w.system (turn mode first size n c i w.system)
          (turn-Grows mode first size n h xs roles l list_top some_first (Runs-Reach r) c i inside))
        (Runs-Sound r)
  Runs-Sound (monitors {w} r) = monitor_func-Sound w (Runs-Sound r)
  Runs-Sound (stops {w} r) =
      let s = Runs-Sound r in
      record {
        growing = s.growing;
        follows = s.follows;
        current = s.current;
        partial = at_place w w.at s.partial;
      }
    where
      at_place : (w : Watch) (p : At) → Partial w p → Partial (stop w) p
      at_place w testing q = tt
      at_place w ended q = tt
      at_place w (printing loaded) q = q

  -- Started on a list with a first node, in every state that the threads, the monitor and `stop` reach in
  -- any order of steps, the reports printed are numbered from 1 on without a gap, no figure in a
  -- report is less than in the one before, and none is more than its counter is by then.
  pub reports_grow :
      {w : Watch}
      → Runs mode first size n h roles w
      → Growing w.printed × ((k : ℕ) → k < 9 → last w.printed k ≤ figure k w.system)
  reports_grow r = let s = Runs-Sound r in (s.growing, s.current)
