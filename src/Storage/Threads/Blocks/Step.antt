-- ===== src/Storage/Threads/Blocks/Step.antt =====
-- The step of Storage/Threads.antt from any place.
use os_5_sem.Base.{arith, ℕ, ◌≡◌, refl, true, Option, List, []}
use os_5_sem.Storage.Memory.{Node, Mode}
use os_5_sem.Storage.Layout.{Cells, has, Linked}
use os_5_sem.Storage.Threads.{
  Role, Pc, outside, search_first, search_second, search_next, swap_first, swap_second, swap_walk,
  swap_last, Choice, enter, block, wanted,
}
use os_5_sem.Storage.Threads.Blocks.{Local, Outcome, quiet, Within-nil, Local-enter, Tally-enter}
use os_5_sem.Storage.Threads.Blocks.Search.{
  search_first-Outcome, search_second-Outcome, search_next-Outcome,
}
use os_5_sem.Storage.Threads.Blocks.Swap.{
  swap_first-Outcome, swap_second-Outcome, swap_walk-Outcome, swap_last-Outcome,
}

module _ (mode : Mode) (first size : ℕ) (c : Choice) (role : Role) (h : ℕ → Option Node)
    (xs : Cells) (i p w : ℕ) (l : Linked h xs) (root : has first xs ≡ true) where
  outside-Outcome : Outcome mode first size c role outside h xs [] i p w
  unfolding block wanted
  outside-Outcome =
      quiet (enter first size c role) [] i p w l refl (Local-enter mode first size c role xs)
        (Within-nil []) (λ e. cc) (λ t. Tally-enter first size c role xs i p t.1) (omega arith)

-- The step from any place.
pub step-Outcome :
    (mode : Mode) (first size : ℕ) (c : Choice) (role : Role) (h : ℕ → Option Node) (xs : Cells)
    (i p w : ℕ)
    → Linked h xs
    → has first xs ≡ true
    → (at : Pc) (held : List (ℕ × Mode)) → Local mode first xs at held
    → Outcome mode first size c role at h xs held i p w
step-Outcome mode first size c role h xs i p w l root outside held here =
    rw here (outside-Outcome mode first size c role h xs i p w l root)
step-Outcome mode first size c role h xs i p w l root search_first held here =
    rw here (search_first-Outcome mode first size c role h xs i p w l root)
step-Outcome mode first size c role h xs i p w l root (search_second a) held here =
    rw here.0 (search_second-Outcome mode first size c role h xs i p w l root a here.1 here.2)
step-Outcome mode first size c role h xs i p w l root (search_next a b k) held here =
    rw here.0
      (search_next-Outcome mode first size c role h xs i p w l root a b k here.1 here.2 here.3)
step-Outcome mode first size c role h xs i p w l root (swap_first j) held here =
    rw here (swap_first-Outcome mode first size c role h xs i p w l root j)
step-Outcome mode first size c role h xs i p w l root (swap_second j cur) held here =
    rw here.0 (swap_second-Outcome mode first size c role h xs i p w l root j cur here.1 here.2)
step-Outcome mode first size c role h xs i p w l root (swap_walk j prev cur next) held here =
    rw here.0 (swap_walk-Outcome mode first size c role h xs i p w l root j prev cur next here.1)
step-Outcome mode first size c role h xs i p w l root (swap_last prev cur next) held here =
    rw here.0 (swap_last-Outcome mode first size c role h xs i p w l root prev cur next here.1)
