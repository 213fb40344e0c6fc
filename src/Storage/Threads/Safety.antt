-- ===== src/Storage/Threads/Safety.antt =====
-- What holds of the threads of 2.3/src in every reachable state, for any number of searching and swapping
-- threads, each with any comparison, and any order of steps.
use mathlib.Core.List.{Perm}
use os_5_sem.Base.{ℕ, ◌<◌, ◌≡◌, ◌≢◌, false, Option}
use os_5_sem.Storage.Memory.{Node, Mode}
use os_5_sem.Storage.Layout.{Cells, first_of, has, Linked}
use os_5_sem.Storage.Threads.{Role, System, Reach}
use os_5_sem.Storage.Threads.Exclusion.{Excludes}
use os_5_sem.Storage.Threads.Invariant.{Reach-Inv}

module _ (mode : Mode) (first size n : ℕ) (h : ℕ → Option Node) (xs : Cells) (roles : ℕ → Role)
    (l : Linked h xs) (top : first_of xs ≡ first) (some_first : first ≢ 0) {s : System}
    (r : Reach mode first size n h roles s) where
  -- Started on a list with a first node, the threads never touch a node that they have not locked or
  -- that is no node, nor lock one twice, nor unlock one that they do not hold. In every reachable
  -- state the nodes are linked in some order with the same first one: none is lost or made up, each
  -- keeps its text, and memory outside the list is as at the start.
  pub list_kept :
      (s.faulted ≡ false)
      × ((ys : Cells) × Linked s.memory ys
          × (first_of ys ≡ first)
          × Perm ys xs
          × ((x : ℕ) → has x xs ≡ false → s.memory x ≡ h x))
  list_kept =
      let inv = Reach-Inv mode first size n h xs some_first roles l top r in
      (inv.safe, (inv.list, inv.linked, inv.top, inv.perm, inv.same))

  -- In every reachable state, where one thread holds the lock of a node exclusively, no other holds it,
  -- shared or not.
  pub locks_exclude :
      (i j : ℕ) → i < n → j < n → i ≢ j → Excludes (s.threads i).held (s.threads j).held
  locks_exclude = (Reach-Inv mode first size n h xs some_first roles l top r).apart
