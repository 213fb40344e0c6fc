-- ===== src/Storage/Program.antt =====
-- `main` of 2.3/src: the list that `storage_init` makes, and the six threads on it.
use mathlib.Core.List.{Perm}
use os_5_sem.Base.{
  ℕ, zero, suc, ◌+◌, ◌<◌, ◌≤◌, ◌≡◌, ◌≢◌, refl, false, Option, none, some, [], ◌∷◌, arith, length,
  ltb, if◌then◌else◌,
}
use os_5_sem.Storage.{
  Storage, cmp_asc, cmp_desc, cmp_equal, swap_asc_func, swap_desc_func, swap_not_equal_func,
}
use os_5_sem.Storage.Memory.{Node, Mode}
use os_5_sem.Storage.Layout.{Cells, first_of, has, Linked}
use os_5_sem.Storage.Build.{Arena, storage_init}
use os_5_sem.Storage.Build.Chain.{IsMalloc, Sized}
use os_5_sem.Storage.Build.Laws.{storage_init-Linked}
use os_5_sem.Storage.Threads.{Role, searcher, swapper, System, init, Reach}
use os_5_sem.Storage.Threads.Safety.{list_kept}

-- The threads in the order in which they are created.
abbrev pub main_roles : ℕ → Role
main_roles zero = searcher cmp_asc
main_roles (suc zero) = searcher cmp_desc
main_roles (suc (suc zero)) = searcher cmp_equal
main_roles (suc (suc (suc zero))) = swapper swap_asc_func
main_roles (suc (suc (suc (suc zero)))) = swapper swap_desc_func
main_roles (suc (suc (suc (suc (suc i))))) = swapper swap_not_equal_func

-- How `main` comes to its threads: without an argument it returns -1; where `storage_init` gave NULL, the
-- threads are started all the same, and read the size through that pointer.
pub data Launch : Type 0 where
  no_argument null_storage : Launch
  launched : Storage → System → Launch

-- `storage_size` is 0 for every int that is not positive.
pub launch :
    (argc storage_size : ℕ) → (malloc : ℕ → Option ℕ) → (rand : ℕ → ℕ) → Arena → Option Launch
launch argc storage_size malloc rand a =
    if ltb argc 2 then some no_argument else elim (storage_init malloc rand storage_size a) [
      | none ↦ none
      | some (none, a') ↦ some null_storage
      | some (some s, a') ↦ some (launched s (init a'.nodes main_roles))
    ]

-- What the six threads keep of the list, in every state that they reach.
pub record Kept (mode : Mode) (s : Storage) (cells : Cells) (h : ℕ → Option Node) (t : System)
    : Type 0 where
  pub safe : t.faulted ≡ false
  pub list : Cells
  pub linked : Linked t.memory list
  pub top : first_of list ≡ s.first
  pub perm : Perm list ((s.first, []) ∷ cells)
  pub same : (x : ℕ) → has x ((s.first, []) ∷ cells) ≡ false → t.memory x ≡ h x

-- With an argument, and where no call of malloc fails, `main` starts its threads on a list of a first node
-- and `storage_size` nodes behind it with texts of 1 to 7 bytes. In every state that the six threads
-- reach from there, in any order of steps, with read or exclusive locks for those that search, none
-- has touched a node without its lock; the list has the same nodes with the same texts behind the same
-- first one; and memory outside the list is as it was when the threads started.
pub launch-Kept :
    (argc storage_size : ℕ) (malloc : ℕ → Option ℕ) (rand : ℕ → ℕ) (a : Arena)
    → IsMalloc malloc
    → 2 ≤ argc
    → 0 < storage_size
    → ((j : ℕ) → j < storage_size + 2 → malloc j ≢ none)
    → (s : Storage) × (h : ℕ → Option Node) × (cells : Cells) × (launch argc storage_size malloc
          rand a
        ≡ some (launched s (init h main_roles)))
      × (s.size ≡ storage_size)
      × (length cells ≡ storage_size)
      × Sized cells
      × ((mode : Mode) (t : System)
          → Reach mode s.first s.size 6 h main_roles t
          → Kept mode s cells h t)
unfolding launch
launch-Kept argc storage_size malloc rand a is given some_nodes all =
    let (first, h, cells, run, linked, size, sized, same) =
      storage_init-Linked malloc rand storage_size a is some_nodes all in
    let enough : ltb argc 2 ≡ false = ground arith in
    (
      record { first = first; size = storage_size },
      h,
      cells,
      rw enough (rw run refl),
      refl,
      size,
      sized,
      λ mode t r.
          let (safe, (list, found, top, perm, outside)) =
            list_kept mode first storage_size 6 h ((first, []) ∷ cells) main_roles linked refl
              linked.0 r in
          record {
            safe = safe;
            list = list;
            linked = found;
            top = top;
            perm = perm;
            same = outside;
          },
    )
