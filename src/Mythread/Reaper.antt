-- ===== src/Mythread/Reaper.antt =====
-- `start_reaper` and `__reaper_cleanup_on_error` of 1.6/src/queue.h, with the outcome of each system
-- call given.
use os_5_sem.Base.{
  ℕ, ◌+◌, ◌%◌, ◌^◌, ◌<◌, ◌≡◌, ◌≢◌, Bool, true, false, ◌&&◌, not, Option, none, some, ◌∷◌, arith,
  ◌==◌, if◌then◌else◌, length,
}
use os_5_sem.Mythread.Kernel.{Thread, Kernel, Outcomes, set_errno, protect, drop_map, munmap}
use os_5_sem.Mythread.Create.{page_size, stack_top_of}

-- The static variables; `tid` is `none` for -1. `kernel` is everything else.
pub record Statics : Type 0 where
  pub started : Bool
  pub stack : ℕ
  pub stack_size : ℕ
  pub tid : Option ℕ
  pub kernel : Kernel Thread

abbrev pub reaper_stack_size : ℕ
reaper_stack_size = 2 ^ 20

pub cleanup_on_error : Outcomes → ℕ → ℕ → Statics → Statics
cleanup_on_error o stack total s =
    if not (stack == 0) && not (total == 0)
    then record s { started = false; kernel = munmap o stack total s.kernel }
    else record s { started = false }

-- A return of -1 after the clean-up, with the errno that was saved.
abbrev pub give_up : ℕ → Statics → Statics × Bool
give_up saved s = (record s { kernel = set_errno saved s.kernel }, false)

-- From the call of clone on.
pub clone_reaper : Outcomes → ℕ → ℕ → Statics → Statics × Bool
unfolding cleanup_on_error
clone_reaper o map total s = elim o.clone [
  | none ↦ give_up o.clone_errno (
      cleanup_on_error o map total
        (record s { started = false; kernel = set_errno o.clone_errno s.kernel }))
  | some tid ↦ (
    record s {
      stack = map;
      stack_size = total;
      tid = some tid;
      kernel = record (s.kernel) {
        tasks = record { entry_arg = 0; stack_top = stack_top_of map total } ∷ s.kernel.tasks;
      };
    },
    true,
  )
]

-- From the call of mprotect on. It guards 4096 bytes whatever the page size is.
pub guard_reaper : Outcomes → ℕ → ℕ → Statics → Statics × Bool
unfolding clone_reaper cleanup_on_error
guard_reaper o map total s =
    if o.mprotect
    then clone_reaper o map total
        (record s { kernel = record (s.kernel) { maps = protect map 4096 s.kernel.maps } })
    else give_up o.mprotect_errno
        (cleanup_on_error o map total (record s { kernel = set_errno o.mprotect_errno s.kernel }))

-- The result is true for a return of 0.
unfoldable pub start_reaper : Outcomes → Statics → Statics × Bool
unfolding guard_reaper
start_reaper o s =
    if s.started
    then (s, true)
    else let total = (reaper_stack_size + page_size o) % 2 ^ 64 in
      elim o.mmap [
        | none ↦
            give_up o.mmap_errno
              (record s { started = false; kernel = set_errno o.mmap_errno s.kernel })
        | some map ↦ guard_reaper o map total (record s {
          started = true;
          kernel = record (s.kernel) {
            maps = record { base = map; size = total; guard = 0 } ∷ s.kernel.maps;
          };
        })
      ]

-- The errno of the call that failed.
abbrev pub reaper_errno : Outcomes → ℕ
reaper_errno o = elim o.mmap [
  | none ↦ o.mmap_errno
  | some b ↦ if o.mprotect then o.clone_errno else o.mprotect_errno
]

-- When `start_reaper` returns -1, no reaper had been started, and everything is as before the call
-- except errno, which is that of the call that failed: a later call tries again. It assumes that
-- mmap does not return address 0 and that the page size fits a long.
pub start_failure :
    (o : Outcomes) (s : Statics)
    → o.mmap ≢ some 0
    → o.page < 2 ^ 63
    → (start_reaper o s).1 ≡ false
    → (s.started ≡ false)
      × ((start_reaper o s).0 ≡ record s { kernel = set_errno (reaper_errno o) s.kernel })
unfolding start_reaper drop_map protect
start_failure o s h small e = ground arith

-- When `start_reaper` returns 0 the reaper counts as started, and it added one task and one mapping
-- if it was not started before, and none if it was; a second call then changes nothing and returns 0,
-- whatever the outcomes of its system calls would be.
pub start_success :
    (o o' : Outcomes) (s : Statics)
    → (start_reaper o s).1 ≡ true
    → ((start_reaper o s).0.started ≡ true)
      × (length (start_reaper o s).0.kernel.tasks
          ≡ length s.kernel.tasks + (if s.started then 0 else 1))
      × (length (start_reaper o s).0.kernel.maps
          ≡ length s.kernel.maps + (if s.started then 0 else 1))
      × (start_reaper o' (start_reaper o s).0 ≡ ((start_reaper o s).0, true))
unfolding start_reaper protect
start_success o o' s e = ground arith
