-- ===== src/Mythread/Kernel.antt =====
-- The system calls that 1.6/src and 1.6/src/wo_reaper make for memory and threads: mmap, mprotect,
-- munmap, calloc, free and clone. Their outcomes are given; what they leave behind is kept as lists
-- of what is live.
use os_5_sem.Base.{ℕ, ◌-◌, ◌%◌, Bool, ◌&&◌, Option, List, [], ◌∷◌, ◌==◌, if◌then◌else◌}
use os_5_sem.Mythread.Flags.{Flags}

-- `mythread_t`: pointers are numbers and NULL is 0.
pub record Thread : Type 0 where
  pub arg : ℕ
  pub start_routine : ℕ
  pub retval : ℕ
  pub finished : Bool
  pub state : Flags
  pub stack : ℕ
  pub stack_size : ℕ

-- A mapping, of which the first `guard` bytes are protected.
pub record Mapping : Type 0 where
  pub base : ℕ
  pub size : ℕ
  pub guard : ℕ

-- A cloned task: its entry's argument and the top of its stack.
pub record Task : Type 0 where
  pub entry_arg : ℕ
  pub stack_top : ℕ

-- `T` is the type of the objects on the heap.
pub record Kernel (T : Type 0) : Type 0 where
  pub heap : List (ℕ × T)
  pub maps : List Mapping
  pub tasks : List Task
  pub errno : ℕ

-- What each call will return. A failing call has its errno; `page` is 0 where sysconf fails;
-- `clobber` is what munmap and free may do to errno.
pub record Outcomes : Type 0 where
  pub page : ℕ
  pub calloc : Option ℕ
  pub mmap : Option ℕ
  pub mmap_errno : ℕ
  pub mprotect : Bool
  pub mprotect_errno : ℕ
  pub clone : Option ℕ
  pub clone_errno : ℕ
  pub clobber : ℕ → ℕ

abbrev pub einval : ℕ
einval = 22

abbrev pub enomem : ℕ
enomem = 12

abbrev pub set_errno : {T : Type 0} → ℕ → Kernel T → Kernel T
set_errno e k = record k { errno = e }

-- The first live object at the address, written anew.
unfoldable pub put : {T : Type 0} → ℕ → T → List (ℕ × T) → List (ℕ × T)
put p t [] = []
put p t ((q, u) ∷ heap) = if q == p then (q, t) ∷ heap else (q, u) ∷ put p t heap

unfoldable pub drop_object : {T : Type 0} → ℕ → List (ℕ × T) → List (ℕ × T)
drop_object p [] = []
drop_object p ((q, u) ∷ heap) = if q == p then heap else (q, u) ∷ drop_object p heap

unfoldable pub drop_map : ℕ → ℕ → List Mapping → List Mapping
drop_map p n [] = []
drop_map p n (m ∷ maps) = if (m.base == p) && (m.size == n) then maps else m ∷ drop_map p n maps

unfoldable pub protect : ℕ → ℕ → List Mapping → List Mapping
protect p n [] = []
protect p n (m ∷ maps) = if m.base == p then record m { guard = n } ∷ maps else m ∷ protect p n maps

abbrev pub free : {T : Type 0} → Outcomes → ℕ → Kernel T → Kernel T
free o p k = record k { heap = drop_object p k.heap; errno = o.clobber k.errno }

abbrev pub munmap : {T : Type 0} → Outcomes → ℕ → ℕ → Kernel T → Kernel T
munmap o p n k = record k { maps = drop_map p n k.maps; errno = o.clobber k.errno }

-- A pointer rounded down to a multiple of 16: `p & ~(uintptr_t)0xF`.
abbrev pub align_down : ℕ → ℕ
align_down p = p - p % 16
