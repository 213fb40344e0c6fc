-- ===== src/Mythread/Create.antt =====
-- `create_stack`, `destroy_stack` and `mythread_create` of 1.6/src/mythread.c, up to the call of
-- clone, with the outcome of each system call given.
pub mod Laws
use os_5_sem.Base.{
  ℕ, ◌+◌, ◌*◌, ◌%◌, ◌^◌, Bool, true, false, ◌||◌, Option, none, some, List, [], ◌∷◌, ◌==◌,
  if◌then◌else◌,
}
use os_5_sem.Mythread.Flags.{no_flags}
use os_5_sem.Mythread.Kernel.{
  Thread, Mapping, Task, Kernel, Outcomes, einval, enomem, set_errno, put, protect, free, munmap,
  align_down,
}

abbrev pub page_size : Outcomes → ℕ
page_size o = if o.page == 0 then 4096 else o.page

-- The guard page after a successful mmap at `map`.
pub guard_stack : Outcomes → ℕ → ℕ → Kernel Thread → Option (ℕ × ℕ) × Kernel Thread
guard_stack o map total k =
    if o.mprotect
    then (some (map, total), record k { maps = protect map (page_size o) k.maps })
    else (none, munmap o map total (set_errno o.mprotect_errno k))

-- The base of the mapping and its size, or NULL.
pub create_stack : Outcomes → ℕ → Kernel Thread → Option (ℕ × ℕ) × Kernel Thread
unfolding guard_stack
create_stack o usable k =
    let total = (usable + page_size o) % 2 ^ 64 in
    elim o.mmap [
      | none ↦ (none, set_errno o.mmap_errno k)
      | some map ↦
          guard_stack o map total
            (record k { maps = record { base = map; size = total; guard = 0 } ∷ k.maps })
    ]

unfoldable pub destroy_stack : Outcomes → ℕ → ℕ → Kernel Thread → Kernel Thread
destroy_stack o stack size k = if (stack == 0) || (size == 0) then k else munmap o stack size k

abbrev pub usable_stack : ℕ
usable_stack = 256 * 1024

-- The object after its fields are filled in.
abbrev pub new_thread : (start_routine arg stack size : ℕ) → Thread
new_thread start_routine arg stack size = record {
  arg = arg;
  start_routine = start_routine;
  retval = 0;
  finished = false;
  state = no_flags;
  stack = stack;
  stack_size = size;
}

-- `calloc(1, sizeof(*t))`.
abbrev pub zeroed : Thread
zeroed = new_thread 0 0 0 0

abbrev pub stack_top_of : ℕ → ℕ → ℕ
stack_top_of stack size = align_down ((stack + size) % 2 ^ 64)

-- The call of clone, on an object whose fields are filled in. The result is what is stored through
-- `thread`, or a return of -1.
pub spawn : Outcomes → ℕ → ℕ → ℕ → Kernel Thread → Option ℕ × Kernel Thread
unfolding destroy_stack
spawn o t stack size k = elim o.clone [
  | some tid ↦ (
    some t,
    record k { tasks = record { entry_arg = t; stack_top = stack_top_of stack size } ∷ k.tasks },
  )
  | none ↦ (
    none,
    set_errno o.clone_errno (free o t (destroy_stack o stack size (set_errno o.clone_errno k))),
  )
]

-- With the object allocated at `t`.
pub create_at : Outcomes → (t start_routine arg : ℕ) → Kernel Thread → Option ℕ × Kernel Thread
unfolding create_stack spawn
create_at o t start_routine arg k =
    let (stack, k') = create_stack o usable_stack k in
    elim stack [
      | none ↦ (none, set_errno enomem (free o t k'))
      | some (base, size) ↦
          spawn o t base size
            (record k' { heap = put t (new_thread start_routine arg base size) k'.heap })
    ]

-- `thread` and `start_routine` are the pointers passed.
unfoldable pub mythread_create :
    Outcomes → (thread start_routine arg : ℕ) → Kernel Thread → Option ℕ × Kernel Thread
unfolding create_at
mythread_create o thread start_routine arg k =
    if (thread == 0) || (start_routine == 0) then (none, set_errno einval k) else elim o.calloc [
      | none ↦ (none, set_errno enomem k)
      | some t ↦ create_at o t start_routine arg (record k { heap = (t, zeroed) ∷ k.heap })
    ]
