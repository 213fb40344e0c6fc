-- ===== src/WoReaper/Create.antt =====
-- `create_stack`, `destroy_stack` and `mythread_create` of 1.6/src/wo_reaper/mythread.c, with the outcome
-- of each system call given.
pub mod Laws
mod Tests
use os_5_sem.Base.{
  ℕ, ◌+◌, ◌%◌, ◌^◌, Bool, false, ◌||◌, Option, none, some, List, [], ◌∷◌, ◌==◌, if◌then◌else◌,
}
use os_5_sem.Mythread.Kernel.{
  Mapping, Task, Kernel, Outcomes, einval, enomem, set_errno, put, free, munmap,
}

-- `mythread_t`: pointers are numbers and NULL is 0.
pub record Object : Type 0 where
  pub arg : ℕ
  pub start_routine : ℕ
  pub retval : ℕ
  pub finished : Bool
  pub joined : Bool
  pub detached : Bool
  pub stack : ℕ
  pub stack_size : ℕ

abbrev pub stack_bytes : ℕ
stack_bytes = 4096

-- 0 is NULL.
pub create_stack : Outcomes → ℕ → Kernel Object → ℕ × Kernel Object
create_stack o size k = elim o.mmap [
  | none ↦ (0, set_errno o.mmap_errno k)
  | some stack ↦
      (stack, record k { maps = record { base = stack; size = size; guard = 0 } ∷ k.maps })
]

unfoldable pub destroy_stack : Outcomes → ℕ → ℕ → Kernel Object → Kernel Object
destroy_stack o stack size k = if (stack == 0) || (size == 0) then k else munmap o stack size k

-- The object after its fields are filled in.
abbrev pub new_object : (start_routine arg stack size : ℕ) → Object
new_object start_routine arg stack size = record {
  arg = arg;
  start_routine = start_routine;
  retval = 0;
  finished = false;
  joined = false;
  detached = false;
  stack = stack;
  stack_size = size;
}

-- The call of clone. The result is what is stored through `thread`, or a return of -1.
pub spawn : Outcomes → (t stack : ℕ) → Kernel Object → Option ℕ × Kernel Object
unfolding destroy_stack
spawn o t stack k = elim o.clone [
  | some tid ↦ (
    some t,
    record k {
      tasks = record { entry_arg = t; stack_top = (stack + stack_bytes) % 2 ^ 64 } ∷ k.tasks;
    },
  )
  | none ↦ (
    none,
    set_errno o.clone_errno
        (free o t (destroy_stack o stack stack_bytes (set_errno o.clone_errno k))),
  )
]

-- With the object allocated at `t`.
pub create_at : Outcomes → (t start_routine arg : ℕ) → Kernel Object → Option ℕ × Kernel Object
unfolding create_stack spawn
create_at o t start_routine arg k =
    let (stack, k') = create_stack o stack_bytes k in
    if stack == 0
    then (none, set_errno enomem (free o t k'))
    else spawn o t stack
        (record k' { heap = put t (new_object start_routine arg stack stack_bytes) k'.heap })

-- `thread` and `start_routine` are the pointers passed.
unfoldable pub mythread_create :
    Outcomes → (thread start_routine arg : ℕ) → Kernel Object → Option ℕ × Kernel Object
unfolding create_at
mythread_create o thread start_routine arg k =
    if (thread == 0) || (start_routine == 0) then (none, set_errno einval k) else elim o.calloc [
      | none ↦ (none, set_errno enomem k)
      | some t ↦
          create_at o t start_routine arg (record k { heap = (t, new_object 0 0 0 0) ∷ k.heap })
    ]
