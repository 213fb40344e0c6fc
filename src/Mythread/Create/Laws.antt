-- ===== src/Mythread/Create/Laws.antt =====
-- What is live after `mythread_create` of 1.6/src/mythread.c, and after a release.
use os_5_sem.Base.{
  ℕ, suc, ◌+◌, ◌-◌, ◌%◌, ◌^◌, ◌≤◌, ◌<◌, ◌≡◌, refl, ◌≢◌, ◌||◌, none, some, List, ◌∷◌, arith, ◌==◌,
  if◌then◌else◌,
}
use os_5_sem.Mythread.Kernel.{
  Thread, Mapping, Kernel, Outcomes, einval, enomem, put, protect, drop_map, drop_object, free,
}
use os_5_sem.Mythread.Create.{page_size, destroy_stack, usable_stack, new_thread, mythread_create}

-- Everything that is live, apart from errno.
abbrev pub SameLive : {T : Type 0} → Kernel T → Kernel T → Type 0
SameLive k l = (k.heap ≡ l.heap) × (k.maps ≡ l.maps) × (k.tasks ≡ l.tasks)

-- The errno that a failing call leaves.
abbrev pub create_errno : Outcomes → ℕ → ℕ → ℕ
create_errno o thread start_routine =
    if (thread == 0) || (start_routine == 0) then einval else elim o.calloc [
      | none ↦ enomem
      | some t ↦ elim o.mmap [
        | none ↦ enomem
        | some b ↦ if o.mprotect then o.clone_errno else enomem
      ]
    ]

-- When `mythread_create` returns -1, the live objects, mappings and tasks are those before the call,
-- and errno is EINVAL for a NULL argument, ENOMEM where memory or the stack was refused, and that
-- of clone where clone failed. It assumes that mmap does not return address 0, and that the page
-- size fits a long.
pub create_failure :
    (o : Outcomes) (thread start_routine arg : ℕ) (k : Kernel Thread)
    → o.mmap ≢ some 0
    → o.page < 2 ^ 63
    → (mythread_create o thread start_routine arg k).0 ≡ none
    → SameLive (mythread_create o thread start_routine arg k).1 k
      × ((mythread_create o thread start_routine arg k).1.errno
          ≡ create_errno o thread start_routine)
unfolding mythread_create put protect drop_map drop_object
create_failure o thread start_routine arg k h small e = ground arith

-- When `mythread_create` stores `t`, the live objects are those before with `t` added, which is not
-- finished, has no flag set and holds the routine, its argument and a stack; the mappings are those
-- before with that stack added; and there is one new task, which is given `t` and whose stack top is
-- a multiple of 16 in the stack, above the guard page. It assumes that the mapping lies below 2^64
-- and that the page size fits a long.
pub create_success :
    (o : Outcomes) (thread start_routine arg : ℕ) (k : Kernel Thread) {t b : ℕ}
    → o.mmap ≡ some b
    → b + usable_stack + page_size o < 2 ^ 64
    → o.page < 2 ^ 63
    → (mythread_create o thread start_routine arg k).0 ≡ some t
    → (s : Mapping) × (top : ℕ) × ((mythread_create o thread start_routine arg k).1 ≡ record k {
      heap = (t, new_thread start_routine arg s.base s.size) ∷ k.heap;
      maps = s ∷ k.maps;
      tasks = record { entry_arg = t; stack_top = top } ∷ k.tasks;
    })
      × (s.guard ≡ page_size o)
      × (s.size ≡ usable_stack + page_size o)
      × (top % 16 ≡ 0)
      × (s.base + s.guard ≤ top)
      × (top ≤ s.base + s.size)
unfolding mythread_create put protect
create_success o thread start_routine arg k {b} eb room small e = (
  record { base = b; size = usable_stack + page_size o; guard = page_size o },
  (b + usable_stack + page_size o) - (b + usable_stack + page_size o) % 16,
  ground arith,
  refl,
  refl,
  omega arith,
  omega arith,
  omega arith,
)

-- `destroy_stack` and `free` on the object that `mythread_create` stored give back every object and
-- mapping that it took.
pub create-release :
    (o : Outcomes) (thread start_routine arg : ℕ) (k : Kernel Thread) {t b : ℕ}
    → o.mmap ≡ some (suc b)
    → o.page < 2 ^ 63
    → (mythread_create o thread start_routine arg k).0 ≡ some t
    → (u : Thread) × (rest : List (ℕ × Thread)) × ((mythread_create o thread start_routine arg
          k).1.heap
        ≡ (t, u) ∷ rest)
      × ((free o t (
            destroy_stack o u.stack u.stack_size
              (mythread_create o thread start_routine arg k).1)).heap
          ≡ k.heap)
      × ((free o t (
            destroy_stack o u.stack u.stack_size
              (mythread_create o thread start_routine arg k).1)).maps
          ≡ k.maps)
unfolding mythread_create put protect drop_map drop_object destroy_stack
create-release o thread start_routine arg k {b} eb small e = (
  new_thread start_routine arg (suc b) ((usable_stack + page_size o) % 2 ^ 64),
  k.heap,
  ground arith,
  ground arith,
  ground arith,
)
