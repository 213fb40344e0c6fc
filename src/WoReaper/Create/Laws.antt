-- ===== src/WoReaper/Create/Laws.antt =====
-- What is live after `mythread_create` of 1.6/src/wo_reaper/mythread.c.
use os_5_sem.Base.{
  ℕ, ◌+◌, ◌<◌, ◌^◌, Bool-cases, Option-cases, ◌≡◌, ◌≢◌, ◌||◌, ◌⊎◌, inl, inr, none, some, ◌∷◌, arith,
  ◌==◌, if◌then◌else◌,
}
use os_5_sem.Mythread.Kernel.{Kernel, Outcomes, einval, enomem, put, drop_map, drop_object}
use os_5_sem.Mythread.Create.Laws.{SameLive}
use os_5_sem.WoReaper.Create.{Object, stack_bytes, destroy_stack, new_object, mythread_create}

-- The errno that a failing call leaves.
abbrev pub failure_errno : Outcomes → (thread start_routine : ℕ) → ℕ
failure_errno o thread start_routine =
    if (thread == 0) || (start_routine == 0) then einval else elim o.calloc [
      | none ↦ enomem
      | some t ↦ elim o.mmap [ none ↦ enomem | some b ↦ o.clone_errno ]
    ]

-- What a call leaves where it returned 0 and stored `t`, with a stack at `b`.
abbrev pub Made : (start_routine arg t b : ℕ) → (before after : Kernel Object) → Type 0
Made start_routine arg t b k k' = k' ≡ record k {
  heap = (t, new_object start_routine arg b stack_bytes) ∷ k.heap;
  maps = record { base = b; size = stack_bytes; guard = 0 } ∷ k.maps;
  tasks = record { entry_arg = t; stack_top = b + stack_bytes } ∷ k.tasks;
}

-- Where mmap does not return address 0 or the last page of memory, `mythread_create` does one of two
-- things. It returns -1: the live objects, mappings and tasks are those before the call, and errno is
-- EINVAL for a NULL argument, ENOMEM where memory or the stack was refused, and that of clone where
-- clone failed. Or it stores a new object: neither pointer was NULL, calloc gave the object and mmap
-- its stack; the object is the one new object, filled in and neither finished, joined nor detached;
-- its stack of 4096 bytes is the one new mapping, with no guard page; and the one new task is given
-- the object, and the end of the stack as its top.
pub create_all_or_nothing :
    (o : Outcomes) (thread start_routine arg : ℕ) (k : Kernel Object)
    → o.mmap ≢ some 0
    → ((b : ℕ) → o.mmap ≡ some b → b + stack_bytes < 2 ^ 64)
    → (((mythread_create o thread start_routine arg k).0 ≡ none)
        × SameLive (mythread_create o thread start_routine arg k).1 k
        × ((mythread_create o thread start_routine arg k).1.errno
            ≡ failure_errno o thread start_routine))
      ⊎ ((t : ℕ) × (b : ℕ) × ((mythread_create o thread start_routine arg k).0 ≡ some t)
          × ((thread ≢ 0) × (start_routine ≢ 0))
          × (o.calloc ≡ some t)
          × (o.mmap ≡ some b)
          × Made start_routine arg t b k (mythread_create o thread start_routine arg k).1)
unfolding mythread_create put drop_map drop_object destroy_stack
create_all_or_nothing o thread start_routine arg k h room =
    elim (Bool-cases ((thread == 0) || (start_routine == 0))) [
      | inl null ↦ inl (ground arith)
      | inr given ↦ elim (Option-cases o.calloc) [
        | inl refused ↦ inl (ground arith)
        | inr (t, object) ↦ elim (Option-cases o.mmap) [
          | inl refused ↦ inl (ground arith)
          | inr (b, map) ↦ elim (Option-cases o.clone) [
            | inl refused ↦ inl (ground arith)
            | inr (tid, task) ↦
                let small = room b map in
                inr (
                  t,
                  b,
                  ground arith,
                  (ground arith, ground arith),
                  object,
                  map,
                  ground (arith, small),
                )
          ]
        ]
      ]
    ]
