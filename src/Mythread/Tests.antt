-- ===== src/Mythread/Tests.antt =====
-- One run of `mythread_create` and of `start_reaper` with each outcome.
use os_5_sem.Base.{ℕ, ◌+◌, ◌≡◌, refl, true, false, none, some, List, [], ◌∷◌, arith, ◌≢◌, ◌↔◌}
use os_5_sem.Mythread.Protocol.{System, call_join}
use os_5_sem.Mythread.Protocol.Play.{calling, play, play-Reach}
use os_5_sem.Mythread.Protocol.Invariant.{pending, releasing, claimed}
use os_5_sem.Mythread.Lifecycle.{created, releases, by_join, SameMemory, released_memory}
use os_5_sem.Mythread.Kernel.{Thread, Kernel, Outcomes, set_errno}
use os_5_sem.Mythread.Create.{mythread_create}
use os_5_sem.Mythread.Create.Laws.{SameLive, create_failure}
use os_5_sem.Mythread.Reaper.{Statics, start_reaper, start_failure}

abbrev kernel : Kernel Thread
kernel = record { heap = []; maps = []; tasks = []; errno = 0 }

-- Every call succeeds.
abbrev granted : Outcomes
granted = record {
  page = 4096;
  calloc = some 64;
  mmap = some 65536;
  mmap_errno = 12;
  mprotect = true;
  mprotect_errno = 12;
  clone = some 7;
  clone_errno = 11;
  clobber = λ e. 0;
}

-- clone fails with EAGAIN.
abbrev no_task : Outcomes
no_task = record granted { clone = none }

create_failure_example :
    SameLive (mythread_create no_task 8 16 5 kernel).1 kernel
    × ((mythread_create no_task 8 16 5 kernel).1.errno ≡ 11)
unfolding mythread_create
create_failure_example = create_failure no_task 8 16 5 kernel (ground arith) (omega arith) refl

abbrev statics : Statics
statics = record { started = false; stack = 0; stack_size = 0; tid = none; kernel = kernel }

start_failure_example :
    (statics.started ≡ false)
    × ((start_reaper no_task statics).0 ≡ record statics { kernel = set_errno 11 kernel })
unfolding start_reaper
start_failure_example = start_failure no_task statics (ground arith) (omega arith) refl

-- The thread finishes, agent 2 joins it, and the object is released.
abbrev joined_run : List ℕ
joined_run = 2 ∷ 2 ∷ 2 ∷ 2 ∷ 2 ∷ 2 ∷ 0 ∷ 0 ∷ 0 ∷ []

abbrev joined : System
joined = play 7 (calling call_join) joined_run

released_memory_example :
    (u : Thread) × ((created granted 8 16 5 kernel).heap ≡ (64, u) ∷ [])
    × (joined.mem.released ≢ 0
        → SameMemory
            (releases
              (λ i. by_join)
              granted
              64
              u
              joined.mem.released
              (created granted 8 16 5 kernel))
            kernel)
    × (joined.mem.released ≡ 0
        → SameMemory
            (releases
              (λ i. by_join)
              granted
              64
              u
              joined.mem.released
              (created granted 8 16 5 kernel))
            (created granted 8 16 5 kernel))
    × (((i : ℕ) → pending (joined.pc i) + releasing (joined.pc i) ≡ 0)
        → joined.mem.nodes ≡ 0
        → joined.mem.lost ≡ 0
        → (joined.mem.released ≢ 0) ↔ (claimed joined.mem.state ≡ 1))
unfolding mythread_create
released_memory_example =
    released_memory granted 8 16 5 kernel {t = 64} {b = 65535} refl (omega arith) refl
      (play-Reach 7 (calling call_join) joined_run) (λ i. by_join)
