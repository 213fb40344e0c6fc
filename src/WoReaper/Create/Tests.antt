-- ===== src/WoReaper/Create/Tests.antt =====
-- `mythread_create` of 1.6/src/wo_reaper/mythread.c where every call succeeds.
use os_5_sem.Base.{ℕ, ◌≡◌, ◌≢◌, true, none, some, [], arith, ◌⊎◌}
use os_5_sem.Mythread.Kernel.{Kernel, Outcomes}
use os_5_sem.Mythread.Create.Laws.{SameLive}
use os_5_sem.WoReaper.Create.{Object, mythread_create}
use os_5_sem.WoReaper.Create.Laws.{failure_errno, Made, create_all_or_nothing}

abbrev kernel : Kernel Object
kernel = record { heap = []; maps = []; tasks = []; errno = 0 }

abbrev granted : Outcomes
granted = record {
  page = 4096;
  calloc = some 64;
  mmap = some 65536;
  mmap_errno = 12;
  mprotect = true;
  mprotect_errno = 12;
  clone = some 7;
  clone_errno = 11;
  clobber = λ e. 0;
}

-- Where the result goes, and the routine.
abbrev slot : ℕ
slot = 8

abbrev routine : ℕ
routine = 16

create_all_or_nothing_example :
    (((mythread_create granted slot routine 5 kernel).0 ≡ none)
      × SameLive (mythread_create granted slot routine 5 kernel).1 kernel
      × ((mythread_create granted slot routine 5 kernel).1.errno
          ≡ failure_errno granted slot routine))
    ⊎ ((t : ℕ) × (b : ℕ) × ((mythread_create granted slot routine 5 kernel).0 ≡ some t)
        × ((slot ≢ 0) × (routine ≢ 0))
        × (granted.calloc ≡ some t)
        × (granted.mmap ≡ some b)
        × Made routine 5 t b kernel (mythread_create granted slot routine 5 kernel).1)
create_all_or_nothing_example =
    create_all_or_nothing granted slot routine 5 kernel (ground arith) (λ b e. ground arith)
