-- ===== src/Mythread/Lifecycle.antt =====
-- A thread of 1.6/src from `mythread_create` to the release of its memory: the object that
-- Mythread/Create.antt makes, released as often as the agents of Mythread/Protocol.antt do it.
use os_5_sem.Base.{
  ℕ, zero, suc, ◌+◌, ◌^◌, ◌%◌, ◌==◌, if◌then◌else◌, ◌<◌, ◌≡◌, refl, ◌↔◌, ◌≢◌, some, ◌∷◌, arith,
}
use os_5_sem.Mythread.Kernel.{
  Thread, Kernel, Outcomes, free, munmap, put, protect, drop_map, drop_object,
}
use os_5_sem.Mythread.Create.{destroy_stack, mythread_create, new_thread, usable_stack, page_size}
use os_5_sem.Mythread.Protocol.{System, Reach}
use os_5_sem.Mythread.Protocol.Invariant.{pending, releasing, claimed}
use os_5_sem.Mythread.Protocol.Safety.{released_once, released_when_quiet}

-- Who releases the object: a call of join, or the reaper.
pub data Releaser : Type 0 where
  by_join by_reaper : Releaser

-- What either does to the object `u` at `t` when it is the first to set MT_REAPED.
unfoldable pub release : Releaser → Outcomes → ℕ → Thread → Kernel Thread → Kernel Thread
release by_join o t u k = free o t (destroy_stack o u.stack u.stack_size k)
release by_reaper o t u k = free o t (if u.stack == 0 then k else munmap o u.stack u.stack_size k)

-- That as often as it happens, by whoever it is.
unfoldable pub releases :
    (by : ℕ → Releaser) → Outcomes → ℕ → Thread → ℕ → Kernel Thread → Kernel Thread
unfolding release
releases by o t u zero k = k
releases by o t u (suc n) k = release (by n) o t u (releases by o t u n k)

-- The same objects and mappings are live.
abbrev pub SameMemory : Kernel Thread → Kernel Thread → Type 0
SameMemory k l = (k.heap ≡ l.heap) × (k.maps ≡ l.maps)

module _ (o : Outcomes) (thread start_routine arg : ℕ) (k : Kernel Thread) where
  -- The kernel after the call.
  abbrev pub created : Kernel Thread
  created = (mythread_create o thread start_routine arg k).1

-- Either releaser gives back what the call took.
release-created :
    (by : Releaser) (o : Outcomes) (thread start_routine arg : ℕ) (k : Kernel Thread) {t b : ℕ}
    → o.mmap ≡ some (suc b)
    → o.page < 2 ^ 63
    → (mythread_create o thread start_routine arg k).0 ≡ some t
    → (created o thread start_routine arg k).heap
        ≡ (t, new_thread start_routine arg (suc b) ((usable_stack + page_size o) % 2 ^ 64)) ∷ k.heap
      × SameMemory
          (release by o t
            (new_thread start_routine arg (suc b) ((usable_stack + page_size o) % 2 ^ 64))
            (created o thread start_routine arg k))
          k
unfolding mythread_create put protect drop_map drop_object destroy_stack release
release-created by_join o thread start_routine arg k eb small e =
    (ground arith, (ground arith, ground arith))
release-created by_reaper o thread start_routine arg k eb small e =
    (ground arith, (ground arith, ground arith))

-- `mythread_create` stores an object `t` at the head of the heap, with `u` in it; it assumes that mmap
-- does not return address 0, and that the page size fits a long. In every reachable state of the
-- thread, its callers and the reaper, where the object has been released, the releases made, each by a
-- join or by the reaper, leave live exactly the objects and mappings from before the call of
-- `mythread_create`; where it has not been, those after it. And where no agent is about to release the
-- object or to enqueue it, the queue is empty and malloc has refused no node, it has been released
-- exactly when it was joined or marked as queued.
pub released_memory :
    (o : Outcomes) (thread start_routine arg : ℕ) (k : Kernel Thread) {n result t b : ℕ}
    {s : System}
    → o.mmap ≡ some (suc b)
    → o.page < 2 ^ 63
    → (mythread_create o thread start_routine arg k).0 ≡ some t
    → Reach n result s
    → (by : ℕ → Releaser)
    → (u : Thread) × ((created o thread start_routine arg k).heap ≡ (t, u) ∷ k.heap)
      × (s.mem.released ≢ 0
          → SameMemory (releases by o t u s.mem.released (created o thread start_routine arg k)) k)
      × (s.mem.released ≡ 0
          → SameMemory
              (releases by o t u s.mem.released (created o thread start_routine arg k))
              (created o thread start_routine arg k))
      × (((i : ℕ) → pending (s.pc i) + releasing (s.pc i) ≡ 0)
          → s.mem.nodes ≡ 0
          → s.mem.lost ≡ 0
          → (s.mem.released ≢ 0) ↔ (claimed s.mem.state ≡ 1))
unfolding releases
released_memory o thread start_routine arg k {b = b} {s = s} em small e r by =
    let (made, back) = release-created (by 0) o thread start_routine arg k em small e in
    (
      new_thread start_routine arg (suc b) ((usable_stack + page_size o) % 2 ^ 64),
      made,
      λ some_time.
          let once : s.mem.released ≡ 1 = omega (arith, released_once r, some_time) in rw once back,
      λ never. rw never (refl, refl),
      λ quiet empty kept. let same = released_when_quiet r quiet empty kept in ground (arith, same),
    )
