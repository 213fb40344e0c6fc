-- ===== src/ReapQueue/Delivery.antt =====
-- What the reap queue of 1.6/src promises in every reachable state: one thread at a time under the
-- lock, delivery of each enqueued thread once and in order, and no wake-up that is lost.
use os_5_sem.Base.{
  ℕ, ◌+◌, ◌≤◌, ◌<◌, ◌≡◌, refl, ◌≢◌, true, false, [], ◌∷◌, ◌++◌, arith, length, total-ge_two,
  total-add, total-eq_zero, total-pos,
}
use os_5_sem.Base.Int.{pos, plus, minus}
use os_5_sem.ReapQueue.{
  Enqueue, load, Choice, System, reap, enqueue, Reach, start, by_reaper, by_thread,
}
use os_5_sem.ReapQueue.Invariant.{locks, reaper_locks, uncounted, waking, in_hand, Reach-Inv}

-- In every reachable state at most one enqueuing thread is in the critical section, and none while
-- the reaper is in it.
pub one_in_critical :
    {n : ℕ} {s : System}
    → Reach n s
    → (i j : ℕ) → i < n
    → j < n
    → i ≢ j
    → locks (s.pc i) + locks (s.pc j) + reaper_locks s.reaper ≤ 1
one_in_critical {n} {s} r i j hi hj ne =
    ground (arith, (Reach-Inv r).counts, total-ge_two locks n s.pc i j hi hj ne)

-- In every reachable state the threads linked so far, in order, are those that the reaper has
-- handled followed by those that it has taken and those still in the queue: each is delivered once
-- and in the order of linking, and none is dropped.
pub delivered_in_order :
    {n : ℕ} {s : System}
    → Reach n s
    → s.mem.linked ≡ s.mem.delivered ++ (in_hand s.reaper ++ s.mem.queue)
delivered_in_order r = (Reach-Inv r).in_order

-- The thread has linked its node and has still to add it to the count or to wake the reaper.
abbrev pub IsFinishing : Enqueue → Type 0
IsFinishing p = 0 < uncounted p + waking p

-- In every reachable state where the reaper sleeps and the queue is not empty, some thread has still
-- to count its node or to wake the reaper: no wake-up is lost.
pub no_lost_wakeup :
    {n : ℕ} {s : System}
    → Reach n s
    → s.mem.sleeping ≡ true
    → s.mem.queue ≢ []
    → (i : ℕ) × (i < n) × IsFinishing (s.pc i)
no_lost_wakeup {n} {s} r sleeps some_queued =
    total-pos (λ p. uncounted p + waking p) n s.pc
      (ground (arith, (Reach-Inv r).counts, total-add uncounted waking n s.pc))

-- In every reachable state where no thread is between linking a node and counting it and the reaper
-- is back at its load of the count, the count is the length of the queue.
pub count-queue :
    {n : ℕ} {s : System}
    → Reach n s
    → ((i : ℕ) → uncounted (s.pc i) ≡ 0)
    → s.reaper ≡ load
    → s.mem.count ≡ pos (length s.mem.queue)
count-queue {n} {s} r counted back =
    ground (arith, (Reach-Inv r).counts, total-eq_zero uncounted n s.pc counted)

abbrev enqueues : ℕ → Choice
enqueues t = record { thread = t; no_memory = false; spurious = false }

-- With two threads or more, whichever objects are enqueued, the message "old < processed" is reached
-- in a run where every node that was linked is delivered, in order.
pub false_alarm :
    (n a b : ℕ)
    → 2 ≤ n
    → (s : System) × Reach n s
      × (s.mem.errors ≡ 1)
      × (s.mem.linked ≡ a ∷ b ∷ [])
      × (s.mem.delivered ≡ a ∷ b ∷ [])
unfolding reap enqueue plus minus
false_alarm n a b h = (
  _,
  next (
      next (
        next (
          next (
            next (
              next (
                next (
                  next (
                    next (
                      go1 (
                        go1 (
                          go1
                            (go1 (go1 (go0 (go0 (go0 (go0 (go0 (go0 (go0 start)))))))))))))))))))),
  refl,
  refl,
  refl,
)
  where
    next : {s : System} → Reach n s → Reach n (reap (enqueues a) s)
    next r = by_reaper r (enqueues a)

    go0 : {s : System} → Reach n s → Reach n (enqueue (enqueues a) 0 s)
    go0 r = by_thread r (enqueues a) 0 (omega arith)

    go1 : {s : System} → Reach n s → Reach n (enqueue (enqueues b) 1 s)
    go1 r = by_thread r (enqueues b) 1 (omega arith)
