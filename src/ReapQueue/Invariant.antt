-- ===== src/ReapQueue/Invariant.antt =====
-- What every interleaving of enqueuers and reaper keeps: who holds the lock, how the count is behind
-- the queue, who is about to wake the reaper, and the order of delivery.
use mathlib.Core.List.{append-nil, append_assoc}
use os_5_sem.Base.{
  ℕ, ◌+◌, ◌≤◌, ◌<◌, ◌≡◌, refl, ap, sym, ◌∙◌, Bool, true, false, List, [], ◌∷◌, ◌++◌, arith, length,
  length-append, total, total-update, total-ge, total-ge_two, total-eq_zero, Bool-cases, inl, inr,
  ◌==◌, bit,
}
use os_5_sem.Base.Int.{pos_part, neg_part, plus_parts, minus_parts}
use os_5_sem.ReapQueue.{
  Shared, Enqueue, idle, enter, link, hook, unlock, add, wake, Reaper, load, futex, asleep, spin,
  take, cut, release, process, subtract, Choice, enqueue_step, reaper_step, System, reap, enqueue,
  Reach, start, by_reaper, by_thread,
}

-- In the critical section of the spin lock.
abbrev pub locks : Enqueue → ℕ
locks (link t) = 1
locks (hook t q) = 1
locks unlock = 1
locks _ = 0

abbrev pub reaper_locks : Reaper → ℕ
reaper_locks take = 1
reaper_locks (cut q) = 1
reaper_locks (release ts) = 1
reaper_locks _ = 0

-- Linked a node that `count` does not show yet.
abbrev pub uncounted : Enqueue → ℕ
uncounted unlock = 1
uncounted add = 1
uncounted _ = 0

abbrev pub waking : Enqueue → ℕ
waking wake = 1
waking _ = 0

-- What the reaper has taken and not yet handled.
abbrev pub in_hand : Reaper → List ℕ
in_hand (release ts) = ts
in_hand (process ts k) = ts
in_hand _ = []

-- Nodes that it has handled and not yet subtracted.
abbrev pub handled : Reaper → ℕ
handled (process ts k) = k
handled (subtract k) = k
handled _ = 0

abbrev pub is_asleep : Reaper → Bool
is_asleep asleep = true
is_asleep _ = false

-- What an agent has read under the lock is what still stands in the queue.
abbrev pub Fresh : List ℕ → Enqueue → Type 0
Fresh queue (hook t q) = q ≡ queue
Fresh queue _ = Unit {0}

abbrev pub ReaperFresh : List ℕ → Reaper → Type 0
ReaperFresh queue (cut q) = q ≡ queue
ReaperFresh queue _ = Unit {0}

-- The order of delivery is kept by each kind of step.
reaper_order :
    (c : Choice) (m : Shared) (r : Reaper)
    → ReaperFresh m.queue r
    → m.linked ≡ m.delivered ++ (in_hand r ++ m.queue)
    → (reaper_step c m r).0.linked
      ≡ (reaper_step c m r).0.delivered
        ++ (in_hand (reaper_step c m r).1 ++ (reaper_step c m r).0.queue)
unfolding reaper_step
reaper_order c m load f h = ground arith
reaper_order c m futex f h = ground arith
reaper_order c m asleep f h = ground arith
reaper_order c m spin f h = ground arith
reaper_order c m take f h = h
reaper_order c m (cut q) f h = rw (h, f) (simp append-nil)
reaper_order c m (release []) f h = h
reaper_order c m (release (t ∷ ts)) f h = h
reaper_order c m (process [] k) f h = h
reaper_order c m (process (t ∷ ts) k) f h =
    rw h (sym (append_assoc m.delivered (t ∷ []) (ts ++ m.queue)))
reaper_order c m (subtract k) f h = h

enqueue_order :
    (c : Choice) (m : Shared) (r : Reaper) (p : Enqueue)
    → Fresh m.queue p
    → m.linked ≡ m.delivered ++ (in_hand r ++ m.queue)
    → (enqueue_step c m p).0.linked
      ≡ (enqueue_step c m p).0.delivered ++ (in_hand r ++ (enqueue_step c m p).0.queue)
unfolding enqueue_step
enqueue_order c m r (link t) f h = h
enqueue_order c m r (hook t q) f h =
    rw (h, f)
      (append_assoc m.delivered (in_hand r ++ m.queue) (t ∷ [])
        ∙ ap (λ l. m.delivered ++ l) (append_assoc (in_hand r) m.queue (t ∷ [])))
enqueue_order c m r idle f h = ground arith
enqueue_order c m r (enter t) f h = ground arith
enqueue_order c m r unlock f h = ground arith
enqueue_order c m r add f h = ground arith
enqueue_order c m r wake f h = ground arith

-- The numbers, with the enqueuers' sums given: `ls` in the critical section, `us` uncounted and `ws`
-- about to wake the reaper.
pub record Counts (m : Shared) (r : Reaper) (ls us ws : ℕ) : Type 0 where
  pub locked : ls + reaper_locks r ≡ bit m.lock
  pub counted :
      pos_part m.count + us ≡ length m.queue + length (in_hand r) + handled r + neg_part m.count
  pub sleeps : m.sleeping ≡ true → is_asleep r ≡ true
  pub awaited : m.sleeping ≡ true → 0 < pos_part m.count → 0 < ws
  pub not_behind : m.sleeping ≡ true → neg_part m.count ≡ 0

reaper-Counts :
    (c : Choice) (m : Shared) (r : Reaper) (ls us ws : ℕ)
    → ReaperFresh m.queue r
    → Counts m r ls us ws
    → Counts (reaper_step c m r).0 (reaper_step c m r).1 ls us ws
unfolding reaper_step
reaper-Counts c m load ls us ws f h = ground arith
reaper-Counts c m futex ls us ws f h = ground arith
reaper-Counts c m asleep ls us ws f h = ground arith
reaper-Counts c m spin ls us ws f h = ground arith
reaper-Counts c m take ls us ws f h = ground arith
reaper-Counts c m (cut q) ls us ws f h = rw f (ground arith)
reaper-Counts c m (release []) ls us ws f h = ground arith
reaper-Counts c m (release (t ∷ ts)) ls us ws f h = ground arith
reaper-Counts c m (process [] k) ls us ws f h = ground arith
reaper-Counts c m (process (t ∷ ts) k) ls us ws f h = ground arith
reaper-Counts c m (subtract k) ls us ws f h = ground (arith, minus_parts m.count k)

enqueue-Counts :
    (c : Choice) (m : Shared) (r : Reaper) (p : Enqueue) (ls us ws ls' us' ws' : ℕ)
    → Fresh m.queue p
    → Counts m r ls us ws
    → waking p ≤ ws
    → ls' + locks p ≡ ls + locks (enqueue_step c m p).1
    → us' + uncounted p ≡ us + uncounted (enqueue_step c m p).1
    → ws' + waking p ≡ ws + waking (enqueue_step c m p).1
    → Counts (enqueue_step c m p).0 r ls' us' ws'
unfolding enqueue_step
enqueue-Counts c m r idle ls us ws ls' us' ws' f h _ el eu ew = ground arith
enqueue-Counts c m r (enter t) ls us ws ls' us' ws' f h _ el eu ew = ground arith
enqueue-Counts c m r (link t) ls us ws ls' us' ws' f h _ el eu ew = ground arith
enqueue-Counts c m r (hook t q) ls us ws ls' us' ws' f h _ el eu ew =
    rw f (ground (arith, length-append m.queue (t ∷ [])))
enqueue-Counts c m r unlock ls us ws ls' us' ws' f h _ el eu ew = ground arith
enqueue-Counts c m r add ls us ws ls' us' ws' f h _ el eu ew = ground (arith, plus_parts m.count 1)
enqueue-Counts c m r wake ls us ws ls' us' ws' f h _ el eu ew = ground arith

-- A step outside the critical section leaves the queue alone, and what it has read is fresh.
reaper_step-Fresh :
    (c : Choice) (m : Shared) (r : Reaper)
    → ReaperFresh (reaper_step c m r).0.queue (reaper_step c m r).1
      × (reaper_locks r ≡ 0 → (reaper_step c m r).0.queue ≡ m.queue)
unfolding reaper_step
reaper_step-Fresh c m (release []) = ground arith
reaper_step-Fresh c m (release (t ∷ ts)) = ground arith
reaper_step-Fresh c m (process [] k) = ground arith
reaper_step-Fresh c m (process (t ∷ ts) k) = ground arith
reaper_step-Fresh c m r = ground arith

enqueue_step-Fresh :
    (c : Choice) (m : Shared) (p : Enqueue)
    → Fresh (enqueue_step c m p).0.queue (enqueue_step c m p).1
      × (locks p ≡ 0 → (enqueue_step c m p).0.queue ≡ m.queue)
unfolding enqueue_step
enqueue_step-Fresh c m p = ground arith

-- What an agent has read outlasts a step of another, which is not in the critical section with it.
Fresh-kept :
    (old new : List ℕ) (p : Enqueue) (held : ℕ)
    → (held ≡ 0 → new ≡ old)
    → locks p + held ≤ 1
    → Fresh old p
    → Fresh new p
Fresh-kept old new p held keeps apart f = ground (arith, keeps, f)

ReaperFresh-kept :
    (old new : List ℕ) (r : Reaper) (held : ℕ)
    → (held ≡ 0 → new ≡ old)
    → reaper_locks r + held ≤ 1
    → ReaperFresh old r
    → ReaperFresh new r
ReaperFresh-kept old new r held keeps apart f = ground (arith, keeps, f)

pub record Inv (n : ℕ) (s : System) : Type 0 where
  pub counts :
      Counts s.mem s.reaper (total locks n s.pc) (total uncounted n s.pc) (total waking n s.pc)
  pub in_order : s.mem.linked ≡ s.mem.delivered ++ (in_hand s.reaper ++ s.mem.queue)
  pub fresh : (i : ℕ) → i < n → Fresh s.mem.queue (s.pc i)
  pub reaper_fresh : ReaperFresh s.mem.queue s.reaper

by_reaper-Inv : {n : ℕ} {s : System} → Inv n s → (c : Choice) → Inv n (reap c s)
unfolding reap
by_reaper-Inv {n} {s} inv c =
    let now = reaper_step-Fresh c s.mem s.reaper in
    record {
      counts = reaper-Counts c s.mem s.reaper _ _ _ inv.reaper_fresh inv.counts;
      in_order = reaper_order c s.mem s.reaper inv.reaper_fresh inv.in_order;
      fresh = λ i lt.
          Fresh-kept s.mem.queue (reaper_step c s.mem s.reaper).0.queue (s.pc i)
            (reaper_locks s.reaper) now.1 (ground (arith, inv.counts, total-ge locks n s.pc i lt))
            (inv.fresh i lt);
      reaper_fresh = now.0;
    }

by_thread-Inv :
    {n : ℕ} {s : System} → Inv n s → (c : Choice) (i : ℕ) → i < n → Inv n (enqueue c i s)
unfolding enqueue
by_thread-Inv {n} {s} inv c i lt =
    let p = (enqueue_step c s.mem (s.pc i)).1 in
    let new = (enqueue_step c s.mem (s.pc i)).0.queue in
    let now = enqueue_step-Fresh c s.mem (s.pc i) in
    record {
      counts =
          enqueue-Counts c s.mem s.reaper (s.pc i) _ _ _ _ _ _ (inv.fresh i lt) inv.counts
            (total-ge waking n s.pc i lt) (total-update locks n s.pc i p lt)
            (total-update uncounted n s.pc i p lt) (total-update waking n s.pc i p lt);
      in_order = enqueue_order c s.mem s.reaper (s.pc i) (inv.fresh i lt) inv.in_order;
      fresh = λ j within. elim (Bool-cases (i == j)) [
        | inl it ↦ rw it now.0
        | inr other ↦ rw other (
            Fresh-kept s.mem.queue new (s.pc j) (locks (s.pc i)) now.1
              (ground (arith, inv.counts, total-ge_two locks n s.pc i j lt within (ground arith)))
              (inv.fresh j within))
      ];
      reaper_fresh =
          ReaperFresh-kept s.mem.queue new s.reaper (locks (s.pc i)) now.1
            (ground (arith, inv.counts, total-ge locks n s.pc i lt)) inv.reaper_fresh;
    }

-- Every reachable state satisfies the invariant.
pub Reach-Inv : {n : ℕ} {s : System} → Reach n s → Inv n s
Reach-Inv {n} start = record {
  counts = ground (
    arith,
    total-eq_zero locks n (λ i. idle) (λ i. refl),
    total-eq_zero uncounted n (λ i. idle) (λ i. refl),
  );
  in_order = refl;
  fresh = λ i lt. tt;
  reaper_fresh = tt;
}
Reach-Inv (by_reaper r c) = by_reaper-Inv (Reach-Inv r) c
Reach-Inv (by_thread r c i lt) = by_thread-Inv (Reach-Inv r) c i lt
