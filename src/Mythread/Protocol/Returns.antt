-- ===== src/Mythread/Protocol/Returns.antt =====
-- How many steps a call of `mythread_join` or `mythread_detach` of 1.6/src/mythread.c takes.
use os_5_sem.Base.{
  ℕ, suc, ◌+◌, ◌-◌, ◌≤◌, ◌<◌, ◌≡◌, ◌≢◌, Bool, true, false, arith, bit, ◌==◌, Bool-cases, inl, inr,
}
use os_5_sem.Mythread.Protocol.{
  Shared, join_loop, join_wait, join_futex, join_asleep, join_read, join_reap, join_release,
  join_ok, join_failed, detach_loop, detach_check, detach_mark, detach_enqueue, detach_ok,
  detach_failed, Choice, Pc, joining, detaching, System, turn, step, Reach, later,
}
use os_5_sem.Mythread.Protocol.Invariant.{Seen, Reach-Inv, turn-finished}
use os_5_sem.Mythread.Protocol.Waking.{woke, step-kind, woke-sleeping}
use os_5_sem.Mythread.Protocol.Safety.{count_set}

-- The call at this place is about to hand back its result.
abbrev pub returned : Pc → Bool
returned (joining (join_ok v)) = true
returned (joining join_failed) = true
returned (detaching detach_ok) = true
returned (detaching detach_failed) = true
returned _ = false

-- What agent `i` and the others do from `s` on, up to the return of the call that `i` is in: `k`
-- steps of `i`, in `p` of which a weak compare-and-swap may fail spuriously.
pub data During (n result : ℕ) (s : System) (i : ℕ) : (k p : ℕ) → System → Type 0 where
  here : During n result s i 0 0 s
  own :
      {k p : ℕ} {t : System}
      → During n result s i k p t
      → (c : Choice) → returned (t.pc i) ≡ false
      → During n result s i (suc k) (p + bit c.spurious) (turn result c i t)
  other :
      {k p : ℕ} {t : System}
      → During n result s i k p t
      → (c : Choice) (j : ℕ) → j < n
      → j ≢ i
      → During n result s i k p (turn result c j t)

During-Reach :
    {n result i : ℕ} {s : System} {k p : ℕ} {t : System}
    → Reach n result s
    → i < n
    → During n result s i k p t
    → Reach n result t
During-Reach r inside here = r
During-Reach {i = i} r inside (own d c busy) = later (During-Reach r inside d) c i inside
During-Reach r inside (other d c j within apart) = later (During-Reach r inside d) c j within

During-finished :
    {n result i : ℕ} {s : System} {k p : ℕ} {t : System}
    → Reach n result s
    → i < n
    → During n result s i k p t
    → s.mem.finished ≡ true
    → t.mem.finished ≡ true
During-finished r inside here e = e
During-finished {i = i} r inside (own d c busy) e =
    turn-finished (During-Reach r inside d) c i inside (During-finished r inside d e)
During-finished r inside (other d c j within apart) e =
    turn-finished (During-Reach r inside d) c j within (During-finished r inside d e)

-- The steps that a call of join has left once the thread has finished and made its wake-up, at most.
abbrev join_left : Pc → ℕ
join_left (joining (join_loop f)) = 9 - count_set f
join_left (joining join_futex) = 5
join_left (joining join_asleep) = 5
join_left (joining join_wait) = 4
join_left (joining join_read) = 3
join_left (joining (join_reap v)) = 2
join_left (joining (join_release v)) = 1
join_left _ = 0

abbrev pub is_joining : Pc → Bool
is_joining (joining j) = true
is_joining _ = false

join_step-left :
    (result : ℕ) (c : Choice) (m : Shared) (p : Pc)
    → is_joining p ≡ true
    → Seen result m p
    → m.finished ≡ true
    → m.sleeping ≡ false
    → returned p ≡ false
    → (is_joining (step result c m p).1 ≡ true) × (join_left (step result c m p).1 < join_left p)
unfolding step
join_step-left result c m (joining (join_loop f)) is seen fin up busy = ground arith
join_step-left result c m (joining join_wait) is seen fin up busy = ground arith
join_step-left result c m (joining join_futex) is seen fin up busy = ground arith
join_step-left result c m (joining join_asleep) is seen fin up busy = ground arith
join_step-left result c m (joining join_read) is seen fin up busy = ground arith
join_step-left result c m (joining (join_reap v)) is seen fin up busy = ground arith
join_step-left result c m (joining (join_release v)) is seen fin up busy = ground arith
join_step-left result c m (joining (join_ok v)) is seen fin up busy = absurd (cc)
join_step-left result c m (joining join_failed) is seen fin up busy = absurd (cc)
join_step-left result c m Pc.idle is seen fin up busy = absurd (cc)
join_step-left result c m (detaching d) is seen fin up busy = absurd (cc)
join_step-left result c m (Pc.starting t) is seen fin up busy = absurd (cc)
join_step-left result c m (Pc.reaping r) is seen fin up busy = absurd (cc)

-- The same for a call of detach, apart from spurious failures.
abbrev detach_left : Pc → ℕ
detach_left (detaching (detach_loop f)) = 8 - count_set f
detach_left (detaching detach_check) = 3
detach_left (detaching detach_mark) = 2
detach_left (detaching detach_enqueue) = 1
detach_left _ = 0

abbrev pub is_detaching : Pc → Bool
is_detaching (detaching d) = true
is_detaching _ = false

detach_step-left :
    (result : ℕ) (c : Choice) (m : Shared) (p : Pc)
    → is_detaching p ≡ true
    → Seen result m p
    → returned p ≡ false
    → (is_detaching (step result c m p).1 ≡ true)
      × (detach_left (step result c m p).1 < detach_left p + bit c.spurious)
unfolding step
detach_step-left result c m (detaching (detach_loop f)) is seen busy = ground arith
detach_step-left result c m (detaching detach_check) is seen busy = ground arith
detach_step-left result c m (detaching detach_mark) is seen busy = ground arith
detach_step-left result c m (detaching detach_enqueue) is seen busy = ground arith
detach_step-left result c m (detaching detach_ok) is seen busy = absurd (cc)
detach_step-left result c m (detaching detach_failed) is seen busy = absurd (cc)
detach_step-left result c m Pc.idle is seen busy = absurd (cc)
detach_step-left result c m (joining j) is seen busy = absurd (cc)
detach_step-left result c m (Pc.starting t) is seen busy = absurd (cc)
detach_step-left result c m (Pc.reaping r) is seen busy = absurd (cc)

join_left_none : (p : Pc) → is_joining p ≡ true → join_left p ≡ 0 → returned p ≡ true
join_left_none p is none_left = ground arith

detach_left_none : (p : Pc) → is_detaching p ≡ true → detach_left p ≡ 0 → returned p ≡ true
detach_left_none p is none_left = ground arith

During-woke :
    {n result i : ℕ} {s : System} {k p : ℕ} {t : System}
    → During n result s i k p t
    → woke (s.pc 0) ≡ true
    → woke (t.pc 0) ≡ true
unfolding turn
During-woke here past = past
During-woke {result = result} {i = i} (own {t} d c busy) past = elim (Bool-cases (i == 0)) [
  | inl same ↦ ground (arith, same, During-woke d past, (step-kind result c t.mem (t.pc i)).1)
  | inr apart ↦ rw apart (During-woke d past)
]
During-woke {result = result} (other {t} d c j within apart) past = elim (Bool-cases (j == 0)) [
  | inl same ↦ ground (arith, same, During-woke d past, (step-kind result c t.mem (t.pc j)).1)
  | inr far ↦ rw far (During-woke d past)
]

-- The thread has finished when it has made its wake-up.
woke-finished :
    (result : ℕ) (m : Shared) (p : Pc) → Seen result m p → woke p ≡ true → m.finished ≡ true
woke-finished result m p seen past = ground arith

-- The steps made and those left.
During-join_left :
    {n result i : ℕ} {s : System} {k p : ℕ} {t : System}
    → Reach n result s
    → i < n
    → During n result s i k p t
    → s.mem.finished ≡ true
    → woke (s.pc 0) ≡ true
    → is_joining (s.pc i) ≡ true
    → (is_joining (t.pc i) ≡ true) × (k + join_left (t.pc i) ≤ join_left (s.pc i))
unfolding turn
During-join_left r inside here fin past is = (is, omega arith)
During-join_left {result = result} {i = i} r inside (own {t} d c busy) fin past is =
    let before = During-join_left r inside d fin past is in
    let seen = (Reach-Inv (During-Reach r inside d)).seen i in
    let done = During-finished r inside d fin in
    let up = woke-sleeping (During-Reach r inside d) done (During-woke d past) in
    let less = join_step-left result c t.mem (t.pc i) before.0 seen done up busy in
    ground (arith, before, less)
During-join_left r inside (other d c j within apart) fin past is =
    ground (arith, apart, During-join_left r inside d fin past is)

During-detach_left :
    {n result i : ℕ} {s : System} {k p : ℕ} {t : System}
    → Reach n result s
    → i < n
    → During n result s i k p t
    → is_detaching (s.pc i) ≡ true
    → (is_detaching (t.pc i) ≡ true) × (k + detach_left (t.pc i) ≤ detach_left (s.pc i) + p)
unfolding turn
During-detach_left r inside here is = (is, omega arith)
During-detach_left {result = result} {i = i} r inside (own {t} d c busy) is =
    let before = During-detach_left r inside d is in
    let seen = (Reach-Inv (During-Reach r inside d)).seen i in
    let less = detach_step-left result c t.mem (t.pc i) before.0 seen busy in
    ground (arith, before, less)
During-detach_left r inside (other d c j within apart) is =
    ground (arith, apart, During-detach_left r inside d is)

join_left-le : (p : Pc) → join_left p ≤ 9
join_left-le p = ground arith

detach_left-le : (p : Pc) → detach_left p ≤ 8
detach_left-le p = ground arith

-- In every reachable state, a call of join that has loaded the word, wherever it stands, asleep in the
-- futex included, returns within nine steps of its own once the thread has finished and made its
-- futex_wake, whatever the other agents do in between; a call of detach that has loaded the word does so
-- within eight steps and one for each spurious failure of its weak compare-and-swap, whether or not the
-- thread has finished.
pub call_returns :
    {n result i : ℕ} {s : System} {k p : ℕ} {t : System}
    → Reach n result s
    → i < n
    → During n result s i k p t
    → (is_joining (s.pc i) ≡ true
        → woke (s.pc 0) ≡ true
        → (k ≤ 9) × (9 ≤ k → returned (t.pc i) ≡ true))
      × (is_detaching (s.pc i) ≡ true → (k ≤ 8 + p) × (8 + p ≤ k → returned (t.pc i) ≡ true))
call_returns {result = result} {i = i} {s = s} {t = t} r inside d = (
  λ is past.
      let fin = woke-finished result s.mem (s.pc 0) ((Reach-Inv r).seen 0) past in
      let left = During-join_left r inside d fin past is in
      let start = join_left-le (s.pc i) in
      (
        omega (arith, start, left.1),
        λ all. join_left_none (t.pc i) left.0 (omega (arith, start, left.1, all)),
      ),
  λ is.
      let left = During-detach_left r inside d is in
      let start = detach_left-le (s.pc i) in
      (
        omega (arith, start, left.1),
        λ all. detach_left_none (t.pc i) left.0 (omega (arith, start, left.1, all)),
      ),
)
