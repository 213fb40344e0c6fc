-- ===== src/Mythread/Protocol/Safety.antt =====
-- What holds of the thread object of 1.6/src in every reachable state, for any number of callers of
-- join and detach and any order of steps; and the use after release that the code allows.
use os_5_sem.Base.{
  ℕ, ◌+◌, ◌≤◌, ◌<◌, ◌≡◌, refl, ◌≢◌, Bool, true, false, arith, bit, total-ge_two, total-eq_zero,
  total-add, Bool-cases, inl, inr,
}
use os_5_sem.Mythread.Flags.{Flags}
use os_5_sem.Mythread.Protocol.{
  join_loop, join_wait, join_futex, join_asleep, join_read, join_reap, join_release, join_ok,
  detach_ok, starting, load_state, Choice, Pc, joining, detaching, System, init_pc, turn, step,
  Reach, start, later, call_join,
}
use os_5_sem.Mythread.Protocol.Invariant.{pending, releasing, claimed, Reach-Inv}

-- In every reachable state the object has been released at most once, it stands in the reap queue
-- at most once, and never both; and while it is queued or released its routine has finished.
pub released_once :
    {n result : ℕ} {s : System}
    → Reach n result s
    → (s.mem.released + s.mem.nodes ≤ 1)
      × (0 < s.mem.released + s.mem.nodes → s.mem.finished ≡ true)
released_once r = ground (arith, Reach-Inv r)

-- In every reachable state where no agent is about to release the object or to enqueue it, the queue
-- is empty and malloc has refused no node, the object has been released if it was joined or
-- marked as queued, and has not been released otherwise.
pub released_when_quiet :
    {n result : ℕ} {s : System}
    → Reach n result s
    → ((i : ℕ) → pending (s.pc i) + releasing (s.pc i) ≡ 0)
    → s.mem.nodes ≡ 0
    → s.mem.lost ≡ 0
    → s.mem.released ≡ claimed s.mem.state
released_when_quiet {n} {s} r quiet empty kept = omega (
  arith,
  (Reach-Inv r).rights,
  total-eq_zero pending n s.pc (λ i. omega (arith, quiet i)),
  total-eq_zero releasing n s.pc (λ i. omega (arith, quiet i)),
)

-- The call has won the compare-and-swap of `mythread_join` and has not yet released the object.
abbrev pub owns_join : Pc → Bool
owns_join (joining join_wait) = true
owns_join (joining join_futex) = true
owns_join (joining join_asleep) = true
owns_join (joining join_read) = true
owns_join (joining (join_reap v)) = true
owns_join (joining (join_release v)) = true
owns_join _ = false

owns-le : (p : Pc) → owns_join p ≡ true → 1 ≤ pending p + releasing p
owns-le p h = ground arith

abbrev rights : Pc → ℕ
rights p = pending p + releasing p

-- In every reachable state, where one agent is past the compare-and-swap of `mythread_join` and short
-- of the release, no other agent is.
pub join_exclusive :
    {n result : ℕ} {s : System}
    → Reach n result s
    → (i j : ℕ) → i < n
    → j < n
    → i ≢ j
    → owns_join (s.pc i) ≡ true
    → owns_join (s.pc j) ≡ false
join_exclusive {n} {s} r i j hi hj ne owns = elim (Bool-cases (owns_join (s.pc j))) [
  | inl both ↦ ground (
    arith,
    (Reach-Inv r).rights,
    total-add pending releasing n s.pc,
    total-ge_two rights n s.pc i j hi hj ne,
    owns-le (s.pc i) owns,
    owns-le (s.pc j) both,
  )
  | inr other ↦ other
]

-- In every reachable state where a call of join returns success, the value it returns is the result
-- of the thread's routine, the routine has finished, and the thread is joined and not detached.
pub join_result :
    {n result v : ℕ} {s : System}
    → Reach n result s
    → (i : ℕ) → s.pc i ≡ joining (join_ok v)
    → (v ≡ result)
      × (s.mem.finished ≡ true)
      × (s.mem.state.is_joined ≡ true)
      × (s.mem.state.is_detached ≡ false)
join_result r i e = ground (arith, (Reach-Inv r).seen i, (Reach-Inv r).exclusive)

-- In every reachable state where a call of join returns success, no call of detach returns success.
pub join_or_detach :
    {n result v : ℕ} {s : System}
    → Reach n result s
    → (i j : ℕ) → s.pc i ≡ joining (join_ok v)
    → s.pc j ≢ detaching detach_ok
join_or_detach r i j ei ej =
    ground (arith, (Reach-Inv r).seen i, (Reach-Inv r).seen j, (Reach-Inv r).exclusive)

-- The flags that are set.
abbrev pub count_set : Flags → ℕ
count_set s = bit s.is_detached + bit s.is_joined + bit s.is_reaped + bit s.is_queued

-- In every reachable state, when a step of a joining call fails its compare-and-swap and goes round
-- the loop again, the word that it holds has more flags set than before, and at most four; so the
-- loop goes round four times at most.
pub join_loop_bounded :
    {n result : ℕ} {s : System} {f g : Flags}
    → Reach n result s
    → (c : Choice) (i : ℕ) → s.pc i ≡ joining (join_loop f)
    → (step result c s.mem (joining (join_loop f))).1 ≡ joining (join_loop g)
    → (count_set f < count_set g) × (count_set g ≤ 4)
unfolding step
join_loop_bounded {f} r c i e again = ground (arith, (Reach-Inv r).seen i)

abbrev joins : Choice
joins = record { call = call_join; spurious = false; no_memory = false }

-- A thread that has finished and still has to load `state`, while a join is about to release its object:
-- that join's next step frees it, and the thread's next step touches it.
pub load_after_release :
    (n result : ℕ)
    → 3 ≤ n
    → (c : Choice)
    → (s : System) × Reach n result s
      × (s.mem.released ≡ 0)
      × (s.pc 2 ≡ joining (join_release result))
      × (s.pc 0 ≡ starting load_state)
      × ((turn result c 2 s).mem.released ≡ 1)
      × ((turn result c 2 s).pc 2 ≡ joining (join_ok result))
      × ((turn result c 2 s).pc 0 ≡ starting load_state)
      × ((turn result c 2 s).ended ≡ false)
      × ((turn result c 0 (turn result c 2 s)).ended ≡ true)
unfolding turn init_pc
load_after_release n result h c = (
  _,
  go2 (go2 (go2 (go0 (go0 (go0 (go2 (go2 start))))))),
  refl,
  refl,
  refl,
  refl,
  refl,
  refl,
  refl,
  refl,
)
  where
    go0 : {s : System} → Reach n result s → Reach n result (turn result joins 0 s)
    go0 r = later r joins 0 (omega arith)

    go2 : {s : System} → Reach n result s → Reach n result (turn result joins 2 s)
    go2 r = later r joins 2 (omega arith)
