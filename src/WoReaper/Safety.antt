-- ===== src/WoReaper/Safety.antt =====
-- What holds of the thread object of 1.6/src/wo_reaper in every reachable state, and the object that
-- a join after the thread's exit does not release.
use os_5_sem.Base.{ℕ, ◌+◌, ◌≤◌, ◌<◌, ◌≡◌, refl, true, false, arith, total-eq_zero}
use os_5_sem.WoReaper.{
  join_ok, join_release, exited, claim, starting, joining, call_join, Choice, System, init_pc, turn,
  Reach, start, later,
}
use os_5_sem.WoReaper.Invariant.{pending, Reach-Inv}

-- In every reachable state the object has been released at most once, and only after its routine
-- has finished.
pub released_at_most_once :
    {n result : ℕ} {s : System}
    → Reach n result s
    → (s.mem.released ≤ 1) × (0 < s.mem.released → s.mem.finished ≡ true)
released_at_most_once r = ground (arith, Reach-Inv r)

-- In every reachable state where a call of join returns success, the value it returns is the result
-- of the thread's routine, and the routine has finished.
pub join_returns_result :
    {n result v : ℕ} {s : System}
    → Reach n result s
    → (i : ℕ) → s.pc i ≡ joining (join_ok v)
    → (v ≡ result) × (s.mem.finished ≡ true)
join_returns_result r i e = ground (arith, (Reach-Inv r).seen i)

-- In every reachable state the object has been released at most once, and only after its routine
-- has finished; once a claim has been given up it is not released; and where no agent holds a claim, it
-- has been released exactly if it was claimed and the claim was not given up.
pub released_or_abandoned :
    {n result : ℕ} {s : System}
    → Reach n result s
    → (s.mem.released ≤ 1)
      × (0 < s.mem.released → s.mem.finished ≡ true)
      × (s.mem.abandoned ≡ 1 → s.mem.released ≡ 0)
      × (((i : ℕ) → pending (s.pc i) ≡ 0)
          → (s.mem.joined ≡ true → s.mem.released + s.mem.abandoned ≡ 1)
            × (s.mem.joined ≡ false → s.mem.released ≡ 0))
released_or_abandoned {n} {s} r =
    let once = released_at_most_once r in
    (
      once.0,
      once.1,
      ground (arith, (Reach-Inv r).rights),
      λ quiet. ground (arith, (Reach-Inv r).rights, total-eq_zero pending n s.pc quiet),
    )

abbrev joins : Choice
joins = record { call = call_join; no_memory = false }

-- For every result and every number of agents from two on, a state is reachable where the thread has
-- exited and a join has returned its result with success, but the object was not released and its
-- only claim has been given up.
pub join_leaks :
    (n result : ℕ)
    → 2 ≤ n
    → (s : System) × Reach n result s
      × (s.pc 0 ≡ starting exited)
      × (s.pc 1 ≡ joining (join_ok result))
      × (s.mem.released ≡ 0)
      × (s.mem.abandoned ≡ 1)
unfolding turn init_pc
join_leaks n result h =
    (_, go1 (go1 (go1 (go1 (go1 (go0 (go0 (go0 (go0 start)))))))), refl, refl, refl, refl)
  where
    go0 : {s : System} → Reach n result s → Reach n result (turn result joins 0 s)
    go0 r = later r joins 0 (omega arith)

    go1 : {s : System} → Reach n result s → Reach n result (turn result joins 1 s)
    go1 r = later r joins 1 (omega arith)

-- For every result and every number of agents from two on, a state is reachable where the thread still has
-- to claim the object, the object has not been released and a join is about to release it; and the next
-- step of that join unmaps the thread's stack, frees the object and makes it return the result with
-- success; no step up to there has touched the object after its release, but the thread's next step, the
-- claim, does.
pub claim_after_release :
    (n result : ℕ)
    → 2 ≤ n
    → (c : Choice)
    → (s : System) × Reach n result s
      × (s.mem.released ≡ 0)
      × (s.pc 1 ≡ joining (join_release result))
      × (s.pc 0 ≡ starting claim)
      × ((turn result c 1 s).mem.released ≡ 1)
      × ((turn result c 1 s).pc 1 ≡ joining (join_ok result))
      × ((turn result c 1 s).pc 0 ≡ starting claim)
      × ((turn result c 1 s).ended ≡ false)
      × ((turn result c 0 (turn result c 1 s)).ended ≡ true)
unfolding turn init_pc
claim_after_release n result h c = (
  _,
  go1 (go1 (go1 (go1 (go1 (go0 (go0 start)))))),
  refl,
  refl,
  refl,
  refl,
  refl,
  refl,
  refl,
  refl,
)
  where
    go0 : {s : System} → Reach n result s → Reach n result (turn result joins 0 s)
    go0 r = later r joins 0 (omega arith)

    go1 : {s : System} → Reach n result s → Reach n result (turn result joins 1 s)
    go1 r = later r joins 1 (omega arith)
