-- ===== src/Storage/Threads/Progress.antt =====
-- Who waits for whom among the threads of 2.3/src, by the order of the nodes that they hold.
use os_5_sem.Base.{
  ℕ, zero, suc, ◌+◌, ◌<◌, ◌≤◌, ◌≡◌, ◌≢◌, refl, true, false, Option, none, some, List, [], ◌∷◌, ◌==◌,
  ltb, arith, if◌then◌else◌, Bool-cases, inl, inr, ==_iff,
}
use os_5_sem.Storage.Memory.{Node, Mode, shared, exclusive, holds, bars}
use os_5_sem.Storage.Layout.{Cells, first_of, Linked}
use os_5_sem.Storage.Threads.{
  Role, Pc, outside, search_first, search_second, search_next, swap_first, swap_second, swap_walk,
  swap_last, Thread, System, wanted, barred, waits, Reach,
}
use os_5_sem.Storage.Threads.Order.{succ, rank, rank-succ, InARow}
use os_5_sem.Storage.Threads.Blocks.{Local, is_outside}
use os_5_sem.Storage.Threads.Exclusion.{holds_of_exclusive}
use os_5_sem.Storage.Threads.Invariant.{Inv, Reach-Inv}

-- One more than the rank of the last node held, or 0.
height : Cells → List (ℕ × Mode) → ℕ
unfolding rank
height xs [] = 0
height xs ((p, m) ∷ held) =
    let rest = height xs held in if ltb (rank xs p) rest then rest else rank xs p + 1

holds-height :
    (xs : Cells) (p : ℕ) (held : List (ℕ × Mode)) → holds p held ≡ true → rank xs p < height xs held
unfolding height
holds-height xs p [] e = cc
holds-height xs p ((q, m) ∷ held) e = elim (Bool-cases (q == p)) [
  | inl here ↦ let eq : q ≡ p = (==_iff q p).0 here in rw (← eq) (ground arith)
  | inr behind ↦ ground (arith, holds-height xs p held)
]

-- Two nodes held behind one another.
height-pair :
    (h : ℕ → Option Node) (xs : Cells) (prev cur next : ℕ)
    → Linked h xs
    → InARow prev cur next xs
    → (m k : Mode) → height xs ((cur, m) ∷ (prev, k) ∷ []) ≤ rank xs next
unfolding height
height-pair h xs prev cur next l row m k =
    let first_step = row.first_step in
    let some_cur = row.some_cur in
    let second_step = row.second_step in
    let some_next = row.some_next in ground (arith, rank-succ h prev xs l, rank-succ h cur xs l)

-- One node held, and the next one.
height-one :
    (h : ℕ → Option Node) (xs : Cells) (a b : ℕ)
    → Linked h xs
    → succ xs a ≡ b
    → b ≢ 0
    → (m : Mode) → height xs ((a, m) ∷ []) ≤ rank xs b
unfolding height
height-one h xs a b l e ne m = ground (arith, rank-succ h a xs l)

module _ (mode : Mode) (first size : ℕ) (h : ℕ → Option Node) (xs : Cells) (l : Linked h xs) where
  -- A thread waits for a node behind those that it holds.
  height-le_wanted :
      (at : Pc) (held : List (ℕ × Mode))
      → Local mode first xs at held
      → (p : ℕ) (m : Mode) → wanted mode first size at ≡ some (p, m)
      → height xs held ≤ rank xs p
  unfolding height wanted
  height-le_wanted outside held here p m e = cc
  height-le_wanted search_first held here p m e = rw here (ground arith)
  height-le_wanted (search_second a) held here p m e =
      let eq : a ≡ p = ground arith in
      rw (here.0, ← eq) (height-one h xs first a l here.1 here.2 mode)
  height-le_wanted (search_next a b k) held here p m e =
      let eq : b ≡ p = ground arith in rw (here.0, ← eq) (height-one h xs a b l here.2 here.3 mode)
  height-le_wanted (swap_first i) held here p m e = rw here (ground arith)
  height-le_wanted (swap_second i cur) held here p m e =
      let eq : cur ≡ p = ground arith in
      rw (here.0, ← eq) (height-one h xs first cur l here.1 here.2 exclusive)
  height-le_wanted (swap_walk i prev cur next) held here p m e =
      let eq : next ≡ p = ground arith in
      rw (here.0, ← eq) (height-pair h xs prev cur next l here.1 exclusive exclusive)
  height-le_wanted (swap_last prev cur next) held here p m e =
      let eq : next ≡ p = ground arith in
      rw (here.0, ← eq) (height-pair h xs prev cur next l here.1 exclusive exclusive)

-- The agent of the greatest value.
greatest : (f : ℕ → ℕ) (n : ℕ) → 0 < n → (j : ℕ) × (j < n) × ((k : ℕ) → k < n → f k ≤ f j)
greatest f zero some_one = absurd (omega arith)
greatest f (suc zero) some_one =
    (0, omega arith, λ k lt. let e : k ≡ 0 = omega arith in rw e (omega arith))
greatest f (suc (suc n)) some_one =
    let (j, inside, most) = greatest f (suc n) (omega arith) in
    elim (Bool-cases (ltb (f j) (f (suc n)))) [
      | inl last ↦ (
        suc n,
        omega arith,
        λ k lt. elim (Bool-cases (k == suc n)) [
          | inl here ↦ rw ((==_iff k (suc n)).0 here) (omega arith)
          | inr before ↦ let below = most k (ground arith) in ground arith
        ],
      )
      | inr not_last ↦ (
        j,
        omega arith,
        λ k lt. elim (Bool-cases (k == suc n)) [
          | inl here ↦ rw ((==_iff k (suc n)).0 here) (ground arith)
          | inr before ↦ most k (ground arith)
        ],
      )
    ]

-- Who bars the lock.
barred-by :
    (n i : ℕ) (ts : ℕ → Thread) (l : ℕ × Mode)
    → barred n i ts l ≡ true
    → (k : ℕ) × (k < n) × (bars l.0 l.1 (ts k).held ≡ true)
unfolding barred
barred-by zero i ts l e = cc
barred-by (suc n) i ts l e = elim (Bool-cases (bars l.0 l.1 (ts n).held)) [
  | inl here ↦ (n, omega arith, here)
  | inr not_here ↦
      let (k, inside, by_k) = barred-by n i ts l (ground arith) in (k, omega arith, by_k)
]

bars-holds :
    (p : ℕ) (m : Mode) (held : List (ℕ × Mode)) → bars p m held ≡ true → holds p held ≡ true
bars-holds p shared held e = holds_of_exclusive p held e
bars-holds p exclusive held e = e

module _ (mode : Mode) (first size n : ℕ) (h : ℕ → Option Node) (xs : Cells) {s : System}
    (inv : Inv mode first n h xs s) where
  -- Thread `k` holds a lock for which `j` waits only if it holds a later node of the list.
  blocked-height :
      (j k p : ℕ) (m : Mode)
      → j < n
      → wanted mode first size (s.threads j).at ≡ some (p, m)
      → bars p m (s.threads k).held ≡ true
      → height inv.list (s.threads j).held < height inv.list (s.threads k).held
  blocked-height j k p m inside e by_k = omega (
    arith,
    holds-height inv.list p (s.threads k).held (bars-holds p m (s.threads k).held by_k),
    height-le_wanted mode first size s.memory inv.list inv.linked (s.threads j).at
        (s.threads j).held (inv.place j inside) p m e,
  )

  -- 0 for a thread that is outside.
  inside_height : Thread → ℕ
  inside_height t = if is_outside t.at then 0 else suc (height inv.list t.held)

  bars-inside :
      (k p : ℕ) (m : Mode)
      → k < n
      → bars p m (s.threads k).held ≡ true
      → is_outside (s.threads k).at ≡ false
  bars-inside k p m inside by_k =
      nothing_held (s.threads k).at (s.threads k).held (inv.place k inside)
        (bars-holds p m (s.threads k).held by_k)
    where
      nothing_held :
          (at : Pc) (held : List (ℕ × Mode))
          → Local mode first inv.list at held
          → holds p held ≡ true
          → is_outside at ≡ false
      nothing_held outside held here e = cc
      nothing_held search_first held here e = refl
      nothing_held (search_second a) held here e = refl
      nothing_held (search_next a b c) held here e = refl
      nothing_held (swap_first i) held here e = refl
      nothing_held (swap_second i cur) held here e = refl
      nothing_held (swap_walk i prev cur next) held here e = refl
      nothing_held (swap_last prev cur next) held here e = refl

  greatest-free :
      (j : ℕ)
      → j < n
      → is_outside (s.threads j).at ≡ false
      → ((k : ℕ) → k < n → inside_height (s.threads k) ≤ inside_height (s.threads j))
      → (o : Option (ℕ × Mode)) → wanted mode first size (s.threads j).at ≡ o
      → waits n j s.threads o ≡ false
  unfolding waits inside_height
  greatest-free j inside busy most none e = refl
  greatest-free j inside busy most (some (p, m)) e =
      elim (Bool-cases (barred n j s.threads (p, m))) [
        | inr free ↦ free
        | inl closed ↦
            let (k, k_inside, by_k) = barred-by n j s.threads (p, m) closed in
            absurd (
              ground (
                arith,
                most k k_inside,
                blocked-height j k p m inside e by_k,
                bars-inside k p m k_inside by_k,
              ))
      ]

  pub some-free :
      (j : ℕ)
      → j < n
      → is_outside (s.threads j).at ≡ false
      → (k : ℕ) × (k < n)
        × (is_outside (s.threads k).at ≡ false)
        × (waits n k s.threads (wanted mode first size (s.threads k).at) ≡ false)
  unfolding inside_height
  some-free j inside busy =
      let (k, k_inside, most) = greatest (λ i. inside_height (s.threads i)) n (ground arith) in
      let k_busy : is_outside (s.threads k).at ≡ false = ground (arith, most j inside) in
      (
        k,
        k_inside,
        k_busy,
        greatest-free k k_inside k_busy most (wanted mode first size (s.threads k).at) refl,
      )

module _ (mode : Mode) (first size n : ℕ) (h : ℕ → Option Node) (xs : Cells) (roles : ℕ → Role)
    (l : Linked h xs) (top : first_of xs ≡ first) (some_first : first ≢ 0) {s : System}
    (r : Reach mode first size n h roles s) where
  -- On a list with a first node, no reachable state is a deadlock. The threads can be numbered
  -- such that one that waits for a lock has a smaller number than every thread that bars it from
  -- the lock, so no circle of threads waits for each other; and where some thread is inside its
  -- function, one that is inside waits for no lock or for one that no other thread bars.
  pub no_deadlock :
      ((number : ℕ → ℕ) × ((j k p : ℕ) (m : Mode)
          → j < n
          → wanted mode first size (s.threads j).at ≡ some (p, m)
          → bars p m (s.threads k).held ≡ true
          → number j < number k))
      × ((j : ℕ)
          → j < n
          → is_outside (s.threads j).at ≡ false
          → (k : ℕ) × (k < n)
            × (is_outside (s.threads k).at ≡ false)
            × (waits n k s.threads (wanted mode first size (s.threads k).at) ≡ false))
  no_deadlock =
      let inv = Reach-Inv mode first size n h xs some_first roles l top r in
      (
        (λ j. height inv.list (s.threads j).held, blocked-height mode first size n h xs inv),
        some-free mode first size n h xs inv,
      )
