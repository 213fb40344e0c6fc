-- ===== src/Storage/Threads/Exclusion.antt =====
-- Which locks threads of Storage/Threads.antt hold against each other.
use os_5_sem.Base.{
  ℕ, zero, suc, ◌<◌, ◌≡◌, ◌≢◌, refl, true, false, Option, none, some, List, [], ◌∷◌, ◌==◌, arith,
  Bool-cases, inl, inr, ==_iff,
}
use os_5_sem.Storage.Memory.{Mode, shared, exclusive, holds, holds_exclusive, bars}
use os_5_sem.Storage.Threads.{Thread, barred, waits}
use os_5_sem.Storage.Threads.Blocks.{taking}

-- Where one thread holds a lock exclusively, the other does not hold it.
abbrev pub Excludes : (a b : List (ℕ × Mode)) → Type 0
Excludes a b = (x : ℕ) → holds_exclusive x a ≡ true → holds x b ≡ false

barred-bars :
    (n i j : ℕ) (ts : ℕ → Thread) (l : ℕ × Mode)
    → barred n i ts l ≡ false
    → j < n
    → j ≢ i
    → bars l.0 l.1 (ts j).held ≡ false
unfolding barred
barred-bars zero i j ts l free inside other = absurd (omega arith)
barred-bars (suc n) i j ts l free inside other = elim (Bool-cases (j == n)) [
  | inl last ↦ let e : j ≡ n = (==_iff j n).0 last in rw e (ground (arith, e))
  | inr before ↦ barred-bars n i j ts l (ground arith) (ground arith) other
]

pub holds_of_exclusive :
    (x : ℕ) (held : List (ℕ × Mode)) → holds_exclusive x held ≡ true → holds x held ≡ true
holds_of_exclusive x [] e = cc
holds_of_exclusive x ((p, m) ∷ held) e = ground (arith, holds_of_exclusive x held)

-- Another thread's locks and those of a thread to which a lock is granted.
module _ (held other : List (ℕ × Mode)) (mine : Excludes held other)
    (theirs : Excludes other held) where
  granted-Excludes :
      (m : Mode) (p : ℕ)
      → bars p m other ≡ false
      → Excludes ((p, m) ∷ held) other × Excludes other ((p, m) ∷ held)
  granted-Excludes shared p free = (λ x e. ground (arith, mine x), λ x e. ground (arith, theirs x))
  granted-Excludes exclusive p free =
      (λ x e. ground (arith, mine x), λ x e. ground (arith, theirs x, holds_of_exclusive x other))

  pub taking-Excludes :
      (l : Option (ℕ × Mode))
      → ((p : ℕ) (m : Mode) → l ≡ some (p, m) → bars p m other ≡ false)
      → Excludes (taking l held) other × Excludes other (taking l held)
  taking-Excludes none free = (mine, theirs)
  taking-Excludes (some (p, m)) free = granted-Excludes m p (free p m refl)

pub waits-bars :
    (n i j : ℕ) (ts : ℕ → Thread) (l : Option (ℕ × Mode))
    → waits n i ts l ≡ false
    → j < n
    → j ≢ i
    → (p : ℕ) (m : Mode) → l ≡ some (p, m)
    → bars p m (ts j).held ≡ false
unfolding waits
waits-bars n i j ts none free inside other p m e = cc
waits-bars n i j ts (some (q, k)) free inside other p m e =
    let eq : q ≡ p = ground arith in
    let ek : k ≡ m = ground arith in rw (← eq, ← ek) (barred-bars n i j ts (q, k) free inside other)
