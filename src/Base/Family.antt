-- ===== src/Base/Family.antt =====
-- A family has a member for each agent, numbered from 0: a change of one member, and how much the
-- first `n` members weigh in all, with what each weighs given by `w`.
use Prim.Native.Nat.{ℕ, zero, suc, ◌+◌, ◌*◌, ◌≤◌, ◌<◌}
use mathlib.Core.Path.{◌≡◌, refl}
use mathlib.Core.Logic.{◌≢◌, inl, inr}
use native.Mathlib.Omega.{arith}
use os_5_sem.Base.Tests.{◌==◌, ltb, if◌then◌else◌, Bool-cases}

abbrev pub update {ℓ} : {A : Type ℓ} → (ℕ → A) → (at : ℕ) → (new : A) → ℕ → A
update members at new = λ j. if at == j then new else members j

-- `g 0 + ... + g (n - 1)`
sum : (ℕ → ℕ) → ℕ → ℕ
sum g zero = 0
sum g (suc n) = g n + sum g n

sum-same : (g h : ℕ → ℕ) (n : ℕ) → ((j : ℕ) → j < n → h j ≡ g j) → sum h n ≡ sum g n
unfolding sum
sum-same g h zero same = refl
sum-same g h (suc n) same =
    omega (arith, sum-same g h n (λ j lt. same j (omega arith)), same n (omega arith))

-- Two sums that differ at one place only.
sum-change :
    (g h : ℕ → ℕ) (i n : ℕ) → i < n → ((j : ℕ) → j ≢ i → h j ≡ g j) → sum h n + g i ≡ sum g n + h i
unfolding sum
sum-change g h i zero inside same = absurd (omega arith)
sum-change g h i (suc n) inside same = elim (Bool-cases (ltb i n)) [
  | inr at_end ↦ ground (arith, sum-same g h n (λ j lt. same j (ground arith)))
  | inl earlier ↦ omega (arith, sum-change g h i n (ground arith) same, same n (ground arith))
]

sum-ge : (g : ℕ → ℕ) (i n : ℕ) → i < n → g i ≤ sum g n
unfolding sum
sum-ge g i zero inside = absurd (omega arith)
sum-ge g i (suc n) inside = elim (Bool-cases (i == n)) [
  | inl at_end ↦ ground arith
  | inr earlier ↦ ground (arith, sum-ge g i n)
]

sum-ge_two : (g : ℕ → ℕ) (i j n : ℕ) → i < n → j < n → i ≢ j → g i + g j ≤ sum g n
unfolding sum
sum-ge_two g i j zero inside within apart = absurd (omega arith)
sum-ge_two g i j (suc n) inside within apart = elim (Bool-cases (i == n)) [
  | inl at_end ↦ ground (arith, sum-ge g j n)
  | inr earlier ↦ elim (Bool-cases (j == n)) [
    | inl at_end ↦ ground (arith, sum-ge g i n)
    | inr both ↦ ground (arith, sum-ge_two g i j n)
  ]
]

sum-le : (g h : ℕ → ℕ) (n : ℕ) → ((j : ℕ) → j < n → h j ≤ g j) → sum h n ≤ sum g n
unfolding sum
sum-le g h zero less = omega arith
sum-le g h (suc n) less =
    omega (arith, sum-le g h n (λ j lt. less j (omega arith)), less n (omega arith))

sum-le_by :
    (g h : ℕ → ℕ) (i n d : ℕ)
    → i < n
    → ((j : ℕ) → j < n → h j ≤ g j)
    → h i + d ≤ g i
    → sum h n + d ≤ sum g n
unfolding sum
sum-le_by g h i zero d inside less by_d = absurd (omega arith)
sum-le_by g h i (suc n) d inside less by_d = elim (Bool-cases (i == n)) [
  | inl at_end ↦
      let last : h n + d ≤ g n = ground (arith, by_d) in
      omega (arith, sum-le g h n (λ j lt. less j (omega arith)), last)
  | inr earlier ↦ omega (
    arith,
    sum-le_by g h i n d (ground arith) (λ j lt. less j (omega arith)) by_d,
    less n (omega arith),
  )
]

sum-bound : (g : ℕ → ℕ) (n b : ℕ) → ((j : ℕ) → j < n → g j ≤ b) → sum g n ≤ n * b
unfolding sum
sum-bound g zero b less = omega arith
sum-bound g (suc n) b less =
    let step : suc n * b ≡ n * b + b = grind arith in
    omega (arith, sum-bound g n b (λ j lt. less j (omega arith)), less n (omega arith), step)

module _ {ℓ} {A : Type ℓ} (w : A → ℕ) where
  pub total : (n : ℕ) → (ℕ → A) → ℕ
  unfolding sum
  total n members = sum (λ j. w (members j)) n

  pub total-update :
      (n : ℕ) (members : ℕ → A) (i : ℕ) (new : A)
      → i < n
      → total n (update members i new) + w (members i) ≡ total n members + w new
  unfolding total
  total-update n members i new inside =
      let changed : ℕ → ℕ = λ j. w (update members i new j) in
      let there : changed i ≡ w new = ground arith in
      omega
        (arith, sum-change (λ j. w (members j)) changed i n inside (λ j apart. ground arith), there)

  pub total-ge : (n : ℕ) (members : ℕ → A) (i : ℕ) → i < n → w (members i) ≤ total n members
  unfolding total
  total-ge n members i inside = sum-ge (λ j. w (members j)) i n inside

  -- Two agents weigh no more than all of them.
  pub total-ge_two :
      (n : ℕ) (members : ℕ → A) (i j : ℕ)
      → i < n
      → j < n
      → i ≢ j
      → w (members i) + w (members j) ≤ total n members
  unfolding total
  total-ge_two n members i j inside within apart =
      sum-ge_two (λ k. w (members k)) i j n inside within apart

  -- Where the sum is positive, some agent weighs something.
  pub total-pos :
      (n : ℕ) (members : ℕ → A) → 0 < total n members → (i : ℕ) × (i < n) × (0 < w (members i))
  unfolding total sum
  total-pos zero members some_weight = absurd (omega arith)
  total-pos (suc n) members some_weight = elim (Bool-cases (ltb 0 (w (members n)))) [
    | inl here ↦ (n, omega arith, ground arith)
    | inr weightless ↦
        let (i, inside, there) = total-pos n members (ground arith) in (i, omega arith, there)
  ]

  pub total-eq_zero :
      (n : ℕ) (members : ℕ → A) → ((i : ℕ) → w (members i) ≡ 0) → total n members ≡ 0
  unfolding total sum
  total-eq_zero zero members weightless = refl
  total-eq_zero (suc n) members weightless =
      omega (arith, weightless n, total-eq_zero n members weightless)

pub total-add {ℓ} :
    {A : Type ℓ} (v w : A → ℕ) (n : ℕ) (members : ℕ → A)
    → total (λ a. v a + w a) n members ≡ total v n members + total w n members
unfolding total sum
total-add v w zero members = refl
total-add v w (suc n) members = omega (arith, total-add v w n members)

-- Where no agent weighs more than before, and one of them weighs less by `d`.
pub total-le_by {ℓ} :
    {A : Type ℓ} (w v : A → ℕ) (n : ℕ) (members now : ℕ → A) (i d : ℕ)
    → i < n
    → ((j : ℕ) → j < n → v (now j) ≤ w (members j))
    → v (now i) + d ≤ w (members i)
    → total v n now + d ≤ total w n members
unfolding total
total-le_by w v n members now i d inside less by_d =
    sum-le_by (λ j. w (members j)) (λ j. v (now j)) i n d inside less by_d

pub total-bound {ℓ} :
    {A : Type ℓ} (w : A → ℕ) (n b : ℕ) (members : ℕ → A)
    → ((j : ℕ) → j < n → w (members j) ≤ b)
    → total w n members ≤ n * b
unfolding total
total-bound w n b members less = sum-bound (λ j. w (members j)) n b less
