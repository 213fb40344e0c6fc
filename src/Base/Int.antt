-- ===== src/Base/Int.antt =====
-- A C int that may be negative, without a bound.
use Prim.Native.Nat.{ℕ, suc, ◌+◌, ◌-◌, ◌≤◌}
use mathlib.Core.Path.{◌≡◌}
use mathlib.Core.Bool.{Bool, false}
use native.Mathlib.Omega.{arith}
use os_5_sem.Base.Tests.{leb, ◌==◌, if◌then◌else◌}

-- `negsuc n` is -(n + 1).
pub data ℤ : Type 0 where
  pos : ℕ → ℤ
  negsuc : ℕ → ℤ

abbrev pub pos_part : ℤ → ℕ
pos_part (pos n) = n
pos_part (negsuc n) = 0

abbrev pub neg_part : ℤ → ℕ
neg_part (pos n) = 0
neg_part (negsuc n) = suc n

-- a - b, as an integer.
abbrev pub sub_ℕ : ℕ → ℕ → ℤ
sub_ℕ a b = if leb b a then pos (a - b) else negsuc (b - a - 1)

unfoldable pub plus : ℤ → ℕ → ℤ
plus a n = sub_ℕ (pos_part a + n) (neg_part a)

unfoldable pub minus : ℤ → ℕ → ℤ
minus a n = sub_ℕ (pos_part a) (neg_part a + n)

abbrev pub is_zero : ℤ → Bool
is_zero (pos n) = n == 0
is_zero (negsuc n) = false

-- The parts after a change, and a normal form: one of the two is 0.
pub plus_parts :
    (a : ℤ) (n : ℕ)
    → (pos_part (plus a n) + neg_part a ≡ neg_part (plus a n) + pos_part a + n)
      × (neg_part (plus a n) ≤ neg_part a)
unfolding plus
plus_parts (pos k) n = ground arith
plus_parts (negsuc k) n = ground arith

pub minus_parts :
    (a : ℤ) (n : ℕ) → pos_part (minus a n) + neg_part a + n ≡ neg_part (minus a n) + pos_part a
unfolding minus
minus_parts (pos k) n = ground arith
minus_parts (negsuc k) n = ground arith
