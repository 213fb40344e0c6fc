-- ===== src/Storage/Swapper.antt =====
-- The swapping threads of 2.3/src, over any number of rounds, on a list that no other thread changes.
use mathlib.Core.List.{Perm}
use mathlib.Core.List.Perm
use os_5_sem.Base.{
  ℕ, zero, suc, ◌+◌, ◌-◌, ◌%◌, ◌≡◌, refl, sym, ◌∙◌, Bool, false, Option, some, List, [], ◌∷◌, arith,
  length, bit, Bool-cases, inl, inr, ltb, ◌≤◌, Option,
}
use os_5_sem.Storage.Memory.{Node, Store, ◌>>=◌, ◌>>◌}
use os_5_sem.Storage.Layout.{Cells, has, Linked, store, swap_at, swaps_at, has-swap_at}
use os_5_sem.Storage.{Storage, swap_rounds, swapper}
use os_5_sem.Storage.Swap.{swap_pairs-swap_at}

swap_at-perm : (cmp : ℕ → ℕ → Bool) (i : ℕ) (xs : Cells) → Perm (swap_at cmp i xs) xs
unfolding swap_at
swap_at-perm cmp i [] = Perm.refl []
swap_at-perm cmp i (x ∷ []) = Perm.refl (x ∷ [])
swap_at-perm cmp zero (x ∷ y ∷ xs) = elim (Bool-cases (cmp (length x.1) (length y.1))) [
  | inl swaps ↦ rw swaps (Perm.swap x y xs)
  | inr stays ↦ rw stays (Perm.refl (x ∷ y ∷ xs))
]
swap_at-perm cmp (suc i) (x ∷ y ∷ xs) = Perm.cons x (swap_at-perm cmp i (y ∷ xs))

length-swap_at : (cmp : ℕ → ℕ → Bool) (i : ℕ) (xs : Cells) → length (swap_at cmp i xs) ≡ length xs
unfolding swap_at
length-swap_at cmp i [] = refl
length-swap_at cmp i (x ∷ []) = refl
length-swap_at cmp zero (x ∷ y ∷ xs) = ground arith
length-swap_at cmp (suc i) (x ∷ y ∷ xs) = ground (arith, length-swap_at cmp i (y ∷ xs))

-- A run ends without a fault and without locks, with the list from `first` on permuted.
abbrev pub Permutes :
    Option (Unit {0} × Store)
    → (first : ℕ) (u : List ℕ) (xs : Cells) (h : ℕ → Option Node) (i p : ℕ) → Type 0
Permutes run first u xs h i p =
    (g : ℕ → Option Node) × (ys : Cells) × (w : ℕ) × (run ≡ some (tt, store g [] i p w))
    × Linked g ((first, u) ∷ ys)
    × Perm ys xs
    × ((a : ℕ) → has a ((first, u) ∷ xs) ≡ false → g a ≡ h a)

swap_rounds-Permutes :
    (cmp : ℕ → ℕ → Bool) (randoms : List ℕ) (s : Storage) (u : List ℕ) (xs : Cells)
    (h : ℕ → Option Node) (i p w : ℕ)
    → Linked h ((s.first, u) ∷ xs)
    → s.size ≡ length xs
    → 2 ≤ s.size
    → Permutes (swap_rounds cmp randoms s (store h [] i p w)) s.first u xs h i p
unfolding swap_rounds
swap_rounds-Permutes cmp [] s u xs h i p w l es two =
    (h, xs, w, refl, l, Perm.refl xs, λ a out. refl)
swap_rounds-Permutes cmp (random ∷ rest) s u xs h i p w l es two =
    let i0 = random % (s.size - 1) in
    let (g1, run1, l1, same1) = swap_pairs-swap_at cmp random s u xs h i p w l es two in
    let (g2, ys, w2, run2, l2, perm2, same2) =
      swap_rounds-Permutes cmp rest s u (swap_at cmp i0 xs) g1 i p (w + bit (swaps_at cmp i0 xs)) l1
        (es ∙ sym (length-swap_at cmp i0 xs)) two in
    (
      g2,
      ys,
      w2,
      rw (run1, ◌>>=◌, ◌>>◌) run2,
      l2,
      Perm.trans perm2 (swap_at-perm cmp i0 xs),
      λ a out. same2 a (ground (arith, has-swap_at cmp a i0 xs)) ∙ same1 a out,
    )

-- On a list of `size` nodes behind its first one with no lock held, a swapping thread does not fault
-- in any number of rounds, whatever the random numbers are, and ends with no lock held. The list is
-- then a permutation of what it was, behind the same first node, and memory outside it is as before.
pub swapper-perm :
    (cmp : ℕ → ℕ → Bool) (randoms : List ℕ) (s : Storage) (u : List ℕ) (xs : Cells)
    (h : ℕ → Option Node) (i p w : ℕ)
    → Linked h ((s.first, u) ∷ xs)
    → s.size ≡ length xs
    → Permutes (swapper cmp randoms s (store h [] i p w)) s.first u xs h i p
unfolding swapper
swapper-perm cmp randoms s u xs h i p w l es = elim (Bool-cases (ltb s.size 2)) [
  | inl small ↦ (h, xs, w, rw small, l, Perm.refl xs, λ a out. refl)
  | inr large ↦ rw large (swap_rounds-Permutes cmp randoms s u xs h i p w l es (ground arith))
]
