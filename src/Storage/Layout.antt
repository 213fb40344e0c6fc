-- ===== src/Storage/Layout.antt =====
-- What a list in memory stands for: the address and the text of each node, in order.
use os_5_sem.Base.{
  ℕ, zero, suc, refl, arith, if◌then◌else◌, ◌+◌, ◌≡◌, ◌≢◌, Bool, false, ◌||◌, Option, some, List,
  [], ◌∷◌, ◌==◌, length, bit,
}
use os_5_sem.Storage.Memory.{Node, Mode, Store, write}

abbrev pub Cells : Type 0
Cells = List (ℕ × List ℕ)

abbrev pub first_of : Cells → ℕ
first_of [] = 0
first_of ((p, v) ∷ xs) = p

abbrev pub has : ℕ → Cells → Bool
has a [] = false
has a ((p, v) ∷ xs) = (a == p) || has a xs

-- Distinct nodes, none at NULL, each pointing to the one behind it and the last one to NULL.
abbrev pub Linked : (ℕ → Option Node) → Cells → Type 0
Linked h [] = Unit {0}
Linked h ((p, v) ∷ xs) =
    (p ≢ 0)
    × (has p xs ≡ false)
    × (h p ≡ some (record { value = v; next = first_of xs }))
    × Linked h xs

abbrev pub store : (ℕ → Option Node) → List (ℕ × Mode) → (iterations pairs swaps : ℕ) → Store
store h held i p w = record { node = h; held = held; iterations = i; pairs = p; swaps = w }

-- How many neighbours `cmp` holds of, for a node of text `v` and those behind it.
unfoldable pub adjacent : (ℕ → ℕ → Bool) → List ℕ → Cells → ℕ
adjacent cmp v [] = 0
adjacent cmp v ((p, w) ∷ xs) = bit (cmp (length v) (length w)) + adjacent cmp w xs

unfoldable pub adjacent_of : (ℕ → ℕ → Bool) → Cells → ℕ
unfolding adjacent
adjacent_of cmp [] = 0
adjacent_of cmp ((p, v) ∷ xs) = adjacent cmp v xs

-- The list after an attempt to swap the nodes at `i` and `i + 1`, and whether they were swapped.
unfoldable pub swap_at : (ℕ → ℕ → Bool) → ℕ → Cells → Cells
swap_at cmp i [] = []
swap_at cmp i (x ∷ []) = x ∷ []
swap_at cmp zero (x ∷ y ∷ xs) = if cmp (length x.1) (length y.1) then y ∷ x ∷ xs else x ∷ y ∷ xs
swap_at cmp (suc i) (x ∷ y ∷ xs) = x ∷ swap_at cmp i (y ∷ xs)

unfoldable pub swaps_at : (ℕ → ℕ → Bool) → ℕ → Cells → Bool
swaps_at cmp i [] = false
swaps_at cmp i (x ∷ []) = false
swaps_at cmp zero (x ∷ y ∷ xs) = cmp (length x.1) (length y.1)
swaps_at cmp (suc i) (x ∷ y ∷ xs) = swaps_at cmp i (y ∷ xs)

pub has-swap_at : (cmp : ℕ → ℕ → Bool) (a i : ℕ) (xs : Cells) → has a (swap_at cmp i xs) ≡ has a xs
unfolding swap_at
has-swap_at cmp a i [] = refl
has-swap_at cmp a i (x ∷ []) = refl
has-swap_at cmp a zero ((p, u) ∷ (q, v) ∷ xs) = ground arith
has-swap_at cmp a (suc i) ((p, u) ∷ (q, v) ∷ xs) = ground (arith, has-swap_at cmp a i ((q, v) ∷ xs))

pub Linked-write :
    (h : ℕ → Option Node) (p : ℕ) (c : Option Node) (xs : Cells)
    → has p xs ≡ false
    → Linked h xs
    → Linked (write h p c) xs
Linked-write h p c [] out l = tt
Linked-write h p c ((q, v) ∷ xs) out l =
    (l.0, l.1, ground arith, Linked-write h p c xs (ground arith) l.3)
