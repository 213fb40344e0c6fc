-- ===== src/Storage/Search.antt =====
-- `search_pairs` of 2.3/src on a list that no other thread changes.
use os_5_sem.Base.{
  ℕ, zero, suc, ◌+◌, ◌*◌, ◌<◌, ◌≤◌, ◌≡◌, refl, Bool, true, Option, some, List, [], ◌∷◌, arith,
  length, ap, ◌∙◌, ltb, Bool-cases, inl, inr, if◌then◌else◌,
}
use os_5_sem.Storage.Memory.{Node, Mode, lock, unlock, next_of, len_of, ◌>>=◌}
use os_5_sem.Storage.Layout.{Cells, Linked, store, adjacent, adjacent_of}
use os_5_sem.Storage.{Storage, search_loop, search_cycle, search_pairs, pair_searcher}

module _ (mode : Mode) (cmp : ℕ → ℕ → Bool) (h : ℕ → Option Node) where
  search_loop-adjacent :
      (fuel a c : ℕ) (v : List ℕ) (xs : Cells) (i p w : ℕ)
      → Linked h ((a, v) ∷ xs)
      → length xs < fuel
      → search_loop mode cmp fuel a c (store h ((a, mode) ∷ []) i p w)
        ≡ some (c + adjacent cmp v xs, store h [] i p w)
  unfolding search_loop adjacent lock unlock next_of len_of
  search_loop-adjacent zero a c v xs i p w l enough = absurd (omega arith)
  search_loop-adjacent (suc k) a c v [] i p w l enough = ground arith
  search_loop-adjacent (suc k) a c v ((b, u) ∷ xs) i p w l enough = ground (
    arith,
    l.0,
    l.1,
    l.2,
    l.3.0,
    l.3.2,
    search_loop-adjacent k b (if cmp (length v) (length u) then c + 1 else c) u xs i p w l.3
        (omega arith),
  )

  search_cycle-adjacent :
      (fuel : ℕ) (s : Storage) (a : ℕ) (v : List ℕ) (xs : Cells) (i p w : ℕ)
      → Linked h ((a, v) ∷ xs)
      → s.first ≡ a
      → length xs ≤ fuel
      → search_cycle mode cmp fuel s (store h [] i p w)
        ≡ some (true, store h [] (i + 1) (p + adjacent_of cmp xs) w)
  unfolding search_cycle adjacent_of lock unlock next_of
  search_cycle-adjacent fuel s a v [] i p w l e enough = ground arith
  search_cycle-adjacent fuel s a v ((b, u) ∷ xs) i p w l e enough = ground (
    arith,
    l.0,
    l.1,
    l.2,
    l.3.0,
    l.3.2,
    search_loop-adjacent fuel b 0 u xs i p w l.3 (omega arith),
  )

  search_pairs-adjacent :
      (fuel rounds : ℕ) (s : Storage) (a : ℕ) (v : List ℕ) (xs : Cells) (i p w : ℕ)
      → Linked h ((a, v) ∷ xs)
      → s.first ≡ a
      → length xs ≤ fuel
      → search_pairs mode cmp fuel rounds s (store h [] i p w)
        ≡ some (tt, store h [] (i + rounds) (p + rounds * adjacent_of cmp xs) w)
  unfolding search_pairs
  search_pairs-adjacent fuel zero s a v xs i p w l e enough = ground arith
  search_pairs-adjacent fuel (suc k) s a v xs i p w l e enough =
      rw (search_cycle-adjacent fuel s a v xs i p w l e enough, ◌>>=◌)
        (search_pairs-adjacent fuel k s a v xs (i + 1) (p + adjacent_of cmp xs) w l e enough
          ∙ ap (λ t. some (tt, t)) (ground arith))

-- On a list of `size` nodes behind its first one, with fuel for each of them and no lock held, the
-- searching thread does not fault and ends with no lock held and the list as it was. With two
-- nodes or more each round adds one to the iterations and the number of neighbouring pairs that `cmp`
-- holds of, among the nodes behind the first, to the pairs; with fewer nothing is counted.
pub pair_searcher-adjacent_of :
    (mode : Mode) (cmp : ℕ → ℕ → Bool) (fuel rounds : ℕ) (s : Storage) (v : List ℕ) (xs : Cells)
    (h : ℕ → Option Node) (i p w : ℕ)
    → Linked h ((s.first, v) ∷ xs)
    → s.size ≡ length xs
    → s.size ≤ fuel
    → pair_searcher mode cmp fuel rounds s (store h [] i p w)
      ≡ some (
        tt,
        if ltb s.size 2
            then store h [] i p w
            else store h [] (i + rounds) (p + rounds * adjacent_of cmp xs) w,
      )
unfolding pair_searcher
pair_searcher-adjacent_of mode cmp fuel rounds s v xs h i p w l es enough =
    elim (Bool-cases (ltb s.size 2)) [
      | inl small ↦ rw small
      | inr large ↦ rw large (
          search_pairs-adjacent mode cmp h fuel rounds s s.first v xs i p w l refl
            (omega (arith, es)))
    ]
