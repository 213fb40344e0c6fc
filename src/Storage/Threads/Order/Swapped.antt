-- ===== src/Storage/Threads/Order/Swapped.antt =====
-- The list after `swap_three` of Storage/Threads.antt.
use mathlib.Core.List.{Perm}
use mathlib.Core.List.Perm
use os_5_sem.Base.{
  ℕ, ◌+◌, ◌≡◌, ◌≢◌, refl, ap, ◌∙◌, Bool, true, false, Option, some, List, [], ◌∷◌, ◌==◌, arith, bit,
  length, if◌then◌else◌, Bool-cases, inl, inr, ==_iff,
}
use os_5_sem.Storage.Memory.{Node, exclusive, unlock, next_of, len_of-ok, ◌>>=◌, set_next}
use os_5_sem.Storage.Layout.{Cells, first_of, has, Linked, store}
use os_5_sem.Storage.Swap.{swapped, Linked-swapped, swapped_same}
use os_5_sem.Storage.{swap_nodes}
use os_5_sem.Storage.Threads.{outside, swap_three}
use os_5_sem.Storage.Threads.Order.{succ, rank, InARow, InARow-tail}

-- The run of `swap_three`, and the list that it leaves.
pub record Swapped (cmp : ℕ → ℕ → Bool) (h : ℕ → Option Node) (prev cur next i p w : ℕ) (xs : Cells)
    : Type 0 where
  pub memory : ℕ → Option Node
  pub list : Cells
  pub made : Bool
  pub runs :
      swap_three cmp prev cur next
        (store h ((next, exclusive) ∷ (cur, exclusive) ∷ (prev, exclusive) ∷ []) i p w)
      ≡ some (outside, store memory [] i p (w + bit made))
  pub linked : Linked memory list
  pub top : first_of list ≡ first_of xs
  pub perm : Perm list xs
  pub members : (x : ℕ) → has x list ≡ has x xs
  pub order : (x : ℕ) → x ≢ prev → x ≢ cur → x ≢ next → succ list x ≡ succ xs x
  pub ranks : (x : ℕ) → x ≢ prev → x ≢ cur → x ≢ next → rank list x ≡ rank xs x
  pub lengths : length list ≡ length xs
  pub same : (x : ℕ) → has x xs ≡ false → memory x ≡ h x

rank-cons :
    (x q : ℕ) (u : List ℕ) (ys xs : Cells)
    → rank ys x ≡ rank xs x
    → rank ((q, u) ∷ ys) x ≡ rank ((q, u) ∷ xs) x
unfolding rank
rank-cons x q u ys xs e = ground (arith, e)

-- A node that is none of the three keeps its rank.
rank-exchanged :
    (x prev cur next : ℕ) (u v t : List ℕ) (xs : Cells)
    → x ≢ prev
    → x ≢ cur
    → x ≢ next
    → rank ((prev, u) ∷ (next, t) ∷ (cur, v) ∷ xs) x
      ≡ rank ((prev, u) ∷ (cur, v) ∷ (next, t) ∷ xs) x
unfolding rank
rank-exchanged x prev cur next u v t xs a b c = ground arith

module _ (cmp : ℕ → ℕ → Bool) (h : ℕ → Option Node) (prev cur next i p w : ℕ) where
  swap_three-next :
      (u v t : List ℕ) (xs : Cells)
      → Linked h ((prev, u) ∷ (cur, v) ∷ (next, t) ∷ xs)
      → swap_three cmp prev cur next
          (store h ((next, exclusive) ∷ (cur, exclusive) ∷ (prev, exclusive) ∷ []) i p w)
        ≡ some (
          outside,
          if cmp (length v) (length t)
              then store (swapped cmp h prev cur u v i p w next t xs) [] i p (w + 1)
              else store h [] i p w,
        )
  unfolding swap_three swap_nodes unlock next_of set_next
  swap_three-next u v t xs l =
      let s = store h ((next, exclusive) ∷ (cur, exclusive) ∷ (prev, exclusive) ∷ []) i p w in
      let cell_cur : Node = record { value = v; next = next } in
      let cell_next : Node = record { value = t; next = first_of xs } in
      rw (len_of-ok cur s cell_cur (ground arith) l.3.2, ◌>>=◌)
        (rw (len_of-ok next s cell_next (ground arith) l.3.3.2, ◌>>=◌)
          (elim (Bool-cases (cmp (length v) (length t))) [
            | inl yes_swap ↦
                rw yes_swap (ground (arith, l.0, l.1, l.2, l.3.0, l.3.1, l.3.2, l.3.3.0, l.3.3.2))
            | inr no_swap ↦ rw no_swap (ground (arith, l.1, l.3.1))
          ]))

  swap_three-front :
      (u v t : List ℕ) (xs : Cells)
      → Linked h ((prev, u) ∷ (cur, v) ∷ (next, t) ∷ xs)
      → Swapped cmp h prev cur next i p w ((prev, u) ∷ (cur, v) ∷ (next, t) ∷ xs)
  unfolding succ
  swap_three-front u v t xs l = elim (Bool-cases (cmp (length v) (length t))) [
    | inl yes_swap ↦ record {
      memory = swapped cmp h prev cur u v i p w next t xs;
      list = (prev, u) ∷ (next, t) ∷ (cur, v) ∷ xs;
      made = true;
      runs = swap_three-next u v t xs l ∙ rw yes_swap;
      linked = Linked-swapped cmp h prev cur u v i p w next t xs l;
      top = refl;
      perm = Perm.cons (prev, u) (Perm.swap (cur, v) (next, t) xs);
      members = λ x. ground arith;
      order = λ x a b c. ground arith;
      ranks = λ x a b c. rank-exchanged x prev cur next u v t xs a b c;
      lengths = refl;
      same = swapped_same cmp h prev cur u v i p w next t xs;
    }
    | inr no_swap ↦ record {
      memory = h;
      list = (prev, u) ∷ (cur, v) ∷ (next, t) ∷ xs;
      made = false;
      runs =
          swap_three-next u v t xs l
          ∙ rw no_swap (ap (λ n. some (outside, store h [] i p n)) (omega arith));
      linked = l;
      top = refl;
      perm = Perm.refl _;
      members = λ x. refl;
      order = λ x a b c. refl;
      ranks = λ x a b c. refl;
      lengths = refl;
      same = λ x out. refl;
    }
  ]

module _ (cmp : ℕ → ℕ → Bool) (h : ℕ → Option Node) (prev cur next i p w : ℕ) where
  -- The same where the three stand at the front by their addresses.
  swap_three-at_front :
      (q : ℕ) (u : List ℕ) (xs : Cells)
      → q ≡ prev
      → Linked h ((q, u) ∷ xs)
      → InARow prev cur next ((q, u) ∷ xs)
      → Swapped cmp h prev cur next i p w ((q, u) ∷ xs)
  unfolding succ
  swap_three-at_front q u [] e l row = absurd (ground (arith, row.first_step, row.some_cur))
  swap_three-at_front q u ((c, v) ∷ []) e l row =
      absurd (ground (arith, row.first_step, row.some_cur, row.second_step, row.some_next, l.1))
  swap_three-at_front q u ((c, v) ∷ (n, t) ∷ xs) e l row =
      let ec : c ≡ cur = ground (arith, row.first_step) in
      let en : n ≡ next = ground (arith, row.second_step, l.1) in
      rw (← e, ← ec, ← en) (swap_three-front cmp h q c n i p w u v t xs l)

  pub swap_three-Swapped :
      (xs : Cells) → Linked h xs → InARow prev cur next xs → Swapped cmp h prev cur next i p w xs
  unfolding succ
  swap_three-Swapped [] l row = absurd (ground (arith, row.member))
  swap_three-Swapped ((q, u) ∷ xs) l row = elim (Bool-cases (q == prev)) [
    | inl front ↦ swap_three-at_front q u xs ((==_iff q prev).0 front) l row
    | inr behind ↦
        let r = swap_three-Swapped xs l.3 (InARow-tail h xs l row behind) in
        record {
          memory = r.memory;
          list = (q, u) ∷ r.list;
          made = r.made;
          runs = r.runs;
          linked = (l.0, r.members q ∙ l.1, r.same q l.1 ∙ rw r.top l.2, r.linked);
          top = refl;
          perm = Perm.cons (q, u) r.perm;
          members = λ x. ground (arith, r.members x);
          order = λ x a b c. ground (arith, r.top, r.order x a b c);
          ranks = λ x a b c. rank-cons x q u r.list xs (r.ranks x a b c);
          lengths = ground (arith, r.lengths);
          same = λ x out. r.same x (ground arith);
        }
  ]
