-- ===== src/Proxy/CString/Laws.antt =====
-- Facts about the byte functions that the proofs about the requests use.
use mathlib.Core.Option
use os_5_sem.Base.{
  ℕ, zero, suc, ◌+◌, ◌≤◌, ◌<◌, ◌≡◌, ◌≢◌, refl, ap, true, none, some, List, [], ◌∷◌, ◌++◌, arith,
  length-append, length, take, drop, Option-cases, inl, inr, Bool-cases,
}
use os_5_sem.Proxy.CString.{starts_with, strstr, strlen, write_here, write_at}

-- No byte is the NUL.
abbrev pub NoNul : List ℕ → Type 0
NoNul [] = Unit {0}
NoNul (c ∷ s) = (c ≢ 0) × NoNul s

pub strlen-append : (s t : List ℕ) → NoNul s → strlen (s ++ 0 ∷ t) ≡ length s
unfolding strlen
strlen-append [] t h = refl
strlen-append (c ∷ s) t h = ground (arith, h.0, strlen-append s t h.1)

pub take-append : (s t : List ℕ) → take (length s) (s ++ t) ≡ s
take-append [] t = refl
take-append (c ∷ s) t = ap (λ r. c ∷ r) (take-append s t)

pub drop-append : (s t : List ℕ) → drop (length s) (s ++ t) ≡ t
drop-append [] t = refl
drop-append (c ∷ s) t = drop-append s t

pub drop-append_more : (s t : List ℕ) (k : ℕ) → drop (length s + k) (s ++ t) ≡ drop k t
drop-append_more [] t k = rw (zero-add_lem k)
  where
    zero-add_lem : (n : ℕ) → 0 + n ≡ n
    zero-add_lem n = omega arith
drop-append_more (c ∷ s) t k =
    let e : suc (length s) + k ≡ suc (length s + k) = omega arith in rw e (drop-append_more s t k)

pub write_here-append :
    (bs buf : List ℕ)
    → length bs ≤ length buf
    → write_here bs buf ≡ some (bs ++ drop (length bs) buf)
unfolding write_here
write_here-append [] buf h = refl
write_here-append (b ∷ bs) [] h = absurd (omega arith)
write_here-append (b ∷ bs) (c ∷ buf) h = rw (write_here-append bs buf (omega arith))

-- A write behind the array's end.
pub write_here-overrun : (bs buf : List ℕ) → length buf < length bs → write_here bs buf ≡ none
unfolding write_here
write_here-overrun [] buf h = absurd (omega arith)
write_here-overrun (b ∷ bs) [] h = refl
write_here-overrun (b ∷ bs) (c ∷ buf) h = rw (write_here-overrun bs buf (omega arith))

pub write_at-append :
    (pre : List ℕ) (k : ℕ) (bs buf : List ℕ)
    → write_at (length pre + k) bs (pre ++ buf)
      ≡ Option.map (λ rest. pre ++ rest) (write_at k bs buf)
unfolding write_at
write_at-append [] k bs buf =
    let e : 0 + k ≡ k = omega arith in
    rw e (elim (Option-cases (write_at k bs buf)) [ inl h ↦ rw h | inr h ↦ rw h.1 ])
write_at-append (c ∷ pre) k bs buf =
    let e : suc (length pre) + k ≡ suc (length pre + k) = omega arith in
    rw (e, write_at, write_at-append pre k bs buf)
      (elim (Option-cases (write_at k bs buf)) [ inl h ↦ rw h | inr h ↦ rw h.1 ])

pub length-write_here :
    (bs buf : List ℕ) {r : List ℕ} → write_here bs buf ≡ some r → length r ≡ length buf
unfolding write_here
length-write_here [] buf e = ground arith
length-write_here (b ∷ bs) [] e = ground arith
length-write_here (b ∷ bs) (c ∷ buf) e = elim (Option-cases (write_here bs buf)) [
  | inl h ↦ ground arith
  | inr h ↦ ground (arith, length-write_here bs buf {r = h.0} h.1)
]

-- A write keeps the array's length.
pub length-write_at :
    (i : ℕ) (bs buf : List ℕ) {r : List ℕ} → write_at i bs buf ≡ some r → length r ≡ length buf
unfolding write_at
length-write_at zero bs buf e = length-write_here bs buf e
length-write_at (suc i) bs [] e = ground arith
length-write_at (suc i) bs (c ∷ buf) e = elim (Option-cases (write_at i bs buf)) [
  | inl h ↦ ground arith
  | inr h ↦ ground (arith, length-write_at i bs buf {r = h.0} h.1)
]

pub starts_with-append :
    (ps s : List ℕ) → starts_with ps s ≡ true → (post : List ℕ) × (s ≡ ps ++ post)
unfolding starts_with
starts_with-append [] s h = (s, refl)
starts_with-append (p ∷ ps) [] h = absurd (ground arith)
starts_with-append (p ∷ ps) (c ∷ s) h =
    let (post, e) = starts_with-append ps s (ground arith) in (post, ground (arith, e))

-- What `strstr` finds stands at the offset that it returns.
pub strstr-append :
    (ps s : List ℕ) (k : ℕ)
    → strstr ps s ≡ some k
    → (pre : List ℕ) × (post : List ℕ) × (s ≡ pre ++ (ps ++ post)) × (length pre ≡ k)
unfolding strstr
strstr-append ps [] k h = absurd (ground arith)
strstr-append ps (c ∷ s) k h = elim (Bool-cases (starts_with ps (c ∷ s))) [
  | inl found ↦ let (post, e) = starts_with-append ps (c ∷ s) found in ([], post, e, ground arith)
  | inr elsewhere ↦ elim (Option-cases (strstr ps s)) [
    | inl never ↦ absurd (ground arith)
    | inr later ↦
        let (pre, post, e, n) = strstr-append ps s later.0 later.1 in
        (c ∷ pre, post, ap (λ r. c ∷ r) e, ground (arith, n))
  ]
]

-- A write of as many bytes as stand there.
pub write_at-replace :
    (pre old bs post : List ℕ)
    → length old ≡ length bs
    → write_at (length pre) bs (pre ++ (old ++ post)) ≡ some (pre ++ (bs ++ post))
unfolding write_at
write_at-replace pre old bs post e =
    let z : length pre ≡ length pre + 0 = omega arith in
    let d : drop (length bs) (old ++ post) ≡ post = rw (← e) (drop-append old post) in
    let fits : length bs ≤ length (old ++ post) = omega (arith, length-append old post) in
    rw (z, write_at-append pre 0 bs (old ++ post), write_here-append bs (old ++ post) fits) (rw d)
