-- ===== src/Proxy/Request/Print.antt =====
-- `parse_request_line` of 3/src/handler.c on a printed request line.
use mathlib.Core.Option
use mathlib.Core.Path.{subst}
use mathlib.Core.List.{append_assoc}
use os_5_sem.Base.{
  ℕ, zero, suc, ◌≤◌, ◌≡◌, ◌≢◌, ◌⊎◌, inl, inr, refl, ap, sym, ◌∙◌, false, Option, none, some, List,
  [], ◌∷◌, ◌++◌, ◌==◌, ◌||◌, arith, length,
}
use os_5_sem.Proxy.CString.{codes, starts_with, strstr}
use os_5_sem.Proxy.CString.Laws.{write_at-replace}
use os_5_sem.Proxy.Request.{
  accepted, is_space, skip_space, word, scan_word, scan_line, http_1_0, http_1_1, set_version,
  check_line, parse_request_line,
}
use os_5_sem.Proxy.Headers.Print.{Free}

-- No byte is a space, a NUL or an H.
abbrev pub Plain : List ℕ → Type 0
Plain [] = Unit {0}
Plain (c ∷ s) = (is_space c ≡ false) × (c ≢ 0) × (c ≢ b'H') × Plain s

word-Plain :
    (limit : ℕ) (s t : List ℕ) → Plain s → length s ≤ limit → word limit (s ++ 32 ∷ t) ≡ (s, 32 ∷ t)
unfolding word
word-Plain zero [] t p le = refl
word-Plain (suc n) [] t p le = refl
word-Plain zero (c ∷ s) t p le = absurd (omega arith)
word-Plain (suc n) (c ∷ s) t p le =
    let on = word-Plain n s t p.3 (omega arith) in
    let stays : (is_space c || (c == 0)) ≡ false = ground (arith, p.0, p.1) in rw (on, stays) refl

skip_space-Plain : (c : ℕ) (t : List ℕ) → is_space c ≡ false → skip_space (32 ∷ c ∷ t) ≡ c ∷ t
unfolding skip_space
skip_space-Plain c t plain = ground arith

-- What `%s` gives for a word and what is behind it.
abbrev word_result : List ℕ × List ℕ → Option (List ℕ × List ℕ)
word_result ([], rest) = none
word_result (c ∷ s, rest) = some (c ∷ s, rest)

scan_word-result :
    (limit : ℕ) (s : List ℕ) → scan_word limit s ≡ word_result (word limit (skip_space s))
unfolding scan_word
scan_word-result limit s = by_word (word limit (skip_space s))
  where
    by_word :
        (r : List ℕ × List ℕ)
        → (elim r.0 as (λ x. Option (List ℕ × List ℕ)) [ [] ↦ none | c ∷ cs ↦ some (c ∷ cs, r.1) ])
          ≡ word_result r
    by_word ([], rest) = refl
    by_word (c ∷ s, rest) = refl

scan_word-Plain :
    (limit c : ℕ) (s t : List ℕ)
    → Plain (c ∷ s)
    → length (c ∷ s) ≤ limit
    → scan_word limit (32 ∷ ((c ∷ s) ++ 32 ∷ t)) ≡ some (c ∷ s, 32 ∷ t)
scan_word-Plain limit c s t p le =
    scan_word-result limit (32 ∷ ((c ∷ s) ++ 32 ∷ t))
    ∙ ap (λ (r : List ℕ). word_result (word limit r)) (skip_space-Plain c (s ++ 32 ∷ t) p.0)
    ∙ ap word_result (word-Plain limit (c ∷ s) t p le)

scan_version :
    (version rest : List ℕ)
    → (version ≡ http_1_0) ⊎ (version ≡ http_1_1)
    → scan_word 11 (32 ∷ (version ++ 13 ∷ rest)) ≡ some (version, 13 ∷ rest)
unfolding scan_word skip_space word
scan_version version rest (inl e) = rw e refl
scan_version version rest (inr e) = rw e refl

scan_line-Plain :
    (c : ℕ) (url version rest : List ℕ)
    → Plain (c ∷ url)
    → length (c ∷ url) ≤ 2047
    → (version ≡ http_1_0) ⊎ (version ≡ http_1_1)
    → scan_line (codes "GET" ++ 32 ∷ ((c ∷ url) ++ 32 ∷ (version ++ 13 ∷ rest)))
      ≡ some (codes "GET", version)
unfolding scan_line Option.bind
scan_line-Plain c url version rest p le which =
    ap
      (λ (x : Option (List ℕ × List ℕ)).
        Option.bind x (λ (u, r2). Option.map (λ (v, r3). (codes "GET", v)) (scan_word 11 r2)))
      (scan_word-Plain 2047 c url (version ++ 13 ∷ rest) p le)
    ∙ ap (λ (x : Option (List ℕ × List ℕ)). Option.map (λ (v, r3). (codes "GET", v)) x)
        (scan_version version rest which)

-- The version is not found before its place.
strstr-version :
    (s version t : List ℕ)
    → Free b'H' s
    → Free 0 s
    → (version ≡ http_1_0) ⊎ (version ≡ http_1_1)
    → strstr version (s ++ (version ++ t)) ≡ some (length s)
unfolding strstr starts_with
strstr-version [] version t h z (inl e) = rw e refl
strstr-version [] version t h z (inr e) = rw e refl
strstr-version (c ∷ s) version t h z (inl e) =
    let on = strstr-version s version t h.1 z.1 (inl e) in
    subst (λ (v : List ℕ). strstr v ((c ∷ s) ++ (v ++ t)) ≡ some (suc (length s))) (sym e)
      (ground
        (arith, h.0, z.0, subst (λ (v : List ℕ). strstr v (s ++ (v ++ t)) ≡ some (length s)) e on))
strstr-version (c ∷ s) version t h z (inr e) =
    let on = strstr-version s version t h.1 z.1 (inr e) in
    subst (λ (v : List ℕ). strstr v ((c ∷ s) ++ (v ++ t)) ≡ some (suc (length s))) (sym e)
      (ground
        (arith, h.0, z.0, subst (λ (v : List ℕ). strstr v (s ++ (v ++ t)) ≡ some (length s)) e on))

check_line-version :
    (version buf : List ℕ)
    → (version ≡ http_1_0) ⊎ (version ≡ http_1_1)
    → check_line (codes "GET") version buf ≡ set_version version buf
unfolding check_line starts_with
check_line-version version buf (inl e) =
    subst (λ (v : List ℕ). check_line (codes "GET") v buf ≡ set_version v buf) (sym e) refl
check_line-version version buf (inr e) =
    subst (λ (v : List ℕ). check_line (codes "GET") v buf ≡ set_version v buf) (sym e) refl

set_version-replace :
    (pre version t : List ℕ)
    → Free b'H' pre
    → Free 0 pre
    → (version ≡ http_1_0) ⊎ (version ≡ http_1_1)
    → set_version version (pre ++ (version ++ t)) ≡ accepted (pre ++ (http_1_1 ++ t))
unfolding set_version
set_version-replace pre version t h z which =
    rw (strstr-version pre version t h z which, set_version)
      (rw (write_at-replace pre version http_1_1 t (eight which)) refl)
  where
    eight : (version ≡ http_1_0) ⊎ (version ≡ http_1_1) → length version ≡ 8
    eight (inl e) = ap (λ (v : List ℕ). length v) e
    eight (inr e) = ap (λ (v : List ℕ). length v) e

-- The method, the URL and the spaces of a request line.
abbrev pub before_version : List ℕ → List ℕ
before_version url = codes "GET" ++ 32 ∷ (url ++ 32 ∷ [])

-- A byte that no plain text has.
abbrev pub Barred : ℕ → Type 0
Barred b =
    (b ≢ 32)
    × (b ≢ b'G')
    × (b ≢ b'E')
    × (b ≢ b'T')
    × ((c : ℕ) → is_space c ≡ false → c ≢ 0 → c ≢ b'H' → c ≢ b)

Plain-Free : (b : ℕ) (s : List ℕ) → Barred b → Plain s → Free b (s ++ 32 ∷ [])
Plain-Free b [] bar p = ((λ e. bar.0 (sym e)), tt)
Plain-Free b (c ∷ s) bar p = (bar.4 c p.0 p.1 p.2, Plain-Free b s bar p.3)

pub before_version-Free :
    (b : ℕ) (url : List ℕ) → Barred b → Plain url → Free b (before_version url)
before_version-Free b url bar p = (
  λ e. bar.1 (sym e),
  (λ e. bar.2 (sym e), (λ e. bar.3 (sym e), (λ e. bar.0 (sym e), Plain-Free b url bar p))),
)

pub H-Barred : Barred b'H'
H-Barred = (omega arith, omega arith, omega arith, omega arith, λ c x y z. z)

pub nul-Barred : Barred 0
nul-Barred = (omega arith, omega arith, omega arith, omega arith, λ c x y z. y)

pub cr-Barred : Barred 13
cr-Barred = (omega arith, omega arith, omega arith, omega arith, λ c x y z e. ground (arith, x, e))

-- A GET for a plain URL of 2047 bytes at most, in either version: the version is made HTTP/1.1.
pub parse_request_line-Plain :
    (c : ℕ) (url version rest : List ℕ)
    → Plain (c ∷ url)
    → length (c ∷ url) ≤ 2047
    → (version ≡ http_1_0) ⊎ (version ≡ http_1_1)
    → parse_request_line (before_version (c ∷ url) ++ (version ++ 13 ∷ rest))
      ≡ accepted (before_version (c ∷ url) ++ (http_1_1 ++ 13 ∷ rest))
unfolding parse_request_line
parse_request_line-Plain c url version rest p le which =
    let buf = before_version (c ∷ url) ++ (version ++ 13 ∷ rest) in
    let same : buf ≡ codes "GET" ++ 32 ∷ ((c ∷ url) ++ 32 ∷ (version ++ 13 ∷ rest)) =
      ap (λ (t : List ℕ). codes "GET" ++ 32 ∷ c ∷ t)
        (append_assoc url (32 ∷ []) (version ++ 13 ∷ rest)) in
    let read : scan_line buf ≡ some (codes "GET", version) =
      ap (λ (t : List ℕ). scan_line t) same ∙ scan_line-Plain c url version rest p le which in
    rw (read, parse_request_line)
      (check_line-version version buf which
        ∙ set_version-replace (before_version (c ∷ url)) version (13 ∷ rest)
            (before_version-Free b'H' (c ∷ url) H-Barred p)
            (before_version-Free 0 (c ∷ url) nul-Barred p) which)
