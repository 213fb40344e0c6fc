-- ===== src/Proxy/Request.antt =====
-- `parse_request_line` of 3/src/handler.c.
pub mod Version
pub mod Print
use mathlib.Core.Option
use os_5_sem.Base.{
  ℕ, zero, suc, ◌+◌, ◌-◌, Bool, true, false, not, ◌&&◌, ◌||◌, Option, none, some, List, [], ◌∷◌,
  ◌==◌, leb, if◌then◌else◌,
}
use os_5_sem.Proxy.CString.{codes, starts_with, strstr, write_at}

-- How a rewriting of the buffer ends: with the new buffer, with a return of 1, or in a write past the
-- end of the array.
pub data Parsed (A : Type 0) : Type 0 where
  accepted : A → Parsed A
  refused : Parsed A
  overrun : Parsed A

-- The bytes that `%s` skips and stops at.
abbrev pub is_space : ℕ → Bool
is_space c = (c == 32) || (leb 9 c && leb c 13)

pub skip_space : List ℕ → List ℕ
skip_space [] = []
skip_space (c ∷ s) = let rest = skip_space s in if is_space c then rest else c ∷ s

-- At most `limit` bytes up to a space or the NUL, and what is behind them.
pub word : (limit : ℕ) → List ℕ → List ℕ × List ℕ
word zero s = ([], s)
word (suc n) [] = ([], [])
word (suc n) (c ∷ s) =
    let (w, rest) = word n s in if is_space c || (c == 0) then ([], c ∷ s) else (c ∷ w, rest)

-- `%<limit>s`
pub scan_word : (limit : ℕ) → List ℕ → Option (List ℕ × List ℕ)
unfolding skip_space word
scan_word limit s =
    let (w, rest) = word limit (skip_space s) in elim w [ [] ↦ none | c ∷ cs ↦ some (c ∷ cs, rest) ]

-- `sscanf(buffer, "%15s %2047s %11s", method, url, version) == 3`, with method and version.
pub scan_line : List ℕ → Option (List ℕ × List ℕ)
unfolding scan_word
scan_line buffer = Option.bind (scan_word 15 buffer) λ (method, r1).
    Option.bind (scan_word 2047 r1)
      λ (url, r2). Option.map (λ (version, r3). (method, version)) (scan_word 11 r2)

abbrev pub http_1_1 : List ℕ
http_1_1 = codes "HTTP/1.1"

abbrev pub http_1_0 : List ℕ
http_1_0 = codes "HTTP/1.0"

-- From the search for the version on.
pub set_version : (version buffer : List ℕ) → Parsed (List ℕ)
set_version version buffer = elim (strstr version buffer) [
  | none ↦ accepted buffer
  | some p ↦ elim (write_at p http_1_1 buffer) [ none ↦ overrun | some b ↦ accepted b ]
]

-- The tests of method and version.
pub check_line : (method version buffer : List ℕ) → Parsed (List ℕ)
unfolding set_version
check_line method version buffer =
    if not (starts_with (codes "GET") method)
    then refused
    else if not (starts_with http_1_0 version) && not (starts_with http_1_1 version)
    then refused
    else set_version version buffer

unfoldable pub parse_request_line : List ℕ → Parsed (List ℕ)
unfolding scan_line check_line
parse_request_line buffer = elim (scan_line buffer) [
  | none ↦ refused
  | some (method, version) ↦ check_line method version buffer
]
