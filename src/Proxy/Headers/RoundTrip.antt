-- ===== src/Proxy/Headers/RoundTrip.antt =====
-- `parse_headers` of 3/src/handler.c on a request that is a line and printed headers.
use mathlib.Core.Option
use mathlib.Core.List.{append_assoc}
use os_5_sem.Base.{
  ℕ, zero, suc, ◌+◌, ◌≤◌, ◌≡◌, ◌≢◌, refl, ap, sym, ◌∙◌, false, none, some, List, [], ◌∷◌, ◌++◌,
  arith, length, length-append, Option-cases, inl, inr,
}
use os_5_sem.Proxy.CString.{crlf, starts_with, strstr}
use os_5_sem.Proxy.CString.Laws.{drop-append_more}
use os_5_sem.Proxy.Headers.{found, scan_headers}
use os_5_sem.Proxy.Headers.Print.{
  Field, blanks, print_field, print, Free, AllFields, header_loop-print, host_of, connection_of,
  plain_start,
}

-- A header without its CR LF.
abbrev pub header_text : Field → List ℕ
header_text f = f.name ++ b':' ∷ (blanks f.gap ++ f.value)

-- The request up to its empty line.
abbrev pub head : (line : List ℕ) → List Field → List ℕ
head line [] = line
head line (f ∷ fs) = line ++ 13 ∷ 10 ∷ head (header_text f) fs

pub print_field-header_text :
    (f : Field) (rest : List ℕ) → print_field f rest ≡ header_text f ++ 13 ∷ 10 ∷ rest
print_field-header_text f rest = sym (
    append_assoc f.name (b':' ∷ (blanks f.gap ++ f.value)) (13 ∷ 10 ∷ rest)
    ∙ ap (λ (t : List ℕ). f.name ++ b':' ∷ t)
        (append_assoc (blanks f.gap) f.value (13 ∷ 10 ∷ rest)))

pub print-head :
    (line : List ℕ) (fs : List Field) (rest : List ℕ)
    → line ++ 13 ∷ 10 ∷ print fs rest ≡ head line fs ++ 13 ∷ 10 ∷ 13 ∷ 10 ∷ rest
print-head line [] rest = refl
print-head line (f ∷ fs) rest =
    ap (λ (t : List ℕ). line ++ 13 ∷ 10 ∷ t)
      (print_field-header_text f (print fs rest) ∙ print-head (header_text f) fs rest)
    ∙ sym (append_assoc line (13 ∷ 10 ∷ head (header_text f) fs) (13 ∷ 10 ∷ 13 ∷ 10 ∷ rest))

pub Free-append : (b : ℕ) (s t : List ℕ) → Free b s → Free b t → Free b (s ++ t)
Free-append b [] t h k = k
Free-append b (c ∷ s) t h k = (h.0, Free-append b s t h.1 k)

pub Free-blanks : (b k : ℕ) → b ≢ 32 → Free b (blanks k)
Free-blanks b zero ne = tt
Free-blanks b (suc k) ne = (λ e. ne (sym e), Free-blanks b k ne)

pub header_text-Free :
    (b : ℕ) (f : Field) → b ≢ 32 → b ≢ 58 → Free b f.name → Free b f.value → Free b (header_text f)
header_text-Free b f ne nc name value =
    Free-append b f.name (b':' ∷ (blanks f.gap ++ f.value)) name
      (λ e. nc (sym e), Free-append b (blanks f.gap) f.value (Free-blanks b f.gap ne) value)

-- The search for the empty line passes a line that another follows.
strstr-line :
    (s t : List ℕ)
    → Free 13 s
    → Free 0 s
    → starts_with crlf t ≡ false
    → strstr (crlf ++ crlf) (s ++ 13 ∷ 10 ∷ t)
      ≡ Option.map (λ (k : ℕ). length s + 2 + k) (strstr (crlf ++ crlf) t)
unfolding strstr starts_with
strstr-line [] t line text more = elim (Option-cases (strstr (crlf ++ crlf) t)) [
  | inl e ↦ ground (arith, e, more)
  | inr e ↦ ground (arith, e.1, more)
]
strstr-line (c ∷ s) t line text more =
    let on = strstr-line s t line.1 text.1 more in
    elim (Option-cases (strstr (crlf ++ crlf) t)) [
      | inl e ↦ ground (arith, e, line.0, text.0, on)
      | inr e ↦ ground (arith, e.1, line.0, text.0, on)
    ]

-- The empty line behind a line.
strstr-last :
    (s t : List ℕ)
    → Free 13 s
    → Free 0 s
    → strstr (crlf ++ crlf) (s ++ 13 ∷ 10 ∷ 13 ∷ 10 ∷ t) ≡ some (length s)
unfolding strstr starts_with
strstr-last [] t line text = refl
strstr-last (c ∷ s) t line text = ground (arith, line.0, text.0, strstr-last s t line.1 text.1)

-- The search for the empty line finds the one behind the headers.
pub strstr-print :
    (line : List ℕ) (fs : List Field) (rest : List ℕ)
    → Free 13 line
    → Free 0 line
    → AllFields fs
    → strstr (crlf ++ crlf) (line ++ 13 ∷ 10 ∷ print fs rest) ≡ some (length (head line fs))
strstr-print line [] rest free text all = strstr-last line rest free text
strstr-print line (f ∷ fs) rest free text all =
    let is = all.0 in
    let more = plain_start f (print fs rest) is in
    let on =
      strstr-print (header_text f) fs rest
        (header_text-Free 13 f (omega arith) (omega arith) is.name_line is.value_line)
        (header_text-Free 0 f (omega arith) (omega arith) is.name_text is.value_text) all.1 in
    let size : length line + 2 + length (head (header_text f) fs)
        ≡ length (line ++ 13 ∷ 10 ∷ head (header_text f) fs) =
      omega (arith, length-append line (13 ∷ 10 ∷ head (header_text f) fs)) in
    strstr-line line (print_field f (print fs rest)) free text more
    ∙ rw (print_field-header_text f (print fs rest), on, size)

length-print : (fs : List Field) (rest : List ℕ) → length fs ≤ length (print fs rest)
length-print [] rest = omega arith
length-print (f ∷ fs) rest = omega (
  arith,
  length-append f.name (b':' ∷ (blanks f.gap ++ (f.value ++ 13 ∷ 10 ∷ print fs rest))),
  length-append (blanks f.gap) (f.value ++ 13 ∷ 10 ∷ print fs rest),
  length-append f.value (13 ∷ 10 ∷ print fs rest),
  length-print fs rest,
)

-- On a line, its CR LF, and printed headers within the code's bounds, the loop of `parse_headers`
-- ends at the empty line within its fuel, with the value of the last Host header, in any case of its
-- letters, as it was printed, without the spaces after its colon (the empty text where there is
-- none), and with the offset at which the last Connection header was printed, where there is one.
pub scan_headers-print :
    (line : List ℕ) (fs : List Field) (rest : List ℕ)
    → AllFields fs
    → scan_headers
        (length (line ++ 13 ∷ 10 ∷ print fs rest) + 1)
        (length line + 2)
        (line ++ 13 ∷ 10 ∷ print fs rest)
      ≡ found (host_of fs []) (connection_of fs (length line + 2) none)
unfolding scan_headers
scan_headers-print line fs rest all = rw (drop-append_more line (13 ∷ 10 ∷ print fs rest) 2) (
    header_loop-print (length (line ++ 13 ∷ 10 ∷ print fs rest) + 1) (length line + 2) fs rest []
      none all (omega (arith, length-append line (13 ∷ 10 ∷ print fs rest), length-print fs rest)))
