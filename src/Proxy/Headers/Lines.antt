-- ===== src/Proxy/Headers/Lines.antt =====
-- The lines of several headers, for `parse_headers` of 3/src/handler.c.
use mathlib.Core.List.{append_assoc}
use os_5_sem.Base.{
  ℕ, ◌+◌, ◌≡◌, refl, ap, sym, ◌∙◌, true, false, some, List, [], ◌∷◌, ◌++◌, arith, length,
  length-append, if◌then◌else◌, Option,
}
use os_5_sem.Proxy.CString.{codes, same_name}
use os_5_sem.Proxy.CString.Laws.{NoNul}
use os_5_sem.Proxy.Headers.Print.{
  Field, blanks, print_field, print, Free, IsField, AllFields, connection_of, width, length-blanks,
}
use os_5_sem.Proxy.Headers.RoundTrip.{header_text, print_field-header_text, header_text-Free}

-- The lines without what follows them.
abbrev pub lines : List Field → List ℕ
lines [] = []
lines (f ∷ fs) = print_field f (lines fs)

print_field-append : (f : Field) (s t : List ℕ) → print_field f s ++ t ≡ print_field f (s ++ t)
print_field-append f s t = rw (
  append_assoc f.name (b':' ∷ (blanks f.gap ++ (f.value ++ 13 ∷ 10 ∷ s))) t,
  append_assoc (blanks f.gap) (f.value ++ 13 ∷ 10 ∷ s) t,
  append_assoc f.value (13 ∷ 10 ∷ s) t,
)

pub print-append :
    (before after : List Field) (rest : List ℕ)
    → print (before ++ after) rest ≡ lines before ++ print after rest
print-append [] after rest = refl
print-append (f ∷ fs) after rest =
    ap (λ (t : List ℕ). print_field f t) (print-append fs after rest)
    ∙ sym (print_field-append f (lines fs) (print after rest))

pub print-lines : (fs : List Field) (rest : List ℕ) → print fs rest ≡ lines fs ++ 13 ∷ 10 ∷ rest
print-lines [] rest = refl
print-lines (f ∷ fs) rest =
    ap (λ (t : List ℕ). print_field f t) (print-lines fs rest)
    ∙ sym (print_field-append f (lines fs) (13 ∷ 10 ∷ rest))

pub length-print_field : (f : Field) (t : List ℕ) → length (print_field f t) ≡ width f + length t
length-print_field f t = omega (
  arith,
  length-append f.name (b':' ∷ (blanks f.gap ++ (f.value ++ 13 ∷ 10 ∷ t))),
  length-append (blanks f.gap) (f.value ++ 13 ∷ 10 ∷ t),
  length-append f.value (13 ∷ 10 ∷ t),
  length-blanks f.gap,
)

-- No header has the name.
abbrev pub NoConnection : List Field → Type 0
NoConnection [] = Unit {0}
NoConnection (f ∷ fs) = (same_name f.name (codes "connection") ≡ false) × NoConnection fs

pub connection_of-NoConnection :
    (fs : List Field) (off : ℕ) (c : Option ℕ) → NoConnection fs → connection_of fs off c ≡ c
connection_of-NoConnection [] off c none_there = refl
connection_of-NoConnection (f ∷ fs) off c none_there =
    rw (none_there.0) (connection_of-NoConnection fs (off + width f) c none_there.1)

pub connection_of-append :
    (before after : List Field) (f : Field) (off : ℕ) (c : Option ℕ)
    → same_name f.name (codes "connection") ≡ true
    → NoConnection after
    → connection_of (before ++ f ∷ after) off c ≡ some (off + length (lines before))
connection_of-append [] after f off c named last =
    let e : off + 0 ≡ off = omega arith in
    connection_of-NoConnection after (off + width f)
      (if same_name f.name (codes "connection") then some off else c) last
    ∙ rw (named, e) refl
connection_of-append (g ∷ before) after f off c named last =
    let e : off + length (print_field g (lines before)) ≡ off + width g + length (lines before) =
      omega (arith, length-print_field g (lines before)) in
    rw e (
      connection_of-append before after f (off + width g)
        (if same_name g.name (codes "connection") then some off else c) named last)

pub AllFields-append :
    (before : List Field) (f : Field) (after : List Field)
    → AllFields (before ++ f ∷ after)
    → IsField f × AllFields after
AllFields-append [] f after all = all
AllFields-append (g ∷ before) f after all = AllFields-append before f after all.1

pub NoNul-append : (s t : List ℕ) → NoNul s → NoNul t → NoNul (s ++ t)
NoNul-append [] t h k = k
NoNul-append (c ∷ s) t h k = (h.0, NoNul-append s t h.1 k)

Free-NoNul : (s : List ℕ) → Free 0 s → NoNul s
Free-NoNul [] h = tt
Free-NoNul (c ∷ s) h = (h.0, Free-NoNul s h.1)

pub lines-NoNul : (fs : List Field) → AllFields fs → NoNul (lines fs)
lines-NoNul [] all = tt
lines-NoNul (f ∷ fs) all =
    let is = all.0 in
    rw (print_field-header_text f (lines fs)) (
      NoNul-append (header_text f) (13 ∷ 10 ∷ lines fs)
        (Free-NoNul (header_text f)
          (header_text-Free 0 f (omega arith) (omega arith) is.name_text is.value_text))
        (omega arith, (omega arith, lines-NoNul fs all.1)))
