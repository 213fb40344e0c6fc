-- ===== src/Proxy/Headers/Print.antt =====
-- Header lines as text, and what `parse_headers` of 3/src/handler.c reads in them.
use os_5_sem.Base.{
  ℕ, zero, suc, ◌+◌, ◌<◌, ◌≡◌, ◌≢◌, refl, false, ◌||◌, Option, some, List, [], ◌∷◌, ◌++◌, ◌==◌,
  arith, leb, if◌then◌else◌, take, drop, length,
}
use os_5_sem.Proxy.CString.{codes, crlf, starts_with, strstr, strchr, spaces, same_name}
use os_5_sem.Proxy.CString.Laws.{take-append, drop-append_more}
use os_5_sem.Proxy.Headers.{h_name_size, h_val_size, scan_value, scan_header, found, header_loop}

-- A header: its name, the spaces behind the colon, and its value.
pub record Field : Type 0 where
  pub name : List ℕ
  pub gap : ℕ
  pub value : List ℕ

abbrev pub blanks : ℕ → List ℕ
blanks zero = []
blanks (suc k) = 32 ∷ blanks k

-- The line of a header, and what follows it.
abbrev pub print_field : Field → List ℕ → List ℕ
print_field f rest = f.name ++ b':' ∷ (blanks f.gap ++ (f.value ++ 13 ∷ 10 ∷ rest))

-- The lines, the empty line and what follows it.
abbrev pub print : List Field → List ℕ → List ℕ
print [] rest = 13 ∷ 10 ∷ rest
print (f ∷ fs) rest = print_field f (print fs rest)

-- The byte does not stand in the text.
abbrev pub Free : ℕ → List ℕ → Type 0
Free b [] = Unit {0}
Free b (c ∷ s) = (c ≢ b) × Free b s

abbrev pub StartsPlain : List ℕ → Type 0
StartsPlain [] = ⊥
StartsPlain (c ∷ s) = c ≢ 32

-- A header within the bounds of the code, without a NUL or a CR, with no colon in its name.
pub record IsField (f : Field) : Type 0 where
  pub some_name : 0 < length f.name
  pub short_name : length f.name < h_name_size
  pub no_colon : Free b':' f.name
  pub name_text : Free 0 f.name
  pub name_line : Free 13 f.name
  pub short_value : length f.value < h_val_size
  pub value_text : Free 0 f.value
  pub value_line : Free 13 f.value
  pub value_start : StartsPlain f.value

abbrev pub AllFields : List Field → Type 0
AllFields [] = Unit {0}
AllFields (f ∷ fs) = IsField f × AllFields fs

pub strchr-Free :
    (b : ℕ) (s rest : List ℕ) → Free b s → Free 0 s → strchr b (s ++ b ∷ rest) ≡ some (length s)
unfolding strchr
strchr-Free b [] rest h z = ground arith
strchr-Free b (c ∷ s) rest h z = ground (arith, h.0, z.0, strchr-Free b s rest h.1 z.1)

pub strstr-Free :
    (s rest : List ℕ) → Free 13 s → Free 0 s → strstr crlf (s ++ 13 ∷ 10 ∷ rest) ≡ some (length s)
unfolding strstr starts_with
strstr-Free [] rest h z = refl
strstr-Free (c ∷ s) rest h z = ground (arith, h.0, z.0, strstr-Free s rest h.1 z.1)

pub spaces-blanks : (k : ℕ) (s rest : List ℕ) → StartsPlain s → spaces (blanks k ++ (s ++ rest)) ≡ k
unfolding spaces
spaces-blanks zero [] rest h = absurd h
spaces-blanks zero (c ∷ s) rest h = ground (arith, h)
spaces-blanks (suc k) s rest h = ground (arith, spaces-blanks k s rest h)

pub length-blanks : (k : ℕ) → length (blanks k) ≡ k
length-blanks zero = refl
length-blanks (suc k) = omega (arith, length-blanks k)

-- The part of a line before the value has `length name + 1 + gap` bytes.
pub drop_head :
    (f : Field) (t : List ℕ) (k : ℕ)
    → drop (length f.name + 1 + f.gap + k) (f.name ++ b':' ∷ (blanks f.gap ++ t)) ≡ drop k t
drop_head f t k =
    let e : length f.name + 1 + f.gap + k ≡ length f.name + suc (f.gap + k) = omega arith in
    let g : f.gap + k ≡ length (blanks f.gap) + k = omega (arith, length-blanks f.gap) in
    rw (e, drop-append_more f.name (b':' ∷ (blanks f.gap ++ t)) (suc (f.gap + k)), g)
      (drop-append_more (blanks f.gap) t k)

-- The value of a line.
scan_value-Free :
    (name : List ℕ) (at : ℕ) (h value rest : List ℕ)
    → drop at h ≡ value ++ 13 ∷ 10 ∷ rest
    → Free 13 value
    → Free 0 value
    → 0 < length value
    → length value < h_val_size
    → scan_value name at h
      ≡ some (record { name = name; value = value; width = at + length value + 2 })
unfolding scan_value
scan_value-Free name at h value rest e line text some_value short =
    let found_end : strstr crlf (drop at h) ≡ some (length value) =
      rw e (strstr-Free value rest line text) in
    let taken : take (length value) (drop at h) ≡ value =
      rw e (take-append value (13 ∷ 10 ∷ rest)) in
    ground (arith, found_end, taken)

StartsPlain-pos : (s : List ℕ) → StartsPlain s → 0 < length s
StartsPlain-pos [] h = absurd h
StartsPlain-pos (c ∷ s) h = omega arith

scan_header-print_field :
    (f : Field) (rest : List ℕ)
    → IsField f
    → scan_header (print_field f rest)
      ≡ some (record {
        name = f.name;
        value = f.value;
        width = length f.name + 1 + f.gap + length f.value + 2;
      })
unfolding scan_header
scan_header-print_field f rest is =
    let tail = blanks f.gap ++ (f.value ++ 13 ∷ 10 ∷ rest) in
    let h = print_field f rest in
    let colon : strchr b':' h ≡ some (length f.name) =
      strchr-Free b':' f.name tail is.no_colon is.name_text in
    let behind : drop (length f.name + 1) h ≡ tail = drop-append_more f.name (b':' ∷ tail) 1 in
    let gap : spaces tail ≡ f.gap = spaces-blanks f.gap f.value (13 ∷ 10 ∷ rest) is.value_start in
    let start : length f.name + 1 + f.gap ≡ length f.name + 1 + f.gap + 0 = omega arith in
    let at_value : drop (length f.name + 1 + f.gap) h ≡ f.value ++ 13 ∷ 10 ∷ rest =
      rw start (drop_head f (f.value ++ 13 ∷ 10 ∷ rest) 0) in
    let name : take (length f.name) h ≡ f.name = take-append f.name (b':' ∷ tail) in
    let value =
      scan_value-Free f.name (length f.name + 1 + f.gap) h f.value rest at_value is.value_line
        is.value_text (StartsPlain-pos f.value is.value_start) is.short_value in
    let test : ((length f.name == 0) || leb h_name_size (length f.name)) ≡ false =
      ground (arith, is.some_name, is.short_name) in
    rw (colon, scan_header) (rw test (rw (name, behind, gap) value))

drop-print_field :
    (f : Field) (rest : List ℕ)
    → drop (length f.name + 1 + f.gap + length f.value + 2) (print_field f rest) ≡ rest
drop-print_field f rest =
    let e : length f.name + 1 + f.gap + length f.value + 2
        ≡ length f.name + 1 + f.gap + (length f.value + 2) =
      omega arith in
    rw (e, drop_head f (f.value ++ 13 ∷ 10 ∷ rest) (length f.value + 2))
      (drop-append_more f.value (13 ∷ 10 ∷ rest) 2)

-- The last value of a header with the name, in any case of its letters.
abbrev pub host_of : List Field → List ℕ → List ℕ
host_of [] host = host
host_of (f ∷ fs) host = host_of fs (if same_name f.name (codes "host") then f.value else host)

-- The width of a header's line.
abbrev pub width : Field → ℕ
width f = length f.name + 1 + f.gap + length f.value + 2

-- Where the last connection header starts, if the headers start at `off`.
abbrev pub connection_of : List Field → (off : ℕ) → Option ℕ → Option ℕ
connection_of [] off c = c
connection_of (f ∷ fs) off c =
    connection_of fs (off + width f) (if same_name f.name (codes "connection") then some off else c)

pub plain_start :
    (f : Field) (rest : List ℕ) → IsField f → starts_with crlf (print_field f rest) ≡ false
unfolding starts_with
plain_start f rest is =
    by_name f.name is.some_name is.name_line (b':' ∷ (blanks f.gap ++ (f.value ++ 13 ∷ 10 ∷ rest)))
  where
    by_name :
        (s : List ℕ) → 0 < length s → Free 13 s → (t : List ℕ) → starts_with crlf (s ++ t) ≡ false
    by_name [] some_name line t = absurd (omega arith)
    by_name (c ∷ s) some_name line t = ground (arith, line.0)

pub header_loop-print :
    (fuel off : ℕ) (fs : List Field) (rest host : List ℕ) (c : Option ℕ)
    → AllFields fs
    → length fs < fuel
    → header_loop fuel off (print fs rest) host c ≡ found (host_of fs host) (connection_of fs off c)
unfolding header_loop
header_loop-print zero off fs rest host c all enough = absurd (omega arith)
header_loop-print (suc k) off [] rest host c all enough = unfold starts_with in refl
header_loop-print (suc k) off (f ∷ fs) rest host c all enough =
    let more = plain_start f (print fs rest) all.0 in
    let read = scan_header-print_field f (print fs rest) all.0 in
    let on =
      header_loop-print k (off + width f) fs rest
        (if same_name f.name (codes "host") then f.value else host)
        (if same_name f.name (codes "connection") then some off else c) all.1 (omega arith) in
    rw (more, header_loop) (rw read (rw (drop-print_field f (print fs rest)) on))
