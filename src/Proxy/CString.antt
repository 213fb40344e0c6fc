-- ===== src/Proxy/CString.antt =====
-- What 3/src/handler.c uses of string.h, on the bytes of an array from a pointer to the array's end.
-- A write past the end is `none`.
pub mod Laws
pub use os_5_sem.Base.{codes}
use mathlib.Core.Option
use os_5_sem.Base.{
  ℕ, zero, suc, ◌+◌, ◌-◌, Bool, true, false, ◌&&◌, ◌||◌, Option, none, some, List, [], ◌∷◌, ◌==◌,
  leb, if◌then◌else◌,
}

abbrev pub crlf : List ℕ
crlf = 13 ∷ 10 ∷ []

-- `strncmp(s, pattern, strlen(pattern)) == 0`
unfoldable pub starts_with : List ℕ → List ℕ → Bool
starts_with [] s = true
starts_with (p ∷ ps) [] = false
starts_with (p ∷ ps) (c ∷ s) = (c == p) && starts_with ps s

-- The offset of the first occurrence before the NUL.
unfoldable pub strstr : List ℕ → List ℕ → Option ℕ
strstr pattern [] = none
strstr pattern (c ∷ s) =
    if starts_with pattern (c ∷ s)
    then some 0
    else if c == 0
    then none
    else Option.map suc (strstr pattern s)

unfoldable pub strchr : ℕ → List ℕ → Option ℕ
strchr b [] = none
strchr b (c ∷ s) = if c == b then some 0 else if c == 0 then none else Option.map suc (strchr b s)

unfoldable pub strlen : List ℕ → ℕ
strlen [] = 0
strlen (c ∷ s) = let rest = strlen s in if c == 0 then 0 else suc rest

abbrev pub to_lower : ℕ → ℕ
to_lower c = if leb 65 c && leb c 90 then c + 32 else c

-- `strcasecmp(s, t) == 0`, for strings without their NUL.
unfoldable pub same_name : List ℕ → List ℕ → Bool
same_name [] [] = true
same_name [] (d ∷ t) = false
same_name (c ∷ s) [] = false
same_name (c ∷ s) (d ∷ t) = (to_lower c == to_lower d) && same_name s t

-- The spaces that a `while (*p == ' ') p++` skips.
unfoldable pub spaces : List ℕ → ℕ
spaces [] = 0
spaces (c ∷ s) = let rest = spaces s in if c == 32 then suc rest else 0

unfoldable pub write_here : List ℕ → List ℕ → Option (List ℕ)
write_here [] buf = some buf
write_here (b ∷ bs) [] = none
write_here (b ∷ bs) (c ∷ buf) = Option.map (λ rest. b ∷ rest) (write_here bs buf)

-- `memcpy(buf + i, bs, n)` for the `n` bytes `bs`.
unfoldable pub write_at : ℕ → List ℕ → List ℕ → Option (List ℕ)
unfolding write_here
write_at zero bs buf = write_here bs buf
write_at (suc i) bs [] = none
write_at (suc i) bs (c ∷ buf) = Option.map (λ rest. c ∷ rest) (write_at i bs buf)
