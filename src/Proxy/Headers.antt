-- ===== src/Proxy/Headers.antt =====
-- `parse_headers` of 3/src/handler.c.
pub mod Host
pub mod Connection
pub mod Print
pub mod RoundTrip
pub mod Rewrite
pub mod Lines
pub mod Replace
pub mod Overwrite
pub mod Tests
use mathlib.Core.Option
use os_5_sem.Base.{
  ℕ, zero, suc, ◌+◌, ◌-◌, ◌%◌, ◌^◌, Bool, true, false, ◌||◌, Option, none, some, List, [], ◌∷◌,
  ◌++◌, ◌==◌, leb, ltb, if◌then◌else◌, take, drop, length,
}
use os_5_sem.Proxy.CString.{
  codes, crlf, starts_with, strstr, strchr, strlen, same_name, spaces, write_at,
}
use os_5_sem.Proxy.Request.{Parsed, accepted, refused, overrun}

abbrev pub h_name_size : ℕ
h_name_size = 256

abbrev pub h_val_size : ℕ
h_val_size = 2048

-- One header, and how far behind it the next one starts.
pub record Header : Type 0 where
  pub name : List ℕ
  pub value : List ℕ
  pub width : ℕ

-- The value, with its start behind the colon and the spaces.
pub scan_value : (name : List ℕ) (val_start : ℕ) → List ℕ → Option Header
scan_value name val_start h = elim (strstr crlf (drop val_start h)) [
  | none ↦ none
  | some n ↦
      if (n == 0) || leb h_val_size n
      then none
      else some
          (record { name = name; value = take n (drop val_start h); width = val_start + n + 2 })
]

pub scan_header : List ℕ → Option Header
unfolding scan_value
scan_header h = elim (strchr b':' h) [
  | none ↦ none
  | some n ↦
      if (n == 0) || leb h_name_size n
      then none
      else scan_value (take n h) (n + 1 + spaces (drop (n + 1) h)) h
]

-- How the loop over the headers ends: at the empty line, with the last host and the offset of the
-- last connection header, or with a return of 1.
pub data Scan : Type 0 where
  found : (host : List ℕ) (connection : Option ℕ) → Scan
  bad : Scan
  out_of_fuel : Scan

-- `off` is the offset of `headers`, and `h` what stands there.
pub header_loop : (fuel off : ℕ) (h host : List ℕ) (connection : Option ℕ) → Scan
header_loop zero off h host connection = out_of_fuel
header_loop (suc k) off h host connection = elim (starts_with crlf h) [
  | true ↦ found host connection
  | false ↦ elim (scan_header h) [
    | none ↦ bad
    | some r ↦
        header_loop k (off + r.width) (drop r.width h)
          (if same_name r.name (codes "host") then r.value else host)
          (if same_name r.name (codes "connection") then some off else connection)
  ]
]

-- `memmove(buf + to, buf + from, strlen(buf + from) + 1)`
unfoldable pub move_string : (to from : ℕ) → List ℕ → Option (List ℕ)
move_string to from buf = let tail = drop from buf in write_at to (take (strlen tail + 1) tail) buf

abbrev pub close : List ℕ
close = codes "close"

-- Writing `close` over a value that starts at `val_start` and ends at `val_end`. The length is a
-- size_t.
pub close_value : (val_start val_end : ℕ) → List ℕ → Option (List ℕ)
unfolding move_string
close_value val_start val_end buf =
    let old_val_len = (val_end + 2 ^ 64 - val_start) % 2 ^ 64 in
    Option.bind (write_at val_start close buf)
      λ b. if ltb 5 old_val_len then move_string (val_start + 5) val_end b else some b

abbrev pub from_write : {A : Type 0} → Option A → Parsed A
from_write none = overrun
from_write (some b) = accepted b

-- The connection header at offset `c` is made to say close.
unfoldable pub set_connection : (c : ℕ) → List ℕ → Parsed (List ℕ)
unfolding close_value
set_connection c buf = elim (strstr crlf (drop c buf)) [
  | none ↦ accepted buf
  | some e ↦ elim (strchr b':' (drop c buf)) [
    | none ↦ accepted buf
    | some n ↦ from_write (close_value (c + (n + 1 + spaces (drop (c + (n + 1)) buf))) (c + e) buf)
  ]
]

abbrev pub connection_line : List ℕ
connection_line = 10 ∷ (codes "Connection: close" ++ crlf)

-- `connection_line` is put in at the offset.
pub insert_line : ℕ → List ℕ → Option (List ℕ)
unfolding move_string
insert_line at buf =
    Option.bind (move_string (at + length connection_line) at buf)
      λ b. write_at at connection_line b

pub add_connection : List ℕ → Parsed (List ℕ)
unfolding insert_line
add_connection buf = elim (strstr (crlf ++ crlf) buf) [
  | none ↦ accepted buf
  | some at ↦ from_write (insert_line at buf)
]

-- The host is handed back beside the buffer.
abbrev pub with_host : List ℕ → Parsed (List ℕ) → Parsed (List ℕ × List ℕ)
with_host host (accepted b) = accepted (b, host)
with_host host refused = refused
with_host host overrun = overrun

pub after_scan : List ℕ → Scan → Parsed (List ℕ × List ℕ)
unfolding set_connection add_connection
after_scan buf (found [] connection) = refused
after_scan buf (found (b ∷ host) none) = with_host (b ∷ host) (add_connection buf)
after_scan buf (found (b ∷ host) (some c)) = with_host (b ∷ host) (set_connection c buf)
after_scan buf bad = refused
after_scan buf out_of_fuel = refused

unfoldable pub scan_headers : (fuel off : ℕ) → List ℕ → Scan
unfolding header_loop scan_header
scan_headers fuel off buf = header_loop fuel off (drop off buf) [] none

unfoldable pub parse_headers : List ℕ → Parsed (List ℕ × List ℕ)
unfolding scan_headers after_scan
parse_headers buf = elim (strstr crlf buf) [
  | none ↦ refused
  | some n ↦ after_scan buf (scan_headers (length buf + 1) (n + 2) buf)
]
