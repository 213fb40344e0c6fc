-- ===== src/Proxy/Headers/Host.antt =====
-- The loop over the headers in 3/src/handler.c, and the host that it finds.
use mathlib.Core.Option
use os_5_sem.Base.{
  ℕ, zero, suc, ◌+◌, ◌-◌, ◌≤◌, ◌<◌, ◌≡◌, refl, Bool, Option, none, some, List, [], ◌∷◌, arith, ap,
  ltb, ◌%◌, ◌^◌, ◌∙◌, ◌++◌, if◌then◌else◌, take, drop, length, Bool-cases, Option-cases, inl, inr,
}
use os_5_sem.Proxy.CString.{codes, crlf, starts_with, strstr, strchr, spaces, same_name, write_at}
use os_5_sem.Proxy.CString.Laws.{length-write_at, strstr-append, take-append}
use os_5_sem.Proxy.Request.{accepted}
use os_5_sem.Proxy.Headers.{
  Header, scan_value, scan_header, Scan, found, bad, out_of_fuel, header_loop, h_val_size,
  scan_headers, after_scan, parse_headers, set_connection, add_connection, close_value, insert_line,
  move_string, close, connection_line,
}

-- A header is two bytes long at least, and its value is not empty and fits its array.
record IsFitting (r : Header) : Type 0 where
  advances : 2 ≤ r.width
  some_value : 0 < length r.value
  short_value : length r.value < h_val_size

length-drop : (n : ℕ) (s : List ℕ) → length (drop n s) ≡ length s - n
length-drop zero s = omega arith
length-drop (suc n) [] = omega arith
length-drop (suc n) (c ∷ s) = omega (arith, length-drop n s)

length-take-strstr : (s : List ℕ) (n : ℕ) → strstr crlf s ≡ some n → length (take n s) ≡ n
length-take-strstr s n e =
    let (pre, post, es, en) = strstr-append crlf s n e in
    rw (es, ← en) (ap length (take-append pre (crlf ++ post)))

scan_value-IsFitting :
    (name : List ℕ) (val_start : ℕ) (h : List ℕ) {r : Header}
    → scan_value name val_start h ≡ some r
    → IsFitting r
unfolding scan_value
scan_value-IsFitting name val_start h {r} e = elim (Option-cases (strstr crlf (drop val_start h))) [
  | inl never ↦ absurd (ground arith)
  | inr at ↦ fitting at.0 at.1
]
  where
    fitting : (n : ℕ) → strstr crlf (drop val_start h) ≡ some n → IsFitting r
    fitting n en = ground (arith, length-take-strstr (drop val_start h) n en)

scan_header-IsFitting : (h : List ℕ) {r : Header} → scan_header h ≡ some r → IsFitting r
unfolding scan_header
scan_header-IsFitting h {r} e = elim (Option-cases (strchr b':' h)) [
  | inl never ↦ absurd (ground arith)
  | inr at ↦ ground (
    arith,
    at.1,
    scan_value-IsFitting (take at.0 h) (at.0 + 1 + spaces (drop (at.0 + 1) h)) h {r = r},
  )
]

scan_header_nonempty : (h : List ℕ) {r : Header} → scan_header h ≡ some r → 0 < length h
unfolding scan_header strchr
scan_header_nonempty [] e = absurd (ground arith)
scan_header_nonempty (c ∷ h) e = omega arith

next_shorter :
    (h : List ℕ) (k : ℕ) {r : Header}
    → scan_header h ≡ some r
    → length h < suc k
    → length (drop r.width h) < k
next_shorter h k {r} e enough =
    omega
      (arith, length-drop r.width h, scan_header_nonempty h e, (scan_header-IsFitting h e).advances)

next_short :
    (b : Bool) (r : Header) (host : List ℕ)
    → IsFitting r
    → length host < h_val_size
    → length (if b then r.value else host) < h_val_size
next_short b r host fit short = ground arith

-- The loop has ended, and a host that it found fits its array.
abbrev pub Ends : Scan → Type 0
Ends (found host connection) = length host < h_val_size
Ends bad = Unit {0}
Ends out_of_fuel = ⊥

header_loop-Ends :
    (fuel off : ℕ) (h host : List ℕ) (connection : Option ℕ)
    → length h < fuel
    → length host < h_val_size
    → Ends (header_loop fuel off h host connection)
unfolding header_loop
header_loop-Ends zero off h host connection enough short = absurd (omega arith)
header_loop-Ends (suc k) off h host connection enough short =
    elim (Bool-cases (starts_with crlf h)) [
      | inl done ↦ rw (done, header_loop) short
      | inr more ↦ elim (Option-cases (scan_header h)) [
        | inl none_left ↦ rw (more, header_loop) (rw none_left tt)
        | inr next ↦
            rw (more, header_loop)
              (rw next.1 (
                header_loop-Ends k (off + next.0.width) (drop next.0.width h)
                  (if same_name next.0.name (codes "host") then next.0.value else host)
                  (if same_name next.0.name (codes "connection") then some off else connection)
                  (next_shorter h k next.1 enough)
                  (next_short (same_name next.0.name (codes "host")) next.0 host
                    (scan_header-IsFitting h next.1) short)))
      ]
    ]

length-drop_le : (n : ℕ) (s : List ℕ) → length (drop n s) ≤ length s
length-drop_le n s = omega (arith, length-drop n s)

-- With a unit of fuel for each byte of the buffer and one more, the loop over the headers ends, from
-- whatever offset it starts, and the host that it finds fits its array with its NUL.
pub scan_headers-Ends : (off : ℕ) (buf : List ℕ) → Ends (scan_headers (length buf + 1) off buf)
unfolding scan_headers
scan_headers-Ends off buf =
    header_loop-Ends (length buf + 1) off (drop off buf) [] none
      (omega (arith, length-drop_le off buf)) (omega arith)

bind-length :
    (o : Option (List ℕ)) (f : List ℕ → Option (List ℕ)) (n : ℕ) {r : List ℕ}
    → ((b : List ℕ) → o ≡ some b → length b ≡ n)
    → ((b t : List ℕ) → f b ≡ some t → length t ≡ length b)
    → Option.bind o f ≡ some r
    → length r ≡ n
unfolding Option.bind
bind-length none f n first rest e = cc
bind-length (some b) f n {r} first rest e = rest b r e ∙ first b refl

length-move_string :
    (to from : ℕ) (b : List ℕ) {r : List ℕ} → move_string to from b ≡ some r → length r ≡ length b
unfolding move_string
length-move_string to from b e = length-write_at to _ b e

length-close_value :
    (val_start val_end : ℕ) (buf : List ℕ) {r : List ℕ}
    → close_value val_start val_end buf ≡ some r
    → length r ≡ length buf
unfolding close_value
length-close_value val_start val_end buf e =
    bind-length (write_at val_start close buf) _ (length buf)
      (λ b eb. length-write_at val_start close buf eb) (λ b t eb. shorter b eb) e
  where
    shorter :
        (b : List ℕ) {t : List ℕ}
        → (if ltb 5 ((val_end + 2 ^ 64 - val_start) % 2 ^ 64)
            then move_string (val_start + 5) val_end b
            else some b)
          ≡ some t
        → length t ≡ length b
    shorter b {t} et = ground (arith, length-move_string (val_start + 5) val_end b {r = t})

length-insert_line :
    (at : ℕ) (buf : List ℕ) {r : List ℕ} → insert_line at buf ≡ some r → length r ≡ length buf
unfolding insert_line
length-insert_line at buf e =
    bind-length (move_string (at + length connection_line) at buf) _ (length buf)
      (λ b eb. length-move_string _ at buf eb) (λ b t eb. length-write_at at connection_line b eb) e

length-set_connection :
    (c : ℕ) (buf : List ℕ) {b : List ℕ} → set_connection c buf ≡ accepted b → length b ≡ length buf
unfolding set_connection
length-set_connection c buf {b} e = elim (Option-cases (strstr crlf (drop c buf))) [
  | inl never ↦ ground arith
  | inr at ↦ elim (Option-cases (strchr b':' (drop c buf))) [
    | inl never ↦ ground arith
    | inr col ↦ ground (
      arith,
      at.1,
      col.1,
      length-close_value (c + (col.0 + 1 + spaces (drop (c + (col.0 + 1)) buf))) (c + at.0) buf
          {r = b},
    )
  ]
]

length-add_connection :
    (buf : List ℕ) {b : List ℕ} → add_connection buf ≡ accepted b → length b ≡ length buf
unfolding add_connection
length-add_connection buf {b} e = elim (Option-cases (strstr (crlf ++ crlf) buf)) [
  | inl never ↦ ground arith
  | inr at ↦ ground (arith, at.1, length-insert_line at.0 buf {r = b})
]

after_scan-fits :
    (buf : List ℕ) (s : Scan) {b host : List ℕ}
    → Ends s
    → after_scan buf s ≡ accepted (b, host)
    → (0 < length host) × (length host < h_val_size) × (length b ≡ length buf)
unfolding after_scan
after_scan-fits buf (found [] connection) ends e = ground arith
after_scan-fits buf (found (x ∷ xs) none) {b} ends e =
    ground (arith, length-add_connection buf {b = b})
after_scan-fits buf (found (x ∷ xs) (some c)) {b} ends e =
    ground (arith, length-set_connection c buf {b = b})
after_scan-fits buf bad ends e = ground arith
after_scan-fits buf out_of_fuel ends e = ground arith

-- When `parse_headers` accepts a request, the host that it stores is not empty and fits its array of
-- 2048 bytes with its NUL, and the buffer has the length that it had.
pub parse_headers-fits :
    (buf : List ℕ) {b host : List ℕ}
    → parse_headers buf ≡ accepted (b, host)
    → (0 < length host) × (length host < h_val_size) × (length b ≡ length buf)
unfolding parse_headers
parse_headers-fits buf {b} {host} e = elim (Option-cases (strstr crlf buf)) [
  | inl never ↦ ground arith
  | inr at ↦ ground (
    arith,
    at.1,
    after_scan-fits buf (scan_headers (length buf + 1) (at.0 + 2) buf) {b = b} {host = host}
        (scan_headers-Ends (at.0 + 2) buf),
  )
]
