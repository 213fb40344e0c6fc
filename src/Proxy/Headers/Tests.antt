-- ===== src/Proxy/Headers/Tests.antt =====
-- Printed requests through `parse_headers`.
use os_5_sem.Base.{ℕ, ◌≤◌, ◌<◌, ◌≡◌, refl, List, [], ◌∷◌, ◌++◌, arith}
use os_5_sem.Proxy.CString.{codes, crlf, same_name}
use os_5_sem.Proxy.Request.{accepted, refused, overrun}
use os_5_sem.Proxy.Headers.{parse_headers, connection_line}
use os_5_sem.Proxy.Headers.Print.{Field, Free, IsField, AllFields, host_of}
use os_5_sem.Proxy.Headers.RoundTrip.{head}
use os_5_sem.Proxy.Headers.Rewrite.{request_text, parse_headers-insert}
use os_5_sem.Proxy.Headers.Lines.{lines}
use os_5_sem.Proxy.Headers.Overwrite.{overwritten, parse_headers-overwritten}
use os_5_sem.Proxy.Headers.Replace.{closed, parse_headers-closed}

abbrev line : List ℕ
line = codes "GET / HTTP/1.1"

line-Free : Free 13 line
line-Free = omega arith

line-text : Free 0 line
line-text = omega arith

abbrev pub host_field : Field
host_field = record { name = codes "HOST"; gap = 2; value = codes "a:81" }

abbrev pub keep_field : Field
keep_field = record { name = codes "Connection"; gap = 1; value = codes "keep-alive" }

abbrev other_field : Field
other_field = record { name = codes "X"; gap = 0; value = codes "y" }

pub host_field-IsField : IsField host_field
host_field-IsField = record {
  some_name = omega arith;
  short_name = omega arith;
  no_colon = omega arith;
  name_text = omega arith;
  name_line = omega arith;
  short_value = omega arith;
  value_text = omega arith;
  value_line = omega arith;
  value_start = omega arith;
}

pub keep_field-IsField : IsField keep_field
keep_field-IsField = record {
  some_name = omega arith;
  short_name = omega arith;
  no_colon = omega arith;
  name_text = omega arith;
  name_line = omega arith;
  short_value = omega arith;
  value_text = omega arith;
  value_line = omega arith;
  value_start = omega arith;
}

other_field-IsField : IsField other_field
other_field-IsField = record {
  some_name = omega arith;
  short_name = omega arith;
  no_colon = omega arith;
  name_text = omega arith;
  name_line = omega arith;
  short_value = omega arith;
  value_text = omega arith;
  value_line = omega arith;
  value_start = omega arith;
}

abbrev fields : List Field
fields = host_field ∷ keep_field ∷ other_field ∷ []

fields-AllFields : AllFields fields
fields-AllFields = (host_field-IsField, (keep_field-IsField, (other_field-IsField, tt)))

abbrev room : List ℕ
room = codes "twenty bytes of room"

parse_headers-insert_example :
    (host_of (host_field ∷ []) [] ≡ []
      → parse_headers (request_text line (host_field ∷ []) room) ≡ refused)
    × ((b : ℕ) (host : List ℕ)
        → host_of (host_field ∷ []) [] ≡ b ∷ host
        → 20 ≤ 20
        → (junk' : List ℕ) × (parse_headers (request_text line (host_field ∷ []) room)
            ≡ accepted (
              head line (host_field ∷ []) ++ (connection_line ++ ((crlf ++ crlf) ++ 0 ∷ junk')),
              b ∷ host,
            )))
    × ((b : ℕ) (host : List ℕ)
        → host_of (host_field ∷ []) [] ≡ b ∷ host
        → 20 < 20
        → parse_headers (request_text line (host_field ∷ []) room) ≡ overrun)
unfolding same_name
parse_headers-insert_example =
    parse_headers-insert line (host_field ∷ []) room line-Free line-text (host_field-IsField, tt)
      (refl, tt)

parse_headers-closed_example :
    (junk' : List ℕ) × (parse_headers (request_text line fields [])
      ≡ accepted (
        request_text line (host_field ∷ closed keep_field ∷ other_field ∷ []) junk',
        codes "a:81",
      ))
unfolding same_name
parse_headers-closed_example =
    parse_headers-closed line (host_field ∷ []) keep_field (other_field ∷ []) [] b'a' (codes ":81")
      line-Free line-text fields-AllFields refl refl (refl, tt) (omega arith)

-- A value of two bytes: `close` covers it, the CR LF and the first byte of the next header.
abbrev short_field : Field
short_field = record { name = codes "Connection"; gap = 1; value = codes "TE" }

short_field-IsField : IsField short_field
short_field-IsField = record {
  some_name = omega arith;
  short_name = omega arith;
  no_colon = omega arith;
  name_text = omega arith;
  name_line = omega arith;
  short_value = omega arith;
  value_text = omega arith;
  value_line = omega arith;
  value_start = omega arith;
}

parse_headers-overwritten_example :
    parse_headers (request_text line (host_field ∷ short_field ∷ other_field ∷ []) [])
    ≡ accepted (
      overwritten
          (line ++ 13 ∷ 10 ∷ lines (host_field ∷ []))
          short_field
          ((lines (other_field ∷ []) ++ crlf) ++ 0 ∷ []),
      codes "a:81",
    )
unfolding same_name
parse_headers-overwritten_example =
    parse_headers-overwritten line (host_field ∷ []) short_field (other_field ∷ []) [] b'a'
      (codes ":81") line-Free line-text
      (host_field-IsField, (short_field-IsField, (other_field-IsField, tt))) refl refl (refl, tt)
      (omega arith)
