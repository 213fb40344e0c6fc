-- ===== src/Proxy/Headers/Replace.antt =====
-- What `parse_headers` of 3/src/handler.c makes of a connection header.
use mathlib.Core.List.{append_assoc}
use os_5_sem.Base.{
  ℕ, zero, suc, ◌+◌, ◌≤◌, ◌≡◌, refl, ap, sym, ◌∙◌, true, none, some, List, [], ◌∷◌, ◌++◌, arith,
  length, length-append, drop,
}
use os_5_sem.Proxy.CString.{codes, crlf, spaces, same_name}
use os_5_sem.Proxy.CString.Laws.{NoNul, drop-append, drop-append_more}
use os_5_sem.Proxy.Request.{accepted}
use os_5_sem.Proxy.Headers.{after_scan, parse_headers, set_connection, close}
use os_5_sem.Proxy.Headers.Print.{
  Field, blanks, print_field, Free, IsField, AllFields, strstr-Free, strchr-Free, host_of,
  connection_of, spaces-blanks, length-blanks,
}
use os_5_sem.Proxy.Headers.RoundTrip.{header_text, print_field-header_text, header_text-Free}
use os_5_sem.Proxy.Headers.Connection.{set_connection-long, ValueAt}
use os_5_sem.Proxy.Headers.Rewrite.{request_text, parse_headers-scan}
use os_5_sem.Proxy.Headers.Lines.{
  lines, print-append, print-lines, NoConnection, connection_of-append, AllFields-append,
  lines-NoNul, NoNul-append,
}

-- The bytes of a header before its value.
abbrev pub lead : Field → List ℕ
lead f = f.name ++ b':' ∷ blanks f.gap

print_field-lead :
    (f : Field) (rest : List ℕ) → print_field f rest ≡ lead f ++ (f.value ++ 13 ∷ 10 ∷ rest)
print_field-lead f rest =
    sym (append_assoc f.name (b':' ∷ blanks f.gap) (f.value ++ 13 ∷ 10 ∷ rest))

-- The header is found behind the bytes before it.
pub header_at :
    (pre : List ℕ) (f : Field) (rest : List ℕ)
    → IsField f
    → ValueAt (length pre) (pre ++ print_field f rest) (pre ++ lead f) (length f.value)
header_at pre f rest is =
    let tail = blanks f.gap ++ (f.value ++ 13 ∷ 10 ∷ rest) in
    let lead_length : length (pre ++ lead f) ≡ length pre + (length f.name + 1 + f.gap) = omega (
      arith,
      length-append pre (lead f),
      length-append f.name (b':' ∷ blanks f.gap),
      length-blanks f.gap,
    ) in
    let behind : drop (length pre + (length f.name + 1)) (pre ++ print_field f rest) ≡ tail =
      drop-append_more pre (print_field f rest) (length f.name + 1)
      ∙ drop-append_more f.name (b':' ∷ tail) 1 in
    let gap : spaces tail ≡ f.gap = spaces-blanks f.gap f.value (13 ∷ 10 ∷ rest) is.value_start in
    record {
      end = length (header_text f);
      colon = length f.name;
      at_end =
          rw (drop-append pre (print_field f rest), print_field-header_text f rest)
            (strstr-Free (header_text f) rest
              (header_text-Free 13 f (omega arith) (omega arith) is.name_line is.value_line)
              (header_text-Free 0 f (omega arith) (omega arith) is.name_text is.value_text));
      at_colon =
          rw (drop-append pre (print_field f rest))
            (strchr-Free b':' f.name tail is.no_colon is.name_text);
      starts = rw (behind, gap) (omega (arith, lead_length));
      ends = omega (
        arith,
        lead_length,
        length-append f.name (b':' ∷ (blanks f.gap ++ f.value)),
        length-append (blanks f.gap) f.value,
        length-blanks f.gap,
      );
    }

pub split_at :
    (n : ℕ) (s : List ℕ)
    → n ≤ length s
    → (a : List ℕ) × (b : List ℕ) × (s ≡ a ++ b) × (length a ≡ n)
split_at zero s h = ([], s, refl, refl)
split_at (suc n) [] h = absurd (omega arith)
split_at (suc n) (c ∷ s) h =
    let (a, b, joined, size) = split_at n s (omega arith) in
    (c ∷ a, b, ap (λ (t : List ℕ). c ∷ t) joined, omega (arith, size))

-- The header with the value `close`.
abbrev pub closed : Field → Field
closed f = record { name = f.name; gap = f.gap; value = close }

-- The text before a header's value and the text behind it.
pub around :
    (line : List ℕ) (before : List Field) (f : Field) (after : List Field) (junk : List ℕ)
    → request_text line (before ++ f ∷ after) junk
      ≡ (line ++ 13 ∷ 10 ∷ lines before) ++ print_field f ((lines after ++ crlf) ++ 0 ∷ junk)
around line before f after junk =
    ap (λ (t : List ℕ). line ++ 13 ∷ 10 ∷ t)
      (print-append before (f ∷ after) (0 ∷ junk)
        ∙ ap (λ (t : List ℕ). lines before ++ print_field f t)
            (print-lines after (0 ∷ junk) ∙ sym (append_assoc (lines after) crlf (0 ∷ junk))))
    ∙ sym (
        append_assoc line (13 ∷ 10 ∷ lines before)
          (print_field f ((lines after ++ crlf) ++ 0 ∷ junk)))

pub around_value :
    (pre : List ℕ) (f : Field) (rest : List ℕ)
    → pre ++ print_field f rest ≡ (pre ++ lead f) ++ (f.value ++ 13 ∷ 10 ∷ rest)
around_value pre f rest =
    ap (λ (t : List ℕ). pre ++ t) (print_field-lead f rest)
    ∙ sym (append_assoc pre (lead f) (f.value ++ 13 ∷ 10 ∷ rest))

-- The connection header in the buffer is made to say close.
set_connection-closed :
    (pre : List ℕ) (f : Field) (rest junk : List ℕ)
    → IsField f
    → NoNul rest
    → 5 ≤ length f.value
    → (junk' : List ℕ) × (set_connection (length pre) (pre ++ print_field f (rest ++ 0 ∷ junk))
        ≡ accepted (pre ++ print_field (closed f) (rest ++ 0 ∷ junk')))
set_connection-closed pre f rest junk is text long =
    let (a, b, joined, five) = split_at 5 f.value long in
    let size : length f.value ≡ 5 + length b =
      ap (λ (t : List ℕ). length t) joined ∙ omega (arith, length-append a b, five) in
    let buf = pre ++ print_field f (rest ++ 0 ∷ junk) in
    let same : buf ≡ (pre ++ lead f) ++ (a ++ (b ++ ((13 ∷ 10 ∷ rest) ++ 0 ∷ junk))) =
      around_value pre f (rest ++ 0 ∷ junk)
      ∙ ap (λ (t : List ℕ). (pre ++ lead f) ++ t)
          (ap (λ (t : List ℕ). t ++ ((13 ∷ 10 ∷ rest) ++ 0 ∷ junk)) joined
            ∙ append_assoc a b ((13 ∷ 10 ∷ rest) ++ 0 ∷ junk)) in
    let at : ValueAt (length pre) ((pre ++ lead f) ++ (a ++ (b ++ ((13 ∷ 10 ∷ rest) ++ 0 ∷ junk))))
        (pre ++ lead f) (5 + length b) =
      rw (← same, ← size) (header_at pre f (rest ++ 0 ∷ junk) is) in
    let (junk', written) =
      set_connection-long (length pre) (pre ++ lead f) a b (13 ∷ 10 ∷ rest) junk
        (omega arith, (omega arith, text)) five (omega (arith, size, is.short_value)) at in
    (
      junk',
      ap (λ (t : List ℕ). set_connection (length pre) t) same
          ∙ (written
              ∙ ap (λ (t : List ℕ). accepted t)
                  (sym (around_value pre (closed f) (rest ++ 0 ∷ junk')))),
    )

-- A request of a line and printed headers within the code's bounds that give a host, whose last
-- Connection header `f` has a value of five bytes or more: it is accepted with that host, and its
-- text is the same request with the value `close` in that header; only bytes behind the NUL may
-- differ otherwise.
pub parse_headers-closed :
    (line : List ℕ) (before : List Field) (f : Field) (after : List Field) (junk : List ℕ) (b : ℕ)
    (host : List ℕ)
    → Free 13 line
    → Free 0 line
    → AllFields (before ++ f ∷ after)
    → host_of (before ++ f ∷ after) [] ≡ b ∷ host
    → same_name f.name (codes "connection") ≡ true
    → NoConnection after
    → 5 ≤ length f.value
    → (junk' : List ℕ) × (parse_headers (request_text line (before ++ f ∷ after) junk)
        ≡ accepted (request_text line (before ++ closed f ∷ after) junk', b ∷ host))
unfolding after_scan
parse_headers-closed line before f after junk b host free text all has_host named last long =
    let pre = line ++ 13 ∷ 10 ∷ lines before in
    let (is, others) = AllFields-append before f after all in
    let size : length line + 2 + length (lines before) ≡ length pre =
      omega (arith, length-append line (13 ∷ 10 ∷ lines before)) in
    let found_at : connection_of (before ++ f ∷ after) (length line + 2) none ≡ some (length pre) =
      connection_of-append before after f (length line + 2) none named last
      ∙ ap (λ (t : ℕ). some t) size in
    let ends : NoNul (lines after ++ crlf) =
      NoNul-append (lines after) crlf (lines-NoNul after others) (omega arith, (omega arith, tt)) in
    let (junk', written) = set_connection-closed pre f (lines after ++ crlf) junk is ends long in
    (
      junk',
      parse_headers-scan line (before ++ f ∷ after) junk free text all
          ∙ rw (has_host, found_at)
              (rw (around line before f after junk, around line before (closed f) after junk')
                (rw written refl)),
    )
