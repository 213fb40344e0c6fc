-- ===== src/Proxy/Headers/Overwrite.antt =====
-- What `parse_headers` of 3/src/handler.c makes of a connection header whose value is shorter than `close`.
use mathlib.Core.List.{append_assoc}
use os_5_sem.Base.{
  ℕ, ◌+◌, ◌-◌, ◌≤◌, ◌<◌, ◌≡◌, ap, sym, ◌∙◌, refl, true, none, some, List, [], ◌∷◌, ◌++◌, arith,
  length, length-append, drop,
}
use os_5_sem.Proxy.CString.{codes, crlf, same_name}
use os_5_sem.Proxy.CString.Laws.{drop-append}
use os_5_sem.Proxy.Request.{accepted}
use os_5_sem.Proxy.Headers.{after_scan, parse_headers, set_connection, close}
use os_5_sem.Proxy.Headers.Print.{
  Field, print_field, Free, IsField, AllFields, host_of, connection_of,
}
use os_5_sem.Proxy.Headers.Connection.{set_connection-short, ValueAt}
use os_5_sem.Proxy.Headers.Rewrite.{request_text, parse_headers-scan}
use os_5_sem.Proxy.Headers.Lines.{lines, NoConnection, connection_of-append, AllFields-append}
use os_5_sem.Proxy.Headers.Replace.{lead, header_at, split_at, around, around_value}

-- The buffer `pre` and the text of the header `f`, with `close` over the five bytes from its value on.
abbrev pub overwritten : (pre : List ℕ) → Field → (rest : List ℕ) → List ℕ
overwritten pre f rest = (pre ++ lead f) ++ (close ++ drop 5 (f.value ++ 13 ∷ 10 ∷ rest))

drop_five :
    (val lost rest : List ℕ) → length val + length lost ≡ 5 → drop 5 (val ++ (lost ++ rest)) ≡ rest
drop_five val lost rest five =
    let both : 5 ≡ length (val ++ lost) = omega (arith, five, length-append val lost) in
    ap (λ (t : List ℕ). drop 5 t) (sym (append_assoc val lost rest))
    ∙ (ap (λ (n : ℕ). drop n ((val ++ lost) ++ rest)) both ∙ drop-append (val ++ lost) rest)

set_connection-overwritten :
    (pre : List ℕ) (f : Field) (rest : List ℕ)
    → IsField f
    → length f.value < 5
    → 3 ≤ length rest
    → set_connection (length pre) (pre ++ print_field f rest) ≡ accepted (overwritten pre f rest)
set_connection-overwritten pre f rest is short enough =
    let (lost, kept, joined, size) =
      split_at (5 - length f.value) (13 ∷ 10 ∷ rest) (omega (arith, enough, short)) in
    let five : length f.value + length lost ≡ 5 = omega (arith, size, short) in
    let same : pre ++ print_field f rest ≡ (pre ++ lead f) ++ (f.value ++ (lost ++ kept)) =
      around_value pre f rest ∙ ap (λ (t : List ℕ). (pre ++ lead f) ++ (f.value ++ t)) joined in
    let at : ValueAt (length pre) ((pre ++ lead f) ++ (f.value ++ (lost ++ kept))) (pre ++ lead f)
        (length f.value) =
      rw (← same) (header_at pre f rest is) in
    let left : kept ≡ drop 5 (f.value ++ 13 ∷ 10 ∷ rest) =
      sym (ap (λ (t : List ℕ). drop 5 (f.value ++ t)) joined ∙ drop_five f.value lost kept five) in
    ap (λ (t : List ℕ). set_connection (length pre) t) same
    ∙ (set_connection-short (length pre) (pre ++ lead f) f.value lost kept five at
        ∙ ap (λ (t : List ℕ). accepted ((pre ++ lead f) ++ (close ++ t))) left)

-- A request of a line and printed headers within the code's bounds that give a host, whose last
-- Connection header has a value of fewer than five bytes: it is accepted with that host, and `close` is
-- written over the five bytes from the start of that value, whatever stands behind it. So the CR that ends
-- the header is lost, and the further bytes up to the fifth; no other byte changes or moves.
pub parse_headers-overwritten :
    (line : List ℕ) (before : List Field) (f : Field) (after : List Field) (junk : List ℕ) (b : ℕ)
    (host : List ℕ)
    → Free 13 line
    → Free 0 line
    → AllFields (before ++ f ∷ after)
    → host_of (before ++ f ∷ after) [] ≡ b ∷ host
    → same_name f.name (codes "connection") ≡ true
    → NoConnection after
    → length f.value < 5
    → parse_headers (request_text line (before ++ f ∷ after) junk)
      ≡ accepted (
        overwritten (line ++ 13 ∷ 10 ∷ lines before) f ((lines after ++ crlf) ++ 0 ∷ junk),
        b ∷ host,
      )
unfolding after_scan
parse_headers-overwritten line before f after junk b host free text all has_host named last short =
    let pre = line ++ 13 ∷ 10 ∷ lines before in
    let rest = (lines after ++ crlf) ++ 0 ∷ junk in
    let (is, others) = AllFields-append before f after all in
    let size : length line + 2 + length (lines before) ≡ length pre =
      omega (arith, length-append line (13 ∷ 10 ∷ lines before)) in
    let found_at : connection_of (before ++ f ∷ after) (length line + 2) none ≡ some (length pre) =
      connection_of-append before after f (length line + 2) none named last
      ∙ ap (λ (t : ℕ). some t) size in
    let enough : 3 ≤ length rest =
      omega
        (arith, length-append (lines after ++ crlf) (0 ∷ junk), length-append (lines after) crlf) in
    let written = set_connection-overwritten pre f rest is short enough in
    parse_headers-scan line (before ++ f ∷ after) junk free text all
    ∙ rw (has_host, found_at) (rw (around line before f after junk) (rw written refl))
