-- ===== src/Proxy/Client/Printed.antt =====
-- What `handle_client` of 3/src/handler.c sends for a printed request.
use mathlib.Core.List.{append_assoc}
use os_5_sem.Base.{
  ℕ, zero, suc, ◌+◌, ◌-◌, ◌≤◌, ◌≡◌, sym, ◌∙◌, ap, refl, some, List, [], ◌∷◌, ◌++◌, arith, length,
  length-append, take, drop,
}
use os_5_sem.Proxy.CString.{codes, crlf, strstr, strchr, starts_with}
use os_5_sem.Proxy.CString.Laws.{NoNul, take-append, drop-append, drop-append_more}
use os_5_sem.Proxy.Request.{http_1_1}
use os_5_sem.Proxy.Request.Print.{Plain, before_version}
use os_5_sem.Proxy.Headers.{move_string}
use os_5_sem.Proxy.Headers.Print.{Field, print, Free, AllFields, strchr-Free}
use os_5_sem.Proxy.Headers.Lines.{lines, print-lines, length-print_field, NoNul-append, lines-NoNul}
use os_5_sem.Proxy.Headers.Replace.{closed}
use os_5_sem.Proxy.Headers.Connection.{take_string, write_at_split}
use os_5_sem.Proxy.Client.{strip_host}

abbrev pub url_of : (authority path : List ℕ) → List ℕ
url_of authority path = codes "http://" ++ (authority ++ b'/' ∷ path)

-- Moving a text down over the bytes `gone`.
move_down :
    (pre gone s junk : List ℕ)
    → NoNul s
    → (junk' : List ℕ) × (move_string
          (length pre)
          (length pre + length gone)
          (pre ++ (gone ++ (s ++ 0 ∷ junk)))
        ≡ some (pre ++ (s ++ 0 ∷ junk')))
unfolding move_string
move_down pre gone s junk text =
    let tail = s ++ 0 ∷ junk in
    let buf = pre ++ (gone ++ tail) in
    let moved = s ++ 0 ∷ [] in
    let behind : drop (length pre + length gone) buf ≡ tail =
      drop-append_more pre (gone ++ tail) (length gone) ∙ drop-append gone tail in
    let fits : length pre + length moved ≤ length buf = omega (
      arith,
      length-append pre (gone ++ tail),
      length-append gone tail,
      length-append s (0 ∷ junk),
      length-append s (0 ∷ []),
    ) in
    let rest = drop (length pre + length moved) buf in
    (
      rest,
      rw (behind, take_string s junk text)
          (rw (write_at_split (length pre) moved buf fits, take-append pre (gone ++ tail))
            (ap (λ (t : List ℕ). some (pre ++ t)) (append_assoc s (0 ∷ []) rest))),
    )

-- The host of the request line is taken out.
pub strip_host-url :
    (authority path s junk : List ℕ)
    → Free b'/' authority
    → Free 0 authority
    → NoNul (b'/' ∷ path)
    → NoNul s
    → (junk' : List ℕ) × (strip_host (codes "GET " ++ (url_of authority path ++ (s ++ 0 ∷ junk)))
        ≡ some (codes "GET " ++ ((b'/' ∷ path) ++ (s ++ 0 ∷ junk'))))
unfolding strip_host strstr starts_with
strip_host-url authority path s junk slash text p_text s_text =
    let all = (b'/' ∷ path) ++ s in
    let gone = codes "http://" ++ authority in
    let rest = s ++ 0 ∷ junk in
    let front = append_assoc authority (b'/' ∷ path) rest in
    let at : strchr b'/' ((authority ++ b'/' ∷ path) ++ rest) ≡ some (length authority) =
      rw front (strchr-Free b'/' authority (path ++ rest) slash text) in
    let same : url_of authority path ++ rest ≡ gone ++ (all ++ 0 ∷ junk) =
      ap (λ (t : List ℕ). codes "http://" ++ t)
        (front
          ∙ ap (λ (t : List ℕ). authority ++ t) (sym (append_assoc (b'/' ∷ path) s (0 ∷ junk)))) in
    let size : 4 + 7 + length authority ≡ 4 + length gone = omega arith in
    let (junk', moved) =
      move_down (codes "GET ") gone all junk (NoNul-append (b'/' ∷ path) s p_text s_text) in
    (
      junk',
      rw (at, strip_host)
          (rw (size, same)
            (moved
              ∙ ap (λ (t : List ℕ). some (codes "GET " ++ t))
                  (append_assoc (b'/' ∷ path) s (0 ∷ junk')))),
    )

pub take-append_more :
    (n : ℕ) (s t : List ℕ) → length s ≤ n → take n (s ++ t) ≡ s ++ take (n - length s) t
take-append_more zero [] t le = refl
take-append_more (suc n) [] t le = let e : suc n - 0 ≡ suc n = omega arith in rw e refl
take-append_more zero (c ∷ s) t le = absurd (omega arith)
take-append_more (suc n) (c ∷ s) t le =
    let e : suc n - suc (length s) ≡ n - length s = omega arith in
    rw e (ap (λ (r : List ℕ). c ∷ r) (take-append_more n s t (omega arith)))

-- How much shorter the headers are with `close` in place of a value.
pub length-closed :
    (before : List Field) (f : Field) (after : List Field)
    → length (lines (before ++ closed f ∷ after)) + length f.value
      ≡ length (lines (before ++ f ∷ after)) + 5
length-closed [] f after =
    omega (arith, length-print_field (closed f) (lines after), length-print_field f (lines after))
length-closed (g ∷ before) f after = omega (
  arith,
  length-closed before f after,
  length-print_field g (lines (before ++ closed f ∷ after)),
  length-print_field g (lines (before ++ f ∷ after)),
)

-- What follows the URL.
abbrev pub tail_of : (version : List ℕ) → List Field → List ℕ
tail_of version fs = 32 ∷ (version ++ 13 ∷ 10 ∷ (lines fs ++ crlf))

-- The request of a client of a proxy, and the one that an origin server expects.
abbrev pub proxy_request : (authority path version : List ℕ) → List Field → List ℕ
proxy_request authority path version fs =
    codes "GET " ++ (url_of authority path ++ tail_of version fs)

abbrev pub origin_request : (path : List ℕ) → List Field → List ℕ
origin_request path fs = codes "GET " ++ ((b'/' ∷ path) ++ tail_of http_1_1 fs)

-- The array, as the line and the headers.
pub as_text :
    (url version : List ℕ) (fs : List Field) (junk : List ℕ)
    → codes "GET " ++ (url ++ (tail_of version fs ++ 0 ∷ junk))
      ≡ before_version url ++ (version ++ 13 ∷ 10 ∷ print fs (0 ∷ junk))
as_text url version fs junk =
    ap (λ (t : List ℕ). codes "GET " ++ t)
      (ap (λ (t : List ℕ). url ++ 32 ∷ t)
          (append_assoc version (13 ∷ 10 ∷ (lines fs ++ crlf)) (0 ∷ junk)
            ∙ ap (λ (t : List ℕ). version ++ 13 ∷ 10 ∷ t)
                (append_assoc (lines fs) crlf (0 ∷ junk) ∙ sym (print-lines fs (0 ∷ junk))))
        ∙ sym (append_assoc url (32 ∷ []) (version ++ 13 ∷ 10 ∷ print fs (0 ∷ junk))))

-- The parts of the URL.
pub Plain-parts :
    (authority path : List ℕ)
    → Plain (authority ++ b'/' ∷ path)
    → Free 0 authority × NoNul (b'/' ∷ path)
Plain-parts [] path p = (tt, NoNul_of (b'/' ∷ path) p)
  where
    NoNul_of : (s : List ℕ) → Plain s → NoNul s
    NoNul_of [] q = tt
    NoNul_of (c ∷ s) q = (q.1, NoNul_of s q.3)
Plain-parts (c ∷ s) path p = let rest = Plain-parts s path p.3 in ((p.1, rest.0), rest.1)

pub tail_of-NoNul : (fs : List Field) → AllFields fs → NoNul (tail_of http_1_1 fs)
tail_of-NoNul fs all =
    NoNul-append (codes " HTTP/1.1" ++ 13 ∷ 10 ∷ []) (lines fs ++ crlf) (omega arith)
      (NoNul-append (lines fs) crlf (lines-NoNul fs all) (omega arith))
