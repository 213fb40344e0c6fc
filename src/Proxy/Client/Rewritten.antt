-- ===== src/Proxy/Client/Rewritten.antt =====
-- What the remote is sent for a printed request, by `handle_client` of 3/src/handler.c.
use mathlib.Core.List.{append_assoc}
use os_5_sem.Base.{
  ℕ, ◌+◌, ◌-◌, ◌≤◌, ◌≡◌, ◌⊎◌, inl, inr, sym, ◌∙◌, ap, refl, true, some, List, [], ◌∷◌, ◌++◌, arith,
  length, length-append, take, drop,
}
use os_5_sem.Proxy.CString.{codes, crlf, same_name}
use os_5_sem.Proxy.Request.{accepted, http_1_0, http_1_1, parse_request_line}
use os_5_sem.Proxy.Request.Print.{
  Plain, before_version, before_version-Free, nul-Barred, cr-Barred, parse_request_line-Plain,
}
use os_5_sem.Proxy.Headers.Print.{Field, print, Free, IsField, AllFields, host_of}
use os_5_sem.Proxy.Headers.RoundTrip.{Free-append}
use os_5_sem.Proxy.Headers.Lines.{lines, NoConnection}
use os_5_sem.Proxy.Headers.Rewrite.{request_text}
use os_5_sem.Proxy.Headers.Replace.{closed, parse_headers-closed}
use os_5_sem.Proxy.Resolve.{Address, resolve_host}
use os_5_sem.Proxy.Relay.{joined}
use os_5_sem.Proxy.Client.{Network, socket_remote, drop_both, strip_host, handle_client}
use os_5_sem.Proxy.Client.Forward.{Writes, handle_client-drop_both}
use os_5_sem.Proxy.Client.Printed.{
  url_of, tail_of, proxy_request, origin_request, as_text, strip_host-url, Plain-parts,
  tail_of-NoNul, take-append_more, length-closed,
}

closed-IsField : (f : Field) → IsField f → IsField (closed f)
closed-IsField f is = record {
  some_name = is.some_name;
  short_name = is.short_name;
  no_colon = is.no_colon;
  name_text = is.name_text;
  name_line = is.name_line;
  short_value = omega arith;
  value_text = omega arith;
  value_line = omega arith;
  value_start = omega arith;
}

AllFields-closed :
    (before : List Field) (f : Field) (after : List Field)
    → AllFields (before ++ f ∷ after)
    → AllFields (before ++ closed f ∷ after)
AllFields-closed [] f after all = (closed-IsField f all.0, all.1)
AllFields-closed (g ∷ before) f after all = (all.0, AllFields-closed before f after all.1)

module _ (authority path version : List ℕ) (p : Plain (url_of authority path))
    (short : length (url_of authority path) ≤ 2047)
    (which : (version ≡ http_1_0) ⊎ (version ≡ http_1_1)) where
  abbrev url : List ℕ
  url = url_of authority path

  -- The line after `parse_request_line`.
  abbrev line : List ℕ
  line = before_version url ++ http_1_1

  line-text :
      (fs : List Field) (junk : List ℕ)
      → request_text line fs junk ≡ codes "GET " ++ (url ++ (tail_of http_1_1 fs ++ 0 ∷ junk))
  line-text fs junk =
      append_assoc (before_version url) http_1_1 (13 ∷ 10 ∷ print fs (0 ∷ junk))
      ∙ sym (as_text url http_1_1 fs junk)

  parsed_line :
      (fs : List Field) (junk : List ℕ)
      → parse_request_line (proxy_request authority path version fs ++ 0 ∷ junk)
        ≡ accepted (request_text line fs junk)
  parsed_line fs junk =
      ap (λ (t : List ℕ). parse_request_line t)
        (ap (λ (t : List ℕ). codes "GET " ++ t) (append_assoc url (tail_of version fs) (0 ∷ junk))
          ∙ as_text url version fs junk)
      ∙ parse_request_line-Plain b'h' (drop 1 url) version (10 ∷ print fs (0 ∷ junk)) p short which
      ∙ ap (λ (t : List ℕ). accepted t)
          (sym (append_assoc (before_version url) http_1_1 (13 ∷ 10 ∷ print fs (0 ∷ junk))))

  stripped :
      (fs : List Field) (junk : List ℕ)
      → Free b'/' authority
      → AllFields fs
      → (junk' : List ℕ) × (strip_host (request_text line fs junk)
          ≡ some (origin_request path fs ++ 0 ∷ junk'))
  stripped fs junk slash all =
      let (a_text, p_text) = Plain-parts authority path p.3.3.3.3.3.3.3 in
      let (junk', e) =
        strip_host-url authority path (tail_of http_1_1 fs) junk slash a_text p_text
          (tail_of-NoNul fs all) in
      (
        junk',
        ap (λ (t : List ℕ). strip_host t) (line-text fs junk)
            ∙ e
            ∙ ap (λ (t : List ℕ). some (codes "GET " ++ t))
                (sym (append_assoc (b'/' ∷ path) (tail_of http_1_1 fs) (0 ∷ junk'))),
      )

  line-nul : Free 0 line
  line-nul =
      Free-append 0 (before_version url) http_1_1 (before_version-Free 0 url nul-Barred p)
        (omega arith)

  line-cr : Free 13 line
  line-cr =
      Free-append 13 (before_version url) http_1_1 (before_version-Free 13 url cr-Barred p)
        (omega arith)

length-tail_of :
    (version : List ℕ) (fs : List Field)
    → (version ≡ http_1_0) ⊎ (version ≡ http_1_1)
    → length (tail_of version fs) ≡ length (lines fs) + 13
length-tail_of version fs which = omega (
  arith,
  eight which,
  length-append version (13 ∷ 10 ∷ (lines fs ++ crlf)),
  length-append (lines fs) crlf,
)
  where
    eight : (version ≡ http_1_0) ⊎ (version ≡ http_1_1) → length version ≡ 8
    eight (inl e) = ap (λ (v : List ℕ). length v) e
    eight (inr e) = ap (λ (v : List ℕ). length v) e

-- The request for the origin server is no longer than the one that came.
length-origin_request :
    (authority path version : List ℕ) (before : List Field) (f : Field) (after : List Field)
    → (version ≡ http_1_0) ⊎ (version ≡ http_1_1)
    → 5 ≤ length f.value
    → length (origin_request path (before ++ closed f ∷ after))
      ≤ length (proxy_request authority path version (before ++ f ∷ after))
length-origin_request authority path version before f after which long =
    let old = before ++ f ∷ after in
    let new = before ++ closed f ∷ after in
    omega (
      arith,
      long,
      length-closed before f after,
      length-tail_of version old which,
      length-tail_of http_1_1 new (inr refl),
      length-append path (tail_of http_1_1 new),
      length-append (authority ++ b'/' ∷ path) (tail_of version old),
      length-append authority (b'/' ∷ path),
    )

-- A client asks for `http://authority/path` by GET, in either version, with printed headers within the
-- code's bounds that give a host, and whose last Connection header has a value of five bytes or more; the
-- URL has 2047 bytes at most and no space, NUL or H. Where nothing fails from the resolution of the host
-- to the last write, the remote is sent the whole request as an origin server expects it, for `/path` by
-- HTTP/1.1 with that Connection header made `close` and every other header as it was, and behind it the
-- bytes `stale` that stand in the array behind it; the client is sent the whole answer; one remote
-- socket is opened, and each socket is closed once.
pub handle_client-origin_request :
    (net : Network) (authority path version : List ℕ) (before : List Field) (f : Field)
    (after : List Field) (b : ℕ) (host : List ℕ) (address : Address)
    → net.request ≡ some (proxy_request authority path version (before ++ f ∷ after))
    → Plain (url_of authority path)
    → length (url_of authority path) ≤ 2047
    → (version ≡ http_1_0) ⊎ (version ≡ http_1_1)
    → Free b'/' authority
    → AllFields (before ++ f ∷ after)
    → host_of (before ++ f ∷ after) [] ≡ b ∷ host
    → same_name f.name (codes "connection") ≡ true
    → NoConnection after
    → 5 ≤ length f.value
    → Writes net
    → resolve_host net.lookup (b ∷ host) ≡ some address
    → net.socket ≡ true
    → net.connect address ≡ true
    → (stale : List ℕ) × (handle_client net
        ≡ socket_remote (
            drop_both
              (origin_request path (before ++ closed f ∷ after) ++ stale)
              (joined net.answer)))
handle_client-origin_request net authority path version before f after b host address asked p short
      which slash all has_host named last long writes resolved opened connected =
    let old = before ++ f ∷ after in
    let new = before ++ closed f ∷ after in
    let n = length (proxy_request authority path version old) in
    let line = before_version (url_of authority path) ++ http_1_1 in
    let (junk1, headers) =
      parse_headers-closed line before f after net.junk b host
        (line-cr authority path version p short which)
        (line-nul authority path version p short which) all has_host named last long in
    let (junk2, rest) =
      stripped authority path version p short which new junk1 slash
        (AllFields-closed before f after all) in
    let fits = length-origin_request authority path version before f after which long in
    (
      take (n - length (origin_request path new)) (0 ∷ junk2),
      handle_client-drop_both net b'G' (drop 1 (proxy_request authority path version old)) writes
            asked (parsed_line authority path version p short which old net.junk) headers resolved
            opened connected rest
          ∙ ap (λ (t : List ℕ). socket_remote (drop_both t (joined net.answer)))
              (take-append_more n (origin_request path new) (0 ∷ junk2) fits),
    )
