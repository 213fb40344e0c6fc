-- ===== src/Proxy/Headers/Rewrite.antt =====
-- What `parse_headers` of 3/src/handler.c makes of a request that is a line and printed headers.
use os_5_sem.Base.{ℕ, ◌+◌, ◌<◌, ◌≤◌, ◌≡◌, refl, ◌∙◌, none, some, List, [], ◌∷◌, ◌++◌, arith, length}
use os_5_sem.Proxy.CString.{crlf, strstr}
use os_5_sem.Proxy.CString.Laws.{NoNul}
use os_5_sem.Proxy.Request.{accepted, refused, overrun}
use os_5_sem.Proxy.Headers.{found, after_scan, parse_headers, connection_line}
use os_5_sem.Proxy.Headers.Print.{
  Field, print, Free, AllFields, strstr-Free, host_of, connection_of,
}
use os_5_sem.Proxy.Headers.RoundTrip.{head, print-head, strstr-print, scan_headers-print}
use os_5_sem.Proxy.Headers.Lines.{NoConnection, connection_of-NoConnection}
use os_5_sem.Proxy.Headers.Connection.{add_connection-insert}

-- The request with its headers, its NUL and what is behind it in the array.
abbrev pub request_text : (line : List ℕ) → List Field → (junk : List ℕ) → List ℕ
request_text line fs junk = line ++ 13 ∷ 10 ∷ print fs (0 ∷ junk)

blank-NoNul : NoNul (crlf ++ crlf)
blank-NoNul = (omega arith, (omega arith, (omega arith, (omega arith, tt))))

-- `parse_headers` after its search for the line's end and the loop.
pub parse_headers-scan :
    (line : List ℕ) (fs : List Field) (junk : List ℕ)
    → Free 13 line
    → Free 0 line
    → AllFields fs
    → parse_headers (request_text line fs junk)
      ≡ after_scan
          (request_text line fs junk)
          (found (host_of fs []) (connection_of fs (length line + 2) none))
unfolding parse_headers
parse_headers-scan line fs junk free text all =
    rw (strstr-Free line (print fs (0 ∷ junk)) free text, parse_headers)
      (rw (scan_headers-print line fs (0 ∷ junk) all) refl)

-- A request of a line and printed headers within the code's bounds, none of them a Connection header,
-- with its NUL and the bytes behind it: where no Host header gives a host it is refused; where the
-- last one gives a host and at least 20 bytes are behind the NUL, it is accepted with that host, and
-- its text is kept up to the last header's end, where a LF, the line `Connection: close` and a CR LF
-- stand before the two CR LF that were there; where fewer bytes are behind the NUL, the line is written
-- past the end of the array.
pub parse_headers-insert :
    (line : List ℕ) (fs : List Field) (junk : List ℕ)
    → Free 13 line
    → Free 0 line
    → AllFields fs
    → NoConnection fs
    → (host_of fs [] ≡ [] → parse_headers (request_text line fs junk) ≡ refused)
      × ((b : ℕ) (host : List ℕ)
          → host_of fs [] ≡ b ∷ host
          → 20 ≤ length junk
          → (junk' : List ℕ) × (parse_headers (request_text line fs junk)
              ≡ accepted
                  (head line fs ++ (connection_line ++ ((crlf ++ crlf) ++ 0 ∷ junk')), b ∷ host)))
      × ((b : ℕ) (host : List ℕ)
          → host_of fs [] ≡ b ∷ host
          → length junk < 20
          → parse_headers (request_text line fs junk) ≡ overrun)
unfolding after_scan
parse_headers-insert line fs junk free text all no_connection =
    let buf = request_text line fs junk in
    let none_found : connection_of fs (length line + 2) none ≡ none =
      connection_of-NoConnection fs (length line + 2) none no_connection in
    let same : buf ≡ head line fs ++ ((crlf ++ crlf) ++ 0 ∷ junk) = print-head line fs (0 ∷ junk) in
    let at_end : strstr (crlf ++ crlf) (head line fs ++ ((crlf ++ crlf) ++ 0 ∷ junk))
        ≡ some (length (head line fs)) =
      rw (← same) (strstr-print line fs (0 ∷ junk) free text all) in
    let inserted = add_connection-insert (head line fs) (crlf ++ crlf) junk blank-NoNul at_end in
    let scanned = parse_headers-scan line fs junk free text all in
    (
      λ no_host. scanned ∙ rw no_host refl,
      λ b host has_host room.
          let (junk', written) = inserted.0 room in
          (junk', scanned ∙ rw (has_host, none_found) (rw same (rw written refl))),
      λ b host has_host tight.
          scanned ∙ rw (has_host, none_found) (rw same (rw (inserted.1 tight) refl)),
    )
