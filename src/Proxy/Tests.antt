-- ===== src/Proxy/Tests.antt =====
-- One request through the functions of 3/src/handler.c.
use mathlib.Core.Option
use os_5_sem.Base.{
  ℕ, ◌+◌, ◌<◌, ◌≡◌, refl, true, Option, none, some, List, [], ◌∷◌, ◌++◌, length, zero, suc,
  if◌then◌else◌, ◌==◌,
}
use os_5_sem.Proxy.CString.{
  codes, crlf, strstr, strchr, spaces, starts_with, same_name, write_at, strlen,
}
use os_5_sem.Proxy.Request.{parse_request_line}
use os_5_sem.Proxy.Request.Version.{Upgraded, parse_request_line-Upgraded}
use os_5_sem.Proxy.Headers.{parse_headers, scan_headers, connection_line, h_val_size}
use os_5_sem.Proxy.Headers.Host.{Ends, scan_headers-Ends, parse_headers-fits}
use os_5_sem.Proxy.Relay.{relay, joined}
use os_5_sem.Proxy.Relay.Delivery.{Prefix, relay-Prefix}
use os_5_sem.Proxy.Client.{Network, handle_client}
use os_5_sem.Proxy.Client.Sockets.{IsTidy, handle_client-IsTidy, total_read}

abbrev zeros : ℕ → List ℕ
zeros zero = []
zeros (suc n) = 0 ∷ zeros n

abbrev request : List ℕ
request = codes "GET http://a/b HTTP/1.0" ++ (crlf ++ (codes "Host: a:81" ++ (crlf ++ crlf)))

-- The request, its NUL and the rest of the array.
abbrev buffer : List ℕ
buffer = request ++ 0 ∷ zeros 20

parse_request_line-Upgraded_example : Upgraded buffer (parse_request_line buffer)
parse_request_line-Upgraded_example = parse_request_line-Upgraded buffer

-- The headers start at offset 25.
scan_headers-Ends_example : Ends (scan_headers (length buffer + 1) 25 buffer)
scan_headers-Ends_example = scan_headers-Ends 25 buffer

-- What `parse_headers` makes of it.
abbrev with_connection : List ℕ
with_connection =
    codes "GET http://a/b HTTP/1.0"
    ++ (crlf ++ (codes "Host: a:81" ++ (connection_line ++ (crlf ++ (crlf ++ 0 ∷ [])))))

parse_headers-fits_example : (0 < 4) × (4 < h_val_size) × (length with_connection ≡ length buffer)
unfolding parse_headers strstr starts_with strchr spaces same_name Option.bind write_at strlen
parse_headers-fits_example =
    parse_headers-fits buffer {b = with_connection} {host = codes "a:81"} refl

-- Every write sends two bytes at most.
abbrev two_bytes : ℕ → ℕ
two_bytes i = 2

abbrev chunks : List (List ℕ)
chunks = codes "HTTP" ∷ codes "/" ∷ codes "1.1" ∷ []

relay-Prefix_example :
    Prefix (joined chunks) (relay two_bytes 0 chunks)
    × (((i : ℕ) → 0 < two_bytes i) → (relay two_bytes 0 chunks).all ≡ true)
relay-Prefix_example = relay-Prefix two_bytes 0 chunks

abbrev lookup : List ℕ → Option ℕ
lookup [] = none
lookup (c ∷ s) = if c == b'a' then some 127 else none

abbrev network : Network
network = record {
  request = some request;
  junk = zeros 20;
  lookup = lookup;
  socket = true;
  connect = λ a. true;
  write_remote = two_bytes;
  answer = chunks;
  write_client = two_bytes;
}

handle_client-IsTidy_example : IsTidy network (total_read network.request) 0 (handle_client network)
handle_client-IsTidy_example = handle_client-IsTidy network
