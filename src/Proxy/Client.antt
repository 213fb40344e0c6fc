-- ===== src/Proxy/Client.antt =====
-- `handle_client` of 3/src/handler.c: one connection, with what the network will do given.
pub mod Sockets
pub mod Forward
pub mod Printed
pub mod Rewritten
mod Tests
use os_5_sem.Base.{
  ℕ, zero, suc, ◌+◌, Bool, true, false, Option, none, some, List, [], ◌∷◌, ◌++◌, if◌then◌else◌,
  take, drop, length,
}
use os_5_sem.Proxy.CString.{codes, strstr, strchr}
use os_5_sem.Proxy.Request.{Parsed, accepted, refused, overrun, parse_request_line}
use os_5_sem.Proxy.Headers.{move_string, parse_headers}
use os_5_sem.Proxy.Resolve.{Address, resolve_host}
use os_5_sem.Proxy.Relay.{Sent, send_all, relay}

-- `request` is what read gives, none for an error and no bytes for the end; `junk` is what stands in
-- the array behind the request and its NUL. `connect` is asked for the address. `answer` holds the
-- chunks that read gives on the remote socket before its end or an error.
pub record Network : Type 0 where
  pub request : Option (List ℕ)
  pub junk : List ℕ
  pub lookup : List ℕ → Option ℕ
  pub socket : Bool
  pub connect : Address → Bool
  pub write_remote : ℕ → ℕ
  pub answer : List (List ℕ)
  pub write_client : ℕ → ℕ

-- What the handler did: the bytes that it wrote to each socket, how often it opened the remote one and
-- closed each, and whether it wrote past the end of its array, where the model ends.
pub record Handled : Type 0 where
  pub to_remote : List ℕ
  pub to_client : List ℕ
  pub opened_remote : ℕ
  pub closed_remote : ℕ
  pub closed_client : ℕ
  pub overran : Bool

abbrev pub nothing : Handled
nothing = record {
  to_remote = [];
  to_client = [];
  opened_remote = 0;
  closed_remote = 0;
  closed_client = 0;
  overran = false;
}

-- The calls of `socket` and of `close`, before what the handler does next.
abbrev pub socket_remote : Handled → Handled
socket_remote next = record next { opened_remote = next.opened_remote + 1 }

abbrev pub close_remote : Handled → Handled
close_remote next = record next { closed_remote = next.closed_remote + 1 }

abbrev pub close_client : Handled → Handled
close_client next = record next { closed_client = next.closed_client + 1 }

-- Closing the client's socket and returning.
abbrev pub drop_client : Handled
drop_client = close_client nothing

abbrev pub crash : Handled
crash = record nothing { overran = true }

-- Closing both and returning, after what was sent to each.
abbrev pub drop_both : (to_remote to_client : List ℕ) → Handled
drop_both to_remote to_client =
    let sent : Handled = record nothing { to_remote = to_remote; to_client = to_client } in
    close_client (close_remote sent)

-- The text from `http://` up to the next slash behind it is removed.
unfoldable pub strip_host : List ℕ → Option (List ℕ)
strip_host buf = elim (strstr (codes "http://") buf) [
  | none ↦ some buf
  | some u ↦ elim (strchr b'/' (drop (u + 7) buf)) [
    | none ↦ some buf
    | some n ↦ move_string u (u + 7 + n) buf
  ]
]

-- Both loops: as many bytes as were read, from the rewritten buffer, and the answer.
pub exchange : Network → (total_read : ℕ) → List ℕ → Handled
exchange net total_read buf =
    let sent = send_all net.write_remote (total_read + 1) 0 (take total_read buf) in
    let answered = relay net.write_client 0 net.answer in
    if sent.all then drop_both sent.bytes answered.bytes else drop_both sent.bytes []

-- From the connection on.
pub connect_remote : Network → (total_read : ℕ) → List ℕ → Address → Handled
unfolding strip_host exchange
connect_remote net total_read buf address =
    if net.socket
    then socket_remote (
        if net.connect address
        then elim (strip_host buf) [ none ↦ crash | some b ↦ exchange net total_read b ]
        else drop_both [] [])
    else drop_client

pub resolve_and_connect : Network → (total_read : ℕ) → (buf host : List ℕ) → Handled
unfolding connect_remote
resolve_and_connect net total_read buf host = elim (resolve_host net.lookup host) [
  | none ↦ drop_client
  | some address ↦ connect_remote net total_read buf address
]

pub after_headers : Network → (total_read : ℕ) → Parsed (List ℕ × List ℕ) → Handled
unfolding resolve_and_connect
after_headers net total_read (accepted (b, host)) = resolve_and_connect net total_read b host
after_headers net total_read refused = drop_client
after_headers net total_read overrun = crash

pub after_line : Network → (total_read : ℕ) → Parsed (List ℕ) → Handled
unfolding after_headers
after_line net total_read (accepted b) = after_headers net total_read (parse_headers b)
after_line net total_read refused = drop_client
after_line net total_read overrun = crash

-- After the first read; no bytes mean that the client has closed its side.
pub started : Network → (request : List ℕ) → Handled
unfolding after_line
started net [] = drop_client
started net (c ∷ s) = after_line net (length (c ∷ s)) (parse_request_line ((c ∷ s) ++ 0 ∷ net.junk))

unfoldable pub handle_client : Network → Handled
unfolding started
handle_client net = elim net.request [ none ↦ drop_client | some s ↦ started net s ]
