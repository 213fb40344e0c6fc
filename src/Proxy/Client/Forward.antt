-- ===== src/Proxy/Client/Forward.antt =====
-- What `handle_client` of 3/src/handler.c sends when nothing fails.
use mathlib.Core.List.{append-nil}
use os_5_sem.Base.{
  ℕ, ◌+◌, ◌<◌, ◌≡◌, sym, ◌∙◌, ap, true, Option, none, some, List, ◌∷◌, ◌++◌, arith, length, take,
}
use os_5_sem.Proxy.Request.{accepted, parse_request_line}
use os_5_sem.Proxy.Headers.{parse_headers}
use os_5_sem.Proxy.Resolve.{Address, resolve_host}
use os_5_sem.Proxy.Relay.{Sent, joined}
use os_5_sem.Proxy.Relay.Delivery.{Prefix, send_all-Prefix, send_all_total, relay-Prefix}
use os_5_sem.Proxy.Client.{
  Network, socket_remote, drop_client, drop_both, strip_host, exchange, connect_remote,
  resolve_and_connect, after_headers, after_line, started, handle_client,
}
use os_5_sem.Proxy.Client.Sockets.{length-take_le}

all_sent : {left : List ℕ} {s : Sent} → Prefix left s → s.all ≡ true → s.bytes ≡ left
all_sent {s} p done = sym (p.split ∙ ap (λ r. s.bytes ++ r) (p.complete done) ∙ append-nil s.bytes)

-- Every write sends something.
abbrev pub Writes : Network → Type 0
Writes net = ((i : ℕ) → 0 < net.write_remote i) × ((i : ℕ) → 0 < net.write_client i)

exchange-drop_both :
    (net : Network) (n : ℕ) (buf : List ℕ)
    → Writes net
    → exchange net n buf ≡ drop_both (take n buf) (joined net.answer)
unfolding exchange
exchange-drop_both net n buf writes =
    let given = take n buf in
    let enough : length given < n + 1 = omega (arith, length-take_le n buf) in
    let out = send_all-Prefix net.write_remote (n + 1) 0 given enough in
    let done = send_all_total net.write_remote (n + 1) 0 given writes.0 enough in
    let back = relay-Prefix net.write_client 0 net.answer in
    rw done (rw (all_sent out done, all_sent back.0 (back.1 writes.1)))

connect_remote-drop_both :
    (net : Network) (n : ℕ) (buf : List ℕ) (address : Address) {b : List ℕ}
    → Writes net
    → net.socket ≡ true
    → net.connect address ≡ true
    → strip_host buf ≡ some b
    → connect_remote net n buf address ≡ socket_remote (drop_both (take n b) (joined net.answer))
unfolding connect_remote
connect_remote-drop_both net n buf address {b} writes opened connected stripped =
    ground (arith, exchange-drop_both net n b writes)

-- The run in which nothing fails.
pub handle_client-drop_both :
    (net : Network) (c : ℕ) (s : List ℕ) {b1 b2 b3 host : List ℕ} {address : Address}
    → Writes net
    → net.request ≡ some (c ∷ s)
    → parse_request_line ((c ∷ s) ++ 0 ∷ net.junk) ≡ accepted b1
    → parse_headers b1 ≡ accepted (b2, host)
    → resolve_host net.lookup host ≡ some address
    → net.socket ≡ true
    → net.connect address ≡ true
    → strip_host b2 ≡ some b3
    → handle_client net ≡ socket_remote (drop_both (take (length (c ∷ s)) b3) (joined net.answer))
unfolding handle_client started after_line after_headers resolve_and_connect
handle_client-drop_both net c s {b1} {b2} {b3} {host} {address} writes asked line headers resolved
      opened connected stripped =
    by_request ∙ rw line (rw headers (found ∙ forwarded))
  where
    n : ℕ
    n = length (c ∷ s)

    forwarded :
        connect_remote net n b2 address ≡ socket_remote (drop_both (take n b3) (joined net.answer))
    forwarded = connect_remote-drop_both net n b2 address writes opened connected stripped

    found : resolve_and_connect net n b2 host ≡ connect_remote net n b2 address
    found = rw (resolved, resolve_and_connect)

    by_request : handle_client net ≡ started net (c ∷ s)
    by_request =
        ap (λ (r : Option (List ℕ)). elim r [ none ↦ drop_client | some t ↦ started net t ]) asked
