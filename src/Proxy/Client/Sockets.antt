-- ===== src/Proxy/Client/Sockets.antt =====
-- What `handle_client` of 3/src/handler.c does with its sockets on every path.
use os_5_sem.Base.{
  ℕ, ◌+◌, ◌≡◌, ◌≤◌, refl, true, false, Option, none, some, List, [], ◌∷◌, ◌++◌, arith,
  if◌then◌else◌, length, take, Bool-cases, inl, inr, Bool, length-append, ap, suc, zero,
}
use os_5_sem.Proxy.Request.{Parsed, accepted, refused, overrun, parse_request_line}
use os_5_sem.Proxy.Headers.{parse_headers}
use os_5_sem.Proxy.Resolve.{Address, resolve_host}
use os_5_sem.Proxy.Relay.{send_all, relay, joined}
use os_5_sem.Proxy.Relay.Delivery.{send_all-Prefix, relay-Prefix}
use os_5_sem.Proxy.Client.{
  Network, Handled, strip_host, exchange, connect_remote, resolve_and_connect, after_headers,
  after_line, handle_client, drop_client, crash, drop_both, started, socket_remote,
}

-- Where `before` remote sockets are open: unless the array is overrun, the client's socket is closed once,
-- and the remote ones are closed, those opened included; there is at most one. No more is sent than was
-- read, and to the client a prefix of the answer.
pub record IsTidy (net : Network) (total_read before : ℕ) (h : Handled) : Type 0 where
  pub client_once : h.overran ≡ false → h.closed_client ≡ 1
  pub remote_closed : h.overran ≡ false → h.closed_remote ≡ before + h.opened_remote
  pub at_most_one : before + h.opened_remote ≤ 1
  pub bounded : length h.to_remote ≤ total_read
  pub rest : List ℕ
  pub relayed : joined net.answer ≡ h.to_client ++ rest

pub length-take_le : (n : ℕ) (s : List ℕ) → length (take n s) ≤ n
length-take_le zero s = omega arith
length-take_le (suc n) [] = omega arith
length-take_le (suc n) (c ∷ s) = omega (arith, length-take_le n s)

-- The four ways in which the handler ends.
drop_client-IsTidy : (net : Network) (n : ℕ) → IsTidy net n 0 drop_client
drop_client-IsTidy net n = record {
  client_once = λ h. refl;
  remote_closed = λ h. refl;
  at_most_one = omega arith;
  bounded = omega arith;
  rest = joined net.answer;
  relayed = refl;
}

crash-IsTidy : (net : Network) (n before : ℕ) → before ≤ 1 → IsTidy net n before crash
crash-IsTidy net n before le = record {
  client_once = λ h. cc;
  remote_closed = λ h. cc;
  at_most_one = omega arith;
  bounded = omega arith;
  rest = joined net.answer;
  relayed = refl;
}

drop_both-IsTidy :
    (net : Network) (n : ℕ) (to_remote to_client rest : List ℕ)
    → length to_remote ≤ n
    → joined net.answer ≡ to_client ++ rest
    → IsTidy net n 1 (drop_both to_remote to_client)
drop_both-IsTidy net n to_remote to_client rest bounded relayed = record {
  client_once = λ h. refl;
  remote_closed = λ h. refl;
  at_most_one = omega arith;
  bounded = bounded;
  rest = rest;
  relayed = relayed;
}

exchange-IsTidy : (net : Network) (n : ℕ) (buf : List ℕ) → IsTidy net n 1 (exchange net n buf)
unfolding exchange
exchange-IsTidy net n buf =
    let given = take n buf in
    let sent = send_all net.write_remote (n + 1) 0 given in
    let short = length-take_le n buf in
    let out = send_all-Prefix net.write_remote (n + 1) 0 given (omega (arith, short)) in
    let back = (relay-Prefix net.write_client 0 net.answer).0 in
    let same : length given ≡ length (sent.bytes ++ out.unsent) = ap length out.split in
    let bounded : length sent.bytes ≤ n =
      omega (arith, short, same, length-append sent.bytes out.unsent) in
    elim (Bool-cases sent.all) [
      | inl all ↦ rw all (
          drop_both-IsTidy net n sent.bytes (relay net.write_client 0 net.answer).bytes back.unsent
            bounded back.split)
      | inr cut ↦ rw cut (drop_both-IsTidy net n sent.bytes [] (joined net.answer) bounded refl)
    ]

if-IsTidy :
    {net : Network} {n before : ℕ} {x y : Handled} (b : Bool)
    → IsTidy net n before x
    → IsTidy net n before y
    → IsTidy net n before (if b then x else y)
if-IsTidy true left right = left
if-IsTidy false left right = right

socket_remote-IsTidy :
    {net : Network} {n : ℕ} {h : Handled} → IsTidy net n 1 h → IsTidy net n 0 (socket_remote h)
socket_remote-IsTidy tidy = record {
  client_once = tidy.client_once;
  remote_closed = λ fits. omega (arith, tidy.remote_closed fits);
  at_most_one = omega (arith, tidy.at_most_one);
  bounded = tidy.bounded;
  rest = tidy.rest;
  relayed = tidy.relayed;
}

connected-IsTidy :
    (net : Network) (n : ℕ) (stripped : Option (List ℕ))
    → IsTidy net n 1 (elim stripped [ none ↦ crash | some b ↦ exchange net n b ])
connected-IsTidy net n none = crash-IsTidy net n 1 (omega arith)
connected-IsTidy net n (some b) = exchange-IsTidy net n b

connect_remote-IsTidy :
    (net : Network) (n : ℕ) (buf : List ℕ) (address : Address)
    → IsTidy net n 0 (connect_remote net n buf address)
unfolding connect_remote
connect_remote-IsTidy net n buf address =
    if-IsTidy net.socket
      (socket_remote-IsTidy (
        if-IsTidy (net.connect address) (connected-IsTidy net n (strip_host buf))
          (drop_both-IsTidy net n [] [] (joined net.answer) (omega arith) refl)))
      (drop_client-IsTidy net n)

resolved-IsTidy :
    (net : Network) (n : ℕ) (buf : List ℕ) (found : Option Address)
    → IsTidy net n 0
        (elim found [ none ↦ drop_client | some address ↦ connect_remote net n buf address ])
resolved-IsTidy net n buf none = drop_client-IsTidy net n
resolved-IsTidy net n buf (some address) = connect_remote-IsTidy net n buf address

after_headers-IsTidy :
    (net : Network) (n : ℕ) (p : Parsed (List ℕ × List ℕ)) → IsTidy net n 0 (after_headers net n p)
unfolding after_headers resolve_and_connect
after_headers-IsTidy net n (accepted (b, host)) =
    resolved-IsTidy net n b (resolve_host net.lookup host)
after_headers-IsTidy net n refused = drop_client-IsTidy net n
after_headers-IsTidy net n overrun = crash-IsTidy net n 0 (omega arith)

after_line-IsTidy :
    (net : Network) (n : ℕ) (p : Parsed (List ℕ)) → IsTidy net n 0 (after_line net n p)
unfolding after_line
after_line-IsTidy net n (accepted b) = after_headers-IsTidy net n (parse_headers b)
after_line-IsTidy net n refused = drop_client-IsTidy net n
after_line-IsTidy net n overrun = crash-IsTidy net n 0 (omega arith)

-- The number of bytes that the first read gave.
abbrev pub total_read : Option (List ℕ) → ℕ
total_read none = 0
total_read (some s) = length s

-- On every path, the handler opens at most one remote socket, and unless it overruns its array, it closes
-- the client's socket once and the remote one as often as it opened it. It sends the remote no more bytes than it
-- read from the client, and what it sends the client is a prefix of the remote's answer.
pub handle_client-IsTidy :
    (net : Network) → IsTidy net (total_read net.request) 0 (handle_client net)
unfolding handle_client started
handle_client-IsTidy net = by_request net.request
  where
    by_length : (s : List ℕ) → IsTidy net (length s) 0 (started net s)
    by_length [] = drop_client-IsTidy net 0
    by_length (c ∷ s) =
        after_line-IsTidy net (length (c ∷ s)) (parse_request_line ((c ∷ s) ++ 0 ∷ net.junk))

    by_request :
        (r : Option (List ℕ))
        → IsTidy net (total_read r) 0 (elim r [ none ↦ drop_client | some s ↦ started net s ])
    by_request none = drop_client-IsTidy net 0
    by_request (some s) = by_length s
