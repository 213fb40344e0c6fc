-- ===== src/Proxy/Resolve.antt =====
-- `resolve_host` of 3/src/handler.c. `lookup` is getaddrinfo: the address of a name, if it has one.
use os_5_sem.Base.{
  ℕ, ◌+◌, ◌-◌, ◌*◌, ◌%◌, ◌^◌, ◌<◌, ◌≡◌, Bool, true, false, ◌&&◌, ◌||◌, Option, none, some, List, [],
  ◌∷◌, arith, ◌==◌, leb, if◌then◌else◌, take, drop, Option-cases, inl, inr,
}
use os_5_sem.Proxy.CString.{strchr}

-- `sin_addr` and `sin_port`, the port in the host's order.
pub record Address : Type 0 where
  pub ip : ℕ
  pub port : ℕ

abbrev is_digit : ℕ → Bool
is_digit c = leb b'0' c && leb c b'9'

-- The value of the digits at the front.
pub digits : (acc : ℕ) → List ℕ → ℕ
digits acc [] = acc
digits acc (c ∷ s) = let more = digits (acc * 10 + (c - b'0')) s in if is_digit c then more else acc

-- What atoi reads behind the white space: a sign, true for minus, and a magnitude.
pub signed : List ℕ → Bool × ℕ
unfolding digits
signed [] = (false, 0)
signed (c ∷ s) =
    if c == b'-'
    then (true, digits 0 s)
    else if c == b'+'
    then (false, digits 0 s)
    else (false, digits 0 (c ∷ s))

pub atoi : List ℕ → Bool × ℕ
unfolding signed
atoi [] = (false, 0)
atoi (c ∷ s) =
    let rest = atoi s in if (c == 32) || (leb 9 c && leb c 13) then rest else signed (c ∷ s)

abbrev pub http_port : ℕ
http_port = 80

-- `htons(port)`: the int, converted to 16 bits, with 80 in place of 0.
pub port_of : Bool × ℕ → ℕ
port_of (minus, n) =
    if n == 0 then http_port else if minus then (2 ^ 16 - n % 2 ^ 16) % 2 ^ 16 else n % 2 ^ 16

-- The name before the colon, and the port behind it.
unfoldable pub split_host : List ℕ → List ℕ × ℕ
unfolding atoi port_of
split_host host = elim (strchr b':' host) [
  | none ↦ (host, http_port)
  | some n ↦ (take n host, port_of (atoi (drop (n + 1) host)))
]

unfoldable pub resolve_host : (lookup : List ℕ → Option ℕ) → List ℕ → Option Address
unfolding split_host
resolve_host lookup host =
    let (name, port) = split_host host in
    elim (lookup name) [ none ↦ none | some ip ↦ some (record { ip = ip; port = port }) ]

-- Where the name before any colon has an address, `resolve_host` gives it with a port below 2^16,
-- which is 80 for a host without a colon; where it has none, `resolve_host` fails.
pub resolve_host-split :
    (lookup : List ℕ → Option ℕ) (host : List ℕ)
    → ((ip : ℕ)
        → lookup (split_host host).0 ≡ some ip
        → (port : ℕ) × (resolve_host lookup host ≡ some (record { ip = ip; port = port }))
          × (port < 2 ^ 16)
          × (strchr b':' host ≡ none → port ≡ 80))
      × (lookup (split_host host).0 ≡ none → resolve_host lookup host ≡ none)
unfolding resolve_host
resolve_host-split lookup host = (
  λ ip e. (
    (split_host host).1,
    rw (e, resolve_host),
    elim (Option-cases (strchr b':' host)) [
      | inl never ↦ rw (never, split_host) (omega arith)
      | inr at ↦ rw (at.1, split_host) (small (atoi (drop (at.0 + 1) host)))
    ],
    λ never. rw (never, split_host),
  ),
  λ e. rw (e, resolve_host),
)
  where
    small : (p : Bool × ℕ) → port_of p < 2 ^ 16
    small (minus, n) = ground arith
