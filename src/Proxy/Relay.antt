-- ===== src/Proxy/Relay.antt =====
-- The two loops of `handle_client` in 3/src/handler.c that write to a socket until all is sent, and
-- the loop that relays the answer. `write` may send less than it is given.
pub mod Delivery
use os_5_sem.Base.{
  ℕ, zero, suc, ◌+◌, ◌-◌, ◌≤◌, ◌<◌, Bool, true, false, Option, none, some, List, [], ◌∷◌, ◌++◌,
  ◌==◌, ltb, leb, if◌then◌else◌, take, drop, length,
}
use Prim.Native.Nat.{min}

-- The results of the calls of write on a socket, in turn: 0 stands for one that is not positive, and
-- a result is cut to the number of bytes offered. `next` counts the calls.
pub record Sent : Type 0 where
  pub next : ℕ
  pub bytes : List ℕ
  pub all : Bool

-- The loop over `fuel` calls at most, with what is left to send; without fuel it has not ended, which
-- counts as not sent.
pub send_all : (write : ℕ → ℕ) → (fuel next : ℕ) → List ℕ → Sent
send_all write zero next left = record { next = next; bytes = []; all = false }
send_all write (suc k) next left =
    let n = min (write next) (length left) in
    let rest = send_all write k (next + 1) (drop n left) in
    if length left == 0
    then record { next = next; bytes = []; all = true }
    else if n == 0
    then record { next = next + 1; bytes = []; all = false }
    else record { next = rest.next; bytes = take n left ++ rest.bytes; all = rest.all }

-- The relay of the chunks that read returns; it stops at the first that cannot be sent.
unfoldable pub relay : (write : ℕ → ℕ) → (next : ℕ) → List (List ℕ) → Sent
unfolding send_all
relay write next [] = record { next = next; bytes = []; all = true }
relay write next (chunk ∷ chunks) =
    let one = send_all write (length chunk + 1) next chunk in
    let rest = relay write one.next chunks in
    if one.all
    then record { next = rest.next; bytes = one.bytes ++ rest.bytes; all = rest.all }
    else one

-- The concatenation of the chunks.
abbrev pub joined : List (List ℕ) → List ℕ
joined [] = []
joined (chunk ∷ chunks) = chunk ++ joined chunks
