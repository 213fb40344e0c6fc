-- ===== src/Proxy/Listen.antt =====
-- `main` of 3/src/main.c: the listening socket, the loop that accepts connections, and the life of the
-- threads that it starts. What accept, malloc and pthread_create return is given, and the threads of
-- earlier connections go on between any two rounds.
pub mod Accounts
mod Tests
use os_5_sem.Base.{
  ℕ, zero, suc, ◌+◌, Bool, true, false, ◌||◌, Option, none, some, List, [], ◌∷◌, ◌==◌,
  if◌then◌else◌,
}
use os_5_sem.Proxy.Client.{Network, handle_client}

-- The calls that prepare the listening socket; `none` and `false` are failures.
pub record Setup : Type 0 where
  pub socket : Option ℕ
  pub setsockopt : Bool
  pub bind : Bool
  pub listen : Bool

-- `open` are the open sockets of listener and clients. `heap` are the live arguments for threads, by
-- address; `started` are the threads that have not read their argument, by its address, and `serving`
-- those that have, by their socket.
pub record Server : Type 0 where
  pub listening : ℕ
  pub opened : List ℕ
  pub heap : List (ℕ × ℕ)
  pub started : List ℕ
  pub serving : List ℕ

-- One round of the loop: what accept and malloc return, and whether pthread_create succeeds.
pub record Round : Type 0 where
  pub accept : Option ℕ
  pub malloc : Option ℕ
  pub create : Bool

-- A round of the loop; a thread that reads and frees its argument; a thread that serves its client to the
-- end, over the given network.
pub data Event : Type 0 where
  accepting : Round → Event
  reading : (arg : ℕ) → Event
  ending : (client_sock_fd : ℕ) → Network → Event

-- The first of these in the list is removed.
unfoldable pub without : ℕ → List ℕ → List ℕ
without x [] = []
without x (y ∷ ys) = if y == x then ys else y ∷ without x ys

unfoldable pub freed : ℕ → List (ℕ × ℕ) → List (ℕ × ℕ)
freed p [] = []
freed p ((q, v) ∷ heap) = if q == p then heap else (q, v) ∷ freed p heap

-- What stands in the block, if it is live.
unfoldable pub content : ℕ → List (ℕ × ℕ) → Option ℕ
content p [] = none
content p ((q, v) ∷ heap) = if q == p then some v else content p heap

abbrev pub among : ℕ → List ℕ → Bool
among x [] = false
among x (y ∷ ys) = (y == x) || among x ys

pub accept_one : Round → Server → Server
unfolding without freed
accept_one r s = elim r.accept [
  | none ↦ s
  | some client_sock_fd ↦
      let accepted : Server = record s { opened = client_sock_fd ∷ s.opened } in
      elim r.malloc [
        | none ↦ accepted
        | some arg ↦
            let given : Server = record accepted { heap = (arg, client_sock_fd) ∷ s.heap } in
            if r.create then record given { started = arg ∷ s.started } else record given {
              heap = freed arg given.heap;
              opened = without client_sock_fd given.opened;
            }
      ]
]

-- The first two lines of `handle_client`; `none` is a read of memory that is not live.
pub read_arg : ℕ → Server → Option Server
unfolding without freed content
read_arg arg s =
    if among arg s.started
    then elim (content arg s.heap) [
      | none ↦ none
      | some client_sock_fd ↦ some (record s {
        heap = freed arg s.heap;
        started = without arg s.started;
        serving = client_sock_fd ∷ s.serving;
      })
    ]
    else some s

pub closed : (times client_sock_fd : ℕ) → List ℕ → List ℕ
unfolding without
closed zero client_sock_fd opened = opened
closed (suc n) client_sock_fd opened = closed n client_sock_fd (without client_sock_fd opened)

-- The rest of `handle_client`.
pub end_thread : ℕ → Network → Server → Server
unfolding without closed
end_thread client_sock_fd net s =
    if among client_sock_fd s.serving
    then record s {
      serving = without client_sock_fd s.serving;
      opened = closed (handle_client net).closed_client client_sock_fd s.opened;
    }
    else s

pub happen : Event → Server → Option Server
unfolding accept_one read_arg end_thread
happen (accepting r) s = some (accept_one r s)
happen (reading arg) s = read_arg arg s
happen (ending client_sock_fd net) s = some (end_thread client_sock_fd net s)

-- `main` returns 1, with these sockets open, or serves; a fault is a read of memory that is not live.
pub data Main : Type 0 where
  returned : (opened : List ℕ) → Main
  serves : Server → Main
  fault : Main

-- As the loop starts.
abbrev pub new_server : ℕ → Server
new_server fd = record { listening = fd; opened = fd ∷ []; heap = []; started = []; serving = [] }

pub set_up : Setup → Main
unfolding without
set_up c = elim c.socket [
  | none ↦ returned []
  | some fd ↦
      let failed = returned (without fd (fd ∷ [])) in
      if c.setsockopt
      then if c.bind then if c.listen then serves (new_server fd) else failed else failed
      else failed
]

pub go_on : Event → Main → Main
unfolding happen
go_on e (returned opened) = returned opened
go_on e fault = fault
go_on e (serves s) = elim (happen e s) [ none ↦ fault | some s' ↦ serves s' ]

-- The last event stands first.
pub main : Setup → List Event → Main
unfolding set_up go_on
main c [] = set_up c
main c (e ∷ es) = go_on e (main c es)
