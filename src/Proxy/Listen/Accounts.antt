-- ===== src/Proxy/Listen/Accounts.antt =====
-- Where the sockets and the arguments of `main` of 3/src/main.c are, at every time.
use mathlib.Core.Path.{subst}
use os_5_sem.Base.{
  ℕ, ◌+◌, ◌<◌, ◌≡◌, refl, ap, ◌∙◌, true, false, ◌&&◌, sym, none, some, List, [], ◌∷◌, ◌==◌, arith,
  bit, Bool-cases, Option-cases, inl, inr,
}
use os_5_sem.Proxy.Client.{Network, handle_client}
use os_5_sem.Proxy.Client.Sockets.{handle_client-IsTidy}
use os_5_sem.Proxy.Listen.{
  Setup, Server, Round, Event, accepting, reading, ending, without, freed, content, among,
  accept_one, read_arg, closed, end_thread, happen, Main, returned, serves, fault, set_up, go_on,
  new_server, main,
}

-- How often `x` stands in the list.
abbrev pub count : ℕ → List ℕ → ℕ
count x [] = 0
count x (y ∷ ys) = bit (y == x) + count x ys

abbrev pub addresses : List (ℕ × ℕ) → List ℕ
addresses [] = []
addresses ((p, v) ∷ heap) = p ∷ addresses heap

abbrev pub contents : List (ℕ × ℕ) → List ℕ
contents [] = []
contents ((p, v) ∷ heap) = v ∷ contents heap

-- The connections for whose argument malloc had no memory.
abbrev pub without_arg : Round → List ℕ
without_arg r = elim r.accept [
  | none ↦ []
  | some fd ↦ elim r.malloc [ none ↦ fd ∷ [] | some arg ↦ [] ]
]

abbrev pub forgotten : List Event → ℕ → ℕ
forgotten [] x = 0
forgotten (accepting r ∷ es) x = count x (without_arg r) + forgotten es x
forgotten (reading arg ∷ es) x = forgotten es x
forgotten (ending fd net ∷ es) x = forgotten es x

-- No thread writes past the end of its array.
abbrev pub NoOverrun : List Event → Type 0
NoOverrun [] = Unit
NoOverrun (accepting r ∷ es) = NoOverrun es
NoOverrun (reading arg ∷ es) = NoOverrun es
NoOverrun (ending fd net ∷ es) = ((handle_client net).overran ≡ false) × NoOverrun es

-- Every open socket is the listening one, or that of a thread, or forgotten, and every live argument is
-- that of a thread that has not read it.
pub record Accounted (lost : ℕ → ℕ) (s : Server) : Type 0 where
  pub sockets :
      (x : ℕ)
      → count x s.opened
        ≡ count x s.serving + count x (contents s.heap) + lost x + bit (s.listening == x)
  pub args : addresses s.heap ≡ s.started

abbrev pub AccountedMain : List Event → Main → Type 0
AccountedMain es (returned opened) = opened ≡ []
AccountedMain es (serves s) = Accounted (forgotten es) s
AccountedMain es fault = ⊥

count-without :
    (x y : ℕ) (ys : List ℕ) → among y ys ≡ true → count x (without y ys) + bit (y == x) ≡ count x ys
unfolding without
count-without x y [] member = cc
count-without x y (z ∷ ys) member = elim (Bool-cases (z == y)) [
  | inl here ↦ ground arith
  | inr behind ↦ ground (arith, count-without x y ys)
]

count-pos : (x : ℕ) (ys : List ℕ) → among x ys ≡ true → 0 < count x ys
count-pos x [] member = cc
count-pos x (y ∷ ys) member = ground (arith, count-pos x ys)

among_of_count : (x : ℕ) (ys : List ℕ) → 0 < count x ys → among x ys ≡ true
among_of_count x [] some_one = absurd (omega arith)
among_of_count x (y ∷ ys) some_one = ground (arith, among_of_count x ys)

-- A live block, taken off the heap.
record Taken (p : ℕ) (heap : List (ℕ × ℕ)) : Type 0 where
  value : ℕ
  found : content p heap ≡ some value
  rest : addresses (freed p heap) ≡ without p (addresses heap)
  kept : (x : ℕ) → count x (contents (freed p heap)) + bit (value == x) ≡ count x (contents heap)

content-Taken : (p : ℕ) (heap : List (ℕ × ℕ)) → among p (addresses heap) ≡ true → Taken p heap
unfolding content freed without
content-Taken p [] member = cc
content-Taken p ((q, v) ∷ heap) member = elim (Bool-cases (q == p)) [
  | inl here ↦ record {
    value = v;
    found = rw here refl;
    rest = rw here refl;
    kept = λ x. rw here (omega arith);
  }
  | inr behind ↦
      let t = content-Taken p heap (ground (arith, member)) in
      record {
        value = t.value;
        found = rw behind t.found;
        rest = rw behind (ap (λ (l : List ℕ). q ∷ l) t.rest);
        kept = λ x. rw behind (omega (arith, t.kept x));
      }
]

accept_one-Accounted :
    (lost : ℕ → ℕ) (r : Round) (s : Server)
    → Accounted lost s
    → Accounted (λ x. count x (without_arg r) + lost x) (accept_one r s)
unfolding accept_one without freed
accept_one-Accounted lost r s inv = elim (Option-cases r.accept) [
  | inl refused ↦
      rw refused (record { sockets = λ x. omega (arith, inv.sockets x); args = inv.args })
  | inr (fd, accepted) ↦ elim (Option-cases r.malloc) [
    | inl no_memory ↦
        rw accepted
          (rw no_memory (record { sockets = λ x. omega (arith, inv.sockets x); args = inv.args }))
    | inr (arg, memory) ↦ elim (Bool-cases r.create) [
      | inl created ↦ rw accepted (
          rw memory (
            rw created (record {
              sockets = λ x. omega (arith, inv.sockets x);
              args = ap (λ (l : List ℕ). arg ∷ l) inv.args;
            })))
      | inr failed ↦ rw accepted (
          rw memory (
            rw failed (record {
              sockets = λ x. ground (arith, inv.sockets x);
              args = ground (arith, inv.args);
            })))
    ]
  ]
]

read_arg-Accounted :
    (lost : ℕ → ℕ) (arg : ℕ) (s : Server)
    → Accounted lost s
    → (after : Server) × (read_arg arg s ≡ some after) × Accounted lost after
unfolding read_arg
read_arg-Accounted lost arg s inv = elim (Bool-cases (among arg s.started)) [
  | inr idle ↦ (s, rw idle refl, inv)
  | inl reads ↦
      let t = content-Taken arg s.heap (ap (among arg) inv.args ∙ reads) in
      (
        record s {
          heap = freed arg s.heap;
          started = without arg s.started;
          serving = t.value ∷ s.serving;
        },
        rw reads (rw t.found refl),
        record {
          sockets = λ x. omega (arith, inv.sockets x, t.kept x);
          args = t.rest ∙ ap (without arg) inv.args;
        },
      )
]

end_thread-Accounted :
    (lost : ℕ → ℕ) (fd : ℕ) (net : Network) (s : Server)
    → (handle_client net).overran ≡ false
    → Accounted lost s
    → Accounted lost (end_thread fd net s)
unfolding end_thread
end_thread-Accounted lost fd net s whole inv = elim (Bool-cases (among fd s.serving)) [
  | inr idle ↦ rw idle inv
  | inl serves_it ↦
      let once = (handle_client-IsTidy net).client_once whole in
      let is_open : among fd s.opened ≡ true =
        among_of_count fd s.opened
          (omega (arith, inv.sockets fd, count-pos fd s.serving serves_it)) in
      rw serves_it (
        rw (once, closed)
          (record {
            sockets = λ x. omega (
              arith,
              inv.sockets x,
              count-without x fd s.opened is_open,
              count-without x fd s.serving serves_it,
            );
            args = inv.args;
          }))
]

set_up-Accounted : (c : Setup) → AccountedMain [] (set_up c)
unfolding set_up without
set_up-Accounted c = elim (Option-cases c.socket) [
  | inl refused ↦ rw refused refl
  | inr (fd, made) ↦
      let closed_again : without fd (fd ∷ []) ≡ [] = ground arith in
      elim (Bool-cases (c.setsockopt && c.bind && c.listen)) [
        | inl ready ↦
            let ok : set_up c ≡ serves (new_server fd) = ground (arith, made, ready) in
            rw ok (record { sockets = λ x. omega arith; args = refl })
        | inr failed ↦
            let ends : set_up c ≡ returned [] = ground (arith, made, failed, closed_again) in
            rw ends refl
      ]
]

go_on-Accounted :
    (e : Event) (es : List Event) (m : Main)
    → NoOverrun (e ∷ es)
    → AccountedMain es m
    → AccountedMain (e ∷ es) (go_on e m)
unfolding go_on happen
go_on-Accounted e es (returned opened) whole before = before
go_on-Accounted e es fault whole before = absurd before
go_on-Accounted (accepting r) es (serves s) whole before =
    accept_one-Accounted (forgotten es) r s before
go_on-Accounted (reading arg) es (serves s) whole before =
    let (after, run, inv) = read_arg-Accounted (forgotten es) arg s before in
    let goes : go_on (reading arg) (serves s) ≡ serves after = rw (run, go_on) refl in
    subst (AccountedMain (reading arg ∷ es)) (sym goes) inv
go_on-Accounted (ending fd net) es (serves s) whole before =
    end_thread-Accounted (forgotten es) fd net s whole.0 before

earlier : (e : Event) (es : List Event) → NoOverrun (e ∷ es) → NoOverrun es
earlier (accepting r) es whole = whole
earlier (reading arg) es whole = whole
earlier (ending fd net) es whole = whole.1

-- After any sequence of rounds, of threads that read their argument and of threads that end
-- without writing past their array, `main` has read no memory that is not live. Where it returned,
-- no socket is left open. While it serves, each number stands among the listening socket, the
-- sockets of the threads that have still to end, and those of the connections for which malloc had
-- no memory, exactly as often as among the open sockets; so these last stay open when every thread
-- has ended. The arguments on the heap are those of the threads that have not read theirs.
pub main-Accounted : (c : Setup) (es : List Event) → NoOverrun es → AccountedMain es (main c es)
unfolding main
main-Accounted c [] whole = set_up-Accounted c
main-Accounted c (e ∷ es) whole =
    go_on-Accounted e es (main c es) whole (main-Accounted c es (earlier e es whole))
