-- ===== src/Storage/Memory.antt =====
-- Nodes of the list in 2.3/src/*/list.h in memory, the locks that the running thread holds, and the
-- counters. A read or write of a node whose lock is not held faults, as do a second lock of one node,
-- an unlock of a lock that is not held, and a dangling pointer.
use mathlib.Core.Option
use os_5_sem.Base.{
  ℕ, ◌+◌, ◌≡◌, arith, Bool, true, false, ◌&&◌, ◌||◌, Option, none, some, List, [], ◌∷◌, ◌==◌,
  if◌then◌else◌, length,
}

-- `value` holds the bytes before the terminating NUL, so that strlen is its length.
pub record Node : Type 0 where
  pub value : List ℕ
  pub next : ℕ

pub data Mode : Type 0 where
  shared exclusive : Mode

pub record Store : Type 0 where
  pub node : ℕ → Option Node
  pub held : List (ℕ × Mode)
  pub iterations : ℕ
  pub pairs : ℕ
  pub swaps : ℕ

abbrev pub Cmd : Type 0 → Type 0
Cmd A = Store → Option (A × Store)

abbrev pub pure : {A : Type 0} → A → Cmd A
pure a s = some (a, s)

-- A fault, or a lack of fuel.
abbrev pub stuck : {A : Type 0} → Cmd A
stuck s = none

infixl 5 ◌>>=◌ ◌>>◌
abbrev pub ◌>>=◌ : {A B : Type 0} → Cmd A → (A → Cmd B) → Cmd B
◌>>=◌ m f s = elim (m s) [ none ↦ none | some (a, s') ↦ f a s' ]

abbrev pub ◌>>◌ : {B : Type 0} → Cmd (Unit {0}) → Cmd B → Cmd B
m >> k = m >>= λ _. k

abbrev pub holds : ℕ → List (ℕ × Mode) → Bool
holds p [] = false
holds p ((q, m) ∷ held) = (q == p) || holds p held

abbrev is_exclusive : Mode → Bool
is_exclusive shared = false
is_exclusive exclusive = true

abbrev pub holds_exclusive : ℕ → List (ℕ × Mode) → Bool
holds_exclusive p [] = false
holds_exclusive p ((q, m) ∷ held) = ((q == p) && is_exclusive m) || holds_exclusive p held

-- Holding the list, a thread keeps another from locking `p` in this mode.
abbrev pub bars : ℕ → Mode → List (ℕ × Mode) → Bool
bars p shared held = holds_exclusive p held
bars p exclusive held = holds p held

abbrev pub release : ℕ → List (ℕ × Mode) → List (ℕ × Mode)
release p [] = []
release p ((q, m) ∷ held) = if q == p then held else (q, m) ∷ release p held

unfoldable pub lock : Mode → ℕ → Cmd (Unit {0})
lock m p s = elim (s.node p) [
  | none ↦ none
  | some c ↦ if holds p s.held then none else some (tt, record s { held = (p, m) ∷ s.held })
]

unfoldable pub unlock : ℕ → Cmd (Unit {0})
unlock p s = if holds p s.held then some (tt, record s { held = release p s.held }) else none

unfoldable pub next_of : ℕ → Cmd ℕ
next_of p s = if holds p s.held then Option.map (λ c. (c.next, s)) (s.node p) else none

-- `strlen(p->value)`
unfoldable pub len_of : ℕ → Cmd ℕ
len_of p s = if holds p s.held then Option.map (λ c. (length c.value, s)) (s.node p) else none

abbrev pub write : (ℕ → Option Node) → ℕ → Option Node → ℕ → Option Node
write h p c a = if a == p then c else h a

-- `p->next = q`
unfoldable pub set_next : ℕ → ℕ → Cmd (Unit {0})
set_next p q s =
    if holds_exclusive p s.held
    then Option.map (λ c. (tt, record s { node = write s.node p (some (record c { next = q })) }))
        (s.node p)
    else none

-- The counters of the two kinds of thread.
abbrev pub count_iteration : Cmd (Unit {0})
count_iteration s = some (tt, record s { iterations = s.iterations + 1 })

abbrev pub count_pairs : ℕ → Cmd (Unit {0})
count_pairs n s = some (tt, record s { pairs = s.pairs + n })

abbrev pub count_swap : Cmd (Unit {0})
count_swap s = some (tt, record s { swaps = s.swaps + 1 })

-- What each access does where it does not fault.
pub next_of-ok :
    (p : ℕ) (s : Store) (c : Node)
    → holds p s.held ≡ true
    → s.node p ≡ some c
    → next_of p s ≡ some (c.next, s)
unfolding next_of
next_of-ok p s c held e = rw (held, e)

pub lock-ok :
    (m : Mode) (p : ℕ) (s : Store) (c : Node)
    → holds p s.held ≡ false
    → s.node p ≡ some c
    → lock m p s ≡ some (tt, record s { held = (p, m) ∷ s.held })
unfolding lock
lock-ok m p s c free e = ground arith

pub unlock-ok :
    (p : ℕ) (s : Store)
    → holds p s.held ≡ true
    → unlock p s ≡ some (tt, record s { held = release p s.held })
unfolding unlock
unlock-ok p s held = rw held

pub len_of-ok :
    (p : ℕ) (s : Store) (c : Node)
    → holds p s.held ≡ true
    → s.node p ≡ some c
    → len_of p s ≡ some (length c.value, s)
unfolding len_of
len_of-ok p s c held e = rw (held, e)
