-- ===== src/Storage/Build.antt =====
-- `storage_init`, `storage_destroy` and `generate_gandom_string` of 2.3/src/mutex/list.c, which rwlock and
-- spinlock repeat with their own lock.
pub mod Chain
pub mod Laws
use mathlib.Core.Option
use os_5_sem.Base.{
  ℕ, zero, suc, ◌+◌, ◌-◌, ◌%◌, Bool, true, false, Option, none, some, List, [], ◌∷◌, ◌==◌,
  if◌then◌else◌, codes,
}
use os_5_sem.Storage.Memory.{Node, write}
use os_5_sem.Storage.{Storage}

abbrev charset : List ℕ
charset = codes "0123456789abcdefghijklmnopqrstuvwxyzABCDEFGHIJKLMNOPQRSTUVWXYZ"

-- Both `sizeof(buf) - 1` and `sizeof(charset) - 1`: `buf` and `charset` are pointers of eight bytes.
abbrev max_size : ℕ
max_size = 8 - 1

nth : List ℕ → ℕ → ℕ
nth [] i = 0
nth (c ∷ s) zero = c
nth (c ∷ s) (suc i) = nth s i

-- The loop of `generate_gandom_string`. `rand i` is what the call of rand number `i` returns.
pub fill : (rand : ℕ → ℕ) → (next str_len : ℕ) → List ℕ
unfolding nth
fill rand next zero = []
fill rand next (suc k) = nth charset (rand next % max_size) ∷ fill rand (next + 1) k

-- With the number of the first call of rand that it makes.
pub generate_gandom_string : (rand : ℕ → ℕ) → (next : ℕ) → List ℕ
unfolding fill
generate_gandom_string rand next = fill rand (next + 1) (rand next % max_size + 1)

-- The nodes, and how many Storage blocks are live.
pub record Arena : Type 0 where
  pub nodes : ℕ → Option Node
  pub storages : ℕ

-- The loop of `storage_init`: `complete` is false where malloc failed.
pub record Built : Type 0 where
  pub complete : Bool
  pub memory : ℕ → Option Node

-- The loop over the `k` nodes that are left, behind `prev`. `malloc i` is what the call of malloc number
-- `i` returns; `none` is a fault.
pub build :
    (malloc : ℕ → Option ℕ)
    → (rand : ℕ → ℕ) → (k i next prev : ℕ) → (ℕ → Option Node)
    → Option Built
unfolding generate_gandom_string
build malloc rand zero i next prev h = some (record { complete = true; memory = h })
build malloc rand (suc k) i next prev h = elim (malloc i) [
  | none ↦ some (record { complete = false; memory = h })
  | some cur ↦
      let value = generate_gandom_string rand next in
      let h1 = write h cur (some (record { value = value; next = 0 })) in
      elim (h1 prev) [
        | none ↦ none
        | some c ↦
            build malloc rand k (i + 1) (next + (rand next % max_size + 2)) cur
              (write h1 prev (some (record c { next = cur })))
      ]
]

-- The loop of `storage_destroy`; `none` is a fault or a lack of fuel.
pub free_nodes : (fuel first : ℕ) → (ℕ → Option Node) → Option (ℕ → Option Node)
free_nodes zero first h = none
free_nodes (suc k) first h =
    if first == 0
    then some h
    else elim (h first) [ none ↦ none | some c ↦ free_nodes k c.next (write h first none) ]

pub storage_destroy : (fuel : ℕ) → Option Storage → Arena → Option Arena
unfolding free_nodes
storage_destroy fuel none a = some a
storage_destroy fuel (some s) a =
    Option.map (λ h. record { nodes = h; storages = a.storages - 1 })
      (free_nodes fuel s.first a.nodes)

-- After the loop.
pub finish : (n first : ℕ) → Arena → Built → Option (Option Storage × Arena)
unfolding storage_destroy
finish n first a b =
    let s : Storage = record { first = first; size = n } in
    let filled : Arena = record a { nodes = b.memory } in
    if b.complete
    then some (some s, filled)
    else Option.map (λ a'. (none, a')) (storage_destroy (n + 2) (some s) filled)

-- From the allocation of the first node on.
pub init_first :
    (malloc : ℕ → Option ℕ) → (rand : ℕ → ℕ) → (n : ℕ) → Arena → Option (Option Storage × Arena)
unfolding build finish
init_first malloc rand n a = elim (malloc 1) [
  | none ↦ some (none, a)
  | some first ↦
      elim (build malloc rand n 2 0 first
        (write a.nodes first (some (record { value = []; next = 0 })))) [
          | none ↦ none
          | some b ↦ finish n first a b
        ]
]

-- `n` is 0 for every int that is not positive.
pub storage_init :
    (malloc : ℕ → Option ℕ) → (rand : ℕ → ℕ) → (n : ℕ) → Arena → Option (Option Storage × Arena)
unfolding init_first
storage_init malloc rand n a = if n == 0 then some (none, a) else elim (malloc 0) [
  | none ↦ some (none, a)
  | some s ↦ init_first malloc rand n (record a { storages = a.storages + 1 })
]
