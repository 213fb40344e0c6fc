-- ===== src/Storage/Tests.antt =====
-- A list with three nodes behind its first one, searched and swapped.
use os_5_sem.Base.{
  ◌+◌, ◌<◌, ◌≢◌, ltb, if◌then◌else◌, ◌*◌, length, ◌<◌, ◌≢◌, ℕ, ◌≡◌, refl, false, Option, none, some,
  [], ◌∷◌, arith,
}
use os_5_sem.Storage.Memory.{Node, Mode, shared, write}
use os_5_sem.Storage.Layout.{Cells, Linked, store, has, adjacent_of, swap_at, swaps_at}
use os_5_sem.Storage.{Storage, cmp_asc, pair_searcher, swap_asc_func, swap_pairs}
use os_5_sem.Storage.Build.{Arena, storage_init, storage_destroy}
use os_5_sem.Storage.Build.Chain.{IsMalloc, Sized, NoneNew}
use os_5_sem.Storage.Build.Laws.{Failed, storage_init_failure, storage_destroy-storage_init}
use os_5_sem.Storage.Program.{main_roles, launched, launch, Kept, launch-Kept}
use os_5_sem.Storage.Threads.{System, init, Reach}
use os_5_sem.Storage.Search.{pair_searcher-adjacent_of}
use os_5_sem.Storage.Swap.{swap_pairs-swap_at}

-- Texts of lengths 2, 1 and 3.
abbrev pub three : Cells
three = (20, b'a' ∷ b'b' ∷ []) ∷ (30, b'c' ∷ []) ∷ (40, b'd' ∷ b'e' ∷ b'f' ∷ []) ∷ []

abbrev pub nodes : ℕ → Option Node
nodes =
    write
      (write
        (write (write (λ a. none) 10 (some (record { value = []; next = 20 }))) 20
          (some (record { value = b'a' ∷ b'b' ∷ []; next = 30 })))
        30 (some (record { value = b'c' ∷ []; next = 40 })))
      40 (some (record { value = b'd' ∷ b'e' ∷ b'f' ∷ []; next = 0 }))

pub nodes-Linked : Linked nodes ((10, []) ∷ three)
nodes-Linked = (
  omega arith,
  refl,
  refl,
  (omega arith, refl, refl, (omega arith, refl, refl, (omega arith, refl, refl, tt))),
)

abbrev storage : Storage
storage = record { first = 10; size = 3 }

-- One ascending pair is found in each of two rounds.
pair_searcher-adjacent_of_example :
    pair_searcher shared cmp_asc 3 2 storage (store nodes [] 0 0 0)
    ≡ some (tt, store nodes [] 2 2 0)
unfolding adjacent_of cmp_asc
pair_searcher-adjacent_of_example =
    pair_searcher-adjacent_of shared cmp_asc 3 2 storage [] three nodes 0 0 0 nodes-Linked refl
      (omega arith)

-- The first two nodes are swapped.
swap_pairs-swap_at_example :
    (g : ℕ → Option Node) × (swap_pairs swap_asc_func 4 storage (store nodes [] 0 0 0)
      ≡ some (tt, store g [] 0 0 1))
    × Linked g
        ((10, []) ∷ (30, b'c' ∷ []) ∷ (20, b'a' ∷ b'b' ∷ []) ∷ (40, b'd' ∷ b'e' ∷ b'f' ∷ []) ∷ [])
    × ((a : ℕ) → has a ((10, []) ∷ three) ≡ false → g a ≡ nodes a)
unfolding swap_at swaps_at swap_asc_func
swap_pairs-swap_at_example =
    swap_pairs-swap_at swap_asc_func 4 storage [] three nodes 0 0 0 nodes-Linked refl (omega arith)

-- Blocks of 120 bytes from address 1000 on; `at_most` calls succeed.
abbrev blocks : (at_most : ℕ) → ℕ → Option ℕ
blocks at_most i = if ltb i at_most then some (1000 + 120 * i) else none

blocks-IsMalloc : (at_most : ℕ) → IsMalloc (blocks at_most)
blocks-IsMalloc at_most = record {
  not_null = λ i e. ground arith;
  distinct = λ i j apart e f. ground arith;
}

blocks_given : (j : ℕ) → j < 4 → blocks 4 j ≢ none
blocks_given j lt e = ground arith

abbrev arena : Arena
arena = record { nodes = λ a. none; storages = 0 }

abbrev counting : ℕ → ℕ
counting i = 5 * i

-- The second of two nodes cannot be had.
storage_init_failure_example :
    (o : Option Storage) × (a : Arena) × (storage_init (blocks 3) counting 2 arena ≡ some (o, a))
    × (o ≡ none → Failed (blocks 3) 2 arena a)
storage_init_failure_example = storage_init_failure (blocks 3) counting 2 arena (blocks-IsMalloc 3)

storage_destroy-storage_init_example :
    (s : Storage) × (a b : Arena) × (storage_init (blocks 4) counting 2 arena ≡ some (some s, a))
    × (storage_destroy 4 (some s) a ≡ some b)
    × NoneNew arena.nodes b.nodes
    × (b.storages ≡ 0)
storage_destroy-storage_init_example =
    storage_destroy-storage_init (blocks 4) counting 2 arena (blocks-IsMalloc 4) (omega arith)
      blocks_given

-- `main` with one argument, 2.
launch-Kept_example :
    (s : Storage) × (h : ℕ → Option Node) × (cells : Cells) × (launch 2 2 (blocks 4) counting arena
      ≡ some (launched s (init h main_roles)))
    × (s.size ≡ 2)
    × (length cells ≡ 2)
    × Sized cells
    × ((mode : Mode) (t : System)
        → Reach mode s.first s.size 6 h main_roles t
        → Kept mode s cells h t)
launch-Kept_example =
    launch-Kept 2 2 (blocks 4) counting arena (blocks-IsMalloc 4) (omega arith) (omega arith)
      blocks_given
