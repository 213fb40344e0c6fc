-- ===== src/Storage/Build/Laws.antt =====
-- What `storage_init` and `storage_destroy` of 2.3/src/mutex/list.c do.
use os_5_sem.Base.{
  ℕ, ◌+◌, ◌-◌, ◌<◌, ◌≡◌, ◌≢◌, refl, false, Option, none, some, [], ◌∷◌, arith, length, ◌==◌, ◌∙◌,
  Bool-cases, Option-cases, inl, inr,
}
use os_5_sem.Storage.Memory.{Node}
use os_5_sem.Storage.Layout.{Cells, has, Linked}
use os_5_sem.Storage.{Storage}
use os_5_sem.Storage.Build.{Arena, storage_destroy, finish, init_first, storage_init}
use os_5_sem.Storage.Build.Chain.{
  IsMalloc, Sized, NoneNew, chain, init_first-chain, storage_destroy-chain, free_nodes-frees,
}

-- Where no call of malloc fails, `storage_init` does not fault and gives a Storage of the size asked for.
-- Its list is a first node with the empty text and as many nodes behind it, each with a text of 1 to 7
-- bytes; one more Storage block is live, and memory outside the list is as before.
pub storage_init-Linked :
    (malloc : ℕ → Option ℕ) (rand : ℕ → ℕ) (n : ℕ) (a : Arena)
    → IsMalloc malloc
    → 0 < n
    → ((j : ℕ) → j < n + 2 → malloc j ≢ none)
    → (first : ℕ) × (g : ℕ → Option Node) × (cells : Cells) × (storage_init malloc rand n a
        ≡ some (
          some (record { first = first; size = n }),
          record { nodes = g; storages = a.storages + 1 },
        ))
      × Linked g ((first, []) ∷ cells)
      × (length cells ≡ n)
      × Sized cells
      × ((x : ℕ) → has x ((first, []) ∷ cells) ≡ false → g x ≡ a.nodes x)
unfolding storage_init finish
storage_init-Linked malloc rand n a is some_nodes all = elim (Option-cases (malloc 0)) [
  | inl refused ↦ absurd (all 0 (omega arith) refused)
  | inr block ↦ elim (Option-cases (malloc 1)) [
    | inl refused ↦ absurd (all 1 (omega arith) refused)
    | inr first ↦
        let b : Arena = record a { storages = a.storages + 1 } in
        let c = chain malloc rand n b first.0 is first.1 in
        let done = c.whole (λ j le lt. all j (omega arith)) in
        let positive : (n == 0) ≡ false = ground arith in
        (
          first.0,
          c.built.memory,
          c.cells,
          rw (positive, storage_init)
              (rw block.1
                (rw (init_first-chain malloc rand n b first.0 is first.1, finish) (rw done))),
          c.linked,
          c.full done,
          c.sized,
          λ x out. ground (arith, c.same x out),
        )
  ]
]

-- What `storage_init` leaves where it returns NULL: no node that was not live before; and no Storage block,
-- unless `n` is above 0 and it was the first node that malloc refused.
pub record Failed (malloc : ℕ → Option ℕ) (n : ℕ) (a a' : Arena) : Type 0 where
  pub nodes : NoneNew a.nodes a'.nodes
  pub freed : malloc 1 ≢ none → a'.storages ≡ a.storages
  pub leaked : 0 < n → malloc 0 ≢ none → malloc 1 ≡ none → a'.storages ≡ a.storages + 1

-- `storage_init` does not fault and ends, whichever calls of malloc fail. Where it returns NULL it has freed every
-- node that it allocated. It has then freed the Storage block as well, except where malloc refused the
-- first node: then, for `n` above 0, it leaks that block.
pub storage_init_failure :
    (malloc : ℕ → Option ℕ) (rand : ℕ → ℕ) (n : ℕ) (a : Arena)
    → IsMalloc malloc
    → (o : Option Storage) × (a' : Arena) × (storage_init malloc rand n a ≡ some (o, a'))
      × (o ≡ none → Failed malloc n a a')
unfolding storage_init init_first finish
storage_init_failure malloc rand n a is = elim (Bool-cases (n == 0)) [
  | inl empty ↦ (
    none,
    a,
    rw (empty, storage_init),
    λ fails. record {
      nodes = λ x out. out;
      freed = λ some1. refl;
      leaked = λ positive. absurd (ground arith);
    },
  )
  | inr positive ↦ elim (Option-cases (malloc 0)) [
    | inl refused ↦ (
      none,
      a,
      rw (positive, storage_init) (rw refused),
      λ fails. record {
        nodes = λ x out. out;
        freed = λ some1. refl;
        leaked = λ above some0. absurd (some0 refused);
      },
    )
    | inr block ↦
        let b : Arena = record a { storages = a.storages + 1 } in
        let goes : storage_init malloc rand n a ≡ init_first malloc rand n b =
          rw (positive, storage_init) (rw block.1) in
        elim (Option-cases (malloc 1)) [
          | inl refused ↦ (
            none,
            b,
            goes ∙ rw (refused, init_first),
            λ fails. record {
              nodes = λ x out. out;
              freed = λ some1. absurd (some1 refused);
              leaked = λ above some0 none1. refl;
            },
          )
          | inr first ↦
              let c = chain malloc rand n b first.0 is first.1 in
              let run = goes ∙ init_first-chain malloc rand n b first.0 is first.1 in
              let (g, destroyed, gone) =
                storage_destroy-chain malloc rand n b first.0 is first.1 b.storages in
              elim (Bool-cases c.built.complete) [
                | inl all ↦ (
                  some (record { first = first.0; size = n }),
                  record b { nodes = c.built.memory },
                  run ∙ rw (all, finish),
                  λ fails. absurd (ground arith),
                )
                | inr cut ↦ (
                  none,
                  record { nodes = g; storages = a.storages + 1 - 1 },
                  run ∙ rw (cut, finish) (rw destroyed),
                  λ fails. record {
                    nodes = gone;
                    freed = λ some1. omega arith;
                    leaked = λ above some0 none1. absurd (ground (arith, first.1));
                  },
                )
              ]
        ]
  ]
]

-- Where no call of malloc fails, `storage_destroy` on what `storage_init` returns does not fault, and
-- gives back the Storage block and every node: none is live that was not live before.
pub storage_destroy-storage_init :
    (malloc : ℕ → Option ℕ) (rand : ℕ → ℕ) (n : ℕ) (a : Arena)
    → IsMalloc malloc
    → 0 < n
    → ((j : ℕ) → j < n + 2 → malloc j ≢ none)
    → (s : Storage) × (a' a'' : Arena) × (storage_init malloc rand n a ≡ some (some s, a'))
      × (storage_destroy (n + 2) (some s) a' ≡ some a'')
      × NoneNew a.nodes a''.nodes
      × (a''.storages ≡ a.storages)
unfolding storage_destroy
storage_destroy-storage_init malloc rand n a is some_nodes all =
    let (first, g, cells, runs, linked, len, sized, same) =
      storage_init-Linked malloc rand n a is some_nodes all in
    let (g', walked, freed) =
      free_nodes-frees (n + 2) g ((first, []) ∷ cells) linked (omega (arith, len)) in
    (
      record { first = first; size = n },
      record { nodes = g; storages = a.storages + 1 },
      record { nodes = g'; storages = a.storages + 1 - 1 },
      runs,
      rw walked,
      λ x out. elim (Bool-cases (has x ((first, []) ∷ cells))) [
        | inl inside ↦ freed x ∙ rw inside
        | inr outside ↦ freed x ∙ rw outside (same x outside ∙ out)
      ],
      omega arith,
    )
