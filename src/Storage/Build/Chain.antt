-- ===== src/Storage/Build/Chain.antt =====
-- The loops of `storage_init` and `storage_destroy` of 2.3/src/mutex/list.c: what the first one links, whole
-- or cut short, and that the second one frees all of it.
use os_5_sem.Base.{
  ℕ, zero, suc, ◌+◌, ◌-◌, ◌%◌, ◌<◌, ◌≤◌, ◌≡◌, ◌≢◌, refl, true, false, Option, none, some, List, [],
  ◌∷◌, arith, length, ◌∙◌, if◌then◌else◌, Bool-cases, Option-cases, inl, inr,
}
use os_5_sem.Storage.Memory.{Node, write}
use os_5_sem.Storage.Layout.{Cells, first_of, has, Linked, Linked-write}
use os_5_sem.Storage.Build.{
  Arena, Built, fill, generate_gandom_string, build, free_nodes, storage_destroy, finish,
  init_first,
}

-- malloc returns no NULL but as a failure, and no block twice while none is freed.
pub record IsMalloc (malloc : ℕ → Option ℕ) : Type 0 where
  pub not_null : (i : ℕ) → malloc i ≢ some 0
  pub distinct : (i j : ℕ) → i ≢ j → {a : ℕ} → malloc i ≡ some a → malloc j ≢ some a

-- Each text has from 1 to 7 bytes.
abbrev pub Sized : Cells → Type 0
Sized [] = Unit {0}
Sized ((p, v) ∷ xs) = (0 < length v) × (length v ≤ 7) × Sized xs

length-fill : (rand : ℕ → ℕ) (next k : ℕ) → length (fill rand next k) ≡ k
unfolding fill
length-fill rand next zero = refl
length-fill rand next (suc k) = omega (arith, length-fill rand (next + 1) k)

string_sized :
    (rand : ℕ → ℕ) (next : ℕ)
    → (0 < length (generate_gandom_string rand next))
      × (length (generate_gandom_string rand next) ≤ 7)
unfolding generate_gandom_string
string_sized rand next =
    let same = length-fill rand (next + 1) (rand next % 7 + 1) in
    (omega (arith, same), omega (arith, same))

module _ (malloc : ℕ → Option ℕ) (rand : ℕ → ℕ) where
  -- The loop runs, and the memory then holds `prev` with new nodes behind it, and is otherwise as before.
  pub record Chain (k i next prev : ℕ) (v : List ℕ) (h : ℕ → Option Node) : Type 0 where
    pub built : Built
    pub runs : build malloc rand k i next prev h ≡ some built
    pub cells : Cells
    pub linked : Linked built.memory ((prev, v) ∷ cells)
    pub same : (a : ℕ) → has a ((prev, v) ∷ cells) ≡ false → built.memory a ≡ h a
    pub fresh : (a : ℕ) → ((j : ℕ) → i ≤ j → malloc j ≢ some a) → has a cells ≡ false
    pub few : length cells ≤ k
    pub full : built.complete ≡ true → length cells ≡ k
    pub whole : ((j : ℕ) → i ≤ j → j < i + k → malloc j ≢ none) → built.complete ≡ true
    pub sized : Sized cells

  pub build-Chain :
      (k i next prev : ℕ) (v : List ℕ) (h : ℕ → Option Node)
      → IsMalloc malloc
      → prev ≢ 0
      → ((j : ℕ) → i ≤ j → malloc j ≢ some prev)
      → h prev ≡ some (record { value = v; next = 0 })
      → Chain k i next prev v h
  unfolding build
  build-Chain zero i next prev v h is ne older at = record {
    built = record { complete = true; memory = h };
    runs = refl;
    cells = [];
    linked = (ne, refl, at, tt);
    same = λ a out. refl;
    fresh = λ a old. refl;
    few = omega arith;
    full = λ all. refl;
    whole = λ all. refl;
    sized = tt;
  }
  build-Chain (suc k) i next prev v h is ne older at = elim (Option-cases (malloc i)) [
    | inl refused ↦ record {
      built = record { complete = false; memory = h };
      runs = rw (refused, build);
      cells = [];
      linked = (ne, refl, at, tt);
      same = λ a out. refl;
      fresh = λ a old. refl;
      few = omega arith;
      full = λ all. cc;
      whole = λ all. absurd (all i (omega arith) (omega arith) refused);
      sized = tt;
    }
    | inr got ↦
        let cur = got.0 in
        let value = generate_gandom_string rand next in
        let h1 : ℕ → Option Node = write h cur (some (record { value = value; next = 0 })) in
        let h2 : ℕ → Option Node = write h1 prev (some (record { value = v; next = cur })) in
        let apart : cur ≢ prev = ground (arith, older i, got.1) in
        let at1 : h1 prev ≡ some (record { value = v; next = 0 }) = ground arith in
        let at2 : h2 prev ≡ some (record { value = v; next = cur }) = ground arith in
        let at_cur : h2 cur ≡ some (record { value = value; next = 0 }) = ground arith in
        let some_cur : cur ≢ 0 = ground (arith, is.not_null i, got.1) in
        let rest =
          build-Chain k (i + 1) (next + (rand next % 7 + 2)) cur value h2 is some_cur
            (λ j le. is.distinct i j (omega arith) got.1) at_cur in
        let behind : has prev rest.cells ≡ false =
          rest.fresh prev (λ j le. older j (omega arith)) in
        record {
          built = rest.built;
          runs = rw (got.1, build) (rw at1 rest.runs);
          cells = (cur, value) ∷ rest.cells;
          linked = (ne, ground arith, rest.same prev (ground arith) ∙ at2, rest.linked);
          same = λ a out. rest.same a (ground arith) ∙ ground arith;
          fresh = λ a old. ground (arith, old i, got.1, rest.fresh a (λ j le. old j (omega arith)));
          few = omega (arith, rest.few);
          full = λ all. omega (arith, rest.full all);
          whole = λ all. rest.whole (λ j le lt. all j (omega arith) (omega arith));
          sized = ((string_sized rand next).0, (string_sized rand next).1, rest.sized);
        }
  ]

pub free_nodes-frees :
    (fuel : ℕ) (h : ℕ → Option Node) (xs : Cells)
    → Linked h xs
    → length xs < fuel
    → (g : ℕ → Option Node) × (free_nodes fuel (first_of xs) h ≡ some g)
      × ((a : ℕ) → g a ≡ (if has a xs then none else h a))
unfolding free_nodes
free_nodes-frees zero h xs l enough = absurd (omega arith)
free_nodes-frees (suc k) h [] l enough = (h, refl, λ a. refl)
free_nodes-frees (suc k) h ((p, v) ∷ xs) l enough =
    let (g, walked, freed) =
      free_nodes-frees k (write h p none) xs (Linked-write h p none xs l.1 l.3) (omega arith) in
    (g, ground (arith, l.0, l.2, walked), λ a. ground (arith, freed a))

-- No node is live that was not live before.
abbrev pub NoneNew : (before after : ℕ → Option Node) → Type 0
NoneNew before after = (x : ℕ) → before x ≡ none → after x ≡ none

module _ (malloc : ℕ → Option ℕ) (rand : ℕ → ℕ) (n : ℕ) (a : Arena) (first : ℕ)
    (is : IsMalloc malloc) (e : malloc 1 ≡ some first) where
  abbrev pub started : ℕ → Option Node
  started = write a.nodes first (some (record { value = []; next = 0 }))

  pub chain : Chain malloc rand n 2 0 first [] started
  chain =
      build-Chain malloc rand n 2 0 first [] started is (ground (arith, is.not_null 1, e))
        (λ j le. is.distinct 1 j (omega arith) e) (ground arith)

  pub init_first-chain : init_first malloc rand n a ≡ finish n first a chain.built
  unfolding init_first
  init_first-chain = rw (e, init_first) (rw chain.runs)

  -- Destroying the list that was built, whole or not.
  pub storage_destroy-chain :
      (m : ℕ)
      → (g : ℕ → Option Node) × (storage_destroy
            (n + 2)
            (some (record { first = first; size = n }))
            (record { nodes = chain.built.memory; storages = m })
          ≡ some (record { nodes = g; storages = m - 1 }))
        × NoneNew a.nodes g
  unfolding storage_destroy
  storage_destroy-chain m =
      let c = chain in
      let (g, runs, freed) =
        free_nodes-frees (n + 2) c.built.memory ((first, []) ∷ c.cells) c.linked
          (omega (arith, c.few)) in
      (
        g,
        rw runs,
        λ x out. elim (Bool-cases (has x ((first, []) ∷ c.cells))) [
          | inl inside ↦ freed x ∙ rw inside
          | inr outside ↦ freed x ∙ rw outside (c.same x outside ∙ untouched x outside ∙ out)
        ],
      )
    where
      untouched : (x : ℕ) → has x ((first, []) ∷ chain.cells) ≡ false → started x ≡ a.nodes x
      untouched x outside = ground arith
