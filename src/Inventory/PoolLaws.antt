-- ===== src/Inventory/PoolLaws.antt =====
-- Building the pools ends, and gives the tree that the platform describes.
use cloudify_vsphere_plugin.Common.{
  ℕ, zero, suc, ◌<◌, ◌≡◌, refl, sym, ap, ◌∙◌, String, Text, unquote, Bool, true, false, Option,
  none, some, List, [], ◌∷◌, All, str_eq, eq_iff, is_some, Result, ok, Exec, Bool-cases,
  Option-cases, inl, inr, ◌⊎◌, arith,
}
use cloudify_vsphere_plugin.Inventory.{RawPool, Pool, PoolList, pool, nil, cons}
use cloudify_vsphere_plugin.Inventory.Pools.{
  find_pool, set_name, build_all, build_resource_pool_object, get_resource_pools, ids_of, keep,
}

-- What does not change while names are decoded: whether there is a name, and the pools inside.
abbrev pub Shape : Type 0
Shape = Option (Bool × Option (List String))

abbrev pub shape : Option RawPool → Shape
shape none = none
shape (some p) = some (is_some p.name, p.resource_pool)

has_name : {o o' : Bool × Option (List String)} → some o ≡ some o' → o.0 ≡ o'.0
has_name h = cc

set_name-shape :
    (id j : String) (name : Text) (ps : List RawPool) {inner : Option (List String)}
    → shape (find_pool id ps) ≡ some (true, inner)
    → shape (find_pool j (set_name id name ps)) ≡ shape (find_pool j ps)
unfolding set_name
set_name-shape id j name [] there = refl
set_name-shape id j name (p ∷ ps) there = elim (Bool-cases (str_eq p.id id)) [
  | inl found ↦
      let named : is_some p.name ≡ true = has_name (rw found at there) in
      rw found (renamed named (Bool-cases (str_eq p.id j)))
  | inr other ↦
      rw other
        (later (set_name-shape id j name ps (rw other at there)) (Bool-cases (str_eq p.id j)))
]
  where
    renamed :
        is_some p.name ≡ true
        → (str_eq p.id j ≡ true) ⊎ (str_eq p.id j ≡ false)
        → shape (find_pool j ((record p { name = some name }) ∷ ps)) ≡ shape (find_pool j (p ∷ ps))
    renamed named (inl same) = rw (same, named) refl
    renamed named (inr differs) = rw differs refl

    later :
        shape (find_pool j (set_name id name ps)) ≡ shape (find_pool j ps)
        → (str_eq p.id j ≡ true) ⊎ (str_eq p.id j ≡ false)
        → shape (find_pool j (p ∷ set_name id name ps)) ≡ shape (find_pool j (p ∷ ps))
    later rest (inl same) = rw same refl
    later rest (inr differs) = rw (differs, rest) refl

module _ (outline : String → Shape) (rank : String → ℕ) where
  -- Every pool has its properties, and the pools inside it are there and of a lower rank.
  abbrev pub IsForest : Type 0
  IsForest =
      (id : String) (named : Bool) (inner : Option (List String))
      → outline id ≡ some (named, inner)
      → (named ≡ true)
        × (ids : List String) × (inner ≡ some ids)
        × All (λ c. (is_some (outline c) ≡ true) × (rank c < rank id)) ids

  abbrev pub Outlines : List RawPool → Type 0
  Outlines ps = (id : String) → shape (find_pool id ps) ≡ outline id

abbrev pub root : Pool → String
root (pool id name inner) = id

abbrev pub roots : PoolList → List String
roots nil = []
roots (cons p ps) = root p ∷ roots ps

-- The tree has below each pool the pools that the outline has inside it.
unfoldable mutual
  pub Mirrors : (String → Shape) → Pool → Type 0
  Mirrors outline (pool id name inner) =
      (outline id ≡ some (true, some (roots inner))) × MirrorsAll outline inner

  pub MirrorsAll : (String → Shape) → PoolList → Type 0
  MirrorsAll outline nil = Unit
  MirrorsAll outline (cons p ps) = Mirrors outline p × MirrorsAll outline ps

build-step :
    (n : ℕ) (id : String) (s s' : List RawPool) (p : RawPool) (raw : Text) (ids : List String)
    (kids : PoolList)
    → find_pool id s ≡ some p
    → p.name ≡ some raw
    → p.resource_pool ≡ some ids
    → build_all (build_resource_pool_object n) ids (set_name id (unquote raw) s) ≡ (ok kids, s')
    → build_resource_pool_object (suc n) id s ≡ (ok (pool id (unquote raw) kids), s')
unfolding build_resource_pool_object
build-step n id s s' p raw ids kids found named inner built = rw found (simp (named, inner, built))

module _ (outline : String → Shape) where
  -- A build of one pool that succeeds with the tree of that id, and leaves the outline as it is.
  abbrev pub Built : String → Result Pool × List RawPool → Type 0
  Built id out =
      (tree : Pool) × (s' : List RawPool) × (out ≡ (ok tree, s'))
      × (root tree ≡ id)
      × Mirrors outline tree
      × ((j : String) → shape (find_pool j s') ≡ outline j)

  abbrev pub AllBuilt : List String → Result PoolList × List RawPool → Type 0
  AllBuilt ids out =
      (trees : PoolList) × (s' : List RawPool) × (out ≡ (ok trees, s'))
      × (roots trees ≡ ids)
      × MirrorsAll outline trees
      × ((j : String) → shape (find_pool j s') ≡ outline j)

  build_all-Built :
      (P : String → Type 0) (build : String → Exec (List RawPool) Pool)
      → ((id : String) (s : List RawPool)
          → P id
          → ((j : String) → shape (find_pool j s) ≡ outline j)
          → Built id (build id s))
      → (ids : List String) (s : List RawPool) → All P ids
      → ((j : String) → shape (find_pool j s) ≡ outline j)
      → AllBuilt ids (build_all build ids s)
  unfolding build_all Mirrors
  build_all-Built P build each [] s good same = (nil, s, refl, refl, tt, same)
  build_all-Built P build each (id ∷ ids) s (p, ps) same =
      let (tree, s1, e, at_root, mirrors, same1) = each id s p same in
      let (trees, s2, e', at_roots, mirrors', same2) =
        build_all-Built P build each ids s1 ps same1 in
      (cons tree trees, s2, rw (e, e') refl, cc, (mirrors, mirrors'), same2)

some-eq : {A : Type 0} {a b : A} → some a ≡ some b → a ≡ b
some-eq h = cc

raw_of :
    (outline : String → Shape) (id : String) (s : List RawPool) (ids : List String)
    → shape (find_pool id s) ≡ some (true, some ids)
    → (p : RawPool) × (raw : Text) × (find_pool id s ≡ some p)
      × (p.name ≡ some raw)
      × (p.resource_pool ≡ some ids)
raw_of outline id s ids there = by_pool (find_pool id s) there
  where
    by_pool :
        (o : Option RawPool)
        → shape o ≡ some (true, some ids)
        → (p : RawPool) × (raw : Text) × (o ≡ some p)
          × (p.name ≡ some raw)
          × (p.resource_pool ≡ some ids)
    by_pool none h = cc
    by_pool (some p) h = elim (Option-cases p.name) [
      | inl missing ↦
          let named : is_some p.name ≡ true = ap (λ t. t.0) (some-eq h) in cc (rw missing at named)
      | inr (raw, named) ↦ (p, raw, refl, named, ap (λ t. t.1) (some-eq h))
    ]

abbrev Findable : List RawPool → String → Type 0
Findable ps id = is_some (find_pool id ps) ≡ true

some-shape : (o : Option RawPool) → is_some o ≡ true → is_some (shape o) ≡ true
some-shape none h = cc
some-shape (some p) h = refl

Findable-cons :
    (p : RawPool) (ps : List RawPool) (ids : List String)
    → All (Findable ps) ids
    → All (Findable (p ∷ ps)) ids
Findable-cons p ps [] h = tt
Findable-cons p ps (id ∷ ids) (found, h) = (ground arith, Findable-cons p ps ids h)

ids_found : (ps : List RawPool) → All (Findable ps) (ids_of ps)
ids_found [] = tt
ids_found (p ∷ ps) =
    (rw ((eq_iff p.id p.id).1 refl) refl, Findable-cons p ps (ids_of ps) (ids_found ps))

module _ (outline : String → Shape) (rank : String → ℕ) (forest : IsForest outline rank) where
  abbrev Reachable : ℕ → String → Type 0
  Reachable n id = (is_some (outline id) ≡ true) × (rank id < n)

  lower_ranks :
      (n m : ℕ) (ids : List String)
      → m < suc n
      → All (λ c. (is_some (outline c) ≡ true) × (rank c < m)) ids
      → All (Reachable n) ids
  lower_ranks n m [] less h = tt
  lower_ranks n m (id ∷ ids) less ((there, below), rest) =
      ((there, omega (arith, less, below)), lower_ranks n m ids less rest)

  full_outline :
      (id : String)
      → is_some (outline id) ≡ true
      → (ids : List String) × (outline id ≡ some (true, some ids))
        × All (λ c. (is_some (outline c) ≡ true) × (rank c < rank id)) ids
  full_outline id there = by_shape (outline id) refl there
    where
      by_shape :
          (o : Shape)
          → outline id ≡ o
          → is_some o ≡ true
          → (ids : List String) × (outline id ≡ some (true, some ids))
            × All (λ c. (is_some (outline c) ≡ true) × (rank c < rank id)) ids
      by_shape none e h = cc
      by_shape (some (named, inner)) e h =
          let (good, ids, same, lower) = forest id named inner e in
          (ids, rw (e, good, same) refl, lower)

  -- With room for the rank of a pool, building it ends with the tree that the outline describes.
  build_ranked :
      (n : ℕ) (id : String) (s : List RawPool)
      → Reachable n id
      → Outlines outline rank s
      → Built outline id (build_resource_pool_object n id s)
  unfolding Mirrors
  build_ranked zero id s (there, less) same = absurd (omega (arith, less))
  build_ranked (suc n) id s (there, less) same =
      let (ids, full, lower) = full_outline id there in
      let (p, raw, found, named, inner) = raw_of outline id s ids (same id ∙ full) in
      let s1 = set_name id (unquote raw) s in
      let (trees, s2, built, at_roots, mirrors, same2) =
        build_all-Built outline (Reachable n) (build_resource_pool_object n)
          (λ c t reach stable. build_ranked n c t reach stable) ids s1
          (lower_ranks n (rank id) ids less lower)
          (λ j. set_name-shape id j (unquote raw) s (same id ∙ full) ∙ same j) in
      (
        pool id (unquote raw) trees,
        s2,
        build-step n id s s2 p raw ids trees found named inner built,
        refl,
        (full ∙ ap (λ l. some (true, some l)) (sym at_roots), mirrors),
        same2,
      )

  reached :
      (depth : ℕ) (results : List RawPool)
      → Outlines outline rank results
      → (ids : List String) → All (Findable results) ids
      → All (λ id. rank id < depth) ids
      → All (Reachable depth) ids
  reached depth results same [] h k = tt
  reached depth results same (id ∷ ids) (found, h) (less, k) = (
    (ap is_some (sym (same id)) ∙ some-shape (find_pool id results) found, less),
    reached depth results same ids h k,
  )

  -- If the pools that the platform gives form a forest, with each pool inside another of a lower
  -- rank, and Python may recurse deeper than any rank, the client gets one tree for each of them,
  -- with the pools below it that the platform has there, and keeps them.
  pub get_resource_pools_ends :
      (depth : ℕ) (results : List RawPool)
      → Outlines outline rank results
      → All (λ id. rank id < depth) (ids_of results)
      → (trees : PoolList) × (get_resource_pools depth results false none ≡ (ok trees, some trees))
        × (get_resource_pools depth results true (some trees) ≡ (ok trees, some trees))
        × (roots trees ≡ ids_of results)
        × MirrorsAll outline trees
  unfolding get_resource_pools
  get_resource_pools_ends depth results same deep =
      let (trees, s2, built, at_roots, mirrors, _) =
        build_all-Built outline (Reachable depth) (build_resource_pool_object depth)
          (λ c t reach stable. build_ranked depth c t reach stable) (ids_of results) results
          (reached depth results same (ids_of results) (ids_found results) deep) same in
      (trees, ap (λ out. keep none out.0) built, refl, at_roots, mirrors)
