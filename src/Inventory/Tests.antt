-- ===== src/Inventory/Tests.antt =====
-- Two pools, a tree of hosts and the interfaces of a machine.
use cloudify_vsphere_plugin.Common.{
  ℕ, ◌≡◌, refl, ap, String, codes, true, false, none, some, List, [], ◌∷◌, ok, str_eq, arith,
  Bool-cases, inl, inr, if◌then◌else◌,
}
use cloudify_vsphere_plugin.Inventory.{RawPool, PoolList}
use cloudify_vsphere_plugin.Inventory.Pools.{build_resource_pool_object, get_resource_pools}
use cloudify_vsphere_plugin.Inventory.PoolLaws.{
  Shape, roots, MirrorsAll, IsForest, Outlines, get_resource_pools_ends,
}
use cloudify_vsphere_plugin.Inventory.CacheLaws.{
  answers, platform_pools, get_resource_pools_refines,
}

abbrev inner_pool : RawPool
inner_pool = record { id = "resgroup-2"; name = some (codes "web"); resource_pool = some [] }

abbrev outer_pool : RawPool
outer_pool = record {
  id = "resgroup-1";
  name = some (codes "Resources");
  resource_pool = some ("resgroup-2" ∷ []);
}

abbrev both_pools : List RawPool
both_pools = outer_pool ∷ inner_pool ∷ []

abbrev outline : String → Shape
outline id =
    if str_eq "resgroup-1" id
    then some (true, some ("resgroup-2" ∷ []))
    else if str_eq "resgroup-2" id
    then some (true, some [])
    else none

abbrev rank : String → ℕ
rank id = if str_eq "resgroup-1" id then 1 else 0

some-eq : {A : Type 0} {a b : A} → some a ≡ some b → b ≡ a
some-eq h = cc

outlined : Outlines outline rank both_pools
outlined id = elim (Bool-cases (str_eq "resgroup-1" id)) [
  | inl first ↦ rw first refl
  | inr not_first ↦ elim (Bool-cases (str_eq "resgroup-2" id)) [
    | inl second ↦ rw (not_first, second) refl
    | inr not_second ↦ rw (not_first, not_second) refl
  ]
]

forest : IsForest outline rank
forest id named inner there = elim (Bool-cases (str_eq "resgroup-1" id)) [
  | inl first ↦
      let e = some-eq (rw first at there) in
      (ap (λ o. o.0) e, "resgroup-2" ∷ [], ap (λ o. o.1) e, ((refl, rw first (omega arith)), tt))
  | inr not_first ↦ elim (Bool-cases (str_eq "resgroup-2" id)) [
    | inl second ↦
        let e = some-eq (rw (not_first, second) at there) in
        (ap (λ o. o.0) e, [], ap (λ o. o.1) e, tt)
    | inr not_second ↦ cc (rw (not_first, not_second) at there)
  ]
]

get_resource_pools_ends_example :
    (trees : PoolList) × (get_resource_pools 2 both_pools false none ≡ (ok trees, some trees))
    × (get_resource_pools 2 both_pools true (some trees) ≡ (ok trees, some trees))
    × (roots trees ≡ "resgroup-1" ∷ "resgroup-2" ∷ [])
    × MirrorsAll outline trees
get_resource_pools_ends_example =
    get_resource_pools_ends outline rank forest 2 both_pools outlined
      (omega arith, (omega arith, tt))

-- The platform loses a pool between the calls.
get_resource_pools_refines_example :
    answers 2
      ((true, both_pools)
        ∷ (true, inner_pool ∷ [])
        ∷ (false, inner_pool ∷ [])
        ∷ (true, both_pools)
        ∷ [])
      none
    ≡ platform_pools 2 both_pools
      ∷ platform_pools 2 both_pools
      ∷ platform_pools 2 (inner_pool ∷ [])
      ∷ platform_pools 2 (inner_pool ∷ [])
      ∷ []
unfolding build_resource_pool_object
get_resource_pools_refines_example = get_resource_pools_refines 2 (
    (true, both_pools)
    ∷ (true, inner_pool ∷ [])
    ∷ (false, inner_pool ∷ [])
    ∷ (true, both_pools)
    ∷ [])
