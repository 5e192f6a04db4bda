-- ===== src/Inventory/Pools.antt =====
-- _build_resource_pool_object and _get_resource_pools.
use cloudify_vsphere_plugin.Common.{
  ℕ, zero, suc, String, Text, unquote, Bool, true, Option, some, List, [], ◌∷◌, find, str_eq,
  Result, ok, err, Error, runtime_error, operation_retry, key_error, Exec, pure, raise, gets,
  modify, or_raise, ◌>>=◌, ◌>>◌, if◌then◌else◌,
}
use cloudify_vsphere_plugin.Inventory.{RawPool, Pool, PoolList, pool, nil, cons}

abbrev pub find_pool : String → List RawPool → Option RawPool
find_pool id pools = find (λ p. str_eq p.id id) pools

-- `this_pool['name'] = self._get_normalised_name(...)` on the first pool of that id
unfoldable pub set_name : String → Text → List RawPool → List RawPool
set_name id name [] = []
set_name id name (p ∷ ps) =
    if str_eq p.id id then (record p { name = some name }) ∷ ps else p ∷ set_name id name ps

-- The loop over the pools inside a pool.
unfoldable pub build_all :
    (String → Exec (List RawPool) Pool) → List String → Exec (List RawPool) PoolList
build_all build [] = pure nil
build_all build (id ∷ ids) = do p ← build id; ps ← build_all build ids; pure (cons p ps)

abbrev recursion_error : Error
recursion_error = runtime_error "maximum recursion depth exceeded"

-- The first argument is how deep Python may still recurse.
unfoldable pub build_resource_pool_object : ℕ → String → Exec (List RawPool) Pool
unfolding build_all set_name
build_resource_pool_object zero id = raise recursion_error
build_resource_pool_object (suc n) id = do
  found ← gets (find_pool id)
  this ←
      or_raise found (operation_retry "Resource pools changed while getting resource pool details.")
  raw ← or_raise this.name (key_error "name")
  modify (set_name id (unquote raw))
  inner ← or_raise this.resource_pool (key_error "resourcePool")
  children ← build_all (build_resource_pool_object n) inner
  pure (pool id (unquote raw) children)

-- The cache of the client, as far as it holds pools.
abbrev pub PoolCache : Type 0
PoolCache = Option PoolList

abbrev pub ids_of : List RawPool → List String
ids_of [] = []
ids_of (p ∷ ps) = p.id ∷ ids_of ps

abbrev pub keep : PoolCache → Result PoolList → Result PoolList × PoolCache
keep cache (ok pools) = (ok pools, some pools)
keep cache (err e) = (err e, cache)

-- The pools from the cache, or else built from what the platform gives and kept.
unfoldable pub get_resource_pools : ℕ → List RawPool → Bool → Exec PoolCache PoolList
unfolding build_resource_pool_object
get_resource_pools depth results true (some pools) = (ok pools, some pools)
get_resource_pools depth results _ cache =
    keep cache (build_all (build_resource_pool_object depth) (ids_of results) results).0
