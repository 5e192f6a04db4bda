-- ===== src/Inventory/CacheLaws.antt =====
-- The cache of the resource pools against the answers that were given before.
use cloudify_vsphere_plugin.Common.{
  ℕ, ◌≡◌, refl, ap, ◌∙◌, Bool, true, false, Option, none, some, List, [], ◌∷◌, Result, ok, err,
}
use cloudify_vsphere_plugin.Inventory.{RawPool, PoolList}
use cloudify_vsphere_plugin.Inventory.Pools.{
  build_all, build_resource_pool_object, PoolCache, ids_of, keep, get_resource_pools,
}

-- The last answer that was no error, of answers with the latest in front.
abbrev pub last_success : List (Result PoolList) → Option PoolList
last_success [] = none
last_success (ok pools ∷ _) = some pools
last_success (err _ ∷ history) = last_success history

abbrev or_fresh : Option PoolList → Result PoolList → Result PoolList
or_fresh none fresh = fresh
or_fresh (some pools) fresh = ok pools

-- What a call is to answer: what the platform has now, or, if the cache may be used, the last
-- answer that was no error.
abbrev pub wanted_answer : Bool → Result PoolList → List (Result PoolList) → Result PoolList
wanted_answer false fresh history = fresh
wanted_answer true fresh history = or_fresh (last_success history) fresh

module _ (depth : ℕ) where
  -- What the pools of the platform are built to.
  abbrev pub platform_pools : List RawPool → Result PoolList
  platform_pools results = (build_all (build_resource_pool_object depth) (ids_of results) results).0

  -- The answers to a sequence of calls, each with its flag and the pools that the platform has then.
  abbrev pub answers : List (Bool × List RawPool) → PoolCache → List (Result PoolList)
  answers [] cache = []
  answers ((use_cache, results) ∷ calls) cache =
      let (answer, cache') = get_resource_pools depth results use_cache cache in
      answer ∷ answers calls cache'

  abbrev pub wanted_answers :
      List (Bool × List RawPool) → List (Result PoolList) → List (Result PoolList)
  wanted_answers [] history = []
  wanted_answers ((use_cache, results) ∷ calls) history =
      let answer = wanted_answer use_cache (platform_pools results) history in
      answer ∷ wanted_answers calls (answer ∷ history)

  keep-last :
      (history : List (Result PoolList)) (r : Result PoolList)
      → keep (last_success history) r ≡ (r, last_success (r ∷ history))
  keep-last history (ok pools) = refl
  keep-last history (err e) = refl

  -- The cache after a call holds the last answer that was no error.
  call-last :
      (use_cache : Bool) (results : List RawPool) (history : List (Result PoolList))
      → let answer = wanted_answer use_cache (platform_pools results) history in
        get_resource_pools depth results use_cache (last_success history)
        ≡ (answer, last_success (answer ∷ history))
  unfolding get_resource_pools
  call-last false results history = keep-last history (platform_pools results)
  call-last true results history = from (last_success history) refl
    where
      from :
          (cache : Option PoolList)
          → cache ≡ last_success history
          → get_resource_pools depth results true cache ≡ (
            or_fresh cache (platform_pools results),
            last_success (or_fresh cache (platform_pools results) ∷ history),
          )
      from (some pools) e = refl
      from none e =
          ap (λ c. keep c (platform_pools results)) e ∙ keep-last history (platform_pools results)

  -- The answers of a client with an empty cache, while the pools of the platform change from call to
  -- call: without use_cache a call answers what the platform has then; with it, the last answer that
  -- was no error, or what the platform has then if there is none.
  pub get_resource_pools_refines :
      (calls : List (Bool × List RawPool)) → answers calls none ≡ wanted_answers calls []
  get_resource_pools_refines calls = from calls []
    where
      from :
          (cs : List (Bool × List RawPool)) (history : List (Result PoolList))
          → answers cs (last_success history) ≡ wanted_answers cs history
      from [] history = refl
      from ((use_cache, results) ∷ cs) history =
          let answer = wanted_answer use_cache (platform_pools results) history in
          rw (call-last use_cache results history)
            (ap (λ l. answer ∷ l) (from cs (answer ∷ history)))
