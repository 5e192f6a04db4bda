-- ===== src/Placement/PoolTree.antt =====
-- ServerClient.recurse_resource_pools, get_host_resource_pools and get_resource_pool: the resource
-- pools of a host, those inside other pools included.
use cloudify_vsphere_plugin.Common.{
  ◌≡◌, ◌↔◌, inl, inr, refl, subst, String, Bool, Option, none, some, List, [], ◌∷◌, ◌++◌, find,
  Within, Within-of_find, fails_of_find, Within-append_left, Within-append_right, append_cases,
  str_eq, eq_iff, Result, ok, err, non_recoverable,
}
use cloudify_vsphere_plugin.Placement.{Pool, PoolList, pool, nil, cons, Host}

abbrev pub pool_name : Pool → String
pool_name (pool name children) = name

unfoldable mutual
  pub recurse_resource_pools : Pool → List Pool
  recurse_resource_pools (pool name children) = recurse_children children

  pub recurse_children : PoolList → List Pool
  recurse_children nil = []
  recurse_children (cons p ps) = p ∷ (recurse_resource_pools p ++ recurse_children ps)

unfoldable pub get_host_resource_pools : Host → List Pool
unfolding recurse_resource_pools
get_host_resource_pools host =
    host.parent.resource_pool ∷ recurse_resource_pools host.parent.resource_pool

abbrev or_missing : Option Pool → Result Pool
or_missing none = err (non_recoverable "Resource pool {rp} not found on host {host}.")
or_missing (some p) = ok p

unfoldable pub get_resource_pool : Host → String → Result Pool
unfolding get_host_resource_pools
get_resource_pool host name =
    or_missing (find (λ p. str_eq (pool_name p) name) (get_host_resource_pools host))

-- `q` is one of the pools or stands somewhere inside one of them.
pub data Inside (q : Pool) : PoolList → Type 0 where
  first : {ps : PoolList} → Inside q (cons q ps)
  deeper :
      {name : String} {children ps : PoolList}
      → Inside q children
      → Inside q (cons (pool name children) ps)
  next : {p : Pool} {ps : PoolList} → Inside q ps → Inside q (cons p ps)

pub Inside-of_recurse : (q : Pool) (ps : PoolList) → Within q (recurse_children ps) → Inside q ps
unfolding recurse_resource_pools
Inside-of_recurse q nil m = absurd m
Inside-of_recurse q (cons (pool name children) ps) (inl same) =
    subst (λ x. Inside q (cons x ps)) same first
Inside-of_recurse q (cons (pool name children) ps) (inr later) =
    elim (append_cases q (recurse_children children) (recurse_children ps) later) [
      | inl below ↦ deeper (Inside-of_recurse q children below)
      | inr beside ↦ next (Inside-of_recurse q ps beside)
    ]

pub recurse_of_Inside : {q : Pool} {ps : PoolList} → Inside q ps → Within q (recurse_children ps)
unfolding recurse_resource_pools
recurse_of_Inside first = inl refl
recurse_of_Inside {q} (deeper {name = n} {children = c} {ps = ps} inside) =
    inr (Within-append_left q (recurse_children c) (recurse_children ps) (recurse_of_Inside inside))
recurse_of_Inside {q} (next {p = pool n c} {ps = ps} inside) =
    inr
      (Within-append_right q (recurse_children c) (recurse_children ps) (recurse_of_Inside inside))

-- A pool belongs to a host if it is the pool of its compute resource or stands inside that.
abbrev pub IsPoolOf : Pool → Host → Type 0
IsPoolOf q host = Inside q (cons host.parent.resource_pool nil)

pub pools_iff : (q : Pool) (host : Host) → Within q (get_host_resource_pools host) ↔ IsPoolOf q host
unfolding get_host_resource_pools
pools_iff q host =
    ((λ m. Inside-of_recurse q (cons root nil) (pad m)), λ m. unpad (recurse_of_Inside m))
  where
    root : Pool
    root = host.parent.resource_pool

    pad : Within q (get_host_resource_pools host) → Within q (recurse_children (cons root nil))
    pad (inl same) = inl same
    pad (inr later) = inr (Within-append_left q (recurse_resource_pools root) [] later)

    unpad : Within q (recurse_children (cons root nil)) → Within q (get_host_resource_pools host)
    unpad (inl same) = inl same
    unpad (inr later) = elim (append_cases q (recurse_resource_pools root) [] later) [
      | inl below ↦ inr below
      | inr nowhere ↦ absurd nowhere
    ]

-- A host with a pool of that name gives one of its pools, and of that name.
pub get_resource_pool_found :
    (host : Host) (name : String) (q : Pool)
    → IsPoolOf q host
    → pool_name q ≡ name
    → (p : Pool) × (get_resource_pool host name ≡ ok p) × IsPoolOf p host × (pool_name p ≡ name)
unfolding get_resource_pool
get_resource_pool_found host name q of_host named =
    searched (find test (get_host_resource_pools host)) refl
  where
    test : Pool → Bool
    test p = str_eq (pool_name p) name

    searched :
        (o : Option Pool)
        → find test (get_host_resource_pools host) ≡ o
        → (p : Pool) × (or_missing o ≡ ok p) × IsPoolOf p host × (pool_name p ≡ name)
    searched none e = cc (
      (eq_iff (pool_name q) name).1 named,
      fails_of_find test (get_host_resource_pools host) e ((pools_iff q host).1 of_host),
    )
    searched (some p) e =
        let (there, good) = Within-of_find test (get_host_resource_pools host) e in
        (p, refl, (pools_iff p host).0 there, (eq_iff (pool_name p) name).0 good)
