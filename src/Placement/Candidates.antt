-- ===== src/Placement/Candidates.antt =====
-- The contract of `find_candidate_hosts`, and that `get_resource_pool` cannot fail afterwards.
use cloudify_vsphere_plugin.Common.{
  contains, ◌≡◌, ◌⊎◌, ◌↔◌, inl, inr, refl, sym, subst, String, true, false, none, some, List, [],
  ◌∷◌, Within, Within-of_any, any_of_Within, str_eq, eq_iff, ok, arith,
}
use cloudify_vsphere_plugin.Placement.{Network, Pool, Host}
use cloudify_vsphere_plugin.Placement.Datastores.{is_allowed}
use cloudify_vsphere_plugin.Placement.PoolTree.{
  pool_name, get_host_resource_pools, IsPoolOf, pools_iff,
}
use cloudify_vsphere_plugin.Placement.Ratings.{
  Floats, host_is_usable, host_cpu_thread_usage_ratio, host_memory_usage_ratio,
}
use cloudify_vsphere_plugin.Placement.Hosts.{
  cluster_refused, same_network, lacks_networks, has_pool, Wanted, Rated, examine,
}

-- A host that may take the server: on the allowed list, healthy, in an allowed cluster, with the
-- resource pool and with every network that the server asks for.
pub record IsSuitable (r : Wanted) (host : Host) : Type 0 where
  pub allowed : is_allowed r.allowed_hosts host.name ≡ true
  pub usable : host_is_usable host ≡ true
  pub cluster :
      (r.allowed_clusters ≡ [])
      ⊎ ((host.parent.is_cluster ≡ true) × (contains host.parent.name r.allowed_clusters ≡ true))
  pub pool : (p : Pool) × IsPoolOf p host × (pool_name p ≡ r.resource_pool)
  pub networks :
      (n : Network)
      → Within n r.vm_networks
      → (h : Network) × Within h host.networks × (same_network n h ≡ true)

pub cluster_iff :
    (allowed : List String) (host : Host)
    → (cluster_refused allowed host ≡ false) ↔ (
        (allowed ≡ [])
        ⊎ ((host.parent.is_cluster ≡ true) × (contains host.parent.name allowed ≡ true)))
unfolding cluster_refused
cluster_iff [] host = ground arith
cluster_iff (c ∷ cs) host = ground arith

pub pool_iff :
    (name : String) (host : Host)
    → (has_pool name host ≡ true) ↔ ((p : Pool) × IsPoolOf p host × (pool_name p ≡ name))
unfolding has_pool
pool_iff name host = (
  (λ h.
      let (p, there, same) =
        Within-of_any (λ p. str_eq (pool_name p) name) (get_host_resource_pools host) h in
      (p, (pools_iff p host).0 there, (eq_iff (pool_name p) name).0 same)),
  λ h.
      any_of_Within (λ p. str_eq (pool_name p) name) (get_host_resource_pools host)
        ((pools_iff h.0 host).1 h.1) ((eq_iff (pool_name h.0) name).1 h.2),
)

pub networks_of_covered :
    (vm_networks host_networks : List Network)
    → lacks_networks vm_networks host_networks ≡ false
    → (n : Network) → Within n vm_networks
    → (h : Network) × Within h host_networks × (same_network n h ≡ true)
unfolding lacks_networks
networks_of_covered [] hs e n m = absurd m
networks_of_covered (v ∷ vs) hs e n (inr later) = networks_of_covered vs hs (ground arith) n later
networks_of_covered (v ∷ vs) hs e n (inl same) =
    let (h, there, good) = Within-of_any (λ k. same_network v k) hs (ground arith) in
    (h, there, subst (λ w. same_network w h ≡ true) (sym same) good)

pub covered_of_networks :
    (vm_networks host_networks : List Network)
    → ((n : Network)
        → Within n vm_networks
        → (h : Network) × Within h host_networks × (same_network n h ≡ true))
    → lacks_networks vm_networks host_networks ≡ false
unfolding lacks_networks
covered_of_networks [] hs e = refl
covered_of_networks (v ∷ vs) hs e =
    let (h, there, same) = e v (inl refl) in
    rw (any_of_Within (λ k. same_network v k) hs there same)
      (covered_of_networks vs hs (λ n m. e n (inr m)))

module _ (f : Floats) (r : Wanted) where
  -- The ratings of a candidate are those of its host.
  abbrev pub IsRated : Rated f → Type 0
  IsRated c =
      (host_cpu_thread_usage_ratio f c.host r.vm_cpus ≡ ok c.cpu)
      × (host_memory_usage_ratio f c.host r.vm_memory ≡ ok c.memory)

  pub examine_found :
      (host : Host) {c : Rated f}
      → examine f r host ≡ ok (some c)
      → (c.host ≡ host)
        × (host_is_usable host ≡ true)
        × (cluster_refused r.allowed_clusters host ≡ false)
        × (has_pool r.resource_pool host ≡ true)
        × (lacks_networks r.vm_networks host.networks ≡ false)
        × (host_cpu_thread_usage_ratio f host r.vm_cpus ≡ ok c.cpu)
        × (host_memory_usage_ratio f host r.vm_memory ≡ ok c.memory)
  unfolding examine
  examine_found host e = ground arith

  -- The reasons for which the loop goes on to the next host.
  pub examine_passed_over :
      (host : Host)
      → examine f r host ≡ ok none
      → host_is_usable host ≡ true
      → cluster_refused r.allowed_clusters host ≡ false
      → has_pool r.resource_pool host ≡ true
      → lacks_networks r.vm_networks host.networks ≡ false
      → ⊥
  unfolding examine
  examine_passed_over host e = ground arith
