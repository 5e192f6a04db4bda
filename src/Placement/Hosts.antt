-- ===== src/Placement/Hosts.antt =====
-- ServerClient.get_host_cluster_membership, get_host_networks and find_candidate_hosts.
use cloudify_vsphere_plugin.Common.{
  contains, ℕ, String, Bool, true, false, ◌&&◌, not, Option, none, some, List, [], ◌∷◌, filter, any,
  str_eq, Text, text_eq, lower, unquote, Result, ok, err, non_recoverable, and_then, if◌then◌else◌,
}
use cloudify_vsphere_plugin.Placement.{Network, Host}
use cloudify_vsphere_plugin.Placement.Datastores.{is_allowed}
use cloudify_vsphere_plugin.Placement.PoolTree.{pool_name, get_host_resource_pools}
use cloudify_vsphere_plugin.Placement.Ratings.{
  Floats, host_is_usable, host_cpu_thread_usage_ratio, host_memory_usage_ratio,
}
use cloudify_vsphere_plugin.Placement.Sorting.{sort_descending}

unfoldable pub get_host_cluster_membership : Host → Option String
get_host_cluster_membership host = if host.parent.is_cluster then some host.parent.name else none

-- `allowed_clusters` is set and the host's cluster is not in it
unfoldable pub cluster_refused : List String → Host → Bool
unfolding get_host_cluster_membership
cluster_refused [] host = false
cluster_refused (c ∷ cs) host = elim (get_host_cluster_membership host) [
  | none ↦ true
  | some cluster ↦ not (contains cluster (c ∷ cs))
]

-- `_get_normalised_name`
abbrev pub normalised : Text → Text
normalised name = lower (unquote name)

-- The pairs that `find_candidate_hosts` puts into sets are equal.
abbrev pub same_network : Network → Network → Bool
same_network a b =
    text_eq (normalised a.name) (normalised b.name)
    && (if a.switch_distributed then b.switch_distributed else not b.switch_distributed)

-- `vm_nets.difference(host_nets)` is not empty
unfoldable pub lacks_networks : List Network → List Network → Bool
lacks_networks vm_networks host_networks =
    any (λ n. not (any (λ h. same_network n h) host_networks)) vm_networks

unfoldable pub has_pool : String → Host → Bool
unfolding get_host_resource_pools
has_pool name host = any (λ p. str_eq (pool_name p) name) (get_host_resource_pools host)

-- The arguments of `find_candidate_hosts`.
pub record Wanted : Type 0 where
  pub resource_pool : String
  pub vm_cpus : ℕ
  pub vm_memory : ℕ
  pub vm_networks : List Network
  pub allowed_hosts : List String
  pub allowed_clusters : List String

module _ (f : Floats) where
  -- A candidate with its two ratings.
  pub record Rated : Type 0 where
    pub host : Host
    pub cpu : f.Float
    pub memory : f.Float

  -- The body of the loop over the hosts; `none` is a `continue`.
  unfoldable pub examine : Wanted → Host → Result (Option Rated)
  examine r host =
      if not (host_is_usable host)
      then ok none
      else if cluster_refused r.allowed_clusters host
      then ok none
      else and_then (host_memory_usage_ratio f host r.vm_memory) λ memory_weight.
        if not (has_pool r.resource_pool host)
        then ok none
        else if lacks_networks r.vm_networks host.networks
        then ok none
        else and_then (host_cpu_thread_usage_ratio f host r.vm_cpus) λ cpu_weight.
          ok (some (record { host = host; cpu = cpu_weight; memory = memory_weight }))

  abbrev pub append_rated : Option Rated → List Rated → List Rated
  append_rated none rest = rest
  append_rated (some c) rest = c ∷ rest

  unfoldable pub examine_all : Wanted → List Host → Result (List Rated)
  examine_all r [] = ok []
  examine_all r (host ∷ hosts) =
      and_then (examine r host)
        λ found. and_then (examine_all r hosts) λ rest. ok (append_rated found rest)

  -- `lambda host_rating: host_rating[1] * host_rating[2]`
  abbrev pub rating : Rated → f.Float
  rating c = f.times c.cpu c.memory

  abbrev pub or_no_host : List Rated → Result (List Rated)
  or_no_host [] = err (
      non_recoverable
        "No healthy hosts could be found with resource pool {pool}, and all required networks.")
  or_no_host (c ∷ cs) = ok (c ∷ cs)

  unfoldable pub find_candidate_hosts : Wanted → List Host → Result (List Rated)
  find_candidate_hosts r hosts =
      and_then (examine_all r (filter (λ h. is_allowed r.allowed_hosts h.name) hosts))
        λ found. or_no_host (sort_descending f rating found)
