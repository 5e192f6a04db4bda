-- ===== src/Network/IpPools.antt =====
-- The ip pools: create_ippool and delete_ippool of NetworkClient, and create and delete of
-- vsphere_network_plugin/ippool.py.
use cloudify_vsphere_plugin.Common.{
  String, Text, codes, text_eq, starts_with, Bool, true, false, not, Option, none, some, List, [],
  ◌∷◌, map, filter, ℤ, int, Value, flag, lookup, Dict, truthy, Result, ok, err, non_recoverable,
  key_error, attribute_error, and_then, Exec, pure, gets, lift, or_raise, ◌>>=◌, ◌>>◌,
  if◌then◌else◌,
}
use cloudify_vsphere_plugin.Runtime.{World, get_prop, put_prop, read_prop, send}
use cloudify_vsphere_plugin.Inventory.{Entity}
use cloudify_vsphere_plugin.Inventory.Lookup.{get_obj_by_name}

abbrev pub ippool_id : String
ippool_id = "ippool"

-- The fields that are set in the pool and its `ipv4Config`.
pub record PoolSpec : Type 0 where
  pub name : Value
  pub subnet : Value
  pub netmask : Value
  pub gateway : Value
  pub range : Value
  pub dhcp : Value
  pub enabled : Value

-- Requests, in a datacenter by its id; the networks are those of the associations, by their ids.
pub data IpCall : Type 0 where
  create_ip_pool : String → PoolSpec → List String → IpCall
  destroy_ip_pool : String → Value → IpCall

-- A network as `_collect_properties` gives it.
pub record RawNetwork : Type 0 where
  pub id : String
  pub name : Text

-- What the client reads: datacenters and distributed groups from its cache, networks from vSphere.
pub record IpView : Type 0 where
  pub datacenters : List Entity
  pub dv_groups : List Entity
  pub networks : List RawNetwork

-- The runtime properties of a related network that count here.
pub record PoolNetwork : Type 0 where
  pub network_name : Option Text
  pub switch_distributed : Value

abbrev required : String → Dict Value → Result Value
required key d = elim (lookup key d) [ none ↦ err (key_error key) | some v ↦ ok v ]

abbrev get_or : String → Value → Dict Value → Value
get_or key v d = elim (lookup key d) [ none ↦ v | some w ↦ w ]

unfoldable pub pool_spec : Dict Value → Result PoolSpec
pool_spec ippool = and_then (required "name" ippool) (λ n. and_then (required "subnet" ippool) (λ s.
    and_then (required "netmask" ippool) (λ m. and_then (required "gateway" ippool) (λ g.
      and_then (required "range" ippool) (λ r. ok (record {
        name = n;
        subnet = s;
        netmask = m;
        gateway = g;
        range = r;
        dhcp = get_or "dhcp" (flag false) ippool;
        enabled = get_or "enabled" (flag true) ippool;
      }))))))

-- The standard networks of that name.
abbrev pub standard_ids : List RawNetwork → Text → List String
standard_ids networks name =
    map (λ (n : RawNetwork). n.id)
      (filter (λ n. text_eq n.name name)
        (filter (λ n. not (starts_with (codes n.id) (codes "dvportgroup"))) networks))

-- `networkAssociation.insert(0, ...)` for each
abbrev pub insert_each : List String → List String → List String
insert_each [] associations = associations
insert_each (i ∷ is') associations = insert_each is' (i ∷ associations)

abbrev pub insert_group : Option Entity → List String → Result (List String)
insert_group none associations = err attribute_error
insert_group (some g) associations = ok (g.id ∷ associations)

abbrev pub attach_named : IpView → Text → Bool → List String → Result (List String)
attach_named view name true associations =
    insert_group (get_obj_by_name view.dv_groups name none) associations
attach_named view name false associations =
    ok (insert_each (standard_ids view.networks name) associations)

abbrev pub attach : IpView → Option Text → Bool → List String → Result (List String)
attach view none distributed associations = err (key_error "network_name")
attach view (some name) distributed associations = attach_named view name distributed associations

unfoldable pub attach_all : IpView → List PoolNetwork → List String → Result (List String)
attach_all view [] associations = ok associations
attach_all view (n ∷ ns) associations =
    and_then (attach view n.network_name (truthy n.switch_distributed) associations)
      (attach_all view ns)

module _ (reply : List IpCall → IpCall → ℤ) (view : IpView) (datacenter_name : Text) where
  abbrev find_datacenter : Exec (World IpCall) Entity
  find_datacenter =
      or_raise (get_obj_by_name view.datacenters datacenter_name none)
        (non_recoverable "Unable to get datacenter: {datacenter}")

  unfoldable pub create_ippool : Dict Value → List PoolNetwork → Exec (World IpCall) Value
  create_ippool ippool networks = do
    dc ← find_datacenter
    spec ← lift (pool_spec ippool)
    associations ← lift (attach_all view networks [])
    id ← gets (λ w. reply w.calls (create_ip_pool dc.id spec associations))
    send (create_ip_pool dc.id spec associations)
    pure (int id)

  unfoldable pub delete_ippool : Value → Exec (World IpCall) (Unit {0})
  delete_ippool id = do dc ← find_datacenter; send (destroy_ip_pool dc.id id)

  -- A pool that the instance has an id of is not created again.
  unfoldable pub create_pool : Dict Value → List PoolNetwork → Exec (World IpCall) (Unit {0})
  unfolding create_ippool
  create_pool ippool networks = do
    saved ← get_prop ippool_id
    if truthy saved then pure tt else (do id ← create_ippool ippool networks; put_prop ippool_id id)

  unfoldable pub delete_pool : Exec (World IpCall) (Unit {0})
  unfolding delete_ippool
  delete_pool = do
    saved ← get_prop ippool_id
    if not (truthy saved) then pure tt else (do id ← read_prop ippool_id; delete_ippool id)
