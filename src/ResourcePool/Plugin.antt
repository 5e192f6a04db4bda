-- ===== src/ResourcePool/Plugin.antt =====
-- The operations of the resource pool plugin.
use cloudify_vsphere_plugin.Common.{
  String, Text, Bool, Option, none, some, List, [], ◌∷◌, Value, no_fields, field, str, joined, obj,
  non_recoverable, Exec, pure, lift, gets, or_raise, ◌>>=◌, ◌>>◌, if◌then◌else◌,
}
use cloudify_vsphere_plugin.Runtime.{World, Platform, get_prop, put_prop, save}
use cloudify_vsphere_plugin.Helpers.Related.{Relationship, find_rels_by_type}
use cloudify_vsphere_plugin.Inventory.{Entity}
use cloudify_vsphere_plugin.ResourcePool.{
  PoolConfig, PoolSpec, PoolCall, update_config, Resources, PoolServer,
}
use cloudify_vsphere_plugin.ResourcePool.Spec.{get_pool_spec}
use cloudify_vsphere_plugin.ResourcePool.Client.{
  get_resource_pool_by_name, ask, create_resource_pool, create_contained_resource_pool,
  delete_resource_pool,
}

abbrev pub resource_pool_id : String
resource_pool_id = "vsphere_resource_pool_id"

abbrev pub contained_in : String
contained_in = "cloudify.relationships.vsphere.resource_pool_contained_in"

abbrev pub expected_configuration : String
expected_configuration = "expected_configuration"

pub record PoolInputs : Type 0 where
  pub name : Text
  pub use_external_resource : Bool
  pub host_name : Text
  pub cluster_name : Text
  pub pool_spec : Option PoolSpec

abbrev pub find_pool_or_raise : Resources → Text → Exec (World PoolCall) Entity
find_pool_or_raise r name = or_raise (get_resource_pool_by_name r name) (
    non_recoverable
      "Could not use existing resource_pool \"{name}\" as no resource_pool by that name exists!")

abbrev pub id_or_raise : Option String → Exec (World PoolCall) String
id_or_raise made = or_raise made (non_recoverable "resource pool was not created.")

-- `pool_id_of` gives what an instance at the end of a relationship has for `resource_pool_id`.
module _ (v : PoolServer) (r : Resources) (pool_id_of : String → Value) where
  abbrev pub create_contained :
      List Relationship → Text → PoolConfig → Exec (World PoolCall) (Option String)
  create_contained (rel ∷ []) name spec =
      create_contained_resource_pool v r name (pool_id_of rel.target_instance) spec
  create_contained _ name spec = pure none

  -- On the host, or else on the cluster, or else in the one pool that it is contained in.
  unfoldable pub create_somewhere :
      Text → Text → List Relationship → Text → PoolConfig → Exec (World PoolCall) (Option String)
  create_somewhere (c ∷ cs) cluster_name rels name spec =
      create_resource_pool v r.compute_resources name (c ∷ cs) spec
  create_somewhere [] (c ∷ cs) rels name spec = create_resource_pool v r.clusters name (c ∷ cs) spec
  create_somewhere [] [] rels name spec =
      create_contained (find_rels_by_type rels contained_in) name spec

  unfoldable pub create_new : PoolInputs → List Relationship → Exec (World PoolCall) (Unit {0})
  create_new i rels = do
    spec ← lift (get_pool_spec i.pool_spec none)
    made ← create_somewhere i.host_name i.cluster_name rels i.name spec
    id ← id_or_raise made
    put_prop resource_pool_id (str id)

  abbrev pub use_existing : Text → Exec (World PoolCall) (Unit {0})
  use_existing name = do pool ← find_pool_or_raise r name; put_prop resource_pool_id (str pool.id)

  unfoldable pub create_pool_instance :
      PoolInputs → List Relationship → Exec (World PoolCall) (Unit {0})
  create_pool_instance i rels =
      if i.use_external_resource then use_existing i.name else create_new i rels

unfoldable pub delete_pool_instance :
    Platform PoolCall → Resources → PoolInputs → Exec (World PoolCall) (Unit {0})
delete_pool_instance p r i =
    if i.use_external_resource then pure tt else delete_resource_pool p r i.name

module _ (v : PoolServer) (r : Resources) where
  abbrev update_found : Option Entity → Text → Option PoolSpec → Exec (World PoolCall) (Unit {0})
  update_found none name pool_spec = pure tt
  update_found (some e) name pool_spec = do
    old ← gets (λ w. v.config w.calls e.id)
    spec ← lift (get_pool_spec pool_spec (some old))
    _ ← ask v (update_config e.id name spec)
    pure tt

  unfoldable pub update_resource_pool : Text → Option PoolSpec → Exec (World PoolCall) (Unit {0})
  update_resource_pool name pool_spec =
      update_found (get_resource_pool_by_name r name) name pool_spec

abbrev pub pool_configuration : Entity → Value
pool_configuration e = obj (field "name" (joined e.name) (field "id" (str e.id) no_fields))

unfoldable pub pool_poststart : Resources → Text → Exec (World PoolCall) (Unit {0})
pool_poststart r name = do
  pool ← find_pool_or_raise r name
  put_prop expected_configuration (pool_configuration pool)
  save

-- What the library finds when it compares the two configurations is only logged: the operation
-- answers `None` and changes nothing.
unfoldable pub check_pool_drift : Resources → Text → Exec (World PoolCall) (Unit {0})
check_pool_drift r name = do
  _ ← find_pool_or_raise r name
  _ ← get_prop expected_configuration
  pure tt
