-- ===== src/ResourcePool/PluginLaws.antt =====
-- What the creation of a resource pool asks of vSphere.
use cloudify_vsphere_plugin.Common.{
  ◌≡◌, String, none, some, List, [], ◌∷◌, ◌++◌, Value, ok, ◌≢◌, ◌>>=◌, ◌⊎◌,
}
use cloudify_vsphere_plugin.Runtime.{World}
use cloudify_vsphere_plugin.Helpers.Related.{Relationship, find_rels_by_type}
use cloudify_vsphere_plugin.Inventory.{Entity}
use cloudify_vsphere_plugin.Inventory.Lookup.{get_obj_by_name, get_obj_by_id}
use cloudify_vsphere_plugin.ResourcePool.{
  PoolConfig, PoolCall, create_in_root, create_in_pool, Resources, PoolServer,
}
use cloudify_vsphere_plugin.ResourcePool.Plugin.{contained_in, PoolInputs}

module _ (v : PoolServer) (r : Resources) where
  abbrev after : World PoolCall → PoolCall → World PoolCall
  after w call = record w { calls = w.calls ++ call ∷ [] }

  module _ (pool_id_of : String → Value) where
    -- The request that creates the pool: in the root pool of the host, if one is named, or else of
    -- the cluster, if one is named, or else in the pool of the only such relationship.
    abbrev pub IsPlaced : PoolInputs → List Relationship → PoolConfig → PoolCall → Type 0
    IsPlaced i rels c call =
        (e : Entity) × (((i.host_name ≢ [])
            × (get_obj_by_name r.compute_resources i.host_name none ≡ some e)
            × (call ≡ create_in_root e.id i.name c))
          ⊎ ((i.host_name ≡ [])
              × (i.cluster_name ≢ [])
              × (get_obj_by_name r.clusters i.cluster_name none ≡ some e)
              × (call ≡ create_in_root e.id i.name c))
          ⊎ ((i.host_name ≡ [])
              × (i.cluster_name ≡ [])
              × (rel : Relationship) × (find_rels_by_type rels contained_in ≡ rel ∷ [])
              × (get_obj_by_id r.resource_pools (pool_id_of rel.target_instance) ≡ some e)
              × (call ≡ create_in_pool e.id i.name c)))

    -- The request was answered with this id.
    abbrev Made : PoolCall → String → World PoolCall → World PoolCall → Type 0
    Made call id w w' = (v.answer w.calls call ≡ ok id) × (w' ≡ after w call)
