-- ===== src/ResourcePool/Client.antt =====
-- create_resource_pool, create_contained_resource_pool, get_resource_pool_by_name and
-- delete_resource_pool of ServerClient.
use cloudify_vsphere_plugin.Common.{
  String, Text, pos, Option, none, some, List, Value, null, attribute_error, Exec, pure, lift, gets,
  or_raise, ◌>>=◌, ◌>>◌,
}
use cloudify_vsphere_plugin.Runtime.{World, Platform, submit, send}
use cloudify_vsphere_plugin.Waiting.{wait_for_task}
use cloudify_vsphere_plugin.Inventory.{Entity}
use cloudify_vsphere_plugin.Inventory.Lookup.{get_obj_by_name, get_obj_by_id}
use cloudify_vsphere_plugin.ResourcePool.{
  PoolConfig, PoolCall, create_in_root, create_in_pool, destroy_pool, Resources, PoolServer,
}

abbrev pub get_resource_pool_by_name : Resources → Text → Option Entity
get_resource_pool_by_name r pool_name = get_obj_by_name r.resource_pools pool_name none

module _ (v : PoolServer) where
  -- A request that is answered at once, with the id of the object or a fault.
  abbrev pub ask : PoolCall → Exec (World PoolCall) String
  ask call = do answer ← gets (λ w. v.answer w.calls call); send call; lift answer

  abbrev pub create_for : Option Entity → Text → PoolConfig → Exec (World PoolCall) (Option String)
  create_for none pool_name spec = pure none
  create_for (some e) pool_name spec = do
    id ← ask (create_in_root e.id pool_name spec)
    pure (some id)

  -- `entities` are those of the type that is asked for.
  unfoldable pub create_resource_pool :
      List Entity → Text → Text → PoolConfig → Exec (World PoolCall) (Option String)
  create_resource_pool entities pool_name resource_name spec =
      create_for (get_obj_by_name entities resource_name none) pool_name spec

  unfoldable pub create_contained_resource_pool :
      Resources → Text → Value → PoolConfig → Exec (World PoolCall) (Option String)
  create_contained_resource_pool r pool_name parent_pool_id spec = do
    parent ← or_raise (get_obj_by_id r.resource_pools parent_pool_id) attribute_error
    id ← ask (create_in_pool parent.id pool_name spec)
    pure (some id)

module _ (p : Platform PoolCall) where
  abbrev delete_found : Option Entity → Exec (World PoolCall) (Unit {0})
  delete_found none = pure tt
  delete_found (some e) = do
    task ← submit p (destroy_pool e.id)
    wait_for_task p (some task) (some (pos 300)) null

  unfoldable pub delete_resource_pool : Resources → Text → Exec (World PoolCall) (Unit {0})
  delete_resource_pool r pool_name = delete_found (get_resource_pool_by_name r pool_name)
