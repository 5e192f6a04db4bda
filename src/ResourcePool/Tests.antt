-- ===== src/ResourcePool/Tests.antt =====
-- Runs of the operations on resource pools at concrete inputs.
use cloudify_vsphere_plugin.Inventory.Lookup.{get_obj_by_id}
use cloudify_vsphere_plugin.ResourcePool.Client.{create_contained_resource_pool}
use cloudify_vsphere_plugin.Helpers.Related.{find_rels_by_type}
use cloudify_vsphere_plugin.ResourcePool.Plugin.{create_somewhere}
use cloudify_vsphere_plugin.ResourcePool.Plugin.{create_new}
use cloudify_vsphere_plugin.Common.{
  ◌≡◌, refl, String, codes, false, pos, none, some, List, [], ◌∷◌, flag, int, str, ok, err, put,
  type_error, non_recoverable, Value,
}
use cloudify_vsphere_plugin.Runtime.{World}
use cloudify_vsphere_plugin.Helpers.Related.{Relationship}
use cloudify_vsphere_plugin.Inventory.{Entity, detached}
use cloudify_vsphere_plugin.ResourcePool.{
  PoolConfig, PoolSpec, PoolCall, create_in_root, create_in_pool, update_config, Resources,
  PoolServer,
}
use cloudify_vsphere_plugin.ResourcePool.Spec.{default_config, override_config, get_pool_spec}
use cloudify_vsphere_plugin.ResourcePool.Plugin.{
  contained_in, resource_pool_id, PoolInputs, create_pool_instance,
}

-- A platform with one pool, which has the configuration of the last change.
abbrev last_config : List PoolCall → PoolConfig → PoolConfig
last_config [] c = c
last_config (update_config _ _ d ∷ calls) c = last_config calls d
last_config (_ ∷ calls) c = last_config calls c

abbrev server : PoolServer
server = record {
  answer = λ calls call. ok "resgroup-9";
  config = λ calls id. last_config calls default_config;
}

abbrev parent_pool : Entity
parent_pool = record { id = "resgroup-1"; name = codes "Parent"; place = detached }

abbrev resources : Resources
resources = record {
  compute_resources = record { id = "domain-s7"; name = codes "esx1"; place = detached } ∷ [];
  clusters = [];
  resource_pools = parent_pool ∷ [];
}

abbrev small_spec : PoolSpec
small_spec = record {
  memory_allocation = none;
  cpu_allocation = some record {
    limit = some (int (pos 2000));
    reservation = none;
    expandable_reservation = some (flag false);
    shares = some record { shares = none; level = some (str "high") };
  };
}

abbrev on_host : PoolInputs
on_host = record {
  name = codes "small";
  use_external_resource = false;
  host_name = codes "ESX1";
  cluster_name = codes "ignored";
  pool_spec = some small_spec;
}

abbrev nowhere : PoolInputs
nowhere = record on_host { host_name = []; cluster_name = [] }

abbrev in_parent : Relationship
in_parent = record {
  type_hierarchy = contained_in ∷ [];
  target_types = [];
  target_instance = "parent";
}

abbrev parent_id : String → Value
parent_id _ = str "resgroup-1"

abbrev new_world : World PoolCall
new_world = record { props = []; stored = []; calls = [] }

abbrev world_with : List PoolCall → World PoolCall
world_with calls = record {
  props = (resource_pool_id, str "resgroup-9") ∷ [];
  stored = [];
  calls = calls;
}

-- `None` for a spec raises a TypeError.
spec_of_none : get_pool_spec none none ≡ err type_error
unfolding get_pool_spec
spec_of_none = refl

create_in_parent :
    create_pool_instance server resources parent_id nowhere (in_parent ∷ []) new_world ≡ (
      ok tt,
      world_with (
          create_in_pool "resgroup-1" (codes "small") (override_config small_spec default_config)
          ∷ []),
    )
unfolding create_pool_instance create_new get_pool_spec create_somewhere find_rels_by_type
    create_contained_resource_pool get_obj_by_id put
create_in_parent = refl

create_nowhere :
    create_pool_instance server resources parent_id nowhere [] new_world
    ≡ (err (non_recoverable "resource pool was not created."), new_world)
unfolding create_pool_instance create_new get_pool_spec create_somewhere find_rels_by_type
create_nowhere = refl

abbrev after_creation : World PoolCall
after_creation =
    world_with
      (create_in_root "domain-s7" (codes "small") (override_config small_spec default_config) ∷ [])
