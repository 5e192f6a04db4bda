-- ===== src/Inventory.antt =====
-- What VsphereClient (vsphere_plugin_common/clients/__init__.py) reads of the platform and keeps.
pub mod Pools
pub mod PoolLaws
pub mod CacheLaws
pub mod Lookup
pub mod Nics
pub mod LookupLaws
mod Tests
use cloudify_vsphere_plugin.Common.{String, Text, Bool, Option, List, Value}

-- What `_collect_properties` gives for a resource pool; a property that was not sent is `none`.
pub record RawPool : Type 0 where
  pub id : String
  pub name : Option Text
  pub resource_pool : Option (List String)

-- A pool as the client keeps it.
mutual
  pub data Pool : Type 0 where
    pool : String → Text → PoolList → Pool

  pub data PoolList : Type 0 where
    nil : PoolList
    cons : Pool → PoolList → PoolList

-- Where an object stands: in a datacenter, in another place, or in none (it has no `parent`).
pub data Place : Type 0 where
  datacenter : Text → Place
  within : Place → Place
  detached : Place

-- An object of the cache.
pub record Entity : Type 0 where
  pub id : String
  pub name : Text
  pub place : Place

-- A folder of hosts: one that has hosts, one that has other folders in it, or another object.
mutual
  pub data TreeNode : Type 0 where
    with_hosts : List String → TreeNode
    with_children : TreeNodes → TreeNode
    other : TreeNode

  pub data TreeNodes : Type 0 where
    no_nodes : TreeNodes
    node : TreeNode → TreeNodes → TreeNodes

-- A relationship of the server: the name of the target's node and the `vsphere_network_id` of the
-- target's instance.
pub record NetworkLink : Type 0 where
  pub target_name : Text
  pub network_id : Value
