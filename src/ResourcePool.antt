-- ===== src/ResourcePool.antt =====
-- The resource pool plugin (cloudify_vsphere/resource_pool/__init__.py) and the operations of
-- ServerClient on resource pools (vsphere_plugin_common/clients/server.py).
pub mod Spec
pub mod Client
pub mod Plugin
pub mod PluginLaws
mod Tests
use cloudify_vsphere_plugin.Common.{String, Text, Option, List, Value, Result}
use cloudify_vsphere_plugin.Inventory.{Entity}

-- `vim.ResourceAllocationInfo`, its shares with it.
pub record Allocation : Type 0 where
  pub limit : Value
  pub reservation : Value
  pub expandable_reservation : Value
  pub shares : Value
  pub level : Value

-- `vim.ResourceConfigSpec`
pub record PoolConfig : Type 0 where
  pub memory_allocation : Allocation
  pub cpu_allocation : Allocation

-- The dict `pool_spec`; `none` is a key that is not given.
pub record SharesInput : Type 0 where
  pub shares : Option Value
  pub level : Option Value

pub record AllocationInput : Type 0 where
  pub limit : Option Value
  pub reservation : Option Value
  pub expandable_reservation : Option Value
  pub shares : Option SharesInput

pub record PoolSpec : Type 0 where
  pub memory_allocation : Option AllocationInput
  pub cpu_allocation : Option AllocationInput

-- The requests: a pool in the root pool of a host or a cluster, or in another pool, the end of one
-- and a change of one, which are named by their ids.
pub data PoolCall : Type 0 where
  create_in_root create_in_pool update_config : String → Text → PoolConfig → PoolCall
  destroy_pool : String → PoolCall

-- What the client has cached.
pub record Resources : Type 0 where
  pub compute_resources : List Entity
  pub clusters : List Entity
  pub resource_pools : List Entity

-- vSphere, after the requests so far: the id of a new pool or a fault, and the configuration of a
-- pool. A change that is accepted is answered with some id, which nothing reads.
pub record PoolServer : Type 0 where
  pub answer : List PoolCall → PoolCall → Result String
  pub config : List PoolCall → String → PoolConfig
