-- ===== src/Placement.antt =====
-- Where a new server goes: the host, datastore and resource pool that ServerClient.create_server
-- picks (vsphere_plugin_common/clients/server.py). Here stand the platform objects that it reads.
pub mod PoolTree
pub mod Datastores
pub mod Selection
mod Offers
pub mod Choices
pub mod Ratings
pub mod Hosts
pub mod Sorting
pub mod Candidates
pub mod Finding
mod Tests
use cloudify_vsphere_plugin.Common.{ℕ, String, Text, Bool, true, false, Option, List}

-- vim.ManagedEntity.Status
pub data Status : Type 0 where
  green yellow red gray : Status

abbrev pub is_healthy : Status → Bool
is_healthy green = true
is_healthy yellow = true
is_healthy _ = false

pub record Datastore : Type 0 where
  pub id : String
  pub name : String
  pub overall_status : Status
  pub accessible : Bool
  -- in bytes
  pub free_space : ℕ

-- `template.summary.storage`, in bytes
pub record Template : Type 0 where
  pub committed : ℕ
  pub uncommitted : ℕ

-- `vm.summary.config`; `none` is a value that `int` refuses.
pub record Vm : Type 0 where
  pub is_template : Bool
  pub memory_size_mb : Option ℕ
  pub num_cpu : Option ℕ

-- A network as the placement compares it: its name and whether its switch is distributed.
pub record Network : Type 0 where
  pub name : Text
  pub switch_distributed : Bool

-- A resource pool and the pools inside it.
mutual
  pub data Pool : Type 0 where
    pool : String → PoolList → Pool

  pub data PoolList : Type 0 where
    nil : PoolList
    cons : Pool → PoolList → PoolList

-- The compute resource of a host; only a cluster makes it a member of one.
pub record Parent : Type 0 where
  pub name : String
  pub is_cluster : Bool
  pub resource_pool : Pool

pub record Host : Type 0 where
  pub name : String
  pub overall_status : Status
  pub connection_state : String
  pub in_maintenance_mode : Bool
  -- `hardware.memorySize`, in bytes
  pub memory_size : ℕ
  pub num_cpu_threads : ℕ
  pub vms : List Vm
  pub datastores : List Datastore
  pub networks : List Network
  pub parent : Parent
