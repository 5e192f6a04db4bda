-- ===== src/Storage.antt =====
-- Disks of a virtual machine: StorageClient (vsphere_plugin_common/clients/storage.py) and the
-- operations of vsphere_storage_plugin/storage.py. Here stand the objects that they read.
pub mod Names
pub mod Numbers
pub mod Scan
pub mod Disks
pub mod Freshness
pub mod Controllers
pub mod Addresses
pub mod Creation
pub mod Plugin
pub mod PluginLaws
mod Tests
use cloudify_vsphere_plugin.Common.{ℕ, String, Text, Bool, List, ℤ}

pub record Disk : Type 0 where
  pub file_name : Text
  pub controller_key : ℤ
  pub unit_number : ℕ
  pub capacity_in_kb : ℕ
  pub capacity_in_bytes : ℕ

-- A SCSI controller; `known` if it is of one of the four types that `create_storage` lists, and
-- `devices` are the keys of what is attached to it.
pub record Controller : Type 0 where
  pub key : ℤ
  pub bus_number : ℕ
  pub known : Bool
  pub devices : List ℤ

pub data Device : Type 0 where
  disk : Disk → Device
  scsi : Controller → Device
  other : Device

-- The specification of a new disk.
pub record DiskSpec : Type 0 where
  pub capacity_in_kb : ℕ
  pub capacity_in_bytes : ℕ
  pub mode : String
  pub thin : Bool
  pub datastore : String
  pub file_name : Text
  pub controller_key : ℤ
  pub unit_number : ℕ

-- A `Reconfigure` of the machine with one change of a device.
pub data DiskCall : Type 0 where
  add_disk : DiskSpec → DiskCall
  destroy_disk : Disk → DiskCall
  edit_disk : Disk → DiskCall

-- A virtual machine as the client's cache has it, and its devices as vSphere gives them after
-- the requests sent so far.
pub record Machine : Type 0 where
  pub id : String
  pub power_state : Text
  pub datastores : List String
  pub devices : List Device
  pub live_devices : List DiskCall → List Device
