-- ===== src/Server.antt =====
-- Operations on an existing virtual machine (ServerClient in
-- vsphere_plugin_common/clients/server.py) and the operations of vsphere_server_plugin/server.py that
-- call them: the objects that they read and the requests they send.
pub mod Power
pub mod PowerLaws
pub mod Snapshots
pub mod SnapshotLaws
pub mod Resize
pub mod ResizeLaws
pub mod Naming
pub mod NamingLaws
pub mod Lifecycle
pub mod Networks
pub mod Guest
pub mod GuestLaws
pub mod Patience
pub mod State
pub mod StateLaws
pub mod Addresses
pub mod NicPlan
pub mod NicPlanLaws
pub mod NicSpecs
pub mod Resizing
pub mod Judging
pub mod Validation
pub mod NetworkLaws
pub mod LinkLaws
mod Tests
use cloudify_vsphere_plugin.Common.{
  ℕ, String, Text, Bool, Option, none, some, List, ℤ, Value, null, Exec, ◌>>=◌, ◌>>◌,
}
use cloudify_vsphere_plugin.Runtime.{World, Task, Platform, submit, send}
use cloudify_vsphere_plugin.Waiting.{wait_for_task}

-- A snapshot with the snapshots that were taken after it.
mutual
  pub data Snapshot : Type 0 where
    snapshot : String → SnapshotList → Snapshot

  pub data SnapshotList : Type 0 where
    nil : SnapshotList
    cons : Snapshot → SnapshotList → SnapshotList

-- The fields that `resize_server` sets in a `vim.vm.ConfigSpec`.
pub record Config : Type 0 where
  pub num_cpus : Option ℤ
  pub memory_mb : Option ℤ

-- Requests on one virtual machine.
pub data VmCall : Type 0 where
  power_on power_off shutdown_guest suspend reset reboot_guest destroy : VmCall
  create_snapshot : String → String → Bool → VmCall
  revert_to_snapshot remove_snapshot : String → VmCall
  upgrade : ℕ → VmCall
  reconfigure : Config → VmCall

-- A virtual machine. What the program reads from vSphere at the time of a call may depend on the
-- requests sent before; `num_cpu` and `memory_mb` come from the client's cache.
pub record Server : Type 0 where
  pub id : String
  pub name : String
  pub power_state : List VmCall → Text
  pub version : List VmCall → ℕ
  pub snapshots : List VmCall → SnapshotList
  pub num_cpu : ℤ
  pub memory_mb : ℤ

-- Send a request and wait for its task.
abbrev pub run_task : Platform VmCall → VmCall → Option ℤ → Value → Exec (World VmCall) (Unit {0})
run_task p call max_wait resource_id = do
  task ← submit p call
  wait_for_task p (some task) max_wait resource_id

-- A request to the guest is answered with no task, so that the wait looks for a saved one.
abbrev pub run_command : Platform VmCall → VmCall → Option ℤ → Exec (World VmCall) (Unit {0})
run_command p call max_wait = do send call; wait_for_task p none max_wait null
