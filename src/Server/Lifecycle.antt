-- ===== src/Server/Lifecycle.antt =====
-- The operations of vsphere_server_plugin/server.py on a server that should exist.
use cloudify_vsphere_plugin.Common.{
  Text, String, Bool, false, ◌&&◌, not, Option, none, some, [], ◌∷◌, ℤ, Dict, lookup, Value, truthy,
  str_eq, Result, ok, err, non_recoverable, Exec, pure, raise, raise_if, ◌>>=◌, ◌>>◌, if◌then◌else◌,
}
use cloudify_vsphere_plugin.Runtime.{World, Platform, get_prop}
use cloudify_vsphere_plugin.Server.{VmCall, Server}
use cloudify_vsphere_plugin.Server.Naming.{ServerInput, get_vm_name}
use cloudify_vsphere_plugin.Server.Power.{
  start_server, stop_server, shutdown_server_guest, suspend_server, delete_server,
}
use cloudify_vsphere_plugin.Server.Snapshots.{backup_server, restore_server, remove_backup}

abbrev pub vsphere_server_id : String
vsphere_server_id = "vsphere_server_id"

abbrev pub vsphere_resource_external : String
vsphere_resource_external = "use_external_resource"

-- The look-ups of the client, by id and by name.
pub record Inventory : Type 0 where
  pub by_id : Value → Option Server
  pub by_name : Value → Option Server

-- The inputs that every operation has: the node's, and the id of its instance.
pub record Inputs : Type 0 where
  pub server : ServerInput
  pub instance_id : Text
  pub os_family : Text
  pub max_wait : Option ℤ

abbrev unknown_os : Result (Option Server)
unknown_os = err (non_recoverable "os_family must be provided if the VM might not exist")

module _ (p : Platform VmCall) (inventory : Inventory) (i : Inputs) where
  abbrev found_by_name : Result Value → Result (Option Server)
  found_by_name (ok name) = ok (inventory.by_name name)
  found_by_name (err e) = err e

  abbrev by_family : Dict Value → Text → Result (Option Server)
  by_family props [] = unknown_os
  by_family props (c ∷ os) = found_by_name (get_vm_name props i.server i.instance_id (c ∷ os))

  abbrev by_saved_id : Dict Value → Option Value → Result (Option Server)
  by_saved_id props none = by_family props i.os_family
  by_saved_id props (some id) = ok (inventory.by_id id)

  -- By the saved id, or else by the name that the server would have.
  unfoldable pub get_server_by_context : Exec (World VmCall) (Option Server)
  get_server_by_context w = (by_saved_id w.props (lookup vsphere_server_id w.props), w)

  -- Every operation computes the name for its log before it acts.
  abbrev pub act_on :
      Exec (World VmCall) (Unit {0})
      → (Server → Exec (World VmCall) (Unit {0}))
      → Option Server
      → Exec (World VmCall) (Unit {0})
  act_on missing act none = missing
  act_on missing act (some s) = do
    _ ← λ w. (get_vm_name w.props i.server i.instance_id i.os_family, w)
    act s

  abbrev pub gone : String → Exec (World VmCall) (Unit {0})
  gone text = raise (non_recoverable text)

  -- An existing resource is left alone unless the operation is forced.
  abbrev pub unless_external :
      Bool → Exec (World VmCall) (Unit {0}) → Exec (World VmCall) (Unit {0})
  unless_external force m = do
    external ← get_prop vsphere_resource_external
    if truthy external && not force then pure tt else m

  unfoldable pub shutdown_guest_operation : Exec (World VmCall) (Unit {0})
  shutdown_guest_operation = do
    found ← get_server_by_context
    act_on (gone "Cannot shutdown server guest - server doesn't exist for node: {0}")
        (λ s. shutdown_server_guest p s i.max_wait) found

  -- A server with a saved id that is not there is an error; one that never was is not.
  abbrev gone_if_saved : Exec (World VmCall) (Unit {0})
  gone_if_saved = do
    id ← get_prop vsphere_server_id
    if truthy id then gone "Cannot stop server - server doesn't exist for node: {0}" else pure tt

  unfoldable pub stop : Bool → Exec (World VmCall) (Unit {0})
  stop force_stop = unless_external force_stop (do
    found ← get_server_by_context
    act_on gone_if_saved (λ s. stop_server p s i.max_wait) found)

  unfoldable pub freeze_suspend : Exec (World VmCall) (Unit {0})
  freeze_suspend = unless_external false (do
    found ← get_server_by_context
    act_on (gone "Cannot suspend server - server doesn't exist for node: {0}")
        (λ s. suspend_server p s i.max_wait) found)

  unfoldable pub freeze_resume : Exec (World VmCall) (Unit {0})
  freeze_resume = unless_external false (do
    found ← get_server_by_context
    act_on (gone "Cannot resume server - server doesn't exist for node: {0}")
        (λ s. start_server p s i.max_wait) found)

  -- The guards that the three operations on backups share.
  abbrev pub with_backup :
      String
      → String
      → Bool
      → (Server → Exec (World VmCall) (Unit {0}))
      → Exec (World VmCall) (Unit {0})
  with_backup text name incremental act = unless_external false (do
    raise_if (str_eq name "") (non_recoverable "Backup name must be provided.")
    if not incremental
        then pure tt
        else do found ← get_server_by_context; act_on (gone text) act found)

  unfoldable pub snapshot_create :
      String → Bool → String → Option Bool → Bool → Exec (World VmCall) (Unit {0})
  snapshot_create name incremental snapshot_type with_memory is_retry =
      with_backup "Cannot backup server - server doesn't exist for node: {0}" name incremental
        (λ s. backup_server p s name snapshot_type i.max_wait with_memory is_retry)

  unfoldable pub snapshot_apply : String → Bool → Exec (World VmCall) (Unit {0})
  snapshot_apply name incremental =
      with_backup "Cannot restore server - server doesn't exist for node: {0}" name incremental
        (λ s. restore_server p s name i.max_wait)

  unfoldable pub snapshot_delete : String → Bool → Exec (World VmCall) (Unit {0})
  snapshot_delete name incremental =
      with_backup "Cannot remove backup for server - server doesn't exist for node: {0}" name
        incremental (λ s. remove_backup p s name i.max_wait)

  unfoldable pub delete_operation : Bool → Exec (World VmCall) (Unit {0})
  delete_operation force_delete =
      unless_external force_delete (do
        found ← get_server_by_context
        act_on (pure tt) (λ s. delete_server p s i.max_wait) found)
