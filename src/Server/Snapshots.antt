-- ===== src/Server/Snapshots.antt =====
-- ServerClient.backup_server, get_snapshot_by_name, restore_server and remove_backup.
use cloudify_vsphere_plugin.Common.{
  String, Bool, true, false, Option, none, some, ℤ, str, null, str_eq, Exec, raise, gets, raise_if,
  is_some, ◌>>=◌, ◌>>◌, non_recoverable, if◌then◌else◌,
}
use cloudify_vsphere_plugin.Runtime.{World, Platform}
use cloudify_vsphere_plugin.Waiting.{wait_for_task}
use cloudify_vsphere_plugin.Server.{
  VmCall, create_snapshot, revert_to_snapshot, remove_snapshot, Server, Snapshot, snapshot,
  SnapshotList, nil, cons, run_task,
}

abbrev pub vsphere_snapshot_id : String
vsphere_snapshot_id = "vsphere_snapshot_id"

abbrev pub snapshot_name : Snapshot → String
snapshot_name (snapshot name _) = name

abbrev pub has_children : Snapshot → Bool
has_children (snapshot _ nil) = false
has_children (snapshot _ (cons _ _)) = true

abbrev pub or_else : Option Snapshot → Option Snapshot → Option Snapshot
or_else (some s) later = some s
or_else none later = later

-- Depth first: a snapshot, then those taken after it, then its later siblings.
unfoldable pub get_snapshot_by_name : SnapshotList → String → Option Snapshot
get_snapshot_by_name nil wanted = none
get_snapshot_by_name (cons (snapshot name children) ss) wanted =
    let below = get_snapshot_by_name children wanted in
    let later = get_snapshot_by_name ss wanted in
    if str_eq name wanted then some (snapshot name children) else or_else below later

module _ (p : Platform VmCall) (server : Server) where
  -- A `with_memory` of `None` is no memory.
  abbrev pub memory_flag : Option Bool → Bool
  memory_flag none = false
  memory_flag (some b) = b

  unfoldable pub backup_server :
      String → String → Option ℤ → Option Bool → Bool → Exec (World VmCall) (Unit {0})
  backup_server name description max_wait with_memory retry =
      if retry then wait_for_task p none max_wait (str vsphere_snapshot_id) else do
        taken ← gets (λ w. is_some (get_snapshot_by_name (server.snapshots w.calls) name))
        raise_if taken (non_recoverable "Snapshot {snapshot_name} already exists.")
        run_task p (create_snapshot name description (memory_flag with_memory)) max_wait
            (str vsphere_snapshot_id)

  abbrev revert : Option ℤ → Option Snapshot → Exec (World VmCall) (Unit {0})
  revert max_wait none = raise (non_recoverable "No snapshots found with name: {snapshot_name}.")
  revert max_wait (some s) = run_task p (revert_to_snapshot (snapshot_name s)) max_wait null

  unfoldable pub restore_server : String → Option ℤ → Exec (World VmCall) (Unit {0})
  restore_server name max_wait = do
    found ← gets (λ w. get_snapshot_by_name (server.snapshots w.calls) name)
    revert max_wait found

  abbrev discard : Option ℤ → Option Snapshot → Exec (World VmCall) (Unit {0})
  discard max_wait none = raise (non_recoverable "No snapshots found with name: {snapshot_name}.")
  discard max_wait (some s) = do
    raise_if (has_children s) (
        non_recoverable
          "Sub snapshots {subsnapshots} found for {snapshot_name}. You should remove subsnaphots before remove current.")
    run_task p (remove_snapshot (snapshot_name s)) max_wait null

  unfoldable pub remove_backup : String → Option ℤ → Exec (World VmCall) (Unit {0})
  remove_backup name max_wait = do
    found ← gets (λ w. get_snapshot_by_name (server.snapshots w.calls) name)
    discard max_wait found
