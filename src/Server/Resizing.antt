-- ===== src/Server/Resizing.antt =====
-- The operations resize_server and resize of vsphere_server_plugin/server.py, and those of power.py.
use cloudify_vsphere_plugin.Common.{
  String, ◌||◌, not, Option, none, some, [], ℤ, pos, lookup, put, Value, null, obj, dict_of,
  fields_of, truthy, Result, ok, err, non_recoverable, key_error, type_error, Exec, pure, raise,
  lift, when, ◌>>=◌, ◌>>◌, if◌then◌else◌,
}
use cloudify_vsphere_plugin.Runtime.{World, Platform, get_prop, put_prop, read_prop}
use cloudify_vsphere_plugin.Helpers.Integers.{to_int}
use cloudify_vsphere_plugin.Server.{VmCall, Server}
use cloudify_vsphere_plugin.Server.Naming.{get_vm_name}
use cloudify_vsphere_plugin.Server.Lifecycle.{Inventory, Inputs, get_server_by_context}
use cloudify_vsphere_plugin.Server.Resize.{resize_server}
use cloudify_vsphere_plugin.Server.Power.{
  start_server, stop_server, shutdown_server_guest, reboot_server, reset_server,
}

-- An argument of the client's method: whether it is given, and what `int` makes of it.
abbrev pub size_argument : Value → Option (Option ℤ)
size_argument null = none
size_argument v = elim (to_int v) [ ok n ↦ some (some n) | err _ ↦ some none ]

-- `d[key]` of a value that is to be a dict
abbrev pub field_of : String → Value → Result Value
field_of key (obj fields) = elim (lookup key (dict_of fields)) [
  | none ↦ err (key_error key)
  | some v ↦ ok v
]
field_of key _ = err type_error

-- `d[key] = value`
abbrev pub set_field : String → Value → Value → Result Value
set_field key value (obj fields) = ok (obj (fields_of (put key value (dict_of fields))))
set_field key value _ = err type_error

-- `runtime_properties['expected_configuration']['summary'][key] = value`
unfoldable pub expect : String → Value → Exec (World VmCall) (Unit {0})
expect key value = do
  expected ← read_prop "expected_configuration"
  summary ← lift (field_of "summary" expected)
  changed ← lift (set_field key value summary)
  expected' ← lift (set_field "summary" changed expected)
  put_prop "expected_configuration" expected'

-- One round of the loop over the two properties.
abbrev pub record_size : String → String → Value → Exec (World VmCall) (Unit {0})
record_size property key value = when (truthy value) (do put_prop property value; expect key value)

module _ (p : Platform VmCall) (inventory : Inventory) (i : Inputs) where
  abbrev pub needed : String → Option Server → Exec (World VmCall) Server
  needed text none = raise (non_recoverable text)
  needed text (some s) = pure s

  unfoldable pub resize_server_operation : Value → Value → Exec (World VmCall) (Unit {0})
  unfolding expect
  resize_server_operation cpus memory = if not (truthy cpus || truthy memory) then pure tt else do
    found ← get_server_by_context p inventory i
    server ← needed "Cannot resize server - server doesn't exist for node: {0}" found
    resize_server p server (size_argument cpus) (size_argument memory) i.max_wait
    record_size "cpus" "numCpu" cpus
    record_size "memory" "memorySizeMB" memory

  -- The sizes are those of the runtime properties.
  unfoldable pub resize_operation : Exec (World VmCall) (Unit {0})
  resize_operation = do
    found ← get_server_by_context p inventory i
    server ← needed "Cannot resize server - server doesn't exist for node: {0}" found
    _ ← λ w. (get_vm_name w.props i.server i.instance_id i.os_family, w)
    cpus ← get_prop "cpus"
    memory ← get_prop "memory"
    if truthy cpus || truthy memory
        then resize_server p server (size_argument cpus) (size_argument memory) (some (pos 300))
        else raise (non_recoverable "Server resize parameters should be specified.")

  -- `_power_operation`, which looks the server up without a family of systems
  unfoldable pub power_operation :
      (Server → Option ℤ → Exec (World VmCall) (Unit {0})) → Exec (World VmCall) (Unit {0})
  power_operation act = do
    found ← get_server_by_context p inventory (record i { os_family = [] })
    server ← needed "Cannot {action} - server doesn't exist for node: {name}" found
    act server i.max_wait

  unfoldable pub power_on_operation : Exec (World VmCall) (Unit {0})
  unfolding power_operation
  power_on_operation = power_operation (start_server p)

  unfoldable pub power_off_operation : Exec (World VmCall) (Unit {0})
  unfolding power_operation
  power_off_operation = power_operation (stop_server p)

  unfoldable pub shut_down_operation : Exec (World VmCall) (Unit {0})
  unfolding power_operation
  shut_down_operation = power_operation (shutdown_server_guest p)

  unfoldable pub reboot_operation : Exec (World VmCall) (Unit {0})
  unfolding power_operation
  reboot_operation = power_operation (reboot_server p)

  unfoldable pub reset_operation : Exec (World VmCall) (Unit {0})
  unfolding power_operation
  reset_operation = power_operation (reset_server p)
