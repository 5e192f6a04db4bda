-- ===== src/Devices/Power.antt =====
-- temp_stop_server and temp_start_server, and the change of a machine that has to be off for it.
use cloudify_vsphere_plugin.Common.{
  String, Bool, List, codes, lower, text_eq, non_recoverable, Exec, pure, raise, gets, ◌>>=◌, ◌>>◌,
  if◌then◌else◌,
}
use cloudify_vsphere_plugin.Runtime.{Platform}
use cloudify_vsphere_plugin.Devices.{
  DeviceCall, power_on, power_off, Machine, Link, on_source, on_target, request,
}

module _ (vm : Machine) where
  unfoldable pub is_on : List DeviceCall → Bool
  is_on calls = text_eq (lower (vm.power_state calls)) (codes "poweredon")

  unfoldable pub is_off : List DeviceCall → Bool
  is_off calls = text_eq (lower (vm.power_state calls)) (codes "poweredoff")

module _ (p : Platform DeviceCall) (vm : Machine) where
  -- The waits for these tasks are kept on the target's instance.
  unfoldable pub temp_stop_server : Exec Link (Unit {0})
  temp_stop_server = do
    off ← gets (λ l. is_off vm l.calls)
    if off then pure tt else on_target (request p power_off)

  unfoldable pub temp_start_server : Exec Link (Unit {0})
  temp_start_server = do
    on ← gets (λ l. is_on vm l.calls)
    if on then pure tt else on_target (request p power_on)

  -- `if turn_off_vm: ... else: ...` around the `ReconfigVM_Task` of four of the operations
  unfoldable pub change_while_off : Bool → String → DeviceCall → Exec Link (Unit {0})
  change_while_off turn_off_vm text call =
      if turn_off_vm
      then (do temp_stop_server; on_source (request p call); temp_start_server)
      else do
        on ← gets (λ l. is_on vm l.calls)
        if on then raise (non_recoverable text) else on_source (request p call)
