-- ===== src/Devices/Serial.antt =====
-- attach_serial_port and detach_serial_port.
use cloudify_vsphere_plugin.Common.{
  String, Bool, true, false, ◌&&◌, Option, none, some, List, [], ◌∷◌, find, is_some, lookup, str_eq,
  flag, attribute_error, Exec, pure, gets, or_raise, ◌>>=◌, ◌>>◌, if◌then◌else◌,
}
use cloudify_vsphere_plugin.Runtime.{Platform, get_prop, put_prop, del_prop, save}
use cloudify_vsphere_plugin.Devices.{
  DeviceCall, reconfigure, DeviceClass, virtual_serial_port, Device, add, serial_port,
  remove_device, Machine, Machines, Link, on_source, on_target,
}
use cloudify_vsphere_plugin.Devices.Power.{change_while_off}

abbrev pub attached : String
attached = "__attached"

-- The properties of the source node that these operations read.
pub record DeviceNode : Type 0 where
  pub device_name : Option String
  pub turn_off_vm : Bool

abbrev pub is_attached : Exec Link Bool
is_attached = gets (λ l. is_some (lookup attached l.source.props))

-- `runtime_properties['__attached'] = True`, saved
abbrev pub mark_attached : Exec Link (Unit {0})
mark_attached = on_source (do put_prop attached (flag true); save)

-- The machine whose id the target has. Without one, reading the look-up's `None` raises.
unfoldable pub target_machine : Machines → Exec Link Machine
target_machine machines = do
  id ← on_target (get_prop "vsphere_server_id")
  or_raise (machines.cached id) attribute_error

-- `a == b` for a text and a property that may be missing
abbrev pub same_text : String → Option String → Bool
same_text s none = false
same_text s (some t) = str_eq s t

-- The first device of a class with that summary.
abbrev pub find_summary : DeviceClass → Option String → List Device → Option Device
find_summary c name = find (λ (d : Device). d.is_a c && same_text d.summary name)

module _ (p : Platform DeviceCall) (machines : Machines) (node : DeviceNode) where
  unfoldable pub attach_serial_port : Exec Link (Unit {0})
  attach_serial_port = do
    done ← is_attached
    if done then pure tt else do
      vm ← target_machine machines
      change_while_off p vm node.turn_off_vm "Serial Port can't be attached while VM is running"
          (reconfigure (add (serial_port node.device_name) ∷ []))
      mark_attached

  abbrev pub detach_found : Machine → String → Option Device → Exec Link (Unit {0})
  detach_found vm text none = pure tt
  detach_found vm text (some d) = do
    change_while_off p vm node.turn_off_vm text (reconfigure (remove_device d ∷ []))
    on_source (del_prop attached)

  unfoldable pub detach_serial_port : Exec Link (Unit {0})
  detach_serial_port = do
    vm ← target_machine machines
    detach_found vm "Serial Port can't be detached while VM is running"
        (find_summary virtual_serial_port node.device_name vm.devices)
