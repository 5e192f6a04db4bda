-- ===== src/Devices/Usb.antt =====
-- attach_usb_device and detach_usb_device.
use cloudify_vsphere_plugin.Common.{
  String, Bool, Option, none, some, List, [], ◌∷◌, any, str_eq, ℤ, pos, Result, ok, err,
  non_recoverable, type_error, Exec, pure, lift, ◌>>=◌, ◌>>◌, if◌then◌else◌,
}
use cloudify_vsphere_plugin.Runtime.{Platform}
use cloudify_vsphere_plugin.Devices.{
  DeviceCall, reconfigure, DeviceClass, virtual_usb, virtual_usb_controller,
  virtual_usb_xhci_controller, Device, Change, add, usb, usb_controller, remove_device, Machine,
  Machines, Link, on_source, request,
}
use cloudify_vsphere_plugin.Devices.Serial.{
  is_attached, mark_attached, target_machine, find_summary,
}
use cloudify_vsphere_plugin.Devices.Hosts.{Content, get_usb_physical_path}

-- The properties of the source node that these operations read.
pub record UsbNode : Type 0 where
  pub device_name : Option String
  pub controller_type : Option String

unfoldable pub check_if_vm_has_usb_controller : Machine → DeviceClass → Bool
check_if_vm_has_usb_controller vm c = any (λ (d : Device). d.is_a c) vm.devices

-- `usb_device_type.get(usb_type)` with the key that a new controller of it gets
abbrev pub usb_device_type : Option String → Option (DeviceClass × ℤ)
usb_device_type none = none
usb_device_type (some t) =
    if str_eq t "usb2"
    then some (virtual_usb_controller, pos 7000)
    else if str_eq t "usb3"
    then some (virtual_usb_xhci_controller, pos 14000)
    else none

-- The controller is added only where there is none. No class can be tested for or made of `None`.
unfoldable pub usb_changes : Machine → Option (DeviceClass × ℤ) → String → Result (List Change)
unfolding check_if_vm_has_usb_controller
usb_changes vm none path = err type_error
usb_changes vm (some (c, key)) path =
    if check_if_vm_has_usb_controller vm c
    then ok (add (usb path) ∷ [])
    else ok (add (usb_controller c key) ∷ add (usb path) ∷ [])

-- `if not device_name: raise`
unfoldable pub usb_path : Option String → Result String
usb_path none = err (non_recoverable "usb device {0} not found on vm host {1}")
usb_path (some path) =
    if str_eq path ""
    then err (non_recoverable "usb device {0} not found on vm host {1}")
    else ok path

module _ (p : Platform DeviceCall) (machines : Machines) (content : Content) (node : UsbNode) where
  unfoldable pub attach_usb_device : Exec Link (Unit {0})
  unfolding usb_path usb_changes
  attach_usb_device = do
    done ← is_attached
    if done then pure tt else do
      vm ← target_machine machines
      path ← lift (usb_path (get_usb_physical_path content vm.host_name node.device_name))
      changes ← lift (usb_changes vm (usb_device_type node.controller_type) path)
      on_source (request p (reconfigure changes))
      mark_attached

  abbrev pub detach_usb : Option Device → Exec Link (Unit {0})
  detach_usb none = pure tt
  detach_usb (some d) = on_source (request p (reconfigure (remove_device d ∷ [])))

  unfoldable pub detach_usb_device : Exec Link (Unit {0})
  detach_usb_device = do
    vm ← target_machine machines
    detach_usb (find_summary virtual_usb node.device_name vm.devices)
