-- ===== src/Devices/DetachLaws.antt =====
-- What detaching leaves behind for the next attach.
use cloudify_vsphere_plugin.Common.{
  ◌≡◌, refl, ap, ◌∙◌, true, false, Option, none, some, [], ◌∷◌, is_some, ok, is_ok, Exec, String,
  ◌>>=◌, arith, lookup-remove,
}
use cloudify_vsphere_plugin.Runtime.{Platform, del_prop}
use cloudify_vsphere_plugin.Devices.{
  DeviceCall, reconfigure, Device, remove_device, virtual_serial_port, virtual_usb, Machine,
  Machines, Link, on_source,
}
use cloudify_vsphere_plugin.Devices.Power.{change_while_off}
use cloudify_vsphere_plugin.Devices.Serial.{
  DeviceNode, attached, target_machine, find_summary, detach_serial_port, detach_found,
}
use cloudify_vsphere_plugin.Devices.Hosts.{Content}
use cloudify_vsphere_plugin.Devices.Usb.{UsbNode, attach_usb_device, detach_usb, detach_usb_device}
use cloudify_vsphere_plugin.Devices.ChangeLaws.{Targets, target_machine-found}
use cloudify_vsphere_plugin.Devices.MarkLaws.{
  mark_of, KeepsMark, bind-KeepsMark, request-KeepsMark, target_machine-KeepsMark,
}

module _ (p : Platform DeviceCall) (machines : Machines) where
  detach_usb-KeepsMark :
      (content : Content) (node : UsbNode) (d : Option Device)
      → KeepsMark (detach_usb p machines content node d)
  detach_usb-KeepsMark content node none l = refl
  detach_usb-KeepsMark content node (some d) l =
      request-KeepsMark p (reconfigure (remove_device d ∷ [])) l

  detach_usb_device-KeepsMark :
      (content : Content) (node : UsbNode) → KeepsMark (detach_usb_device p machines content node)
  unfolding detach_usb_device
  detach_usb_device-KeepsMark content node =
      bind-KeepsMark (target_machine machines)
        (λ vm.
          detach_usb p machines content node (find_summary virtual_usb node.device_name vm.devices))
        (target_machine-KeepsMark machines) (λ vm. detach_usb-KeepsMark content node _)

  attach_usb_device-marked :
      (content : Content) (node : UsbNode) (l : Link)
      → is_some (mark_of l) ≡ true
      → attach_usb_device p machines content node l ≡ (ok tt, l)
  unfolding attach_usb_device
  attach_usb_device-marked content node l marked = rw marked refl

  -- Detaching a USB device keeps its mark, so that after it, however it ended, attaching the device
  -- again does nothing.
  pub detach_usb_device_then_attach :
      (content : Content) (node : UsbNode) (l : Link)
      → is_some (mark_of l) ≡ true
      → let l' = (detach_usb_device p machines content node l).1 in
        attach_usb_device p machines content node l' ≡ (ok tt, l')
  detach_usb_device_then_attach content node l marked =
      attach_usb_device-marked content node (detach_usb_device p machines content node l).1
        (ap is_some (detach_usb_device-KeepsMark content node l) ∙ marked)

  unmark :
      (m : Exec Link (Unit {0})) (l : Link)
      → is_ok ((m >>= λ _. on_source (del_prop attached)) l).0 ≡ true
      → mark_of ((m >>= λ _. on_source (del_prop attached)) l).1 ≡ none
  unfolding on_source
  unmark m l good = ground (arith, lookup-remove attached attached (m l).1.source.props)

  detach_found-unmarks :
      (node : DeviceNode) (vm : Machine) (text : String) (found : Option Device) (l : Link)
      → let (r, l') = detach_found p machines node vm text found l in
        (is_some found ≡ true → is_ok r ≡ true → mark_of l' ≡ none)
        × (is_some found ≡ false → (r ≡ ok tt) × (l' ≡ l))
  detach_found-unmarks node vm text none l = ((λ h. cc), λ _. (refl, refl))
  detach_found-unmarks node vm text (some d) l =
      ((λ _. unmark (change_while_off p vm node.turn_off_vm text _) l), λ h. cc)

  -- After a successful detach of a serial port that the machine has, the source is not marked; where
  -- the machine has none of that name, the detach succeeds and changes nothing, not even the mark.
  pub detach_serial_port_unmarks :
      (node : DeviceNode) (l : Link) (vm : Machine)
      → Targets machines l vm
      → let (r, l') = detach_serial_port p machines node l in
        let found = find_summary virtual_serial_port node.device_name vm.devices in
        (is_some found ≡ true → is_ok r ≡ true → mark_of l' ≡ none)
        × (is_some found ≡ false → (r ≡ ok tt) × (l' ≡ l))
  unfolding detach_serial_port
  detach_serial_port_unmarks node l vm targets =
      rw (target_machine-found machines l vm targets) (detach_found-unmarks node vm _ _ l)
