-- ===== src/Devices/MarkLaws.antt =====
-- The mark `__attached` that the operations on serial ports, PCI devices and USB devices leave.
use cloudify_vsphere_plugin.Common.{
  ◌≡◌, refl, ◌∙◌, Bool, true, false, Option, none, some, lookup, or_null, String, Result, ok, err,
  is_ok, Exec, pure, lift, continue, Value, flag, ◌>>=◌, ◌>>◌, Bool-cases, inl, inr, Option-cases,
  if◌then◌else◌, lookup-put_self,
}
use cloudify_vsphere_plugin.Runtime.{World, Platform}
use cloudify_vsphere_plugin.Devices.{
  DeviceCall, power_on, power_off, reconfigure, Machine, Machines, Link, on_source, on_target,
  request,
}
use cloudify_vsphere_plugin.Devices.Power.{
  change_while_off, temp_stop_server, temp_start_server, is_on, is_off,
}
use cloudify_vsphere_plugin.Devices.Requests.{source_request-lookup}
use cloudify_vsphere_plugin.Devices.Serial.{
  DeviceNode, attached, is_attached, mark_attached, target_machine, attach_serial_port,
}
use cloudify_vsphere_plugin.Devices.Hosts.{Content, get_pci_device, get_usb_physical_path}
use cloudify_vsphere_plugin.Devices.Pci.{attach_pci_device, found_pci}
use cloudify_vsphere_plugin.Devices.Usb.{
  UsbNode, usb_path, usb_changes, usb_device_type, attach_usb_device,
}

abbrev pub mark_of : Link → Option Value
mark_of l = lookup attached l.source.props

-- The call leaves the mark as it is, whatever its outcome.
abbrev pub KeepsMark : {A : Type 0} → Exec Link A → Type 0
KeepsMark m = (l : Link) → mark_of (m l).1 ≡ mark_of l

-- The source is marked and saved if the call succeeds, and is not marked if it fails.
abbrev pub Marks : Exec Link (Unit {0}) → Link → Type 0
Marks m l =
    let (r, l') = m l in
    (is_ok r ≡ true → lookup attached l'.source.stored ≡ some (flag true))
    × (is_ok r ≡ false → mark_of l' ≡ none)

pub bind-KeepsMark :
    {A B : Type 0} (m : Exec Link A) (f : A → Exec Link B)
    → KeepsMark m
    → ((a : A) → KeepsMark (f a))
    → KeepsMark (m >>= f)
bind-KeepsMark {A} m f keeps keeps_f l = from (m l).0
  where
    from : (r : Result A) → mark_of (continue r (m l).1 f).1 ≡ mark_of l
    from (ok a) = keeps_f a (m l).1 ∙ keeps l
    from (err e) = keeps l

bind-Marks :
    {A : Type 0} (m : Exec Link A) (f : A → Exec Link (Unit {0}))
    → KeepsMark m
    → ((a : A) (l : Link) → mark_of l ≡ none → Marks (f a) l)
    → (l : Link) → mark_of l ≡ none
    → Marks (m >>= f) l
bind-Marks {A} m f keeps marks l unmarked = from (m l).0
  where
    from : (r : Result A) → Marks (λ (k : Link). continue r (m l).1 f) l
    from (ok a) = marks a (m l).1 (keeps l ∙ unmarked)
    from (err e) = ((λ h. cc), λ _. keeps l ∙ unmarked)

mark_attached-Marks : (l : Link) → mark_of l ≡ none → Marks mark_attached l
unfolding on_source
mark_attached-Marks l unmarked =
    ((λ _. lookup-put_self attached (flag true) l.source.props), λ h. cc)

guarded-Marks :
    (m : Exec Link (Unit {0})) (l : Link)
    → mark_of l ≡ none
    → Marks m l
    → Marks (is_attached >>= λ done. if done then pure tt else m) l
guarded-Marks m l unmarked h = rw unmarked h

on_target-KeepsMark : {A : Type 0} (m : Exec (World DeviceCall) A) → KeepsMark (on_target m)
unfolding on_target
on_target-KeepsMark m l = refl

lift-Marks :
    {A : Type 0} (r : Result A) (f : A → Exec Link (Unit {0}))
    → ((a : A) (l : Link) → mark_of l ≡ none → Marks (f a) l)
    → (l : Link) → mark_of l ≡ none
    → Marks (lift r >>= f) l
lift-Marks (ok a) f marks l unmarked = marks a l unmarked
lift-Marks (err e) f marks l unmarked = ((λ h. cc), λ _. unmarked)

module _ (p : Platform DeviceCall) where
  pub request-KeepsMark : (c : DeviceCall) → KeepsMark (on_source (request p c))
  request-KeepsMark c l = source_request-lookup p c l attached (refl, refl)

  temp_stop_server-KeepsMark : (vm : Machine) → KeepsMark (temp_stop_server p vm)
  unfolding temp_stop_server
  temp_stop_server-KeepsMark vm l = elim (Bool-cases (is_off vm l.calls)) [
    | inl off ↦ rw off refl
    | inr not_off ↦ rw not_off (on_target-KeepsMark (request p power_off) l)
  ]

  temp_start_server-KeepsMark : (vm : Machine) → KeepsMark (temp_start_server p vm)
  unfolding temp_start_server
  temp_start_server-KeepsMark vm l = elim (Bool-cases (is_on vm l.calls)) [
    | inl on ↦ rw on refl
    | inr not_on ↦ rw not_on (on_target-KeepsMark (request p power_on) l)
  ]

  change_while_off-KeepsMark :
      (vm : Machine) (turn_off : Bool) (text : String) (c : DeviceCall)
      → KeepsMark (change_while_off p vm turn_off text c)
  unfolding change_while_off
  change_while_off-KeepsMark vm true text c l =
      bind-KeepsMark (temp_stop_server p vm)
        (λ _. do on_source (request p c); temp_start_server p vm) (temp_stop_server-KeepsMark vm)
        (λ _.
          bind-KeepsMark (on_source (request p c)) (λ _. temp_start_server p vm)
            (request-KeepsMark c) (λ _. temp_start_server-KeepsMark vm))
        l
  change_while_off-KeepsMark vm false text c l = elim (Bool-cases (is_on vm l.calls)) [
    | inl on ↦ rw on refl
    | inr not_on ↦ rw not_on (request-KeepsMark c l)
  ]

pub target_machine-KeepsMark : (machines : Machines) → KeepsMark (target_machine machines)
unfolding target_machine on_target
target_machine-KeepsMark machines l =
    elim (Option-cases (machines.cached (or_null (lookup "vsphere_server_id" l.target.props)))) [
      | inl gone ↦ rw gone refl
      | inr (vm, found) ↦ rw found refl
    ]

module _ (p : Platform DeviceCall) (machines : Machines) (content : Content) where
  attach_serial_port-Marks :
      (node : DeviceNode) (l : Link)
      → mark_of l ≡ none
      → Marks (attach_serial_port p machines node) l
  unfolding attach_serial_port
  attach_serial_port-Marks node l unmarked = guarded-Marks _ l unmarked (
      bind-Marks (target_machine machines)
        (λ vm. do change_while_off p vm node.turn_off_vm _ _; mark_attached)
        (target_machine-KeepsMark machines)
        (λ vm.
          bind-Marks (change_while_off p vm node.turn_off_vm _ _) (λ _. mark_attached)
            (change_while_off-KeepsMark p vm node.turn_off_vm _ _) (λ _. mark_attached-Marks))
        l unmarked)

  attach_pci_device-Marks :
      (node : DeviceNode) (l : Link)
      → mark_of l ≡ none
      → Marks (attach_pci_device p machines content node) l
  unfolding attach_pci_device
  attach_pci_device-Marks node l unmarked = guarded-Marks _ l unmarked (
      bind-Marks (target_machine machines) _ (target_machine-KeepsMark machines)
        (λ vm. lift-Marks (found_pci (get_pci_device content vm.host_name node.device_name)) _ (λ d.
          bind-Marks (change_while_off p vm node.turn_off_vm _ _) (λ _. mark_attached)
            (change_while_off-KeepsMark p vm node.turn_off_vm _ _) (λ _. mark_attached-Marks)))
        l unmarked)

  attach_usb_device-Marks :
      (node : UsbNode) (l : Link)
      → mark_of l ≡ none
      → Marks (attach_usb_device p machines content node) l
  unfolding attach_usb_device
  attach_usb_device-Marks node l unmarked = guarded-Marks _ l unmarked (
      bind-Marks (target_machine machines) _ (target_machine-KeepsMark machines)
        (λ vm.
          lift-Marks (usb_path (get_usb_physical_path content vm.host_name node.device_name)) _
            (λ path.
              lift-Marks (usb_changes vm (usb_device_type node.controller_type) path) _ (λ changes.
                bind-Marks (on_source (request p (reconfigure changes))) (λ _. mark_attached)
                  (request-KeepsMark p (reconfigure changes)) (λ _. mark_attached-Marks))))
        l unmarked)

  -- Attaching a serial port, a PCI device or a USB device to a source that is not marked ends with
  -- the mark set and saved if it succeeds, and with no mark if it fails or is put off.
  pub devices_marked :
      (node : DeviceNode) (usb_node : UsbNode) (l : Link)
      → mark_of l ≡ none
      → Marks (attach_serial_port p machines node) l
        × Marks (attach_pci_device p machines content node) l
        × Marks (attach_usb_device p machines content usb_node) l
  devices_marked node usb_node l unmarked = (
    attach_serial_port-Marks node l unmarked,
    attach_pci_device-Marks node l unmarked,
    attach_usb_device-Marks usb_node l unmarked,
  )
