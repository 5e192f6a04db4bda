-- ===== src/Devices/ChangeLaws.antt =====
-- The requests that attach and detach serial ports and PCI devices.
use cloudify_vsphere_plugin.Common.{
  ◌≡◌, refl, Option, none, some, lookup, is_some, or_null, String, Result, ok, err, Exec, pure,
  lift, ◌>>=◌, Bool-cases, inl, inr, arith, if◌then◌else◌,
}
use cloudify_vsphere_plugin.Runtime.{Platform, del_prop}
use cloudify_vsphere_plugin.Devices.{
  DeviceCall, Device, Machine, Machines, Link, on_source, on_target,
}
use cloudify_vsphere_plugin.Devices.Power.{change_while_off}
use cloudify_vsphere_plugin.Devices.Serial.{
  DeviceNode, attached, is_attached, mark_attached, target_machine, attach_serial_port,
  detach_serial_port, detach_found,
}
use cloudify_vsphere_plugin.Devices.Hosts.{Content, get_pci_device}
use cloudify_vsphere_plugin.Devices.Pci.{attach_pci_device, detach_pci_device, found_pci, find_pci}
use cloudify_vsphere_plugin.Devices.PowerLaws.{
  TurnsOff, AddsCarefully, quiet-AddsCarefully, bind-AddsCarefully, change_while_off-AddsCarefully,
}

-- The machine that the target's id stands for.
abbrev pub Targets : Machines → Link → Machine → Type 0
Targets machines l vm =
    machines.cached (or_null (lookup "vsphere_server_id" l.target.props)) ≡ some vm

pub target_machine-found :
    (machines : Machines) (l : Link) (vm : Machine)
    → Targets machines l vm
    → target_machine machines l ≡ (ok vm, l)
unfolding target_machine on_target
target_machine-found machines l vm h = rw h refl

module _ (vm : Machine) where
  -- A call that is known to give a value and to change nothing.
  known-AddsCarefully :
      {A B : Type 0} (m : Exec Link A) (f : A → Exec Link B) (l : Link) (a : A)
      → m l ≡ (ok a, l)
      → AddsCarefully vm (f a) l
      → AddsCarefully vm (m >>= f) l
  known-AddsCarefully m f l a e h = rw e h

  lift-AddsCarefully :
      {A B : Type 0} (r : Result A) (f : A → Exec Link B) (l : Link)
      → ((a : A) → AddsCarefully vm (f a) l)
      → AddsCarefully vm (lift r >>= f) l
  lift-AddsCarefully (ok a) f l h = h a
  lift-AddsCarefully {A} (err e) f l h = quiet-AddsCarefully vm {A = A} (λ k. (err e, k)) l refl

  mark_attached-AddsCarefully : (l : Link) → AddsCarefully vm mark_attached l
  unfolding on_source
  mark_attached-AddsCarefully l = quiet-AddsCarefully vm mark_attached l refl

  unmarked-AddsCarefully : (l : Link) → AddsCarefully vm (on_source (del_prop attached)) l
  unfolding on_source
  unmarked-AddsCarefully l = quiet-AddsCarefully vm (on_source (del_prop attached)) l (ground arith)

  -- The guard on the mark, which all attaching operations begin with.
  guarded-AddsCarefully :
      (m : Exec Link (Unit {0})) (l : Link)
      → AddsCarefully vm m l
      → AddsCarefully vm (is_attached >>= λ done. if done then pure tt else m) l
  guarded-AddsCarefully m l h = elim (Bool-cases (is_some (lookup attached l.source.props))) [
    | inl done ↦ rw done (quiet-AddsCarefully vm (pure tt) l refl)
    | inr not_done ↦ rw not_done h
  ]

module _ (p : Platform DeviceCall) (machines : Machines) (content : Content) (node : DeviceNode)
    (vm : Machine) (l : Link) (turns_off : TurnsOff p vm) (targets : Targets machines l vm) where
  attach_serial_port-AddsCarefully : AddsCarefully vm (attach_serial_port p machines node) l
  unfolding attach_serial_port
  attach_serial_port-AddsCarefully = guarded-AddsCarefully vm _ l (
      known-AddsCarefully vm (target_machine machines) _ l vm
        (target_machine-found machines l vm targets)
        (bind-AddsCarefully vm (change_while_off p vm node.turn_off_vm _ _) (λ _. mark_attached) l
          (change_while_off-AddsCarefully p vm turns_off _ _ _ l)
          (λ _ _. mark_attached-AddsCarefully vm _)))

  detach_found-AddsCarefully :
      (text : String) (d : Option Device)
      → AddsCarefully vm (detach_found p machines node vm text d) l
  detach_found-AddsCarefully text none = quiet-AddsCarefully vm (pure tt) l refl
  detach_found-AddsCarefully text (some d) =
      bind-AddsCarefully vm (change_while_off p vm node.turn_off_vm text _)
        (λ _. on_source (del_prop attached)) l
        (change_while_off-AddsCarefully p vm turns_off _ _ _ l) (λ _ _. unmarked-AddsCarefully vm _)

  detach_serial_port-AddsCarefully : AddsCarefully vm (detach_serial_port p machines node) l
  unfolding detach_serial_port
  detach_serial_port-AddsCarefully =
      known-AddsCarefully vm (target_machine machines) _ l vm
        (target_machine-found machines l vm targets) (detach_found-AddsCarefully _ _)

  attach_pci_device-AddsCarefully : AddsCarefully vm (attach_pci_device p machines content node) l
  unfolding attach_pci_device
  attach_pci_device-AddsCarefully = guarded-AddsCarefully vm _ l (
      known-AddsCarefully vm (target_machine machines) _ l vm
        (target_machine-found machines l vm targets)
        (lift-AddsCarefully vm (found_pci (get_pci_device content vm.host_name node.device_name)) _
          l
          (λ d.
            bind-AddsCarefully vm (change_while_off p vm node.turn_off_vm _ _) (λ _. mark_attached)
              l (change_while_off-AddsCarefully p vm turns_off _ _ _ l)
              (λ _ _. mark_attached-AddsCarefully vm _))))

  detach_pci_device-AddsCarefully : AddsCarefully vm (detach_pci_device p machines content node) l
  unfolding detach_pci_device
  detach_pci_device-AddsCarefully =
      known-AddsCarefully vm (target_machine machines) _ l vm
        (target_machine-found machines l vm targets)
        (lift-AddsCarefully vm
          (find_pci (get_pci_device content vm.host_name node.device_name) vm.devices) _ l
          (λ d. detach_found-AddsCarefully _ d))

  -- If the machine is off once a task that powers it off has succeeded, each reconfiguration that
  -- attaching or detaching a serial port or a PCI device sends reaches the machine while it is not
  -- powered on, however the operation ends and whatever becomes of its tasks.
  pub devices_changed_while_off :
      AddsCarefully vm (attach_serial_port p machines node) l
      × AddsCarefully vm (detach_serial_port p machines node) l
      × AddsCarefully vm (attach_pci_device p machines content node) l
      × AddsCarefully vm (detach_pci_device p machines content node) l
  devices_changed_while_off = (
    attach_serial_port-AddsCarefully, detach_serial_port-AddsCarefully,
    attach_pci_device-AddsCarefully, detach_pci_device-AddsCarefully,
  )
