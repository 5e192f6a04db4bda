-- ===== src/Devices/Pci.antt =====
-- attach_pci_device and detach_pci_device.
use cloudify_vsphere_plugin.Common.{
  ℕ, zero, suc, ◌+◌, ◌-◌, ◌/◌, ◌%◌, Text, ◌||◌, Option, none, some, List, [], ◌∷◌, ◌++◌, str_eq,
  ltb, ◌==◌, ℤ, pos, negsuc, Result, ok, err, non_recoverable, attribute_error, Exec, pure, lift,
  ◌>>=◌, ◌>>◌, if◌then◌else◌, codes,
}
use cloudify_vsphere_plugin.Runtime.{Platform}
use cloudify_vsphere_plugin.Devices.{
  DeviceCall, reconfigure_locked, virtual_pci_passthrough, Device, PciBacking, add, pci_passthrough,
  Machines, Link,
}
use cloudify_vsphere_plugin.Devices.Power.{change_while_off}
use cloudify_vsphere_plugin.Devices.Serial.{
  DeviceNode, is_attached, mark_attached, target_machine, detach_found,
}
use cloudify_vsphere_plugin.Devices.Hosts.{Content, HostPci, get_pci_device}

abbrev pub hex_char : ℕ → ℕ
hex_char d = if ltb d 10 then b'0' + d else b'a' + (d - 10)

-- The digits of a number below 16 ^ fuel, before those that are already there.
unfoldable pub hex_digits : ℕ → ℕ → Text → Text
hex_digits zero n out = out
hex_digits (suc fuel) n out =
    let rest = hex_digits fuel (n / 16) (hex_char (n % 16) ∷ out) in if n == 0 then out else rest

-- `hex(n)` of Python for n < 16 ^ 4
unfoldable pub hex : ℕ → Text
unfolding hex_digits
hex n = codes "0x" ++ (if n == 0 then b'0' ∷ [] else hex_digits 4 n [])

-- `s.lstrip('0x')`, which drops every 0 and x in front
unfoldable pub lstrip_0x : Text → Text
lstrip_0x [] = []
lstrip_0x (c ∷ s) = let rest = lstrip_0x s in if c == b'0' || c == b'x' then rest else c ∷ s

-- `n % 2**16`, which Python makes positive
abbrev pub low_word : ℤ → ℕ
low_word (pos n) = n % 65536
low_word (negsuc n) = 65535 - n % 65536

unfoldable pub device_id_text : ℤ → Text
unfolding hex lstrip_0x
device_id_text n = lstrip_0x (hex (low_word n))

unfoldable pub pci_backing : HostPci → PciBacking
unfolding device_id_text
pci_backing d = record {
  device_id = device_id_text d.device_id;
  id = d.id;
  system_id = d.system_id;
  vendor_id = d.vendor_id;
  device_name = d.device_name;
}

abbrev pub found_pci : Option HostPci → Result HostPci
found_pci none = err (non_recoverable "pci device {0} not found on vm host {1}")
found_pci (some d) = ok d

-- The loop over the machine's devices: the first that passes `isinstance` reads the id of
-- `pci_details`, which is an error where that is `None`, and of its own backing.
unfoldable pub find_pci : Option HostPci → List Device → Result (Option Device)
find_pci details [] = ok none
find_pci details (d ∷ ds) =
    let rest = find_pci details ds in
    if d.is_a virtual_pci_passthrough
    then (elim d.backing_id [
      | none ↦ err attribute_error
      | some i ↦ elim details [
        | none ↦ err attribute_error
        | some h ↦ if str_eq i h.id then ok (some d) else rest
      ]
    ])
    else rest

module _ (p : Platform DeviceCall) (machines : Machines) (content : Content)
    (node : DeviceNode) where
  unfoldable pub attach_pci_device : Exec Link (Unit {0})
  unfolding pci_backing
  attach_pci_device = do
    done ← is_attached
    if done then pure tt else do
      vm ← target_machine machines
      d ← lift (found_pci (get_pci_device content vm.host_name node.device_name))
      change_while_off p vm node.turn_off_vm "PCI Device can't be attached while VM is running"
          (reconfigure_locked (add (pci_passthrough (pci_backing d)) ∷ []))
      mark_attached

  unfoldable pub detach_pci_device : Exec Link (Unit {0})
  unfolding find_pci
  detach_pci_device = do
    vm ← target_machine machines
    d ← lift (find_pci (get_pci_device content vm.host_name node.device_name) vm.devices)
    detach_found p machines node vm "PCI Device can't be detached while VM is running" d
