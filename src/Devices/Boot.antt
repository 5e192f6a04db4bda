-- ===== src/Devices/Boot.antt =====
-- get_boot_order_obj and set_boot_order (vsphere_plugin_common/clients/server.py), change_boot_order
-- and remove_cdrom (cloudify_vsphere/devices/__init__.py).
use cloudify_vsphere_plugin.Common.{
  Text, codes, lower, text_eq, Bool, true, false, ◌&&◌, not, Option, none, some, List, [], ◌∷◌,
  ◌++◌, map, find, ℤ, Value, non_recoverable, operation_retry, attribute_error, Exec, pure, gets,
  or_raise, raise_if, ◌>>=◌, ◌>>◌, if◌then◌else◌,
}
use cloudify_vsphere_plugin.Runtime.{World, Platform, get_prop}
use cloudify_vsphere_plugin.Devices.{
  DeviceCall, reconfigure, set_boot, virtual_cdrom, virtual_disk, virtual_ethernet_card, Device,
  remove_device, BootDevice, boot_cdrom, boot_floppy, boot_disk, boot_ethernet, Machines, request,
}
use cloudify_vsphere_plugin.Devices.Controllers.{keys_of_class}

-- The keys of `boot_supported_devices`.
pub data BootOption : Type 0 where
  cdrom floppy disk ethernet : BootOption

abbrev pub boot_option : Text → Option BootOption
boot_option t =
    if text_eq t (codes "cdrom")
    then some cdrom
    else if text_eq t (codes "floppy")
    then some floppy
    else if text_eq t (codes "disk")
    then some disk
    else if text_eq t (codes "ethernet")
    then some ethernet
    else none

-- `if not device_keys: device_keys = _get_device_keys(...)`
abbrev pub keys_or : List ℤ → List ℤ → List ℤ
keys_or [] own = own
keys_or (k ∷ ks) own = k ∷ ks

-- What one option adds. `disk_keys` and `ethernet_keys` are empty where the user gave none.
abbrev pub boot_devices : List Device → List ℤ → List ℤ → Option BootOption → List BootDevice
boot_devices devices disk_keys ethernet_keys none = []
boot_devices devices disk_keys ethernet_keys (some cdrom) = boot_cdrom ∷ []
boot_devices devices disk_keys ethernet_keys (some floppy) = boot_floppy ∷ []
boot_devices devices disk_keys ethernet_keys (some disk) =
    map boot_disk (keys_or disk_keys (keys_of_class virtual_disk devices))
boot_devices devices disk_keys ethernet_keys (some ethernet) =
    map boot_ethernet (keys_or ethernet_keys (keys_of_class virtual_ethernet_card devices))

-- The loop over the boot order, with the entries made so far.
unfoldable pub boot_loop :
    List Device → List ℤ → List ℤ → List BootDevice → List Text → List BootDevice
boot_loop devices disk_keys ethernet_keys out [] = out
boot_loop devices disk_keys ethernet_keys out (t ∷ ts) =
    boot_loop devices disk_keys ethernet_keys
      (out ++ boot_devices devices disk_keys ethernet_keys (boot_option (lower t))) ts

abbrev pub same_type : BootDevice → BootDevice → Bool
same_type boot_cdrom boot_cdrom = true
same_type boot_floppy boot_floppy = true
same_type (boot_disk _) (boot_disk _) = true
same_type (boot_ethernet _) (boot_ethernet _) = true
same_type _ _ = false

unfoldable pub same_types : List BootDevice → List BootDevice → Bool
same_types [] [] = true
same_types (a ∷ as') (b ∷ bs) = let rest = same_types as' bs in same_type a b && rest
same_types _ _ = false

module _ (p : Platform DeviceCall) (machines : Machines) where
  unfoldable pub get_boot_order_obj :
      Value → List Text → List ℤ → List ℤ → Exec (World DeviceCall) (List BootDevice)
  get_boot_order_obj vm_id boot_order disk_keys ethernet_keys = do
    vm ← or_raise (machines.cached vm_id) (non_recoverable "VM with id {0} does not exist")
    gets (λ w. boot_loop (vm.live_devices w.calls) disk_keys ethernet_keys [] boot_order)

  unfoldable pub set_boot_order :
      Value → List Text → List ℤ → List ℤ → Exec (World DeviceCall) (Unit {0})
  unfolding get_boot_order_obj
  set_boot_order vm_id boot_order disk_keys ethernet_keys = do
    wanted ← get_boot_order_obj vm_id boot_order disk_keys ethernet_keys
    vm ← or_raise (machines.cached vm_id) attribute_error
    request p (set_boot wanted)
    current ← gets (λ (w : World DeviceCall). vm.boot_order w.calls)
    raise_if (not (same_types current wanted))
        (operation_retry "Boot order is different than expected")

  unfoldable pub change_boot_order :
      List Text → List ℤ → List ℤ → Exec (World DeviceCall) (Unit {0})
  unfolding set_boot_order
  change_boot_order boot_order disk_keys ethernet_keys = do
    vm_id ← get_prop "vsphere_server_id"
    set_boot_order vm_id boot_order disk_keys ethernet_keys

  abbrev remove_first : Option Device → Exec (World DeviceCall) (Unit {0})
  remove_first none = pure tt
  remove_first (some d) = request p (reconfigure (remove_device d ∷ []))

  unfoldable pub remove_cdrom : Exec (World DeviceCall) (Unit {0})
  remove_cdrom = do
    vm_id ← get_prop "vsphere_server_id"
    vm ← or_raise (machines.cached vm_id) attribute_error
    devices ← gets (λ (w : World DeviceCall). vm.live_devices w.calls)
    remove_first (find (λ (d : Device). d.is_a virtual_cdrom) devices)
