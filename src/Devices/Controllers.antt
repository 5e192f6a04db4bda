-- ===== src/Devices/Controllers.antt =====
-- ControllerClient (vsphere_plugin_common/clients/network.py): attaching a device to a machine and
-- finding its key, and detaching one by its key.
use cloudify_vsphere_plugin.Common.{
  String, Bool, true, false, ◌&&◌, not, Option, none, some, List, [], ◌∷◌, map, filter, find, ℤ,
  eqb_ℤ, Dict, Value, int, arr, Items, no_items, item, truthy, non_recoverable, attribute_error,
  Exec, pure, raise_if, gets, or_raise, ◌>>=◌, ◌>>◌, if◌then◌else◌,
}
use cloudify_vsphere_plugin.Runtime.{World, Platform, get_prop, put_prop, del_prop, save}
use cloudify_vsphere_plugin.Devices.{
  DeviceCall, reconfigure, DeviceClass, Device, NewDevice, add, remove_device, Machines, request,
}

abbrev pub known_keys : String
known_keys = "known_keys"

abbrev pub items_of : List ℤ → Items
items_of [] = no_items
items_of (k ∷ ks) = item (int k) (items_of ks)

abbrev pub is_key : ℤ → Value → Bool
is_key k (int n) = eqb_ℤ n k
is_key k _ = false

abbrev pub is_item : ℤ → Items → Bool
is_item k no_items = false
is_item k (item v rest) = if is_key k v then true else is_item k rest

-- `k in known_keys`, for the list that `attach_controller` keeps
abbrev pub is_known : ℤ → Value → Bool
is_known k (arr is') = is_item k is'
is_known k _ = false

abbrev pub keys_of_class : DeviceClass → List Device → List ℤ
keys_of_class c ds = map (λ (d : Device). d.key) (filter (λ (d : Device). d.is_a c) ds)

-- The first device of the class whose key was not known.
abbrev pub new_device : DeviceClass → Value → List Device → Option Device
new_device c known = find (λ (d : Device). d.is_a c && not (is_known d.key known))

abbrev pub with_bus : Option ℤ → Dict Value → Dict Value
with_bus none d = d
with_bus (some n) d = ("busNumber", int n) ∷ d

abbrev pub controller_properties : Device → Dict Value
controller_properties d = with_bus d.bus_number (("busKey", int d.key) ∷ [])

module _ (p : Platform DeviceCall) (machines : Machines) where
  -- `if not known_keys`: the keys are saved before the device is asked for.
  unfoldable pub add_device : Value → NewDevice → DeviceClass → Exec (World DeviceCall) Value
  add_device vm_id device c = do
    vm ← or_raise (machines.cached vm_id) attribute_error
    put_prop known_keys (arr (items_of (keys_of_class c vm.devices)))
    save
    request p (reconfigure (add device ∷ []))
    pure (arr (items_of (keys_of_class c vm.devices)))

  unfoldable pub find_new : Value → DeviceClass → Value → Exec (World DeviceCall) Device
  find_new vm_id c known = do
    found ← gets (λ w. machines.fresh w.calls vm_id)
    vm ← or_raise found attribute_error
    or_raise (new_device c known vm.devices)
        (non_recoverable "Have not found key for new added device")

  unfoldable pub attach_controller :
      Value → NewDevice → DeviceClass → Exec (World DeviceCall) (Dict Value)
  unfolding add_device find_new
  attach_controller vm_id device c = do
    raise_if (not (truthy vm_id)) (non_recoverable "VM is not defined")
    saved ← get_prop known_keys
    known ← if truthy saved then pure saved else add_device vm_id device c
    d ← find_new vm_id c known
    del_prop known_keys
    save
    pure (controller_properties d)

  abbrev pub remove_found : Option Device → Exec (World DeviceCall) (Unit {0})
  remove_found none = pure tt
  remove_found (some d) = request p (reconfigure (remove_device d ∷ []))

  unfoldable pub detach_controller : Value → Value → Exec (World DeviceCall) (Unit {0})
  detach_controller vm_id bus_key = do
    raise_if (not (truthy vm_id)) (non_recoverable "VM is not defined")
    raise_if (not (truthy bus_key)) (non_recoverable "Device Key is not defined")
    vm ← or_raise (machines.cached vm_id) attribute_error
    remove_found (find (λ (d : Device). is_key d.key bus_key) vm.devices)
