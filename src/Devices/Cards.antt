-- ===== src/Devices/Cards.antt =====
-- generate_scsi_card and generate_ethernet_card of ControllerClient.
use cloudify_vsphere_plugin.Helpers.Integers.{to_int}
use cloudify_vsphere_plugin.Common.{
  String, Text, codes, Bool, true, false, ◌&&◌, not, Option, none, some, List, [], ◌∷◌, ℤ, pos,
  negsuc, ltb_ℤ, str_eq, Dict, lookup, Value, flag, int, str, joined, truthy, or_null, Result, ok,
  err, non_recoverable, key_error, attribute_error, type_error, and_then, if◌then◌else◌,
}
use cloudify_vsphere_plugin.Inventory.{Entity}
use cloudify_vsphere_plugin.Inventory.Lookup.{get_obj_by_name}
use cloudify_vsphere_plugin.Devices.{
  DeviceClass, lsi_logic, lsi_logic_sas, para_virtual_scsi, e1000e, e1000, sriov, vmxnet2, vmxnet3,
  Device, ScsiCard, EthernetCard, Backing, distributed_port, network, Machine, Machines,
}

-- `d.get(key, default)`
abbrev pub get_or : String → Value → Dict Value → Value
get_or key v d = elim (lookup key d) [ none ↦ v | some w ↦ w ]

-- `d[key]`
abbrev pub required : String → Dict Value → Result Value
required key d = elim (lookup key d) [ none ↦ err (key_error key) | some v ↦ ok v ]

abbrev pub is_str : Value → String → Bool
is_str (str s) t = str_eq s t
is_str _ t = false

-- A number in a comparison; a flag is 0 or 1.
abbrev pub as_int : Value → Option ℤ
as_int (int n) = some n
as_int (flag true) = some (pos 1)
as_int (flag false) = some (pos 0)
as_int _ = none

abbrev pub raise_bus : Option ℤ → ℤ → Value → Result Value
raise_bus none n bus = err type_error
raise_bus (some b) n bus = ok (if ltb_ℤ b n then int n else bus)

-- The loop over the devices that have a bus number.
unfoldable pub highest_bus : Value → List Device → Result Value
highest_bus bus [] = ok bus
highest_bus bus (d ∷ ds) = elim d.bus_number [
  | none ↦ highest_bus bus ds
  | some n ↦ and_then (raise_bus (as_int bus) n bus) (λ b. highest_bus b ds)
]

abbrev pub scsi_class : Value → DeviceClass × String
scsi_class v =
    if is_str v "lsilogic"
    then (lsi_logic, "LSI Logic")
    else if is_str v "lsilogic_sas"
    then (lsi_logic_sas, "LSI Logic Sas")
    else (para_virtual_scsi, "VMware paravirtual SCSI")

abbrev pub scsi_sharing : Value → String
scsi_sharing v =
    if is_str v "virtualSharing"
    then "virtualSharing"
    else if is_str v "physicalSharing"
    then "physicalSharing"
    else "noSharing"

-- The unit number is set unless it is negative.
abbrev pub unit_of : ℤ → Option ℤ
unit_of (pos n) = some (pos n)
unit_of (negsuc _) = none

abbrev pub scsi_card : Dict Value → Value → Value → ℤ → ScsiCard
scsi_card props label bus unit = record {
  class = (scsi_class (or_null (lookup "adapterType" props))).0;
  bus_number = bus;
  label = label;
  summary = (scsi_class (or_null (lookup "adapterType" props))).1;
  unit_number = unit_of unit;
  hot_add_remove = lookup "hotAddRemove" props;
  shared_bus = scsi_sharing (or_null (lookup "sharedBus" props));
}

abbrev pub devices_of : Option Machine → Result (List Device)
devices_of none = err attribute_error
devices_of (some vm) = ok vm.devices

unfoldable pub generate_scsi_card : Machines → Dict Value → Value → Result ScsiCard
unfolding highest_bus
generate_scsi_card machines props vm_id =
    if not (truthy vm_id)
    then err (non_recoverable "VM is not defined")
    else and_then (required "label" props) (λ label.
      and_then (devices_of (machines.cached vm_id)) (λ ds.
        and_then (highest_bus (get_or "busNumber" (int (pos 0)) props) ds) (λ bus.
          and_then (to_int (get_or "scsiCtlrUnitNumber" (int (negsuc 0)) props))
            (λ unit. ok (scsi_card props label bus unit)))))

-- What the networks of a card are looked up in. A distributed group has, by its id, the uuid of its
-- switch and its own key.
pub record CardView : Type 0 where
  pub groups : List Entity
  pub group_details : String → String × String
  pub networks : List Entity

abbrev pub ethernet_class : Value → DeviceClass
ethernet_class v =
    if is_str v "E1000e"
    then e1000e
    else if is_str v "E1000"
    then e1000
    else if is_str v "Sriov"
    then sriov
    else if is_str v "Vmxnet2"
    then vmxnet2
    else vmxnet3

-- The name is passed through `unquote`, which wants a text.
abbrev pub name_text : Value → Result Text
name_text (str s) = ok (codes s)
name_text (joined t) = ok t
name_text _ = err type_error

abbrev pub port_backing : CardView → Option Entity → Result Backing
port_backing view none = err (non_recoverable "Network {0} could not be found")
port_backing view (some g) =
    ok (distributed_port (view.group_details g.id).0 (view.group_details g.id).1)

abbrev pub network_backing : Text → Option Entity → Result Backing
network_backing name none = err (non_recoverable "Network {0} could not be found")
network_backing name (some n) = ok (network n.id name)

abbrev pub card_backing : CardView → Text → Bool → Result Backing
card_backing view name true = port_backing view (get_obj_by_name view.groups name none)
card_backing view name false = network_backing name (get_obj_by_name view.networks name none)

-- `if not network_connected and start_connected: start_connected = False`
abbrev pub starts_connected : Value → Value → Value
starts_connected connected start =
    if not (truthy connected) && truthy start then flag false else start

abbrev pub if_truthy : Value → Option Value
if_truthy v = if truthy v then some v else none

abbrev pub ethernet_card_of : Dict Value → Backing → EthernetCard
ethernet_card_of props backing = record {
  class = ethernet_class (get_or "adapter_type" (str "Vmxnet3") props);
  backing = backing;
  start_connected =
      starts_connected (get_or "network_connected" (flag true) props)
        (get_or "start_connected" (flag true) props);
  allow_guest_control = get_or "allow_guest_control" (flag true) props;
  connected = get_or "network_connected" (flag true) props;
  wake_on_lan = get_or "wake_on_lan_enabled" (flag true) props;
  address_type = get_or "address_type" (str "assigned") props;
  mac_address = if_truthy (or_null (lookup "mac_address" props));
}

unfoldable pub generate_ethernet_card : CardView → Dict Value → Result EthernetCard
generate_ethernet_card view props = and_then (required "name" props) (λ v.
    and_then (name_text v) (λ name.
      and_then (card_backing view name (truthy (or_null (lookup "switch_distributed" props))))
        (λ b. ok (ethernet_card_of props b))))
