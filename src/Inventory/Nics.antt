-- ===== src/Inventory/Nics.antt =====
-- get_vm_networks: the networks of the interfaces of a virtual machine.
use cloudify_vsphere_plugin.Common.{
  String, Text, Bool, true, false, Option, none, some, List, [], ◌∷◌, str_eq, Result, ok, err,
  non_recoverable, and_then, if◌then◌else◌,
}

-- What is behind an interface: a network of NSX-T, a port of a distributed group by the key of the
-- group, or a device by its name.
pub data Backing : Type 0 where
  opaque_network : Text → Backing
  distributed_port : String → Backing
  device : Text → Backing

-- A device of a machine; one without a MAC address is no interface.
pub record VmDevice : Type 0 where
  pub mac_address : Option String
  pub backing : Backing

-- A network of the machine; a distributed one has a key.
pub record VmNetwork : Type 0 where
  pub name : Text
  pub key : Option String

-- An entry of the result.
pub record NicDetails : Type 0 where
  pub name : Text
  pub distributed : Bool
  pub mac : String
  pub nsxt_switch : Bool

abbrev pub has_key : String → Option String → Bool
has_key key none = false
has_key key (some k) = str_eq key k

-- The loop over the networks has no `break`: the last one of that key counts.
unfoldable pub match_key : String → Option Text → List VmNetwork → Option Text
match_key key name [] = name
match_key key name (n ∷ ns) = match_key key (if has_key key n.key then some n.name else name) ns

unfoldable pub network_name : List VmNetwork → Backing → Option Text
unfolding match_key
network_name networks (opaque_network id) = some id
network_name networks (distributed_port key) = match_key key none networks
network_name networks (device name) = some name

abbrev pub is_distributed : Backing → Bool
is_distributed (distributed_port _) = true
is_distributed _ = false

abbrev pub is_opaque : Backing → Bool
is_opaque (opaque_network _) = true
is_opaque _ = false

abbrev pub describe : String → Backing → Option Text → Result NicDetails
describe mac backing none =
    err (non_recoverable "Could not get network name for device with MAC address {mac} on VM {vm}")
describe mac backing (some name) = ok (record {
  name = name;
  distributed = is_distributed backing;
  mac = mac;
  nsxt_switch = is_opaque backing;
})

unfoldable pub get_vm_networks : List VmNetwork → List VmDevice → Result (List NicDetails)
unfolding network_name
get_vm_networks networks [] = ok []
get_vm_networks networks (d ∷ ds) =
    let rest = get_vm_networks networks ds in
    elim d.mac_address [
      | none ↦ rest
      | some mac ↦
          and_then (describe mac d.backing (network_name networks d.backing))
            (λ nic. and_then rest (λ nics. ok (nic ∷ nics)))
    ]
