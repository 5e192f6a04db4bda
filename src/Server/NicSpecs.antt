-- ===== src/Server/NicSpecs.antt =====
-- `_add_network` of ServerClient: the specification of a new network card and of its address.
use cloudify_vsphere_plugin.Common.{
  ℕ, String, Text, codes, lower, unquote, text_eq, Bool, true, false, Option, none, some, List,
  find, Dict, lookup, Value, str, joined, truthy, or_null, Result, ok, err, non_recoverable,
  key_error, type_error, attribute_error, and_then, if◌then◌else◌,
}
use cloudify_vsphere_plugin.Inventory.{Entity}
use cloudify_vsphere_plugin.Inventory.Lookup.{get_obj_by_name}

-- A network of the datacenter; the last four are what the specification copies of it.
pub record NetworkObject : Type 0 where
  pub id : String
  pub name : Text
  pub switch_uuid : String
  pub key : String
  pub opaque_id : String
  pub opaque_type : String

pub data CardBacking : Type 0 where
  opaque_network : String → String → CardBacking
  distributed_port : String → String → CardBacking
  standard_network : String → Text → CardBacking

-- How the guest gets its address.
pub data Addressing : Type 0 where
  dhcp : Addressing
  fixed : Value → Value → Value → Addressing

-- The card, which is connected at once and at each start, and its address.
pub record NicSpec : Type 0 where
  pub key : ℕ
  pub backing : CardBacking
  pub mac_address : Value
  pub addressing : Addressing

-- What the networks are looked up in: those of the datacenter, if it was found, and all standard
-- networks with what is known of them by id.
pub record NicView : Type 0 where
  pub datacenter : Option (List NetworkObject)
  pub networks : List Entity
  pub details : String → NetworkObject

abbrev required_field : String → Dict Value → Result Value
required_field k d = elim (lookup k d) [ none ↦ err (key_error k) | some v ↦ ok v ]

abbrev text_of : Value → Result Text
text_of (str s) = ok (codes s)
text_of (joined t) = ok t
text_of _ = err type_error

abbrev found_network : Option NetworkObject → Result NetworkObject
found_network none = err (non_recoverable "Network {0} could not be found")
found_network (some n) = ok n

abbrev among_datacenter : Text → Option (List NetworkObject) → Result NetworkObject
among_datacenter name none = err attribute_error
among_datacenter name (some ns) =
    found_network
      (find (λ (n : NetworkObject). text_eq (lower (unquote n.name)) (lower (unquote name))) ns)

abbrev standard : (String → NetworkObject) → Option Entity → Result NetworkObject
standard details none = err (non_recoverable "Network {0} could not be found")
standard details (some e) = ok (details e.id)

unfoldable pub find_network : NicView → Text → Bool → Result NetworkObject
find_network view name true = among_datacenter name view.datacenter
find_network view name false = standard view.details (get_obj_by_name view.networks name none)

unfoldable pub card_backing_of : Bool → Bool → Text → NetworkObject → CardBacking
card_backing_of nsx_t distributed name n =
    if nsx_t
    then opaque_network n.opaque_type n.opaque_id
    else if distributed
    then distributed_port n.switch_uuid n.key
    else standard_network n.id name

-- `IPNetwork(...).netmask` is of a library.
unfoldable pub addressing_of : (Value → Result Value) → Dict Value → Bool → Result Addressing
addressing_of netmask network true = ok dhcp
addressing_of netmask network false = and_then (required_field "network" network) (λ v.
    and_then (netmask v) (λ mask.
      and_then (required_field "ip" network) (λ ip.
        and_then (required_field "gateway" network) (λ gateway. ok (fixed ip gateway mask)))))

module _ (netmask : Value → Result Value) (view : NicView) where
  unfoldable pub add_network : Dict Value → ℕ → Result NicSpec
  unfolding find_network card_backing_of addressing_of
  add_network network counter = and_then (required_field "name" network) (λ v.
      and_then (required_field "nsx_t_switch" network) (λ nsx_t. and_then (text_of v) (λ name.
        and_then (required_field "switch_distributed" network) (λ distributed.
          and_then (required_field "use_dhcp" network) (λ use_dhcp.
            and_then (find_network view name (truthy distributed)) (λ n.
              and_then (addressing_of netmask network (truthy use_dhcp)) (λ addressing. ok (record {
                key = counter;
                backing = card_backing_of (truthy nsx_t) (truthy distributed) name n;
                mac_address = or_null (lookup "mac_address" network);
                addressing = addressing;
              }))))))))
