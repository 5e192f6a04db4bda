-- ===== src/Server/GuestLaws.antt =====
-- The address that get_server_ip gives.
use cloudify_vsphere_plugin.Common.{
  ◌≡◌, refl, Text, Bool, ◌&&◌, not, Option, none, some, List, [], ◌∷◌, find, Bool-cases, inl, inr,
}
use cloudify_vsphere_plugin.Server.Guest.{
  GuestNic, is_unroutable, is_on_network, get_ip_from_vsphere_nic_ips, get_server_ip,
}

-- The first address that is not passed over.
abbrev pub is_wanted : Bool → Text → Bool
is_wanted ignore_local ip = not (ignore_local && is_unroutable ip)

get_ip_find :
    (ignore_local : Bool) (ips : List Text)
    → get_ip_from_vsphere_nic_ips ignore_local ips ≡ find (is_wanted ignore_local) ips
unfolding get_ip_from_vsphere_nic_ips
get_ip_find ignore_local [] = refl
get_ip_find ignore_local (ip ∷ ips) = elim (Bool-cases (ignore_local && is_unroutable ip)) [
  | inl local ↦ rw local (get_ip_find ignore_local ips)
  | inr other ↦ rw other refl
]

-- The interface that decides: the first one of the network that has an address.
abbrev pub first_on_network : Text → List GuestNic → Option GuestNic
first_on_network name = find (λ (n : GuestNic). is_on_network name n n.network)

-- The address of the first wanted kind at an interface, if there is one.
abbrev pub address_of : Bool → Option GuestNic → Option Text
address_of ignore_local none = none
address_of ignore_local (some n) = find (is_wanted ignore_local) n.ip_address

-- The address of a server on a network is the first one that is not passed over at the first
-- interface that is on the network, by the normalised name, and has an address at all; other
-- interfaces of the network are not considered, even if that one has no such address.
get_server_ip_first :
    (nics : List GuestNic) (name : Text) (ignore_local : Bool)
    → get_server_ip nics name ignore_local ≡ address_of ignore_local (first_on_network name nics)
unfolding get_server_ip
get_server_ip_first [] name ignore_local = refl
get_server_ip_first (nic ∷ nics) name ignore_local =
    elim (Bool-cases (is_on_network name nic nic.network)) [
      | inl here ↦ rw here (get_ip_find ignore_local nic.ip_address)
      | inr not_here ↦ rw not_here (get_server_ip_first nics name ignore_local)
    ]
