-- ===== src/Network/Switches.antt =====
-- NetworkClient.get_vswitches, get_vswitch_mtu and get_network_mtu.
use cloudify_vsphere_plugin.Common.{
  ℕ, String, union, Text, codes, lower, unquote, text_eq, Bool, true, false, Option, none, some,
  List, [], ◌∷◌, ◌++◌, map, filter, any, find, ℤ, pos, negsuc, eqb_ℤ, ltb_ℤ, str_eq, Result, ok,
  err, non_recoverable, if◌then◌else◌,
}
use cloudify_vsphere_plugin.Network.{Vswitch, Host, PortGroup}

abbrev pub switch_names : Host → List String
switch_names h = map (λ (s : Vswitch). s.name) h.vswitches

unfoldable pub union_from : List String → List Host → List String
union_from found [] = found
union_from found (h ∷ hs) = union_from (union found (switch_names h)) hs

unfoldable pub get_vswitches : List Host → List String
unfolding union_from
get_vswitches hosts = union_from [] hosts

-- One step of the search for the lowest MTU: -1 is none so far.
abbrev pub lower_mtu : ℤ → ℕ → ℤ
lower_mtu mtu n = if eqb_ℤ mtu (negsuc 0) then pos n else if ltb_ℤ (pos n) mtu then pos n else mtu

-- The loop over the switches of a host.
unfoldable pub mtu_of_switches : (Vswitch → Bool) → ℤ → List Vswitch → ℤ
mtu_of_switches test mtu [] = mtu
mtu_of_switches test mtu (s ∷ ss) =
    mtu_of_switches test (if test s then lower_mtu mtu s.mtu else mtu) ss

unfoldable pub mtu_of_hosts : (Vswitch → Bool) → ℤ → List Host → ℤ
unfolding mtu_of_switches
mtu_of_hosts test mtu [] = mtu
mtu_of_hosts test mtu (h ∷ hs) = mtu_of_hosts test (mtu_of_switches test mtu h.vswitches) hs

unfoldable pub get_vswitch_mtu : List Host → String → ℤ
unfolding mtu_of_hosts
get_vswitch_mtu hosts name = mtu_of_hosts (λ s. str_eq name s.name) (negsuc 0) hosts

-- `_get_obj_by_name`: names are compared in lower case, the wanted one decoded first.
abbrev pub has_name : Text → PortGroup → Bool
has_name name g = text_eq (lower (unquote name)) (lower g.name)

abbrev pub is_distributed : PortGroup → Bool
is_distributed g = g.distributed

abbrev pub dv_port_group : Text → List PortGroup → Option PortGroup
dv_port_group name networks = find (has_name name) (filter is_distributed networks)

abbrev pub group_key : Text → Text
group_key name = codes "key-vim.host.PortGroup-" ++ name

abbrev mtu_of_group : Option PortGroup → Result ℤ
mtu_of_group none = err (non_recoverable "Unable to get DistributedVirtualPortgroup: {name}")
mtu_of_group (some g) = ok (pos g.max_mtu)

unfoldable pub get_network_mtu : List Host → List PortGroup → Text → Bool → Result ℤ
unfolding mtu_of_hosts
get_network_mtu hosts networks name true = mtu_of_group (dv_port_group name networks)
get_network_mtu hosts networks name false =
    ok (mtu_of_hosts (λ s. any (λ k. text_eq k (group_key name)) s.port_groups) (negsuc 0) hosts)
