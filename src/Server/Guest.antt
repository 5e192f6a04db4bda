-- ===== src/Server/Guest.antt =====
-- What the guest of a virtual machine reports: get_ip_from_vsphere_nic_ips, get_server_ip and
-- `_wait_vm_running` of vsphere_plugin_common/clients/server.py.
use cloudify_vsphere_plugin.Common.{
  String, Text, codes, lower, unquote, starts_with, text_eq, Bool, true, false, ◌&&◌, ◌||◌, not,
  Option, none, some, List, [], ◌∷◌, Result, ok, err, non_recoverable, and_then, if◌then◌else◌,
  str_eq,
}

-- An entry of `vm.guest.net`: the network's name, which may be missing, and its addresses.
pub record GuestNic : Type 0 where
  pub network : Option Text
  pub ip_address : List Text

abbrev pub is_unroutable : Text → Bool
is_unroutable ip = starts_with ip (codes "169.254.") || starts_with (lower ip) (codes "fe80::")

unfoldable pub get_ip_from_vsphere_nic_ips : Bool → List Text → Option Text
get_ip_from_vsphere_nic_ips ignore_local [] = none
get_ip_from_vsphere_nic_ips ignore_local (ip ∷ ips) =
    let rest = get_ip_from_vsphere_nic_ips ignore_local ips in
    if ignore_local && is_unroutable ip then rest else some ip

abbrev pub is_empty {ℓ} : {A : Type ℓ} → List A → Bool
is_empty [] = true
is_empty (_ ∷ _) = false

-- `network.network and network_name.lower() == ... and len(network.ipAddress) > 0`
abbrev pub is_on_network : Text → GuestNic → Option Text → Bool
is_on_network name nic none = false
is_on_network name nic (some []) = false
is_on_network name nic (some (c ∷ s)) =
    text_eq (lower name) (lower (unquote (c ∷ s))) && not (is_empty nic.ip_address)

-- The first interface of the network that has an address decides, also where it has none to give.
unfoldable pub get_server_ip : List GuestNic → Text → Bool → Option Text
unfolding get_ip_from_vsphere_nic_ips
get_server_ip [] name ignore_local = none
get_server_ip (nic ∷ nics) name ignore_local =
    let rest = get_server_ip nics name ignore_local in
    if is_on_network name nic nic.network
    then get_ip_from_vsphere_nic_ips ignore_local nic.ip_address
    else rest

-- The state that the guest reports; `none` where the machine was deleted.
unfoldable pub task_guest_state_is_running : Option String → Result Bool
task_guest_state_is_running none = err (
    non_recoverable
      "Server failed to enter running state, task has been deleted by vCenter after failing.")
task_guest_state_is_running (some state) = ok (str_eq state "running")

unfoldable pub task_guest_has_networks : {A : Type 0} → List GuestNic → List A → Bool
task_guest_has_networks nics [] = true
task_guest_has_networks nics (_ ∷ _) = not (is_empty nics)

unfoldable pub wait_vm_running :
    {A : Type 0} → Option String → List GuestNic → List A → Bool → Result Bool
unfolding task_guest_state_is_running task_guest_has_networks
wait_vm_running state nics adaptermaps other =
    and_then (task_guest_state_is_running state)
      (λ running. ok (running && (other || task_guest_has_networks nics adaptermaps)))
