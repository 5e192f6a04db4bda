-- ===== src/Server/Tests.antt =====
-- The operations on a small virtual machine.
use cloudify_vsphere_plugin.Server.Guest.{get_ip_from_vsphere_nic_ips}
use cloudify_vsphere_plugin.Server.Naming.{get_vm_name}
use cloudify_vsphere_plugin.Server.Lifecycle.{get_server_by_context}
use cloudify_vsphere_plugin.Common.{
  put, remove, true, false, flag, arr, ◌≤◌, ◌<◌, ◌+◌, ℕ, int, is_some, joined, All,
}
use cloudify_vsphere_plugin.Inventory.Nics.{NicDetails}
use cloudify_vsphere_plugin.Server.Patience.{
  arrived_at_min_wait_time, arrived_at_min_wait_time_first,
}
use cloudify_vsphere_plugin.Server.State.{GuestInfo, ConnectNetwork, StateInputs, nic_ip, get_state}
use cloudify_vsphere_plugin.Server.Addresses.{get_state_ip}
use cloudify_vsphere_plugin.Server.NicPlan.{Card, NicChange, remove_nic, add_nic}
use cloudify_vsphere_plugin.Inventory.{detached}
use cloudify_vsphere_plugin.Server.NicSpecs.{
  NetworkObject, NicView, NicSpec, standard_network, dhcp,
}
use cloudify_vsphere_plugin.Server.Guest.{GuestNic}
use cloudify_vsphere_plugin.Common.{
  refl, List, [], ◌∷◌, Text, codes, pos, none, is_ok, lower, lower_code, if◌then◌else◌,
}
use cloudify_vsphere_plugin.Runtime.{World, Task, success, Platform}
use cloudify_vsphere_plugin.Server.{VmCall, power_on, power_off, destroy, Server, nil}
use cloudify_vsphere_plugin.Server.Power.{
  stop_server, delete_server, default_wait, is_server_poweredon,
}
use cloudify_vsphere_plugin.Common.{◌≡◌, true, false, some, err, String}
use cloudify_vsphere_plugin.Server.{SnapshotList, snapshot, cons}
use cloudify_vsphere_plugin.Common.{flag, length, ◌≤◌, ok, lookup}
use cloudify_vsphere_plugin.Server.Naming.{new_vm_name}
use cloudify_vsphere_plugin.Server.Lifecycle.{Inventory, Inputs}
use cloudify_vsphere_plugin.Server.PowerLaws.{Sends, delete_requests}
use cloudify_vsphere_plugin.Common.{
  Result, null, str, arr, item, no_items, truthy, put, remove, update, filter, ◌++◌,
}
use cloudify_vsphere_plugin.Server.Networks.{
  Nic, NicLink, connected_nics, get_or, network_validations, validate_connect_network, judge_items,
  set_defaults, check_networks, reorder, add_links, link_network, merge_nics,
}
use cloudify_vsphere_plugin.Server.Validation.{
  fits, validate_connect_network-decides, validate_connect_network-fits,
  validate_connect_network-lookup,
}
use cloudify_vsphere_plugin.Server.LinkLaws.{add_links_adds}
use cloudify_vsphere_plugin.Server.NetworkLaws.{
  validate_all, is_external, others, check_networks_order,
}

abbrev done : Task
done = record { id = "task-1"; state = λ _. success; result = "vm-1"; fault = "" }

abbrev esx : Platform VmCall
esx = record { reply = λ _ _. done; recent_tasks = λ _. [] }

-- The state that the last request leaves behind.
abbrev state_after : Text → List VmCall → Text
state_after s [] = s
state_after s (power_on ∷ cs) = state_after (codes "poweredOn") cs
state_after s (power_off ∷ cs) = state_after (codes "poweredOff") cs
state_after s (_ ∷ cs) = state_after s cs

abbrev pub vm : Text → Server
vm s = record {
  id = "vm-1";
  name = "web";
  power_state = state_after s;
  version = λ _. 8;
  snapshots = λ _. nil;
  num_cpu = pos 2;
  memory_mb = pos 1024;
}

abbrev idle : World VmCall
idle = record { props = []; stored = []; calls = [] }

delete_requests_example :
    let server = vm (codes "poweredOn") in
    Sends esx server none idle (delete_server esx server none) (
      power_off ∷ (if is_ok (stop_server esx server default_wait idle).0 then destroy ∷ [] else []))
unfolding is_server_poweredon lower lower_code
delete_requests_example = delete_requests esx (vm (codes "poweredOn")) none idle

abbrev two_snapshots : SnapshotList
two_snapshots = cons (snapshot "base" (cons (snapshot "patched" nil) nil)) nil

abbrev saved_vm : Server
saved_vm = record {
  id = "vm-1";
  name = "web";
  power_state = λ _. codes "poweredOff";
  version = λ _. 13;
  snapshots = λ _. two_snapshots;
  num_cpu = pos 2;
  memory_mb = pos 1024;
}

abbrev empty_inventory : Inventory
empty_inventory = record { by_id = λ _. none; by_name = λ _. none }

abbrev node : Inputs
node = record {
  server = record { name = none; add_scale_suffix = none };
  instance_id = codes "web_vm_ab12cd";
  os_family = codes "Windows";
  max_wait = none;
}

new_name : new_vm_name node.server node.instance_id node.os_family ≡ ok (codes "web-vm-ab12cd")
unfolding new_vm_name lower lower_code
new_name = refl

-- Two networks of a server; the second one gets its name from a relationship.
abbrev lan_nic : Nic
lan_nic = ("name", str "lan") ∷ ("external", flag false) ∷ ("ip", str "") ∷ []

abbrev wan_nic : Nic
wan_nic = ("name", str "wan") ∷ ("external", flag true) ∷ ("from_relationship", flag true) ∷ []

abbrev wan_link : NicLink
wan_link = record {
  type_hierarchy = "cloudify.relationships.vsphere.server_connected_to_nic" ∷ [];
  id = "nic_1";
  connected_network = some (("ip", str "10.0.0.1") ∷ []);
  name = some (str "wan");
}

abbrev value_of : Result Nic → Nic
value_of (ok nic) = nic
value_of (err _) = []

abbrev list_of : Result (List Nic) → List Nic
list_of (ok nics) = nics
list_of (err _) = []

validate_connect_network-decides_example : is_ok (validate_connect_network lan_nic) ≡ true
unfolding lookup
validate_connect_network-decides_example =
    validate_connect_network-decides lan_nic (refl, (refl, (refl, tt)))

validate_connect_network-fits_example :
    fits
      (lookup "ip" network_validations)
      (lookup "ip" (value_of (validate_connect_network lan_nic)))
    ≡ true
unfolding lookup put remove validate_connect_network judge_items set_defaults
validate_connect_network-fits_example =
    validate_connect_network-fits lan_nic (value_of (validate_connect_network lan_nic))
      (refl, (refl, (refl, tt))) refl "ip"

validate_connect_network-lookup_example :
    lookup "use_dhcp" (value_of (validate_connect_network lan_nic)) ≡ some (flag true)
unfolding lookup put remove validate_connect_network judge_items set_defaults
validate_connect_network-lookup_example =
    validate_connect_network-lookup lan_nic (value_of (validate_connect_network lan_nic))
      (refl, (refl, (refl, tt))) refl "use_dhcp"

check_networks_order_example :
    (vs : List Nic) × (validate_all (lan_nic ∷ wan_nic ∷ []) ≡ ok vs)
    × (list_of (check_networks (lan_nic ∷ wan_nic ∷ [])) ≡ filter is_external vs ++ others vs)
    × (length (filter is_external vs) ≤ 1)
    × (length (filter (λ v. truthy (get_or "management" null v)) vs) ≤ 1)
unfolding lookup put remove validate_connect_network judge_items set_defaults check_networks reorder
check_networks_order_example =
    check_networks_order (lan_nic ∷ wan_nic ∷ [])
      (list_of (check_networks (lan_nic ∷ wan_nic ∷ [])))
      ((refl, (refl, (refl, tt))), ((refl, (refl, (refl, tt))), tt)) refl

abbrev listing : World VmCall
listing = record { props = (connected_nics, arr no_items) ∷ []; stored = []; calls = [] }

add_links_adds_example :
    let (r, w) = add_links (wan_link ∷ []) (lan_nic ∷ wan_nic ∷ []) listing in
    (length (list_of r) ≡ 3)
    × (lookup connected_nics w.props ≡ some (arr (item (str "nic_1") no_items)))
    × (w.calls ≡ [])
unfolding lookup put update add_links link_network merge_nics
add_links_adds_example =
    let (r, w) = add_links (wan_link ∷ []) (lan_nic ∷ wan_nic ∷ []) listing in
    add_links_adds (wan_link ∷ []) (lan_nic ∷ wan_nic ∷ []) listing no_items (list_of r) w refl refl

abbrev clock_start : World VmCall
clock_start = record { props = []; stored = []; calls = [] }

arrived_at_min_wait_time_first_example :
    (n : ℕ) × ((arrived_at_min_wait_time (pos 1000) 25 clock_start).0 ≡ ok (pos n))
    × (25 ≤ n)
    × (n < 25 + 10)
    × (lookup "__min_wait_time_start" (arrived_at_min_wait_time (pos 1000) 25 clock_start).1.props
        ≡ some (int (pos 1000)))
unfolding lookup
arrived_at_min_wait_time_first_example =
    arrived_at_min_wait_time_first (pos 1000) 25 clock_start refl

abbrev two_nics : List GuestNic
two_nics =
    record { network = some (codes "data"); ip_address = codes "10.0.0.5" ∷ [] }
    ∷ record { network = some (codes "mgmt"); ip_address = codes "fe80::1" ∷ codes "10.1.0.5" ∷ [] }
    ∷ []

abbrev two_networks : List ConnectNetwork
two_networks =
    record { name = some (codes "data"); management = false; external = false }
    ∷ record { name = some (codes "mgmt"); management = true; external = false }
    ∷ []

abbrev running_guest : GuestInfo
running_guest = record { is_running = true; summary_ip = none; nics = two_nics }

abbrev state_inputs : StateInputs
state_inputs = record {
  networking = some two_networks;
  wait_ip = true;
  minimum_wait_time = none;
  enable_start_vm = true;
}

abbrev known_inventory : Inventory
known_inventory = record { by_id = λ _. some saved_vm; by_name = λ _. none }

abbrev state_world : World VmCall
state_world = record {
  props = ("vsphere_server_id", str "vm-1") ∷ ("name", str "web") ∷ ("networks", arr no_items) ∷ [];
  stored = [];
  calls = [];
}

-- The address on the management network is kept.
get_state_ip_example :
    let data_nic : GuestNic = record {
      network = some (codes "data");
      ip_address = codes "10.0.0.5" ∷ [];
    } in
    let mgmt_nic : GuestNic = record {
      network = some (codes "mgmt");
      ip_address = codes "fe80::1" ∷ codes "10.1.0.5" ∷ [];
    } in
    All (λ (n : GuestNic). is_some (nic_ip n) ≡ true) (data_nic ∷ mgmt_nic ∷ [])
    × (lookup "ip"
          (get_state esx known_inventory node state_inputs
            (pos 0)
            (λ _. running_guest)
            state_world).1.props
        ≡ some (joined (codes "10.1.0.5")))
unfolding get_state get_server_by_context lookup get_vm_name get_ip_from_vsphere_nic_ips lower
    lower_code put
get_state_ip_example =
    get_state_ip esx known_inventory node state_inputs (pos 0) running_guest two_networks
      (codes "mgmt" ∷ [])
      (record { network = some (codes "data"); ip_address = codes "10.0.0.5" ∷ [] })
      (record {
        network = some (codes "mgmt");
        ip_address = codes "fe80::1" ∷ codes "10.1.0.5" ∷ [];
      }
        ∷ [])
      state_world
      (get_state esx known_inventory node state_inputs (pos 0) (λ _. running_guest) state_world).1
      true refl refl refl refl refl ((refl, tt), ((refl, (refl, tt)), tt)) refl

abbrev two_details : List NicDetails
two_details =
    record { name = codes "old"; distributed = false; mac = "m1"; nsxt_switch = false }
    ∷ record { name = codes "kept"; distributed = false; mac = "m2"; nsxt_switch = false }
    ∷ []

abbrev three_cards : List Card
three_cards =
    record { key = 4000; mac_address = "m1" }
    ∷ record { key = 4001; mac_address = "m2" }
    ∷ record { key = 4002; mac_address = "m3" }
    ∷ []

abbrev plain_nic : String → Nic
plain_nic name =
    ("name", str name)
    ∷ ("nsx_t_switch", flag false)
    ∷ ("switch_distributed", flag false)
    ∷ ("use_dhcp", flag true)
    ∷ []

abbrev new_network : NetworkObject
new_network = record {
  id = "network-9";
  name = codes "new";
  switch_uuid = "";
  key = "";
  opaque_id = "";
  opaque_type = "";
}

abbrev nic_view : NicView
nic_view = record {
  datacenter = none;
  networks = record { id = "network-9"; name = codes "new"; place = detached } ∷ [];
  details = λ _. new_network;
}

abbrev new_spec : NicSpec
new_spec = record {
  key = 1;
  backing = standard_network "network-9" (codes "new");
  mac_address = null;
  addressing = dhcp;
}

abbrev two_wanted : List Nic
two_wanted = plain_nic "kept" ∷ plain_nic "new" ∷ []

abbrev three_changes : List (NicChange NicSpec)
three_changes =
    remove_nic (record { key = 4000; mac_address = "m1" })
    ∷ remove_nic (record { key = 4002; mac_address = "m3" })
    ∷ add_nic new_spec
    ∷ []
