-- ===== src/Network/Tests.antt =====
-- A port group on two hosts.
use cloudify_vsphere_plugin.Common.{
  ℕ, ◌≡◌, refl, String, codes, true, false, some, [], ◌∷◌, ◌++◌, pos, str, arr, item, no_items,
  null, lookup, ok, ◌||◌, not, ◌&&◌, is_ok, lower, lower_code, unquote,
}
use cloudify_vsphere_plugin.Runtime.{World, Task, success}
use cloudify_vsphere_plugin.Network.{Vswitch, Host, PortGroup, View, NetworkCall, done, Vsphere}
use cloudify_vsphere_plugin.Network.Switches.{union_from, get_vswitches}
use cloudify_vsphere_plugin.Network.PortGroups.{
  network_status, port_group_is_on_all_hosts, get_port_group_host_count, create_port_group, is_text,
}
use cloudify_vsphere_plugin.Network.Plugin.{NetworkInput, get_network_ids, create}
use cloudify_vsphere_plugin.Network.Progress.{request, outcome}
use cloudify_vsphere_plugin.Network.Runs.{two_runs}
use cloudify_vsphere_plugin.Network.PluginLaws.{create_existing}
use cloudify_vsphere_plugin.Common.{Dict, Value, flag, int, List}
use cloudify_vsphere_plugin.Inventory.{Entity, detached}
use cloudify_vsphere_plugin.Inventory.Lookup.{get_obj_by_name}
use cloudify_vsphere_plugin.Network.IpPools.{
  ippool_id, PoolSpec, IpCall, create_ip_pool, destroy_ip_pool, IpView, PoolNetwork, pool_spec,
  attach_all, create_pool, delete_pool,
}
use cloudify_vsphere_plugin.Network.IpPoolLaws.{pool_lifecycle}

abbrev switch : String → ℕ → Vswitch
switch name mtu = record { name = name; mtu = mtu; port_groups = [] }

abbrev esx1 : Host
esx1 = record {
  name = "esx1";
  vswitches = switch "vSwitch0" 1500 ∷ switch "vSwitch1" 9000 ∷ [];
  policies = "p1" ∷ [];
  port_groups = codes "Lan" ∷ codes "web" ∷ [];
}

abbrev esx2 : Host
esx2 = record {
  name = "esx2";
  vswitches = switch "vSwitch0" 1400 ∷ [];
  policies = "p2" ∷ [];
  port_groups = codes "lan" ∷ [];
}

abbrev lan : PortGroup
lan = record {
  id = "network-1";
  name = codes "lan";
  distributed = false;
  host_count = 2;
  max_mtu = 0;
}

abbrev before : View
before = record { hosts = esx1 ∷ []; dvswitches = []; networks = [] }

abbrev after : View
after = record { hosts = esx1 ∷ esx2 ∷ []; dvswitches = []; networks = lan ∷ [] }

abbrev task : Task
task = record { id = "task-1"; state = λ _. success; result = "dvportgroup-1"; fault = "" }

abbrev vsphere : Vsphere
vsphere = record {
  tasks = record { reply = λ _. λ _. task; recent_tasks = λ _. [] };
  answer = λ _. λ _. done;
  networks = λ _. [];
}

abbrev idle : World NetworkCall
idle = record { props = []; stored = []; calls = [] }

abbrev lan_input : NetworkInput
lan_input = record {
  name = some (codes "lan");
  switch_distributed = some false;
  vlan_id = some (pos 7);
  vswitch_name = some "vSwitch0";
}

two_runs_example :
    let (r, w) = create_port_group vsphere (codes "lan") (pos 7) "vSwitch0" before idle in
    let again : World NetworkCall = record {
      props = w.stored;
      stored = w.stored;
      calls = w.calls;
    } in
    let (r', w') = create_port_group vsphere (codes "lan") (pos 7) "vSwitch0" after again in
    (r ≡ outcome false)
    × (w.calls ≡ request (codes "lan") (pos 7) "vSwitch0" esx1 ∷ [])
    × (r' ≡ outcome true)
    × (w'.calls ≡ w.calls ++ request (codes "lan") (pos 7) "vSwitch0" esx2 ∷ [])
    × (lookup network_status w'.stored ≡ some (str "created"))
unfolding lookup get_vswitches union_from port_group_is_on_all_hosts get_port_group_host_count
two_runs_example =
    two_runs vsphere (codes "lan") (pos 7) "vSwitch0" (λ _. λ _. refl) before after idle
      (refl, refl) refl (("p1", [], refl), tt) (("p1", [], refl), (("p2", [], refl), tt)) (λ h. cc)
      refl

create_existing_example :
    let (r, w) = create vsphere (λ _. λ _. λ _. null) lan_input (codes "net_1") false after idle in
    ((false || false || not (is_text "creating" null)) ≡ true → w.calls ≡ [])
    × ((not false && not (is_text "creating" null) && not (is_text "created" null)) ≡ true
        → (is_ok r ≡ false) × (w ≡ idle))
unfolding get_network_ids unquote lookup
create_existing_example =
    create_existing vsphere (λ _. λ _. λ _. null) lan_input (codes "net_1") false false after
      (arr (item (str "network-1") no_items)) idle refl refl refl

abbrev dc1 : Entity
dc1 = record { id = "datacenter-1"; name = codes "DC1"; place = detached }

abbrev dv_lan : Entity
dv_lan = record { id = "dvportgroup-1"; name = codes "dvlan"; place = detached }

abbrev ip_view : IpView
ip_view = record {
  datacenters = dc1 ∷ [];
  dv_groups = dv_lan ∷ [];
  networks =
      record { id = "network-1"; name = codes "lan" }
      ∷ record { id = "dvportgroup-1"; name = codes "dvlan" }
      ∷ [];
}

abbrev related : List PoolNetwork
related =
    record { network_name = some (codes "lan"); switch_distributed = flag false }
    ∷ record { network_name = some (codes "dvlan"); switch_distributed = flag true }
    ∷ []

abbrev pool_input : Dict Value
pool_input =
    ("name", str "p")
    ∷ ("subnet", str "10.0.0.0")
    ∷ ("netmask", str "255.0.0.0")
    ∷ ("gateway", str "10.0.0.1")
    ∷ ("range", str "10.0.0.9#3")
    ∷ []

abbrev wanted_pool : PoolSpec
wanted_pool = record {
  name = str "p";
  subnet = str "10.0.0.0";
  netmask = str "255.0.0.0";
  gateway = str "10.0.0.1";
  range = str "10.0.0.9#3";
  dhcp = flag false;
  enabled = flag true;
}

abbrev no_pools : World IpCall
no_pools = record { props = []; stored = []; calls = [] }

abbrev asked_pool : IpCall
asked_pool = create_ip_pool "datacenter-1" wanted_pool ("dvportgroup-1" ∷ "network-1" ∷ [])

pool_lifecycle_example :
    let (r, w1) = create_pool (λ _. λ _. pos 5) ip_view (codes "dc1") pool_input related no_pools in
    (r ≡ ok tt)
    × (w1.calls ≡ asked_pool ∷ [])
    × (lookup ippool_id w1.props ≡ some (int (pos 5)))
    × (create_pool (λ _. λ _. pos 5) ip_view (codes "dc1") pool_input related w1 ≡ (ok tt, w1))
    × (delete_pool (λ _. λ _. pos 5) ip_view (codes "dc1") w1 ≡ (
      ok tt,
      record w1 { calls = w1.calls ++ destroy_ip_pool "datacenter-1" (int (pos 5)) ∷ [] },
    ))
unfolding lookup get_obj_by_name lower unquote lower_code pool_spec attach_all
pool_lifecycle_example =
    pool_lifecycle (λ _. λ _. pos 5) ip_view (codes "dc1") dc1 refl pool_input related wanted_pool
      ("dvportgroup-1" ∷ "network-1" ∷ []) no_pools refl refl refl refl
