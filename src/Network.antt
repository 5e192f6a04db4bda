-- ===== src/Network.antt =====
-- Port groups and ip pools: NetworkClient (vsphere_plugin_common/clients/network.py) and the
-- operations of vsphere_network_plugin/network.py and ippool.py. Here stand what they read and send.
pub mod Switches
pub mod PortGroups
pub mod Plugin
pub mod SwitchLaws
pub mod Progress
pub mod Runs
pub mod PluginLaws
pub mod IpPools
pub mod IpPoolLaws
mod Tests
use cloudify_vsphere_plugin.Common.{ℕ, String, Text, Bool, List, ℤ}
use cloudify_vsphere_plugin.Runtime.{Platform}

-- A standard switch of a host; `port_groups` are the keys of the groups on it.
pub record Vswitch : Type 0 where
  pub name : String
  pub mtu : ℕ
  pub port_groups : List Text

-- A host: its switches as the cache has them, the policies of the switches in
-- `networkSystem.networkConfig`, and the names of the port groups in `networkSystem.networkInfo`.
pub record Host : Type 0 where
  pub name : String
  pub vswitches : List Vswitch
  pub policies : List String
  pub port_groups : List Text

-- An entry of `_get_networks`; `host_count` is the number of hosts that it is attached to and
-- `max_mtu` that of its switch, if it is distributed.
pub record PortGroup : Type 0 where
  pub id : String
  pub name : Text
  pub distributed : Bool
  pub host_count : ℕ
  pub max_mtu : ℕ

-- What the client has cached when an operation starts.
pub record View : Type 0 where
  pub hosts : List Host
  pub dvswitches : List Text
  pub networks : List PortGroup

pub record GroupSpec : Type 0 where
  pub name : Text
  pub vlan_id : ℤ
  pub vswitch_name : String
  pub policy : String

pub data NetworkCall : Type 0 where
  add_port_group : String → GroupSpec → NetworkCall
  remove_port_group : String → Text → NetworkCall
  add_dv_port_group : Text → Text → ℤ → NetworkCall
  destroy_dv_port_group : String → NetworkCall

-- How a request that starts no task ends; a fault is another exception than `AlreadyExists`.
pub data Answer : Type 0 where
  done already_exists : Answer
  fault : String → Answer

-- vSphere: its tasks, its answers, and the networks that it has after the requests so far.
pub record Vsphere : Type 0 where
  pub tasks : Platform NetworkCall
  pub answer : List NetworkCall → NetworkCall → Answer
  pub networks : List NetworkCall → List PortGroup
