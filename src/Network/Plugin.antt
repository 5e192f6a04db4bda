-- ===== src/Network/Plugin.antt =====
-- The operations of vsphere_network_plugin/network.py.
use cloudify_vsphere_plugin.Common.{
  String, Text, codes, unquote, text_eq, Bool, true, false, ◌&&◌, not, Option, none, some, List, [],
  ◌∷◌, filter, ℤ, int, Value, Items, null, flag, str, joined, arr, no_items, item, truthy, Result,
  ok, err, non_recoverable, key_error, Exec, pure, raise, gets, lift, or_raise, ◌>>=◌, ◌>>◌,
  if◌then◌else◌,
}
use cloudify_vsphere_plugin.Runtime.{World, get_prop, put_prop, save}
use cloudify_vsphere_plugin.Network.{PortGroup, View, NetworkCall, Vsphere}
use cloudify_vsphere_plugin.Network.Switches.{get_network_mtu}
use cloudify_vsphere_plugin.Network.PortGroups.{
  network_status, is_text, same_kind, create_port_group, create_dv_port_group, delete_port_group,
  delete_dv_port_group,
}

-- The `network` input; `none` is a key that is not given.
pub record NetworkInput : Type 0 where
  pub name : Option Text
  pub switch_distributed : Option Bool
  pub vlan_id : Option ℤ
  pub vswitch_name : Option String

-- The name that is given, or else the id of the instance.
abbrev pub get_network_name : NetworkInput → Text → Text
get_network_name input instance_id = elim input.name [ none ↦ instance_id | some name ↦ name ]

abbrev pub id_items : List PortGroup → Items
id_items [] = no_items
id_items (g ∷ gs) = item (str g.id) (id_items gs)

abbrev one_id : List PortGroup → Result Value
one_id [] = ok null
one_id (g ∷ []) = ok (str g.id)
one_id (g ∷ h ∷ gs) =
    err (non_recoverable "Unexpectedly found multiple distributed networks with name {name}.")

abbrev ids_of : Bool → List PortGroup → Result Value
ids_of true gs = one_id gs
ids_of false gs = ok (arr (id_items gs))

abbrev pub groups_named : Text → Bool → List PortGroup → List PortGroup
groups_named name distributed networks =
    filter (λ g. text_eq g.name (unquote name)) (filter (same_kind distributed) networks)

-- One id or `None` for a distributed group; all ids for a standard one, which has one per switch.
unfoldable pub get_network_ids : Text → Bool → List PortGroup → Result Value
get_network_ids name distributed networks =
    ids_of distributed (groups_named name distributed networks)

-- What get_network_cidr finds in the ip pools, which are not part of the client's cache.
abbrev pub CidrQuery : Type 0
CidrQuery = List NetworkCall → Text → Bool → Value

module _ (v : Vsphere) (get_network_cidr : CidrQuery) where
  -- Both keys are read before the group is asked for.
  abbrev ask_group : NetworkInput → Text → Bool → View → Exec (World NetworkCall) (Unit {0})
  ask_group input name distributed view = do
    vlan_id ← or_raise input.vlan_id (key_error "vlan_id")
    vswitch_name ← or_raise input.vswitch_name (key_error "vswitch_name")
    if distributed
        then create_dv_port_group v name vlan_id (codes vswitch_name) view
        else create_port_group v name vlan_id vswitch_name view

  -- By the id that was found and the status: done before, seen after a wait, refused, or asked for.
  unfoldable pub establish :
      NetworkInput → Text → Bool → View → Value → Exec (World NetworkCall) (Unit {0})
  establish input name distributed view network_id = do
    status ← get_prop network_status
    let found = truthy network_id
    let creating = is_text "creating" status
    if found && is_text "created" status
        then pure tt
        else if found && creating && distributed
        then (do put_prop network_status (str "created"); save)
        else if found && not creating
        then raise (
            non_recoverable
              "Could not create new {distributed} network \"{name}\" as a {distributed} network by that name already exists.")
        else ask_group input name distributed view

  abbrev pub existing : Value → Exec (World NetworkCall) (Unit {0})
  existing network_id =
      if truthy network_id
      then pure tt
      else raise (
          non_recoverable
            "Could not use existing {distributed}network \"{name}\" as no {distributed}network by that name exists!")

  -- The networks that the rest of the operation sees: the cached ones, or those read anew.
  abbrev seen : Bool → View → List NetworkCall → List PortGroup
  seen external view calls = if external then view.networks else v.networks calls

  unfoldable pub store_details :
      Text → Bool → View → List PortGroup → Exec (World NetworkCall) (Unit {0})
  store_details name distributed view networks = do
    network_id ← lift (get_network_ids name distributed networks)
    put_prop "vsphere_network_id" network_id
    put_prop "network_name" (joined name)
    put_prop "switch_distributed" (flag distributed)
    save
    mtu ← lift (get_network_mtu view.hosts networks name distributed)
    put_prop "mtu" (int mtu)
    cidr ← gets (λ w. get_network_cidr w.calls name distributed)
    put_prop "cidr" cidr
    save

  unfoldable pub create : NetworkInput → Text → Bool → View → Exec (World NetworkCall) (Unit {0})
  create input instance_id use_external_resource view = do
    let name = get_network_name input instance_id
    distributed ← or_raise input.switch_distributed (key_error "switch_distributed")
    network_id ← lift (get_network_ids name distributed view.networks)
    if use_external_resource
        then existing network_id
        else establish input name distributed view network_id
    networks ← gets (λ w. seen use_external_resource view w.calls)
    store_details name distributed view networks

  -- The messages of the log name the type and the name of the network.
  unfoldable pub delete : NetworkInput → Text → Bool → View → Exec (World NetworkCall) (Unit {0})
  delete input instance_id use_external_resource view = do
    distributed ← or_raise input.switch_distributed (key_error "switch_distributed")
    _ ← or_raise input.name (key_error "name")
    let name = get_network_name input instance_id
    if use_external_resource
        then pure tt
        else if distributed
        then delete_dv_port_group v name view
        else delete_port_group v name view.hosts
