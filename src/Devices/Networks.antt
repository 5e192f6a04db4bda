-- ===== src/Devices/Networks.antt =====
-- add_connected_network, create_controller, delete_controller, copy_device_properties and
-- clean_device_properties.
use cloudify_vsphere_plugin.Common.{dict_of, fields_of}
use cloudify_vsphere_plugin.Common.{
  String, List, [], ◌∷◌, Dict, lookup, put, update, remove, is_some, Value, null, flag, int, obj,
  truthy, or_null, Result, ok, err, non_recoverable, value_error, type_error, Exec, pure, lift,
  raise, gets, modify, ◌>>=◌, ◌>>◌, if◌then◌else◌,
}
use cloudify_vsphere_plugin.Runtime.{World, put_prop}
use cloudify_vsphere_plugin.Waiting.Client.{remove_runtime_properties}
use cloudify_vsphere_plugin.Devices.Cards.{get_or}

abbrev pub connected_network : String
connected_network = "connected_network"

-- `d.update(v)`, of which only dicts and values without pairs are considered.
abbrev pub update_with : Dict Value → Value → Result (Dict Value)
update_with d (obj fields) = ok (update d (dict_of fields))
update_with d null = err type_error
update_with d (flag _) = err type_error
update_with d (int _) = err type_error
update_with d _ = err value_error

-- `if mac_address: ...`
abbrev pub with_mac : Value → Dict Value → Dict Value
with_mac mac d = if truthy mac then put "mac_address" mac d else d

-- `if nic_configuration: ...`
abbrev pub with_configuration : Value → Dict Value → Result (Dict Value)
with_configuration configuration d =
    if truthy configuration then update_with d configuration else ok d

-- The description of the network, from the properties of its instance and of the card.
unfoldable pub network_entry : Value → Dict Value → Dict Value → Result (Dict Value)
network_entry name target nic = with_configuration (or_null (lookup "network_configuration" nic)) (
    with_mac (or_null (lookup "mac_address" nic))
      (("name", name) ∷ ("switch_distributed", or_null (lookup "switch_distributed" target)) ∷ []))

-- `target.get(NETWORK_NAME, nic.get('name'))`
abbrev pub target_name : Dict Value → Dict Value → Value
target_name target nic = get_or "network_name" (or_null (lookup "name" nic)) target

module _ {C : Type 0} where
  -- The relationships to networks, each by the runtime properties of its target.
  unfoldable pub add_connected_network : List (Dict Value) → Dict Value → Exec (World C) (Unit {0})
  unfolding network_entry
  add_connected_network [] nic = pure tt
  add_connected_network (target ∷ []) nic =
      if truthy (target_name target nic)
      then (do
        entry ← lift (network_entry (target_name target nic) target nic)
        put_prop connected_network (obj (fields_of entry)))
      else pure tt
  add_connected_network (_ ∷ _ ∷ _) nic =
      raise (non_recoverable "Currently only one relationship of type {0} is supported per node.")

  -- `runtime_properties.update(kwargs)`
  unfoldable pub copy_device_properties : Dict Value → Exec (World C) (Unit {0})
  copy_device_properties kwargs = modify (λ w. record w { props = update w.props kwargs })

  unfoldable pub create_controller : Dict Value → List (Dict Value) → Exec (World C) (Unit {0})
  unfolding copy_device_properties add_connected_network
  create_controller kwargs networks = do
    copy_device_properties kwargs
    properties ← gets (λ (w : World C). w.props)
    add_connected_network networks properties

  unfoldable pub delete_controller : Exec (World C) (Unit {0})
  unfolding remove_runtime_properties
  delete_controller = remove_runtime_properties

  unfoldable pub clean_device_properties : Exec (World C) (Unit {0})
  unfolding remove_runtime_properties
  clean_device_properties = remove_runtime_properties

-- The second `del` is reached only where the first one found its key.
unfoldable pub controller_without_connected_networks : Dict Value → Dict Value
controller_without_connected_networks d =
    if is_some (lookup "connected_networks" d)
    then remove "connected" (remove "connected_networks" d)
    else d
