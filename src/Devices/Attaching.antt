-- ===== src/Devices/Attaching.antt =====
-- The operations of a relationship between a machine and a controller or a card.
use cloudify_vsphere_plugin.Common.{
  String, Text, Bool, true, false, not, Option, none, some, List, any, str_eq, codes, Dict, lookup,
  update, is_some, Value, null, str, joined, arr, Items, no_items, item, Result, ok, err,
  attribute_error, Exec, pure, lift, gets, modify, when, ◌>>=◌, ◌>>◌, if◌then◌else◌,
}
use cloudify_vsphere_plugin.Runtime.{World, Platform, get_prop, put_prop, del_prop, save}
use cloudify_vsphere_plugin.Waiting.{run_deferred_task}
use cloudify_vsphere_plugin.Server.Guest.{GuestNic, is_empty, get_server_ip}
use cloudify_vsphere_plugin.Devices.{
  DeviceCall, scsi_card, ethernet_card, Machines, Link, on_source, on_target,
}
use cloudify_vsphere_plugin.Devices.Controllers.{attach_controller, detach_controller}
use cloudify_vsphere_plugin.Devices.Cards.{CardView, generate_scsi_card, generate_ethernet_card}
use cloudify_vsphere_plugin.Devices.Networks.{controller_without_connected_networks}

abbrev pub bus_key : String
bus_key = "busKey"

abbrev pub server_id : String
server_id = "vsphere_server_id"

abbrev pub has_text : String → Items → Bool
has_text s no_items = false
has_text s (item (str t) rest) = if str_eq s t then true else has_text s rest
has_text s (item _ rest) = has_text s rest

-- `id in runtime_properties.get(VSPHERE_SERVER_CONNECTED_NICS, [])`, for the list kept there
abbrev pub is_connected : String → Option Value → Bool
is_connected id (some (arr nics)) = has_text id nics
is_connected id _ = false

-- `runtime_properties.update(settings)`, saved
abbrev pub keep_settings : Dict Value → Exec (World DeviceCall) (Unit {0})
keep_settings settings = do modify (λ w. record w { props = update w.props settings }); save

abbrev pub has_network : GuestNic → Bool
has_network nic = elim nic.network [ none ↦ false | some name ↦ not (is_empty name) ]

abbrev pub to_value : Option Text → Value
to_value none = null
to_value (some ip) = joined ip

-- `network_name.lower()` of a name that is no text fails at the first interface on a network.
abbrev pub ip_by_name : List GuestNic → Value → Result Value
ip_by_name nics (str name) = ok (to_value (get_server_ip nics (codes name) false))
ip_by_name nics (joined name) = ok (to_value (get_server_ip nics name false))
ip_by_name nics _ = if any has_network nics then err attribute_error else ok null

abbrev pub ip_of : Option (List GuestNic) → Value → Result Value
ip_of none name = err attribute_error
ip_of (some nics) name = ip_by_name nics name

module _ (p : Platform DeviceCall) (machines : Machines) where
  unfoldable pub attach_scsi_controller : Exec Link (Unit {0})
  attach_scsi_controller = do
    done ← gets (λ l. is_some (lookup bus_key l.source.props))
    if done then pure tt else do
      properties ← gets (λ l. controller_without_connected_networks l.source.props)
      on_source (run_deferred_task p)
      vm_id ← on_target (get_prop server_id)
      card ← lift (generate_scsi_card machines properties vm_id)
      settings ← on_source (attach_controller p machines vm_id (scsi_card card) card.class)
      on_source (keep_settings settings)

  -- `_attach_ethernet_card`, on the instance that the caller gives
  unfoldable pub attach_card : CardView → Value → Dict Value → Exec (World DeviceCall) (Dict Value)
  attach_card view vm_id properties = do
    run_deferred_task p
    card ← lift (generate_ethernet_card view properties)
    attach_controller p machines vm_id (ethernet_card card) card.class

  -- The task and the known keys are kept on the server's instance.
  unfoldable pub attach_ethernet_card : CardView → Exec Link (Unit {0})
  attach_ethernet_card view = do
    done ← gets (λ l. is_some (lookup bus_key l.source.props))
    if done then pure tt else do
      vm_id ← on_target (get_prop server_id)
      properties ← gets (λ l. controller_without_connected_networks l.source.props)
      attachment ← on_target (attach_card view vm_id properties)
      on_source (keep_settings attachment)

  -- Here the server is the source, and the card with the id `nic_id` is the target.
  unfoldable pub attach_unconnected : CardView → Exec Link (Unit {0})
  unfolding attach_card
  attach_unconnected view = do
    vm_id ← on_source (get_prop server_id)
    properties ← gets (λ l. controller_without_connected_networks l.target.props)
    attachment ← on_target (attach_card view vm_id properties)
    on_target (keep_settings attachment)

  -- `_get_card_ip` and what is kept of it
  unfoldable pub keep_card_ip :
      (List DeviceCall → Value → Option (List GuestNic)) → Exec Link (Unit {0})
  keep_card_ip guests = do
    vm_id ← on_source (get_prop server_id)
    name ← on_target (get_prop "name")
    nics ← gets (λ l. guests l.calls vm_id)
    ip ← lift (ip_of nics name)
    on_source (do put_prop "ip" ip; save)

  unfoldable pub attach_server_to_ethernet_card :
      CardView → (List DeviceCall → Value → Option (List GuestNic)) → String → Exec Link (Unit {0})
  unfolding attach_unconnected keep_card_ip
  attach_server_to_ethernet_card view guests nic_id = do
    done ← gets (λ l. is_some (lookup bus_key l.target.props))
    if done then pure tt else do
      connected ← gets (λ l. is_connected nic_id (lookup "connected_nics" l.source.props))
      when (not connected) (attach_unconnected view)
      keep_card_ip guests

  -- The instance that has the key, and the machine's id.
  unfoldable pub detach : Value → Value → Exec (World DeviceCall) (Unit {0})
  detach vm_id key = do
    run_deferred_task p
    detach_controller p machines vm_id key
    del_prop bus_key

  unfoldable pub detach_controller_operation : Exec Link (Unit {0})
  unfolding detach
  detach_controller_operation = do
    done ← gets (λ l. is_some (lookup bus_key l.source.props))
    if not done then pure tt else do
      vm_id ← on_target (get_prop server_id)
      key ← on_source (get_prop bus_key)
      on_source (detach vm_id key)

  unfoldable pub detach_server_from_controller : String → Exec Link (Unit {0})
  unfolding detach
  detach_server_from_controller nic_id = do
    connected ← gets (λ l. is_connected nic_id (lookup "connected_nics" l.source.props))
    if connected then pure tt else do
      attached ← gets (λ l. is_some (lookup bus_key l.target.props))
      if not attached then pure tt else do
        vm_id ← on_source (get_prop server_id)
        key ← on_target (get_prop bus_key)
        on_target (detach vm_id key)
