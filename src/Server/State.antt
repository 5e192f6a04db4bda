-- ===== src/Server/State.antt =====
-- get_state of vsphere_server_plugin/server.py.
use cloudify_vsphere_plugin.Common.{
  Text, codes, text_eq, Bool, true, false, ◌&&◌, ◌||◌, not, Option, none, some, List, [], ◌∷◌, map,
  lookup, put, remove, Value, null, str, joined, arr, obj, Items, no_items, item, dict_of,
  fields_of, ℤ, pos, ltb_ℤ, pos_part, Result, ok, err, non_recoverable, operation_retry, key_error,
  attribute_error, type_error, and_then, Exec, pure, raise, lift, modify, or_raise, raise_if, when,
  ◌>>=◌, ◌>>◌, if◌then◌else◌,
}
use cloudify_vsphere_plugin.Runtime.{World, Platform, get_prop, put_prop}
use cloudify_vsphere_plugin.Server.{VmCall, Server}
use cloudify_vsphere_plugin.Server.Naming.{get_vm_name}
use cloudify_vsphere_plugin.Server.Lifecycle.{Inventory, Inputs, get_server_by_context}
use cloudify_vsphere_plugin.Server.Guest.{
  GuestNic, is_empty, get_ip_from_vsphere_nic_ips, get_server_ip,
}
use cloudify_vsphere_plugin.Server.Patience.{min_wait_time_start, arrived_at_min_wait_time}

-- What vSphere tells of the guest. `summary_ip` is `summary.guest.ipAddress`, if there is such an
-- attribute, and its value may be `None`.
pub record GuestInfo : Type 0 where
  pub is_running : Bool
  pub summary_ip : Option (Option Text)
  pub nics : List GuestNic

-- An entry of `connect_networks`.
pub record ConnectNetwork : Type 0 where
  pub name : Option Text
  pub management : Bool
  pub external : Bool

-- The inputs of get_state besides those of every operation, and `enable_start_vm` of the node.
pub record StateInputs : Type 0 where
  pub networking : Option (List ConnectNetwork)
  pub wait_ip : Bool
  pub minimum_wait_time : Option ℤ
  pub enable_start_vm : Bool

-- `not ip`
abbrev pub lacks_ip : Option Text → Bool
lacks_ip none = true
lacks_ip (some ip) = is_empty ip

abbrev pub or_else : Option Text → Option Text → Option Text
or_else a b = if lacks_ip a then b else a

abbrev pub ip_value : Option Text → Value
ip_value none = null
ip_value (some ip) = joined ip

-- `[network['name'] for network in ... if ...]`
unfoldable pub names_of : (ConnectNetwork → Bool) → List ConnectNetwork → Result (List Text)
names_of wanted [] = ok []
names_of wanted (n ∷ ns) =
    let rest = names_of wanted ns in
    if wanted n
    then (elim n.name [
      | none ↦ err (key_error "name")
      | some t ↦ and_then rest (λ ts. ok (t ∷ ts))
    ])
    else rest

abbrev pub single : List Text → Option Text
single [] = none
single (t ∷ []) = some t
single (_ ∷ _ ∷ _) = none

abbrev pub nic_ip : GuestNic → Option Text
nic_ip nic = get_ip_from_vsphere_nic_ips true nic.ip_address

-- `network['name'] == network_name` for an entry of the runtime properties
abbrev pub bears_name : Option Text → Value → Bool
bears_name none null = true
bears_name (some t) (str s) = text_eq (codes s) t
bears_name (some t) (joined s) = text_eq s t
bears_name _ _ = false

-- One entry: its address is set where the name is that of the interface's network.
abbrev pub set_ip : Option Text → Value → Value → Result Value
set_ip name ip (obj fields) = elim (lookup "name" (dict_of fields)) [
  | none ↦ err (key_error "name")
  | some v ↦
      ok (obj (if bears_name name v then fields_of (put "ip" ip (dict_of fields)) else fields))
]
set_ip name ip _ = err type_error

-- The loop over the entries; what was set before an error stays set.
unfoldable pub set_ips : Option Text → Value → Items → Result (Unit {0}) × Items
set_ips name ip no_items = (ok tt, no_items)
set_ips name ip (item v rest) = elim (set_ip name ip v) [
  | err e ↦ (err e, item v rest)
  | ok v' ↦ let (r, rest') = set_ips name ip rest in (r, item v' rest')
]

-- `management_network_name and same_net`
abbrev pub on_management : Option Text → Option Text → Bool
on_management none network = false
on_management (some []) network = false
on_management (some (c ∷ s)) none = false
on_management (some (c ∷ s)) (some t) = text_eq t (c ∷ s)

-- `not manager_network_ip or (management_network_name and same_net)`
abbrev pub is_considered : Option Text → Option Text → Option Text → Bool
is_considered manager management network = lacks_ip manager || on_management management network

module _ {C : Type 0} where
  -- `nets` is the list in the properties, which the loop changes in place.
  unfoldable pub update_nets : GuestNic → Exec (World C) (Unit {0})
  unfolding set_ips
  update_nets nic = do
    nets ← get_prop "networks"
    elim nets [
      | arr entries ↦ do
        let changed : Result (Unit {0}) × Items =
            set_ips nic.network (ip_value (nic_ip nic)) entries
        put_prop "networks" (arr changed.1)
        lift changed.0
      | _ ↦ raise type_error
    ]

  abbrev pub manager_after : Bool → Option Text → GuestNic → Exec (World C) (Option Text)
  manager_after false manager nic = pure manager
  manager_after true manager nic =
      or_raise (elim (nic_ip nic) [ none ↦ none | some ip ↦ some (some ip) ])
        (operation_retry "Management IP addresses not yet assigned.")

  -- The loop over `guest.net`: it gives the address of the manager and the default one.
  unfoldable pub scan_nics :
      Option Text
      → Option Text
      → Option Text
      → List GuestNic
      → Exec (World C) (Option Text × Option Text)
  unfolding update_nets
  scan_nics management manager default_ip [] = pure (manager, default_ip)
  scan_nics management manager default_ip (nic ∷ nics) = do
    manager' ← manager_after (is_considered manager management nic.network) manager nic
    update_nets nic
    scan_nics management manager' (or_else default_ip (nic_ip nic)) nics

  abbrev pub forget_start : Exec (World C) (Unit {0})
  forget_start = modify (λ w. record w { props = remove min_wait_time_start w.props })

-- The addresses of the external networks.
unfoldable pub public_addresses : List GuestNic → List ConnectNetwork → Result (List (Option Text))
unfolding names_of
public_addresses nics networks =
    and_then (names_of (λ (n : ConnectNetwork). n.external) networks)
      (λ names. ok (map (λ name. get_server_ip nics name true) names))

-- `None in public_ips`
abbrev pub has_none : List (Option Text) → Bool
has_none [] = false
has_none (none ∷ _) = true
has_none (some _ ∷ ips) = has_none ips

abbrev pub first_ip : List (Option Text) → Value
first_ip [] = null
first_ip (ip ∷ _) = ip_value ip

abbrev pub summary_list : Option Text → List (Option Text)
summary_list ip = if lacks_ip ip then [] else ip ∷ []

-- `if len(server_obj.guest.net): ... elif public_ip: ... else: ...`
abbrev pub public_list :
    Option Text → List GuestNic → List ConnectNetwork → Result (List (Option Text))
public_list public_ip [] networks = ok (summary_list public_ip)
public_list public_ip (n ∷ ns) networks = and_then (public_addresses (n ∷ ns) networks) (λ ips.
    if has_none ips then err (operation_retry "Public IP addresses not yet assigned.") else ok ips)

-- `networking.get('connect_networks', [])`, which a missing `networking` does not have
abbrev pub connect_networks : Option (List ConnectNetwork) → Result (List ConnectNetwork)
connect_networks none = err attribute_error
connect_networks (some ns) = ok ns

module _ (p : Platform VmCall) (inventory : Inventory) (i : Inputs) (s : StateInputs) where
  -- What follows once the addresses were read.
  unfoldable pub keep_addresses :
      List GuestNic
      → List ConnectNetwork
      → Option Text
      → Option Text
      → Option Text
      → Exec (World VmCall) (Unit {0})
  unfolding public_addresses
  keep_addresses nics networks manager default_ip public_ip = do
    put_prop "ip" (ip_value (or_else manager default_ip))
    raise_if (lacks_ip (or_else manager default_ip) && s.wait_ip)
        (operation_retry "IP address not yet exported.")
    ips ← lift (public_list public_ip nics networks)
    put_prop "public_ip" (first_ip ips)
    forget_start

  -- The part for a guest that runs; `known` is the address that is known before the scan.
  unfoldable pub read_addresses : GuestInfo → Option Text → Exec (World VmCall) Bool
  unfolding names_of scan_nics keep_addresses
  read_addresses guest known = do
    networks ← lift (connect_networks s.networking)
    names ← lift (names_of (λ (n : ConnectNetwork). n.management) networks)
    let management : Option Text = single names
    ips ← scan_nics management known known guest.nics
    raise_if (not (lacks_ip management) && lacks_ip ips.0)
        (operation_retry "Management IP addresses not yet assigned.")
    nets ← get_prop "networks"
    put_prop "networks" nets
    keep_addresses guest.nics networks ips.0 ips.1 known
    pure true

  -- `if default_ip and manager_network_ip or ...is_server_guest_running(...)` and what follows
  unfoldable pub judge_guest : GuestInfo → Option Text → Exec (World VmCall) Bool
  unfolding read_addresses
  judge_guest guest known =
      if not (lacks_ip known) || guest.is_running
      then read_addresses guest known
      else if not s.enable_start_vm
      then pure true
      else raise (operation_retry "Server not yet started.")

  -- `if os_family == "other"`: without the attribute nothing is read.
  abbrev pub by_os : GuestInfo → Bool → Exec (World VmCall) Bool
  by_os guest false = judge_guest guest none
  by_os guest true = elim guest.summary_ip [
    | none ↦ do forget_start; pure true
    | some ip ↦ judge_guest guest ip
  ]

  abbrev pub wait_first : ℤ → Option ℤ → Exec (World VmCall) (Unit {0})
  wait_first now none = pure tt
  wait_first now (some n) =
      when (ltb_ℤ (pos 0) n) (do _ ← arrived_at_min_wait_time now (pos_part n); pure tt)

  unfoldable pub get_state : ℤ → (Server → GuestInfo) → Exec (World VmCall) Bool
  unfolding judge_guest
  get_state now guest_of = do
    wait_first now s.minimum_wait_time
    found ← get_server_by_context p inventory i
    server ← or_raise found (non_recoverable "Cannot get info - server doesn't exist for node: {0}")
    _ ← λ w. (get_vm_name w.props i.server i.instance_id i.os_family, w)
    by_os (guest_of server) (text_eq i.os_family (codes "other"))
