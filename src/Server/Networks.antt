-- ===== src/Server/Networks.antt =====
-- The networks that a new server is connected to: get_connected_networks, validate_connect_network
-- and handle_networks of vsphere_server_plugin/server.py.
use cloudify_vsphere_plugin.Common.{
  String, Text, codes, text_eq, Bool, true, false, ◌&&◌, ◌||◌, not, Option, none, some, List, [],
  ◌∷◌, ◌++◌, filter, length, ltb, contains, Dict, lookup, put, remove, update, Value, null, flag,
  str, joined, arr, no_items, truthy, or_null, is_some, Result, ok, err, non_recoverable, key_error,
  and_then, Exec, pure, gets, lift, when, ◌>>=◌, ◌>>◌, if◌then◌else◌,
}
use cloudify_vsphere_plugin.Runtime.{World, read_prop, put_prop}
use cloudify_vsphere_plugin.Network.PortGroups.{append_name}
use cloudify_vsphere_plugin.Server.{VmCall}

abbrev pub connected_nics : String
connected_nics = "connected_nics"

abbrev server_to_nic : String
server_to_nic = "cloudify.relationships.vsphere.server_connected_to_nic"

-- An entry of `connect_networks`.
abbrev pub Nic : Type 0
Nic = Dict Value

-- A relationship of the server: its types, the id of the instance that it leads to, and the
-- runtime properties `connected_network` and `name` of that instance, each of its own.
pub record NicLink : Type 0 where
  pub type_hierarchy : List String
  pub id : String
  pub connected_network : Option Nic
  pub name : Option Value

-- `d.get(k, v)`
abbrev pub get_or : String → Value → Nic → Value
get_or k v d = elim (lookup k d) [ none ↦ v | some w ↦ w ]

-- The specification of a link, with its name; an empty one is as good as none.
unfoldable pub link_network : NicLink → Result Nic
link_network link = elim link.connected_network [
  | none ↦ err (non_recoverable "No \"connect_network\" specification for nic {0}.")
  | some [] ↦ err (non_recoverable "No \"connect_network\" specification for nic {0}.")
  | some (e ∷ d) ↦
      let name = get_or "name" (or_null link.name) (e ∷ d) in
      if truthy name
      then ok (put "name" name (e ∷ d))
      else err (non_recoverable "No network name specified for nic {0}.")
]

abbrev text_name : Value → Option Text
text_name (str s) = some (codes s)
text_name (joined t) = some t
text_name _ = none

abbrev same_text : Option Text → Option Text → Bool
same_text (some s) (some t) = text_eq s t
same_text _ _ = false

-- `==` on names, which are texts; a name that is none is no other's.
abbrev same_name : Value → Value → Bool
same_name a b = same_text (text_name a) (text_name b)

-- One round of the inner loop.
abbrev pub merge_nic : Nic → Nic → Value → Nic
merge_nic connect nic name =
    if same_name (get_or "name" null connect) name && truthy (get_or "from_relationship" null nic)
    then update nic connect
    else nic

-- The inner loop: every entry of that name that is to come from a relationship takes the link's values.
unfoldable pub merge_nics : Nic → List Nic → Result (List Nic)
merge_nics connect [] = ok []
merge_nics connect (nic ∷ nics) =
    let rest = merge_nics connect nics in
    elim (lookup "name" nic) [
      | none ↦ err (key_error "name")
      | some name ↦ and_then rest (λ merged. ok (merge_nic connect nic name ∷ merged))
    ]

unfoldable pub add_links : List NicLink → List Nic → Exec (World VmCall) (List Nic)
add_links [] nics = pure nics
add_links (link ∷ links) nics = do
  connect ← lift (link_network link)
  merged ← lift (merge_nics connect nics)
  saved ← read_prop connected_nics
  longer ← lift (append_name saved link.id)
  put_prop connected_nics longer
  add_links links (merged ++ connect ∷ [])

unfoldable pub get_connected_networks : List NicLink → List Nic → Exec (World VmCall) (List Nic)
unfolding add_links
get_connected_networks links nics_from_props = do
  known ← gets (λ w. is_some (lookup connected_nics w.props))
  when (not known) (put_prop connected_nics (arr no_items))
  add_links (filter (λ link. contains server_to_nic link.type_hierarchy) links) nics_from_props

pub data Kind : Type 0 where
  text_kind bool_kind : Kind

-- What a key of a network is to be, and its default.
abbrev pub Charges : Type 0
Charges = Dict (Kind × Value)

abbrev pub network_validations : Charges
network_validations =
    ("name", (text_kind, null))
    ∷ ("from_relationship", (bool_kind, flag false))
    ∷ ("external", (bool_kind, flag false))
    ∷ ("management", (bool_kind, flag false))
    ∷ ("switch_distributed", (bool_kind, flag false))
    ∷ ("nsx_t_switch", (bool_kind, flag false))
    ∷ ("use_dhcp", (bool_kind, flag true))
    ∷ ("network", (text_kind, null))
    ∷ ("gateway", (text_kind, null))
    ∷ ("ip", (text_kind, null))
    ∷ []

abbrev pub is_instance : Value → Kind → Bool
is_instance (str _) text_kind = true
is_instance (joined _) text_kind = true
is_instance (flag _) bool_kind = true
is_instance _ _ = false

abbrev pub is_bool : Kind → Bool
is_bool bool_kind = true
is_bool text_kind = false

-- The loop's variables: the charges that are left, the network, and `validation_error`.
abbrev pub Trial : Type 0
Trial = Charges × Nic × Bool

abbrev pub judge : String → Value → Charges → Nic → Bool → Option (Kind × Value) → Trial
judge key value charges nic guilty none = (charges, nic, true)
judge key value charges nic guilty (some (kind, default)) =
    if not (truthy value) && not (is_bool kind)
    then (remove key charges, put key default nic, guilty)
    else (remove key charges, nic, guilty || not (is_instance value kind))

unfoldable pub judge_items : Nic → Trial → Trial
judge_items [] trial = trial
judge_items ((key, value) ∷ items) (charges, nic, guilty) =
    judge_items items (judge key value charges nic guilty (lookup key charges))

-- The keys that were not given get their defaults.
unfoldable pub set_defaults : Charges → Nic → Nic
set_defaults [] nic = nic
set_defaults ((key, (_, default)) ∷ charges) nic = set_defaults charges (put key default nic)

abbrev pub clashing : Nic → Bool
clashing nic =
    truthy (get_or "switch_distributed" null nic) && truthy (get_or "nsx_t_switch" null nic)

abbrev pub unnamed : Nic → Bool
unnamed nic = not (truthy (get_or "name" null nic))

abbrev pub first_charges : Nic → Charges
first_charges nic = if unnamed nic then remove "name" network_validations else network_validations

abbrev pub verdict : Trial → Result Nic
verdict (charges, nic, true) = err (non_recoverable "Network failed validation: ")
verdict (charges, nic, false) = ok (set_defaults charges nic)

unfoldable pub validate_connect_network : Nic → Result Nic
unfolding judge_items set_defaults
validate_connect_network nic =
    verdict (judge_items nic (first_charges nic, nic, clashing nic || unnamed nic))

-- The loop that validates each network and puts the external one first.
unfoldable pub reorder : List Nic → List Nic → Result (List Nic)
reorder [] reordered = ok reordered
reorder (nic ∷ nics) reordered = and_then (validate_connect_network nic) (λ valid.
    reorder nics (
      if truthy (get_or "external" null valid) then valid ∷ reordered else reordered ++ valid ∷ []))

abbrev pub is_marked : String → Nic → Bool
is_marked key nic = truthy (get_or key (flag false) nic)

unfoldable pub check_networks : List Nic → Result (List Nic)
unfolding reorder
check_networks nics =
    if ltb 1 (length (filter (is_marked "external") nics))
    then err (non_recoverable "No more than one external network can be specified.")
    else if ltb 1 (length (filter (is_marked "management") nics))
    then err (non_recoverable "No more than one management network can be specified.")
    else reorder nics []

unfoldable pub handle_networks : List NicLink → List Nic → Exec (World VmCall) (List Nic)
unfolding check_networks
handle_networks links connect_networks = do
  nics ← get_connected_networks links connect_networks
  lift (check_networks nics)
