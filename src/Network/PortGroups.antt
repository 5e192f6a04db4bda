-- ===== src/Network/PortGroups.antt =====
-- NetworkClient.create_port_group, delete_port_group, create_dv_port_group and
-- delete_dv_port_group.
use cloudify_vsphere_plugin.Common.{
  contains, ℕ, ◌+◌, ◌==◌, String, Text, lower, text_eq, str_eq, Bool, true, false, ◌&&◌, ◌||◌, not,
  Option, none, some, List, [], ◌∷◌, filter, any, find, unquote, or_raise, length, ℤ, Value, Items,
  null, str, arr, no_items, item, is_some, lookup, Result, ok, err, Error, non_recoverable,
  operation_retry, attribute_error, index_error, vim_fault, Exec, pure, raise, gets, lift, when,
  ◌>>=◌, ◌>>◌, if◌then◌else◌,
}
use cloudify_vsphere_plugin.Runtime.{World, read_prop, put_prop, save, submit, send}
use cloudify_vsphere_plugin.Waiting.{wait_for_task}
use cloudify_vsphere_plugin.Network.{
  Host, PortGroup, View, GroupSpec, NetworkCall, add_port_group, remove_port_group,
  add_dv_port_group, destroy_dv_port_group, Answer, done, already_exists, fault, Vsphere,
}
use cloudify_vsphere_plugin.Network.Switches.{get_vswitches, dv_port_group}

abbrev pub network_status : String
network_status = "status"

abbrev pub network_create_on : String
network_create_on = "created_on"

abbrev pub is_text : String → Value → Bool
is_text s (str t) = str_eq t s
is_text s _ = false

abbrev pub names_of_items : Items → List String
names_of_items no_items = []
names_of_items (item (str s) rest) = s ∷ names_of_items rest
names_of_items (item _ rest) = names_of_items rest

-- The names in a list of names.
abbrev pub names_of : Value → List String
names_of (arr xs) = names_of_items xs
names_of _ = []

abbrev pub snoc : Items → Value → Items
snoc no_items v = item v no_items
snoc (item x xs) v = item x (snoc xs v)

-- `v.append(name)`
abbrev pub append_name : Value → String → Result Value
append_name (arr xs) name = ok (arr (snoc xs (str name)))
append_name _ name = err attribute_error

abbrev first_policy : List String → Result String
first_policy [] = err index_error
first_policy (p ∷ ps) = ok p

abbrev pub total_hosts : List PortGroup → ℕ
total_hosts [] = 0
total_hosts (g ∷ gs) = g.host_count + total_hosts gs

abbrev pub same_kind : Bool → PortGroup → Bool
same_kind true g = g.distributed
same_kind false g = not g.distributed

-- How many hosts the groups of that name are attached to, and how many hosts there are.
unfoldable pub get_port_group_host_count : View → Text → Bool → ℕ × ℕ
get_port_group_host_count view name distributed = (
  total_hosts (filter (λ g. text_eq g.name name) (filter (same_kind distributed) view.networks)),
  length view.hosts,
)

unfoldable pub port_group_is_on_all_hosts : View → Text → Bool → Bool
unfolding get_port_group_host_count
port_group_is_on_all_hosts view name distributed =
    let (groups, hosts) = get_port_group_host_count view name distributed in hosts == groups

module _ (v : Vsphere) where
  -- A request that starts no task; the answer is for the caller to judge.
  abbrev pub ask : NetworkCall → Exec (World NetworkCall) Answer
  ask c = do answer ← gets (λ w. v.answer w.calls c); send c; pure answer

  -- `except vim.fault.AlreadyExists: pass`
  abbrev accept : Answer → Exec (World NetworkCall) (Unit {0})
  accept done = pure tt
  accept already_exists = pure tt
  accept (fault text) = raise (vim_fault text)

  abbrev accept_done : Answer → Exec (World NetworkCall) (Unit {0})
  accept_done done = pure tt
  accept_done already_exists = raise (vim_fault "AlreadyExists")
  accept_done (fault text) = raise (vim_fault text)

  module _ (name : Text) (vlan_id : ℤ) (vswitch_name : String) where
    -- The body of the loop over the hosts.
    unfoldable pub add_on_host : Host → Exec (World NetworkCall) (Unit {0})
    add_on_host h = do
      policy ← lift (first_policy h.policies)
      let spec : GroupSpec = record {
        name = name;
        vlan_id = vlan_id;
        vswitch_name = vswitch_name;
        policy = policy;
      }
      answer ← ask (add_port_group h.name spec)
      accept answer
      created ← read_prop network_create_on
      longer ← lift (append_name created h.name)
      put_prop network_create_on longer
      save

    unfoldable pub add_on_hosts : List Host → Exec (World NetworkCall) (Unit {0})
    add_on_hosts [] = pure tt
    add_on_hosts (h ∷ hs) = do add_on_host h; add_on_hosts hs

    abbrev no_vswitch : List String → Error
    no_vswitch [] =
        non_recoverable
          "No valid vswitches found. Every physical host in the datacenter must have the same named vswitches available when not using distributed vswitches."
    no_vswitch (_ ∷ _) =
        non_recoverable
          "{vswitch} was not a valid vswitch name. The valid vswitches are: {vswitches}"

    -- The status before anything was done.
    unfoldable pub prepare : Exec (World NetworkCall) (Unit {0})
    prepare = do
      known ← gets (λ w. is_some (lookup network_status w.props))
      when (not known) (do put_prop network_status (str "preparing"); save)

    -- The switch is checked once, before the first host is asked.
    unfoldable pub check_switch : View → Exec (World NetworkCall) (Unit {0})
    check_switch view = do
      status ← read_prop network_status
      if is_text "preparing" status && not (contains vswitch_name (get_vswitches view.hosts))
          then raise (no_vswitch (get_vswitches view.hosts))
          else pure tt

    abbrev pub pending_hosts : View → Value → List Host
    pending_hosts view created = filter (λ h. not (contains h.name (names_of created))) view.hosts

    abbrev start_list : Exec (World NetworkCall) (Unit {0})
    start_list = do
      known ← gets (λ w. is_some (lookup network_create_on w.props))
      when (not known) (put_prop network_create_on (arr no_items))

    unfoldable pub begin_creation : Exec (World NetworkCall) (Unit {0})
    begin_creation = do put_prop network_status (str "creating"); save; start_list

    -- The last part: the group is created once it is seen on every host.
    unfoldable pub conclude : View → Exec (World NetworkCall) (Unit {0})
    unfolding port_group_is_on_all_hosts
    conclude view =
        if port_group_is_on_all_hosts view name false
        then (do put_prop network_status (str "created"); save)
        else raise (operation_retry "Waiting for port group {name} to be created on all hosts.")

    unfoldable pub add_missing : View → Exec (World NetworkCall) (Unit {0})
    add_missing view = do
      created ← read_prop network_create_on
      add_on_hosts (pending_hosts view created)

    unfoldable pub create_port_group : View → Exec (World NetworkCall) (Unit {0})
    create_port_group view = do
      prepare
      check_switch view
      status ← read_prop network_status
      when (is_text "preparing" status || is_text "creating" status)
          (do begin_creation; add_missing view; conclude view)

  abbrev no_dvswitch : List Text → Error
  no_dvswitch [] =
      non_recoverable
        "No valid dvswitches found. A distributed virtual switch must exist for distributed port groups to be used."
  no_dvswitch (_ ∷ _) =
      non_recoverable
        "{dvswitch} was not a valid dvswitch name. The valid dvswitches are: {dvswitches}"

  -- `_get_obj_by_name` on the switches
  abbrev pub dvswitch : Text → List Text → Option Text
  dvswitch name switches = find (λ s. text_eq (lower (unquote name)) (lower s)) switches

  abbrev pub is_dvswitch : Text → List Text → Bool
  is_dvswitch name switches = any (λ s. text_eq s name) switches

  unfoldable pub create_dv_port_group : Text → ℤ → Text → View → Exec (World NetworkCall) (Unit {0})
  create_dv_port_group name vlan_id vswitch_name view =
      if not (is_dvswitch vswitch_name view.dvswitches)
      then raise (no_dvswitch view.dvswitches)
      else do
        put_prop network_status (str "creating")
        save
        switch ← or_raise (dvswitch vswitch_name view.dvswitches) attribute_error
        task ← submit v.tasks (add_dv_port_group switch name vlan_id)
        wait_for_task v.tasks (some task) none null

  -- The groups of one host: each whose name is the wanted one but for case is removed.
  unfoldable pub remove_from_host : Text → String → List Text → Exec (World NetworkCall) (Unit {0})
  remove_from_host name host [] = pure tt
  remove_from_host name host (g ∷ gs) =
      let rest = remove_from_host name host gs in
      let removal = (do answer ← ask (remove_port_group host name); accept_done answer; rest) in
      if text_eq (lower name) (lower g) then removal else rest

  unfoldable pub delete_port_group : Text → List Host → Exec (World NetworkCall) (Unit {0})
  unfolding remove_from_host
  delete_port_group name [] = pure tt
  delete_port_group name (h ∷ hs) = do
    remove_from_host name h.name h.port_groups
    delete_port_group name hs

  abbrev pub destroy_found : Option PortGroup → Exec (World NetworkCall) (Unit {0})
  destroy_found none = pure tt
  destroy_found (some g) = do
    task ← submit v.tasks (destroy_dv_port_group g.id)
    wait_for_task v.tasks (some task) none null

  unfoldable pub delete_dv_port_group : Text → View → Exec (World NetworkCall) (Unit {0})
  delete_dv_port_group name view = destroy_found (dv_port_group name view.networks)
