-- ===== src/Network/Progress.antt =====
-- What a run of `create_port_group` does on the hosts, where vSphere raises no fault.
use cloudify_vsphere_plugin.Common.{
  ◌≡◌, refl, sym, ap, ◌∙◌, String, Text, Bool, true, false, Option, some, List, [], ◌∷◌, ◌++◌, map,
  append-nil, append_assoc, All, ℤ, Value, Items, null, str, arr, no_items, item, lookup,
  lookup-put_ne, put, dict_laws, Result, ok, err, operation_retry, ◌>>◌, arith,
}
use cloudify_vsphere_plugin.Runtime.{World}
use cloudify_vsphere_plugin.Network.{
  Host, View, NetworkCall, add_port_group, Answer, done, already_exists, fault, Vsphere,
}
use cloudify_vsphere_plugin.Network.PortGroups.{
  network_status, network_create_on, names_of_items, snoc, port_group_is_on_all_hosts, add_on_host,
  add_on_hosts, pending_hosts, conclude, add_missing,
}

abbrev pub is_fault : Answer → Bool
is_fault (fault _) = true
is_fault _ = false

-- `networkConfig` of the host has a switch, whose policy the group takes.
abbrev pub HasPolicy : Host → Type 0
HasPolicy h = (policy : String) × (rest : List String) × (h.policies ≡ policy ∷ rest)

abbrev pub policy_of : List String → String
policy_of [] = ""
policy_of (p ∷ ps) = p

abbrev pub host_names : List Host → List String
host_names hs = map (λ (h : Host). h.name) hs

-- The list of names with those of the hosts at its end.
abbrev pub with_names : Items → List Host → Items
with_names xs [] = xs
with_names xs (h ∷ hs) = with_names (snoc xs (str h.name)) hs

names_of_items-snoc :
    (xs : Items) (s : String) → names_of_items (snoc xs (str s)) ≡ names_of_items xs ++ s ∷ []
names_of_items-snoc no_items s = refl
names_of_items-snoc (item (str t) xs) s = ap (λ ns. t ∷ ns) (names_of_items-snoc xs s)
names_of_items-snoc (item null xs) s = names_of_items-snoc xs s
names_of_items-snoc (item v xs) s = names_of_items-snoc xs s

pub names_of_items-with_names :
    (xs : Items) (hs : List Host)
    → names_of_items (with_names xs hs) ≡ names_of_items xs ++ host_names hs
names_of_items-with_names xs [] = sym (append-nil (names_of_items xs))
names_of_items-with_names xs (h ∷ hs) =
    names_of_items-with_names (snoc xs (str h.name)) hs
    ∙ ap (λ ns. ns ++ host_names hs) (names_of_items-snoc xs h.name)
    ∙ append_assoc (names_of_items xs) (h.name ∷ []) (host_names hs)

abbrev pub outcome : Bool → Result (Unit {0})
outcome true = ok tt
outcome false = err (operation_retry "Waiting for port group {name} to be created on all hosts.")

abbrev pub status_after : Bool → Option Value → Option Value
status_after true old = some (str "created")
status_after false old = old

-- The request that a host gets.
abbrev pub request : Text → ℤ → String → Host → NetworkCall
request name vlan_id vswitch_name h = add_port_group h.name (record {
  name = name;
  vlan_id = vlan_id;
  vswitch_name = vswitch_name;
  policy = policy_of h.policies;
})

module _ (v : Vsphere) (name : Text) (vlan_id : ℤ) (vswitch_name : String)
    (no_faults : (calls : List NetworkCall) (c : NetworkCall)
      → is_fault (v.answer calls c) ≡ false) where
  abbrev after_host : Host → Items → World NetworkCall → World NetworkCall
  after_host h xs w =
      let d = put network_create_on (arr (snoc xs (str h.name))) w.props in
      record { props = d; stored = d; calls = w.calls ++ request name vlan_id vswitch_name h ∷ [] }

  add_on_host-done :
      (h : Host) (xs : Items) (w : World NetworkCall) (a : Answer)
      → HasPolicy h
      → v.answer w.calls (request name vlan_id vswitch_name h) ≡ a
      → is_fault a ≡ false
      → lookup network_create_on w.props ≡ some (arr xs)
      → add_on_host v name vlan_id vswitch_name h w ≡ (ok tt, after_host h xs w)
  unfolding add_on_host
  add_on_host-done h xs w done (p, ps, e) answered good listed = ground arith
  add_on_host-done h xs w already_exists (p, ps, e) answered good listed = ground arith
  add_on_host-done h xs w (fault t) p answered good listed = cc

  -- The hosts are asked in turn, and each is put on the list.
  pub add_on_hosts-done :
      (hs : List Host) (xs : Items) (w : World NetworkCall)
      → All HasPolicy hs
      → lookup network_create_on w.props ≡ some (arr xs)
      → (hs ≡ [] → w.stored ≡ w.props)
      → let (r, w') = add_on_hosts v name vlan_id vswitch_name hs w in
        (r ≡ ok tt)
        × (w'.calls ≡ w.calls ++ map (request name vlan_id vswitch_name) hs)
        × (lookup network_create_on w'.props ≡ some (arr (with_names xs hs)))
        × (lookup network_status w'.props ≡ lookup network_status w.props)
        × (w'.stored ≡ w'.props)
  unfolding add_on_hosts
  add_on_hosts-done [] xs w p listed saved =
      (refl, sym (append-nil w.calls), listed, refl, saved refl)
  add_on_hosts-done (h ∷ hs) xs w (p, ps) listed saved =
      let (r, sent, listed', kept, saved') =
        add_on_hosts-done hs (snoc xs (str h.name)) (after_host h xs w) ps (simp dict_laws)
          (λ _. refl) in
      rw
        (add_on_host-done h xs w (v.answer w.calls (request name vlan_id vswitch_name h)) p refl
          (no_faults w.calls (request name vlan_id vswitch_name h)) listed)
        (
          r,
          sent
              ∙ append_assoc w.calls (request name vlan_id vswitch_name h ∷ [])
                  (map (request name vlan_id vswitch_name) hs),
          listed',
          kept
              ∙ lookup-put_ne network_create_on network_status (arr (snoc xs (str h.name))) w.props
                  refl,
          saved',
        )

  module _ (view : View) where
    abbrev seen : Bool
    seen = port_group_is_on_all_hosts view name false

    conclude_lem :
        (w : World NetworkCall) (b : Bool)
        → seen ≡ b
        → w.stored ≡ w.props
        → let (r, w') = conclude v name vlan_id vswitch_name view w in
          (r ≡ outcome b)
          × (w'.calls ≡ w.calls)
          × (lookup network_create_on w'.stored ≡ lookup network_create_on w.props)
          × (lookup network_status w'.stored ≡ status_after b (lookup network_status w.props))
          × (w'.stored ≡ w'.props)
    unfolding conclude
    conclude_lem w true e saved = rw e (refl, refl, simp dict_laws, simp dict_laws, refl)
    conclude_lem w false e saved = rw e (refl, refl, rw saved, rw saved, saved)

    add_missing-listed :
        (xs : Items) (w : World NetworkCall)
        → lookup network_create_on w.props ≡ some (arr xs)
        → add_missing v name vlan_id vswitch_name view w
          ≡ add_on_hosts v name vlan_id vswitch_name
              (pending_hosts v name vlan_id vswitch_name view (arr xs))
              w
    unfolding add_missing
    add_missing-listed xs w listed = ground arith

    -- The rest of a run, once the status is `creating` and the list is there.
    pub add_missing-conclude :
        (xs : Items) (w : World NetworkCall)
        → All HasPolicy (pending_hosts v name vlan_id vswitch_name view (arr xs))
        → lookup network_create_on w.props ≡ some (arr xs)
        → (pending_hosts v name vlan_id vswitch_name view (arr xs) ≡ [] → w.stored ≡ w.props)
        → let pending = pending_hosts v name vlan_id vswitch_name view (arr xs) in
          let (r, w') =
            (add_missing v name vlan_id vswitch_name view
                >> conclude v name vlan_id vswitch_name view)
              w in
          (r ≡ outcome seen)
          × (w'.calls ≡ w.calls ++ map (request name vlan_id vswitch_name) pending)
          × (lookup network_create_on w'.stored ≡ some (arr (with_names xs pending)))
          × (lookup network_status w'.stored ≡ status_after seen (lookup network_status w.props))
          × (w'.stored ≡ w'.props)
    add_missing-conclude xs w policies listed saved =
        let pending = pending_hosts v name vlan_id vswitch_name view (arr xs) in
        let added = add_on_hosts v name vlan_id vswitch_name pending w in
        let (r, sent, listed', same, saved') =
          add_on_hosts-done pending xs w policies listed saved in
        let (r', quiet, kept, status, saved'') = conclude_lem added.1 seen refl saved' in
        rw (add_missing-listed xs w listed, r)
          (r', quiet ∙ sent, kept ∙ listed', status ∙ ap (status_after seen) same, saved'')
