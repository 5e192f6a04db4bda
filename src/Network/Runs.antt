-- ===== src/Network/Runs.antt =====
-- The runs of `create_port_group` on one instance: the first one and the one after an OperationRetry.
use cloudify_vsphere_plugin.Common.{
  contains, ◌≡◌, refl, sym, ap, ◌∙◌, String, Text, Bool, true, false, not, ◌||◌, ◌>>=◌, when, none,
  some, List, [], ◌∷◌, ◌++◌, map, filter, All, ℤ, Value, Items, str, arr, no_items, lookup, put,
  dict_laws, lookup-put_ne, ok, Bool-cases, inl, inr, arith, Exec, ◌>>◌, ◌≢◌,
}
use cloudify_vsphere_plugin.Runtime.{World, read_prop}
use cloudify_vsphere_plugin.Network.{Host, View, NetworkCall, Vsphere}
use cloudify_vsphere_plugin.Network.Switches.{get_vswitches}
use cloudify_vsphere_plugin.Network.PortGroups.{
  network_status, network_create_on, names_of_items, port_group_is_on_all_hosts, conclude,
  add_missing, is_text, prepare, check_switch, begin_creation, create_port_group,
}
use cloudify_vsphere_plugin.Network.Progress.{
  is_fault, HasPolicy, host_names, with_names, names_of_items-with_names, request, outcome,
  status_after, add_missing-conclude,
}

All-filter :
    {A : Type 0} (P : A → Type 0) (p : A → Bool) (xs : List A) → All P xs → All P (filter p xs)
All-filter P p [] h = tt
All-filter P p (x ∷ xs) (h, hs) = elim (Bool-cases (p x)) [
  | inl good ↦ rw good (h, All-filter P p xs hs)
  | inr bad ↦ rw bad (All-filter P p xs hs)
]

filter-all : {A : Type 0} (xs : List A) → filter (λ _. true) xs ≡ xs
filter-all [] = refl
filter-all (x ∷ xs) = ap (λ l. x ∷ l) (filter-all xs)

module _ (v : Vsphere) (name : Text) (vlan_id : ℤ) (vswitch_name : String)
    (no_faults : (calls : List NetworkCall) (c : NetworkCall)
      → is_fault (v.answer calls c) ≡ false) where
  abbrev rest_of_run : View → Exec (World NetworkCall) (Unit {0})
  rest_of_run view =
      add_missing v name vlan_id vswitch_name view >> conclude v name vlan_id vswitch_name view

  -- The world in which the first run has written that it creates, and has begun the list.
  abbrev begun : World NetworkCall → World NetworkCall
  begun w =
      let d = put network_status (str "creating") (put network_status (str "preparing") w.props) in
      record { props = put network_create_on (arr no_items) d; stored = d; calls = w.calls }

  prepare-new :
      (w : World NetworkCall)
      → lookup network_status w.props ≡ none
      → prepare v name vlan_id vswitch_name w ≡ (
          let d = put network_status (str "preparing") w.props in
          (ok tt, record { props = d; stored = d; calls = w.calls }))
  unfolding prepare
  prepare-new w new = ground arith

  prepare-known :
      (w : World NetworkCall) (s : Value)
      → lookup network_status w.props ≡ some s
      → prepare v name vlan_id vswitch_name w ≡ (ok tt, w)
  unfolding prepare
  prepare-known w s known = ground arith

  check_switch-valid :
      (view : View) (w : World NetworkCall) (s : String)
      → lookup network_status w.props ≡ some (str s)
      → contains vswitch_name (get_vswitches view.hosts) ≡ true
      → check_switch v name vlan_id vswitch_name view w ≡ (ok tt, w)
  unfolding check_switch
  check_switch-valid view w s known valid = ground arith

  check_switch-creating :
      (view : View) (w : World NetworkCall)
      → lookup network_status w.props ≡ some (str "creating")
      → check_switch v name vlan_id vswitch_name view w ≡ (ok tt, w)
  unfolding check_switch
  check_switch-creating view w known = ground arith

  begin_creation-new :
      (w : World NetworkCall)
      → lookup network_create_on (put network_status (str "creating") w.props) ≡ none
      → begin_creation v name vlan_id vswitch_name w ≡ (
          let d = put network_status (str "creating") w.props in
          (
            ok tt,
            record { props = put network_create_on (arr no_items) d; stored = d; calls = w.calls },
          ))
  unfolding begin_creation
  begin_creation-new w new = ground arith

  begin_creation-listed :
      (w : World NetworkCall) (xs : Value)
      → lookup network_create_on (put network_status (str "creating") w.props) ≡ some xs
      → begin_creation v name vlan_id vswitch_name w ≡ (
          let d = put network_status (str "creating") w.props in
          (ok tt, record { props = d; stored = d; calls = w.calls }))
  unfolding begin_creation
  begin_creation-listed w xs listed = ground arith

  -- What a run does after the check of the switch.
  abbrev proceed : View → Exec (World NetworkCall) (Unit {0})
  proceed view = do
    status ← read_prop network_status
    when (is_text "preparing" status || is_text "creating" status)
        (do begin_creation v name vlan_id vswitch_name; rest_of_run view)

  proceed-open :
      (view : View) (w : World NetworkCall) (s : Value)
      → lookup network_status w.props ≡ some s
      → (is_text "preparing" s || is_text "creating" s) ≡ true
      → proceed view w ≡ (begin_creation v name vlan_id vswitch_name >> rest_of_run view) w
  proceed-open view w s known active = ground arith

  create_port_group-first :
      (view : View) (w : World NetworkCall)
      → lookup network_status w.props ≡ none
      → lookup network_create_on w.props ≡ none
      → contains vswitch_name (get_vswitches view.hosts) ≡ true
      → create_port_group v name vlan_id vswitch_name view w ≡ rest_of_run view (begun w)
  unfolding create_port_group
  create_port_group-first view w new unlisted valid =
      let d = put network_status (str "preparing") w.props in
      let w1 : World NetworkCall = record { props = d; stored = d; calls = w.calls } in
      rw (prepare-new w new, check_switch-valid view w1 "preparing" (simp dict_laws) valid)
        (proceed-open view w1 (str "preparing") (simp dict_laws) refl
          ∙ rw (begin_creation-new w1 (rw (lookup-put_ne, lookup-put_ne) unlisted)) refl)

  create_port_group-again :
      (view : View) (w : World NetworkCall) (xs : Items)
      → lookup network_status w.props ≡ some (str "creating")
      → lookup network_create_on w.props ≡ some (arr xs)
      → let d = put network_status (str "creating") w.props in
        create_port_group v name vlan_id vswitch_name view w
        ≡ rest_of_run view (record { props = d; stored = d; calls = w.calls })
  unfolding create_port_group
  create_port_group-again view w xs creating listed =
      rw (prepare-known w (str "creating") creating, check_switch-creating view w creating)
        (proceed-open view w (str "creating") creating refl
          ∙ rw (begin_creation-listed w (arr xs) (rw lookup-put_ne listed)) refl)

  abbrev pub Fresh : World NetworkCall → Type 0
  Fresh w = (lookup network_status w.props ≡ none) × (lookup network_create_on w.props ≡ none)

  -- Where the hosts in the list have been asked, and the run is a later one.
  abbrev Listing : Items → World NetworkCall → Type 0
  Listing xs w =
      (lookup network_status w.stored ≡ some (str "creating"))
      × (lookup network_create_on w.stored ≡ some (arr xs))
      × (w.stored ≡ w.props)

  -- The hosts that the list of an earlier run does not have.
  abbrev pub new_hosts : List String → List Host → List Host
  new_hosts known hosts = filter (λ h. not (contains h.name known)) hosts

  abbrev ask_all : List Host → List NetworkCall
  ask_all hs = map (request name vlan_id vswitch_name) hs

  first_run :
      (view : View) (w : World NetworkCall)
      → Fresh w
      → contains vswitch_name (get_vswitches view.hosts) ≡ true
      → All HasPolicy view.hosts
      → view.hosts ≢ []
      → let (r, w') = create_port_group v name vlan_id vswitch_name view w in
        let seen = port_group_is_on_all_hosts view name false in
        (r ≡ outcome seen)
        × (w'.calls ≡ w.calls ++ ask_all view.hosts)
        × (lookup network_create_on w'.stored ≡ some (arr (with_names no_items view.hosts)))
        × (lookup network_status w'.stored ≡ status_after seen (some (str "creating")))
        × (w'.stored ≡ w'.props)
  first_run view w (new, unlisted) valid policies some_host =
      let everyone = filter-all view.hosts in
      let (r, sent, listed, status, saved) =
        add_missing-conclude v name vlan_id vswitch_name no_faults view no_items (begun w)
          (All-filter HasPolicy (λ _. true) view.hosts policies) (simp dict_laws)
          (λ none_left. absurd (some_host (sym everyone ∙ none_left))) in
      rw (create_port_group-first view w new unlisted valid) (
        r,
        sent ∙ ap (λ hs. w.calls ++ ask_all hs) everyone,
        listed ∙ ap (λ hs. some (arr (with_names no_items hs))) everyone,
        status ∙ ap (status_after (port_group_is_on_all_hosts view name false)) (simp dict_laws),
        saved,
      )

  later_run :
      (view : View) (xs : Items) (w : World NetworkCall)
      → Listing xs w
      → All HasPolicy view.hosts
      → let (r, w') = create_port_group v name vlan_id vswitch_name view w in
        let seen = port_group_is_on_all_hosts view name false in
        (r ≡ outcome seen)
        × (w'.calls ≡ w.calls ++ ask_all (new_hosts (names_of_items xs) view.hosts))
        × (lookup network_status w'.stored ≡ status_after seen (some (str "creating")))
  later_run view xs w (creating, listed, saved) policies =
      let d = put network_status (str "creating") w.props in
      let (r, sent, _, status, _) =
        add_missing-conclude v name vlan_id vswitch_name no_faults view xs
          (record { props = d; stored = d; calls = w.calls })
          (All-filter HasPolicy (λ h. not (contains h.name (names_of_items xs))) view.hosts
            policies)
          (rw lookup-put_ne (sym (ap (lookup network_create_on) saved) ∙ listed)) (λ _. refl) in
      rw
        (create_port_group-again view w xs (sym (ap (lookup network_status) saved) ∙ creating)
          (sym (ap (lookup network_create_on) saved) ∙ listed))
        (
          r,
          sent,
          status ∙ ap (status_after (port_group_is_on_all_hosts view name false)) (simp dict_laws),
        )

  -- A first run asks every host, and if it is put off, so that the operation starts again with what
  -- was saved, the next run asks only the hosts that are new and sets the status to `created`
  -- if and only if the group is then seen on all hosts.
  pub two_runs :
      (view later : View) (w : World NetworkCall)
      → Fresh w
      → contains vswitch_name (get_vswitches view.hosts) ≡ true
      → All HasPolicy view.hosts
      → All HasPolicy later.hosts
      → view.hosts ≢ []
      → port_group_is_on_all_hosts view name false ≡ false
      → let (r, w') = create_port_group v name vlan_id vswitch_name view w in
        let again : World NetworkCall = record {
          props = w'.stored;
          stored = w'.stored;
          calls = w'.calls;
        } in
        let (r', w'') = create_port_group v name vlan_id vswitch_name later again in
        let seen = port_group_is_on_all_hosts later name false in
        (r ≡ outcome false)
        × (w'.calls ≡ w.calls ++ ask_all view.hosts)
        × (r' ≡ outcome seen)
        × (w''.calls ≡ w'.calls ++ ask_all (new_hosts (host_names view.hosts) later.hosts))
        × (lookup network_status w''.stored ≡ status_after seen (some (str "creating")))
  two_runs view later w fresh valid policies policies' some_host unseen =
      let first = create_port_group v name vlan_id vswitch_name view w in
      let again : World NetworkCall = record {
        props = first.1.stored;
        stored = first.1.stored;
        calls = first.1.calls;
      } in
      let (r, sent, listed, status, saved) = first_run view w fresh valid policies some_host in
      let (r', sent', status') =
        later_run later (with_names no_items view.hosts) again
          (status ∙ ap (λ b. status_after b (some (str "creating"))) unseen, listed, refl)
          policies' in
      (
        r ∙ ap outcome unseen,
        sent,
        r',
        sent'
            ∙ ap (λ ns. first.1.calls ++ ask_all (new_hosts ns later.hosts))
                (names_of_items-with_names no_items view.hosts),
        status',
      )
