-- ===== src/Network/PluginLaws.antt =====
-- What the operations of the network plugin ask of vSphere.
use cloudify_vsphere_plugin.Common.{
  ◌≡◌, refl, sym, ap, ◌∙◌, String, Text, lower, text_eq, Bool, true, false, not, ◌&&◌, ◌||◌, Option,
  none, some, List, [], ◌∷◌, ◌++◌, map, filter, append-nil, append_assoc, ℤ, Value, null, truthy,
  or_null, lookup, Result, ok, err, is_ok, Exec, continue, Bool-cases, inl, inr, arith,
}
use cloudify_vsphere_plugin.Runtime.{World}
use cloudify_vsphere_plugin.Waiting.Quiet.{wait-calls}
use cloudify_vsphere_plugin.Network.{
  Host, PortGroup, View, NetworkCall, remove_port_group, destroy_dv_port_group, done, Vsphere,
}
use cloudify_vsphere_plugin.Network.Switches.{dv_port_group, get_network_mtu}
use cloudify_vsphere_plugin.Network.PortGroups.{
  network_status, is_text, remove_from_host, delete_port_group, destroy_found, delete_dv_port_group,
}
use cloudify_vsphere_plugin.Network.Plugin.{
  NetworkInput, CidrQuery, get_network_name, get_network_ids, establish, store_details, create,
  delete,
}

abbrev pub same_name : Text → Text → Bool
same_name name g = text_eq (lower name) (lower g)

-- The requests of a deletion: on each host, one for each group that has the name but for case.
abbrev pub removals : Text → List Host → List NetworkCall
removals name [] = []
removals name (h ∷ hs) =
    map (λ _. remove_port_group h.name name) (filter (same_name name) h.port_groups)
    ++ removals name hs

abbrev pub destruction : Option PortGroup → List NetworkCall
destruction none = []
destruction (some g) = destroy_dv_port_group g.id ∷ []

module _ (v : Vsphere) where
  -- vSphere removes a group that it is asked to remove.
  abbrev pub Removes : Type 0
  Removes =
      (calls : List NetworkCall) (host : String) (name : Text)
      → v.answer calls (remove_port_group host name) ≡ done

  module _ (removed : Removes) where
    abbrev with_calls : World NetworkCall → List NetworkCall → World NetworkCall
    with_calls w calls = record w { calls = w.calls ++ calls }

    remove_from_host-done :
        (name : Text) (host : String) (gs : List Text) (w : World NetworkCall)
        → remove_from_host v name host gs w ≡ (
          ok tt,
          with_calls w (map (λ _. remove_port_group host name) (filter (same_name name) gs)),
        )
    unfolding remove_from_host
    remove_from_host-done name host [] w =
        ap (λ c. (ok tt, record w { calls = c })) (sym (append-nil w.calls))
    remove_from_host-done name host (g ∷ gs) w = elim (Bool-cases (same_name name g)) [
      | inl same ↦
          rw (same, removed w.calls host name)
            (remove_from_host-done name host gs (with_calls w (remove_port_group host name ∷ []))
              ∙ ap (λ c. (ok tt, record w { calls = c })) (append_assoc w.calls _ _))
      | inr other ↦ rw other (remove_from_host-done name host gs w)
    ]

    pub delete_port_group-done :
        (name : Text) (hosts : List Host) (w : World NetworkCall)
        → delete_port_group v name hosts w ≡ (ok tt, with_calls w (removals name hosts))
    unfolding delete_port_group
    delete_port_group-done name [] w =
        ap (λ c. (ok tt, record w { calls = c })) (sym (append-nil w.calls))
    delete_port_group-done name (h ∷ hs) w =
        let asked =
          map (λ _. remove_port_group h.name name) (filter (same_name name) h.port_groups) in
        rw (remove_from_host-done name h.name h.port_groups w) (
          delete_port_group-done name hs (with_calls w asked)
          ∙ ap (λ c. (ok tt, record w { calls = c }))
              (append_assoc w.calls asked (removals name hs)))

  destroyed :
      (o : Option PortGroup) (w : World NetworkCall)
      → (destroy_found v o w).1.calls ≡ w.calls ++ destruction o
  destroyed none w = sym (append-nil w.calls)
  destroyed (some g) w = wait-calls v.tasks _ none null _

  abbrev pub deletion : Bool → Bool → Text → View → List NetworkCall
  deletion true distributed name view = []
  deletion false true name view = destruction (dv_port_group name view.networks)
  deletion false false name view = removals name view.hosts

  module _ (cidr : CidrQuery) where
    -- Deleting an external network sends nothing; deleting a distributed group asks to destroy the
    -- first of its name, or nothing if there is none; deleting a standard group asks each host to
    -- remove every group that has the name but for case, and ends normally if vSphere does as asked.
    pub network_deletion_requests :
        (input : NetworkInput) (id name : Text) (distributed external : Bool) (view : View)
        (w : World NetworkCall)
        → Removes
        → input.name ≡ some name
        → input.switch_distributed ≡ some distributed
        → let (r, w') = delete v cidr input id external view w in
          (w'.calls ≡ w.calls ++ deletion external distributed name view)
          × ((external || not distributed) ≡ true → r ≡ ok tt)
    unfolding delete delete_dv_port_group
    network_deletion_requests input id name distributed true view w removed named kind =
        rw (kind, named) (sym (append-nil w.calls), λ _. refl)
    network_deletion_requests input id name true false view w removed named kind =
        rw (kind, named) (destroyed (dv_port_group name view.networks) w, λ h. cc)
    network_deletion_requests input id name false false view w removed named kind =
        rw (kind, named, delete_port_group-done removed name view.hosts w) (refl, λ _. refl)

    store_details-by :
        (name : Text) (distributed : Bool) (view : View) (networks : List PortGroup)
        (w : World NetworkCall) (ids : Result Value) (mtu : Result ℤ)
        → get_network_ids name distributed networks ≡ ids
        → get_network_mtu view.hosts networks name distributed ≡ mtu
        → (store_details v cidr name distributed view networks w).1.calls ≡ w.calls
    unfolding store_details
    store_details-by name distributed view networks w (err e) mtu found low = rw found refl
    store_details-by name distributed view networks w (ok id) (err e) found low =
        rw (found, low) refl
    store_details-by name distributed view networks w (ok id) (ok n) found low =
        rw (found, low) refl

    store_details-calls :
        (name : Text) (distributed : Bool) (view : View) (networks : List PortGroup)
        (w : World NetworkCall)
        → (store_details v cidr name distributed view networks w).1.calls ≡ w.calls
    store_details-calls name distributed view networks w =
        store_details-by name distributed view networks w
          (get_network_ids name distributed networks)
          (get_network_mtu view.hosts networks name distributed) refl refl

    -- What comes after sends nothing, whether it is reached or not.
    then_silent :
        (r : Result (Unit {0})) (t : World NetworkCall)
        (f : Unit {0} → Exec (World NetworkCall) (Unit {0}))
        → ((s : World NetworkCall) → (f tt s).1.calls ≡ s.calls)
        → (continue r t f).1.calls ≡ t.calls
    then_silent (ok _) t f quiet = quiet t
    then_silent (err e) t f quiet = refl

    then_stops :
        (r : Result (Unit {0})) (t : World NetworkCall)
        (f : Unit {0} → Exec (World NetworkCall) (Unit {0}))
        → is_ok r ≡ false
        → (is_ok (continue r t f).0 ≡ false) × ((continue r t f).1 ≡ t)
    then_stops (ok _) t f bad = cc
    then_stops (err e) t f bad = (refl, refl)

    establish-calls :
        (input : NetworkInput) (name : Text) (distributed : Bool) (view : View) (found : Value)
        (w : World NetworkCall)
        → truthy found ≡ true
        → (distributed || not (is_text "creating" (or_null (lookup network_status w.props)))) ≡ true
        → (establish v cidr input name distributed view found w).1.calls ≡ w.calls
    unfolding establish
    establish-calls input name distributed view found w there quiet = ground arith

    establish-refuses :
        (input : NetworkInput) (name : Text) (distributed : Bool) (view : View) (found : Value)
        (w : World NetworkCall)
        → truthy found ≡ true
        → (not (is_text "creating" (or_null (lookup network_status w.props)))
            && not (is_text "created" (or_null (lookup network_status w.props))))
          ≡ true
        → let (r, w') = establish v cidr input name distributed view found w in
          (is_ok r ≡ false) × (w' ≡ w)
    unfolding establish
    establish-refuses input name distributed view found w there new = ground arith

    create-establish :
        (input : NetworkInput) (id : Text) (distributed : Bool) (view : View) (found : Value)
        (w : World NetworkCall)
        → input.switch_distributed ≡ some distributed
        → get_network_ids (get_network_name input id) distributed view.networks ≡ ok found
        → create v cidr input id false view w ≡ (
            let name = get_network_name input id in
            let (r, t) = establish v cidr input name distributed view found w in
            continue r t (λ _ s. store_details v cidr name distributed view (v.networks s.calls) s))
    unfolding create
    create-establish input id distributed view found w kind has = simp (kind, has)

    -- Where a group of the name exists, create sends no request, unless it is a standard one that an
    -- earlier run began to create: if the instance is not to use an existing group and has neither
    -- begun nor ended a creation, it raises and changes nothing, also what it has saved.
    pub create_existing :
        (input : NetworkInput) (id : Text) (distributed external : Bool) (view : View)
        (found : Value) (w : World NetworkCall)
        → input.switch_distributed ≡ some distributed
        → get_network_ids (get_network_name input id) distributed view.networks ≡ ok found
        → truthy found ≡ true
        → let status = or_null (lookup network_status w.props) in
          let (r, w') = create v cidr input id external view w in
          ((external || distributed || not (is_text "creating" status)) ≡ true → w'.calls ≡ w.calls)
          × ((not external && not (is_text "creating" status) && not (is_text "created" status))
                ≡ true
              → (is_ok r ≡ false) × (w' ≡ w))
    unfolding create
    create_existing input id distributed true view found w kind has there =
        rw (kind, has, there)
          (
            (λ _. store_details-calls (get_network_name input id) distributed view view.networks w),
            λ h. cc,
          )
    create_existing input id distributed false view found w kind has there =
        let name = get_network_name input id in
        let m = establish v cidr input name distributed view found w in
        rw (create-establish input id distributed view found w kind has) (
          (λ quiet.
              then_silent m.0 m.1 _
                (λ s. store_details-calls name distributed view (v.networks s.calls) s)
              ∙ establish-calls input name distributed view found w there quiet),
          λ new.
              let (bad, same) = establish-refuses input name distributed view found w there new in
              let (stops, kept) = then_stops m.0 m.1 _ bad in (stops, kept ∙ same),
        )
