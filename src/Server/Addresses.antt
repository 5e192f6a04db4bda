-- ===== src/Server/Addresses.antt =====
-- The address that get_state keeps of a server.
use cloudify_vsphere_plugin.Common.{
  ◌≡◌, sym, ap, ◌∙◌, Text, codes, text_eq, Bool, true, false, ◌&&◌, not, Option, none, some, List,
  ◌∷◌, All, is_some, Value, Dict, lookup, put, remove, lookup-put, lookup-remove, lookup-put_self,
  Result, ok, Error, non_recoverable, operation_retry, Exec, lift, raise_if, or_raise, bind-eq-ok,
  ℤ, arith, if◌then◌else◌,
}
use cloudify_vsphere_plugin.Runtime.{World, Platform}
use cloudify_vsphere_plugin.Server.{VmCall}
use cloudify_vsphere_plugin.Server.Naming.{get_vm_name}
use cloudify_vsphere_plugin.Server.Lifecycle.{Inventory, Inputs, get_server_by_context}
use cloudify_vsphere_plugin.Server.Guest.{GuestNic}
use cloudify_vsphere_plugin.Server.State.{
  GuestInfo, ConnectNetwork, StateInputs, lacks_ip, or_else, ip_value, nic_ip, names_of, single,
  first_ip, public_list, connect_networks, keep_addresses, scan_nics, read_addresses, judge_guest,
  by_os, wait_first, get_state,
}
use cloudify_vsphere_plugin.Server.StateLaws.{considered, last_ip, HasTexts, scan_unknown}

module _ {S : Type 0} where
  raise_if-state :
      (b : Bool) (e : Error) (s t : S) {u : Unit {0}} → raise_if b e s ≡ (ok u, t) → t ≡ s
  raise_if-state true e s t h = cc
  raise_if-state false e s t h = sym (ap (λ x. x.1) h)

  if-taken :
      {A : Type 0} (c : Bool) (m n : Exec S A) (t : S) {x : Result A × S}
      → c ≡ true
      → (if c then m else n) t ≡ x
      → m t ≡ x
  if-taken true m n t e h = h
  if-taken false m n t e h = cc

  lift-ok :
      {A : Type 0} (r : Result A) (s t : S) {a : A} → lift r s ≡ (ok a, t) → (r ≡ ok a) × (t ≡ s)
  lift-ok r s t h = (ap (λ x. x.0) h, sym (ap (λ x. x.1) h))

ok_inj : {A : Type 0} {a b : A} → ok a ≡ ok b → a ≡ b
ok_inj e = cc

kept_ip :
    (d : Dict Value) (ip v : Value)
    → lookup "ip" (remove "__min_wait_time_start" (put "public_ip" v (put "ip" ip d))) ≡ some ip
kept_ip d ip v = ground (
  arith,
  lookup-remove "__min_wait_time_start" "ip" (put "public_ip" v (put "ip" ip d)),
  lookup-put "public_ip" "ip" v (put "ip" ip d),
  lookup-put_self "ip" ip d,
)

scan_found :
    {C : Type 0} (nm names : List Text) (guest_nics : List GuestNic) (nic : GuestNic)
    (nics : List GuestNic) (w w' : World C) {ips : Option Text × Option Text}
    → nm ≡ names
    → guest_nics ≡ nic ∷ nics
    → All HasTexts (nic ∷ nics)
    → scan_nics (single nm) none none guest_nics w ≡ (ok ips, w')
    → (ips.0 ≡ last_ip none (considered (single names) (nic ∷ nics)))
      × All (λ (n : GuestNic). is_some (nic_ip n) ≡ true) (considered (single names) (nic ∷ nics))
      × (lacks_ip ips.0 ≡ false)
scan_found nm names guest_nics nic nics w w' same_names same_nics texts h =
    scan_unknown (single names) none nic nics w w' texts (rw (same_names, same_nics) at h)

module _ (p : Platform VmCall) (inventory : Inventory) (i : Inputs) (s : StateInputs) where
  keep_addresses-ip :
      (nics : List GuestNic) (networks : List ConnectNetwork)
      (manager default_ip public_ip : Option Text) (w w' : World VmCall) {u : Unit {0}}
      → keep_addresses p inventory i s nics networks manager default_ip public_ip w ≡ (ok u, w')
      → lookup "ip" w'.props ≡ some (ip_value (or_else manager default_ip))
  unfolding keep_addresses
  keep_addresses-ip nics networks manager default_ip public_ip w w' h =
      let ip = ip_value (or_else manager default_ip) in
      let w1 : World VmCall = record w { props = put "ip" ip w.props } in
      let (_, t1, e1, h1) =
        bind-eq-ok
          (raise_if (lacks_ip (or_else manager default_ip) && s.wait_ip)
            (operation_retry "IP address not yet exported."))
          _ w1 w' h in
      let (ips, t2, e2, h2) = bind-eq-ok (lift (public_list public_ip nics networks)) _ t1 w' h1 in
      let same : t2 ≡ w1 = (lift-ok _ t1 t2 e2).1 ∙ raise_if-state _ _ w1 t1 e1 in
      ap (λ x. lookup "ip" x.1.props) (sym h2)
      ∙ ap
          (λ (x : World VmCall).
            lookup "ip" (remove "__min_wait_time_start" (put "public_ip" (first_ip ips) x.props)))
          same
      ∙ kept_ip w.props ip (first_ip ips)

  -- What is kept is the address that the scan gave for the manager.
  read_addresses-ip :
      (guest : GuestInfo) (networks : List ConnectNetwork) (names : List Text) (nic : GuestNic)
      (nics : List GuestNic) (w w' : World VmCall) {b : Bool}
      → s.networking ≡ some networks
      → names_of (λ (n : ConnectNetwork). n.management) networks ≡ ok names
      → guest.nics ≡ nic ∷ nics
      → All HasTexts (nic ∷ nics)
      → read_addresses p inventory i s guest none w ≡ (ok b, w')
      → let chosen = considered (single names) (nic ∷ nics) in
        All (λ (n : GuestNic). is_some (nic_ip n) ≡ true) chosen
        × (lookup "ip" w'.props ≡ some (ip_value (last_ip none chosen)))
  unfolding read_addresses
  read_addresses-ip guest networks names nic nics w w' is_net is_names is_nics texts h =
      let (ns, t0, e0, h0) = bind-eq-ok (lift (connect_networks s.networking)) _ w w' h in
      let same_ns : ns ≡ networks = networks_of ns (lift-ok _ w t0 e0).0 in
      let (nm, t1, e1, h1) =
        bind-eq-ok (lift (names_of (λ (n : ConnectNetwork). n.management) ns)) _ t0 w' h0 in
      let same_nm : nm ≡ names = ok_inj (
        sym (lift-ok _ t0 t1 e1).0
        ∙ ap (names_of (λ (n : ConnectNetwork). n.management)) same_ns
        ∙ is_names) in
      let (ips, t2, e2, h2) = bind-eq-ok (scan_nics (single nm) none none guest.nics) _ t1 w' h1 in
      let (last, all, set) =
        scan_found nm names guest.nics nic nics t1 t2 same_nm is_nics texts e2 in
      let (_, t3, e3, h3) =
        bind-eq-ok
          (raise_if (not (lacks_ip (single nm)) && lacks_ip ips.0)
            (operation_retry "Management IP addresses not yet assigned."))
          _ t2 w' h2 in
      let (_, t4, e4, h4) =
        bind-eq-ok (keep_addresses p inventory i s guest.nics ns ips.0 ips.1 none) _ _ w' h3 in
      (
        all,
        ap (λ x. lookup "ip" x.1.props) (sym h4)
            ∙ keep_addresses-ip guest.nics ns ips.0 ips.1 none _ t4 e4
            ∙ ap (λ c. some (ip_value (if c then ips.1 else ips.0))) set
            ∙ ap (λ x. some (ip_value x)) last,
      )
    where
      networks_of :
          (ns : List ConnectNetwork) → connect_networks s.networking ≡ ok ns → ns ≡ networks
      networks_of ns e = ok_inj (sym e ∙ ap connect_networks is_net)

  judged :
      (guest : GuestInfo) (t w' : World VmCall) {b : Bool}
      → guest.is_running ≡ true
      → judge_guest p inventory i s guest none t ≡ (ok b, w')
      → read_addresses p inventory i s guest none t ≡ (ok b, w')
  unfolding judge_guest
  judged guest t w' runs h =
      if-taken guest.is_running (read_addresses p inventory i s guest none) _ t runs h

  -- If get_state succeeds for a machine whose guest runs, is not of the system `other` and has
  -- interfaces, no address of them the empty text: then the first interface, and each on the one
  -- management network if there is one, has an address that is not passed over, and the last of these
  -- addresses is kept as that of the server.
  pub get_state_ip :
      (now : ℤ) (guest : GuestInfo) (networks : List ConnectNetwork) (names : List Text)
      (nic : GuestNic) (nics : List GuestNic) (w w' : World VmCall) (b : Bool)
      → text_eq i.os_family (codes "other") ≡ false
      → guest.is_running ≡ true
      → s.networking ≡ some networks
      → names_of (λ (n : ConnectNetwork). n.management) networks ≡ ok names
      → guest.nics ≡ nic ∷ nics
      → All HasTexts (nic ∷ nics)
      → get_state p inventory i s now (λ _. guest) w ≡ (ok b, w')
      → All (λ (n : GuestNic). is_some (nic_ip n) ≡ true) (considered (single names) (nic ∷ nics))
        × (lookup "ip" w'.props
            ≡ some (ip_value (last_ip none (considered (single names) (nic ∷ nics)))))
  unfolding get_state
  get_state_ip now guest networks names nic nics w w' b os runs is_net is_names is_nics texts h =
      let (_, t0, e0, h0) =
        bind-eq-ok (wait_first p inventory i s now s.minimum_wait_time) _ w w' h in
      let (found, t1, e1, h1) = bind-eq-ok (get_server_by_context p inventory i) _ t0 w' h0 in
      let (server, t2, e2, h2) =
        bind-eq-ok
          (or_raise found (non_recoverable "Cannot get info - server doesn't exist for node: {0}"))
          _ t1 w' h1 in
      let (_, t3, e3, h3) =
        bind-eq-ok
          (λ (v : World VmCall). (get_vm_name v.props i.server i.instance_id i.os_family, v)) _ t2
          w' h2 in
      read_addresses-ip guest networks names nic nics t3 w' is_net is_names is_nics texts
        (reads _ t3 os h3)
    where
      reads :
          (other : Bool) (t : World VmCall)
          → other ≡ false
          → by_os p inventory i s guest other t ≡ (ok b, w')
          → read_addresses p inventory i s guest none t ≡ (ok b, w')
      reads true t e h = cc
      reads false t e h = judged guest t w' runs h
