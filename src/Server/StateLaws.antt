-- ===== src/Server/StateLaws.antt =====
-- The addresses that get_state takes from the interfaces of a guest.
use cloudify_vsphere_plugin.Common.{
  ◌≡◌, sym, ap, ◌∙◌, Text, true, false, Option, none, some, List, [], ◌∷◌, filter, All, is_some,
  Result, ok, err, bind-eq-ok, Bool-cases, inl, inr, Option-cases,
}
use cloudify_vsphere_plugin.Runtime.{World}
use cloudify_vsphere_plugin.Server.Guest.{
  GuestNic, is_empty, is_unroutable, get_ip_from_vsphere_nic_ips,
}
use cloudify_vsphere_plugin.Server.State.{
  lacks_ip, or_else, nic_ip, on_management, is_considered, manager_after, update_nets, scan_nics,
}

-- The first interface, and after it those on the management network.
abbrev pub considered : Option Text → List GuestNic → List GuestNic
considered management [] = []
considered management (nic ∷ nics) =
    nic ∷ filter (λ (n : GuestNic). on_management management n.network) nics

abbrev pub last_ip : Option Text → List GuestNic → Option Text
last_ip ip [] = ip
last_ip ip (nic ∷ nics) = last_ip (nic_ip nic) nics

-- No address is the empty text.
abbrev pub HasTexts : GuestNic → Type 0
HasTexts nic = All (λ (ip : Text). is_empty ip ≡ false) nic.ip_address

ip-HasTexts :
    (ips : List Text) {ip : Text}
    → All (λ (t : Text). is_empty t ≡ false) ips
    → get_ip_from_vsphere_nic_ips true ips ≡ some ip
    → is_empty ip ≡ false
unfolding get_ip_from_vsphere_nic_ips
ip-HasTexts [] h e = cc
ip-HasTexts (t ∷ ts) {ip} (now, later) e = elim (Bool-cases (is_unroutable t)) [
  | inl local ↦ ip-HasTexts ts later (rw local at e)
  | inr other ↦ let same : some t ≡ some ip = rw other at e in ap lacks_ip (sym same) ∙ now
]

known_ip :
    (nic : GuestNic) → HasTexts nic → is_some (nic_ip nic) ≡ true → lacks_ip (nic_ip nic) ≡ false
known_ip nic texts there = elim (Option-cases (nic_ip nic)) [
  | inl missing ↦ cc (rw missing at there)
  | inr (ip, found) ↦ ap lacks_ip found ∙ ip-HasTexts nic.ip_address texts found
]

module _ {C : Type 0} where
  manager_after-true :
      (manager : Option Text) (nic : GuestNic) (w v : World C) {m : Option Text}
      → manager_after true manager nic w ≡ (ok m, v)
      → (m ≡ nic_ip nic) × (is_some (nic_ip nic) ≡ true)
  manager_after-true manager nic w v {m} h = elim (Option-cases (nic_ip nic)) [
    | inl missing ↦ cc (rw missing at h)
    | inr (ip, there) ↦
        let same : (ok (some ip), w) ≡ (ok m, v) = rw there at h in
        (sym (ap value_of same) ∙ sym there, ap is_some there)
  ]
    where
      value_of : Result (Option Text) × World C → Option Text
      value_of (ok a, _) = a
      value_of (err e, _) = none

  manager_after-false :
      (manager : Option Text) (nic : GuestNic) (w v : World C) {m : Option Text}
      → manager_after false manager nic w ≡ (ok m, v)
      → m ≡ manager
  manager_after-false manager nic w v h = cc

  -- One round of the loop that succeeded.
  scan-round :
      (management manager default_ip : Option Text) (nic : GuestNic) (nics : List GuestNic)
      (w w' : World C) {ips : Option Text × Option Text}
      → scan_nics management manager default_ip (nic ∷ nics) w ≡ (ok ips, w')
      → (m : Option Text) × (v : World C) × (u : World C) × (manager_after
            (is_considered manager management nic.network)
            manager
            nic
            w
          ≡ (ok m, v))
        × (scan_nics management m (or_else default_ip (nic_ip nic)) nics u ≡ (ok ips, w'))
  unfolding scan_nics
  scan-round management manager default_ip nic nics w w' h =
      let (m, v, first, rest) =
        bind-eq-ok (manager_after (is_considered manager management nic.network) manager nic) _ w w'
          h in
      let (_, u, _, last) = bind-eq-ok (update_nets nic) _ v w' rest in (m, v, u, first, last)

  scan_end :
      (management manager default_ip : Option Text) (w w' : World C)
      {ips : Option Text × Option Text}
      → scan_nics management manager default_ip [] w ≡ (ok ips, w')
      → ips.0 ≡ manager
  unfolding scan_nics
  scan_end management manager default_ip w w' h = cc

  -- Once an address is known, only interfaces on the management network change it.
  scan_known :
      (management manager default_ip : Option Text) (nics : List GuestNic) (w w' : World C)
      {ips : Option Text × Option Text}
      → lacks_ip manager ≡ false
      → All HasTexts nics
      → scan_nics management manager default_ip nics w ≡ (ok ips, w')
      → let chosen = filter (λ (n : GuestNic). on_management management n.network) nics in
        (ips.0 ≡ last_ip manager chosen)
        × All (λ (n : GuestNic). is_some (nic_ip n) ≡ true) chosen
        × (lacks_ip ips.0 ≡ false)
  scan_known management manager default_ip [] w w' known h done = (
    scan_end management manager default_ip w w' done,
    tt,
    ap lacks_ip (scan_end management manager default_ip w w' done) ∙ known,
  )
  scan_known management manager default_ip (nic ∷ nics) w w' known (texts, more) done =
      let chosen = filter (λ (n : GuestNic). on_management management n.network) nics in
      let (m, v, u, first, rest) = scan-round management manager default_ip nic nics w w' done in
      elim (Bool-cases (on_management management nic.network)) [
        | inl here ↦
            let (same, there) = manager_after-true manager nic w v (rw (known, here) at first) in
            let (last, all, set) =
              scan_known management m _ nics u w' (ap lacks_ip same ∙ known_ip nic texts there) more
                rest in
            rw here (last ∙ ap (λ x. last_ip x chosen) same, (there, all), set)
        | inr elsewhere ↦
            let same = manager_after-false manager nic w v (rw (known, elsewhere) at first) in
            let (last, all, set) =
              scan_known management m _ nics u w' (ap lacks_ip same ∙ known) more rest in
            rw elsewhere (last ∙ ap (λ x. last_ip x chosen) same, all, set)
      ]

  -- With no address known, the first interface has to have one.
  pub scan_unknown :
      (management default_ip : Option Text) (nic : GuestNic) (nics : List GuestNic) (w w' : World C)
      {ips : Option Text × Option Text}
      → All HasTexts (nic ∷ nics)
      → scan_nics management none default_ip (nic ∷ nics) w ≡ (ok ips, w')
      → (ips.0 ≡ last_ip none (considered management (nic ∷ nics)))
        × All (λ (n : GuestNic). is_some (nic_ip n) ≡ true) (considered management (nic ∷ nics))
        × (lacks_ip ips.0 ≡ false)
  scan_unknown management default_ip nic nics w w' (texts, more) done =
      let chosen = filter (λ (n : GuestNic). on_management management n.network) nics in
      let (m, v, u, first, rest) = scan-round management none default_ip nic nics w w' done in
      let (same, there) = manager_after-true none nic w v first in
      let (last, all, set) =
        scan_known management m _ nics u w' (ap lacks_ip same ∙ known_ip nic texts there) more
          rest in
      (last ∙ ap (λ x. last_ip x chosen) same, (there, all), set)
