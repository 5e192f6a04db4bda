-- ===== src/Placement/Choices.antt =====
-- The contract of `select_host_and_datastore`: sound, complete, and preferring room for full disks.
use cloudify_vsphere_plugin.Common.{
  ℕ, ◌≤◌, ◌≡◌, ◌↔◌, refl, sym, ap, subst, ◌≤ℤ◌, ◌∙◌, String, true, Option, none, some, List, ℤ, pos,
  ◌-ℤ◌, -ℤ_parts, leb_ℤ, filter, Within, Within-of_filter, filter_of_Within, Result, ok, err,
  non_recoverable, arith,
}
use cloudify_vsphere_plugin.Placement.{Datastore, Template, Host}
use cloudify_vsphere_plugin.Placement.Datastores.{
  Weighted, Choice, is_allowed, datastore_is_usable, candidate_datastores, select_from,
  select_host_and_datastore,
}
use cloudify_vsphere_plugin.Placement.Selection.{is_roomy, offers, preferred, select_from-preferred}
use cloudify_vsphere_plugin.Placement.Offers.{
  minimum_used, maximum_used, weighting_fits, weighting_of_fits, Within-of_weigh, weigh_of_Within,
  IsBest, Within-of_offers, offers_of_Within, preferred-Within, preferred-none, preferred-roomy,
}

module _ (vm_memory : ℕ) (template : Template) (allowed : List String) where
  -- A datastore that may take the server: on the allowed list, healthy, accessible, and with room
  -- for the committed disk and the memory.
  abbrev pub IsAcceptable : Datastore → Type 0
  IsAcceptable d =
      (is_allowed allowed d.name ≡ true)
      × (datastore_is_usable d ≡ true)
      × (minimum_used vm_memory template ≤ d.free_space)

  -- The weighting of a datastore: what is left of it once the disks are full.
  abbrev weighting : Datastore → ℤ
  weighting d = pos d.free_space -ℤ pos (maximum_used vm_memory template)

  IsAcceptable-of_candidate :
      (h : Host) (x : Weighted)
      → Within x (candidate_datastores vm_memory template allowed h)
      → Within x.0 h.datastores × IsAcceptable x.0 × (x.1 ≡ weighting x.0)
  unfolding candidate_datastores
  IsAcceptable-of_candidate h x m =
      let allow = λ (d : Datastore). is_allowed allowed d.name in
      let (there, e) =
        Within-of_weigh vm_memory template x
          (filter datastore_is_usable (filter allow h.datastores)) m in
      let (kept, usable) = Within-of_filter datastore_is_usable (filter allow h.datastores) there in
      let (stands, good) = Within-of_filter allow h.datastores kept in
      let (fits, w) = weighting_fits x.0 vm_memory template x.1 e in
      (stands, (good, usable, fits), w)

  candidate_of_acceptable :
      (h : Host) (d : Datastore)
      → Within d h.datastores
      → IsAcceptable d
      → Within (d, weighting d) (candidate_datastores vm_memory template allowed h)
  unfolding candidate_datastores
  candidate_of_acceptable h d there (good, usable, fits) =
      let allow = λ (e : Datastore). is_allowed allowed e.name in
      weigh_of_Within vm_memory template (d, weighting d)
        (filter datastore_is_usable (filter allow h.datastores))
        (
          filter_of_Within datastore_is_usable (filter allow h.datastores)
              (filter_of_Within allow h.datastores there good) usable,
          weighting_of_fits d vm_memory template fits,
        )

  weighting_order : (a b : Datastore) → weighting a ≤ℤ weighting b → a.free_space ≤ b.free_space
  weighting_order a b h = omega (
    arith,
    -ℤ_parts (pos a.free_space) (pos (maximum_used vm_memory template)),
    -ℤ_parts (pos b.free_space) (pos (maximum_used vm_memory template)),
  )

  roomy_iff :
      (d : Datastore)
      → (leb_ℤ (pos 0) (weighting d) ≡ true) ↔ (maximum_used vm_memory template ≤ d.free_space)
  unfolding ◌-ℤ◌
  roomy_iff d = ground arith

  -- No acceptable datastore of the host has more free space than this one.
  abbrev pub IsFreest : Host → Datastore → Type 0
  IsFreest h d =
      (other : Datastore)
      → Within other h.datastores
      → IsAcceptable other
      → other.free_space ≤ d.free_space

  best-IsFreest :
      (c : Choice)
      → IsBest vm_memory template allowed c
      → Within c.datastore c.host.datastores
        × IsAcceptable c.datastore
        × IsFreest c.host c.datastore
  best-IsFreest c (candidate, greatest) =
      let (stands, good, w) =
        IsAcceptable-of_candidate c.host (c.datastore, c.weighting) candidate in
      (
        stands,
        good,
        λ other there fine. weighting_order other c.datastore (
            rw (← w) (
              greatest (other, weighting other) (candidate_of_acceptable c.host other there fine))),
      )

  -- The outcome, from the choice that the loop ends with.
  abbrev outcome : Option Choice → Result (Host × Datastore)
  outcome none = err (non_recoverable "No datastores found with enough space.")
  outcome (some c) = ok (c.host, c.datastore)

  module _ (hosts : List Host) where
    selection-outcome :
        select_host_and_datastore vm_memory template allowed hosts
        ≡ outcome (preferred (offers vm_memory template allowed hosts))
    unfolding select_host_and_datastore
    selection-outcome =
        rw (← select_from-preferred vm_memory template allowed hosts)
          (shape (select_from vm_memory template allowed none hosts))
      where
        shape :
            (o : Option Choice)
            → elim o [
              | none ↦ err (non_recoverable "No datastores found with enough space.")
              | some c ↦ ok (c.host, c.datastore)
            ]
              ≡ outcome o
        shape none = refl
        shape (some c) = refl

    -- The choice behind a selection that succeeds.
    chosen :
        (h : Host) (d : Datastore)
        → select_host_and_datastore vm_memory template allowed hosts ≡ ok (h, d)
        → (c : Choice) × (preferred (offers vm_memory template allowed hosts) ≡ some c)
          × Within c.host hosts
          × IsBest vm_memory template allowed c
          × (c.host ≡ h)
          × (c.datastore ≡ d)
    chosen h d e =
        from (preferred (offers vm_memory template allowed hosts)) refl (sym selection-outcome ∙ e)
      where
        from :
            (o : Option Choice)
            → preferred (offers vm_memory template allowed hosts) ≡ o
            → outcome o ≡ ok (h, d)
            → (c : Choice) × (preferred (offers vm_memory template allowed hosts) ≡ some c)
              × Within c.host hosts
              × IsBest vm_memory template allowed c
              × (c.host ≡ h)
              × (c.datastore ≡ d)
        from none f g = cc
        from (some c) f g =
            let (there, best) =
              Within-of_offers vm_memory template allowed c hosts
                (preferred-Within (offers vm_memory template allowed hosts) f) in
            (c, f, there, best, ground arith, ground arith)

    -- What is selected may be used: the host is one of the candidates, the datastore is attached to
    -- it and acceptable, and no acceptable datastore of that host has more free space.
    pub selection_sound :
        (h : Host) (d : Datastore)
        → select_host_and_datastore vm_memory template allowed hosts ≡ ok (h, d)
        → Within h hosts × Within d h.datastores × IsAcceptable d × IsFreest h d
    selection_sound h d e =
        let (c, _, there, best, same_host, same_datastore) = chosen h d e in
        let (stands, good, freest) = best-IsFreest c best in
        subst (λ x. Within x hosts × Within d x.datastores × IsAcceptable d × IsFreest x d)
          same_host
          (subst
            (λ y.
              Within c.host hosts × Within y c.host.datastores × IsAcceptable y × IsFreest c.host y)
            same_datastore (there, stands, good, freest))

    nothing_offered :
        (o : Option Choice)
        → preferred (offers vm_memory template allowed hosts) ≡ o
        → outcome o ≡ err (non_recoverable "No datastores found with enough space.")
        → (c : Choice) → ¬ (Within c (offers vm_memory template allowed hosts))
    nothing_offered none f g c offered =
        subst (Within c) (preferred-none (offers vm_memory template allowed hosts) f) offered
    nothing_offered (some _) f g c offered = cc

    no_choice :
        ((h : Host) (d : Datastore) → Within h hosts → Within d h.datastores → ¬ (IsAcceptable d))
        → preferred (offers vm_memory template allowed hosts) ≡ none
    no_choice none_fits = from (preferred (offers vm_memory template allowed hosts)) refl
      where
        from :
            (o : Option Choice)
            → preferred (offers vm_memory template allowed hosts) ≡ o
            → preferred (offers vm_memory template allowed hosts) ≡ none
        from none f = f
        from (some c) f =
            let (there, best) =
              Within-of_offers vm_memory template allowed c hosts
                (preferred-Within (offers vm_memory template allowed hosts) f) in
            let (stands, good, _) = best-IsFreest c best in
            absurd (none_fits c.host c.datastore there stands good)

    at_least_roomy :
        (other : Datastore) (c : Choice)
        → maximum_used vm_memory template ≤ other.free_space
        → weighting other ≤ℤ c.weighting
        → is_roomy c ≡ true
    at_least_roomy other c room at_least =
        roomy_above (weighting other) c.weighting ((roomy_iff other).1 room) at_least
      where
        roomy_above : (a b : ℤ) → leb_ℤ (pos 0) a ≡ true → a ≤ℤ b → leb_ℤ (pos 0) b ≡ true
        roomy_above a b h k = ground arith

    -- The selection fails exactly when no candidate host has an acceptable datastore.
    pub selection_fails_iff :
        (select_host_and_datastore vm_memory template allowed hosts
          ≡ err (non_recoverable "No datastores found with enough space."))
        ↔ ((h : Host) (d : Datastore) → Within h hosts → Within d h.datastores → ¬ (IsAcceptable d))
    selection_fails_iff = (
      (λ e h d there attached good.
          let (c, offered, _) =
            offers_of_Within vm_memory template allowed h (d, weighting d) hosts there
              (candidate_of_acceptable h d attached good) in
          nothing_offered (preferred (offers vm_memory template allowed hosts)) refl
            (sym selection-outcome ∙ e) c offered),
      λ none_fits. selection-outcome ∙ ap outcome (no_choice none_fits),
    )

    -- If some acceptable datastore of some candidate host can hold the server with its disks full,
    -- then so can the one that is selected.
    pub selection_prefers_room :
        (h other_host : Host) (d other : Datastore)
        → select_host_and_datastore vm_memory template allowed hosts ≡ ok (h, d)
        → Within other_host hosts
        → Within other other_host.datastores
        → IsAcceptable other
        → maximum_used vm_memory template ≤ other.free_space
        → maximum_used vm_memory template ≤ d.free_space
    selection_prefers_room h other_host d other e there attached good room =
        let (c, preferred_c, _, best, _, same_datastore) = chosen h d e in
        let (offered, listed, at_least) =
          offers_of_Within vm_memory template allowed other_host (other, weighting other) hosts
            there (candidate_of_acceptable other_host other attached good) in
        let (_, _, w) = IsAcceptable-of_candidate c.host (c.datastore, c.weighting) best.0 in
        let roomy : is_roomy c ≡ true =
          preferred-roomy offered (offers vm_memory template allowed hosts) listed
            (at_least_roomy other offered room at_least) preferred_c in
        subst (λ y. maximum_used vm_memory template ≤ y.free_space) same_datastore
          ((roomy_iff c.datastore).0 (rw (← w) roomy))
