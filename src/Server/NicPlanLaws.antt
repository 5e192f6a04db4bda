-- ===== src/Server/NicPlanLaws.antt =====
-- Which cards the changes take away and add, by the names of the networks.
use cloudify_vsphere_plugin.Common.{
  ◌≡◌, ℕ, ◌+◌, Text, Bool, false, ◌&&◌, ◌||◌, not, List, [], ◌∷◌, map, filter, Result, ok,
}
use cloudify_vsphere_plugin.Inventory.Nics.{NicDetails}
use cloudify_vsphere_plugin.Server.NicPlan.{
  Card, has_name, entry_of, real_networks, names_to_remove, names_to_add, goes, NicChange, add_nic,
}

-- The cards that stay.
abbrev pub kept_cards : List NicDetails → List Text → List Card → List Card
kept_cards networks removed = filter (λ card. not (goes removed (entry_of networks card)))

abbrev stays_in : List Text → Text → Bool
stays_in removed t = not (has_name t removed)

module _ {N : Type 0} (name_of : N → Text) where
  -- The new networks for which a card is added.
  abbrev pub added_networks : List NicDetails → List Card → List N → List N
  added_networks networks cards wanted =
      filter
        (λ n.
          has_name (name_of n) (names_to_add (real_networks networks cards) (map name_of wanted)))
        wanted

  abbrev pub Reaches : List NicDetails → List Card → List N → Text → Type 0
  Reaches networks cards wanted name =
      let real = real_networks networks cards in
      let removed = names_to_remove real (map name_of wanted) in
      let kept = has_name name (real_networks networks (kept_cards networks removed cards)) in
      let added = has_name name (map name_of (added_networks networks cards wanted)) in
      ((kept || added) ≡ has_name name (map name_of wanted)) × ((kept && added) ≡ false)

module _ {N A : Type 0} (name_of : N → Text) (add : N → ℕ → Result A) where
  -- The changes add a card for each of the networks, with keys from a number on.
  abbrev pub Adds : ℕ → List N → List (NicChange A) → Type 0
  Adds k [] [] = Unit
  Adds k (n ∷ ns) (add_nic spec ∷ cs) = (add n k ≡ ok spec) × Adds (k + 1) ns cs
  Adds k _ _ = ⊥
