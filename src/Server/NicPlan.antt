-- ===== src/Server/NicPlan.antt =====
-- How `update` of vsphere_server_plugin/server.py brings the cards of a machine to the networks that
-- are wanted now.
use cloudify_vsphere_plugin.Common.{
  ℕ, ◌+◌, ◌-◌, String, Text, text_eq, Bool, true, not, Option, none, some, List, [], ◌∷◌, ◌++◌, map,
  filter, find, any, length, str_eq, codes, lookup, put, Value, str, joined, truthy, or_null,
  Result, ok, and_then, if◌then◌else◌,
}
use cloudify_vsphere_plugin.Inventory.{Entity, NetworkLink}
use cloudify_vsphere_plugin.Inventory.Lookup.{get_connected_network_name}
use cloudify_vsphere_plugin.Inventory.Nics.{NicDetails}
use cloudify_vsphere_plugin.Server.Networks.{Nic}
use cloudify_vsphere_plugin.Server.NicSpecs.{NicSpec, NicView, add_network}

-- A network card of the machine.
pub record Card : Type 0 where
  pub key : ℕ
  pub mac_address : String

abbrev pub has_name : Text → List Text → Bool
has_name name = any (text_eq name)

-- The first entry of the runtime properties that has the card's address.
abbrev pub entry_of : List NicDetails → Card → Option NicDetails
entry_of networks card = find (λ (n : NicDetails). str_eq card.mac_address n.mac) networks

-- The names of the networks that the cards are on.
unfoldable pub real_networks : List NicDetails → List Card → List Text
real_networks networks [] = []
real_networks networks (card ∷ cards) =
    let rest = real_networks networks cards in
    elim (entry_of networks card) [ none ↦ rest | some n ↦ n.name ∷ rest ]

unfoldable pub names_to_remove : List Text → List Text → List Text
names_to_remove real wanted = filter (λ n. not (has_name n wanted)) real

unfoldable pub names_to_add : List Text → List Text → List Text
names_to_add real wanted = filter (λ n. not (has_name n real)) wanted

-- A card without an entry is not defined, and goes too.
abbrev pub goes : List Text → Option NicDetails → Bool
goes removed none = true
goes removed (some n) = has_name n.name removed

unfoldable pub nics_for_remove : List NicDetails → List Text → List Card → List Card
nics_for_remove networks removed = filter (λ card. goes removed (entry_of networks card))

-- A change of the cards: one goes, or one of the given specification comes.
pub data NicChange (A : Type 0) : Type 0 where
  remove_nic : Card → NicChange A
  add_nic : A → NicChange A

module _ {N A : Type 0} (name_of : N → Text) (add : N → ℕ → Result A) where
  -- The loop over the new networks, with the counter for the keys of new cards.
  unfoldable pub additions : List Text → ℕ → List N → Result (List (NicChange A))
  additions added count [] = ok []
  additions added count (n ∷ ns) =
      if has_name (name_of n) added
      then and_then (add n count)
          (λ spec. and_then (additions added (count + 1) ns) (λ rest. ok (add_nic spec ∷ rest)))
      else additions added count ns

  unfoldable pub plan_changes : List NicDetails → List Card → List N → Result (List (NicChange A))
  unfolding real_networks names_to_remove names_to_add nics_for_remove additions
  plan_changes networks cards wanted =
      let real = real_networks networks cards in
      let names = map name_of wanted in
      let leaving = nics_for_remove networks (names_to_remove real names) cards in
      and_then (additions (names_to_add real names) (length cards - length leaving) wanted)
        (λ coming. ok (map remove_nic leaving ++ coming))

-- `network.get('name')` of a validated network, which is a text.
abbrev pub name_of_nic : Nic → Text
name_of_nic nic = elim (or_null (lookup "name" nic)) [ str s ↦ codes s | joined t ↦ t | _ ↦ [] ]

-- `view.networks` are the standard networks, `all_networks` those of any kind.
module _ (netmask : Value → Result Value) (view : NicView) (all_networks : List Entity)
    (links : List NetworkLink) where
  -- The network gets the name that its relationship leads to, and then a card.
  unfoldable pub new_card : Nic → ℕ → Result NicSpec
  unfolding add_network get_connected_network_name put
  new_card nic count =
      and_then
        (get_connected_network_name all_networks links (name_of_nic nic)
          (truthy (or_null (lookup "from_relationship" nic))))
        (λ name. add_network netmask view (put "name" (joined name) nic) count)

  -- From the networks in the runtime properties, the cards of the machine and the wanted networks.
  unfoldable pub device_changes :
      List NicDetails → List Card → List Nic → Result (List (NicChange NicSpec))
  unfolding plan_changes
  device_changes networks cards wanted = plan_changes name_of_nic new_card networks cards wanted
