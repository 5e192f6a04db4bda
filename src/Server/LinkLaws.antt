-- ===== src/Server/LinkLaws.antt =====
-- What get_connected_networks makes of the relationships to nics.
use cloudify_vsphere_plugin.Common.{
  suc, ◌+◌, ◌≡◌, refl, sym, ap, ◌∙◌, Option, none, some, List, [], ◌∷◌, ◌++◌, length, length-append,
  lookup, put, Value, Items, str, arr, Result, ok, err, Error, key_error, dict_laws, and_then,
  and_then-eq-ok, arith,
}
use cloudify_vsphere_plugin.Runtime.{World}
use cloudify_vsphere_plugin.Network.PortGroups.{snoc}
use cloudify_vsphere_plugin.Server.{VmCall}
use cloudify_vsphere_plugin.Server.Networks.{
  Nic, NicLink, connected_nics, link_network, merge_nics, merge_nic, add_links,
}

back : {A : Type 0} {a b : A} → ok a ≡ ok b → b ≡ a
back h = cc

-- The ids at the end of a list of names.
abbrev pub with_ids : Items → List NicLink → Items
with_ids xs [] = xs
with_ids xs (l ∷ ls) = with_ids (snoc xs (str l.id)) ls

merge_nics-named :
    (connect nic : Nic) (nics : List Nic) (o : Option Value)
    → lookup "name" nic ≡ o
    → merge_nics connect (nic ∷ nics) ≡ elim o [
      | none ↦ err (key_error "name")
      | some name ↦
          and_then (merge_nics connect nics) (λ merged. ok (merge_nic connect nic name ∷ merged))
    ]
unfolding merge_nics
merge_nics-named connect nic nics none e = ground arith
merge_nics-named connect nic nics (some name) e = ground arith

length-merge_nics :
    (connect : Nic) (nics merged : List Nic)
    → merge_nics connect nics ≡ ok merged
    → length merged ≡ length nics
unfolding merge_nics
length-merge_nics connect [] merged h = ap length (back h)
length-merge_nics connect (nic ∷ nics) merged h =
    by_name (length-merge_nics connect nics) (lookup "name" nic)
      (sym (merge_nics-named connect nic nics (lookup "name" nic) refl) ∙ h)
  where
    by_name :
        ((rest : List Nic) → merge_nics connect nics ≡ ok rest → length rest ≡ length nics)
        → (o : Option Value)
        → elim o [
          | none ↦ err (key_error "name")
          | some name ↦
              and_then (merge_nics connect nics) (λ ms. ok (merge_nic connect nic name ∷ ms))
        ]
          ≡ ok merged
        → length merged ≡ suc (length nics)
    by_name shorter none e = cc
    by_name shorter (some name) e =
        let (rest, good, same) = and_then-eq-ok (merge_nics connect nics) _ e in
        ap length (back same) ∙ ap suc (shorter rest good)

-- The world after a link was taken up.
abbrev linked : Items → NicLink → World VmCall → World VmCall
linked xs l w = record w { props = put connected_nics (arr (snoc xs (str l.id))) w.props }

add_links-step :
    (l : NicLink) (ls : List NicLink) (nics merged : List Nic) (w : World VmCall) (xs : Items)
    (c : Nic)
    → link_network l ≡ ok c
    → merge_nics c nics ≡ ok merged
    → lookup connected_nics w.props ≡ some (arr xs)
    → add_links (l ∷ ls) nics w ≡ add_links ls (merged ++ c ∷ []) (linked xs l w)
unfolding add_links
add_links-step l ls nics merged w xs c link merge there = ground arith

add_links-unlinked :
    (l : NicLink) (ls : List NicLink) (nics : List Nic) (w : World VmCall) (e : Error)
    → link_network l ≡ err e
    → add_links (l ∷ ls) nics w ≡ (err e, w)
unfolding add_links
add_links-unlinked l ls nics w e link = ground arith

add_links-unmerged :
    (l : NicLink) (ls : List NicLink) (nics : List Nic) (w : World VmCall) (c : Nic) (e : Error)
    → link_network l ≡ ok c
    → merge_nics c nics ≡ err e
    → add_links (l ∷ ls) nics w ≡ (err e, w)
unfolding add_links
add_links-unmerged l ls nics w c e link merge = ground arith

add_links-split :
    (l : NicLink) (ls : List NicLink) (nics : List Nic) (w : World VmCall) (xs : Items)
    (out : List Nic) (w' : World VmCall)
    → lookup connected_nics w.props ≡ some (arr xs)
    → add_links (l ∷ ls) nics w ≡ (ok out, w')
    → (c : Nic) × (merged : List Nic) × (merge_nics c nics ≡ ok merged)
      × (add_links ls (merged ++ c ∷ []) (linked xs l w) ≡ (ok out, w'))
add_links-split l ls nics w xs out w' there h = linked_by (link_network l) refl
  where
    Split : Type 0
    Split =
        (c : Nic) × (merged : List Nic) × (merge_nics c nics ≡ ok merged)
        × (add_links ls (merged ++ c ∷ []) (linked xs l w) ≡ (ok out, w'))

    merged_by :
        (c : Nic) (r : Result (List Nic)) → link_network l ≡ ok c → merge_nics c nics ≡ r → Split
    merged_by c (err e) link merge = cc (add_links-unmerged l ls nics w c e link merge, h)
    merged_by c (ok merged) link merge =
        (c, merged, merge, sym (add_links-step l ls nics merged w xs c link merge there) ∙ h)

    linked_by : (r : Result Nic) → link_network l ≡ r → Split
    linked_by (err e) link = cc (add_links-unlinked l ls nics w e link, h)
    linked_by (ok c) link = merged_by c (merge_nics c nics) link refl

-- A run over the links that succeeds adds one entry for each of them, also where an entry of its name
-- was there and took its values; it records their ids in turn and sends nothing.
pub add_links_adds :
    (links : List NicLink) (nics : List Nic) (w : World VmCall) (xs : Items) (out : List Nic)
    (w' : World VmCall)
    → lookup connected_nics w.props ≡ some (arr xs)
    → add_links links nics w ≡ (ok out, w')
    → (length out ≡ length nics + length links)
      × (lookup connected_nics w'.props ≡ some (arr (with_ids xs links)))
      × (w'.calls ≡ w.calls)
unfolding add_links
add_links_adds [] nics w xs out w' there h = (
  ap length (back (ap (λ p. p.0) h)) ∙ omega arith,
  ap (λ p. lookup connected_nics p.1.props) (sym h) ∙ there,
  ap (λ p. p.1.calls) (sym h),
)
add_links_adds (l ∷ ls) nics w xs out w' there h =
    let (c, merged, merge, rest) = add_links-split l ls nics w xs out w' there h in
    let (more, ids, quiet) =
      add_links_adds ls (merged ++ c ∷ []) (linked xs l w) (snoc xs (str l.id)) out w'
        (simp dict_laws) rest in
    (
      omega (arith, more, length-append merged (c ∷ []), length-merge_nics c nics merged merge),
      ids,
      quiet,
    )
