-- ===== src/Inventory/LookupLaws.antt =====
-- What the look-ups find.
use cloudify_vsphere_plugin.Common.{
  ◌≡◌, refl, sym, ap, ◌∙◌, String, Text, Bool, false, ◌&&◌, ◌||◌, not, Option, none, some, List, [],
  ◌∷◌, map, filter, any, contains, str_eq, eq_iff, Dict, lookup, put, lookup-put, is_some, Result,
  ok, err, is_ok, and_then, Bool-cases, inl, inr, arith, if◌then◌else◌,
}
use cloudify_vsphere_plugin.Inventory.{Entity, TreeNode}
use cloudify_vsphere_plugin.Inventory.Lookup.{
  get_vmware_hosts, host_dict, pick_hosts, get_hosts_in_tree,
}
use cloudify_vsphere_plugin.Inventory.Nics.{
  Backing, opaque_network, distributed_port, device, has_key, match_key, VmDevice, VmNetwork,
  NicDetails, network_name, describe, get_vm_networks,
}

abbrev pub entity_ids : List Entity → List String
entity_ids es = map (λ (e : Entity). e.id) es

-- Each entry stands under its own id.
abbrev OwnIds : Dict Entity → Type 0
OwnIds d = (i : String) (h : Entity) → lookup i d ≡ some h → h.id ≡ i

some-eq : {A : Type 0} {a b : A} → some a ≡ some b → a ≡ b
some-eq h = cc

put-OwnIds : (h : Entity) (d : Dict Entity) → OwnIds d → OwnIds (put h.id h d)
put-OwnIds h d own i g there = elim (Bool-cases (str_eq h.id i)) [
  | inl same ↦
      let e : some h ≡ some g = rw (lookup-put, same) at there in
      ap (λ (x : Entity). x.id) (sym (some-eq e)) ∙ (eq_iff h.id i).0 same
  | inr differs ↦ own i g (rw (lookup-put, differs) at there)
]

host_dict-OwnIds : (hs : List Entity) (d : Dict Entity) → OwnIds d → OwnIds (host_dict hs d)
unfolding host_dict
host_dict-OwnIds [] d own = own
host_dict-OwnIds (h ∷ hs) d own = host_dict-OwnIds hs (put h.id h d) (put-OwnIds h d own)

host_dict-lookup :
    (hs : List Entity) (d : Dict Entity) (i : String)
    → is_some (lookup i (host_dict hs d)) ≡ (contains i (entity_ids hs) || is_some (lookup i d))
unfolding host_dict
host_dict-lookup [] d i = refl
host_dict-lookup (h ∷ hs) d i =
    host_dict-lookup hs (put h.id h d) i ∙ elim (Bool-cases (str_eq h.id i)) [
      | inl same ↦ rw (lookup-put, same) ground arith
      | inr differs ↦ rw (lookup-put, differs) refl
    ]

pick_hosts-ids :
    (d : Dict Entity) (ids : List String)
    → OwnIds d
    → entity_ids (pick_hosts d ids) ≡ filter (λ i. is_some (lookup i d)) ids
unfolding pick_hosts
pick_hosts-ids d [] own = refl
pick_hosts-ids d (id ∷ ids) own = by_entry (lookup id d) refl (pick_hosts-ids d ids own)
  where
    by_entry :
        (o : Option Entity)
        → lookup id d ≡ o
        → entity_ids (pick_hosts d ids) ≡ filter (λ i. is_some (lookup i d)) ids
        → entity_ids (elim o [ none ↦ pick_hosts d ids | some h ↦ h ∷ pick_hosts d ids ]) ≡ (
            if is_some o
            then id ∷ filter (λ i. is_some (lookup i d)) ids
            else filter (λ i. is_some (lookup i d)) ids)
    by_entry none e rest = rest
    by_entry (some h) e rest = cc (own id h e, rest)

filter-eq :
    {A : Type 0} (p q : A → Bool) (xs : List A) → ((x : A) → p x ≡ q x) → filter p xs ≡ filter q xs
filter-eq p q [] same = refl
filter-eq p q (x ∷ xs) same = rw (same x, filter-eq p q xs same) refl

-- The hosts under a folder are those of its tree, in the order of the tree, that the cache has.
pub get_hosts_in_tree-ids :
    (hosts : List Entity) (folder : TreeNode)
    → entity_ids (get_hosts_in_tree hosts folder)
      ≡ filter (λ i. contains i (entity_ids hosts)) (get_vmware_hosts folder)
unfolding get_hosts_in_tree lookup
get_hosts_in_tree-ids hosts folder =
    pick_hosts-ids (host_dict hosts []) (get_vmware_hosts folder)
      (host_dict-OwnIds hosts [] (λ i h there. cc))
    ∙ filter-eq (λ i. is_some (lookup i (host_dict hosts []))) (λ i. contains i (entity_ids hosts))
        (get_vmware_hosts folder) (λ i. host_dict-lookup hosts [] i ∙ ground arith)

is_some-match_key :
    (key : String) (name : Option Text) (ns : List VmNetwork)
    → is_some (match_key key name ns) ≡ (is_some name || any (λ n. has_key key n.key) ns)
unfolding match_key
is_some-match_key key name [] = ground arith
is_some-match_key key name (n ∷ ns) = elim (Bool-cases (has_key key n.key)) [
  | inl good ↦ rw good (is_some-match_key key (some n.name) ns ∙ ground arith)
  | inr bad ↦ rw bad (is_some-match_key key name ns)
]

-- An interface on a distributed port whose group is none of the machine's networks.
abbrev pub unmatched : List VmNetwork → Backing → Bool
unmatched networks (distributed_port key) = not (any (λ n. has_key key n.key) networks)
unmatched networks _ = false

abbrev pub is_unmatched_nic : List VmNetwork → VmDevice → Bool
is_unmatched_nic networks d = is_some d.mac_address && unmatched networks d.backing

abbrev pub macs : List VmDevice → List String
macs [] = []
macs (d ∷ ds) = elim d.mac_address [ none ↦ macs ds | some mac ↦ mac ∷ macs ds ]

abbrev nic_macs : List NicDetails → List String
nic_macs nics = map (λ (n : NicDetails). n.mac) nics

is_some-network_name :
    (networks : List VmNetwork) (b : Backing)
    → is_some (network_name networks b) ≡ not (unmatched networks b)
unfolding network_name
is_some-network_name networks (opaque_network id) = refl
is_some-network_name networks (distributed_port key) =
    is_some-match_key key none networks ∙ ground arith
is_some-network_name networks (device name) = refl

ok-eq : {A : Type 0} {a b : A} → ok a ≡ ok b → a ≡ b
ok-eq h = cc

abbrev Listed : List VmNetwork → List VmDevice → Result (List NicDetails) → Type 0
Listed networks ds r =
    (is_ok r ≡ not (any (is_unmatched_nic networks) ds))
    × ((nics : List NicDetails) → r ≡ ok nics → nic_macs nics ≡ macs ds)

Listed-nic :
    (networks : List VmNetwork) (d : VmDevice) (ds : List VmDevice)
    (rest : Result (List NicDetails)) (mac : String) (o : Option Text)
    → is_some o ≡ not (unmatched networks d.backing)
    → Listed networks ds rest
    → Listed networks
        (record d { mac_address = some mac } ∷ ds)
        (and_then (describe mac d.backing o) (λ nic. and_then rest (λ nics. ok (nic ∷ nics))))
Listed-nic networks d ds rest mac none named (decides, lists) = (ground arith, λ nics h. cc)
Listed-nic networks d ds (err e) mac (some name) named (decides, lists) =
    (ground arith, λ nics h. cc)
Listed-nic networks d ds (ok nics) mac (some name) named (decides, lists) =
    (ground arith, λ nics' h. ap nic_macs (sym (ok-eq h)) ∙ ap (λ l. mac ∷ l) (lists nics refl))

Listed-device :
    (networks : List VmNetwork) (m : Option String) (b : Backing) (ds : List VmDevice)
    → Listed networks ds (get_vm_networks networks ds)
    → let d : VmDevice = record { mac_address = m; backing = b } in
      Listed networks (d ∷ ds) (get_vm_networks networks (d ∷ ds))
unfolding get_vm_networks
Listed-device networks none b ds rest = rest
Listed-device networks (some mac) b ds rest =
    Listed-nic networks (record { mac_address = none; backing = b }) ds
      (get_vm_networks networks ds) mac (network_name networks b) (is_some-network_name networks b)
      rest

-- The networks of a machine are listed if and only if the group of each interface on a distributed
-- port is among the networks of the machine, and then with one entry for each interface, in order.
get_vm_networks_lists :
    (networks : List VmNetwork) (ds : List VmDevice)
    → (is_ok (get_vm_networks networks ds) ≡ not (any (is_unmatched_nic networks) ds))
      × ((nics : List NicDetails) → get_vm_networks networks ds ≡ ok nics → nic_macs nics ≡ macs ds)
unfolding get_vm_networks
get_vm_networks_lists networks [] = (refl, λ nics h. ap nic_macs (sym (ok-eq h)))
get_vm_networks_lists networks (d ∷ ds) =
    Listed-device networks d.mac_address d.backing ds (get_vm_networks_lists networks ds)
