-- ===== src/Inventory/Lookup.antt =====
-- The look-ups of VsphereClient: by name, by id, by place and by relationship.
use cloudify_vsphere_plugin.Common.{
  String, Text, lower, unquote, text_eq, Bool, true, false, ◌&&◌, Option, none, some, List, [], ◌∷◌,
  ◌++◌, find, str_eq, Dict, lookup, put, Value, null, str, arr, no_items, item, Result, ok, err,
  non_recoverable, index_error, and_then,
}
use cloudify_vsphere_plugin.Inventory.{
  Place, datacenter, within, detached, Entity, TreeNode, TreeNodes, with_hosts, with_children,
  other, no_nodes, node, NetworkLink,
}

-- The loop goes from parent to parent.
unfoldable pub get_entity_datacenter : Place → Option Text
get_entity_datacenter (datacenter name) = some name
get_entity_datacenter (within place) = get_entity_datacenter place
get_entity_datacenter detached = none

abbrev is_in : Text → Option Text → Bool
is_in wanted none = false
is_in wanted (some name) = text_eq name wanted

-- `if datacenter_name:` holds for a name that is not empty.
abbrev pub in_datacenter : Option Text → Entity → Bool
in_datacenter none e = true
in_datacenter (some []) e = true
in_datacenter (some (c ∷ name)) e = is_in (c ∷ name) (get_entity_datacenter e.place)

-- The test of the loop, in the order of the code.
abbrev pub is_wanted : Text → Option Text → Entity → Bool
is_wanted name datacenter_name e =
    text_eq (lower (unquote name)) (lower e.name) && in_datacenter datacenter_name e

unfoldable pub get_obj_by_name : List Entity → Text → Option Text → Option Entity
get_obj_by_name entities name datacenter_name = find (is_wanted name datacenter_name) entities

unfoldable pub get_obj_by_id : List Entity → Value → Option Entity
get_obj_by_id entities (str id) = find (λ e. str_eq e.id id) entities
get_obj_by_id entities _ = none

unfoldable mutual
  pub get_vmware_hosts : TreeNode → List String
  get_vmware_hosts (with_hosts ids) = ids
  get_vmware_hosts (with_children nodes) = get_all_hosts nodes
  get_vmware_hosts other = []

  pub get_all_hosts : TreeNodes → List String
  get_all_hosts no_nodes = []
  get_all_hosts (node n ns) = get_vmware_hosts n ++ get_all_hosts ns

-- The hosts of the cache by their ids; of two with one id the later one counts.
unfoldable pub host_dict : List Entity → Dict Entity → Dict Entity
host_dict [] d = d
host_dict (h ∷ hs) d = host_dict hs (put h.id h d)

unfoldable pub pick_hosts : Dict Entity → List String → List Entity
pick_hosts d [] = []
pick_hosts d (id ∷ ids) =
    let rest = pick_hosts d ids in elim (lookup id d) [ none ↦ rest | some h ↦ h ∷ rest ]

unfoldable pub get_hosts_in_tree : List Entity → TreeNode → List Entity
unfolding get_vmware_hosts host_dict pick_hosts
get_hosts_in_tree hosts host_folder = pick_hosts (host_dict hosts []) (get_vmware_hosts host_folder)

-- Standard port groups have several ids, of which the first gives the name.
abbrev pub first_id : Value → Result Value
first_id (arr no_items) = err index_error
first_id (arr (item v _)) = ok v
first_id v = ok v

abbrev pub name_of_network : Option Entity → Result Text
name_of_network none = err (non_recoverable "Could not get network given network ID: {id}")
name_of_network (some net) = ok net.name

abbrev pub network_of_link : List Entity → Option NetworkLink → Result Text
network_of_link networks none = err (
    non_recoverable
      "Could not find any relationships to a node called \"{name}\", so {prop} could not be retrieved.")
network_of_link networks (some link) = elim link.network_id [
  | null ↦ err (
      non_recoverable
        "Could not get a {prop} runtime property from relationship to a node called \"{name}\".")
  | v ↦ and_then (first_id v) (λ id. name_of_network (get_obj_by_id networks id))
]

-- The name of a network that is to be connected: its own, or that of the network that the node of
-- that name on a relationship stands for.
unfoldable pub get_connected_network_name :
    List Entity → List NetworkLink → Text → Bool → Result Text
unfolding get_obj_by_id
get_connected_network_name networks links name true =
    network_of_link networks (find (λ l. text_eq l.target_name name) links)
get_connected_network_name networks links name false = ok name
