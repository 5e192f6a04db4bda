-- ===== src/Helpers/Related.antt =====
-- find_rels_by_type and find_instances_by_type_from_rels.
use cloudify_vsphere_plugin.Common.{
  ◌≡◌, refl, ◌∙◌, String, Bool, false, ◌&&◌, ◌||◌, List, [], ◌∷◌, ◌++◌, map, filter, any, contains,
  contains-append, IsDistinct, append-IsDistinct, str_eq, eq_iff, Bool-cases, inl, inr, arith,
  if◌then◌else◌,
}

-- A relationship: its types, the types of the target's node, and the id of the target's instance.
pub record Relationship : Type 0 where
  pub type_hierarchy : List String
  pub target_types : List String
  pub target_instance : String

-- The argument `node_types`.
pub data NodeTypes : Type 0 where
  one_type : String → NodeTypes
  many_types : List String → NodeTypes

unfoldable pub find_rels_by_type : List Relationship → String → List Relationship
find_rels_by_type rels rel_type = filter (λ r. contains rel_type r.type_hierarchy) rels

-- `_find_instances_by_type_from_rels`
unfoldable pub instances_of_type : List Relationship → String → String → List String
instances_of_type rels rel_type node_type =
    map (λ (r : Relationship). r.target_instance)
      (filter (λ r. contains node_type r.target_types) (find_rels_by_type rels rel_type))

-- `if instance not in results: results.append(instance)` for each instance
unfoldable pub append_new : List String → List String → List String
append_new results [] = results
append_new results (i ∷ is') =
    append_new (if contains i results then results else results ++ i ∷ []) is'

unfoldable pub append_each : List Relationship → String → List String → List String → List String
append_each rels rel_type results [] = results
append_each rels rel_type results (t ∷ ts) =
    append_each rels rel_type (append_new results (instances_of_type rels rel_type t)) ts

unfoldable pub find_instances_by_type_from_rels :
    List Relationship → String → NodeTypes → List String
find_instances_by_type_from_rels rels rel_type (one_type t) = instances_of_type rels rel_type t
find_instances_by_type_from_rels rels rel_type (many_types ts) = append_each rels rel_type [] ts

contains-append_new :
    (n : String) (rs is' : List String)
    → contains n (append_new rs is') ≡ (contains n rs || contains n is')
unfolding append_new
contains-append_new n rs [] = ground arith
contains-append_new n rs (i ∷ is') = elim (Bool-cases (contains i rs)) [
  | inl old ↦ rw old (contains-append_new n rs is' ∙ ground (arith, eq_iff i n, old))
  | inr new ↦
      rw new
        (contains-append_new n (rs ++ i ∷ []) is' ∙ ground (arith, contains-append n rs (i ∷ [])))
]

append_new-IsDistinct : (rs is' : List String) → IsDistinct rs → IsDistinct (append_new rs is')
unfolding append_new
append_new-IsDistinct rs [] h = h
append_new-IsDistinct rs (i ∷ is') h = elim (Bool-cases (contains i rs)) [
  | inl old ↦ rw old (append_new-IsDistinct rs is' h)
  | inr new ↦ rw new (append_new-IsDistinct (rs ++ i ∷ []) is' (append-IsDistinct rs i h new))
]

append_each-IsDistinct :
    (rels : List Relationship) (rel_type : String) (rs ts : List String)
    → IsDistinct rs
    → IsDistinct (append_each rels rel_type rs ts)
unfolding append_each
append_each-IsDistinct rels rel_type rs [] h = h
append_each-IsDistinct rels rel_type rs (t ∷ ts) h =
    append_each-IsDistinct rels rel_type (append_new rs (instances_of_type rels rel_type t)) ts
      (append_new-IsDistinct rs (instances_of_type rels rel_type t) h)

abbrev pub type_list : NodeTypes → List String
type_list (one_type t) = t ∷ []
type_list (many_types ts) = ts

-- The relationship is of the type and leads to that instance, of a node of one of the types.
abbrev pub leads_to : String → List String → String → Relationship → Bool
leads_to rel_type ts i r =
    contains rel_type r.type_hierarchy
    && any (λ t. contains t r.target_types) ts
    && str_eq r.target_instance i

contains-instances_of_type :
    (rels : List Relationship) (rel_type t i : String)
    → contains i (instances_of_type rels rel_type t) ≡ any (leads_to rel_type (t ∷ []) i) rels
unfolding instances_of_type find_rels_by_type
contains-instances_of_type [] rel_type t i = refl
contains-instances_of_type (r ∷ rs) rel_type t i =
    ground (arith, contains-instances_of_type rs rel_type t i)

any-leads_to :
    (rels : List Relationship) (rel_type t : String) (ts : List String) (i : String)
    → (any (leads_to rel_type (t ∷ []) i) rels || any (leads_to rel_type ts i) rels)
      ≡ any (leads_to rel_type (t ∷ ts) i) rels
any-leads_to [] rel_type t ts i = refl
any-leads_to (r ∷ rs) rel_type t ts i = ground (arith, any-leads_to rs rel_type t ts i)

leads_to-none :
    (rels : List Relationship) (rel_type i : String) → any (leads_to rel_type [] i) rels ≡ false
leads_to-none [] rel_type i = refl
leads_to-none (r ∷ rs) rel_type i = ground (arith, leads_to-none rs rel_type i)

contains-append_each :
    (rels : List Relationship) (rel_type : String) (rs ts : List String) (i : String)
    → contains i (append_each rels rel_type rs ts)
      ≡ (contains i rs || any (leads_to rel_type ts i) rels)
unfolding append_each
contains-append_each rels rel_type rs [] i = ground (arith, leads_to-none rels rel_type i)
contains-append_each rels rel_type rs (t ∷ ts) i =
    contains-append_each rels rel_type (append_new rs (instances_of_type rels rel_type t)) ts i
    ∙ ground (
      arith,
      contains-append_new i rs (instances_of_type rels rel_type t),
      contains-instances_of_type rels rel_type t i,
      any-leads_to rels rel_type t ts i,
    )

-- The instances that are found are those that a relationship of the type leads to whose node has one
-- of the types, and a search for a list of types gives no instance twice.
pub find_instances_sound :
    (rels : List Relationship) (rel_type : String) (types : NodeTypes) (i : String)
    → (contains i (find_instances_by_type_from_rels rels rel_type types)
        ≡ any (leads_to rel_type (type_list types) i) rels)
      × IsDistinct (find_instances_by_type_from_rels rels rel_type (many_types (type_list types)))
unfolding find_instances_by_type_from_rels
find_instances_sound rels rel_type (one_type t) i = (
  contains-instances_of_type rels rel_type t i,
  append_each-IsDistinct rels rel_type [] (t ∷ []) tt,
)
find_instances_sound rels rel_type (many_types ts) i =
    (contains-append_each rels rel_type [] ts i, append_each-IsDistinct rels rel_type [] ts tt)
