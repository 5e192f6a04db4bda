-- ===== src/Server/Judging.antt =====
-- The loop of validate_connect_network over the items of a network, and the defaults after it.
use cloudify_vsphere_plugin.Common.{
  keys, ◌≡◌, refl, sym, ap, ◌∙◌, String, Bool, true, false, ◌&&◌, ◌||◌, not, Option, none, some, [],
  ◌∷◌, contains, IsDistinct, str_eq, eq_iff, Dict, lookup, put, remove, lookup-put, lookup-remove,
  Value, truthy, Bool-cases, inl, inr, arith, if◌then◌else◌,
}
use cloudify_vsphere_plugin.Server.Networks.{
  Nic, Kind, Charges, is_instance, is_bool, Trial, judge, judge_items, set_defaults,
}

-- Whether a value is wrong for the charge of its key.
abbrev pub is_wrong : Value → Option (Kind × Value) → Bool
is_wrong v none = true
is_wrong v (some (kind, default)) =
    not (not (truthy v) && not (is_bool kind)) && not (is_instance v kind)

abbrev pub any_wrong : Charges → Nic → Bool
any_wrong charges [] = false
any_wrong charges ((k, v) ∷ d) = is_wrong v (lookup k charges) || any_wrong charges d

lookup-remove_ne :
    {V : Type 0} (k j : String) (d : Dict V)
    → str_eq k j ≡ false
    → lookup j (remove k d) ≡ lookup j d
lookup-remove_ne k j d other = rw (lookup-remove, other) refl

any_wrong-remove :
    (k : String) (charges : Charges) (items : Nic)
    → contains k (keys items) ≡ false
    → any_wrong (remove k charges) items ≡ any_wrong charges items
any_wrong-remove k charges [] absent = refl
any_wrong-remove k charges ((j, v) ∷ items) absent =
    let rest = any_wrong-remove k charges items (ground arith) in
    let other : str_eq k j ≡ false = ground (arith, eq_iff k j, eq_iff j k) in
    rw (lookup-remove_ne k j charges other, rest) refl

abbrev pub guilty_of : Trial → Bool
guilty_of trial = trial.2

judge-guilty :
    (key : String) (value : Value) (charges : Charges) (nic : Nic) (g : Bool)
    (o : Option (Kind × Value))
    → guilty_of (judge key value charges nic g o) ≡ (g || is_wrong value o)
judge-guilty key value charges nic g none = ground arith
judge-guilty key value charges nic g (some (kind, default)) = ground arith

-- The charges that are left are those of the other keys.
judge-charges :
    (key j : String) (value : Value) (charges : Charges) (nic : Nic) (g : Bool)
    (o : Option (Kind × Value))
    → lookup key charges ≡ o
    → lookup j (judge key value charges nic g o).0
      ≡ (if str_eq key j then none else lookup j charges)
judge-charges key j value charges nic g none absent = ground (arith, eq_iff key j, absent)
judge-charges key j value charges nic g (some (kind, default)) there =
    elim (Bool-cases (not (truthy value) && not (is_bool kind))) [
      | inl fills ↦ rw fills (lookup-remove key j charges)
      | inr keeps ↦ rw keeps (lookup-remove key j charges)
    ]

-- What the loop leaves for a key, by its item, its charge and what the network had.
abbrev pub filled : Value → Option (Kind × Value) → Option Value → Option Value
filled v none old = old
filled v (some (kind, default)) old =
    if not (truthy v) && not (is_bool kind) then some default else old

judge-any_wrong :
    (key : String) (value : Value) (charges : Charges) (nic : Nic) (g : Bool)
    (o : Option (Kind × Value)) (items : Nic)
    → contains key (keys items) ≡ false
    → any_wrong (judge key value charges nic g o).0 items ≡ any_wrong charges items
judge-any_wrong key value charges nic g none items absent = refl
judge-any_wrong key value charges nic g (some (kind, default)) items absent =
    elim (Bool-cases (not (truthy value) && not (is_bool kind))) [
      | inl fills ↦ rw fills (any_wrong-remove key charges items absent)
      | inr keeps ↦ rw keeps (any_wrong-remove key charges items absent)
    ]

judge-nic :
    (key j : String) (value : Value) (charges : Charges) (nic : Nic) (g : Bool)
    (o : Option (Kind × Value))
    → lookup j (judge key value charges nic g o).1
      ≡ (if str_eq key j then filled value o (lookup j nic) else lookup j nic)
judge-nic key j value charges nic g none = ground arith
judge-nic key j value charges nic g (some (kind, default)) =
    elim (Bool-cases (not (truthy value) && not (is_bool kind))) [
      | inl fills ↦ rw fills (lookup-put key j default nic)
      | inr keeps ↦ rw keeps ground arith
    ]

pub judge_items-guilty :
    (items : Nic) (charges : Charges) (nic : Nic) (g : Bool)
    → IsDistinct (keys items)
    → guilty_of (judge_items items (charges, nic, g)) ≡ (g || any_wrong charges items)
unfolding judge_items
judge_items-guilty [] charges nic g distinct = ground arith
judge_items-guilty ((k, v) ∷ items) charges nic g (new, distinct) =
    let o = lookup k charges in
    let (charges', nic', g') = judge k v charges nic g o in
    judge_items-guilty items charges' nic' g' distinct
    ∙ ground
        (arith, judge-guilty k v charges nic g o, judge-any_wrong k v charges nic g o items new)

abbrev pub settle : Option Value → Option (Kind × Value) → Option Value → Option Value
settle none o old = old
settle (some v) o old = filled v o old

lookup-absent :
    {V : Type 0} (k : String) (d : Dict V) → contains k (keys d) ≡ false → lookup k d ≡ none
unfolding lookup
lookup-absent k [] absent = refl
lookup-absent k ((j, v) ∷ d) absent = ground (arith, lookup-absent k d)

settle-step :
    (k j : String) (v : Value) (items : Nic) (charges : Charges) (old : Option Value)
    → contains k (keys items) ≡ false
    → settle
        (lookup j items)
        (if str_eq k j then none else lookup j charges)
        (if str_eq k j then filled v (lookup k charges) old else old)
      ≡ settle (if str_eq k j then some v else lookup j items) (lookup j charges) old
settle-step k j v items charges old new = elim (Bool-cases (str_eq k j)) [
  | inl same ↦
      let e = (eq_iff k j).0 same in
      rw (same, sym (ap (λ i. lookup i items) e) ∙ lookup-absent k items new)
        (ap (λ i. filled v (lookup i charges) old) e)
  | inr other ↦ rw other refl
]

pub judge_items-nic :
    (items : Nic) (charges : Charges) (nic : Nic) (g : Bool) (j : String)
    → IsDistinct (keys items)
    → lookup j (judge_items items (charges, nic, g)).1
      ≡ settle (lookup j items) (lookup j charges) (lookup j nic)
unfolding judge_items lookup
judge_items-nic [] charges nic g j distinct = refl
judge_items-nic ((k, v) ∷ items) charges nic g j (new, distinct) =
    let o = lookup k charges in
    let (charges', nic', g') = judge k v charges nic g o in
    judge_items-nic items charges' nic' g' j distinct
    ∙ rw (judge-charges k j v charges nic g o refl, judge-nic k j v charges nic g o)
        (settle-step k j v items charges (lookup j nic) new)

pub judge_items-charges :
    (items : Nic) (charges : Charges) (nic : Nic) (g : Bool) (j : String)
    → lookup j (judge_items items (charges, nic, g)).0
      ≡ (if contains j (keys items) then none else lookup j charges)
unfolding judge_items
judge_items-charges [] charges nic g j = refl
judge_items-charges ((k, v) ∷ items) charges nic g j =
    let o = lookup k charges in
    let (charges', nic', g') = judge k v charges nic g o in
    judge_items-charges items charges' nic' g' j
    ∙ ground (arith, judge-charges k j v charges nic g o refl)

remove-absent :
    {V : Type 0} (k j : String) (d : Dict V)
    → contains j (keys d) ≡ false
    → contains j (keys (remove k d)) ≡ false
unfolding remove
remove-absent k j [] absent = refl
remove-absent k j ((i, v) ∷ d) absent = ground (arith, remove-absent k j d)

remove-IsDistinct :
    {V : Type 0} (k : String) (d : Dict V) → IsDistinct (keys d) → IsDistinct (keys (remove k d))
unfolding remove
remove-IsDistinct k [] distinct = tt
remove-IsDistinct k ((i, v) ∷ d) (new, distinct) = elim (Bool-cases (str_eq i k)) [
  | inl same ↦ rw same (remove-IsDistinct k d distinct)
  | inr other ↦ rw other (remove-absent k i d new, remove-IsDistinct k d distinct)
]

judge-IsDistinct :
    (key : String) (value : Value) (charges : Charges) (nic : Nic) (g : Bool)
    (o : Option (Kind × Value))
    → IsDistinct (keys charges)
    → IsDistinct (keys (judge key value charges nic g o).0)
judge-IsDistinct key value charges nic g none distinct = distinct
judge-IsDistinct key value charges nic g (some (kind, default)) distinct =
    elim (Bool-cases (not (truthy value) && not (is_bool kind))) [
      | inl fills ↦ rw fills (remove-IsDistinct key charges distinct)
      | inr keeps ↦ rw keeps (remove-IsDistinct key charges distinct)
    ]

pub judge_items-IsDistinct :
    (items : Nic) (charges : Charges) (nic : Nic) (g : Bool)
    → IsDistinct (keys charges)
    → IsDistinct (keys (judge_items items (charges, nic, g)).0)
unfolding judge_items
judge_items-IsDistinct [] charges nic g distinct = distinct
judge_items-IsDistinct ((k, v) ∷ items) charges nic g distinct =
    let (charges', nic', g') = judge k v charges nic g (lookup k charges) in
    judge_items-IsDistinct items charges' nic' g'
      (judge-IsDistinct k v charges nic g (lookup k charges) distinct)

abbrev pub or_default : Option (Kind × Value) → Option Value → Option Value
or_default none old = old
or_default (some (_, default)) old = some default

default-step :
    (k j : String) (kind : Kind) (d : Value) (charges : Charges) (nic : Nic)
    → contains k (keys charges) ≡ false
    → or_default (lookup j charges) (lookup j (put k d nic))
      ≡ or_default (if str_eq k j then some (kind, d) else lookup j charges) (lookup j nic)
default-step k j kind d charges nic new = elim (Bool-cases (str_eq k j)) [
  | inl same ↦
      let e = (eq_iff k j).0 same in
      rw (same, sym (ap (λ i. lookup i charges) e) ∙ lookup-absent k charges new)
        (rw (lookup-put, same) refl)
  | inr other ↦ rw (other, lookup-put, other) refl
]

pub set_defaults-lookup :
    (charges : Charges) (nic : Nic) (j : String)
    → IsDistinct (keys charges)
    → lookup j (set_defaults charges nic) ≡ or_default (lookup j charges) (lookup j nic)
unfolding set_defaults lookup
set_defaults-lookup [] nic j distinct = refl
set_defaults-lookup ((k, (kind, d)) ∷ charges) nic j (new, distinct) =
    set_defaults-lookup charges (put k d nic) j distinct ∙ default-step k j kind d charges nic new
