-- ===== src/Server/Validation.antt =====
-- What validate_connect_network accepts and what it fills in.
use cloudify_vsphere_plugin.Common.{
  keys, ◌≡◌, refl, sym, ap, ◌∙◌, String, Bool, true, false, ◌&&◌, ◌||◌, not, Option, none, some, [],
  ◌∷◌, contains, IsDistinct, str_eq, eq_iff, Dict, lookup, remove, is_some, Value, null, flag, int,
  str, joined, arr, obj, truthy, ok, is_ok, Bool-cases, inl, inr, ◌⊎◌, arith, if◌then◌else◌,
}
use cloudify_vsphere_plugin.Server.Networks.{
  Nic, Kind, Charges, network_validations, is_instance, is_bool, Trial, judge_items, set_defaults,
  clashing, unnamed, first_charges, verdict, validate_connect_network,
}
use cloudify_vsphere_plugin.Server.Judging.{
  is_wrong, any_wrong, guilty_of, settle, or_default, judge_items-guilty, judge_items-nic,
  judge_items-charges, judge_items-IsDistinct, set_defaults-lookup,
}

abbrev pub is_valid : Nic → Bool
is_valid nic = not (clashing nic) && not (unnamed nic) && not (any_wrong network_validations nic)

verdict-ok : (t : Trial) → is_ok (verdict t) ≡ not (guilty_of t)
verdict-ok (charges, nic, true) = refl
verdict-ok (charges, nic, false) = refl

refuses : (a b c : Bool) → not ((a || true) || b) ≡ (not a && false && not c)
refuses a b c = ground arith

weighs : (a b : Bool) → not ((a || false) || b) ≡ (not a && true && not b)
weighs a b = ground arith

-- A network is accepted if and only if it has a name, is not both distributed and of NSX-T, and each
-- of its keys is a known one whose value is of the kind of the key or, for a text, is empty.
pub validate_connect_network-decides :
    (nic : Nic) → IsDistinct (keys nic) → is_ok (validate_connect_network nic) ≡ is_valid nic
unfolding validate_connect_network
validate_connect_network-decides nic distinct =
    verdict-ok (judge_items nic (first_charges nic, nic, clashing nic || unnamed nic))
    ∙ ap not (judge_items-guilty nic (first_charges nic) nic (clashing nic || unnamed nic) distinct)
    ∙ by_name (Bool-cases (unnamed nic))
  where
    by_name :
        (unnamed nic ≡ true) ⊎ (unnamed nic ≡ false)
        → not ((clashing nic || unnamed nic) || any_wrong (first_charges nic) nic) ≡ is_valid nic
    by_name (inl no_name) = rw no_name (refuses (clashing nic) _ _)
    by_name (inr named) = rw named (weighs (clashing nic) _)

-- What the result has for a key, by its charge and what was given.
abbrev pub expected : Option (Kind × Value) → Option Value → Option Value
expected none given = given
expected (some (kind, default)) none = some default
expected (some (kind, default)) (some v) =
    if not (truthy v) && not (is_bool kind) then some default else some v

is_some-lookup : {V : Type 0} (k : String) (d : Dict V) → is_some (lookup k d) ≡ contains k (keys d)
unfolding lookup
is_some-lookup k [] = refl
is_some-lookup k ((j, v) ∷ d) = ground (arith, is_some-lookup k d)

finish-expected :
    (given : Option Value) (o : Option (Kind × Value))
    → or_default (if is_some given then none else o) (settle given o given) ≡ expected o given
finish-expected none none = refl
finish-expected none (some (kind, default)) = refl
finish-expected (some v) none = refl
finish-expected (some v) (some (kind, default)) = refl

ok-inj : {A : Type 0} {a b : A} → ok a ≡ ok b → a ≡ b
ok-inj h = cc

judged-lookup :
    (nic nic' : Nic) (charges : Charges) (j : String) (g : Bool)
    → IsDistinct (keys nic)
    → IsDistinct (keys charges)
    → verdict (judge_items nic (charges, nic, g)) ≡ ok nic'
    → lookup j nic' ≡ expected (lookup j charges) (lookup j nic)
judged-lookup nic nic' charges j g distinct distinct' accepted =
    let t = judge_items nic (charges, nic, g) in
    ap (lookup j) (sym (of_verdict t accepted))
    ∙ set_defaults-lookup t.0 t.1 j (judge_items-IsDistinct nic charges nic g distinct')
    ∙ rw
        (
          judge_items-charges nic charges nic g j,
          judge_items-nic nic charges nic g j distinct,
          sym (is_some-lookup j nic),
        )
        (finish-expected (lookup j nic) (lookup j charges))
  where
    of_verdict : (t : Trial) → verdict t ≡ ok nic' → set_defaults t.0 t.1 ≡ nic'
    of_verdict (c, n, true) h = cc
    of_verdict (c, n, false) h = ok-inj h

valid_of_ok :
    (nic nic' : Nic)
    → IsDistinct (keys nic)
    → validate_connect_network nic ≡ ok nic'
    → is_valid nic ≡ true
valid_of_ok nic nic' distinct accepted =
    sym (validate_connect_network-decides nic distinct) ∙ ap is_ok accepted

module _ (nic nic' : Nic) (distinct : IsDistinct (keys nic))
    (accepted : validate_connect_network nic ≡ ok nic') where
  named : unnamed nic ≡ false
  named = let valid = valid_of_ok nic nic' distinct accepted in ground arith

  -- In an accepted network a key has the value that was given, or its default if it was not given or
  -- is an empty text.
  pub validate_connect_network-lookup :
      (j : String) → lookup j nic' ≡ expected (lookup j network_validations) (lookup j nic)
  unfolding validate_connect_network
  validate_connect_network-lookup j =
      judged-lookup nic nic' network_validations j (clashing nic || unnamed nic) distinct
        charges_distinct
        (ap (λ c. verdict (judge_items nic (c, nic, clashing nic || unnamed nic))) (sym charges)
          ∙ accepted)
    where
      charges : first_charges nic ≡ network_validations
      charges = ap (λ b. if b then remove "name" network_validations else network_validations) named

      charges_distinct : IsDistinct (keys network_validations)
      charges_distinct =
          (refl, (refl, (refl, (refl, (refl, (refl, (refl, (refl, (refl, (refl, tt))))))))))

-- Whether a value is as its charge wants it; a text may be `None`.
abbrev pub fits : Option (Kind × Value) → Option Value → Bool
fits none none = true
fits none (some _) = false
fits (some _) none = false
fits (some (kind, _)) (some null) = not (is_bool kind)
fits (some (kind, _)) (some v) = is_instance v kind

abbrev default_of : Option (Kind × Value) → Option Value
default_of none = none
default_of (some (_, d)) = some d

abbrev all_fit : Charges → Bool
all_fit [] = true
all_fit ((k, (kind, d)) ∷ charges) = fits (some (kind, d)) (some d) && all_fit charges

default_fits :
    (charges : Charges) (j : String) {kind : Kind} {d : Value}
    → all_fit charges ≡ true
    → lookup j charges ≡ some (kind, d)
    → fits (some (kind, d)) (some d) ≡ true
unfolding lookup
default_fits [] j good there = cc
default_fits ((k, (kind', d')) ∷ charges) j {kind = kind} {d = d} good there =
    elim (Bool-cases (str_eq k j)) [
      | inl same ↦
          let e : some (kind', d') ≡ some (kind, d) = rw same at there in
          ap (λ o. fits o (default_of o)) (sym e) ∙ ground arith
      | inr other ↦ default_fits charges j (ground arith) (rw other at there)
    ]

some-inj : {A : Type 0} {a b : A} → some a ≡ some b → a ≡ b
some-inj h = cc

given_fits :
    (charges : Charges) (nic : Nic) (j : String) {v : Value}
    → any_wrong charges nic ≡ false
    → lookup j nic ≡ some v
    → is_wrong v (lookup j charges) ≡ false
unfolding lookup
given_fits charges [] j good there = cc
given_fits charges ((k, u) ∷ nic) j {v} good there = elim (Bool-cases (str_eq k j)) [
  | inl same ↦
      let e : some u ≡ some v = rw same at there in
      ap (λ w. is_wrong w (lookup j charges)) (sym (some-inj e))
      ∙ ap (λ i. is_wrong u (lookup i charges)) (sym ((eq_iff k j).0 same))
      ∙ ground arith
  | inr other ↦ given_fits charges nic j (ground arith) (rw other at there)
]

fits_instance :
    (v : Value) (kind : Kind) (d : Value)
    → is_instance v kind ≡ true
    → fits (some (kind, d)) (some v) ≡ true
fits_instance null kind d h = cc
fits_instance (flag b) kind d h = h
fits_instance (int n) kind d h = h
fits_instance (str s) kind d h = h
fits_instance (joined t) kind d h = h
fits_instance (arr xs) kind d h = h
fits_instance (obj o) kind d h = h

fits-expected :
    (o : Option (Kind × Value)) (given : Option Value)
    → ((kind : Kind) (d : Value) → o ≡ some (kind, d) → fits (some (kind, d)) (some d) ≡ true)
    → ((v : Value) → given ≡ some v → is_wrong v o ≡ false)
    → fits o (expected o given) ≡ true
fits-expected none none dfl good = refl
fits-expected none (some v) dfl good = sym (good v refl)
fits-expected (some (kind, d)) none dfl good = dfl kind d refl
fits-expected (some (kind, d)) (some v) dfl good =
    elim (Bool-cases (not (truthy v) && not (is_bool kind))) [
      | inl fills ↦ rw fills (dfl kind d refl)
      | inr keeps ↦ rw keeps (fits_instance v kind d (let right = good v refl in ground arith))
    ]

-- An accepted network has all keys that networks have and no other, each with a value of its kind or,
-- for a text, `None`.
pub validate_connect_network-fits :
    (nic nic' : Nic)
    → IsDistinct (keys nic)
    → validate_connect_network nic ≡ ok nic'
    → (j : String) → fits (lookup j network_validations) (lookup j nic') ≡ true
validate_connect_network-fits nic nic' distinct accepted j =
    ap (fits (lookup j network_validations))
      (validate_connect_network-lookup nic nic' distinct accepted j)
    ∙ fits-expected (lookup j network_validations) (lookup j nic)
        (λ kind d there. default_fits network_validations j refl there)
        (λ v there. given_fits network_validations nic j right there)
  where
    right : any_wrong network_validations nic ≡ false
    right = let valid = valid_of_ok nic nic' distinct accepted in ground arith
