-- ===== src/Server/NetworkLaws.antt =====
-- The list of networks that handle_networks gives, and the links that it has taken up.
use cloudify_vsphere_plugin.Common.{
  keys, suc, ◌≤◌, ◌≡◌, refl, sym, ap, ◌∙◌, String, Bool, true, false, ◌&&◌, not, Option, none, some,
  List, [], ◌∷◌, ◌++◌, filter, length, All, ltb, IsDistinct, append-nil, append_assoc, lookup,
  Value, null, flag, truthy, or_null, Result, ok, and_then, and_then-eq-ok, Bool-cases, inl, inr,
  arith, if◌then◌else◌,
}
use cloudify_vsphere_plugin.Server.Networks.{
  Nic, bool_kind, get_or, network_validations, validate_connect_network, reorder, is_marked,
  check_networks,
}
use cloudify_vsphere_plugin.Server.Validation.{expected, validate_connect_network-lookup}

-- Each network of the list, validated.
abbrev pub validate_all : List Nic → Result (List Nic)
validate_all [] = ok []
validate_all (n ∷ ns) =
    and_then (validate_connect_network n) (λ v. and_then (validate_all ns) (λ vs. ok (v ∷ vs)))

abbrev pub is_external : Nic → Bool
is_external nic = truthy (get_or "external" null nic)

abbrev onto : List Nic → List Nic → List Nic
onto [] acc = acc
onto (v ∷ vs) acc = onto vs (if is_external v then v ∷ acc else acc ++ v ∷ [])

back : {A : Type 0} {a b : A} → ok a ≡ ok b → b ≡ a
back h = cc

reorder-onto :
    (ns acc out : List Nic)
    → reorder ns acc ≡ ok out
    → (vs : List Nic) × (validate_all ns ≡ ok vs) × (out ≡ onto vs acc)
unfolding reorder
reorder-onto [] acc out h = ([], refl, back h)
reorder-onto (n ∷ ns) acc out h =
    let (v, valid, rest) = and_then-eq-ok (validate_connect_network n) _ h in
    let (vs, all, same) =
      reorder-onto ns (if is_external v then v ∷ acc else acc ++ v ∷ []) out rest in
    (v ∷ vs, rw (valid, all) refl, same)

abbrev pub others : List Nic → List Nic
others vs = filter (λ v. not (is_external v)) vs

onto-others :
    (vs acc : List Nic) → length (filter is_external vs) ≤ 0 → onto vs acc ≡ acc ++ others vs
onto-others [] acc few = sym (append-nil acc)
onto-others (v ∷ vs) acc few = elim (Bool-cases (is_external v)) [
  | inl first ↦
      let more : suc (length (filter is_external vs)) ≤ 0 = rw first at few in
      absurd (omega (arith, more))
  | inr other ↦
      rw other
        (onto-others vs (acc ++ v ∷ []) (rw other at few) ∙ append_assoc acc (v ∷ []) (others vs))
]

-- With at most one external network among them, it is the first and the others keep their order.
onto-one :
    (vs acc : List Nic)
    → length (filter is_external vs) ≤ 1
    → onto vs acc ≡ filter is_external vs ++ acc ++ others vs
onto-one [] acc few = sym (append-nil acc)
onto-one (v ∷ vs) acc few = elim (Bool-cases (is_external v)) [
  | inl first ↦
      let more : suc (length (filter is_external vs)) ≤ 1 = rw first at few in
      let alone : length (filter is_external vs) ≤ 0 = omega (arith, more) in
      rw first (
        onto-others vs (v ∷ acc) alone
        ∙ ap (λ l. v ∷ l ++ acc ++ others vs) (sym (no_more (filter is_external vs) alone)))
  | inr other ↦ rw other (
      onto-one vs (acc ++ v ∷ []) (rw other at few)
      ∙ ap (λ l. l ++ others vs) (sym (append_assoc (filter is_external vs) acc (v ∷ [])))
      ∙ append_assoc (filter is_external vs ++ acc) (v ∷ []) (others vs))
]
  where
    no_more : (xs : List Nic) → length xs ≤ 0 → xs ≡ []
    no_more [] h = refl
    no_more (x ∷ xs) h = absurd (omega (arith, h))

-- Validation does not change whether a network is external or for management.
kept :
    (b : Bool) (u : Value)
    → truthy (or_null (if not b && false then some (flag false) else some u)) ≡ truthy u
kept true u = refl
kept false u = refl

marked-valid :
    (key : String) (n v : Nic)
    → lookup key network_validations ≡ some (bool_kind, flag false)
    → IsDistinct (keys n)
    → validate_connect_network n ≡ ok v
    → truthy (get_or key null v) ≡ is_marked key n
marked-valid key n v charge distinct valid = same (lookup key n) (lookup key v) (
    validate_connect_network-lookup n v distinct valid key
    ∙ ap (λ o. expected o (lookup key n)) charge)
  where
    same :
        (given there : Option Value)
        → there ≡ expected (some (bool_kind, flag false)) given
        → truthy (or_null there) ≡ truthy (elim given [ none ↦ flag false | some w ↦ w ])
    same none there e = ap (λ o. truthy (or_null o)) e
    same (some u) there e = ap (λ o. truthy (or_null o)) e ∙ kept (truthy u) u

count-valid :
    (key : String) (ns vs : List Nic)
    → lookup key network_validations ≡ some (bool_kind, flag false)
    → All (λ n. IsDistinct (keys n)) ns
    → validate_all ns ≡ ok vs
    → length (filter (λ v. truthy (get_or key null v)) vs) ≡ length (filter (is_marked key) ns)
count-valid key [] vs charge distinct valid =
    ap (λ l. length (filter (λ v. truthy (get_or key null v)) l)) (back valid)
count-valid key (n ∷ ns) vs charge (distinct, distincts) valid =
    let (v, one, then_) = and_then-eq-ok (validate_connect_network n) _ valid in
    let (vs', all, last) = and_then-eq-ok (validate_all ns) _ then_ in
    ap (λ l. length (filter (λ v. truthy (get_or key null v)) l)) (back last)
    ∙ counted v vs' (marked-valid key n v charge distinct one)
        (count-valid key ns vs' charge distincts all)
  where
    counted :
        (v : Nic) (vs' : List Nic)
        → truthy (get_or key null v) ≡ is_marked key n
        → length (filter (λ u. truthy (get_or key null u)) vs') ≡ length (filter (is_marked key) ns)
        → length (filter (λ u. truthy (get_or key null u)) (v ∷ vs'))
          ≡ length (filter (is_marked key) (n ∷ ns))
    counted v vs' same rest = ground arith

check_networks-ok :
    (nics out : List Nic)
    → check_networks nics ≡ ok out
    → (length (filter (is_marked "external") nics) ≤ 1)
      × (length (filter (is_marked "management") nics) ≤ 1)
      × (reorder nics [] ≡ ok out)
unfolding check_networks
check_networks-ok nics out accepted =
    elim (Bool-cases (ltb 1 (length (filter (is_marked "external") nics)))) [
      | inl many ↦ cc (rw many at accepted)
      | inr few ↦ elim (Bool-cases (ltb 1 (length (filter (is_marked "management") nics)))) [
        | inl many ↦ cc (rw (few, many) at accepted)
        | inr few' ↦ (ground arith, ground arith, rw (few, few') at accepted)
      ]
    ]

charges :
    (lookup "external" network_validations ≡ some (bool_kind, flag false))
    × (lookup "management" network_validations ≡ some (bool_kind, flag false))
unfolding lookup
charges = (refl, refl)

-- The networks that are accepted are those given, each validated, with the external one at the
-- front and the others in their order; at most one is external and at most one is for management.
pub check_networks_order :
    (nics out : List Nic)
    → All (λ n. IsDistinct (keys n)) nics
    → check_networks nics ≡ ok out
    → (vs : List Nic) × (validate_all nics ≡ ok vs)
      × (out ≡ filter is_external vs ++ others vs)
      × (length (filter is_external vs) ≤ 1)
      × (length (filter (λ v. truthy (get_or "management" null v)) vs) ≤ 1)
check_networks_order nics out distinct accepted =
    let (few, few', ordered) = check_networks-ok nics out accepted in
    let (vs, all, same) = reorder-onto nics [] out ordered in
    let one = count-valid "external" nics vs charges.0 distinct all in
    let one' = count-valid "management" nics vs charges.1 distinct all in
    (
      vs,
      all,
      same
          ∙ onto-one vs [] (omega (arith, one, few))
          ∙ ap (λ l. l ++ others vs) (append-nil (filter is_external vs)),
      omega (arith, one, few),
      omega (arith, one', few'),
    )
