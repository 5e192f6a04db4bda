-- ===== src/Server/NamingLaws.antt =====
-- The names that new machines get.
use cloudify_vsphere_plugin.Common.{
  ℕ, zero, suc, ◌+◌, ◌-◌, ◌≤◌, ◌≡◌, refl, ap, subst, Text, codes, lower, text_eq, true, false, not,
  Option, some, [], ◌∷◌, ◌++◌, map, any, sub_ℕ, length, length-append, ok, arith, Bool-cases, inl,
  inr, leb,
}
use cloudify_vsphere_plugin.Server.Naming.{
  take, slice, is_name_char, validate_vm_name, prefix_of, fit_prefix, dashed, suffixed,
}

length-take : (n : ℕ) (s : Text) → length (take n s) ≤ n
length-take zero s = omega arith
length-take (suc n) [] = omega arith
length-take (suc n) (c ∷ s) = omega (arith, length-take n s)

length-map : (f : ℕ → ℕ) (s : Text) → length (map f s) ≡ length s
length-map f [] = refl
length-map f (c ∷ s) = ap suc (length-map f s)

ok_injective : (a b : Text) → ok a ≡ ok b → a ≡ b
ok_injective a b e = cc

validated :
    (t : Text) {name : Text}
    → validate_vm_name t ≡ ok name
    → (t ≡ name) × (any (λ c. not (is_name_char c)) name ≡ false)
unfolding validate_vm_name
validated t {name} e = elim (Bool-cases (any (λ c. not (is_name_char c)) t)) [
  | inl bad ↦ cc (rw bad at e)
  | inr good ↦
      let same = ok_injective t name (rw good at e) in
      (same, subst (λ x. any (λ c. not (is_name_char c)) x ≡ false) same good)
]

fitted :
    (os prefix id_suffix : Text)
    → text_eq (lower os) (codes "windows") ≡ true
    → length id_suffix ≤ 13
    → length (fit_prefix os prefix id_suffix) + suc (length id_suffix) ≤ 14
fitted os prefix id_suffix windows short = rw windows (room (leb_cases))
  where
    leb_cases : leb (length id_suffix + 1) 14 ≡ true
    leb_cases = ground (arith, short)

    room :
        leb (length id_suffix + 1) 14 ≡ true
        → length (slice (sub_ℕ 14 (length id_suffix + 1)) prefix) + suc (length id_suffix) ≤ 14
    room h = rw h (omega (arith, short, length-take (14 - (length id_suffix + 1)) prefix))

-- A name made from an instance's id holds letters, digits and dashes only, and on Windows it has at
-- most 14 characters if the suffix of the id has at most 13.
pub suffixed_valid :
    (configured : Option Text) (os_family instance_name id_suffix name : Text)
    → suffixed configured os_family (some (instance_name, id_suffix)) ≡ ok name
    → (any (λ c. not (is_name_char c)) name ≡ false)
      × (text_eq (lower os_family) (codes "windows") ≡ true
          → length id_suffix ≤ 13
          → length name ≤ 14)
suffixed_valid configured os_family instance_name id_suffix name e =
    let prefix = fit_prefix os_family (prefix_of configured instance_name) id_suffix in
    let (same, good) = validated (map dashed (prefix ++ b'-' ∷ id_suffix)) e in
    (
      good,
      λ windows short.
          subst (λ x. length x ≤ 14) same
            (omega (
              arith,
              length-map dashed (prefix ++ b'-' ∷ id_suffix),
              length-append prefix (b'-' ∷ id_suffix),
              fitted os_family (prefix_of configured instance_name) id_suffix windows short,
            )),
    )
