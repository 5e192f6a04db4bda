-- ===== src/Common/Lists.antt =====
-- Lists measured by native numbers, comprehensions and searches by a Boolean test.
use Prim.Native.Nat.{ℕ, suc, ◌+◌, ◌≤◌}
use mathlib.Core.Path.{◌≡◌, refl, sym, subst, ap, ◌∙◌}
use mathlib.Core.Logic.{◌⊎◌, inl, inr}
use mathlib.Core.Bool.{Bool, true, false, ◌||◌}
use mathlib.Core.Option.{Option, none, some}
use mathlib.Core.List.{List, [], ◌∷◌, ◌++◌}
use native.Mathlib.Omega.{arith}
use cloudify_vsphere_plugin.Common.Tests.{Bool-cases, if◌then◌else◌}

module _ {ℓ} {A : Type ℓ} where
  abbrev pub length : List A → ℕ
  length [] = 0
  length (x ∷ xs) = suc (length xs)

  -- `[x for x in xs if p(x)]`
  abbrev pub filter : (A → Bool) → List A → List A
  filter p [] = []
  filter p (x ∷ xs) = let rest = filter p xs in if p x then x ∷ rest else rest

  -- The first element that passes, as by a loop with `break`.
  abbrev pub find : (A → Bool) → List A → Option A
  find p [] = none
  find p (x ∷ xs) = if p x then some x else find p xs

  abbrev pub any : (A → Bool) → List A → Bool
  any p [] = false
  any p (x ∷ xs) = p x || any p xs

  abbrev pub All {κ} : (A → Type κ) → List A → Type κ
  All P [] = Unit
  All P (x ∷ xs) = P x × All P xs

-- Membership as a place in the list, which can be taken apart.
abbrev pub Within : {A : Type 0} → A → List A → Type 0
Within a [] = ⊥
Within a (x ∷ xs) = (a ≡ x) ⊎ Within a xs

module _ {ℓ} {A : Type ℓ} where
  pub length-append : (xs ys : List A) → length (xs ++ ys) ≡ length xs + length ys
  length-append [] ys = omega arith
  length-append (x ∷ xs) ys = omega (arith, length-append xs ys)

  pub length-filter : (p : A → Bool) (xs : List A) → length (filter p xs) ≤ length xs
  length-filter p [] = omega arith
  length-filter p (x ∷ xs) = ground (arith, length-filter p xs)

module _ {A : Type 0} where
  pub All-within : (P : A → Type 0) {a : A} (xs : List A) → All P xs → Within a xs → P a
  All-within P [] h m = absurd m
  All-within P (x ∷ xs) h (inl same) = subst P (sym same) h.0
  All-within P (x ∷ xs) h (inr later) = All-within P xs h.1 later

  -- What a comprehension lets through stands in the list and passes the test, and all such does.
  pub Within-of_filter :
      (p : A → Bool) {a : A} (xs : List A) → Within a (filter p xs) → Within a xs × (p a ≡ true)
  Within-of_filter p [] m = absurd m
  Within-of_filter p {a} (x ∷ xs) m = elim (Bool-cases (p x)) [
    | inr bad ↦ let (later, good) = Within-of_filter p xs (rw bad at m) in (inr later, good)
    | inl good ↦ first_or_later (Within-of_filter p xs) good (rw good at m)
  ]
    where
      first_or_later :
          (Within a (filter p xs) → Within a xs × (p a ≡ true))
          → p x ≡ true
          → (a ≡ x) ⊎ Within a (filter p xs)
          → Within a (x ∷ xs) × (p a ≡ true)
      first_or_later rest good (inl same) = (inl same, ap p same ∙ good)
      first_or_later rest good (inr later) = let (there, passes) = rest later in (inr there, passes)

  pub filter_of_Within :
      (p : A → Bool) {a : A} (xs : List A) → Within a xs → p a ≡ true → Within a (filter p xs)
  filter_of_Within p [] m good = absurd m
  filter_of_Within p (x ∷ xs) (inl same) good = rw (sym (ap p same) ∙ good) (inl same)
  filter_of_Within p (x ∷ xs) (inr later) good = elim (Bool-cases (p x)) [
    | inl keep ↦ rw keep (inr (filter_of_Within p xs later good))
    | inr drop ↦ rw drop (filter_of_Within p xs later good)
  ]

  pub Within-of_find :
      (p : A → Bool) (xs : List A) {a : A} → find p xs ≡ some a → Within a xs × (p a ≡ true)
  Within-of_find p [] h = cc
  Within-of_find p (x ∷ xs) {a} h = elim (Bool-cases (p x)) [
    | inl good ↦ let same : some x ≡ some a = rw good at h in (inl (cc), ground arith)
    | inr bad ↦ let (later, good) = Within-of_find p xs (rw bad at h) in (inr later, good)
  ]

  pub fails_of_find :
      (p : A → Bool) (xs : List A) {a : A} → find p xs ≡ none → Within a xs → p a ≡ false
  fails_of_find p [] h m = absurd m
  fails_of_find p (x ∷ xs) h (inl same) = ap p same ∙ ground arith
  fails_of_find p (x ∷ xs) h (inr later) = fails_of_find p xs (ground arith) later

  pub any_of_Within :
      (p : A → Bool) {a : A} (xs : List A) → Within a xs → p a ≡ true → any p xs ≡ true
  any_of_Within p [] m good = absurd m
  any_of_Within p (x ∷ xs) (inl same) good = rw (sym (ap p same) ∙ good)
  any_of_Within p (x ∷ xs) (inr later) good = ground (arith, any_of_Within p xs later good)

  pub Within-of_any :
      (p : A → Bool) (xs : List A) → any p xs ≡ true → (a : A) × Within a xs × (p a ≡ true)
  Within-of_any p [] h = cc
  Within-of_any p (x ∷ xs) h = elim (Bool-cases (p x)) [
    | inl good ↦ (x, inl refl, good)
    | inr bad ↦ let (a, there, good) = Within-of_any p xs (rw bad at h) in (a, inr there, good)
  ]

  pub Within-append_left : (a : A) (xs ys : List A) → Within a xs → Within a (xs ++ ys)
  Within-append_left a [] ys m = absurd m
  Within-append_left a (x ∷ xs) ys (inl same) = inl same
  Within-append_left a (x ∷ xs) ys (inr later) = inr (Within-append_left a xs ys later)

  pub Within-append_right : (a : A) (xs ys : List A) → Within a ys → Within a (xs ++ ys)
  Within-append_right a [] ys m = m
  Within-append_right a (x ∷ xs) ys m = inr (Within-append_right a xs ys m)

  pub append_cases : (a : A) (xs ys : List A) → Within a (xs ++ ys) → Within a xs ⊎ Within a ys
  append_cases a [] ys m = inr m
  append_cases a (x ∷ xs) ys (inl same) = inl (inl same)
  append_cases a (x ∷ xs) ys (inr later) = elim (append_cases a xs ys later) [
    | inl left ↦ inl (inr left)
    | inr right ↦ inr right
  ]
