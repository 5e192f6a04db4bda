-- ===== src/Placement/Sorting.antt =====
-- Python's stable `list.sort(reverse=True, key=…)`, as `find_candidate_hosts` uses it.
use mathlib.Core.List.{Perm}
use mathlib.Core.List.Perm
use cloudify_vsphere_plugin.Common.{
  ◌≡◌, inl, inr, Bool, true, false, List, [], ◌∷◌, All, Within, Bool-cases, if◌then◌else◌,
}
use cloudify_vsphere_plugin.Placement.Ratings.{Floats}

module _ (f : Floats) {A : Type 0} (key : A → f.Float) where
  -- Elements of equal keys keep their order: `x` stands before all that it is not less than.
  pub place : A → List A → List A
  place x [] = x ∷ []
  place x (y ∷ ys) =
      let rest = place x ys in if f.less (key x) (key y) then y ∷ rest else x ∷ y ∷ ys

  unfoldable pub sort_descending : List A → List A
  unfolding place
  sort_descending [] = []
  sort_descending (x ∷ xs) = place x (sort_descending xs)

  -- No element is less than one that comes after it.
  abbrev pub IsDescending : List A → Type 0
  IsDescending [] = Unit
  IsDescending (x ∷ xs) = All (λ y. f.less (key x) (key y) ≡ false) xs × IsDescending xs

  below-All :
      (x y : A) (ys : List A)
      → f.less (key x) (key y) ≡ false
      → All (λ z. f.less (key y) (key z) ≡ false) ys
      → All (λ z. f.less (key x) (key z) ≡ false) ys
  below-All x y [] h k = tt
  below-All x y (z ∷ zs) h k = (f.not_less_trans _ _ _ h k.0, below-All x y zs h k.1)

  All-place : (P : A → Type 0) (x : A) (ys : List A) → P x → All P ys → All P (place x ys)
  unfolding place
  All-place P x [] p k = (p, tt)
  All-place P x (y ∷ ys) p k = elim (Bool-cases (f.less (key x) (key y))) [
    | inl less ↦ rw less (k.0, All-place P x ys p k.1)
    | inr not_less ↦ rw not_less (p, k)
  ]

  place-IsDescending : (x : A) (ys : List A) → IsDescending ys → IsDescending (place x ys)
  unfolding place
  place-IsDescending x [] h = (tt, tt)
  place-IsDescending x (y ∷ ys) h = elim (Bool-cases (f.less (key x) (key y))) [
    | inl less ↦ rw less (
      All-place (λ z. f.less (key y) (key z) ≡ false) x ys (f.less_asym _ _ less) h.0,
      place-IsDescending x ys h.1,
    )
    | inr not_less ↦ rw not_less ((not_less, below-All x y ys not_less h.0), h)
  ]

  place-perm : (x : A) (ys : List A) → Perm (place x ys) (x ∷ ys)
  unfolding place
  place-perm x [] = Perm.refl (x ∷ [])
  place-perm x (y ∷ ys) = elim (Bool-cases (f.less (key x) (key y))) [
    | inl less ↦ rw less (Perm.trans (Perm.cons y (place-perm x ys)) (Perm.swap x y ys))
    | inr not_less ↦ rw not_less (Perm.refl (x ∷ y ∷ ys))
  ]

  pub sort_descending-IsDescending : (xs : List A) → IsDescending (sort_descending xs)
  unfolding sort_descending
  sort_descending-IsDescending [] = tt
  sort_descending-IsDescending (x ∷ xs) =
      place-IsDescending x (sort_descending xs) (sort_descending-IsDescending xs)

  pub sort_descending-perm : (xs : List A) → Perm (sort_descending xs) xs
  unfolding sort_descending
  sort_descending-perm [] = Perm.refl []
  sort_descending-perm (x ∷ xs) =
      Perm.trans (place-perm x (sort_descending xs)) (Perm.cons x (sort_descending-perm xs))

  Within-of_place : (a x : A) (ys : List A) → Within a (place x ys) → Within a (x ∷ ys)
  unfolding place
  Within-of_place a x [] m = m
  Within-of_place a x (y ∷ ys) m = split (f.less (key x) (key y)) (Within-of_place a x ys) m
    where
      split :
          (b : Bool)
          → (Within a (place x ys) → Within a (x ∷ ys))
          → Within a (if b then y ∷ place x ys else x ∷ y ∷ ys)
          → Within a (x ∷ y ∷ ys)
      split true rest (inl same) = inr (inl same)
      split true rest (inr later) = elim (rest later) [
        | inl same ↦ inl same
        | inr further ↦ inr (inr further)
      ]
      split false rest k = k

  place_of_Within : (a x : A) (ys : List A) → Within a (x ∷ ys) → Within a (place x ys)
  unfolding place
  place_of_Within a x [] m = m
  place_of_Within a x (y ∷ ys) m = split (f.less (key x) (key y)) (place_of_Within a x ys) m
    where
      split :
          (b : Bool)
          → (Within a (x ∷ ys) → Within a (place x ys))
          → Within a (x ∷ y ∷ ys)
          → Within a (if b then y ∷ place x ys else x ∷ y ∷ ys)
      split true rest (inl same) = inr (rest (inl same))
      split true rest (inr (inl same)) = inl same
      split true rest (inr (inr further)) = inr (rest (inr further))
      split false rest k = k

  pub Within-of_sort : (a : A) (xs : List A) → Within a (sort_descending xs) → Within a xs
  unfolding sort_descending
  Within-of_sort a [] m = absurd m
  Within-of_sort a (x ∷ xs) m = elim (Within-of_place a x (sort_descending xs) m) [
    | inl same ↦ inl same
    | inr later ↦ inr (Within-of_sort a xs later)
  ]

  pub sort_of_Within : (a : A) (xs : List A) → Within a xs → Within a (sort_descending xs)
  unfolding sort_descending
  sort_of_Within a [] m = absurd m
  sort_of_Within a (x ∷ xs) (inl same) = place_of_Within a x (sort_descending xs) (inl same)
  sort_of_Within a (x ∷ xs) (inr later) =
      place_of_Within a x (sort_descending xs) (inr (sort_of_Within a xs later))
