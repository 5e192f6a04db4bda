-- ===== src/Common/Sets.antt =====
-- Sets of strings, each a list.
use Prim.Native.String.{String}
use mathlib.Core.Path.{◌≡◌, refl, ◌∙◌}
use mathlib.Core.Logic.{inl, inr}
use mathlib.Core.Bool.{Bool, false, ◌||◌, not}
use mathlib.Core.List.{List, [], ◌∷◌, ◌++◌}
use native.Mathlib.Omega.{arith}
use text.Mathlib.Text.{◌==◌ as str_eq}
use text.Mathlib.TextEquality.{eq_iff}
use cloudify_vsphere_plugin.Common.Tests.{Bool-cases}
use cloudify_vsphere_plugin.Common.Lists.{filter, any}

-- `x in xs`
abbrev pub contains : String → List String → Bool
contains x xs = any (λ y. str_eq y x) xs

-- `xs.union(ys)`
abbrev pub union : List String → List String → List String
union [] ys = ys
union (x ∷ xs) ys = (x ∷ xs) ++ filter (λ y. not (contains y (x ∷ xs))) ys

pub contains-append :
    (n : String) (xs ys : List String) → contains n (xs ++ ys) ≡ (contains n xs || contains n ys)
contains-append n [] ys = refl
contains-append n (x ∷ xs) ys = ground (arith, contains-append n xs ys)

-- A name that the test drops is one that is known.
contains-new :
    (n : String) (xs ys : List String)
    → (contains n xs || contains n (filter (λ y. not (contains y xs)) ys))
      ≡ (contains n xs || contains n ys)
contains-new n xs [] = refl
contains-new n xs (y ∷ ys) = elim (Bool-cases (str_eq y n)) [
  | inl same ↦ rw ((eq_iff y n).0 same) (ground (arith, contains-new n xs ys))
  | inr other ↦ ground (arith, contains-new n xs ys)
]

pub contains-union :
    (n : String) (xs ys : List String) → contains n (union xs ys) ≡ (contains n xs || contains n ys)
contains-union n [] ys = refl
contains-union n (x ∷ xs) ys =
    contains-append n (x ∷ xs) (filter (λ y. not (contains y (x ∷ xs))) ys)
    ∙ contains-new n (x ∷ xs) ys

-- No string stands twice in the list.
abbrev pub IsDistinct : List String → Type 0
IsDistinct [] = Unit
IsDistinct (x ∷ xs) = (contains x xs ≡ false) × IsDistinct xs

pub append-IsDistinct :
    (xs : List String) (y : String)
    → IsDistinct xs
    → contains y xs ≡ false
    → IsDistinct (xs ++ y ∷ [])
append-IsDistinct [] y distinct new = (refl, tt)
append-IsDistinct (x ∷ xs) y (fresh, distinct) new = (
  contains-append x xs (y ∷ []) ∙ ground (arith, eq_iff x y, eq_iff y x, fresh),
  append-IsDistinct xs y distinct (ground arith),
)
