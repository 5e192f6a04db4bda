-- ===== src/Common/Strings.antt =====
-- Text as a list of code points, for names that the program lowers, decodes and splits. Lowering
-- is ASCII; a percent escape decodes to the code point of its byte.
use Prim.Native.Char.{code}
use Prim.Native.Nat.{ℕ, ◌+◌, ◌-◌, ◌*◌}
use Prim.Native.String.{String}
use mathlib.Core.Path.{◌≡◌, refl}
use mathlib.Core.Logic.{◌↔◌}
use mathlib.Core.Bool.{Bool, true, false, ◌&&◌, ◌||◌}
use mathlib.Core.Option.{Option, none, some}
use mathlib.Core.List.{List, [], ◌∷◌}
use native.Mathlib.Omega.{arith}
use cloudify_vsphere_plugin.Common.Tests.{leb, ◌==◌, if◌then◌else◌}

abbrev pub Text : Type 0
Text = List ℕ

abbrev pub codes : String → Text
codes String.[] = []
codes (String.◌∷◌ c s) = code c ∷ codes s

abbrev pub text_eq : Text → Text → Bool
text_eq [] [] = true
text_eq (a ∷ s) (b ∷ t) = a == b && text_eq s t
text_eq _ _ = false

pub text_eq_iff : (s t : Text) → (text_eq s t ≡ true) ↔ (s ≡ t)
text_eq_iff [] [] = ((λ _. refl), λ _. refl)
text_eq_iff (a ∷ s) (b ∷ t) = ground (arith, text_eq_iff s t)
text_eq_iff [] (b ∷ t) = ((λ h. cc), λ h. cc)
text_eq_iff (a ∷ s) [] = ((λ h. cc), λ h. cc)

abbrev pub starts_with : Text → Text → Bool
starts_with s [] = true
starts_with [] (b ∷ t) = false
starts_with (a ∷ s) (b ∷ t) = a == b && starts_with s t

unfoldable pub lower_code : ℕ → ℕ
lower_code c = if leb b'A' c && leb c b'Z' then c + 32 else c

pub lower_code_idem : (c : ℕ) → lower_code (lower_code c) ≡ lower_code c
unfolding lower_code
lower_code_idem c = ground arith

-- `s.lower()`
unfoldable pub lower : Text → Text
lower [] = []
lower (c ∷ s) = lower_code c ∷ lower s

pub lower_idem : (s : Text) → lower (lower s) ≡ lower s
unfolding lower
lower_idem [] = refl
lower_idem (c ∷ s) = cc (lower_code_idem c, lower_idem s)

-- The value of a hexadecimal digit.
abbrev pub hex_digit : ℕ → Option ℕ
hex_digit c =
    if leb b'0' c && leb c b'9'
    then some (c - 48)
    else if leb b'a' c && leb c b'f'
    then some (c - 87)
    else if leb b'A' c && leb c b'F'
    then some (c - 55)
    else none

abbrev pub hex_pair : ℕ → ℕ → Option ℕ
hex_pair a b = elim (hex_digit a) [
  | none ↦ none
  | some high ↦ elim (hex_digit b) [ none ↦ none | some low ↦ some (high * 16 + low) ]
]

-- `urllib.parse.unquote`: an escape that is not well formed stays as it is.
unfoldable pub unquote : Text → Text
unquote [] = []
unquote (c ∷ []) = c ∷ []
unquote (c ∷ a ∷ []) = c ∷ a ∷ []
unquote (c ∷ a ∷ b ∷ s) =
    let plain = c ∷ unquote (a ∷ b ∷ s) in
    if c == b'%' then elim (hex_pair a b) [ none ↦ plain | some v ↦ v ∷ unquote s ] else plain

-- `t in s`
abbrev pub has_part : Text → Text → Bool
has_part [] t = starts_with [] t
has_part (a ∷ s) t = starts_with (a ∷ s) t || has_part s t
