-- ===== src/Server/Naming.antt =====
-- `get_vm_name` and `validate_vm_name` (vsphere_server_plugin/server.py).
use cloudify_vsphere_plugin.Common.{
  ℕ, zero, suc, ◌+◌, ◌-◌, Text, codes, lower, text_eq, Bool, true, false, ◌&&◌, ◌||◌, not, Option,
  none, some, [], ◌∷◌, ◌++◌, map, any, ℤ, pos, negsuc, sub_ℕ, length, leb, ◌==◌, Dict, lookup,
  Value, null, joined, or_null, Result, ok, err, non_recoverable, value_error, if◌then◌else◌,
}
use cloudify_vsphere_plugin.Storage.Names.{split_last}

-- The `server` input.
pub record ServerInput : Type 0 where
  pub name : Option Text
  pub add_scale_suffix : Option Bool

abbrev pub take : ℕ → Text → Text
take zero s = []
take (suc n) [] = []
take (suc n) (c ∷ s) = c ∷ take n s

-- `s[:n]`, where a negative n counts from the end.
abbrev pub slice : ℤ → Text → Text
slice (pos n) s = take n s
slice (negsuc n) s = take (length s - suc n) s

abbrev pub is_name_char : ℕ → Bool
is_name_char c =
    (leb b'A' c && leb c b'Z')
    || (leb b'a' c && leb c b'z')
    || (leb b'0' c && leb c b'9')
    || c == b'-'

unfoldable pub validate_vm_name : Text → Result Text
validate_vm_name name =
    if any (λ c. not (is_name_char c)) name
    then err (
        non_recoverable
          "Computer name must contain only A-Z, a-z, 0-9, and hyphens (\"-\"), and must not consist entirely of numbers. \"{name}\" was not valid.")
    else ok name

-- `configured_name or instance_name`
abbrev pub prefix_of : Option Text → Text → Text
prefix_of none instance_name = instance_name
prefix_of (some []) instance_name = instance_name
prefix_of (some (c ∷ s)) instance_name = c ∷ s

-- The prefix of a Windows machine leaves room for a dash and the suffix in 14 characters.
abbrev pub fit_prefix : Text → Text → Text → Text
fit_prefix os_family prefix id_suffix =
    if text_eq (lower os_family) (codes "windows")
    then slice (sub_ℕ 14 (length id_suffix + 1)) prefix
    else prefix

-- `replace('_', '-')`
abbrev pub dashed : ℕ → ℕ
dashed c = if c == b'_' then b'-' else c

-- The instance's id is cut at its last underscore.
abbrev pub suffixed : Option Text → Text → Option (Text × Text) → Result Text
suffixed name os_family none = err value_error
suffixed name os_family (some (instance_name, id_suffix)) =
    validate_vm_name (
      map dashed
        (fit_prefix os_family (prefix_of name instance_name) id_suffix ++ b'-' ∷ id_suffix))

-- `configured_name is not None and not add_scale_suffix`
abbrev pub choose : Option Text → Bool → Result Text → Result Text
choose (some name) false rest = ok name
choose (some name) true rest = rest
choose none _ rest = rest

abbrev or_true : Option Bool → Bool
or_true none = true
or_true (some b) = b

unfoldable pub new_vm_name : ServerInput → Text → Text → Result Text
unfolding split_last validate_vm_name
new_vm_name server instance_id os_family =
    choose server.name (or_true server.add_scale_suffix)
      (suffixed server.name os_family (split_last instance_id))

abbrev as_value : Result Text → Result Value
as_value (ok t) = ok (joined t)
as_value (err e) = err e

abbrev named_or : Value → Result Text → Result Value
named_or null fresh = as_value fresh
named_or v fresh = ok v

-- A name that the instance has is kept.
unfoldable pub get_vm_name : Dict Value → ServerInput → Text → Text → Result Value
unfolding new_vm_name
get_vm_name props server instance_id os_family =
    named_or (or_null (lookup "name" props)) (new_vm_name server instance_id os_family)
