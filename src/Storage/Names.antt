-- ===== src/Storage/Names.antt =====
-- File names of disks: the two patterns that `create_storage` matches them with. In a pattern `.` is
-- any character, since a file name has no line break.
use cloudify_vsphere_plugin.Common.{
  ℕ, zero, suc, ◌+◌, ◌-◌, ◌*◌, ◌/◌, ◌%◌, Text, codes, text_eq, Bool, false, ◌&&◌, ◌||◌, Option,
  none, some, [], ◌∷◌, ◌++◌, leb, ltb, ◌==◌, if◌then◌else◌,
}

abbrev pub dot_vmdk : Text
dot_vmdk = codes ".vmdk"

abbrev pub after : ℕ → Option Text → Option Text
after c none = none
after c (some s) = some (c ∷ s)

-- What stands before `.vmdk` at the end.
unfoldable pub stem : Text → Option Text
stem [] = none
stem (c ∷ s) = let rest = stem s in if text_eq (c ∷ s) dot_vmdk then some [] else after c rest

abbrev pub is_space : ℕ → Bool
is_space c = c == b' ' || (leb 9 c && leb c 13)

unfoldable pub has_slash : Text → Bool
has_slash [] = false
has_slash (c ∷ s) = c == b'/' || has_slash s

-- `\s+.*\/.*`
abbrev pub spaced_path : Text → Bool
spaced_path [] = false
spaced_path (c ∷ s) = is_space c && has_slash s

-- `.*\]\s+.*\/.*`
unfoldable pub closes_bracket : Text → Bool
unfolding has_slash
closes_bracket [] = false
closes_bracket (c ∷ s) = (c == b']' && spaced_path s) || closes_bracket s

-- `\[.*\]\s+.*\/.*`
abbrev pub is_datastore_path : Text → Bool
is_datastore_path [] = false
is_datastore_path (c ∷ s) = c == b'[' && closes_bracket s

abbrev pub keep_path : Option Text → Option Text
keep_path none = none
keep_path (some s) = if is_datastore_path s then some s else none

-- Group 1 of `^(\[.*\]\s+.*\/.*)\.vmdk$`
unfoldable pub match_path : Text → Option Text
unfolding stem closes_bracket
match_path name = keep_path (stem name)

abbrev pub is_digit : ℕ → Bool
is_digit c = leb b'0' c && leb c b'9'

-- The number that `int` reads from decimal digits, continuing the number before them.
unfoldable pub read_from : ℕ → Text → Option ℕ
read_from n [] = some n
read_from n (c ∷ s) =
    let rest = read_from (n * 10 + (c - b'0')) s in if is_digit c then rest else none

abbrev pub read_digits : Text → Option ℕ
read_digits [] = none
read_digits (c ∷ s) = read_from 0 (c ∷ s)

-- What stands before and after the last underscore.
unfoldable pub split_last : Text → Option (Text × Text)
split_last [] = none
split_last (c ∷ s) = elim (split_last s) [
  | some parts ↦ some (c ∷ parts.0, parts.1)
  | none ↦ if c == b'_' then some ([], s) else none
]

abbrev pub with_number : Text → Option ℕ → Option (Text × ℕ)
with_number base none = none
with_number base (some n) = some (base, n)

abbrev pub numbered_parts : Option (Text × Text) → Option (Text × ℕ)
numbered_parts none = none
numbered_parts (some (base, digits)) = with_number base (read_digits digits)

abbrev pub numbered_stem : Option Text → Option (Text × ℕ)
numbered_stem none = none
numbered_stem (some s) = numbered_parts (split_last s)

-- Groups 1 and 2 of `^(.*)_([0-9]+)\.vmdk$`
unfoldable pub match_number : Text → Option (Text × ℕ)
unfolding stem split_last read_from
match_number name = numbered_stem (stem name)

-- `text_type(n)`: the digits of n before a text. A number has at most as many digits as `suc n`.
unfoldable pub write_digits : ℕ → ℕ → Text → Text
write_digits zero n t = t
write_digits (suc fuel) n t =
    let rest = write_digits fuel (n / 10) ((b'0' + n % 10) ∷ t) in
    if ltb n 10 then (b'0' + n % 10) ∷ t else rest

-- `base + "_" + text_type(n) + ".vmdk"`
unfoldable pub numbered_name : Text → ℕ → Text
unfolding write_digits
numbered_name base n = base ++ b'_' ∷ write_digits (suc n) n dot_vmdk
