-- ===== src/Helpers/Integers.antt =====
-- `int(v)` of Python on the values of inputs and properties.
use cloudify_vsphere_plugin.Common.{
  Text, codes, true, false, Option, none, some, [], ◌∷◌, ℤ, pos, sub_ℕ, ◌==◌, Value, flag, int, str,
  joined, Result, ok, err, type_error, value_error, if◌then◌else◌,
}
use cloudify_vsphere_plugin.Storage.Names.{read_digits}

abbrev pub signed : Text → Option ℤ
signed [] = none
signed (c ∷ s) =
    if c == b'-'
    then (elim (read_digits s) [ none ↦ none | some n ↦ some (sub_ℕ 0 n) ])
    else (elim (read_digits (c ∷ s)) [ none ↦ none | some n ↦ some (pos n) ])

abbrev pub or_value_error : Option ℤ → Result ℤ
or_value_error none = err value_error
or_value_error (some n) = ok n

-- `int(v)`; of the texts that it reads, those of digits after an optional minus
abbrev pub to_int : Value → Result ℤ
to_int (int n) = ok n
to_int (flag true) = ok (pos 1)
to_int (flag false) = ok (pos 0)
to_int (str s) = or_value_error (signed (codes s))
to_int (joined t) = or_value_error (signed t)
to_int _ = err type_error
