-- ===== src/Common/Json.antt =====
-- The values of properties and inputs, which are JSON-like. A string that the program puts together
-- from parts is `joined`, by its code points.
use Prim.Native.String.{String}
use mathlib.Core.Bool.{Bool, true, false, not}
use mathlib.Core.Option.{Option, none, some}
use text.Mathlib.Text.{◌==◌}
use mathlib.Core.List.{[], ◌∷◌}
use cloudify_vsphere_plugin.Common.Strings.{Text}
use cloudify_vsphere_plugin.Common.Int.{ℤ, pos, eqb_ℤ}

mutual
  pub data Value : Type 0 where
    null : Value
    flag : Bool → Value
    int : ℤ → Value
    str : String → Value
    joined : Text → Value
    arr : Items → Value
    obj : Fields → Value

  pub data Fields : Type 0 where
    no_fields : Fields
    field : String → Value → Fields → Fields

  pub data Items : Type 0 where
    no_items : Items
    item : Value → Items → Items

-- `bool(v)`
abbrev pub truthy : Value → Bool
truthy null = false
truthy (flag b) = b
truthy (int n) = not (eqb_ℤ n (pos 0))
truthy (str s) = not (s == "")
truthy (joined []) = false
truthy (joined (_ ∷ _)) = true
truthy (arr no_items) = false
truthy (arr (item _ _)) = true
truthy (obj no_fields) = false
truthy (obj (field _ _ _)) = true

-- What `d.get(k)` gives: `None` for a missing key.
abbrev pub or_null : Option Value → Value
or_null none = null
or_null (some v) = v
