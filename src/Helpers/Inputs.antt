-- ===== src/Helpers/Inputs.antt =====
-- The decorator `op`: what each argument of a decorated operation gets.
use cloudify_vsphere_plugin.Common.{
  contains, union, contains-union, ◌≡◌, refl, ◌∙◌, ap, String, Bool, true, false, ◌||◌, Option,
  none, some, List, [], ◌∷◌, str_eq, eq_iff, Dict, lookup, put, lookup-put, is_some, Bool-cases,
  inl, inr, ◌⊎◌, Option-cases, arith, if◌then◌else◌,
}

-- A function and those that its decorators wrap, each with its parameters.
pub data Func : Type 0 where
  plain : List String → Func
  wrapper : Func → List String → Func

unfoldable pub get_args : Func → List String
get_args (plain args) = union [] args
get_args (wrapper f args) = union (union [] (get_args f)) args

module _ {V : Type 0} (nothing : V) where
  abbrev or_nothing : Option V → V
  or_nothing none = nothing
  or_nothing (some v) = v

  -- `d.setdefault(k, v)`
  abbrev set_default : String → V → Dict V → Dict V
  set_default k v d = if is_some (lookup k d) then d else put k v d

  -- `if key in d: processed[key] = d[key]`
  abbrev copy_key : String → Option V → Dict V → Dict V
  copy_key key none processed = processed
  copy_key key (some v) processed = put key v processed

  -- One round of the loop over the requested inputs.
  unfoldable pub process_key : Dict V → Dict V → Dict V → String → Dict V → Dict V
  process_key kwargs runtime properties key processed =
      let seen = copy_key key (lookup key runtime) processed in
      elim (lookup key kwargs) [
        | some v ↦ put key v seen
        | none ↦ put key (or_nothing (lookup key properties)) seen
      ]

  unfoldable pub process_keys : Dict V → Dict V → Dict V → List String → Dict V → Dict V
  process_keys kwargs runtime properties [] processed = processed
  process_keys kwargs runtime properties (k ∷ ks) processed =
      process_keys kwargs runtime properties ks (process_key kwargs runtime properties k processed)

  -- The arguments that the operation is called with.
  unfoldable pub op : V → Func → Dict V → Dict V → Dict V → Dict V
  op ctx func kwargs runtime properties =
      process_keys (set_default "ctx" ctx kwargs) runtime properties (get_args func) []

  -- What a parameter gets: the input, or the property of the node, or `None`.
  abbrev pub input_value : Dict V → Dict V → String → V
  input_value kwargs properties key = elim (lookup key kwargs) [
    | some v ↦ v
    | none ↦ or_nothing (lookup key properties)
  ]

  lookup-put_copy :
      (key j : String) (v : V) (seen : Option V) (d : Dict V)
      → lookup j (put key v (copy_key key seen d)) ≡ (if str_eq key j then some v else lookup j d)
  lookup-put_copy key j v none d = lookup-put key j v d
  lookup-put_copy key j v (some u) d = elim (Bool-cases (str_eq key j)) [
    | inl same ↦ rw (lookup-put, same) refl
    | inr other ↦ rw (lookup-put, other, lookup-put, other) refl
  ]

  process_key-put :
      (kwargs runtime properties : Dict V) (key : String) (d : Dict V)
      → process_key kwargs runtime properties key d
        ≡ put key (input_value kwargs properties key) (copy_key key (lookup key runtime) d)
  unfolding process_key
  process_key-put kwargs runtime properties key d = elim (Option-cases (lookup key kwargs)) [
    | inl absent ↦ ground arith
    | inr (v, given) ↦ ground arith
  ]

  process_keys-lookup :
      (kwargs runtime properties : Dict V) (ks : List String) (j : String) (d : Dict V)
      → lookup j (process_keys kwargs runtime properties ks d)
        ≡ (if contains j ks then some (input_value kwargs properties j) else lookup j d)
  unfolding process_keys
  process_keys-lookup kwargs runtime properties [] j d = refl
  process_keys-lookup kwargs runtime properties (k ∷ ks) j d =
      process_keys-lookup kwargs runtime properties ks j (process_key kwargs runtime properties k d)
      ∙ ap (λ o. if contains j ks then some (input_value kwargs properties j) else o)
          (ap (lookup j) (process_key-put kwargs runtime properties k d)
            ∙ lookup-put_copy k j (input_value kwargs properties k) (lookup k runtime) d)
      ∙ by_name (Bool-cases (str_eq k j))
    where
      by_name :
          (str_eq k j ≡ true) ⊎ (str_eq k j ≡ false)
          → (if contains j ks
              then some (input_value kwargs properties j)
              else if str_eq k j
              then some (input_value kwargs properties k)
              else lookup j d)
            ≡ (if str_eq k j || contains j ks
                then some (input_value kwargs properties j)
                else lookup j d)
      by_name (inl same) = rw ((eq_iff k j).0 same) ground arith
      by_name (inr other) = rw other refl

  -- Whether the function or one that it wraps has the parameter.
  abbrev pub takes : String → Func → Bool
  takes k (plain args) = contains k args
  takes k (wrapper f args) = takes k f || contains k args

  contains-get_args : (k : String) (f : Func) → contains k (get_args f) ≡ takes k f
  unfolding get_args
  contains-get_args k (plain args) = contains-union k [] args
  contains-get_args k (wrapper f args) =
      contains-union k (union [] (get_args f)) args
      ∙ ap (λ b. b || contains k args) (contains-get_args k f)

  -- Each parameter of the function or of one that it wraps gets the input of its name, or else the
  -- property of the node, or else `None`, whatever the runtime properties are; no other key is given.
  pub op-lookup :
      (ctx : V) (func : Func) (kwargs runtime properties : Dict V) (key : String)
      → lookup key (op ctx func kwargs runtime properties) ≡ (
          if takes key func
          then some (input_value (set_default "ctx" ctx kwargs) properties key)
          else none)
  unfolding op lookup
  op-lookup ctx func kwargs runtime properties key =
      process_keys-lookup (set_default "ctx" ctx kwargs) runtime properties (get_args func) key []
      ∙ ap
          (λ b.
            if b then some (input_value (set_default "ctx" ctx kwargs) properties key) else none)
          (contains-get_args key func)
