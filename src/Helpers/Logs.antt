-- ===== src/Helpers/Logs.antt =====
-- prepare_for_log, which hides the values of keys that speak of a password.
use cloudify_vsphere_plugin.Common.{
  ◌≡◌, refl, ap, sym, subst, ◌∙◌, ◌⊎◌, inl, inr, String, codes, has_part, Bool, true, false, Option,
  none, some, List, [], ◌∷◌, any, Value, Fields, null, flag, int, str, joined, arr, obj, no_fields,
  field, str_eq, eq_iff, Bool-cases, arith, if◌then◌else◌,
}

-- `'password' in key`
abbrev pub is_secret : String → Bool
is_secret key = has_part (codes key) (codes "password")

abbrev pub stars : Value
stars = str "**********"

unfoldable mutual
  pub prepare_for_log : Fields → Fields
  prepare_for_log no_fields = no_fields
  prepare_for_log (field key value rest) =
      let shown = clean value in
      field key (if is_secret key then stars else shown) (prepare_for_log rest)

  -- A value that is a dictionary is prepared as well.
  pub clean : Value → Value
  clean (obj entries) = obj (prepare_for_log entries)
  clean v = v

-- `d.get(key)` for the dictionary of a value.
abbrev pub get : String → Fields → Option Value
get key no_fields = none
get key (field k v rest) = if str_eq k key then some v else get key rest

-- The value that a path of keys leads to, through dictionaries in dictionaries.
abbrev pub value_at : List String → Option Value → Option Value
value_at [] v = v
value_at (k ∷ ks) none = none
value_at (k ∷ ks) (some (obj entries)) = value_at ks (get k entries)
value_at (k ∷ ks) (some _) = none

abbrev pub shown : String → Option Value → Option Value
shown key none = none
shown key (some v) = some (if is_secret key then stars else clean v)

get-prepare_for_log :
    (key : String) (fields : Fields) → get key (prepare_for_log fields) ≡ shown key (get key fields)
unfolding prepare_for_log
get-prepare_for_log key no_fields = refl
get-prepare_for_log key (field k v rest) = elim (Bool-cases (str_eq k key)) [
  | inl same ↦ rw same (rw ((eq_iff k key).0 same) refl)
  | inr other ↦ rw other (get-prepare_for_log key rest)
]

abbrev pub cleaned : Option Value → Option Value
cleaned none = none
cleaned (some v) = some (clean v)

shown-plain : (k : String) (o : Option Value) → is_secret k ≡ false → shown k o ≡ cleaned o
shown-plain k none plain = refl
shown-plain k (some v) plain = rw plain refl

-- The values that no secret key leads to stay, but for the dictionaries among them, which are prepared.
value_at-cleaned :
    (path : List String) (o : Option Value)
    → any is_secret path ≡ false
    → value_at path (cleaned o) ≡ cleaned (value_at path o)
unfolding prepare_for_log
value_at-cleaned [] o plain = refl
value_at-cleaned (k ∷ ks) none plain = refl
value_at-cleaned (k ∷ ks) (some (obj entries)) plain =
    ap (value_at ks) (get-prepare_for_log k entries ∙ shown-plain k (get k entries) (ground arith))
    ∙ value_at-cleaned ks (get k entries) (ground arith)
value_at-cleaned (k ∷ ks) (some null) plain = refl
value_at-cleaned (k ∷ ks) (some (flag b)) plain = refl
value_at-cleaned (k ∷ ks) (some (int n)) plain = refl
value_at-cleaned (k ∷ ks) (some (str s)) plain = refl
value_at-cleaned (k ∷ ks) (some (joined t)) plain = refl
value_at-cleaned (k ∷ ks) (some (arr xs)) plain = refl

abbrev pub Hidden : Option Value → Type 0
Hidden o = (o ≡ none) ⊎ (o ≡ some stars)

Hidden-stars : (path : List String) → Hidden (value_at path (some stars))
Hidden-stars [] = inr refl
Hidden-stars (k ∷ ks) = inl refl

Hidden-shown :
    (k : String) (path : List String) (o : Option Value)
    → is_secret k ≡ true
    → Hidden (value_at path (shown k o))
Hidden-shown k [] none secret = inl refl
Hidden-shown k (j ∷ js) none secret = inl refl
Hidden-shown k path (some v) secret = rw secret (Hidden-stars path)

value_at-Hidden :
    (path : List String) (o : Option Value)
    → any is_secret path ≡ true
    → Hidden (value_at path (cleaned o))
unfolding prepare_for_log
value_at-Hidden [] o secret = cc
value_at-Hidden (k ∷ ks) none secret = inl refl
value_at-Hidden (k ∷ ks) (some (obj entries)) secret = elim (Bool-cases (is_secret k)) [
  | inl found ↦
      subst (λ o. Hidden (value_at ks o)) (sym (get-prepare_for_log k entries))
        (Hidden-shown k ks (get k entries) found)
  | inr plain ↦
      subst (λ o. Hidden (value_at ks o))
        (sym (get-prepare_for_log k entries ∙ shown-plain k (get k entries) plain))
        (value_at-Hidden ks (get k entries) (ground arith))
]
value_at-Hidden (k ∷ ks) (some null) secret = inl refl
value_at-Hidden (k ∷ ks) (some (flag b)) secret = inl refl
value_at-Hidden (k ∷ ks) (some (int n)) secret = inl refl
value_at-Hidden (k ∷ ks) (some (str s)) secret = inl refl
value_at-Hidden (k ∷ ks) (some (joined t)) secret = inl refl
value_at-Hidden (k ∷ ks) (some (arr xs)) secret = inl refl

-- In what prepare_for_log gives, a path of keys of which one has `password` in it leads to nothing
-- or to the stars; any other path leads to what it led to, with the dictionary there prepared.
pub prepare_for_log-values :
    (fs : Fields) (path : List String)
    → (any is_secret path ≡ true → Hidden (value_at path (some (obj (prepare_for_log fs)))))
      × (any is_secret path ≡ false
          → value_at path (some (obj (prepare_for_log fs)))
            ≡ cleaned (value_at path (some (obj fs))))
unfolding prepare_for_log
prepare_for_log-values fs path = (
  (λ secret. value_at-Hidden path (some (obj fs)) secret),
  λ plain. value_at-cleaned path (some (obj fs)) plain,
)
