-- ===== src/Common/Calls.antt =====
-- Python calls that change an object and may raise. What was written before a raise stays written.
use Prim.Native.String.{String}
use mathlib.Core.Path.{◌≡◌, refl, sym, ap}
use mathlib.Core.Bool.{Bool, true, false}
use mathlib.Core.Option.{Option, none, some}
use cloudify_vsphere_plugin.Common.Tests.{if◌then◌else◌}

-- Cloudify's exceptions with the text that the program gives (its template, before `format`), and
-- the exceptions of Python itself that the code can meet.
pub data Error : Type 0 where
  non_recoverable operation_retry runtime_error : String → Error
  key_error : String → Error
  attribute_error type_error index_error zero_division value_error : Error
  vim_fault : String → Error

pub data Result {ℓ} (A : Type ℓ) : Type ℓ where
  ok : A → Result A
  err : Error → Result A

abbrev pub is_ok {ℓ} : {A : Type ℓ} → Result A → Bool
is_ok (ok _) = true
is_ok (err _) = false

abbrev pub Exec : Type 0 → Type 0 → Type 0
Exec S A = S → Result A × S

module _ {S A : Type 0} where
  abbrev pub pure : A → Exec S A
  pure a s = (ok a, s)

  abbrev pub raise : Error → Exec S A
  raise e s = (err e, s)

  abbrev pub gets : (S → A) → Exec S A
  gets f s = (ok (f s), s)

  abbrev pub lift : Result A → Exec S A
  lift r s = (r, s)

  abbrev pub or_raise : Option A → Error → Exec S A
  or_raise none e = raise e
  or_raise (some a) _ = pure a

module _ {S A B : Type 0} where
  abbrev pub continue : Result A → S → (A → Exec S B) → Result B × S
  continue (ok a) s f = f a s
  continue (err e) s f = (err e, s)

  infixl 5 ◌>>=◌ ◌>>◌
  abbrev pub ◌>>=◌ : Exec S A → (A → Exec S B) → Exec S B
  ◌>>=◌ m f s = let (r, s') = m s in continue r s' f

  abbrev pub ◌>>◌ : Exec S A → Exec S B → Exec S B
  m >> k = m >>= λ _. k

abbrev pub modify : {S : Type 0} → (S → S) → Exec S (Unit {0})
modify f s = (ok tt, f s)

-- `if test: raise e`
abbrev pub raise_if : {S : Type 0} → Bool → Error → Exec S (Unit {0})
raise_if true e = raise e
raise_if false e = pure tt

abbrev pub when : {S : Type 0} → Bool → Exec S (Unit {0}) → Exec S (Unit {0})
when b m = if b then m else pure tt

-- Calls that may raise and change nothing.
module _ {ℓ κ} {A : Type ℓ} {B : Type κ} where
  abbrev pub and_then : Result A → (A → Result B) → Result B
  and_then (ok a) f = f a
  and_then (err e) f = err e

  pub and_then-eq-ok :
      (m : Result A) (f : A → Result B) {b : B}
      → and_then m f ≡ ok b
      → (a : A) × (m ≡ ok a) × (f a ≡ ok b)
  and_then-eq-ok (ok a) f h = (a, refl, h)
  and_then-eq-ok (err e) f h = cc

-- A call that did not succeed raised something.
pub error_of_fail : {A : Type 0} (m : Result A) → is_ok m ≡ false → (e : Error) × (m ≡ err e)
error_of_fail (ok a) h = cc
error_of_fail (err e) h = (e, refl)

-- Whenever the call succeeds, what it leaves behind satisfies `P`.
abbrev pub Ends : {S A : Type 0} → (S → Type 0) → Exec S A → Type 0
Ends {S} {A} P m = (s : S) (a : A) (s' : S) → m s ≡ (ok a, s') → P s'

module _ {S A B : Type 0} where
  -- A sequence of calls ends as its last one does.
  pub bind-Ends :
      (P : S → Type 0) (m : Exec S A) (f : A → Exec S B)
      → ((a : A) → Ends P (f a))
      → Ends P (m >>= f)
  bind-Ends P m f h s b s' e = from (m s).0 (m s).1 e
    where
      from : (r : Result A) (t : S) → continue r t f ≡ (ok b, s') → P s'
      from (ok a) t e = h a t b s' e
      from (err x) t e = absurd (fails (ap (λ pair. is_ok pair.0) e))
        where
          fails : false ≡ true → ⊥
          fails h = cc

  -- A sequence of calls succeeded if both did.
  pub bind-eq-ok :
      (m : Exec S A) (f : A → Exec S B) (s s' : S) {b : B}
      → (m >>= f) s ≡ (ok b, s')
      → (a : A) × (t : S) × (m s ≡ (ok a, t)) × (f a t ≡ (ok b, s'))
  bind-eq-ok m f s s' {b} h = from (m s).0 refl h
    where
      from :
          (r : Result A)
          → r ≡ (m s).0
          → continue r (m s).1 f ≡ (ok b, s')
          → (a : A) × (t : S) × (m s ≡ (ok a, t)) × (f a t ≡ (ok b, s'))
      from (ok a) e h = (a, (m s).1, ap (λ r. (r, (m s).1)) (sym e), h)
      from (err x) e h = absurd (fails (ap (λ pair. is_ok pair.0) h))
        where
          fails : false ≡ true → ⊥
          fails g = cc
