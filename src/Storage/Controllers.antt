-- ===== src/Storage/Controllers.antt =====
-- The controller of a new disk: the only one, or the one that was asked for.
use cloudify_vsphere_plugin.Common.{
  ℕ, suc, ◌+◌, ◌≡◌, refl, ap, ◌∙◌, true, false, Option, none, some, List, [], ◌∷◌, ℤ, pos, ltb_ℤ,
  eqb_ℤ, length, find, Result, ok, err, non_recoverable, arith, Bool-cases, inl, inr, if◌then◌else◌,
}
use cloudify_vsphere_plugin.Storage.{Controller, Device, disk, scsi, other}
use cloudify_vsphere_plugin.Storage.Scan.{search_controller, only_one, find_controller}

-- The controllers of the four types, in the order of the devices.
abbrev pub known_controllers : List Device → List Controller
known_controllers [] = []
known_controllers (scsi c ∷ ds) = if c.known then c ∷ known_controllers ds else known_controllers ds
known_controllers (disk _ ∷ ds) = known_controllers ds
known_controllers (other ∷ ds) = known_controllers ds

abbrev last_of : Option Controller → List Controller → Option Controller
last_of found [] = found
last_of found (c ∷ cs) = last_of (some c) cs

search_any :
    (parent_key : ℤ) (n : ℕ) (found : Option Controller) (ds : List Device)
    → ltb_ℤ parent_key (pos 0) ≡ true
    → search_controller parent_key n found ds
      ≡ (n + length (known_controllers ds), last_of found (known_controllers ds))
search_any k n found [] e = ap (λ m. (m, found)) (omega arith)
search_any k n found (scsi c ∷ ds) e = elim (Bool-cases c.known) [
  | inl known ↦
      simp (known, e)
        (search_any k (suc n) (some c) ds e
          ∙ ap (λ m. (m, last_of (some c) (known_controllers ds))) (omega arith))
  | inr unknown ↦ simp unknown (search_any k n found ds e)
]
search_any k n found (disk _ ∷ ds) e = search_any k n found ds e
search_any k n found (other ∷ ds) e = search_any k n found ds e

abbrev no_controller : Result Controller
no_controller = err (
    non_recoverable
      "Error during trying to create storage: SCSI controller cannot be found or is present more than once.")

abbrev sole : List Controller → Result Controller
sole (c ∷ []) = ok c
sole _ = no_controller

last_is_some :
    (c : Controller) (cs : List Controller) → (x : Controller) × (last_of (some c) cs ≡ some x)
last_is_some c [] = (c, refl)
last_is_some c (d ∷ cs) = last_is_some d cs

only_one-sole : (cs : List Controller) → only_one (length cs, last_of none cs) ≡ sole cs
only_one-sole [] = refl
only_one-sole (c ∷ []) = refl
only_one-sole (c ∷ d ∷ cs) = let (x, e) = last_is_some d cs in rw e (ground arith)

abbrev or_none : Option Controller → Result Controller
or_none none = no_controller
or_none (some c) = ok c

search_key :
    (parent_key : ℤ) (ds : List Device)
    → ltb_ℤ parent_key (pos 0) ≡ false
    → only_one (search_controller parent_key 0 none ds)
      ≡ or_none (find (λ c. eqb_ℤ parent_key c.key) (known_controllers ds))
search_key k [] e = refl
search_key k (scsi c ∷ ds) e = elim (Bool-cases c.known) [
  | inr unknown ↦ simp unknown (search_key k ds e)
  | inl known ↦ elim (Bool-cases (eqb_ℤ k c.key)) [
    | inl same ↦ simp (known, e, same)
    | inr differs ↦ simp (known, e, differs) (search_key k ds e)
  ]
]
search_key k (disk _ ∷ ds) e = search_key k ds e
search_key k (other ∷ ds) e = search_key k ds e

-- With no key given (a negative one), the controller is the one of the machine, and with none or
-- several of them the search raises; with a key it is the first that has it, and without such a
-- one the search raises.
pub find_controller-chosen :
    (parent_key : ℤ) (devices : List Device)
    → find_controller parent_key devices ≡ (
        if ltb_ℤ parent_key (pos 0)
        then sole (known_controllers devices)
        else or_none (find (λ c. eqb_ℤ parent_key c.key) (known_controllers devices)))
unfolding find_controller
find_controller-chosen k devices = elim (Bool-cases (ltb_ℤ k (pos 0))) [
  | inl negative ↦ rw negative (
      ap only_one (
        search_any k 0 none devices negative
        ∙ ap (λ m. (m, last_of none (known_controllers devices))) (omega arith))
      ∙ only_one-sole (known_controllers devices))
  | inr key ↦ rw key (search_key k devices key)
]
