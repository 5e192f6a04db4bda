-- ===== src/Storage/Addresses.antt =====
-- The SCSI address that a disk of a file name has among the devices of a machine.
use cloudify_vsphere_plugin.Common.{
  ℕ, ◌≡◌, refl, ap, Text, text_eq, Bool, true, false, Option, none, some, List, [], ◌∷◌, ◌++◌, any,
  ℤ, eqb_ℤ, Bool-cases, inl, inr, ◌⊎◌, arith,
}
use cloudify_vsphere_plugin.Storage.{Disk, Controller, Device, disk, scsi, other}
use cloudify_vsphere_plugin.Storage.Disks.{find_disk, find_bus, with_unit, address_of, scsi_address}

abbrev pub is_disk_of : Text → Device → Bool
is_disk_of name (disk d) = text_eq d.file_name name
is_disk_of name _ = false

abbrev pub is_controller_of : ℤ → Device → Bool
is_controller_of key (scsi c) = eqb_ℤ c.key key
is_controller_of key _ = false

-- The first device that passes a test.
abbrev pub IsFirst : (Device → Bool) → List Device → Device → Type 0
IsFirst test ds x =
    (before : List Device) × (after : List Device) × (ds ≡ before ++ x ∷ after)
    × (any test before ≡ false)
    × (test x ≡ true)

-- The disk of an address, its controller, and the address.
abbrev pub HasAddress : Text → List Device → ℕ → ℕ → Type 0
HasAddress name ds bus unit =
    (d : Disk) × (c : Controller) × IsFirst (is_disk_of name) ds (disk d)
    × IsFirst (is_controller_of d.controller_key) ds (scsi c)
    × (c.bus_number ≡ bus)
    × (d.unit_number ≡ unit)

-- There is no disk of the name, or the first one of them has no controller.
abbrev pub HasNone : Text → List Device → Type 0
HasNone name ds =
    (any (is_disk_of name) ds ≡ false)
    ⊎ ((d : Disk) × IsFirst (is_disk_of name) ds (disk d)
        × (any (is_controller_of d.controller_key) ds ≡ false))

IsFirst-cons :
    (test : Device → Bool) (y : Device) (ds : List Device) (x : Device)
    → test y ≡ false
    → IsFirst test ds x
    → IsFirst test (y ∷ ds) x
IsFirst-cons test y ds x fails (before, after, same, none_before, passes) =
    (y ∷ before, after, ap (λ l. y ∷ l) same, ground (arith, fails, none_before), passes)

abbrev FindsDisk : Text → List Device → Option Disk → Type 0
FindsDisk name ds none = any (is_disk_of name) ds ≡ false
FindsDisk name ds (some d) = IsFirst (is_disk_of name) ds (disk d)

FindsDisk-cons :
    (name : Text) (y : Device) (ds : List Device) (o : Option Disk)
    → is_disk_of name y ≡ false
    → FindsDisk name ds o
    → FindsDisk name (y ∷ ds) o
FindsDisk-cons name y ds none fails h = ground (arith, fails, h)
FindsDisk-cons name y ds (some d) fails h = IsFirst-cons (is_disk_of name) y ds (disk d) fails h

find_disk-FindsDisk : (name : Text) (ds : List Device) → FindsDisk name ds (find_disk name ds)
unfolding find_disk
find_disk-FindsDisk name [] = refl
find_disk-FindsDisk name (scsi c ∷ ds) =
    FindsDisk-cons name (scsi c) ds (find_disk name ds) refl (find_disk-FindsDisk name ds)
find_disk-FindsDisk name (other ∷ ds) =
    FindsDisk-cons name other ds (find_disk name ds) refl (find_disk-FindsDisk name ds)
find_disk-FindsDisk name (disk d ∷ ds) = elim (Bool-cases (text_eq d.file_name name)) [
  | inl passes ↦ rw passes ([], ds, refl, refl, passes)
  | inr fails ↦
      rw fails
        (FindsDisk-cons name (disk d) ds (find_disk name ds) fails (find_disk-FindsDisk name ds))
]

abbrev FindsBus : ℤ → List Device → Option ℕ → Type 0
FindsBus key ds none = any (is_controller_of key) ds ≡ false
FindsBus key ds (some bus) =
    (c : Controller) × IsFirst (is_controller_of key) ds (scsi c) × (c.bus_number ≡ bus)

FindsBus-cons :
    (key : ℤ) (y : Device) (ds : List Device) (o : Option ℕ)
    → is_controller_of key y ≡ false
    → FindsBus key ds o
    → FindsBus key (y ∷ ds) o
FindsBus-cons key y ds none fails h = ground (arith, fails, h)
FindsBus-cons key y ds (some bus) fails (c, first, same) =
    (c, IsFirst-cons (is_controller_of key) y ds (scsi c) fails first, same)

find_bus-FindsBus : (key : ℤ) (ds : List Device) → FindsBus key ds (find_bus key ds)
unfolding find_bus
find_bus-FindsBus key [] = refl
find_bus-FindsBus key (disk d ∷ ds) =
    FindsBus-cons key (disk d) ds (find_bus key ds) refl (find_bus-FindsBus key ds)
find_bus-FindsBus key (other ∷ ds) =
    FindsBus-cons key other ds (find_bus key ds) refl (find_bus-FindsBus key ds)
find_bus-FindsBus key (scsi c ∷ ds) = elim (Bool-cases (eqb_ℤ c.key key)) [
  | inl passes ↦ rw passes (c, ([], ds, refl, refl, passes), refl)
  | inr fails ↦
      rw fails (FindsBus-cons key (scsi c) ds (find_bus key ds) fails (find_bus-FindsBus key ds))
]

abbrev pub Addressed : Text → List Device → Option (ℕ × ℕ) → Type 0
Addressed name ds none = HasNone name ds
Addressed name ds (some (bus, unit)) = HasAddress name ds bus unit

module _ (name : Text) (ds : List Device) where
  with_unit-Addressed :
      (d : Disk) (o : Option ℕ)
      → IsFirst (is_disk_of name) ds (disk d)
      → FindsBus d.controller_key ds o
      → Addressed name ds (with_unit d.unit_number o)
  with_unit-Addressed d none first missing = inr (d, first, missing)
  with_unit-Addressed d (some bus) first (c, controls, same) = (d, c, first, controls, same, refl)

  address_of-Addressed :
      (o : Option Disk) → FindsDisk name ds o → Addressed name ds (address_of ds o)
  address_of-Addressed none missing = inl missing
  address_of-Addressed (some d) first =
      with_unit-Addressed d (find_bus d.controller_key ds) first
        (find_bus-FindsBus d.controller_key ds)

  pub scsi_address-Addressed : Addressed name ds (scsi_address name ds)
  unfolding scsi_address
  scsi_address-Addressed = address_of-Addressed (find_disk name ds) (find_disk-FindsDisk name ds)
