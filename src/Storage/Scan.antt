-- ===== src/Storage/Scan.antt =====
-- `create_storage`: the file name, the controller and the unit number of a new disk.
use cloudify_vsphere_plugin.Common.{
  ℕ, suc, Text, Option, none, some, List, [], ◌∷◌, ℤ, pos, ltb, ◌==◌, ltb_ℤ, eqb_ℤ, Result, ok, err,
  non_recoverable, attribute_error, and_then, if◌then◌else◌,
}
use cloudify_vsphere_plugin.Storage.{Controller, Device, disk, scsi, other}
use cloudify_vsphere_plugin.Storage.Names.{match_path, match_number, numbered_name}

-- What the loop over the disks keeps: `vm_disk_filename` and `vm_disk_filename_increment`.
pub record NameScan : Type 0 where
  pub base : Option Text
  pub increment : ℕ

-- `if vm_disk_filename is None: vm_disk_filename = m.group(1)`, which fails on a name without a match
abbrev pub first_base : Text → Option Text → Result Text
first_base name (some base) = ok base
first_base name none = elim (match_path name) [ none ↦ err attribute_error | some base ↦ ok base ]

abbrev pub count_number : ℕ → Text → Option (Text × ℕ) → NameScan
count_number increment base none = record { base = some base; increment = increment }
count_number increment base (some (prefix, n)) = record {
  base = some prefix;
  increment = if ltb increment n then n else increment;
}

unfoldable pub scan_names : NameScan → List Device → Result NameScan
scan_names s [] = ok s
scan_names s (disk d ∷ ds) =
    and_then (first_base d.file_name s.base)
      λ base. scan_names (count_number s.increment base (match_number d.file_name)) ds
scan_names s (scsi _ ∷ ds) = scan_names s ds
scan_names s (other ∷ ds) = scan_names s ds

-- `if not vm_disk_filename: raise`, and the name that follows the last one.
abbrev pub next_name : NameScan → Option Text → Result Text
next_name s none =
    err (non_recoverable "Error during trying to create storage: Invalid VMDK name - '{0}'")
next_name s (some []) =
    err (non_recoverable "Error during trying to create storage: Invalid VMDK name - '{0}'")
next_name s (some (c ∷ cs)) = ok (numbered_name (c ∷ cs) (suc s.increment))

unfoldable pub new_file_name : List Device → Result Text
unfolding scan_names
new_file_name devices =
    and_then (scan_names (record { base = none; increment = 0 }) devices) λ s. next_name s s.base

abbrev pub search_controller : ℤ → ℕ → Option Controller → List Device → ℕ × Option Controller
search_controller parent_key n found [] = (n, found)
search_controller parent_key n found (scsi c ∷ ds) =
    let counted = search_controller parent_key (suc n) (some c) ds in
    let passed = search_controller parent_key n found ds in
    if c.known
    then if ltb_ℤ parent_key (pos 0)
      then counted
      else if eqb_ℤ parent_key c.key
      then (1, some c)
      else passed
    else passed
search_controller parent_key n found (disk _ ∷ ds) = search_controller parent_key n found ds
search_controller parent_key n found (other ∷ ds) = search_controller parent_key n found ds

abbrev pub only_one : ℕ × Option Controller → Result Controller
only_one (n, none) = err (
    non_recoverable
      "Error during trying to create storage: SCSI controller cannot be found or is present more than once.")
only_one (n, some c) =
    if n == 1
    then ok c
    else err (
        non_recoverable
          "Error during trying to create storage: SCSI controller cannot be found or is present more than once.")

unfoldable pub find_controller : ℤ → List Device → Result Controller
find_controller parent_key devices = only_one (search_controller parent_key 0 none devices)

-- 7 cannot be used, and the limit is 15.
unfoldable pub new_unit_number : ℕ → Result ℕ
new_unit_number attached =
    if ltb attached 7
    then ok attached
    else if attached == 15
    then err (
        non_recoverable
          "Error during trying to create storage: one SCSI controller cannot have more than 15 virtual disks.")
    else ok (suc attached)
