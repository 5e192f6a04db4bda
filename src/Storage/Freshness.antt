-- ===== src/Storage/Freshness.antt =====
-- The name, the controller and the unit number of a new disk are right for it.
use cloudify_vsphere_plugin.Common.{
  ℕ, suc, ◌≤◌, ◌<◌, ◌≡◌, ◌≢◌, refl, sym, ap, subst, ◌∙◌, Text, Option, none, some, List, [], ◌∷◌,
  ltb, Within, ok, err, and_then-eq-ok, non_recoverable, arith, inl, inr, if◌then◌else◌,
}
use cloudify_vsphere_plugin.Storage.{Disk, Device, disk, scsi, other}
use cloudify_vsphere_plugin.Storage.Names.{match_number, numbered_name}
use cloudify_vsphere_plugin.Storage.Numbers.{match_number-numbered_name}
use cloudify_vsphere_plugin.Storage.Scan.{
  NameScan, first_base, count_number, scan_names, next_name, new_file_name, new_unit_number,
}

counted :
    (s : NameScan) (base : Text) (o : Option (Text × ℕ))
    → (s.increment ≤ (count_number s.increment base o).increment)
      × ((b : Text) (n : ℕ) → o ≡ some (b, n) → n ≤ (count_number s.increment base o).increment)
counted s base none = (omega arith, λ b n e. cc)
counted s base (some (prefix, m)) = (ground arith, λ b n e. grind (arith, e))

disk_injective : (x d : Disk) → disk x ≡ disk d → x ≡ d
disk_injective x d e = cc

ok_injective : (a b : NameScan) → ok a ≡ ok b → a ≡ b
ok_injective a b e = cc

name_injective : (a b : Text) → ok a ≡ ok b → a ≡ b
name_injective a b e = cc

-- After the loop the increment is at least that of every disk it saw.
scan_names-bound :
    (ds : List Device) (s : NameScan) {s' : NameScan}
    → scan_names s ds ≡ ok s'
    → (s.increment ≤ s'.increment)
      × ((d : Disk) (b : Text) (n : ℕ)
          → Within (disk d) ds
          → match_number d.file_name ≡ some (b, n)
          → n ≤ s'.increment)
unfolding scan_names
scan_names-bound [] s {s'} e = (
  subst (λ x. s.increment ≤ x.increment) (ok_injective s s' e) (omega arith),
  λ d b n m. absurd m,
)
scan_names-bound (disk d ∷ ds) s {s'} e =
    let (base, _, rest) = and_then-eq-ok (first_base d.file_name s.base) _ e in
    let (grows, covers) = counted s base (match_number d.file_name) in
    let (later, all) =
      scan_names-bound ds (count_number s.increment base (match_number d.file_name)) rest in
    (
      omega (arith, grows, later),
      λ x b n m matched. elim m [
        | inl here ↦
            let e' =
              ap (λ (y : Disk). match_number y.file_name) (sym (disk_injective x d here))
              ∙ matched in
            omega (arith, covers b n e', later)
        | inr there ↦ all x b n there matched
      ],
    )
scan_names-bound (scsi c ∷ ds) s e =
    let (later, all) = scan_names-bound ds s e in
    (later, λ x b n m matched. elim m [ inl here ↦ cc | inr there ↦ all x b n there matched ])
scan_names-bound (other ∷ ds) s e =
    let (later, all) = scan_names-bound ds s e in
    (later, λ x b n m matched. elim m [ inl here ↦ cc | inr there ↦ all x b n there matched ])

next_name-number :
    (s : NameScan) (o : Option Text) {name : Text}
    → next_name s o ≡ ok name
    → (b : Text) × (match_number name ≡ some (b, suc s.increment))
next_name-number s none e = cc
next_name-number s (some []) e = cc
next_name-number s (some (c ∷ cs)) {name} e = (
  c ∷ cs,
  ap match_number (sym (name_injective (numbered_name (c ∷ cs) (suc s.increment)) name e))
      ∙ match_number-numbered_name (c ∷ cs) (suc s.increment),
)

-- No disk of the machine has the name that a new disk gets.
pub new_file_name-fresh :
    (devices : List Device) (name : Text)
    → new_file_name devices ≡ ok name
    → (d : Disk) → Within (disk d) devices
    → d.file_name ≢ name
unfolding new_file_name
new_file_name-fresh devices name e d m same =
    let (s, scanned, named) =
      and_then-eq-ok (scan_names (record { base = none; increment = 0 }) devices) _ e in
    let (b, numbered) = next_name-number s s.base named in
    let (_, all) = scan_names-bound devices _ scanned in
    absurd (omega (arith, all d b (suc s.increment) m (ap match_number same ∙ numbered)))

-- The units of 15 disks one after another: none is 7, none is above 15 and no two are the same.
-- A sixteenth is refused.
pub new_unit_number_sound :
    (attached : ℕ)
    → (attached < 15
        → (unit : ℕ) × (new_unit_number attached ≡ ok unit)
          × (unit ≤ 15)
          × (unit ≢ 7)
          × ((fewer : ℕ) → fewer < attached → new_unit_number fewer ≢ ok unit))
      × (attached ≡ 15
          → new_unit_number attached
            ≡ err (
                non_recoverable
                  "Error during trying to create storage: one SCSI controller cannot have more than 15 virtual disks."))
unfolding new_unit_number
new_unit_number_sound attached = (
  λ h. (
    if ltb attached 7 then attached else suc attached,
    ground arith,
    ground arith,
    ground arith,
    λ fewer less same. ground arith,
  ),
  λ e. rw e refl,
)
