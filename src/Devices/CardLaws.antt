-- ===== src/Devices/CardLaws.antt =====
-- The bus number of a new SCSI controller.
use cloudify_vsphere_plugin.Common.{
  ◌≡◌, refl, sym, ap, ◌∙◌, true, Option, none, some, List, [], ◌∷◌, ◌⊎◌, All, Within, ℤ, pos, ◌≤ℤ◌,
  ltb_ℤ, Dict, Value, int, Result, ok, err, and_then, and_then-eq-ok, Bool-cases, inl, inr,
  Option-cases, arith, if◌then◌else◌, truthy,
}
use cloudify_vsphere_plugin.Devices.{Device, ScsiCard, Machine, Machines}
use cloudify_vsphere_plugin.Devices.Cards.{
  get_or, highest_bus, devices_of, generate_scsi_card, scsi_card,
}

abbrev pub HasBus : ℤ → Option ℤ → Type 0
HasBus m none = ⊥
HasBus m (some n) = n ≡ m

abbrev pub AtMost : ℤ → Option ℤ → Type 0
AtMost m none = Unit
AtMost m (some n) = n ≤ℤ m

-- The least number that is no less than one asked for and those of the devices.
abbrev pub IsHighest : ℤ → ℤ → List Device → Type 0
IsHighest b m ds =
    (b ≤ℤ m)
    × All (λ (d : Device). AtMost m d.bus_number) ds
    × ((m ≡ b) ⊎ ((d : Device) × Within d ds × HasBus m d.bus_number))

abbrev Highest : ℤ → List Device → Result Value → Type 0
Highest b ds r = (m : ℤ) × (r ≡ ok (int m)) × IsHighest b m ds

-- Some device has the number.
abbrev pub IsTaken : ℤ → List Device → Type 0
IsTaken m ds = (d : Device) × Within d ds × HasBus m d.bus_number

later : (m : ℤ) (d : Device) (ds : List Device) → IsTaken m ds → IsTaken m (d ∷ ds)
later m d ds (x, there, same) = (x, inr there, same)

skip-IsHighest :
    (b m : ℤ) (d : Device) (ds : List Device)
    → AtMost m d.bus_number
    → IsHighest b m ds
    → IsHighest b m (d ∷ ds)
skip-IsHighest b m d ds h (low, all, inl same) = (low, (h, all), inl same)
skip-IsHighest b m d ds h (low, all, inr taken) = (low, (h, all), inr (later m d ds taken))

take-IsHighest :
    (b n m : ℤ) (d : Device) (ds : List Device)
    → d.bus_number ≡ some n
    → ltb_ℤ b n ≡ true
    → IsHighest n m ds
    → IsHighest b m (d ∷ ds)
take-IsHighest b n m d ds e less (low, all, inl same) =
    (ground arith, (rw e low, all), inr (d, inl refl, rw e (sym same)))
take-IsHighest b n m d ds e less (low, all, inr taken) =
    (ground arith, (rw e low, all), inr (later m d ds taken))

highest_bus-nil : (v : Value) → highest_bus v [] ≡ ok v
unfolding highest_bus
highest_bus-nil v = refl

highest_bus-none :
    (v : Value) (d : Device) (ds : List Device)
    → d.bus_number ≡ none
    → highest_bus v (d ∷ ds) ≡ highest_bus v ds
unfolding highest_bus
highest_bus-none v d ds e = rw e refl

highest_bus-some :
    (b n : ℤ) (d : Device) (ds : List Device)
    → d.bus_number ≡ some n
    → highest_bus (int b) (d ∷ ds) ≡ highest_bus (if ltb_ℤ b n then int n else int b) ds
unfolding highest_bus
highest_bus-some b n d ds e = rw e refl

highest_bus_lem : (b : ℤ) (ds : List Device) → Highest b ds (highest_bus (int b) ds)
highest_bus_lem b [] = (b, highest_bus-nil (int b), (omega arith, tt, inl refl))
highest_bus_lem b (d ∷ ds) = elim (Option-cases d.bus_number) [
  | inl none_there ↦
      let (m, found, highest) = highest_bus_lem b ds in
      (
        m,
        highest_bus-none (int b) d ds none_there ∙ found,
        skip-IsHighest b m d ds (rw none_there tt) highest,
      )
  | inr (n, there) ↦ elim (Bool-cases (ltb_ℤ b n)) [
    | inl less ↦
        let (m, found, highest) = highest_bus_lem n ds in
        (
          m,
          highest_bus-some b n d ds there
              ∙ ap (λ c. highest_bus (if c then int n else int b) ds) less
              ∙ found,
          take-IsHighest b n m d ds there less highest,
        )
    | inr not_less ↦
        let (m, found, highest) = highest_bus_lem b ds in
        (
          m,
          highest_bus-some b n d ds there
              ∙ ap (λ c. highest_bus (if c then int n else int b) ds) not_less
              ∙ found,
          skip-IsHighest b m d ds (rw there (ground (arith, highest.0))) highest,
        )
  ]
]

ok_inj : {v w : Value} → ok v ≡ ok w → v ≡ w
ok_inj e = cc

card-bus :
    (props : Dict Value) (label bus : Value) (unit : ℤ) (card : ScsiCard)
    → ok (scsi_card props label bus unit) ≡ ok card
    → card.bus_number ≡ bus
card-bus props label bus unit card e = sym (ap (λ (c : ScsiCard). c.bus_number) same)
  where
    same : scsi_card props label bus unit ≡ card
    same = cc

-- The bus number of a card that was made is the one that the loop gave.
bus_of_made :
    (props : Dict Value) (vm : Machine) (f : List Device → Result Value) (card : ScsiCard)
    (label : Result Value) (found : Option Machine) (unit : Result ℤ)
    → found ≡ some vm
    → and_then label (λ l.
      and_then
        (devices_of found)
        (λ ds. and_then (f ds) (λ bus. and_then unit (λ u. ok (scsi_card props l bus u)))))
      ≡ ok card
    → f vm.devices ≡ ok card.bus_number
bus_of_made props vm f card (err e) found unit at made = cc
bus_of_made props vm f card (ok l) none unit at made = cc
bus_of_made props vm f card (ok l) (some vm') (err e) at made =
    let (bus, _, with_bus) = and_then-eq-ok (f vm'.devices) (λ _. err e) made in cc with_bus
bus_of_made props vm f card (ok l) (some vm') (ok u) at made =
    let (bus, is_bus, with_bus) =
      and_then-eq-ok (f vm'.devices) (λ b. ok (scsi_card props l b u)) made in
    ap f (sym (ap devices_or at)) ∙ is_bus ∙ ap ok (sym (card-bus props l bus u card with_bus))
  where
    devices_or : Option Machine → List Device
    devices_or none = []
    devices_or (some m) = m.devices

-- A controller for which a number is asked, or none and so 0, gets the highest of that number and of
-- the bus numbers of the machine's devices: one that a device has already, unless it is the number
-- asked for.
pub generate_scsi_card-IsHighest :
    (machines : Machines) (props : Dict Value) (vm_id : Value) (vm : Machine) (b : ℤ)
    (card : ScsiCard)
    → machines.cached vm_id ≡ some vm
    → get_or "busNumber" (int (pos 0)) props ≡ int b
    → generate_scsi_card machines props vm_id ≡ ok card
    → (m : ℤ) × (card.bus_number ≡ int m) × IsHighest b m vm.devices
unfolding generate_scsi_card
generate_scsi_card-IsHighest machines props vm_id vm b card found asked done =
    elim (Bool-cases (truthy vm_id)) [
      | inr no_id ↦ cc (rw no_id at done)
      | inl id ↦
          let (m, is_bus, top) = highest_bus_lem b vm.devices in
          let made =
            bus_of_made props vm (highest_bus (get_or "busNumber" (int (pos 0)) props)) card _ _ _
              found (rw id at done) in
          (m, ok_inj (sym made ∙ ap (λ v. highest_bus v vm.devices) asked ∙ is_bus), top)
    ]
