-- ===== src/Devices/ControllerLaws.antt =====
-- The key that attach_controller finds, and what a second run of it asks for.
use cloudify_vsphere_plugin.Common.{
  ◌≡◌, refl, ap, ◌∙◌, true, false, ◌&&◌, not, Option, none, some, [], ◌∷◌, Within, Within-of_find,
  ℤ, lookup, put, remove, lookup-remove, Dict, Value, int, arr, truthy, or_null, Result, ok, err,
  is_ok, Exec, pure, continue, ◌>>=◌, ◌>>◌, Bool-cases, inl, inr, Option-cases, if◌then◌else◌,
  arith, key_error,
}
use cloudify_vsphere_plugin.Runtime.{World, Platform, del_prop, save}
use cloudify_vsphere_plugin.Devices.{
  DeviceCall, reconfigure, DeviceClass, Device, NewDevice, add, Machine, Machines, request,
}
use cloudify_vsphere_plugin.Devices.Controllers.{
  known_keys, items_of, is_known, keys_of_class, new_device, controller_properties, add_device,
  find_new, attach_controller,
}

-- The keys that a new device's key has to differ from: those kept by an earlier run, or those of the
-- devices of the class that the machine has in the cache.
abbrev pub known_to : Value → DeviceClass → Option Machine → Value
known_to saved c none = saved
known_to saved c (some vm) =
    if truthy saved then saved else arr (items_of (keys_of_class c vm.devices))

-- What a successful run tells of the machine as it is read at its end.
abbrev pub IsNewKey : Option Machine → DeviceClass → Value → Dict Value → Type 0
IsNewKey none c known settings = ⊥
IsNewKey (some vm) c known settings =
    (d : Device) × Within d vm.devices
    × (d.is_a c ≡ true)
    × (is_known d.key known ≡ false)
    × (lookup "busKey" settings ≡ some (int d.key))

module _ (p : Platform DeviceCall) (machines : Machines) (vm_id : Value) (c : DeviceClass) where
  abbrev pub Finds : Value → Result (Dict Value) → World DeviceCall → Type 0
  Finds known (err e) w = Unit
  Finds known (ok settings) w =
      IsNewKey (machines.fresh w.calls vm_id) c known settings
      × (lookup known_keys w.props ≡ none)
      × (w.stored ≡ w.props)

  abbrev pub finish : Value → Exec (World DeviceCall) (Dict Value)
  finish known = do
    d ← find_new p machines vm_id c known
    del_prop known_keys
    save
    pure (controller_properties d)

  key_of-controller_properties :
      (bus : Option ℤ) (d : Device)
      → d.bus_number ≡ bus
      → lookup "busKey" (controller_properties d) ≡ some (int d.key)
  unfolding lookup
  key_of-controller_properties none d e = rw e refl
  key_of-controller_properties (some n) d e = rw e refl

  found-IsNewKey :
      (known : Value) (vm : Machine) (d : Device)
      → new_device c known vm.devices ≡ some d
      → IsNewKey (some vm) c known (controller_properties d)
  found-IsNewKey known vm d e =
      let (there, fits) =
        Within-of_find (λ (x : Device). x.is_a c && not (is_known x.key known)) vm.devices e in
      (d, there, both.0 fits, both.1 fits, key_of-controller_properties d.bus_number d refl)
    where
      both :
          ((d.is_a c && not (is_known d.key known)) ≡ true → d.is_a c ≡ true)
          × ((d.is_a c && not (is_known d.key known)) ≡ true → is_known d.key known ≡ false)
      both = ((λ h. ground arith), λ h. ground arith)

  finish-known :
      (known : Value) (w : World DeviceCall) (vm : Machine) (d : Device)
      → machines.fresh w.calls vm_id ≡ some vm
      → new_device c known vm.devices ≡ some d
      → finish known w ≡ (do del_prop known_keys; save; pure (controller_properties d)) w
  unfolding find_new
  finish-known known w vm d at new = rw (at, new) refl

  del_prop-found :
      (v : Value) (w : World DeviceCall)
      → lookup known_keys w.props ≡ some v
      → del_prop known_keys w ≡ (ok tt, record w { props = remove known_keys w.props })
  del_prop-found v w saved = ground arith

  del_prop-missing :
      (w : World DeviceCall)
      → lookup known_keys w.props ≡ none
      → del_prop known_keys w ≡ (err (key_error known_keys), w)
  del_prop-missing w unsaved = ground arith

  pub finish-outcome :
      (known : Value) (w : World DeviceCall)
      → let (r, w') = finish known w in
        Finds known r w' × (w'.calls ≡ w.calls) × (is_ok r ≡ false → w' ≡ w)
  unfolding find_new
  finish-outcome known w = elim (Option-cases (machines.fresh w.calls vm_id)) [
    | inl gone ↦ rw gone (tt, refl, λ _. refl)
    | inr (vm, at) ↦ elim (Option-cases (new_device c known vm.devices)) [
      | inl none_new ↦ rw (at, none_new) (tt, refl, λ _. refl)
      | inr (d, new) ↦ elim (Option-cases (lookup known_keys w.props)) [
        | inl unsaved ↦
            rw (finish-known known w vm d at new, del_prop-missing w unsaved) (tt, refl, λ _. refl)
        | inr (v, saved) ↦
            rw (finish-known known w vm d at new, del_prop-found v w saved)
              (
                (
                  rw at (found-IsNewKey known vm d new),
                  ground (arith, lookup-remove known_keys known_keys w.props),
                  refl,
                ),
                refl,
                λ h. cc,
              )
      ]
    ]
  ]

  abbrev pub keys_value : Machine → Value
  keys_value vm = arr (items_of (keys_of_class c vm.devices))

  abbrev pub saved_keys : World DeviceCall → Value
  saved_keys w = or_null (lookup known_keys w.props)

  -- The state in which the device is asked for.
  abbrev pub with_keys : Machine → World DeviceCall → World DeviceCall
  with_keys vm w = record {
    props = put known_keys (keys_value vm) w.props;
    stored = put known_keys (keys_value vm) w.props;
    calls = w.calls;
  }

  module _ (device : NewDevice) where
    pub attach-saved :
        (w : World DeviceCall)
        → truthy vm_id ≡ true
        → truthy (saved_keys w) ≡ true
        → attach_controller p machines vm_id device c w ≡ finish (saved_keys w) w
    unfolding attach_controller
    attach-saved w id saved = rw (id, saved) refl

    reassociate :
        (k : Value) (r : Result (Unit {0})) (w : World DeviceCall)
        → let m = continue r w (λ _. pure k) in
          continue m.0 m.1 finish ≡ continue r w (λ _. finish k)
    reassociate k (ok _) w = refl
    reassociate k (err e) w = refl

    add_device-found :
        (w : World DeviceCall) (vm : Machine)
        → machines.cached vm_id ≡ some vm
        → add_device p machines vm_id device c w
          ≡ (request p (reconfigure (add device ∷ [])) >>= λ _. pure (keys_value vm))
              (with_keys vm w)
    unfolding add_device
    add_device-found w vm found = rw found refl

    attach-unsaved :
        (w : World DeviceCall)
        → truthy vm_id ≡ true
        → truthy (saved_keys w) ≡ false
        → attach_controller p machines vm_id device c w
          ≡ (add_device p machines vm_id device c >>= finish) w
    unfolding attach_controller
    attach-unsaved w id unsaved = rw (id, unsaved) refl

    pub attach-new :
        (w : World DeviceCall) (vm : Machine)
        → truthy vm_id ≡ true
        → truthy (saved_keys w) ≡ false
        → machines.cached vm_id ≡ some vm
        → attach_controller p machines vm_id device c w
          ≡ (request p (reconfigure (add device ∷ [])) >>= λ _. finish (keys_value vm))
              (with_keys vm w)
    attach-new w vm id unsaved found =
        let asked = request p (reconfigure (add device ∷ [])) (with_keys vm w) in
        attach-unsaved w id unsaved
        ∙ ap (λ m. continue m.0 m.1 finish) (add_device-found w vm found)
        ∙ reassociate (keys_value vm) asked.0 asked.1

    known_to-saved :
        (w : World DeviceCall) (m : Option Machine)
        → truthy (saved_keys w) ≡ true
        → known_to (saved_keys w) c m ≡ saved_keys w
    known_to-saved w none h = refl
    known_to-saved w (some vm) h = rw h refl

    finish-Finds :
        (vm : Machine) (r : Result (Unit {0})) (w : World DeviceCall)
        → let out = continue r w (λ _. finish (keys_value vm)) in Finds (keys_value vm) out.0 out.1
    finish-Finds vm (ok _) w = (finish-outcome (keys_value vm) w).0
    finish-Finds vm (err e) w = tt

    pub attach_controller-Finds :
        (w : World DeviceCall)
        → let (r, w') = attach_controller p machines vm_id device c w in
          Finds (known_to (or_null (lookup known_keys w.props)) c (machines.cached vm_id)) r w'
    unfolding attach_controller add_device
    attach_controller-Finds w = elim (Bool-cases (truthy vm_id)) [
      | inr no_id ↦ rw no_id tt
      | inl id ↦ elim (Bool-cases (truthy (saved_keys w))) [
        | inl saved ↦
            rw (attach-saved w id saved, known_to-saved w (machines.cached vm_id) saved)
              (finish-outcome (saved_keys w) w).0
        | inr unsaved ↦ elim (Option-cases (machines.cached vm_id)) [
          | inl gone ↦ rw (id, unsaved, gone) tt
          | inr (vm, found) ↦
              rw (attach-new w vm id unsaved found)
                (rw (found, unsaved) (finish-Finds vm (asked vm).0 (asked vm).1))
        ]
      ]
    ]
      where
        asked : Machine → Result (Unit {0}) × World DeviceCall
        asked vm = request p (reconfigure (add device ∷ [])) (with_keys vm w)
