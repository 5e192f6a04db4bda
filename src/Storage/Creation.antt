-- ===== src/Storage/Creation.antt =====
-- What the storage operations ask of vSphere and keep, on the first run and on the next.
use cloudify_vsphere_plugin.Common.{
  ℕ, ◌≤◌, ◌≡◌, refl, sym, ◌∙◌, String, Text, Bool, false, Option, none, some, List, [], ◌∷◌, ◌++◌,
  ℤ, Value, null, joined, lookup, dict_laws, Result, ok, err, is_ok, error_of_fail, non_recoverable,
  append-nil, arith, Error, put, remove, Bool-cases, inl, inr, ◌⊎◌, if◌then◌else◌, continue, pure,
}
use cloudify_vsphere_plugin.Runtime.{World, Platform}
use cloudify_vsphere_plugin.Waiting.{wait_for_task}
use cloudify_vsphere_plugin.Runtime.{error}
use cloudify_vsphere_plugin.Waiting.{task_error, wait_limit}
use cloudify_vsphere_plugin.Waiting.Poll.{SettlesAt}
use cloudify_vsphere_plugin.Waiting.Outcomes.{patience, wait_fails}
use cloudify_vsphere_plugin.Waiting.Quiet.{wait-calls}
use cloudify_vsphere_plugin.Storage.{
  Disk, Device, DiskSpec, DiskCall, add_disk, destroy_disk, edit_disk, Machine,
}
use cloudify_vsphere_plugin.Storage.Addresses.{
  HasAddress, HasNone, Addressed, scsi_address-Addressed,
}
use cloudify_vsphere_plugin.Storage.Disks.{
  vm_disk_name, is_server_suspended, new_disk, find_last_disk, scsi_address, add_new_disk,
  locate_disk, create_storage, delete_storage, resize_storage, has_size, destroy_found, edit_found,
  with_size,
}

abbrev not_located : Error
not_located = non_recoverable "Could not find SCSI bus ID for disk with filename: {file_name}"

-- How a creation ends, by the address of the disk.
abbrev located : Text → Option (ℕ × ℕ) → Result (Text × (ℕ × ℕ))
located name none = err not_located
located name (some at) = ok (name, at)

-- An answer is right, or an error where there is nothing to answer.
abbrev pub Locates : Text → List Device → Result (Text × (ℕ × ℕ)) → Type 0
Locates name ds r =
    ((bus : ℕ) × (unit : ℕ) × HasAddress name ds bus unit × (r ≡ ok (name, (bus, unit))))
    ⊎ (HasNone name ds × (r ≡ err not_located))

located-Locates :
    (name : Text) (ds : List Device) (o : Option (ℕ × ℕ))
    → Addressed name ds o
    → Locates name ds (located name o)
located-Locates name ds none missing = inr (missing, refl)
located-Locates name ds (some (bus, unit)) address = inl (bus, unit, address, refl)

module _ (p : Platform DiskCall) (vm : Machine) (running : is_server_suspended vm ≡ false) where
  locate-calls : (name : Text) (w : World DiskCall) → (locate_disk p vm name w).1.calls ≡ w.calls
  unfolding locate_disk
  locate-calls name w = ground arith

  abbrev drop_name : World DiskCall → World DiskCall
  drop_name w = let d = remove vm_disk_name w.props in record w { props = d; stored = d }

  locate-by :
      (name : Text) (w : World DiskCall) {v : Value} (o : Option (ℕ × ℕ))
      → lookup vm_disk_name w.props ≡ some v
      → scsi_address name (vm.live_devices w.calls) ≡ o
      → locate_disk p vm name w ≡ (located name o, drop_name w)
  unfolding locate_disk
  locate-by name w none saved e = ground arith
  locate-by name w (some at) saved e = ground arith

  locate-drops :
      (name : Text) (w : World DiskCall) {v : Value}
      → lookup vm_disk_name w.props ≡ some v
      → locate_disk p vm name w
        ≡ (located name (scsi_address name (vm.live_devices w.calls)), drop_name w)
  locate-drops name w saved =
      locate-by name w (scsi_address name (vm.live_devices w.calls)) saved refl

  module _ (storage_size : ℕ) (parent_key : ℤ) (mode : String) (thin : Bool) (max_wait : Option ℤ)
      (w : World DiskCall) where
    -- Let the name of a disk be saved by an earlier run, and the machine not be suspended. The run asks
    -- for nothing and drops the saved name. It answers with the name and with an address, which is
    -- the unit number of the first disk of that name on the machine and the bus number of the
    -- first controller with that disk's controller key; it raises if and only if there is no such
    -- disk or the first one has no such controller.
    pub create_storage-resumes :
        (c : ℕ) (cs : Text)
        → lookup vm_disk_name w.props ≡ some (joined (c ∷ cs))
        → let (r, w') = create_storage p (some vm) storage_size parent_key mode thin max_wait w in
          Locates (c ∷ cs) (vm.live_devices w.calls) r
          × (lookup vm_disk_name w'.stored ≡ none)
          × (w'.calls ≡ w.calls)
    unfolding create_storage
    create_storage-resumes c cs saved =
        rw (running, saved, locate-drops (c ∷ cs) w saved)
          (
            located-Locates (c ∷ cs) (vm.live_devices w.calls)
                (scsi_address (c ∷ cs) (vm.live_devices w.calls))
                (scsi_address-Addressed (c ∷ cs) (vm.live_devices w.calls)),
            simp dict_laws,
            refl,
          )

    finish-calls :
        (r : Result Text) (w' : World DiskCall)
        → (continue r w' (locate_disk p vm)).1.calls ≡ w'.calls
    finish-calls (ok name) w' = locate-calls name w'
    finish-calls (err e) w' = refl

    -- The world in which the wait for the new disk begins: its name is saved.
    abbrev asked_world : DiskSpec → World DiskCall
    asked_world spec =
        let d = put vm_disk_name (joined spec.file_name) w.props in
        record { props = d; stored = d; calls = w.calls ++ add_disk spec ∷ [] }

    abbrev waited : DiskSpec → Result (Unit {0}) × World DiskCall
    waited spec =
        wait_for_task p (some (p.reply w.calls (add_disk spec))) max_wait null (asked_world spec)

    named-calls :
        (r : Result (Unit {0})) (v : World DiskCall) (name : Text)
        → (continue r v (λ _. pure name)).1.calls ≡ v.calls
    named-calls (ok _) v name = refl
    named-calls (err _) v name = refl

    add-calls :
        (spec : DiskSpec)
        → new_disk vm storage_size parent_key mode thin ≡ ok spec
        → (add_new_disk p vm storage_size parent_key mode thin max_wait w).1.calls
          ≡ w.calls ++ add_disk spec ∷ []
    unfolding add_new_disk
    add-calls spec e = rw e (
        named-calls (waited spec).0 (waited spec).1 spec.file_name
        ∙ wait-calls p _ max_wait null (asked_world spec))

    add-nothing :
        (e : Error)
        → new_disk vm storage_size parent_key mode thin ≡ err e
        → add_new_disk p vm storage_size parent_key mode thin max_wait w ≡ (err e, w)
    unfolding add_new_disk
    add-nothing e raised = rw raised

    -- A first run asks once for a disk of the specification that the code computes; where it computes
    -- none, the run raises and changes nothing.
    pub create_storage-requests :
        lookup vm_disk_name w.props ≡ none
        → let (r, w') = create_storage p (some vm) storage_size parent_key mode thin max_wait w in
          ((spec : DiskSpec)
            → new_disk vm storage_size parent_key mode thin ≡ ok spec
            → w'.calls ≡ w.calls ++ add_disk spec ∷ [])
          × (is_ok (new_disk vm storage_size parent_key mode thin) ≡ false
              → (is_ok r ≡ false) × (w' ≡ w))
    unfolding create_storage
    create_storage-requests fresh =
        rw (running, fresh)
          (
            (λ spec e. finish-calls _ _ ∙ add-calls spec e),
            λ bad.
                let (e, raised) =
                  error_of_fail (new_disk vm storage_size parent_key mode thin) bad in
                rw (add-nothing e raised) (refl, refl),
          )

    -- A creation whose task fails within the rounds of the wait raises, and the name of the disk
    -- stays saved: the next run takes the disk for one that it asked for.
    pub create_storage-keeps_name :
        (spec : DiskSpec) (n : ℕ)
        → lookup vm_disk_name w.props ≡ none
        → new_disk vm storage_size parent_key mode thin ≡ ok spec
        → SettlesAt (p.reply w.calls (add_disk spec)) 0 n
        → n ≤ patience (wait_limit max_wait)
        → (p.reply w.calls (add_disk spec)).state n ≡ error
        → let (r, w') = create_storage p (some vm) storage_size parent_key mode thin max_wait w in
          (r ≡ err (task_error (p.reply w.calls (add_disk spec))))
          × (lookup vm_disk_name w'.stored ≡ some (joined spec.file_name))
    unfolding create_storage add_new_disk
    create_storage-keeps_name spec n fresh e settles in_time bad =
        let (raised, reads, saved, _) =
          wait_fails p (p.reply w.calls (add_disk spec)) max_wait (asked_world spec) null n settles
            in_time bad in
        rw (running, fresh, e, raised) (refl, rw (saved, reads vm_disk_name) (simp dict_laws))

  -- The request that a destruction sends: the last disk of that name, or none.
  abbrev pub destroys : Option Disk → List DiskCall
  destroys none = []
  destroys (some d) = destroy_disk d ∷ []

  abbrev pub resizes : ℕ → Option Disk → List DiskCall
  resizes size none = []
  resizes size (some d) = if has_size p d size then [] else edit_disk (with_size p d size) ∷ []

  -- Deleting a disk asks for its destruction if the machine has a disk of that file name and for
  -- nothing otherwise; resizing it asks for the new size if it is another one.
  pub disk_requests :
      (name : Text) (size : ℕ) (max_wait : Option ℤ) (w : World DiskCall)
      → ((delete_storage p (some vm) name max_wait w).1.calls
          ≡ w.calls ++ destroys (find_last_disk name none vm.devices))
        × ((resize_storage p (some vm) name size max_wait w).1.calls
            ≡ w.calls ++ resizes size (find_last_disk name none vm.devices))
  unfolding delete_storage resize_storage
  disk_requests name size max_wait w = rw running (
    destroyed (find_last_disk name none vm.devices),
    resized (find_last_disk name none vm.devices),
  )
    where
      destroyed : (o : Option Disk) → (destroy_found p max_wait o w).1.calls ≡ w.calls ++ destroys o
      destroyed none = sym (append-nil w.calls)
      destroyed (some d) = wait-calls p _ max_wait null _

      resized :
          (o : Option Disk) → (edit_found p size max_wait o w).1.calls ≡ w.calls ++ resizes size o
      resized none = sym (append-nil w.calls)
      resized (some d) = elim (Bool-cases (has_size p d size)) [
        | inl same ↦ rw same (sym (append-nil w.calls))
        | inr differs ↦ rw differs (wait-calls p _ max_wait null _)
      ]
