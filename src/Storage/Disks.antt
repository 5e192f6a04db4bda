-- ===== src/Storage/Disks.antt =====
-- StorageClient.create_storage, delete_storage and resize_storage.
use cloudify_vsphere_plugin.Common.{
  ℕ, ◌*◌, ◌==◌, String, Text, codes, lower, text_eq, Bool, ◌&&◌, Option, none, some, List, [], ◌∷◌,
  ℤ, eqb_ℤ, length, Value, null, str, joined, truthy, Result, ok, err, non_recoverable, type_error,
  attribute_error, index_error, and_then, Exec, pure, raise, gets, lift, or_raise, raise_if, ◌>>=◌,
  ◌>>◌, if◌then◌else◌,
}
use cloudify_vsphere_plugin.Runtime.{World, Platform, get_prop, put_prop, del_prop, save}
use cloudify_vsphere_plugin.Runtime.{submit}
use cloudify_vsphere_plugin.Waiting.{wait_for_task}
use cloudify_vsphere_plugin.Storage.{
  Disk, Device, disk, scsi, other, DiskSpec, DiskCall, add_disk, destroy_disk, edit_disk, Machine,
}
use cloudify_vsphere_plugin.Storage.Scan.{new_file_name, find_controller, new_unit_number}

abbrev pub vm_disk_name : String
vm_disk_name = "vm_disk_name"

abbrev pub is_server_suspended : Machine → Bool
is_server_suspended vm = text_eq (lower vm.power_state) (codes "suspended")

abbrev pub first_datastore : List String → Result String
first_datastore [] = err index_error
first_datastore (d ∷ ds) = ok d

-- The specification of the new disk; `storage_size` is in GB.
unfoldable pub new_disk : Machine → ℕ → ℤ → String → Bool → Result DiskSpec
new_disk vm storage_size parent_key mode thin =
    and_then (first_datastore vm.datastores) λ datastore.
      and_then (new_file_name vm.devices) λ file_name.
        and_then (find_controller parent_key vm.devices) λ controller.
          and_then (new_unit_number (length controller.devices)) λ unit_number. ok (record {
            capacity_in_kb = storage_size * 1024 * 1024;
            capacity_in_bytes = storage_size * 1024 * 1024 * 1024;
            mode = mode;
            thin = thin;
            datastore = datastore;
            file_name = file_name;
            controller_key = controller.key;
            unit_number = unit_number;
          })

-- The first disk of that file name.
unfoldable pub find_disk : Text → List Device → Option Disk
find_disk name [] = none
find_disk name (disk d ∷ ds) =
    let later = find_disk name ds in if text_eq d.file_name name then some d else later
find_disk name (scsi _ ∷ ds) = find_disk name ds
find_disk name (other ∷ ds) = find_disk name ds

-- The last disk of that file name, which `delete_storage` and `resize_storage` take.
unfoldable pub find_last_disk : Text → Option Disk → List Device → Option Disk
find_last_disk name found [] = found
find_last_disk name found (disk d ∷ ds) =
    find_last_disk name (if text_eq d.file_name name then some d else found) ds
find_last_disk name found (scsi _ ∷ ds) = find_last_disk name found ds
find_last_disk name found (other ∷ ds) = find_last_disk name found ds

unfoldable pub find_bus : ℤ → List Device → Option ℕ
find_bus key [] = none
find_bus key (scsi c ∷ ds) =
    let later = find_bus key ds in if eqb_ℤ c.key key then some c.bus_number else later
find_bus key (disk _ ∷ ds) = find_bus key ds
find_bus key (other ∷ ds) = find_bus key ds

abbrev pub with_unit : ℕ → Option ℕ → Option (ℕ × ℕ)
with_unit unit none = none
with_unit unit (some bus) = some (bus, unit)

abbrev pub address_of : List Device → Option Disk → Option (ℕ × ℕ)
address_of ds none = none
address_of ds (some d) = with_unit d.unit_number (find_bus d.controller_key ds)

-- The SCSI id of the disk of that file name: bus and unit.
unfoldable pub scsi_address : Text → List Device → Option (ℕ × ℕ)
unfolding find_disk find_bus
scsi_address name ds = address_of ds (find_disk name ds)

-- The saved name of a disk whose creation was asked for. A saved value that is no string would fail
-- where the names are put together.
abbrev pub saved_name : Value → Result Text
saved_name (str s) = ok (codes s)
saved_name (joined t) = ok t
saved_name _ = err type_error

module _ (p : Platform DiskCall) where
  -- The part for a name that is not saved yet.
  unfoldable pub add_new_disk :
      Machine → ℕ → ℤ → String → Bool → Option ℤ → Exec (World DiskCall) Text
  unfolding new_disk
  add_new_disk vm storage_size parent_key mode thin max_wait = do
    spec ← lift (new_disk vm storage_size parent_key mode thin)
    task ← submit p (add_disk spec)
    put_prop vm_disk_name (joined spec.file_name)
    save
    wait_for_task p (some task) max_wait null
    pure spec.file_name

  -- The part after the creation: the saved name is dropped and the disk looked up.
  unfoldable pub locate_disk : Machine → Text → Exec (World DiskCall) (Text × (ℕ × ℕ))
  unfolding scsi_address
  locate_disk vm name = do
    del_prop vm_disk_name
    save
    address ← gets (λ w. scsi_address name (vm.live_devices w.calls))
    found ←
        or_raise address
          (non_recoverable "Could not find SCSI bus ID for disk with filename: {file_name}")
    pure (name, found)

  -- The file name and the SCSI id of the new disk. `none` is a machine that is not found.
  unfoldable pub create_storage :
      Option Machine → ℕ → ℤ → String → Bool → Option ℤ → Exec (World DiskCall) (Text × (ℕ × ℕ))
  create_storage found storage_size parent_key mode thin max_wait = do
    vm ← or_raise found (non_recoverable "Unable to get vm: {vm_id}")
    raise_if (is_server_suspended vm)
        (non_recoverable "Error during trying to create storage: invalid VM state - 'suspended'")
    saved ← get_prop vm_disk_name
    name ←
        if truthy saved
        then lift (saved_name saved)
        else add_new_disk vm storage_size parent_key mode thin max_wait
    locate_disk vm name

  abbrev pub destroy_found : Option ℤ → Option Disk → Exec (World DiskCall) (Unit {0})
  destroy_found max_wait none = pure tt
  destroy_found max_wait (some d) = do
    task ← submit p (destroy_disk d)
    wait_for_task p (some task) max_wait null

  -- A machine that is not found is `None`, on which the test of its power state fails.
  unfoldable pub delete_storage :
      Option Machine → Text → Option ℤ → Exec (World DiskCall) (Unit {0})
  unfolding find_last_disk
  delete_storage found file_name max_wait = do
    vm ← or_raise found attribute_error
    raise_if (is_server_suspended vm)
        (non_recoverable "Error during trying to delete storage: invalid VM state - 'suspended'")
    destroy_found max_wait (find_last_disk file_name none vm.devices)

  abbrev pub has_size : Disk → ℕ → Bool
  has_size d size =
      d.capacity_in_kb == size * 1024 * 1024 && d.capacity_in_bytes == size * 1024 * 1024 * 1024

  abbrev pub with_size : Disk → ℕ → Disk
  with_size d size = record d {
    capacity_in_kb = size * 1024 * 1024;
    capacity_in_bytes = size * 1024 * 1024 * 1024;
  }

  abbrev pub edit_found : ℕ → Option ℤ → Option Disk → Exec (World DiskCall) (Unit {0})
  edit_found size max_wait none =
      raise (non_recoverable "Error during trying to resize storage: storage not found.")
  edit_found size max_wait (some d) = if has_size d size then pure tt else do
    task ← submit p (edit_disk (with_size d size))
    wait_for_task p (some task) max_wait null

  unfoldable pub resize_storage :
      Option Machine → Text → ℕ → Option ℤ → Exec (World DiskCall) (Unit {0})
  unfolding find_last_disk
  resize_storage found file_name storage_size max_wait = do
    vm ← or_raise found attribute_error
    raise_if (is_server_suspended vm)
        (non_recoverable "Error during trying to resize storage: invalid VM state - 'suspended'")
    edit_found storage_size max_wait (find_last_disk file_name none vm.devices)
