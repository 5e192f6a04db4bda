-- ===== src/Storage/Plugin.antt =====
-- The operations of vsphere_storage_plugin/storage.py.
use cloudify_vsphere_plugin.Common.{
  ℕ, suc, ◌==◌, String, codes, Bool, true, false, ◌&&◌, ◌||◌, not, Option, none, some, List, [],
  ◌∷◌, ℤ, pos, negsuc, eqb_ℤ, filter, Dict, lookup, Value, null, flag, int, joined, truthy,
  has_part, Result, ok, err, Error, non_recoverable, operation_retry, key_error, Exec, pure, raise,
  lift, or_raise, raise_if, is_some, ◌>>=◌, ◌>>◌, if◌then◌else◌,
}
use cloudify_vsphere_plugin.Runtime.{World, Platform, get_prop, read_prop, put_prop, save}
use cloudify_vsphere_plugin.Storage.{DiskCall, Machine}
use cloudify_vsphere_plugin.Storage.Names.{write_digits}
use cloudify_vsphere_plugin.Storage.Disks.{
  saved_name, create_storage, delete_storage, resize_storage,
}

abbrev pub vsphere_server_id : String
vsphere_server_id = "vsphere_server_id"

abbrev pub vsphere_storage_file_name : String
vsphere_storage_file_name = "datastore_file_name"

abbrev pub vsphere_storage_vm_id : String
vsphere_storage_vm_id = "attached_vm_id"

abbrev pub vsphere_storage_vm_name : String
vsphere_storage_vm_name = "attached_vm_name"

abbrev pub vsphere_storage_size : String
vsphere_storage_size = "storage_size"

abbrev pub vsphere_storage_scsi_id : String
vsphere_storage_scsi_id = "scsi_id"

-- The `storage` input; `none` is a key that is not given.
pub record StorageProps : Type 0 where
  pub storage_size : Option ℕ
  pub parent_key : Option ℤ
  pub mode : Option String
  pub thin_provision : Option Bool
  pub scsi_id : Option Value
  pub datastore_file_name : Option Value

abbrev pub or_default : {A : Type 0} → A → Option A → A
or_default d none = d
or_default d (some a) = a

-- `bus:unit`
abbrev pub scsi_text : ℕ × ℕ → Value
scsi_text (bus, unit) = joined (write_digits (suc bus) bus (b':' ∷ write_digits (suc unit) unit []))

abbrev item : String → Dict Value → Result Value
item k d = elim (lookup k d) [ none ↦ err (key_error k) | some v ↦ ok v ]

abbrev has_server_id : Dict Value → Bool
has_server_id d = is_some (lookup vsphere_server_id d)

abbrev lone_vm : List (Dict Value) → Result (Dict Value)
lone_vm (d ∷ []) = ok d
lone_vm _ = err (
    non_recoverable
      "Error during trying to create storage: storage may be connected to at most one VM")

-- The machine that the volume belongs to, among the capabilities of the node.
unfoldable pub connected_vm : List (Dict Value) → Result (Dict Value)
connected_vm [] = err (
    non_recoverable
      "Error during trying to create storage: storage should be related to a VM, but capabilities are empty.")
connected_vm (c ∷ cs) = lone_vm (filter has_server_id (c ∷ cs))

-- `except NonRecoverableError`: the loser of a race for a file name tries again.
abbrev pub retry_clash : {A : Type 0} → Result A → Result A
retry_clash (ok a) = ok a
retry_clash (err (non_recoverable text)) =
    if has_part (codes text) (codes "vim.fault.FileAlreadyExists")
    then err (operation_retry "Name clash with another storage. Retrying")
    else err (non_recoverable text)
retry_clash (err e) = err e

abbrev pub catch_clash : {S A : Type 0} → Exec S A → Exec S A
catch_clash m s = let (r, s') = m s in (retry_clash r, s')

-- `find_machine` is the look-up of a machine by its id.
module _ (p : Platform DiskCall) (find_machine : Value → Option Machine) where
  abbrev copy : String → Option Value → Exec (World DiskCall) (Unit {0})
  copy k none = raise (non_recoverable "You should provide {fname}")
  copy k (some v) = put_prop k v

  abbrev size_value : Option ℕ → Option Value
  size_value none = none
  size_value (some n) = some (int (pos n))

  -- An existing disk is described by the inputs.
  abbrev reuse : StorageProps → Exec (World DiskCall) Bool
  reuse storage = do
    copy vsphere_storage_scsi_id storage.scsi_id
    copy vsphere_storage_file_name storage.datastore_file_name
    copy vsphere_storage_size (size_value storage.storage_size)
    put_prop "use_external_resource" (flag true)
    pure false

  -- A new disk; `true` is an early return, for a volume that was created before.
  abbrev make : StorageProps → Value → ℕ → Exec (World DiskCall) Bool
  make storage vm_id storage_size = do
    created ← get_prop vsphere_storage_file_name
    if truthy created then pure true else do
      made ← catch_clash (
          create_storage p (find_machine vm_id) storage_size
            (or_default (negsuc 0) storage.parent_key) (or_default "persistent" storage.mode)
            (or_default false storage.thin_provision) (some (pos 300)))
      put_prop vsphere_storage_size (int (pos storage_size))
      put_prop vsphere_storage_scsi_id (scsi_text made.1)
      put_prop vsphere_storage_file_name (joined made.0)
      pure false

  unfoldable pub create : StorageProps → Bool → List (Dict Value) → Exec (World DiskCall) (Unit {0})
  unfolding connected_vm
  create storage use_external_resource capabilities = do
    storage_size ← or_raise storage.storage_size (key_error "storage_size")
    vm ← lift (connected_vm capabilities)
    vm_id ← lift (item vsphere_server_id vm)
    vm_name ← lift (item "name" vm)
    done ← if use_external_resource then reuse storage else make storage vm_id storage_size
    if done
        then pure tt
        else do put_prop vsphere_storage_vm_id vm_id; put_prop vsphere_storage_vm_name vm_name; save

  unfoldable pub delete : Option ℤ → Exec (World DiskCall) (Unit {0})
  delete max_wait = do
    external ← get_prop "use_external_resource"
    vm_id ← get_prop vsphere_storage_vm_id
    vm_name ← get_prop vsphere_storage_vm_name
    if truthy external || not (truthy vm_name) || not (truthy vm_id) then pure tt else do
      file_name ← read_prop vsphere_storage_file_name
      name ← lift (saved_name file_name)
      delete_storage p (find_machine vm_id) name max_wait

  -- `if not storage_size`
  abbrev wanted_size : Option ℕ → Result ℕ
  wanted_size none = err (non_recoverable "missing storage size.")
  wanted_size (some n) = if n == 0 then err (non_recoverable "missing storage size.") else ok n

  -- The disk gets its new size, and then the property that tells it.
  abbrev pub set_size : Value → Value → ℕ → Option ℤ → Exec (World DiskCall) (Unit {0})
  set_size vm_id file_name size max_wait = do
    name ← lift (saved_name file_name)
    resize_storage p (find_machine vm_id) name size max_wait
    put_prop vsphere_storage_size (int (pos size))

  unfoldable pub resize : Option ℤ → Option ℕ → Exec (World DiskCall) (Unit {0})
  resize max_wait storage_size = do
    vm_id ← get_prop vsphere_storage_vm_id
    vm_name ← get_prop vsphere_storage_vm_name
    if not (truthy vm_name) || not (truthy vm_id) then pure tt else do
      file_name ← read_prop vsphere_storage_file_name
      size ← lift (wanted_size storage_size)
      set_size vm_id file_name size max_wait

  -- `storage_size and current_size and storage_size != current_size`
  abbrev pub differs : Option ℕ → Value → Bool
  differs none current = false
  differs (some n) (int m) = not (n == 0) && not (eqb_ℤ m (pos 0)) && not (eqb_ℤ (pos n) m)
  differs (some n) current = not (n == 0) && truthy current

  -- Whether the size that the node asks for is another one than that of the volume.
  unfoldable pub check_drift : Option ℕ → Exec (World DiskCall) Bool
  check_drift storage_size = do
    file_name ← get_prop vsphere_storage_file_name
    raise_if (not (truthy file_name)) (non_recoverable "Instance not configured correctly")
    current ← get_prop vsphere_storage_size
    pure (differs storage_size current)

  abbrev pub is_null : Value → Bool
  is_null null = true
  is_null _ = false

  abbrev pub not_configured : Error
  not_configured = non_recoverable "values passed or instance not initialized correctly"

  unfoldable pub update : Option ℕ → Exec (World DiskCall) (Unit {0})
  update storage_size = do
    vm_id ← get_prop vsphere_storage_vm_id
    file_name ← get_prop vsphere_storage_file_name
    raise_if (is_null vm_id || is_null file_name) not_configured
    size ← or_raise storage_size not_configured
    set_size vm_id file_name size (some (pos 300))
