-- ===== src/Storage/PluginLaws.antt =====
-- The operations on a volume together: what one leaves behind is what the next one expects.
use cloudify_vsphere_plugin.Common.{
  ℕ, ◌≡◌, ◌≢◌, ap, true, false, Option, some, ℤ, pos, lookup, dict_laws, Value, int, or_null, lift,
  raise_if, ◌||◌, ok, Ends, bind-Ends, subst, arith,
}
use cloudify_vsphere_plugin.Runtime.{World, Platform, put_prop}
use cloudify_vsphere_plugin.Storage.{DiskCall, Machine}
use cloudify_vsphere_plugin.Storage.Disks.{saved_name, resize_storage}
use cloudify_vsphere_plugin.Storage.Plugin.{
  vsphere_storage_size, vsphere_storage_vm_id, vsphere_storage_file_name, is_null, not_configured,
  set_size, differs, check_drift, update,
}

module _ (p : Platform DiskCall) (find_machine : Value → Option Machine) where
  same_size : (n : ℕ) → differs p find_machine (some n) (int (pos n)) ≡ false
  same_size n = ground arith

  -- No drift is seen once the size stands in the properties.
  no_drift :
      (n : ℕ) (w : World DiskCall)
      → lookup vsphere_storage_size w.props ≡ some (int (pos n))
      → (check_drift p find_machine (some n) w).0 ≢ ok true
  unfolding check_drift
  no_drift n w saved e = grind (arith, same_size n)

  abbrev SizeSaved : ℕ → World DiskCall → Type 0
  SizeSaved n w = lookup vsphere_storage_size w.props ≡ some (int (pos n))

  size_put :
      (n : ℕ) → Ends {A = Unit {0}} (SizeSaved n) (put_prop vsphere_storage_size (int (pos n)))
  size_put n w a w' e = subst (SizeSaved n) (ap (λ pair. pair.1) e) (simp dict_laws)

  set_size-SizeSaved :
      (vm_id file_name : Value) (n : ℕ) (max_wait : Option ℤ)
      → Ends (SizeSaved n) (set_size p find_machine vm_id file_name n max_wait)
  set_size-SizeSaved vm_id file_name n max_wait =
      bind-Ends (SizeSaved n) (lift (saved_name file_name)) _ λ name.
        bind-Ends (SizeSaved n) (resize_storage p (find_machine vm_id) name n max_wait)
          (λ _. put_prop vsphere_storage_size (int (pos n))) λ _. size_put n

  update-SizeSaved : (n : ℕ) → Ends (SizeSaved n) (update p find_machine (some n))
  unfolding update
  update-SizeSaved n w =
      let vm_id = or_null (lookup vsphere_storage_vm_id w.props) in
      let file_name = or_null (lookup vsphere_storage_file_name w.props) in
      bind-Ends (SizeSaved n)
        (raise_if (is_null p find_machine vm_id || is_null p find_machine file_name)
          (not_configured p find_machine))
        (λ _. set_size p find_machine vm_id file_name n (some (pos 300)))
        (λ _. set_size-SizeSaved vm_id file_name n (some (pos 300))) w

  -- After an update that succeeded, the volume shows no drift from the size that was asked for.
  pub update-no_drift :
      (n : ℕ) (w w' : World DiskCall)
      → update p find_machine (some n) w ≡ (ok tt, w')
      → (check_drift p find_machine (some n) w').0 ≢ ok true
  update-no_drift n w w' e = no_drift n w' (update-SizeSaved n w tt w' e)
