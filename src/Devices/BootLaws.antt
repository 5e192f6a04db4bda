-- ===== src/Devices/BootLaws.antt =====
-- The boot order that is asked for, and when it is accepted.
use cloudify_vsphere_plugin.Common.{
  ◌≡◌, refl, sym, ◌∙◌, Text, lower, true, not, some, List, [], ◌∷◌, ◌++◌, append-nil, append_assoc,
  ℤ, Value, Result, ok, err, is_ok, continue, Exec, raise_if, operation_retry, Bool-cases, inl, inr,
}
use cloudify_vsphere_plugin.Runtime.{World, Platform}
use cloudify_vsphere_plugin.Devices.{
  DeviceCall, set_boot, BootDevice, Device, Machine, Machines, request,
}
use cloudify_vsphere_plugin.Devices.Requests.{request-calls}
use cloudify_vsphere_plugin.Devices.Boot.{
  boot_option, boot_devices, boot_loop, same_types, get_boot_order_obj, set_boot_order,
}

-- What the options give one after another, each on its own.
abbrev pub boot_order_of : List Device → List ℤ → List ℤ → List Text → List BootDevice
boot_order_of devices disk_keys ethernet_keys [] = []
boot_order_of devices disk_keys ethernet_keys (t ∷ ts) =
    boot_devices devices disk_keys ethernet_keys (boot_option (lower t))
    ++ boot_order_of devices disk_keys ethernet_keys ts

boot_loop_lem :
    (devices : List Device) (ds es : List ℤ) (out : List BootDevice) (ts : List Text)
    → boot_loop devices ds es out ts ≡ out ++ boot_order_of devices ds es ts
unfolding boot_loop
boot_loop_lem devices ds es out [] = sym (append-nil out)
boot_loop_lem devices ds es out (t ∷ ts) =
    boot_loop_lem devices ds es (out ++ boot_devices devices ds es (boot_option (lower t))) ts
    ∙ append_assoc out (boot_devices devices ds es (boot_option (lower t)))
        (boot_order_of devices ds es ts)

module _ (p : Platform DeviceCall) (machines : Machines) (vm_id : Value) where
  abbrev confirm : Machine → List BootDevice → Exec (World DeviceCall) (Unit {0})
  confirm vm wanted w =
      raise_if (not (same_types (vm.boot_order w.calls) wanted))
        (operation_retry "Boot order is different than expected") w

  confirmed :
      (vm : Machine) (wanted : List BootDevice) (r : Result (Unit {0})) (w : World DeviceCall)
      → let out = continue r w (λ _. confirm vm wanted) in
        (out.1.calls ≡ w.calls)
        × (is_ok out.0 ≡ true → same_types (vm.boot_order out.1.calls) wanted ≡ true)
  confirmed vm wanted (err e) w = (refl, λ h. cc)
  confirmed vm wanted (ok _) w = elim (Bool-cases (same_types (vm.boot_order w.calls) wanted)) [
    | inl same ↦ rw same (refl, λ _. same)
    | inr other ↦ rw other (refl, λ h. cc)
  ]

  -- On a machine that the client finds, one request is sent, for the devices that the options give
  -- one after another, each on its own; and the call succeeds only if the boot order that is read
  -- back has devices of the same types in the same order.
  pub set_boot_order_confirms :
      (order : List Text) (disk_keys ethernet_keys : List ℤ) (vm : Machine) (w : World DeviceCall)
      → machines.cached vm_id ≡ some vm
      → let (r, w') = set_boot_order p machines vm_id order disk_keys ethernet_keys w in
        let wanted = boot_order_of (vm.live_devices w.calls) disk_keys ethernet_keys order in
        (w'.calls ≡ w.calls ++ set_boot wanted ∷ [])
        × (is_ok r ≡ true → same_types (vm.boot_order w'.calls) wanted ≡ true)
  unfolding set_boot_order get_boot_order_obj
  set_boot_order_confirms order ds es vm w found =
      let wanted = boot_order_of (vm.live_devices w.calls) ds es order in
      let asked = request p (set_boot wanted) w in
      let (same, accepts) = confirmed vm wanted asked.0 asked.1 in
      rw (found, boot_loop_lem (vm.live_devices w.calls) ds es [] order)
        (same ∙ request-calls p (set_boot wanted) w, accepts)
