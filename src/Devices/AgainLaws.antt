-- ===== src/Devices/AgainLaws.antt =====
-- What a second run of attach_controller asks for after a first one that did not succeed.
use cloudify_vsphere_plugin.Common.{
  ◌≡◌, refl, sym, ap, ◌∙◌, true, false, some, List, [], ◌∷◌, ◌++◌, append-nil, append_assoc, ℤ,
  lookup, lookup-put_self, Dict, Value, arr, truthy, or_null, Result, ok, err, is_ok, continue,
  if◌then◌else◌,
}
use cloudify_vsphere_plugin.Runtime.{World, Platform}
use cloudify_vsphere_plugin.Server.Guest.{is_empty}
use cloudify_vsphere_plugin.Devices.{
  DeviceCall, reconfigure, DeviceClass, NewDevice, add, Machine, Machines, request,
}
use cloudify_vsphere_plugin.Devices.Requests.{request-calls, request-lookup}
use cloudify_vsphere_plugin.Devices.Controllers.{
  known_keys, items_of, keys_of_class, attach_controller,
}
use cloudify_vsphere_plugin.Devices.ControllerLaws.{
  finish, keys_value, saved_keys, with_keys, finish-outcome, attach-saved, attach-new,
}

module _ (p : Platform DeviceCall) (machines : Machines) (vm_id : Value) (c : DeviceClass)
    (device : NewDevice) where
  abbrev Asked : Machine → List DeviceCall → Result (Dict Value) × World DeviceCall → Type 0
  Asked vm sent out =
      (out.1.calls ≡ sent ++ reconfigure (add device ∷ []) ∷ [])
      × (is_ok out.0 ≡ false
          → lookup known_keys out.1.props ≡ some (keys_value p machines vm_id c vm))

  continue-Asked :
      (vm : Machine) (sent : List DeviceCall) (r : Result (Unit {0})) (w : World DeviceCall)
      → w.calls ≡ sent ++ reconfigure (add device ∷ []) ∷ []
      → lookup known_keys w.props ≡ some (keys_value p machines vm_id c vm)
      → Asked vm sent
          (continue r w (λ _. finish p machines vm_id c (keys_value p machines vm_id c vm)))
  continue-Asked vm sent (err e) w calls kept = (calls, λ _. kept)
  continue-Asked vm sent (ok _) w calls kept =
      let out = finish-outcome p machines vm_id c (keys_value p machines vm_id c vm) w in
      (
        out.1 ∙ calls,
        λ bad. ap (λ (v : World DeviceCall). lookup known_keys v.props) (out.2 bad) ∙ kept,
      )

  attach-asks :
      (w : World DeviceCall) (vm : Machine)
      → truthy vm_id ≡ true
      → truthy (saved_keys p machines vm_id c w) ≡ false
      → machines.cached vm_id ≡ some vm
      → Asked vm w.calls (attach_controller p machines vm_id device c w)
  attach-asks w vm id unsaved found =
      let start = with_keys p machines vm_id c vm w in
      let call = reconfigure (add device ∷ []) in
      rw (attach-new p machines vm_id c device w vm id unsaved found) (
        continue-Asked vm w.calls (request p call start).0 (request p call start).1
          (request-calls p call start)
          (request-lookup p call start known_keys (refl, refl)
            ∙ lookup-put_self known_keys (keys_value p machines vm_id c vm) w.props))

  -- The requests of a second run, by the keys that the first one kept.
  again :
      (w : World DeviceCall) (vm : Machine) (keys : List ℤ)
      → truthy vm_id ≡ true
      → machines.cached vm_id ≡ some vm
      → lookup known_keys w.props ≡ some (arr (items_of keys))
      → (attach_controller p machines vm_id device c w).1.calls
        ≡ w.calls ++ (if is_empty keys then reconfigure (add device ∷ []) ∷ [] else [])
  again w vm [] id found kept = (attach-asks w vm id (rw kept refl) found).0
  again w vm (k ∷ ks) id found kept =
      rw (attach-saved p machines vm_id c device w id (rw kept refl)) (
        (finish-outcome p machines vm_id c (saved_keys p machines vm_id c w) w).1
        ∙ sym (append-nil w.calls))

module _ (p : Platform DeviceCall) (vm_id : Value) (c : DeviceClass) (device : NewDevice) where
  -- A run that asks for the device and does not succeed, followed by another run that reads the
  -- machine anew, asks for the device once in all if the machine had a device of the class before, and
  -- twice if it had none.
  pub attach_controller_again :
      (machines later : Machines) (w : World DeviceCall) (vm vm' : Machine)
      → truthy vm_id ≡ true
      → truthy (or_null (lookup known_keys w.props)) ≡ false
      → machines.cached vm_id ≡ some vm
      → later.cached vm_id ≡ some vm'
      → is_ok (attach_controller p machines vm_id device c w).0 ≡ false
      → (attach_controller p later vm_id device c
          (attach_controller p machines vm_id device c w).1).1.calls
        ≡ w.calls
          ++ reconfigure (add device ∷ [])
            ∷ (if is_empty (keys_of_class c vm.devices)
                then reconfigure (add device ∷ []) ∷ []
                else [])
  attach_controller_again machines later w vm vm' id unsaved found found' bad =
      let first = attach-asks p machines vm_id c device w vm id unsaved found in
      let w1 = (attach_controller p machines vm_id device c w).1 in
      again p later vm_id c device w1 vm' (keys_of_class c vm.devices) id found' (first.1 bad)
      ∙ ap
          (λ s.
            s
            ++ (if is_empty (keys_of_class c vm.devices)
                then reconfigure (add device ∷ []) ∷ []
                else []))
          first.0
      ∙ append_assoc w.calls (reconfigure (add device ∷ []) ∷ []) _
