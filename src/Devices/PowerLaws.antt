-- ===== src/Devices/PowerLaws.antt =====
-- The device changes of change_while_off reach a machine that is not powered on.
use cloudify_vsphere_plugin.Common.{
  ◌≡◌, refl, sym, ap, ◌∙◌, ℕ, String, codes, Bool, true, false, List, [], ◌∷◌, ◌++◌, append-nil,
  append_assoc, Result, ok, err, Exec, pure, raise, continue, ◌>>=◌, ◌>>◌, Bool-cases, inl, inr,
  non_recoverable, Text, text_eq, text_eq_iff, lower, subst, if◌then◌else◌,
}
use cloudify_vsphere_plugin.Runtime.{Platform, success}
use cloudify_vsphere_plugin.Devices.{
  DeviceCall, power_on, power_off, reconfigure, reconfigure_locked, Machine, Link, on_source,
  on_target, request,
}
use cloudify_vsphere_plugin.Devices.Power.{
  is_on, is_off, temp_stop_server, temp_start_server, change_while_off,
}
use cloudify_vsphere_plugin.Devices.Requests.{
  source_request-calls, target_request-calls, target_request-succeeded,
}

abbrev pub changes_devices : DeviceCall → Bool
changes_devices (reconfigure _) = true
changes_devices (reconfigure_locked _) = true
changes_devices _ = false

-- Requests that follow on others: each change of devices is sent while the machine is not on.
abbrev pub IsCareful : Machine → List DeviceCall → List DeviceCall → Type 0
IsCareful vm sent [] = Unit
IsCareful vm sent (c ∷ cs) =
    (changes_devices c ≡ true → is_on vm sent ≡ false) × IsCareful vm (sent ++ c ∷ []) cs

-- vSphere has a machine off once the task that powers it off has succeeded.
abbrev pub TurnsOff : Platform DeviceCall → Machine → Type 0
TurnsOff p vm =
    (sent : List DeviceCall) (n : ℕ)
    → (p.reply sent power_off).state n ≡ success
    → is_off vm (sent ++ power_off ∷ []) ≡ true

off_not_on :
    (s : Text) → text_eq s (codes "poweredoff") ≡ true → text_eq s (codes "poweredon") ≡ false
off_not_on s h = rw ((text_eq_iff s (codes "poweredoff")).0 h) refl

is_off-not_on :
    (vm : Machine) (sent : List DeviceCall) → is_off vm sent ≡ true → is_on vm sent ≡ false
unfolding is_off is_on
is_off-not_on vm sent h = off_not_on (lower (vm.power_state sent)) h

IsCareful-append :
    (vm : Machine) (sent xs ys : List DeviceCall)
    → IsCareful vm sent xs
    → IsCareful vm (sent ++ xs) ys
    → IsCareful vm sent (xs ++ ys)
IsCareful-append vm sent [] ys hx hy = rw (append-nil sent) at hy
IsCareful-append vm sent (x ∷ xs) ys (h, hx) hy = (
  h,
  IsCareful-append vm (sent ++ x ∷ []) xs ys hx
      (subst (λ s. IsCareful vm s ys) (sym (append_assoc sent (x ∷ []) xs)) hy),
)

-- Whatever the outcome, the requests that a call adds are careful.
abbrev pub AddsCarefully : {A : Type 0} → Machine → Exec Link A → Link → Type 0
AddsCarefully vm m l =
    (added : List DeviceCall) × ((m l).1.calls ≡ l.calls ++ added) × IsCareful vm l.calls added

module _ (vm : Machine) where
  pub quiet-AddsCarefully :
      {A : Type 0} (m : Exec Link A) (l : Link) → (m l).1.calls ≡ l.calls → AddsCarefully vm m l
  quiet-AddsCarefully m l same = ([], same ∙ sym (append-nil l.calls), tt)

  -- A sequence of calls is careful where each of them is.
  pub bind-AddsCarefully :
      {A B : Type 0} (m : Exec Link A) (f : A → Exec Link B) (l : Link)
      → AddsCarefully vm m l
      → ((a : A) → m l ≡ (ok a, (m l).1) → AddsCarefully vm (f a) (m l).1)
      → AddsCarefully vm (m >>= f) l
  bind-AddsCarefully {A} {B} m f l (xs, same, careful) rest = from (m l).0 refl
    where
      from : (r : Result A) → r ≡ (m l).0 → AddsCarefully vm (λ (k : Link). continue r (m l).1 f) l
      from (err e) h = (xs, same, careful)
      from (ok a) h =
          let (ys, more, careful') = rest a (ap (λ r. (r, (m l).1)) (sym h)) in
          (
            xs ++ ys,
            more ∙ ap (λ s. s ++ ys) same ∙ append_assoc l.calls xs ys,
            IsCareful-append vm l.calls xs ys careful
                (subst (λ s. IsCareful vm s ys) same careful'),
          )

module _ (p : Platform DeviceCall) (vm : Machine) where
  source_request-AddsCarefully :
      (c : DeviceCall) (l : Link)
      → (changes_devices c ≡ true → is_on vm l.calls ≡ false)
      → AddsCarefully vm (on_source (request p c)) l
  source_request-AddsCarefully c l h = (c ∷ [], source_request-calls p c l, (h, tt))

  target_request-AddsCarefully :
      (c : DeviceCall) (l : Link)
      → (changes_devices c ≡ true → is_on vm l.calls ≡ false)
      → AddsCarefully vm (on_target (request p c)) l
  target_request-AddsCarefully c l h = (c ∷ [], target_request-calls p c l, (h, tt))

  temp_stop_server-AddsCarefully : (l : Link) → AddsCarefully vm (temp_stop_server p vm) l
  unfolding temp_stop_server
  temp_stop_server-AddsCarefully l = elim (Bool-cases (is_off vm l.calls)) [
    | inl off ↦ rw off (quiet-AddsCarefully vm (pure tt) l refl)
    | inr not_off ↦ rw not_off (target_request-AddsCarefully power_off l (λ h. cc))
  ]

  temp_start_server-AddsCarefully : (l : Link) → AddsCarefully vm (temp_start_server p vm) l
  unfolding temp_start_server
  temp_start_server-AddsCarefully l = elim (Bool-cases (is_on vm l.calls)) [
    | inl on ↦ rw on (quiet-AddsCarefully vm (pure tt) l refl)
    | inr not_on ↦ rw not_on (target_request-AddsCarefully power_on l (λ h. cc))
  ]

  -- A temp_stop_server that succeeded leaves the machine not on: it waited for the task.
  temp_stop_server-not_on :
      TurnsOff p vm
      → (l : Link) → temp_stop_server p vm l ≡ (ok tt, (temp_stop_server p vm l).1)
      → is_on vm (temp_stop_server p vm l).1.calls ≡ false
  unfolding temp_stop_server
  temp_stop_server-not_on turns_off l stopped = elim (Bool-cases (is_off vm l.calls)) [
    | inl off ↦ rw off (is_off-not_on vm l.calls off)
    | inr not_off ↦
        let (n, succeeded) = target_request-succeeded p power_off l (rw not_off at stopped) in
        rw (not_off, target_request-calls p power_off l)
          (is_off-not_on vm (l.calls ++ power_off ∷ []) (turns_off l.calls n succeeded))
  ]

  stopped-AddsCarefully :
      TurnsOff p vm
      → (c : DeviceCall) (l : Link)
      → AddsCarefully vm
          (do temp_stop_server p vm; on_source (request p c); temp_start_server p vm)
          l
  stopped-AddsCarefully turns_off c l =
      bind-AddsCarefully vm (temp_stop_server p vm)
        (λ _. do on_source (request p c); temp_start_server p vm) l
        (temp_stop_server-AddsCarefully l)
        (λ _ stopped.
          bind-AddsCarefully vm (on_source (request p c)) (λ _. temp_start_server p vm)
            (temp_stop_server p vm l).1
            (source_request-AddsCarefully c (temp_stop_server p vm l).1
              (λ _. temp_stop_server-not_on turns_off l stopped))
            (λ _ _. temp_start_server-AddsCarefully _))

  running-AddsCarefully :
      (text : String) (c : DeviceCall) (l : Link) (on : Bool)
      → is_on vm l.calls ≡ on
      → AddsCarefully vm (if on then raise (non_recoverable text) else on_source (request p c)) l
  running-AddsCarefully text c l true e =
      quiet-AddsCarefully vm {A = Unit {0}} (raise (non_recoverable text)) l refl
  running-AddsCarefully text c l false e = source_request-AddsCarefully c l (λ _. e)

  pub change_while_off-AddsCarefully :
      TurnsOff p vm
      → (turn_off : Bool) (text : String) (c : DeviceCall) (l : Link)
      → AddsCarefully vm (change_while_off p vm turn_off text c) l
  unfolding change_while_off
  change_while_off-AddsCarefully turns_off true text c l = stopped-AddsCarefully turns_off c l
  change_while_off-AddsCarefully turns_off false text c l =
      running-AddsCarefully text c l (is_on vm l.calls) refl
