-- ===== src/Waiting/Success.antt =====
-- What the success of a wait says of the task.
use cloudify_vsphere_plugin.Common.{
  ◌≡◌, refl, ap, ℕ, Bool, true, false, not, Option, some, ◌>>◌, ℤ, Value, ok, Exec, lift, raise_if,
  bind-eq-ok,
}
use cloudify_vsphere_plugin.Runtime.{
  World, TaskState, queued, running, success, error, Task, Platform, del_prop, save,
}
use cloudify_vsphere_plugin.Waiting.{
  is_success, record_result, task_error, settle, begin, wait_for_task, wait_limit, poll,
  async_task_id, async_resource_id,
}

state_of_success : (s : TaskState) → is_success s ≡ true → s ≡ success
state_of_success success h = refl
state_of_success queued h = cc
state_of_success running h = cc
state_of_success error h = cc

checked :
    {C : Type 0} (b : Bool) (t : Task) (w : World C) {w' : World C}
    → raise_if (not b) (task_error t) w ≡ (ok tt, w')
    → b ≡ true
checked true t w h = refl
checked false t w h = cc

module _ {C : Type 0} where
  abbrev conclusion : Task → Value → ℕ → Exec (World C) (Unit {0})
  conclusion t res slept = do
    raise_if (not (is_success (t.state slept))) (task_error t)
    record_result t res

  settle-succeeded :
      (t : Task) (limit : ℤ) (res : Value) (w : World C) {w' : World C}
      → settle t limit res w ≡ (ok tt, w')
      → (n : ℕ) × (t.state n ≡ success)
  unfolding settle
  settle-succeeded t limit res w {w'} h =
      let (slept, w1, _, rest1) = bind-eq-ok (lift (poll t _ 0)) _ w w' h in
      let (_, w2, _, rest2) = bind-eq-ok (del_prop async_task_id) _ w1 w' rest1 in
      let (_, w3, _, rest3) =
        bind-eq-ok (del_prop async_resource_id) (λ _. do save; conclusion t res slept) w2 w'
          rest2 in
      let (_, w4, _, rest4) = bind-eq-ok save (λ _. conclusion t res slept) w3 w' rest3 in
      let (_, w5, seen, _) =
        bind-eq-ok (raise_if (not (is_success (t.state slept))) (task_error t))
          (λ _. record_result t res) w4 w' rest4 in
      (slept, state_of_success (t.state slept) (checked (is_success (t.state slept)) t w4 seen))

  -- A wait for a task that was just started succeeds only if the task is seen to succeed.
  pub wait-succeeded :
      (p : Platform C) (t : Task) (max_wait : Option ℤ) (res : Value) (w : World C)
      → (wait_for_task p (some t) max_wait res w).0 ≡ ok tt
      → (n : ℕ) × (t.state n ≡ success)
  unfolding wait_for_task begin
  wait-succeeded p t max_wait res w h =
      settle-succeeded t (wait_limit max_wait) res _
        (ap (λ r. (r, (wait_for_task p (some t) max_wait res w).1)) h)
