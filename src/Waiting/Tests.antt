-- ===== src/Waiting/Tests.antt =====
-- A create operation that waits for a clone, is put off, and is run again.
use cloudify_vsphere_plugin.Common.{
  ℕ, zero, ◌≡◌, refl, String, List, [], ◌∷◌, none, some, pos, null, str, lookup, put, remove, ok,
  err, operation_retry, arith, ltb, if◌then◌else◌,
}
use cloudify_vsphere_plugin.Runtime.{World, Task, TaskState, running, success, error, Platform}
use cloudify_vsphere_plugin.Waiting.{
  async_task_id, async_resource_id, poll, wait_for_task, run_deferred_task,
}
use cloudify_vsphere_plugin.Waiting.Poll.{SettlesAt, PendingThrough}
use cloudify_vsphere_plugin.Waiting.Outcomes.{Recorded, wait_finishes, wait_remembers, is_retry}
use cloudify_vsphere_plugin.Waiting.Resuming.{restart, put_off_then_finished}
use cloudify_vsphere_plugin.Common.{is_ok, truthy, or_null, true, false}
use cloudify_vsphere_plugin.Runtime.{put_prop}
use cloudify_vsphere_plugin.Waiting.Client.{with_client}
use cloudify_vsphere_plugin.Waiting.ClientLaws.{with_client_effects}

abbrev settles_after : ℕ → TaskState → ℕ → TaskState
settles_after n last k = if ltb k n then running else last

abbrev clone_task : ℕ → TaskState → Task
clone_task n last = record {
  id = "task-7";
  state = settles_after n last;
  result = "vm-42";
  fault = "none";
}

abbrev start : World String
start = record { props = ("name", str "web") ∷ []; stored = []; calls = "clone" ∷ [] }

abbrev lists : List Task → Platform String
lists ts = record { reply = λ _ _. clone_task 2 success; recent_tasks = λ _. ts }

settles : (n : ℕ) → SettlesAt (clone_task n success) zero n
settles n = record { later = omega arith; before = λ k a b. ground arith; settled = ground arith }

fails : SettlesAt (clone_task 1 error) zero 1
fails = record { later = omega arith; before = λ k a b. ground arith; settled = refl }

pending : PendingThrough (clone_task 5 success) zero 3
pending = record { each = λ k a b. ground arith }

-- After 3 rounds of 15 seconds the wait is put off; the next run finds the task done.
two_runs :
    let first =
      wait_for_task (lists []) (some (clone_task 5 success)) (some (pos 45)) (str "vm_id") start in
    let second = run_deferred_task (lists (clone_task 0 success ∷ [])) (restart first.1) in
    (first.0 ≡ err (operation_retry "Task {task_id} is not finished yet."))
    × (second.0 ≡ ok tt)
    × (second.1.stored ≡ ("name", str "web") ∷ ("vm_id", str "vm-42") ∷ [])
unfolding wait_for_task run_deferred_task poll lookup put remove
two_runs = (refl, refl, refl)

wait_finishes_example :
    Recorded
      (clone_task 2 success)
      (str "vm_id")
      start
      (wait_for_task (lists []) (some (clone_task 2 success)) none (str "vm_id") start)
wait_finishes_example =
    wait_finishes (lists []) (clone_task 2 success) none start (str "vm_id") 2 (settles 2)
      (omega arith) refl

wait_remembers_example :
    let (r, w') =
      wait_for_task (lists []) (some (clone_task 5 success)) (some (pos 45)) (str "vm_id") start in
    lookup async_task_id w'.stored ≡ (if is_retry r then some (str "task-7") else none)
wait_remembers_example =
    wait_remembers (lists []) (clone_task 5 success) (some (pos 45)) start "vm_id" refl

abbrev marked : World String
marked = record {
  props = (async_task_id, str "task-7") ∷ (async_resource_id, str "vm_id") ∷ [];
  stored = [];
  calls = [];
}

put_off_then_finished_example : Recorded (clone_task 0 success) (str "vm_id") start (
    run_deferred_task (lists (clone_task 0 success ∷ [])) (
      restart
        (wait_for_task
          (lists [])
          (some (clone_task 5 success))
          (some (pos 45))
          (str "vm_id")
          start).1))
put_off_then_finished_example =
    put_off_then_finished (lists []) (lists (clone_task 0 success ∷ [])) (clone_task 5 success)
      (clone_task 0 success) (some (pos 45)) start (str "vm_id") zero refl pending refl (settles 0)
      (omega arith) refl

-- A delete under with_client, with no task of an earlier run.
with_client_effects_example :
    let (r, w) = with_client (lists []) true (put_prop "name" null) start in
    (is_ok (run_deferred_task (lists []) start).0 ≡ false
      → (is_ok r ≡ false) × (w.calls ≡ "clone" ∷ []))
    × (is_ok r ≡ true
        → true ≡ true
        → truthy (or_null (lookup async_task_id w.props)) ≡ false
        → (w.props ≡ []) × (w.stored ≡ []))
unfolding run_deferred_task lookup put
with_client_effects_example =
    with_client_effects (lists []) true (put_prop "name" null) start (refl, tt)
