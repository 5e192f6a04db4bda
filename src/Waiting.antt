-- ===== src/Waiting.antt =====
-- VsphereClient._wait_for_task (vsphere_plugin_common/clients/__init__.py) and
-- `run_deferred_task` (vsphere_plugin_common/__init__.py): waiting for a task of the platform, and
-- taking the wait up again in a later run of the operation.
pub mod Poll
pub mod Outcomes
pub mod Resuming
pub mod Quiet
pub mod Apart
pub mod Success
pub mod Client
pub mod ClientLaws
mod Tests
use Prim.Native.String.{◌++◌ as str_append}
use cloudify_vsphere_plugin.Common.{
  ℕ, zero, suc, ◌+◌, String, Option, none, some, List, [], ◌∷◌, ◌≡◌, Bool, true, false, ◌||◌, ◌&&◌,
  ltb, not, ℤ, pos, negsuc, leb_ℤ, floor_div, Value, null, str, truthy, or_null, find, str_eq,
  lookup, Dict, put, remove, Result, ok, err, Error, non_recoverable, operation_retry, Exec, pure,
  raise, lift, raise_if, when, gets, ◌>>=◌, ◌>>◌, if◌then◌else◌,
}
use cloudify_vsphere_plugin.Runtime.{
  World, TaskState, queued, running, success, error, Task, Platform, get_prop, put_prop, del_prop,
  save,
}

abbrev pub task_check_sleep : ℕ
task_check_sleep = 15

abbrev pub async_task_id : String
async_task_id = "_task_id"

abbrev pub async_resource_id : String
async_resource_id = "_resource_id"

abbrev pub default_max_wait : ℤ
default_max_wait = pos 300

-- `max_wait_time`, where `none` is a value that is no integer.
abbrev pub wait_limit : Option ℤ → ℤ
wait_limit none = default_max_wait
wait_limit (some n) = n

abbrev pub is_pending : TaskState → Bool
is_pending queued = true
is_pending running = true
is_pending _ = false

abbrev pub is_success : TaskState → Bool
is_success success = true
is_success _ = false

-- The rounds that the `while` loop may sleep through before it gives up: at a `retry_count` of
-- zero or less the next check raises.
abbrev pub rounds : ℤ → ℕ
rounds (pos n) = n
rounds (negsuc _) = 0

-- The `while` loop, `left` rounds before the check on `retry_count` fires and after `slept`
-- sleeps. It gives the number of sleeps after which the task was seen settled.
unfoldable pub poll : Task → ℕ → ℕ → Result ℕ
poll t zero slept =
    if is_pending (t.state slept)
    then err (operation_retry "Task {task_id} is not finished yet.")
    else ok slept
poll t (suc left) slept =
    let rest = poll t left (suc slept) in if is_pending (t.state slept) then rest else ok slept

-- The error for a task that failed: its text holds that of `info.error`.
abbrev pub task_error : Task → Error
task_error t =
    non_recoverable
      (str_append "Error during executing task on vSphere: '" (str_append t.fault "'"))

-- `_get_obj_by_id(vim.Task, task_id)`
abbrev pub find_task : Value → List Task → Option Task
find_task (str s) ts = find (λ t. str_eq t.id s) ts
find_task _ ts = none

module _ {C : Type 0} where
  -- `elif instance and resource_id`: the id of the result is kept under the wanted property, which
  -- the callers name by a string or not at all.
  abbrev pub record_result : Task → Value → Exec (World C) (Unit {0})
  record_result t (str key) = when (truthy (str key)) (do put_prop key (str t.result); save)
  record_result t _ = pure tt

  -- The part below the look-ups: the loop, the clean-up and the outcome.
  pub settle : Task → ℤ → Value → Exec (World C) (Unit {0})
  settle t limit resource_id = do
    slept ← lift (poll t (rounds (floor_div limit task_check_sleep)) zero)
    del_prop async_task_id
    del_prop async_resource_id
    save
    raise_if (not (is_success (t.state slept))) (task_error t)
    record_result t resource_id

  -- A task that was just started: its id is saved before the wait.
  pub begin : Task → Option ℤ → Value → Exec (World C) (Unit {0})
  begin t max_wait resource_id = do
    put_prop async_task_id (str t.id)
    put_prop async_resource_id resource_id
    save
    settle t (wait_limit max_wait) resource_id

  -- `if not task_obj`: a task that is no longer listed is given up.
  pick_up : Option Task → ℤ → Value → Exec (World C) (Unit {0})
  unfolding settle
  pick_up none limit resource_id = do del_prop async_task_id; save
  pick_up (some t) limit resource_id = settle t limit resource_id

  -- No task is given: the saved one is looked up among the recent tasks of the platform.
  pub resume : Platform C → Option ℤ → Exec (World C) (Unit {0})
  resume p max_wait = do
    task_id ← get_prop async_task_id
    resource_id ← get_prop async_resource_id
    if not (truthy task_id) then pure tt else do
      found ← gets (λ w. find_task task_id (p.recent_tasks w.calls))
      pick_up found (wait_limit max_wait) resource_id

  unfoldable pub wait_for_task :
      Platform C → Option Task → Option ℤ → Value → Exec (World C) (Unit {0})
  unfolding begin resume pick_up settle
  wait_for_task p none max_wait resource_id = resume p max_wait
  wait_for_task p (some t) max_wait resource_id = begin t max_wait resource_id

  -- `run_deferred_task`, which the decorator of every operation calls first
  unfoldable pub run_deferred_task : Platform C → Exec (World C) (Unit {0})
  unfolding wait_for_task
  run_deferred_task p = do
    task_id ← get_prop async_task_id
    when (truthy task_id) (wait_for_task p none none null)
