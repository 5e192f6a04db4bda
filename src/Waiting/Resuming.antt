-- ===== src/Waiting/Resuming.antt =====
-- A later run of the operation takes up the wait that an earlier run put off.
use cloudify_vsphere_plugin.Common.{
  ℕ, zero, ◌≤◌, ◌≡◌, refl, ◌∙◌, String, false, Option, none, some, ℤ, Value, str, truthy, or_null,
  lookup, remove, dict_laws, ok, arith, if◌then◌else◌, str_eq,
}
use cloudify_vsphere_plugin.Runtime.{World, Task, success, Platform}
use cloudify_vsphere_plugin.Waiting.{
  async_task_id, async_resource_id, default_max_wait, wait_limit, find_task, settle, pick_up,
  resume, wait_for_task, run_deferred_task,
}
use cloudify_vsphere_plugin.Waiting.Poll.{SettlesAt, PendingThrough}
use cloudify_vsphere_plugin.Waiting.Outcomes.{
  patience, mark_task, mark_task_id, mark_resource_id, Recorded, settle_pending, settle_finished,
  record_result-Recorded, after_success-mark_task,
}

-- The operation is run anew: it reads the properties that were saved.
abbrev pub restart : {C : Type 0} → World C → World C
restart w = record w { props = w.stored }

-- The world after a wait that was put off: the marks are saved, all else is as before.
put_off :
    {C : Type 0} (p : Platform C) (t : Task) (max_wait : Option ℤ) (w : World C) (res : Value)
    → PendingThrough t zero (patience (wait_limit max_wait))
    → restart (wait_for_task p (some t) max_wait res w).1 ≡ mark_task t res w
unfolding wait_for_task
put_off p t max_wait w res pending =
    rw (settle_pending t (wait_limit max_wait) res (mark_task t res w) pending)

module _ {C : Type 0} (p : Platform C) (w : World C) (id : String) where
  -- `resume` with a saved task comes down to one of two things.
  module _ (saved : lookup async_task_id w.props ≡ some (str id))
      (named : str_eq id "" ≡ false) where
    deferred-resume : run_deferred_task p w ≡ resume p none w
    unfolding run_deferred_task
    deferred-resume = ground arith

    resume_lost :
        find_task (str id) (p.recent_tasks w.calls) ≡ none
        → resume p none w ≡ (
          ok tt,
          record w { props = remove async_task_id w.props; stored = remove async_task_id w.props },
        )
    unfolding resume pick_up
    resume_lost lost = ground arith

    resume_found :
        {res : Value} (t : Task)
        → lookup async_resource_id w.props ≡ some res
        → find_task (str id) (p.recent_tasks w.calls) ≡ some t
        → resume p none w ≡ settle t default_max_wait res w
    unfolding resume pick_up
    resume_found t wanted found = ground arith

module _ {C : Type 0} (p : Platform C) (w : World C) where
  -- With no saved task there is nothing to wait for, and nothing changes.
  pub run_deferred_task-idle :
      truthy (or_null (lookup async_task_id w.props)) ≡ false → run_deferred_task p w ≡ (ok tt, w)
  unfolding run_deferred_task
  run_deferred_task-idle idle = rw idle

  -- A saved task that the platform no longer lists is given up: its mark is gone, the change is
  -- saved and the operation goes on. Every other property stays.
  pub run_deferred_task-lost :
      (id : String)
      → lookup async_task_id w.props ≡ some (str id)
      → str_eq id "" ≡ false
      → find_task (str id) (p.recent_tasks w.calls) ≡ none
      → let (r, w') = run_deferred_task p w in
        (r ≡ ok tt)
        × ((k : String)
            → lookup k w'.stored ≡ (if str_eq async_task_id k then none else lookup k w.props))
        × (w'.calls ≡ w.calls)
  unfolding run_deferred_task
  run_deferred_task-lost id saved named lost =
      rw (deferred-resume p w id saved named, resume_lost p w id saved named lost)
        (refl, (λ k. simp dict_laws), refl)

  -- A saved task that settles well within the default wait is done with as in the first run.
  pub run_deferred_task-finishes :
      (id : String) (res : Value) (t : Task) (n : ℕ)
      → lookup async_task_id w.props ≡ some (str id)
      → lookup async_resource_id w.props ≡ some res
      → str_eq id "" ≡ false
      → find_task (str id) (p.recent_tasks w.calls) ≡ some t
      → SettlesAt t zero n
      → n ≤ patience default_max_wait
      → t.state n ≡ success
      → Recorded t res w (run_deferred_task p w)
  unfolding run_deferred_task
  run_deferred_task-finishes id res t n saved wanted named found s h good =
      rw
        (
          deferred-resume p w id saved named,
          resume_found p w id saved named t wanted found,
          settle_finished t default_max_wait res w n s h saved wanted good,
        )
        (record_result-Recorded t w res)

-- A task that the first run found pending throughout and that has settled well when the operation
-- is run again: the two runs together do what one patient wait would have done, and the request
-- was sent once.
pub put_off_then_finished :
    {C : Type 0} (p later : Platform C) (t t' : Task) (max_wait : Option ℤ) (w : World C)
    (res : Value) (n : ℕ)
    → str_eq t.id "" ≡ false
    → PendingThrough t zero (patience (wait_limit max_wait))
    → find_task (str t.id) (later.recent_tasks w.calls) ≡ some t'
    → SettlesAt t' zero n
    → n ≤ patience default_max_wait
    → t'.state n ≡ success
    → Recorded t' res w
        (run_deferred_task later (restart (wait_for_task p (some t) max_wait res w).1))
put_off_then_finished p later t t' max_wait w res n named pending found s h good =
    rw (put_off p t max_wait w res pending) (
      let (fine, reads, saved, sent) =
        run_deferred_task-finishes later (mark_task t res w) t.id res t' n (mark_task_id t res w)
          (mark_resource_id t res w) named found s h good in
      (fine, (λ k. reads k ∙ after_success-mark_task t' t res w res k), saved, sent))
