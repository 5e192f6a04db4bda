-- ===== src/Waiting/Outcomes.antt =====
-- How a wait for a task that was just started ends: finished, failed, or put off.
use cloudify_vsphere_plugin.Common.{
  ℕ, zero, ◌≤◌, ◌≡◌, refl, ap, ◌∙◌, String, Bool, true, false, Option, none, some, ℤ, floor_div,
  Value, null, str, truthy, lookup, put, remove, dict_laws, Result, ok, err, Bool-cases, inl, inr,
  operation_retry, arith, ◌&&◌, ◌||◌, if◌then◌else◌, str_eq,
}
use cloudify_vsphere_plugin.Runtime.{
  World, Task, TaskState, queued, running, success, error, Platform,
}
use cloudify_vsphere_plugin.Waiting.{
  task_check_sleep, async_task_id, async_resource_id, wait_limit, task_error, is_pending, rounds,
  record_result, settle, wait_for_task,
}
use cloudify_vsphere_plugin.Waiting.Poll.{
  SettlesAt, PendingThrough, poll_settled_first, poll_pending_first, pending_or_settles_first,
}

-- The number of 15-second rounds that a wait sleeps through at most.
abbrev pub patience : ℤ → ℕ
patience limit = rounds (floor_div limit task_check_sleep)

-- What a property reads once the marks are gone.
abbrev pub after_forget : String → Option Value → Option Value
after_forget k old = if str_eq async_task_id k || str_eq async_resource_id k then none else old

-- What a property reads after a wait that succeeded, when it read `old` before.
abbrev pub after_success : Task → Value → String → Option Value → Option Value
after_success t (str wanted) k old =
    if truthy (str wanted) && str_eq wanted k then some (str t.result) else after_forget k old
after_success t _ k old = after_forget k old

module _ {C : Type 0} where
  -- Both marks of an unfinished task are gone, and the change is saved.
  abbrev pub forget_task : World C → World C
  forget_task w =
      let d = remove async_resource_id (remove async_task_id w.props) in
      record w { props = d; stored = d }

  -- The world in which the wait begins: both marks are saved.
  abbrev pub mark_task : Task → Value → World C → World C
  mark_task t res w =
      let d = put async_resource_id res (put async_task_id (str t.id) w.props) in
      record w { props = d; stored = d }

  module _ (t : Task) (limit : ℤ) (res : Value) (w : World C) where
    pub settle_pending :
        PendingThrough t zero (patience limit)
        → settle t limit res w ≡ (err (operation_retry "Task {task_id} is not finished yet."), w)
    unfolding settle
    settle_pending p = rw (poll_pending_first t (patience limit) p)

    module _ {a b : Value} (n : ℕ) (s : SettlesAt t zero n) (h : n ≤ patience limit)
        (task_saved : lookup async_task_id w.props ≡ some a)
        (resource_saved : lookup async_resource_id w.props ≡ some b) where
      resource_kept : lookup async_resource_id (remove async_task_id w.props) ≡ some b
      resource_kept = simp dict_laws resource_saved

      pub settle_finished :
          t.state n ≡ success → settle t limit res w ≡ record_result t res (forget_task w)
      unfolding settle lookup remove
      settle_finished good =
          rw (poll_settled_first t (patience limit) n s h, task_saved, resource_kept, good)

      pub settle_failed :
          t.state n ≡ error → settle t limit res w ≡ (err (task_error t), forget_task w)
      unfolding settle lookup remove
      settle_failed bad =
          rw (poll_settled_first t (patience limit) n s h, task_saved, resource_kept, bad)

  module _ (t : Task) (res : Value) (w : World C) where
    pub mark_task_id : lookup async_task_id (mark_task t res w).props ≡ some (str t.id)
    mark_task_id = simp dict_laws

    pub mark_resource_id : lookup async_resource_id (mark_task t res w).props ≡ some res
    mark_resource_id = simp dict_laws

  -- The marks that a wait makes do not show in what is read after it succeeded.
  pub after_success-mark_task :
      (t' t : Task) (res : Value) (w : World C) (wanted : Value) (k : String)
      → after_success t' wanted k (lookup k (mark_task t res w).props)
        ≡ after_success t' wanted k (lookup k w.props)
  after_success-mark_task t' t res w (str key) k = simp dict_laws (ground arith)
  after_success-mark_task t' t res w null k = simp dict_laws (ground arith)
  after_success-mark_task t' t res w _ k = simp dict_laws (ground arith)

  pub lookup-forget_task :
      (w : World C) (k : String)
      → lookup k (forget_task w).props ≡ after_forget k (lookup k w.props)
  lookup-forget_task w k = simp dict_laws (ground arith)

  -- What a wait that succeeded does to the properties: `wanted` takes the id of the result.
  abbrev pub Recorded : Task → Value → World C → Result (Unit {0}) × World C → Type 0
  Recorded t wanted w (r, w') =
      (r ≡ ok tt)
      × ((k : String) → lookup k w'.props ≡ after_success t wanted k (lookup k w.props))
      × (w'.stored ≡ w'.props)
      × (w'.calls ≡ w.calls)

  -- Once the marks are gone, the result is recorded under the wanted property.
  pub record_result-Recorded :
      (t : Task) (w : World C) (wanted : Value)
      → Recorded t wanted w (record_result t wanted (forget_task w))
  record_result-Recorded t w (str key) = elim (Bool-cases (str_eq key "")) [
    | inl blank ↦ rw blank (refl, lookup-forget_task w, refl, refl)
    | inr named ↦ rw named (refl, (λ k. simp dict_laws (ground arith)), refl, refl)
  ]
  record_result-Recorded t w null = (refl, lookup-forget_task w, refl, refl)
  record_result-Recorded t w _ = (refl, lookup-forget_task w, refl, refl)

abbrev pub is_retry : Result (Unit {0}) → Bool
is_retry (err (operation_retry _)) = true
is_retry _ = false

module _ {C : Type 0} (p : Platform C) (t : Task) (max_wait : Option ℤ) (w : World C) where
  abbrev limit : ℕ
  limit = patience (wait_limit max_wait)

  -- A task that is pending at every check that the loop makes is put off: the operation is to be
  -- retried, and the saved properties hold the id of the task and where its result belongs.
  pub wait_puts_off :
      (res : Value)
      → PendingThrough t zero limit
      → let (r, w') = wait_for_task p (some t) max_wait res w in
        (r ≡ err (operation_retry "Task {task_id} is not finished yet."))
        × (lookup async_task_id w'.stored ≡ some (str t.id))
        × (lookup async_resource_id w'.stored ≡ some res)
        × (w'.stored ≡ w'.props)
        × (w'.calls ≡ w.calls)
  unfolding wait_for_task
  wait_puts_off res pending =
      rw (settle_pending t (wait_limit max_wait) res (mark_task t res w) pending)
        (refl, simp dict_laws, simp dict_laws, refl, refl)

  -- A task that settles in time, and well: both marks are gone, the id of the result stands under
  -- the wanted property, no other property has changed, and all of it is saved.
  pub wait_finishes :
      (res : Value) (n : ℕ)
      → SettlesAt t zero n
      → n ≤ limit
      → t.state n ≡ success
      → Recorded t res w (wait_for_task p (some t) max_wait res w)
  unfolding wait_for_task
  wait_finishes res n s h good =
      rw
        (settle_finished t (wait_limit max_wait) res (mark_task t res w) n s h
          (mark_task_id t res w) (mark_resource_id t res w) good)
        (let (fine, reads, saved, sent) = record_result-Recorded t (mark_task t res w) res in
          (fine, (λ k. reads k ∙ after_success-mark_task t t res w res k), saved, sent))

  -- A task that settles in time with an error: the wait raises for good, and both marks are gone,
  -- so that a later run does not wait for it again. No other property has changed.
  pub wait_fails :
      (res : Value) (n : ℕ)
      → SettlesAt t zero n
      → n ≤ limit
      → t.state n ≡ error
      → let (r, w') = wait_for_task p (some t) max_wait res w in
        (r ≡ err (task_error t))
        × ((k : String) → lookup k w'.props ≡ after_forget k (lookup k w.props))
        × (w'.stored ≡ w'.props)
        × (w'.calls ≡ w.calls)
  unfolding wait_for_task
  wait_fails res n s h bad =
      rw
        (settle_failed t (wait_limit max_wait) res (mark_task t res w) n s h (mark_task_id t res w)
          (mark_resource_id t res w) bad)
        (refl, (λ k. simp dict_laws (ground arith)), refl, refl)

  -- Whatever the task does, the saved properties hold its id exactly when the wait asks for a
  -- retry: an operation that is run again waits for the task, any other does not.
  pub wait_remembers :
      (key : String)
      → str_eq key async_task_id ≡ false
      → let (r, w') = wait_for_task p (some t) max_wait (str key) w in
        lookup async_task_id w'.stored ≡ (if is_retry r then some (str t.id) else none)
  wait_remembers key other = elim (pending_or_settles_first t limit) [
    | inl pending ↦ let (raised, kept, _, _, _) = wait_puts_off (str key) pending in rw raised kept
    | inr (n, s, h) ↦ ended n s h (t.state n) refl
  ]
    where
      ended :
          (n : ℕ)
          → SettlesAt t zero n
          → n ≤ limit
          → (state : TaskState) → t.state n ≡ state
          → let (r, w') = wait_for_task p (some t) max_wait (str key) w in
            lookup async_task_id w'.stored ≡ (if is_retry r then some (str t.id) else none)
      ended n s h success e =
          let (fine, reads, saved, _) = wait_finishes (str key) n s h e in
          rw (fine, saved, reads, other) (ground arith)
      ended n s h error e =
          let (raised, reads, saved, _) = wait_fails (str key) n s h e in rw (raised, saved, reads)
      ended n s h queued e = cc (ap is_pending e, s.settled)
      ended n s h running e = cc (ap is_pending e, s.settled)
