-- ===== src/Waiting/ClientLaws.antt =====
-- What the decorator with_client adds to an operation.
use cloudify_vsphere_plugin.Common.{
  ◌≡◌, refl, ap, ◌∙◌, String, Bool, true, false, ◌&&◌, not, none, some, List, [], ◌∷◌, contains,
  IsDistinct, str_eq, eq_iff, keys, Dict, lookup, remove, Value, null, truthy, or_null, Result, ok,
  err, is_ok, Exec, continue, Bool-cases, inl, inr, arith, if◌then◌else◌,
}
use cloudify_vsphere_plugin.Runtime.{World, Platform, del_prop}
use cloudify_vsphere_plugin.Waiting.{async_task_id, run_deferred_task}
use cloudify_vsphere_plugin.Waiting.Quiet.{wait-calls}
use cloudify_vsphere_plugin.Waiting.Client.{
  del_props, remove_runtime_properties, clean_up, with_client,
}

remove-absent :
    {V : Type 0} (k : String) (d : Dict V) → contains k (keys d) ≡ false → remove k d ≡ d
unfolding remove
remove-absent k [] absent = refl
remove-absent k ((j, v) ∷ d) absent = rw (differs, remove-absent k d (ground arith)) refl
  where
    differs : str_eq j k ≡ false
    differs = ground arith

lookup-first : (k : String) (v : Value) (d : Dict Value) → lookup k ((k, v) ∷ d) ≡ some v
unfolding lookup
lookup-first k v d = rw ((eq_iff k k).1 refl) refl

remove-first :
    (k : String) (v : Value) (d : Dict Value)
    → contains k (keys d) ≡ false
    → remove k ((k, v) ∷ d) ≡ d
unfolding remove
remove-first k v d new = rw ((eq_iff k k).1 refl) (remove-absent k d new)

module _ {C : Type 0} where
  abbrev state : Dict Value → Dict Value → List C → World C
  state d s calls = record { props = d; stored = s; calls = calls }

  del_prop-found :
      (k : String) (v : Value) (w : World C)
      → lookup k w.props ≡ some v
      → del_prop k w ≡ (ok tt, record w { props = remove k w.props })
  del_prop-found k v w there = ground arith

  del_prop-first :
      (k : String) (v : Value) (d s : Dict Value) (calls : List C)
      → contains k (keys d) ≡ false
      → del_prop k (state ((k, v) ∷ d) s calls) ≡ (ok tt, state d s calls)
  del_prop-first k v d s calls new =
      del_prop-found k v (state ((k, v) ∷ d) s calls) (lookup-first k v d)
      ∙ ap (λ e. (ok tt, state e s calls)) (remove-first k v d new)

  del_props-all :
      (d s : Dict Value) (calls : List C)
      → IsDistinct (keys d)
      → del_props (keys d) (state d s calls) ≡ (ok tt, state [] s calls)
  unfolding del_props
  del_props-all [] s calls distinct = refl
  del_props-all ((k, v) ∷ d) s calls (new, distinct) =
      rw (del_prop-first k v d s calls new) (del_props-all d s calls distinct)

  remove_runtime_properties-all :
      (w : World C)
      → IsDistinct (keys w.props)
      → remove_runtime_properties w ≡ (ok tt, state [] [] w.calls)
  unfolding remove_runtime_properties
  remove_runtime_properties-all w distinct =
      rw (del_props-all w.props w.stored w.calls distinct) refl

  abbrev pub cleaned_up : Bool → World C → World C
  cleaned_up deletes w =
      if deletes && not (truthy (or_null (lookup async_task_id w.props)))
      then state [] [] w.calls
      else w

  clean_up_lem :
      (deletes : Bool) (w : World C)
      → IsDistinct (keys w.props)
      → clean_up deletes w ≡ (ok tt, cleaned_up deletes w)
  clean_up_lem false w distinct = refl
  clean_up_lem true w distinct =
      elim (Bool-cases (truthy (or_null (lookup async_task_id w.props)))) [
        | inl pending ↦ rw pending refl
        | inr idle ↦ rw (idle, remove_runtime_properties-all w distinct) refl
      ]

  abbrev pub ended : Bool → Result (Unit {0}) → World C → Result (Unit {0}) × World C
  ended deletes (err e) w = (err e, w)
  ended deletes (ok _) w = (ok tt, cleaned_up deletes w)

  -- How an operation under with_client goes on from a run of the deferred task.
  abbrev pub goes_on :
      Bool → Exec (World C) (Unit {0}) → Result (Unit {0}) → World C → Result (Unit {0}) × World C
  goes_on deletes operation (err e) w = (err e, w)
  goes_on deletes operation (ok _) w = ended deletes (operation w).0 (operation w).1

  clean_up-ended :
      (deletes : Bool) (r : Result (Unit {0})) (w : World C)
      → IsDistinct (keys w.props)
      → continue r w (λ _. clean_up deletes) ≡ ended deletes r w
  clean_up-ended deletes (ok _) w distinct = clean_up_lem deletes w distinct
  clean_up-ended deletes (err e) w distinct = refl

  operation-goes_on :
      (deletes : Bool) (operation : Exec (World C) (Unit {0})) (r : Result (Unit {0})) (w : World C)
      → IsDistinct (keys (operation w).1.props)
      → continue r w (λ _ s. continue (operation s).0 (operation s).1 (λ _. clean_up deletes))
        ≡ goes_on deletes operation r w
  operation-goes_on deletes operation (ok _) w distinct =
      clean_up-ended deletes (operation w).0 (operation w).1 distinct
  operation-goes_on deletes operation (err e) w distinct = refl

  with_client_lem :
      (p : Platform C) (deletes : Bool) (operation : Exec (World C) (Unit {0})) (w : World C)
      → IsDistinct (keys (operation (run_deferred_task p w).1).1.props)
      → with_client p deletes operation w
        ≡ goes_on deletes operation (run_deferred_task p w).0 (run_deferred_task p w).1
  unfolding with_client
  with_client_lem p deletes operation w distinct =
      operation-goes_on deletes operation (run_deferred_task p w).0 (run_deferred_task p w).1
        distinct

  run_deferred_task-calls :
      (p : Platform C) (w : World C) → (run_deferred_task p w).1.calls ≡ w.calls
  unfolding run_deferred_task
  run_deferred_task-calls p w =
      elim (Bool-cases (truthy (or_null (lookup async_task_id w.props)))) [
        | inl saved ↦ rw saved (wait-calls p none none null w)
        | inr none_saved ↦ rw none_saved refl
      ]

  abbrev IsTaskFree : World C → Type 0
  IsTaskFree w = truthy (or_null (lookup async_task_id w.props)) ≡ false

  ended-cleans :
      (r : Result (Unit {0})) (w : World C)
      → is_ok (ended true r w).0 ≡ true
      → IsTaskFree (ended true r w).1
      → ((ended true r w).1.props ≡ []) × ((ended true r w).1.stored ≡ [])
  ended-cleans (err e) w good free = cc
  ended-cleans (ok _) w good free =
      elim (Bool-cases (truthy (or_null (lookup async_task_id w.props)))) [
        | inl pending ↦ cc (rw pending at free)
        | inr idle ↦ rw idle (refl, refl)
      ]

  goes_on-effects :
      (operation : Exec (World C) (Unit {0})) (r : Result (Unit {0})) (w : World C) (deletes : Bool)
      → let out = goes_on deletes operation r w in
        (is_ok r ≡ false → (is_ok out.0 ≡ false) × (out.1 ≡ w))
        × (is_ok out.0 ≡ true
            → deletes ≡ true
            → IsTaskFree out.1
            → (out.1.props ≡ []) × (out.1.stored ≡ []))
  goes_on-effects operation (err e) w deletes = ((λ h. (refl, refl)), λ h. cc)
  goes_on-effects operation (ok _) w true =
      ((λ h. cc), λ good _ free. ended-cleans (operation w).0 (operation w).1 good free)
  goes_on-effects operation (ok _) w false = ((λ h. cc), λ good h. cc)

  -- If the task of an earlier run does not end well, the operation raises and has sent no request. If
  -- a delete ends well and leaves no id of a task behind, it leaves no property at all, saved or not.
  pub with_client_effects :
      (p : Platform C) (deletes : Bool) (operation : Exec (World C) (Unit {0})) (w : World C)
      → IsDistinct (keys (operation (run_deferred_task p w).1).1.props)
      → let (r, w') = with_client p deletes operation w in
        (is_ok (run_deferred_task p w).0 ≡ false → (is_ok r ≡ false) × (w'.calls ≡ w.calls))
        × (is_ok r ≡ true
            → deletes ≡ true
            → truthy (or_null (lookup async_task_id w'.props)) ≡ false
            → (w'.props ≡ []) × (w'.stored ≡ []))
  with_client_effects p deletes operation w distinct =
      let (r0, w0) = run_deferred_task p w in
      let (stops, cleans) = goes_on-effects operation r0 w0 deletes in
      rw (with_client_lem p deletes operation w distinct) (
        (λ bad.
            let (fails, same) = stops bad in
            (fails, ap (λ (v : World C). v.calls) same ∙ run_deferred_task-calls p w)),
        λ good del free. cleans good del free,
      )
