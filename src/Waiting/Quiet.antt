-- ===== src/Waiting/Quiet.antt =====
-- Waiting sends no request, however it ends.
use cloudify_vsphere_plugin.Common.{◌≡◌, Option, none, some, ℤ, Value, null, str, arith}
use cloudify_vsphere_plugin.Runtime.{World, Task, Platform}
use cloudify_vsphere_plugin.Waiting.{settle, pick_up, resume, begin, wait_for_task}

module _ {C : Type 0} where
  settle-calls :
      (t : Task) (limit : ℤ) (res : Value) (w : World C) → (settle t limit res w).1.calls ≡ w.calls
  unfolding settle
  settle-calls t limit null w = ground arith
  settle-calls t limit (str key) w = ground arith
  settle-calls t limit _ w = ground arith

  pick_up-calls :
      (found : Option Task) (limit : ℤ) (res : Value) (w : World C)
      → (pick_up found limit res w).1.calls ≡ w.calls
  unfolding pick_up
  pick_up-calls none limit res w = ground arith
  pick_up-calls (some t) limit res w = settle-calls t limit res w

  resume-calls :
      (p : Platform C) (max_wait : Option ℤ) (w : World C) → (resume p max_wait w).1.calls ≡ w.calls
  unfolding resume
  resume-calls p max_wait w = grind (arith, pick_up-calls)

  begin-calls :
      (t : Task) (max_wait : Option ℤ) (res : Value) (w : World C)
      → (begin t max_wait res w).1.calls ≡ w.calls
  unfolding begin
  begin-calls t max_wait res w = grind (arith, settle-calls)

  -- A wait sends no request, however it ends and whether it was just started or taken up again.
  pub wait-calls :
      (p : Platform C) (t : Option Task) (max_wait : Option ℤ) (res : Value) (w : World C)
      → (wait_for_task p t max_wait res w).1.calls ≡ w.calls
  unfolding wait_for_task
  wait-calls p none max_wait res w = resume-calls p max_wait w
  wait-calls p (some t) max_wait res w = begin-calls t max_wait res w
