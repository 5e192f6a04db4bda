-- ===== src/Waiting/Apart.antt =====
-- A wait that records no result leaves the properties alone that are not its own.
use cloudify_vsphere_plugin.Common.{
  ◌≡◌, ◌∙◌, String, false, none, some, ℤ, Value, null, str, str_eq, lookup, remove, lookup-put_ne,
  lookup-remove, Dict, arith,
}
use cloudify_vsphere_plugin.Runtime.{World, Task, Platform}
use cloudify_vsphere_plugin.Waiting.{
  async_task_id, async_resource_id, settle, begin, wait_for_task, wait_limit,
}

-- A property that waiting does not use.
abbrev pub IsApart : String → Type 0
IsApart k = (str_eq async_task_id k ≡ false) × (str_eq async_resource_id k ≡ false)

lookup-remove_ne :
    (k j : String) (d : Dict Value) → str_eq k j ≡ false → lookup j (remove k d) ≡ lookup j d
lookup-remove_ne k j d h = rw lookup-remove (rw h)

module _ {C : Type 0} where
  settle-lookup :
      (t : Task) (limit : ℤ) (w : World C) (k : String)
      → IsApart k
      → lookup k (settle t limit null w).1.props ≡ lookup k w.props
  unfolding settle
  settle-lookup t limit w k (a, b) = ground (
    arith,
    lookup-remove_ne async_task_id k w.props a,
    lookup-remove_ne async_resource_id k (remove async_task_id w.props) b,
  )

  begin-lookup :
      (t : Task) (w : World C) (k : String)
      → IsApart k
      → lookup k (begin t none null w).1.props ≡ lookup k w.props
  unfolding begin
  begin-lookup t w k (a, b) =
      settle-lookup t (wait_limit none) _ k (a, b)
      ∙ lookup-put_ne async_resource_id k null _ b
      ∙ lookup-put_ne async_task_id k (str t.id) w.props a

  -- A wait that was just started keeps every other property, however it ends.
  pub wait-lookup :
      (p : Platform C) (t : Task) (w : World C) (k : String)
      → IsApart k
      → lookup k (wait_for_task p (some t) none null w).1.props ≡ lookup k w.props
  unfolding wait_for_task
  wait-lookup p t w k apart = begin-lookup t w k apart
