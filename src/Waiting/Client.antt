-- ===== src/Waiting/Client.antt =====
-- The decorator with_client of every operation, and remove_runtime_properties
-- (vsphere_plugin_common/__init__.py).
use cloudify_vsphere_plugin.Common.{
  String, Bool, not, List, [], ◌∷◌, keys, truthy, Exec, pure, gets, when, ◌>>=◌, ◌>>◌,
}
use cloudify_vsphere_plugin.Runtime.{World, Platform, get_prop, del_prop, save}
use cloudify_vsphere_plugin.Waiting.{async_task_id, run_deferred_task}

module _ {C : Type 0} where
  -- The loop over the keys that there were at its start.
  unfoldable pub del_props : List String → Exec (World C) (Unit {0})
  del_props [] = pure tt
  del_props (k ∷ ks) = do del_prop k; del_props ks

  unfoldable pub remove_runtime_properties : Exec (World C) (Unit {0})
  unfolding del_props
  remove_runtime_properties = do names ← gets (λ w. keys w.props); del_props names; save

  -- After a delete of a node that left no task behind, all properties are dropped.
  abbrev pub clean_up : Bool → Exec (World C) (Unit {0})
  clean_up deletes =
      when deletes
        (do pending ← get_prop async_task_id; when (not (truthy pending)) remove_runtime_properties)

  -- An operation on a node instance; `deletes` tells whether the action is that of a delete.
  unfoldable pub with_client :
      Platform C → Bool → Exec (World C) (Unit {0}) → Exec (World C) (Unit {0})
  unfolding run_deferred_task remove_runtime_properties
  with_client p deletes operation = do run_deferred_task p; operation; clean_up deletes
