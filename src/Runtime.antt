-- ===== src/Runtime.antt =====
-- A node instance and its runtime properties (Cloudify's `ctx.instance`), and the requests that
-- the plugin sends to vSphere. `stored` is what the last `instance.update()` saved.
use cloudify_vsphere_plugin.Common.{
  ℕ, String, none, some, List, [], ◌∷◌, ◌++◌, Dict, lookup, put, remove, Value, or_null, ok, err,
  key_error, Exec,
}

-- `C` is the type of a component's requests, in the order in which they were sent.
pub record World (C : Type 0) : Type 0 where
  pub props : Dict Value
  pub stored : Dict Value
  pub calls : List C

pub data TaskState : Type 0 where
  queued running success error : TaskState

-- A task of the platform. `state n` is what its `info.state` reads after `n` sleeps of the
-- waiting loop; `result` is the `_moId` of `info.result` and `fault` the text of `info.error`.
pub record Task : Type 0 where
  pub id : String
  pub state : ℕ → TaskState
  pub result : String
  pub fault : String

-- vSphere itself is outside the program: the answer to a request may depend on all that was asked.
pub record Platform (C : Type 0) : Type 0 where
  pub reply : List C → C → Task
  pub recent_tasks : List C → List Task

module _ {C : Type 0} where
  -- `instance.runtime_properties.get(key)`
  abbrev pub get_prop : String → Exec (World C) Value
  get_prop k w = (ok (or_null (lookup k w.props)), w)

  -- `instance.runtime_properties[key]`
  abbrev pub read_prop : String → Exec (World C) Value
  read_prop k w = elim (lookup k w.props) [ none ↦ (err (key_error k), w) | some v ↦ (ok v, w) ]

  -- `instance.runtime_properties[key] = value`
  abbrev pub put_prop : String → Value → Exec (World C) (Unit {0})
  put_prop k v w = (ok tt, record w { props = put k v w.props })

  -- `del instance.runtime_properties[key]`
  abbrev pub del_prop : String → Exec (World C) (Unit {0})
  del_prop k w = elim (lookup k w.props) [
    | none ↦ (err (key_error k), w)
    | some _ ↦ (ok tt, record w { props = remove k w.props })
  ]

  -- `instance.update()`
  abbrev pub save : Exec (World C) (Unit {0})
  save w = (ok tt, record w { stored = w.props })

  -- A request that answers with a task.
  abbrev pub submit : Platform C → C → Exec (World C) Task
  submit p c w = (ok (p.reply w.calls c), record w { calls = w.calls ++ c ∷ [] })

  -- A request that answers at once.
  abbrev pub send : C → Exec (World C) (Unit {0})
  send c w = (ok tt, record w { calls = w.calls ++ c ∷ [] })
