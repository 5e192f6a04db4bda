-- ===== src/Server/SnapshotLaws.antt =====
-- The search for a snapshot against the list of all of them, and what the snapshot operations send.
use cloudify_vsphere_plugin.Common.{
  ◌≡◌, refl, sym, ap, ◌∙◌, String, Bool, true, false, ◌&&◌, ◌||◌, not, Option, none, some, List, [],
  ◌∷◌, ◌++◌, ℤ, str, null, find, Within, Within-of_find, fails_of_find, is_some, str_eq, eq_iff,
  Result, err, is_ok, non_recoverable, append-nil, Bool-cases, inl, inr, if◌then◌else◌,
}
use cloudify_vsphere_plugin.Runtime.{World, Platform}
use cloudify_vsphere_plugin.Waiting.Quiet.{wait-calls}
use cloudify_vsphere_plugin.Server.{
  VmCall, create_snapshot, revert_to_snapshot, remove_snapshot, Server, Snapshot, snapshot,
  SnapshotList, nil, cons,
}
use cloudify_vsphere_plugin.Server.Snapshots.{
  vsphere_snapshot_id, snapshot_name, has_children, or_else, get_snapshot_by_name, memory_flag,
  backup_server, restore_server, remove_backup,
}
use cloudify_vsphere_plugin.Server.PowerLaws.{run_task-calls}

-- Every snapshot of the trees, each before those taken after it.
unfoldable pub all_snapshots : SnapshotList → List Snapshot
all_snapshots nil = []
all_snapshots (cons (snapshot name children) ss) =
    snapshot name children ∷ (all_snapshots children ++ all_snapshots ss)

abbrev pub is_named : String → Snapshot → Bool
is_named wanted s = str_eq (snapshot_name s) wanted

find-append :
    (test : Snapshot → Bool) (xs ys : List Snapshot)
    → find test (xs ++ ys) ≡ or_else (find test xs) (find test ys)
find-append test [] ys = refl
find-append test (x ∷ xs) ys = elim (Bool-cases (test x)) [
  | inl good ↦ rw good
  | inr bad ↦ rw bad (find-append test xs ys)
]

-- The search gives the first snapshot of that name, in the order of the trees.
pub get_snapshot_by_name-find :
    (ss : SnapshotList) (wanted : String)
    → get_snapshot_by_name ss wanted ≡ find (is_named wanted) (all_snapshots ss)
unfolding get_snapshot_by_name all_snapshots
get_snapshot_by_name-find nil wanted = refl
get_snapshot_by_name-find (cons (snapshot name children) ss) wanted =
    elim (Bool-cases (str_eq name wanted)) [
      | inl good ↦ rw good
      | inr bad ↦ rw (
        bad,
        find-append (is_named wanted) (all_snapshots children) (all_snapshots ss),
        get_snapshot_by_name-find children wanted,
        get_snapshot_by_name-find ss wanted,
      )
    ]

-- What is found is a snapshot of the server, of that name; and nothing is found only if none of
-- them has that name.
pub get_snapshot_by_name_sound :
    (ss : SnapshotList) (wanted : String)
    → ((s : Snapshot)
        → get_snapshot_by_name ss wanted ≡ some s
        → Within s (all_snapshots ss) × (snapshot_name s ≡ wanted))
      × (get_snapshot_by_name ss wanted ≡ none
          → (s : Snapshot) → Within s (all_snapshots ss)
          → str_eq (snapshot_name s) wanted ≡ false)
get_snapshot_by_name_sound ss wanted = (
  λ s e.
      let (there, same) =
        Within-of_find (is_named wanted) (all_snapshots ss)
          (sym (get_snapshot_by_name-find ss wanted) ∙ e) in
      (there, (eq_iff (snapshot_name s) wanted).0 same),
  λ e s m.
      fails_of_find (is_named wanted) (all_snapshots ss)
        (sym (get_snapshot_by_name-find ss wanted) ∙ e) m,
)

-- It may be removed: it exists and no other snapshot was taken after it.
abbrev pub is_removable : Option Snapshot → Bool
is_removable none = false
is_removable (some s) = not (has_children s)

module _ (p : Platform VmCall) (server : Server) (name : String) (max_wait : Option ℤ)
    (w : World VmCall) where
  -- The server has a snapshot of that name.
  abbrev pub taken : Bool
  taken = is_some (get_snapshot_by_name (server.snapshots w.calls) name)

  -- A backup asks for one snapshot; not for a name that is taken, where it raises and changes
  -- nothing, and not on a retry, which waits for the task of the first run.
  pub backup_requests :
      (description : String) (with_memory : Option Bool) (retry : Bool)
      → let (r, w') = backup_server p server name description max_wait with_memory retry w in
        (w'.calls
          ≡ w.calls
            ++ (if retry || taken
                then []
                else create_snapshot name description (memory_flag p server with_memory) ∷ []))
        × ((not retry && taken ≡ true)
            → (r ≡ err (non_recoverable "Snapshot {snapshot_name} already exists.")) × (w' ≡ w))
  unfolding backup_server
  backup_requests description with_memory true =
      (wait-calls p none max_wait (str vsphere_snapshot_id) w ∙ sym (append-nil w.calls), λ e. cc)
  backup_requests description with_memory false = elim (Bool-cases taken) [
    | inl is_taken ↦ rw is_taken (sym (append-nil w.calls), λ e. (refl, refl))
    | inr free ↦ rw free (run_task-calls p _ max_wait (str vsphere_snapshot_id) w, λ e. cc)
  ]

  abbrev no_snapshot : Result (Unit {0})
  no_snapshot = err (non_recoverable "No snapshots found with name: {snapshot_name}.")

  module _ (s : Snapshot)
      (found : get_snapshot_by_name (server.snapshots w.calls) name ≡ some s) where
    named : snapshot_name s ≡ name
    named = ((get_snapshot_by_name_sound (server.snapshots w.calls) name).0 s found).1

    -- A snapshot of that name is reverted to, and no other request is sent.
    restore_found :
        (restore_server p server name max_wait w).1.calls ≡ w.calls ++ revert_to_snapshot name ∷ []
    unfolding restore_server
    restore_found = rw (found, named) (run_task-calls p _ max_wait null w)

  -- A restore reverts to the snapshot of that name, in one request; without such a snapshot it
  -- raises and changes nothing.
  pub restore_requests :
      let (r, w') = restore_server p server name max_wait w in
      (w'.calls ≡ w.calls ++ (if taken then revert_to_snapshot name ∷ [] else []))
      × (taken ≡ false → (r ≡ no_snapshot) × (w' ≡ w))
  unfolding restore_server
  restore_requests = by_case (get_snapshot_by_name (server.snapshots w.calls) name) refl
    where
      by_case :
          (o : Option Snapshot)
          → get_snapshot_by_name (server.snapshots w.calls) name ≡ o
          → let (r, w') = restore_server p server name max_wait w in
            (w'.calls ≡ w.calls ++ (if taken then revert_to_snapshot name ∷ [] else []))
            × (taken ≡ false → (r ≡ no_snapshot) × (w' ≡ w))
      by_case none e = rw e (sym (append-nil w.calls), λ _. (refl, refl))
      by_case (some s) e = (
        restore_found s e
            ∙ ap (λ b. w.calls ++ (if b then revert_to_snapshot name ∷ [] else []))
                (sym (ap is_some e)),
        λ free. cc (free, ap is_some e),
      )

  -- A snapshot is removed, in one request, if it is there and no other was taken after it; in any
  -- other case the removal raises and changes nothing.
  pub remove_requests :
      let removable = is_removable (get_snapshot_by_name (server.snapshots w.calls) name) in
      let (r, w') = remove_backup p server name max_wait w in
      (w'.calls ≡ w.calls ++ (if removable then remove_snapshot name ∷ [] else []))
      × (removable ≡ false → (is_ok r ≡ false) × (w' ≡ w))
  unfolding remove_backup
  remove_requests = by_case (get_snapshot_by_name (server.snapshots w.calls) name) refl
    where
      by_case :
          (o : Option Snapshot)
          → get_snapshot_by_name (server.snapshots w.calls) name ≡ o
          → let removable = is_removable (get_snapshot_by_name (server.snapshots w.calls) name) in
            let (r, w') = remove_backup p server name max_wait w in
            (w'.calls ≡ w.calls ++ (if removable then remove_snapshot name ∷ [] else []))
            × (removable ≡ false → (is_ok r ≡ false) × (w' ≡ w))
      by_case none e = rw e (sym (append-nil w.calls), λ _. (refl, refl))
      by_case (some s) e = elim (Bool-cases (has_children s)) [
        | inl children ↦ rw (e, children) (sym (append-nil w.calls), λ _. (refl, refl))
        | inr leaf ↦ rw (e, leaf, named s e) (run_task-calls p _ max_wait null w, λ h. cc)
      ]
