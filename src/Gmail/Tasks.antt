-- ===== src/Gmail/Tasks.antt =====
-- sync_state_helper.js: the `sync_conv` tasks that the changes of the messages lead to.
use gaia_email_libs_and_more.Common.{
  ℕ, zero, suc, Bool, false, ltb, if◌then◌else◌, Option, none, some, List, [], ◌∷◌, ◌++◌, length,
  add, put,
}
use gaia_email_libs_and_more.Gmail.{Task, Stash, Sync}

-- A change of the task at a place.
unfoldable pub at_task : ℕ → (Task → Task) → List Task → List Task
at_task i f [] = []
at_task zero f (t ∷ ts) = f t ∷ ts
at_task (suc i) f (t ∷ ts) = t ∷ at_task i f ts

abbrev pub fresh_task : Option ℕ → Task
fresh_task raw_conv_id = record {
  conv_id = raw_conv_id;
  new_conv = false;
  remove_conv = false;
  new_uids = none;
  modified_uids = none;
  removed_uids = none;
  most_recent = 0;
}

-- A stash and the tasks: what the helpers on tasks work on.
abbrev pub Work : Type 0
Work = Stash × List Task

-- `if (!stash.task) { stash.task = this._makeConvTask(rawConvId); }`, and the task's place.
unfoldable pub ensure_task : Option ℕ → Work → ℕ × Work
ensure_task raw_conv_id (stash, tasks) = elim stash.task [
  | some i ↦ (i, (stash, tasks))
  | none ↦ (
    length tasks,
    (record stash { task = some (length tasks) }, tasks ++ fresh_task raw_conv_id ∷ []),
  )
]

abbrev pub add_to : ℕ → Option (List ℕ) → List ℕ
add_to uid none = uid ∷ []
add_to uid (some uids) = add uid uids

abbrev pub set_in : ℕ → ℕ → Option (List (ℕ × ℕ)) → List (ℕ × ℕ)
set_in uid new_state none = (uid, new_state) ∷ []
set_in uid new_state (some uids) = put uid new_state uids

unfoldable pub note_new_uid : ℕ → Task → Task
note_new_uid uid t = if t.new_conv then t else record t { new_uids = some (add_to uid t.new_uids) }

unfoldable pub note_modified_uid : ℕ → ℕ → Task → Task
note_modified_uid uid new_state t =
    if t.new_conv
    then t
    else record t { modified_uids = some (set_in uid new_state t.modified_uids) }

unfoldable pub note_removed_uid : ℕ → Task → Task
note_removed_uid uid t =
    if t.new_conv then t else record t { removed_uids = some (add_to uid t.removed_uids) }

-- `_updateTaskWithNewUid`.
unfoldable pub update_task_with_new_uid : Bool → ℕ → ℕ → ℕ → Work → Work
update_task_with_new_uid grow_mode uid raw_conv_id date_ts work =
    let (i, (stash, tasks)) = ensure_task (some raw_conv_id) work in
    let noted = at_task i (note_new_uid uid) tasks in
    if grow_mode
    then work
    else if ltb stash.most_recent date_ts
    then (
      record stash { most_recent = date_ts },
      at_task i (λ (t : Task). record t { most_recent = date_ts }) noted,
    )
    else (stash, noted)

-- `_updateTaskWithModifiedUid`.
unfoldable pub update_task_with_modified_uid : ℕ → ℕ → ℕ → Work → Work
update_task_with_modified_uid uid raw_conv_id new_state work =
    let (i, (stash, tasks)) = ensure_task (some raw_conv_id) work in
    (stash, at_task i (note_modified_uid uid new_state) tasks)

-- `_updateTaskWithRemovedUid`: its callers give it no raw conversation id.
unfoldable pub update_task_with_removed_uid : ℕ → Work → Work
update_task_with_removed_uid uid work =
    let (i, (stash, tasks)) = ensure_task none work in
    (stash, at_task i (note_removed_uid uid) tasks)

-- `stash.task.removeConv = value`; there is a task wherever it is called.
unfoldable pub set_remove_conv : Bool → Work → Work
set_remove_conv value (stash, tasks) = elim stash.task [
  | none ↦ (stash, tasks)
  | some i ↦ (stash, at_task i (λ (t : Task). record t { remove_conv = value }) tasks)
]

unfoldable pub store : ℕ → Work → Sync → Sync
store raw_conv_id (stash, tasks) s = record s {
  stashes = put raw_conv_id stash s.stashes;
  tasks_to_schedule = tasks;
}
