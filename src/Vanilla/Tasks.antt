-- ===== src/Vanilla/Tasks.antt =====
-- folder_sync_state_helper.js: the changes grouped by conversation.
use gaia_email_libs_and_more.Common.{
  ℕ, zero, suc, Option, none, some, List, [], ◌∷◌, ◌++◌, length, add, get, put, for_each,
}
use gaia_email_libs_and_more.Vanilla.{Task, sync_message, sync_conv, Folder}

-- A change of the task at a place.
unfoldable pub at_task : ℕ → (Task → Task) → List Task → List Task
at_task i f [] = []
at_task zero f (t ∷ ts) = f t ∷ ts
at_task (suc i) f (t ∷ ts) = t ∷ at_task i f ts

-- `_ensureConvTask`, and the place of the task.
unfoldable pub ensure_conv_task : ℕ → Folder → ℕ × Folder
ensure_conv_task conv_id s = elim (get conv_id s.tasks_by_conv_id) [
  | some i ↦ (i, s)
  | none ↦ (
    length s.tasks_to_schedule,
    record s {
      tasks_by_conv_id = put conv_id (length s.tasks_to_schedule) s.tasks_by_conv_id;
      tasks_to_schedule = s.tasks_to_schedule ++ sync_conv conv_id none none ∷ [];
    },
  )
]

abbrev pub set_flags : ℕ → ℕ → Option (List (ℕ × ℕ)) → List (ℕ × ℕ)
set_flags umid flags none = (umid, flags) ∷ []
set_flags umid flags (some umids) = put umid flags umids

abbrev pub add_umid : ℕ → Option (List ℕ) → List ℕ
add_umid umid none = umid ∷ []
add_umid umid (some umids) = add umid umids

abbrev pub with_modified : ℕ → ℕ → Task → Task
with_modified umid flags (sync_conv conv_id modified removed) =
    sync_conv conv_id (some (set_flags umid flags modified)) removed
with_modified umid flags (sync_message uid m date_ts f) = sync_message uid m date_ts f

abbrev pub with_removed : ℕ → Task → Task
with_removed umid (sync_conv conv_id modified removed) =
    sync_conv conv_id modified (some (add_umid umid removed))
with_removed umid (sync_message uid m date_ts f) = sync_message uid m date_ts f

-- `conv_id_of` is `convIdFromMessageId`.
module _ (conv_id_of : ℕ → ℕ) where
  unfoldable pub ensure_task_with_umid_flags : ℕ → ℕ → ℕ → Folder → Folder
  ensure_task_with_umid_flags message_id umid flags s =
      let (i, ensured) = ensure_conv_task (conv_id_of message_id) s in
      record ensured {
        tasks_to_schedule = at_task i (with_modified umid flags) ensured.tasks_to_schedule;
      }

  unfoldable pub ensure_task_with_removed_umid : ℕ → ℕ → Folder → Folder
  ensure_task_with_removed_umid message_id umid s =
      let (i, ensured) = ensure_conv_task (conv_id_of message_id) s in
      record ensured { tasks_to_schedule = at_task i (with_removed umid) ensured.tasks_to_schedule }

  -- The bodies of the two loops; a umid whose name was not found is passed over.
  unfoldable pub group_flag_change : Folder → ℕ × ℕ → Folder
  group_flag_change s (umid, flags) = elim (get umid s.umid_name_reads) [
    | none ↦ s
    | some none ↦ s
    | some (some message_id) ↦ ensure_task_with_umid_flags message_id umid flags s
  ]

  unfoldable pub group_deletion : Folder → ℕ → Folder
  group_deletion s umid = elim (get umid s.umid_name_reads) [
    | none ↦ s
    | some none ↦ s
    | some (some message_id) ↦ ensure_task_with_removed_umid message_id umid s
  ]

  unfoldable pub generate_sync_conv_tasks : Folder → Folder
  generate_sync_conv_tasks s =
      for_each group_deletion (for_each group_flag_change s s.umid_flag_changes) s.umid_deletions
