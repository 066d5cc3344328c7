-- ===== src/Vanilla/Tests.antt =====
-- Runs of src/backend/accounts/imap/vanilla/folder_sync_state_helper.js, and the theorems at
-- concrete inputs.
use gaia_email_libs_and_more.Common.{
  ◌≡◌, refl, not, ◌||◌, none, some, List, [], ◌∷◌, has, add, delete, get, put, erase, for_each, pos,
  ◌+ℤ◌, if◌then◌else◌,
}
use gaia_email_libs_and_more.Vanilla.{
  sync_message, sync_conv, Folder, default_state, index_of, allocate_flag_slot, find_flag_slot,
  change_at, incr_flag_slot, decr_flag_slot, issue_unique_message_id, get_all_uids, forget_uid,
  infer_deletion_from_existing_uids, yay_message_found_by_date, check_flag_changes,
}
use gaia_email_libs_and_more.Vanilla.Tasks.{
  at_task, ensure_conv_task, ensure_task_with_umid_flags, ensure_task_with_removed_umid,
  group_flag_change, group_deletion, generate_sync_conv_tasks,
}
use gaia_email_libs_and_more.Vanilla.Umids.{IsIssued}
use gaia_email_libs_and_more.Vanilla.Moves.{
  infer_deletion_from_existing_uids-deletes, Move, found, checked, searched, move, move_all,
  move_all-IsIssued,
}

program : Unit {0}
unfolding default_state index_of allocate_flag_slot find_flag_slot change_at incr_flag_slot
    decr_flag_slot issue_unique_message_id get_all_uids forget_uid infer_deletion_from_existing_uids
    yay_message_found_by_date check_flag_changes has add delete get put erase for_each move move_all
    ◌+ℤ◌ at_task ensure_conv_task ensure_task_with_umid_flags ensure_task_with_removed_umid
    group_flag_change group_deletion generate_sync_conv_tasks
program = tt

-- Two messages are found, the flags of the first change, and the second disappears.
abbrev moves : List Move
moves = found 10 1000 5 ∷ found 11 1001 5 ∷ checked 10 6 ∷ searched (10 ∷ []) ∷ []

abbrev after : List Move → Folder
after ms = elim (move_all ms default_state) [ none ↦ default_state | some s ↦ s ]

deletions_run : (after moves).umid_deletions ≡ 2 ∷ []
unfolding program
deletions_run = refl

-- The message of umid 1 is of conversation 70, and that of umid 2 is not resolved.
abbrev named : Folder
named = record (after moves) { umid_name_reads = (1, some 7) ∷ (2, none) ∷ [] }

tasks_run :
    (generate_sync_conv_tasks (λ n. 70) named).tasks_to_schedule
    ≡ sync_message 10 1 1000 5
      ∷ sync_message 11 2 1001 5
      ∷ sync_conv 70 (some ((1, 6) ∷ [])) none
      ∷ []
unfolding program
tasks_run = refl

move_all-IsIssued_example : IsIssued (after moves)
unfolding program
move_all-IsIssued_example = move_all-IsIssued moves (after moves) refl

infer_deletion_from_existing_uids-deletes_example :
    (get 10 (infer_deletion_from_existing_uids [] (after moves)).uid_info
      ≡ (if has 10 [] then some (record { umid = 1; flag_slot = 1 }) else none))
    × (has 1 (infer_deletion_from_existing_uids [] (after moves)).umid_deletions
        ≡ (not (has 10 []) || has 1 (after moves).umid_deletions))
    × (get 1 (infer_deletion_from_existing_uids [] (after moves)).umid_location_writes
        ≡ (if has 10 [] then get 1 (after moves).umid_location_writes else some none))
unfolding program
infer_deletion_from_existing_uids-deletes_example =
    infer_deletion_from_existing_uids-deletes [] (after moves) 10
      (record { umid = 1; flag_slot = 1 }) (move_all-IsIssued moves (after moves) refl) refl

-- Slot 0 is free.
abbrev freed : Folder
freed = record (after []) { flag_sets = none ∷ []; flag_set_counts = pos 0 ∷ [] }
