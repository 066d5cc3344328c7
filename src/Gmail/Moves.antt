-- ===== src/Gmail/Moves.antt =====
-- sync_state_helper.js: what is done for each message that the server tells of.
use gaia_email_libs_and_more.Common.{
  ℕ, ◌+◌, ◌==◌, Bool, true, false, if◌then◌else◌, Option, none, some, List, [], ◌∷◌, ◌++◌, length,
  has, add, delete, remove_first, get, put, erase, for_each,
}
use gaia_email_libs_and_more.Gmail.{Stash, Sync, is_known_raw_conv_id}
use gaia_email_libs_and_more.Gmail.Tasks.{
  Work, fresh_task, store, update_task_with_new_uid, update_task_with_modified_uid,
  update_task_with_removed_uid, set_remove_conv,
}

unfoldable pub new_yay_message_in_new_conv : ℕ → ℕ → ℕ → Sync → Sync
new_yay_message_in_new_conv uid raw_conv_id date_ts s =
    store raw_conv_id
      (
        record {
          yay_uids = uid ∷ [];
          meh_uids = [];
          most_recent = date_ts;
          task = some (length s.tasks_to_schedule);
        },
        s.tasks_to_schedule
            ++ record (fresh_task (some raw_conv_id)) { new_conv = true; most_recent = date_ts }
              ∷ [],
      )
      (record s { metric_useful = s.metric_useful + 1; yay_uids = put uid raw_conv_id s.yay_uids })

-- The stash of the conversation; without one the operations raise a TypeError: `none`.
unfoldable pub with_stash : ℕ → Sync → (Stash → Sync) → Option Sync
with_stash raw_conv_id s body = elim (get raw_conv_id s.stashes) [
  | none ↦ none
  | some stash ↦ some (body stash)
]

abbrev pub useful : Sync → Sync
useful s = record s { metric_useful = s.metric_useful + 1 }

-- The stash with the UID pushed to one of its lists.
abbrev pub push_yay : ℕ → Stash → Stash
push_yay uid stash = record stash { yay_uids = stash.yay_uids ++ uid ∷ [] }

abbrev pub push_meh : ℕ → Stash → Stash
push_meh uid stash = record stash { meh_uids = stash.meh_uids ++ uid ∷ [] }

unfoldable pub new_yay_message_in_existing_conv : ℕ → ℕ → ℕ → Sync → Option Sync
new_yay_message_in_existing_conv uid raw_conv_id date_ts s = with_stash raw_conv_id s (λ stash.
    store raw_conv_id
      (update_task_with_new_uid s.grow_mode uid raw_conv_id date_ts
        (push_yay uid stash, s.tasks_to_schedule))
      (record (useful s) { yay_uids = put uid raw_conv_id s.yay_uids }))

-- A date that is missing or 0 makes no task.
unfoldable pub new_meh_message_in_existing_conv : ℕ → ℕ → ℕ → Sync → Option Sync
new_meh_message_in_existing_conv uid raw_conv_id date_ts s = with_stash raw_conv_id s (λ stash.
    let work : Work = (push_meh uid stash, s.tasks_to_schedule) in
    store raw_conv_id
      (if date_ts == 0
        then work
        else update_task_with_new_uid s.grow_mode uid raw_conv_id date_ts work)
      (record (useful s) { meh_uids = put uid raw_conv_id s.meh_uids }))

-- `newMootMessage` and `existingMootMessage`.
unfoldable pub moot_message : Sync → Sync
moot_message s = record s { metric_waste = s.metric_waste + 1 }

unfoldable pub existing_ignored_message_is_now_yay : ℕ → ℕ → ℕ → Sync → Option Sync
existing_ignored_message_is_now_yay uid raw_conv_id date_ts s =
    if is_known_raw_conv_id raw_conv_id s
    then new_yay_message_in_existing_conv uid raw_conv_id date_ts s
    else some (new_yay_message_in_new_conv uid raw_conv_id date_ts s)

-- `uids.splice(-1, 1)`.
unfoldable pub remove_last : List ℕ → List ℕ
remove_last [] = []
remove_last (x ∷ []) = []
remove_last (x ∷ y ∷ xs) = x ∷ remove_last (y ∷ xs)

-- `uids.splice(uids.indexOf(uid), 1)`.
unfoldable pub splice_out : ℕ → List ℕ → List ℕ
splice_out uid uids = if has uid uids then remove_first uid uids else remove_last uids

abbrev pub is_empty : List ℕ → Bool
is_empty [] = true
is_empty (x ∷ xs) = false

abbrev pub is_one : List ℕ → Bool
is_one [] = false
is_one (x ∷ []) = true
is_one (x ∷ y ∷ xs) = false

-- `if (stash.yayUids.length === 0) { this._updateForRemoval(stash); }`, and the stash is stored.
unfoldable pub doom_if_empty : ℕ → Work → Sync → Sync
doom_if_empty raw_conv_id work s =
    if is_empty work.0.yay_uids
    then store raw_conv_id (set_remove_conv true work)
        (record s { pending_for_removal = add raw_conv_id s.pending_for_removal })
    else store raw_conv_id work s

-- `if (stash.yayUids.length === 1) { this._updateSavedFromRemoval(stash); }`, likewise.
unfoldable pub save_if_one : ℕ → Work → Sync → Sync
save_if_one raw_conv_id work s =
    if is_one work.0.yay_uids
    then store raw_conv_id (set_remove_conv false work)
        (record s { pending_for_removal = delete raw_conv_id s.pending_for_removal })
    else store raw_conv_id work s

unfoldable pub existing_yay_message_is_now_meh : ℕ → ℕ → ℕ → Sync → Option Sync
existing_yay_message_is_now_meh uid raw_conv_id new_state s = with_stash raw_conv_id s (λ stash.
    doom_if_empty raw_conv_id
      (update_task_with_modified_uid uid raw_conv_id new_state (
        record stash {
          yay_uids = splice_out uid stash.yay_uids;
          meh_uids = stash.meh_uids ++ uid ∷ [];
        },
        s.tasks_to_schedule,
      ))
      (record (useful s) {
        yay_uids = erase uid s.yay_uids;
        meh_uids = put uid raw_conv_id s.meh_uids;
      }))

unfoldable pub existing_meh_message_is_now_yay : ℕ → ℕ → ℕ → Sync → Option Sync
existing_meh_message_is_now_yay uid raw_conv_id new_state s = with_stash raw_conv_id s (λ stash.
    save_if_one raw_conv_id
      (update_task_with_modified_uid uid raw_conv_id new_state (
        record stash {
          yay_uids = stash.yay_uids ++ uid ∷ [];
          meh_uids = splice_out uid stash.meh_uids;
        },
        s.tasks_to_schedule,
      ))
      (record (useful s) {
        meh_uids = erase uid s.meh_uids;
        yay_uids = put uid raw_conv_id s.yay_uids;
      }))

unfoldable pub existing_message_updated : ℕ → ℕ → ℕ → Sync → Option Sync
existing_message_updated uid raw_conv_id new_state s = with_stash raw_conv_id s (λ stash.
    store raw_conv_id
      (update_task_with_modified_uid uid raw_conv_id new_state (stash, s.tasks_to_schedule))
      (useful s))

-- A UID that is not in the map has the conversation id undefined, for which there is no stash.
unfoldable pub yay_message_deleted : ℕ → Sync → Option Sync
yay_message_deleted uid s = elim (get uid s.yay_uids) [
  | none ↦ none
  | some raw_conv_id ↦ with_stash raw_conv_id s (λ stash.
      doom_if_empty raw_conv_id
        (update_task_with_removed_uid uid
          (record stash { yay_uids = splice_out uid stash.yay_uids }, s.tasks_to_schedule))
        (record s { yay_uids = erase uid s.yay_uids }))
]

unfoldable pub meh_message_deleted : ℕ → Sync → Option Sync
meh_message_deleted uid s = elim (get uid s.meh_uids) [
  | none ↦ none
  | some raw_conv_id ↦ with_stash raw_conv_id s (λ stash.
      store raw_conv_id
        (update_task_with_removed_uid uid
          (record stash { meh_uids = splice_out uid stash.meh_uids }, s.tasks_to_schedule))
        (record s { meh_uids = erase uid s.meh_uids }))
]

-- The body of the loop of `finalizePendingRemovals`.
unfoldable pub finalize_one : Sync → ℕ → Sync
finalize_one s raw_conv_id = elim (get raw_conv_id s.stashes) [
  | none ↦ s
  | some stash ↦ record s {
    meh_uids =
        for_each (λ (uids : List (ℕ × ℕ)) (uid : ℕ). erase uid uids) s.meh_uids stash.meh_uids;
    stashes = erase raw_conv_id s.stashes;
  }
]

unfoldable pub finalize_pending_removals : Sync → Sync
finalize_pending_removals s = record (for_each finalize_one s s.pending_for_removal) {
  pending_for_removal = [];
}
