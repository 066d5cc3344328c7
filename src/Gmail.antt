-- ===== src/Gmail.antt =====
-- src/backend/accounts/imap/gmail/sync_state_helper.js: which messages of a Gmail account are synced.
pub mod Tasks
pub mod Moves
pub mod Derive
pub mod Removal
pub mod Rounds
pub mod Criteria
mod Tests
use gaia_email_libs_and_more.Common.{
  ℕ, zero, suc, ◌+◌, Bool, true, false, not, ◌&&◌, ◌==◌, ltb, leb, if◌then◌else◌, Option, none,
  some, List, [], ◌∷◌, ◌++◌, length, has, add, delete, remove_first, get, put, erase, for_each,
}

-- A `sync_conv` task. Its conversation id is the account's and the raw id, which can be undefined.
pub record Task : Type 0 where
  pub conv_id : Option ℕ
  pub new_conv : Bool
  pub remove_conv : Bool
  pub new_uids : Option (List ℕ)
  pub modified_uids : Option (List (ℕ × ℕ))
  pub removed_uids : Option (List ℕ)
  pub most_recent : ℕ

-- A stash; its task is a place in the list of tasks. The stash that a map or a set holds is told by
-- its raw conversation id.
pub record Stash : Type 0 where
  pub yay_uids : List ℕ
  pub meh_uids : List ℕ
  pub most_recent : ℕ
  pub task : Option ℕ

pub record Sync : Type 0 where
  pub yay_uids : List (ℕ × ℕ)
  pub meh_uids : List (ℕ × ℕ)
  pub label_since_dates : List (ℕ × ℕ)
  pub grow_mode : Bool
  pub stashes : List (ℕ × Stash)
  pub pending_for_removal : List ℕ
  pub tasks_to_schedule : List Task
  pub metric_useful : ℕ
  pub metric_waste : ℕ

-- `_deriveRawConvIdToConvStash`, the loop over the yay UIDs.
unfoldable pub derive_yay : List (ℕ × Stash) → ℕ × ℕ → List (ℕ × Stash)
derive_yay stashes (uid, raw_conv_id) = elim (get raw_conv_id stashes) [
  | none ↦
      put raw_conv_id (record { yay_uids = uid ∷ []; meh_uids = []; most_recent = 0; task = none })
        stashes
  | some stash ↦ put raw_conv_id (record stash { yay_uids = stash.yay_uids ++ uid ∷ [] }) stashes
]

-- The loop over the meh UIDs: it pushes them onto the stash's yay UIDs.
unfoldable pub derive_meh : List (ℕ × Stash) → ℕ × ℕ → List (ℕ × Stash)
derive_meh stashes (uid, raw_conv_id) = elim (get raw_conv_id stashes) [
  | none ↦ stashes
  | some stash ↦ put raw_conv_id (record stash { yay_uids = stash.yay_uids ++ uid ∷ [] }) stashes
]

unfoldable pub derive_stashes : (yay meh : List (ℕ × ℕ)) → List (ℕ × Stash)
derive_stashes yay meh = for_each derive_meh (for_each derive_yay [] yay) meh

-- `new SyncStateHelper(ctx, rawSyncState, accountId, mode)`, for a raw state that is there.
unfoldable pub load : (yay meh since_dates : List (ℕ × ℕ)) → Bool → Sync
load yay meh since_dates grow_mode = record {
  yay_uids = yay;
  meh_uids = meh;
  label_since_dates = since_dates;
  grow_mode = grow_mode;
  stashes = derive_stashes yay meh;
  pending_for_removal = [];
  tasks_to_schedule = [];
  metric_useful = 0;
  metric_waste = 0;
}

unfoldable pub set_folder_id_since_date : ℕ → ℕ → Sync → Sync
set_folder_id_since_date folder_id since_date s = record s {
  label_since_dates = put folder_id since_date s.label_since_dates;
}

-- `messageMeetsSyncCriteria`: a date that is missing or 0 is passed over.
unfoldable pub message_meets_sync_criteria : ℕ → List ℕ → Sync → Bool
message_meets_sync_criteria date [] s = false
message_meets_sync_criteria date (folder_id ∷ folder_ids) s =
    let rest = message_meets_sync_criteria date folder_ids s in
    elim (get folder_id s.label_since_dates) [
      | none ↦ rest
      | some since_date ↦
          if since_date == 0 then rest else if leb since_date date then true else rest
    ]

abbrev pub is_known_raw_conv_id : ℕ → Sync → Bool
is_known_raw_conv_id raw_conv_id s = elim (get raw_conv_id s.stashes) [
  | none ↦ false
  | some x ↦ true
]
