-- ===== src/Gmail/Tests.antt =====
-- Runs of src/backend/accounts/imap/gmail/sync_state_helper.js, and the theorems at concrete inputs.
use gaia_email_libs_and_more.Common.{
  ℕ, ◌≡◌, refl, false, ◌&&◌, ◌||◌, none, some, List, [], ◌∷◌, has, add, delete, remove_first, get,
  put, erase, for_each, if◌then◌else◌,
}
use gaia_email_libs_and_more.Gmail.{Stash, Sync, load, derive_yay, derive_meh, derive_stashes}
use gaia_email_libs_and_more.Gmail.Tasks.{
  ensure_task, update_task_with_modified_uid, update_task_with_removed_uid, note_modified_uid,
  note_removed_uid, set_remove_conv, at_task, store,
}
use gaia_email_libs_and_more.Gmail.Moves.{
  with_stash, splice_out, doom_if_empty, save_if_one, existing_yay_message_is_now_meh,
  existing_meh_message_is_now_yay, yay_message_deleted, finalize_one, finalize_pending_removals,
}
use gaia_email_libs_and_more.Gmail.Derive.{
  holds_yay, holds_meh, is_known, assigns, has_some, derive_stashes-holds,
}
use gaia_email_libs_and_more.Gmail.Removal.{
  Event, yay_is_now_meh, meh_is_now_yay, yay_deleted, tell, is_doomed,
}
use gaia_email_libs_and_more.Gmail.Rounds.{tell_all, finalize_pending_removals-keeps}

-- Conversation 7 has the yay UID 1, and conversation 8 has the yay UID 2 and the meh UID 3.
abbrev yay : List (ℕ × ℕ)
yay = (1, 7) ∷ (2, 8) ∷ []

abbrev meh : List (ℕ × ℕ)
meh = (3, 8) ∷ []

abbrev dates : List (ℕ × ℕ)
dates = (40, 1000) ∷ []

abbrev state : Sync
state = load yay meh dates false

abbrev seven : Stash
seven = record { yay_uids = 1 ∷ []; meh_uids = []; most_recent = 0; task = none }

program : Unit {0}
unfolding load derive_stashes derive_yay derive_meh for_each get put erase has add delete
    remove_first splice_out with_stash ensure_task update_task_with_modified_uid
    update_task_with_removed_uid note_modified_uid note_removed_uid set_remove_conv at_task store
    doom_if_empty save_if_one existing_yay_message_is_now_meh existing_meh_message_is_now_yay
    yay_message_deleted tell tell_all finalize_one finalize_pending_removals
program = tt

derived_run : derive_stashes yay meh ≡ (7, seven) ∷ (8, record seven { yay_uids = 2 ∷ 3 ∷ [] }) ∷ []
unfolding program
derived_run = refl

-- Conversation 7 runs out of yay messages and is saved.
abbrev saved : List Event
saved = yay_is_now_meh 1 7 0 ∷ meh_is_now_yay 1 7 0 ∷ []

-- The last message of conversation 7 goes.
abbrev gone : List Event
gone = yay_deleted 1 ∷ []

abbrev after : List Event → Sync
after events = elim (tell_all events state) [ none ↦ state | some s ↦ s ]

gone_run : (after gone).pending_for_removal ≡ 7 ∷ []
unfolding program
gone_run = refl

derive_stashes-holds_example :
    (holds_yay 8 3 (derive_stashes yay meh)
      ≡ (assigns 8 3 yay || (assigns 8 3 meh && has_some 8 yay)))
    × (holds_meh 8 3 (derive_stashes yay meh) ≡ false)
    × (is_known 8 (derive_stashes yay meh) ≡ has_some 8 yay)
derive_stashes-holds_example = derive_stashes-holds 8 3 yay meh

finalize_pending_removals-keeps_example :
    get 7 (finalize_pending_removals (after saved)).stashes
    ≡ (if is_doomed 7 (after saved).stashes then none else get 7 (after saved).stashes)
unfolding program
finalize_pending_removals-keeps_example =
    finalize_pending_removals-keeps yay meh dates false saved (after saved) refl 7
