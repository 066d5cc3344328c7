-- ===== src/Triggers.antt =====
-- src/backend/db_triggers/unread_count.js and message_count.js: the tallies of each folder, kept by
-- atomic deltas.
pub mod Tally
mod Tests
use gaia_email_libs_and_more.Common.{
  ℕ, Bool, true, false, not, ◌&&◌, ◌||◌, Option, none, some, List, [], ◌∷◌, if◌then◌else◌, put,
  for_each, ℤ, pos, negsuc,
}

-- What the triggers read of a conversation or a message.
pub record Info : Type 0 where
  pub folder_ids : List ℕ
  pub has_unread : Bool

-- `folderDeltas`: the map from folder ids to deltas of the one counter that the trigger keeps.
abbrev pub Deltas : Type 0
Deltas = List (ℕ × ℤ)

-- `applyDelta(folderIds, delta)`, and the loops of the other handlers.
unfoldable pub apply_delta : ℤ → List ℕ → Deltas → Deltas
apply_delta delta folder_ids deltas =
    for_each (λ (d : Deltas) (folder_id : ℕ). put folder_id delta d) deltas folder_ids

-- `conv!*!add` of `unread_count`; `none` is no call of `triggerCtx.modify`.
unfoldable pub conv_add : Info → Option Deltas
conv_add conv_info =
    if not conv_info.has_unread then none else some (apply_delta (pos 1) conv_info.folder_ids [])

abbrev pub is_unread : Option Info → Bool
is_unread none = false
is_unread (some conv_info) = conv_info.has_unread

abbrev pub folders_of : Option Info → List ℕ
folders_of none = []
folders_of (some conv_info) = conv_info.folder_ids

-- The deltas of `conv!*!change` of `unread_count`, behind its early return. `conv_info` is null for a
-- deletion.
unfoldable pub change_deltas : Info → Option Info → List ℕ → List ℕ → Deltas
change_deltas pre_info conv_info added removed =
    if is_unread conv_info
    then (if not pre_info.has_unread
        then apply_delta (pos 1) (folders_of conv_info) []
        else apply_delta (negsuc 0) removed (apply_delta (pos 1) added []))
    else apply_delta (negsuc 0) pre_info.folder_ids []

-- `if (folderDeltas.size) { triggerCtx.modify(...); }`
abbrev pub unless_empty : Deltas → Option Deltas
unless_empty [] = none
unless_empty (d ∷ rest) = some (d ∷ rest)

-- `conv!*!change` of `unread_count`.
unfoldable pub conv_change : Info → Option Info → List ℕ → List ℕ → Option Deltas
conv_change pre_info conv_info added removed =
    if not (is_unread conv_info) && not pre_info.has_unread
    then none
    else unless_empty (change_deltas pre_info conv_info added removed)

-- `msg!*!add` of `message_count`.
unfoldable pub msg_add : Info → Deltas
msg_add message = apply_delta (pos 1) message.folder_ids []

abbrev pub is_empty : List ℕ → Bool
is_empty [] = true
is_empty (x ∷ xs) = false

-- `msg!*!change` of `message_count`.
unfoldable pub msg_change : List ℕ → List ℕ → Option Deltas
msg_change added removed =
    if is_empty added && is_empty removed
    then none
    else some (apply_delta (negsuc 0) removed (apply_delta (pos 1) added []))
