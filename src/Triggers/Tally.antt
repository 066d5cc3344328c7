-- ===== src/Triggers/Tally.antt =====
-- The deltas move each folder's tally from its old value to its new one.
use gaia_email_libs_and_more.Common.{
  ℕ, ◌≡◌, refl, Bool, true, false, not, ◌&&◌, Option, none, some, List, [], ◌∷◌, if◌then◌else◌, has,
  put, get, get-put, for_each, ℤ, pos, negsuc, ◌+ℤ◌, arith,
}
use gaia_email_libs_and_more.Triggers.{
  Info, Deltas, apply_delta, is_unread, folders_of, change_deltas, unless_empty, conv_change,
  msg_change,
}

get-apply_delta :
    (f : ℕ) (delta : ℤ) (folder_ids : List ℕ) (deltas : Deltas)
    → get f (apply_delta delta folder_ids deltas)
      ≡ (if has f folder_ids then some delta else get f deltas)
unfolding apply_delta for_each has
get-apply_delta f delta [] deltas = refl
get-apply_delta f delta (x ∷ xs) deltas =
    ground (arith, get-apply_delta f delta xs (put x delta deltas), get-put f x delta deltas)

-- The delta of a folder: 0 where the trigger names none, or does nothing.
abbrev pub delta_of : ℕ → Option Deltas → ℤ
delta_of f none = pos 0
delta_of f (some deltas) = elim (get f deltas) [ none ↦ pos 0 | some d ↦ d ]

-- 1 if the conversation counts as unread in the folder.
abbrev pub unread_in : ℕ → Option Info → ℕ
unread_in f info = if is_unread info && has f (folders_of info) then 1 else 0

abbrev pub bit : Bool → ℕ
bit true = 1
bit false = 0

-- The folders that MailDB reports as added and as removed are those of the change.
pub record IsDiff (old new added removed : List ℕ) : Type 0 where
  pub added_only : (f : ℕ) → has f added ≡ (has f new && not (has f old))
  pub removed_only : (f : ℕ) → has f removed ≡ (has f old && not (has f new))

delta_of-unless_empty :
    (f : ℕ) (deltas : Deltas) → delta_of f (unless_empty deltas) ≡ delta_of f (some deltas)
unfolding get
delta_of-unless_empty f [] = refl
delta_of-unless_empty f (d ∷ rest) = refl

module _ (f : ℕ) (pre_info : Info) (conv_info : Option Info) (added removed : List ℕ) where
  delta_of-change_deltas : delta_of f (some (change_deltas pre_info conv_info added removed)) ≡ (
      if is_unread conv_info
      then (if not pre_info.has_unread
          then (if has f (folders_of conv_info) then pos 1 else pos 0)
          else if has f removed
          then negsuc 0
          else if has f added
          then pos 1
          else pos 0)
      else if has f pre_info.folder_ids
      then negsuc 0
      else pos 0)
  unfolding change_deltas get
  delta_of-change_deltas = ground (
    arith,
    get-apply_delta f (pos 1) (folders_of conv_info) [],
    get-apply_delta f (pos 1) added [],
    get-apply_delta f (negsuc 0) removed (apply_delta (pos 1) added []),
    get-apply_delta f (negsuc 0) pre_info.folder_ids [],
  )

  -- For every folder: its unread tally of the conversation before the change, moved by the delta,
  -- is the tally after it, deletions included; provided that `added` and `removed` are the folders
  -- that the conversation has gained and lost.
  pub conv_change-tally :
      IsDiff pre_info.folder_ids (folders_of conv_info) added removed
      → pos (unread_in f (some pre_info))
          +ℤ delta_of f (conv_change pre_info conv_info added removed)
        ≡ pos (unread_in f conv_info)
  unfolding conv_change ◌+ℤ◌
  conv_change-tally diff = ground (
    arith,
    delta_of-change_deltas,
    delta_of-unless_empty f (change_deltas pre_info conv_info added removed),
    diff.added_only f,
    diff.removed_only f,
  )

delta_of-msg_change :
    (f : ℕ) (added removed : List ℕ)
    → delta_of f (msg_change added removed)
      ≡ (if has f removed then negsuc 0 else if has f added then pos 1 else pos 0)
unfolding msg_change get has
delta_of-msg_change f [] [] = refl
delta_of-msg_change f added removed = ground (
  arith,
  get-apply_delta f (pos 1) added [],
  get-apply_delta f (negsuc 0) removed (apply_delta (pos 1) added []),
)

-- For every folder: the message's count before the change, moved by the delta, is the count after
-- it; provided that `added` and `removed` are the folders that the message has gained and lost.
pub msg_change-tally :
    (f : ℕ) (old new added removed : List ℕ)
    → IsDiff old new added removed
    → pos (bit (has f old)) +ℤ delta_of f (msg_change added removed) ≡ pos (bit (has f new))
unfolding ◌+ℤ◌
msg_change-tally f old new added removed diff =
    ground (arith, delta_of-msg_change f added removed, diff.added_only f, diff.removed_only f)
