-- ===== src/Comparators.antt =====
-- src/backend/db/comparators.js. A comparison returns a negative number, zero or a positive number:
-- its sign is an `Ordering`. Ids are compared as strings; a number stands for the place of an id in
-- that order, and a date is its timestamp.
pub mod Laws
use Prim.Native.Nat.{compare, Ordering}
use gaia_email_libs_and_more.Common.{ℕ}

-- What the comparators read: `{ date, id }`.
pub record Dated : Type 0 where
  pub date : ℕ
  pub id : ℕ

-- `bId > aId` gives 1, `aId > bId` gives -1.
unfoldable pub compare_ids : Dated → Dated → Ordering
compare_ids a b = compare b.id a.id

-- `if (dateDelta) { return dateDelta; }`, for `dateDelta = b.date - a.date`.
unfoldable pub newest_first : Dated → Dated → Ordering
unfolding compare_ids
newest_first a b = elim (compare b.date a.date) [
  | Ordering.lt ↦ Ordering.lt
  | Ordering.gt ↦ Ordering.gt
  | Ordering.eq ↦ compare_ids a b
]

-- `folderConversationComparator`.
unfoldable pub folder_conversation_comparator : Dated → Dated → Ordering
unfolding newest_first
folder_conversation_comparator a b = newest_first a b

-- `conversationMessageComparator`.
unfoldable pub conversation_message_comparator : Dated → Dated → Ordering
unfolding newest_first
conversation_message_comparator a b = newest_first a b

-- `oldToNewConversationMessageComparator`, for `dateDelta = a.date - b.date`.
unfoldable pub old_to_new_conversation_message_comparator : Dated → Dated → Ordering
unfolding compare_ids
old_to_new_conversation_message_comparator a b = elim (compare a.date b.date) [
  | Ordering.lt ↦ Ordering.lt
  | Ordering.gt ↦ Ordering.gt
  | Ordering.eq ↦ compare_ids a b
]
