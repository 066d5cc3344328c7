-- ===== src/Toc.antt =====
-- src/backend/db/conv_toc.js: the ordered list of the messages of a conversation. The same code
-- stands in dynamic_full_toc.js, whose own parts are in `Toc.Dynamic`.
pub mod Keys
pub mod Changes
pub mod Window
pub mod Dynamic
mod Tests
use Prim.Native.Nat.{Ordering}
use gaia_email_libs_and_more.Common.{
  ℕ, zero, suc, ◌+◌, ◌-◌, Bool, true, false, not, ◌&&◌, Option, none, some, List, [], ◌∷◌, ◌++◌,
  map, length, get_elem?, ltb, leb, ◌==◌, if◌then◌else◌, insert_at, remove_at, has, add, put,
  for_each, ℤ, pos, negsuc, pos_part, take, drop, min,
}
use gaia_email_libs_and_more.Bsearch.{bsearch_for_insert, bsearch_maybe_exists}
use gaia_email_libs_and_more.Comparators.{Dated, conversation_message_comparator}

-- An entry of `idsWithDates`. `match_info` is opaque, and `none` is undefined.
pub record Key : Type 0 where
  pub date : ℕ
  pub id : ℕ
  pub match_info : Option ℕ

abbrev pub dated : Key → Dated
dated k = record { date = k.date; id = k.id }

-- `conversationMessageComparator` on entries.
unfoldable pub compare_keys : Key → Key → Ordering
compare_keys a b = conversation_message_comparator (dated a) (dated b)

-- The argument of `onTOCChange`. A date may be null; `has_item` is whether `item` is not null.
pub record Change : Type 0 where
  pub id : ℕ
  pub pre_date : Option ℕ
  pub post_date : Option ℕ
  pub has_item : Bool
  pub freshly_added : Bool
  pub match_info : Option ℕ

-- `emit('change', id, metadataOnly)`.
pub record Emitted : Type 0 where
  pub id : Option ℕ
  pub metadata_only : Bool

-- A null date counts as 0 in the comparator's subtraction.
abbrev pub date_or_zero : Option ℕ → ℕ
date_or_zero none = 0
date_or_zero (some d) = d

abbrev pub same_date : Option ℕ → Option ℕ → Bool
same_date none none = true
same_date none (some b) = false
same_date (some a) none = false
same_date (some a) (some b) = a == b

abbrev pub old_key : Change → Key
old_key c = record { date = date_or_zero c.pre_date; id = c.id; match_info = none }

abbrev pub new_key : Change → Key
new_key c = record { date = date_or_zero c.post_date; id = c.id; match_info = c.match_info }

-- `idsWithDates.splice(bsearchForInsert(...), 0, newKey)`. `none` is an exception.
unfoldable pub insert_key : Key → List Key → Option (List Key)
insert_key key l = elim (bsearch_for_insert compare_keys l key) [
  | none ↦ none
  | some i ↦ some (insert_at i key l)
]

-- `idsWithDates.splice(bsearchMaybeExists(...), 1)`. The result of the search is not tested: as the
-- argument of `splice`, null is 0.
unfoldable pub delete_key : Key → List Key → Option (List Key)
delete_key key l = elim (bsearch_maybe_exists compare_keys l key) [
  | none ↦ none
  | some none ↦ some (remove_at 0 l)
  | some (some i) ↦ some (remove_at i l)
]

abbrev move_key : Key → Key → List Key → Option (List Key)
move_key old new l = elim (delete_key old l) [ none ↦ none | some l' ↦ insert_key new l' ]

-- `onTOCChange`: the new list and the event.
unfoldable pub on_toc_change : Change → List Key → Option (List Key) × Emitted
on_toc_change c l =
    let metadata_only = c.has_item && not c.freshly_added in
    if c.freshly_added
    then (insert_key (new_key c) l, record { id = some c.id; metadata_only = metadata_only })
    else if not c.has_item
    then (delete_key (old_key c) l, record { id = some c.id; metadata_only = metadata_only })
    else if not (same_date c.pre_date c.post_date)
    then (move_key (old_key c) (new_key c) l, record { id = some c.id; metadata_only = false })
    else (some l, record { id = some c.id; metadata_only = metadata_only })

-- `onConvChange`, whose argument is the conversation or null.
unfoldable pub on_conv_change : Option ℕ → List Key → List Key × Option Emitted
on_conv_change none l = ([], some (record { id = none; metadata_only = false }))
on_conv_change (some conv_info) l = (l, none)

-- `list.slice(begin, end)` for the loops over indices.
abbrev pub slice : ℕ → ℕ → List Key → List Key
slice begin end l = take (end - begin) (drop begin l)

-- `sliceIds`.
unfoldable pub slice_ids : ℕ → ℕ → List Key → List ℕ
slice_ids begin end l = map (λ k. k.id) (slice begin end l)

-- `getOrderingKeyForIndex`, over `getTopOrderingKey`.
unfoldable pub get_ordering_key_for_index : Key → ℤ → List Key → Option Key
get_ordering_key_for_index top index [] = some top
get_ordering_key_for_index top (negsuc n) (k ∷ l) = get_elem? (k ∷ l) 0
get_ordering_key_for_index top (pos i) (k ∷ l) =
    if leb (length (k ∷ l)) i then get_elem? (k ∷ l) (length (k ∷ l) - 1) else get_elem? (k ∷ l) i

-- `findIndexForOrderingKey`.
unfoldable pub find_index_for_ordering_key : Key → List Key → Option ℕ
find_index_for_ordering_key key l = bsearch_for_insert compare_keys l key

-- What is sent for an id: the data and the overlays, or the overlays alone.
pub data Entry : Type 0 where
  overlays_only : ℕ → Entry
  whole : (item overlays : ℕ) (match_info : Option ℕ) → Entry

-- The variables of the loop of `getDataForSliceRange`.
pub record Slice : Type 0 where
  pub ids : List ℕ
  pub send_state : List (ℕ × Entry)
  pub need_data : List (ℕ × ℕ)
  pub new_known_set : List ℕ

abbrev pub no_slice : Slice
no_slice = record { ids = []; send_state = []; need_data = []; new_known_set = [] }

-- `resolve` is the overlay resolver, and `cached` looks an id up in the message cache.
module _ (resolve : ℕ → ℕ) (cached : ℕ → Option ℕ) (known_data known_overlays : List ℕ) where
  unfoldable pub slice_step : Slice → Key → Slice
  slice_step s k =
      let ids = s.ids ++ k.id ∷ [] in
      if has k.id known_data
      then (if has k.id known_overlays
          then record s { ids = ids; new_known_set = add k.id s.new_known_set }
          else record s {
            ids = ids;
            send_state = put k.id (overlays_only (resolve k.id)) s.send_state;
          })
      else elim (cached k.id) [
        | some item ↦ record s {
          ids = ids;
          new_known_set = add k.id s.new_known_set;
          send_state = put k.id (whole item (resolve k.id) k.match_info) s.send_state;
        }
        | none ↦ record s { ids = ids; need_data = s.need_data ++ (k.id, k.date) ∷ [] }
      ]

  -- `getDataForSliceRange`; a read is issued exactly if `need_data` is not empty.
  unfoldable pub get_data_for_slice_range : ℤ → ℤ → List Key → Slice
  get_data_for_slice_range begin end l =
      for_each slice_step no_slice (slice (pos_part begin) (min (pos_part end) (length l)) l)
