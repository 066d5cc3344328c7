-- ===== src/FolderToc.antt =====
-- src/backend/db/folder_convs_toc.js: the ordered list of the conversations of a folder, which knows
-- their heights. `sliceIds`, `getOrderingKeyForIndex` and `getDataForSliceRange` are as in `Toc`.
pub mod Totals
pub mod Offsets
pub mod Walks
pub mod Heights
mod Tests
use Prim.Native.Nat.{Ordering}
use gaia_email_libs_and_more.Common.{
  ℕ, zero, suc, ◌+◌, ◌-◌, Bool, true, false, not, ◌&&◌, Option, none, some, List, [], ◌∷◌, length,
  get_elem?, ltb, leb, ◌==◌, if◌then◌else◌, insert_at, remove_at, ℤ, pos, negsuc, ◌+ℤ◌, neg,
  pos_part, neg_part, ◌>>=◌,
}
use gaia_email_libs_and_more.Bsearch.{bsearch_for_insert, bsearch_maybe_exists}
use gaia_email_libs_and_more.Comparators.{Dated, folder_conversation_comparator}

-- An entry of `idsWithDates`.
pub record Sized : Type 0 where
  pub date : ℕ
  pub id : ℕ
  pub height : ℕ

abbrev pub dated_of : Sized → Dated
dated_of k = record { date = k.date; id = k.id }

unfoldable pub compare_sized : Sized → Sized → Ordering
compare_sized a b = folder_conversation_comparator (dated_of a) (dated_of b)

-- `idsWithDates` and `totalHeight`.
pub record FolderToc : Type 0 where
  pub ids_with_dates : List Sized
  pub total_height : ℤ

-- The argument of `onTOCChange`. A date may be null.
pub record Changing : Type 0 where
  pub id : ℕ
  pub remove_date : Option ℕ
  pub add_date : Option ℕ
  pub height : ℕ
  pub old_height : ℕ

-- An index: -1, null or a number.
pub data Index : Type 0 where
  unset null : Index
  at : ℕ → Index

-- `===` on indices.
abbrev pub same_index : Index → Index → Bool
same_index unset unset = true
same_index null null = true
same_index (at i) (at j) = i == j
same_index _ _ = false

pub record Moves : Type 0 where
  pub old_index : Index
  pub new_index : Index

-- A date that is null or 0 is none.
abbrev pub set_date : Option ℕ → Option ℕ
set_date none = none
set_date (some zero) = none
set_date (some (suc d)) = some (suc d)

abbrev pub same_option : Option ℕ → Option ℕ → Bool
same_option none none = true
same_option none (some b) = false
same_option (some a) none = false
same_option (some a) (some b) = a == b

abbrev pub key_at : ℕ → ℕ → ℕ → Sized
key_at date id height = record { date = date; id = id; height = height }

-- `none` is a search that does not end. What the search gives for an entry that is not there is null,
-- which is not -1: `splice(null, 1)` removes the first entry, and nothing is raised.
unfoldable pub take_out : ℕ → Changing → FolderToc → Option (FolderToc × Index)
take_out date c s =
    elim (bsearch_maybe_exists compare_sized s.ids_with_dates (key_at date c.id 0)) [
      | none ↦ none
      | some none ↦ some (
        record {
          ids_with_dates = remove_at 0 s.ids_with_dates;
          total_height = s.total_height +ℤ neg (pos c.old_height);
        },
        null,
      )
      | some (some i) ↦ some (
        record {
          ids_with_dates = remove_at i s.ids_with_dates;
          total_height = s.total_height +ℤ neg (pos c.old_height);
        },
        at i,
      )
    ]

unfoldable pub put_in : ℕ → Changing → FolderToc → Option (FolderToc × Index)
put_in date c s =
    elim (bsearch_for_insert compare_sized s.ids_with_dates (key_at date c.id c.height)) [
      | none ↦ none
      | some i ↦ some (
        record {
          ids_with_dates = insert_at i (key_at date c.id c.height) s.ids_with_dates;
          total_height = s.total_height +ℤ pos c.height;
        },
        at i,
      )
    ]

abbrev pub remove_old : Option ℕ → Changing → FolderToc → Option (FolderToc × Index)
remove_old none c s = some (s, unset)
remove_old (some date) c s = take_out date c s

abbrev pub add_new : Option ℕ → Changing → FolderToc → Option (FolderToc × Index)
add_new none c s = some (s, unset)
add_new (some date) c s = put_in date c s

-- `onTOCChange` when the dates differ.
unfoldable pub reorder : Changing → FolderToc → Option (FolderToc × Moves)
reorder c s = do
  (s₁, old_index) ← remove_old (set_date c.remove_date) c s
  (s₂, new_index) ← add_new (set_date c.add_date) c s₁
  some (s₂, record { old_index = old_index; new_index = new_index })

-- `onTOCChange`, with the indices of `_indexChange` and `dataOnly` of `change`.
unfoldable pub on_folder_change : Changing → FolderToc → Option (FolderToc × Option Moves × Bool)
on_folder_change c s =
    if same_option c.remove_date c.add_date
    then some (
      record s { total_height = s.total_height +ℤ (pos c.height +ℤ neg (pos c.old_height)) },
      none,
      true,
    )
    else elim (reorder c s) [
      | none ↦ none
      | some (s', m) ↦ some (s', some m, same_index m.old_index m.new_index)
    ]
