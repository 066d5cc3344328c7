-- ===== src/FolderToc/Heights.antt =====
-- src/backend/db/folder_convs_toc.js: offsets and requests in heights.
use gaia_email_libs_and_more.Common.{
  ℕ, zero, suc, ◌+◌, ◌-◌, Bool, true, false, not, ◌&&◌, Option, none, some, List, [], ◌∷◌, length,
  get_elem?, ltb, leb, ◌==◌, if◌then◌else◌, ℤ, pos, negsuc, ◌+ℤ◌, neg, pos_part, neg_part,
}
use gaia_email_libs_and_more.Bsearch.{bsearch_for_insert}
use gaia_email_libs_and_more.FolderToc.{Sized, compare_sized}

-- `getInfoForOffset` gives the key, where it starts and where it ends.
pub record OffsetInfo : Type 0 where
  pub ordering_key : Sized
  pub offset : ℕ
  pub cumulative_height : ℕ

-- The loop; `last` is `meta`.
unfoldable pub info_from : ℕ → ℕ → Sized → List Sized → OffsetInfo
info_from desired offset last [] = record {
  ordering_key = last;
  offset = offset;
  cumulative_height = offset + last.height;
}
info_from desired offset last (k ∷ l) =
    if ltb desired (offset + k.height)
    then record { ordering_key = k; offset = offset; cumulative_height = offset + k.height }
    else info_from desired (offset + k.height) k l

-- `top_key` is what `getTopOrderingKey` gives, which is `meta` only in an empty list.
abbrev pub get_info_for_offset : Sized → ℕ → List Sized → OffsetInfo
get_info_for_offset top_key desired l = info_from desired 0 top_key l

unfoldable pub get_height_offset_for_index : ℕ → List Sized → ℕ
get_height_offset_for_index zero l = 0
get_height_offset_for_index (suc i) [] = 0
get_height_offset_for_index (suc i) (k ∷ l) = k.height + get_height_offset_for_index i l

abbrev pub is_positive : ℤ → Bool
is_positive (pos zero) = false
is_positive (pos (suc n)) = true
is_positive (negsuc n) = false

unfoldable pub height_at : ℕ → List Sized → ℕ
height_at i l = elim (get_elem? l i) [ none ↦ 0 | some k ↦ k.height ]

-- `_walkToCoverHeight` with -1: `index < tooHigh` is tested at the start, and holds from then on.
unfoldable pub walk_back : ℕ → ℤ → List Sized → ℕ × ℤ
walk_back zero to_consume l = (zero, to_consume)
walk_back (suc i) to_consume l =
    let rest = walk_back i (to_consume +ℤ neg (pos (height_at i l))) l in
    if is_positive to_consume then rest else (suc i, to_consume)

-- With 1, over how many indices are left up to `tooHigh`.
unfoldable pub walk_on : ℕ → ℕ → ℤ → List Sized → ℕ × ℤ
walk_on zero i to_consume l = (i, to_consume)
walk_on (suc left) i to_consume l =
    let rest = walk_on left (suc i) (to_consume +ℤ neg (pos (height_at (suc i) l))) l in
    if is_positive to_consume then rest else (i, to_consume)

abbrev pub absolute : ℕ × ℤ → ℕ × ℕ
absolute (i, h) = (i, pos_part h + neg_part h)

abbrev pub too_high : List Sized → ℕ
too_high l = length l - 1

-- The index and `overconsumed`.
unfoldable pub walk_above : ℕ → ℤ → List Sized → ℕ × ℕ
walk_above i to_consume l =
    absolute (if ltb i (too_high l) then walk_back i to_consume l else (i, to_consume))

unfoldable pub walk_below : ℕ → ℤ → List Sized → ℕ × ℕ
walk_below i to_consume l = absolute (walk_on (too_high l - i) i to_consume l)

-- The request and the result of `findIndicesFromCoordinateSoup`.
pub record Soup : Type 0 where
  pub ordering_key : Sized
  pub buffer_above : ℤ
  pub visible_above : ℤ
  pub visible_below : ℤ
  pub buffer_below : ℤ

pub record Found : Type 0 where
  pub begin_buffered_inclusive : ℕ
  pub begin_visible_inclusive : ℕ
  pub end_visible_exclusive : ℕ
  pub end_buffered_exclusive : ℕ
  pub height_offset : ℕ

abbrev pub focus_within : ℕ → List Sized → ℕ
focus_within i l = if leb (length l) i && not (length l == 0) then i - 1 else i

unfoldable pub find_indices_at : ℕ → Soup → List Sized → Found
find_indices_at focus_index req l =
    let above = walk_above focus_index req.visible_above l in
    let above' = walk_above above.0 (req.buffer_above +ℤ neg (pos above.1)) l in
    let below = walk_below focus_index req.visible_below l in
    let below' = walk_below below.0 (req.buffer_below +ℤ neg (pos below.1)) l in
    record {
      begin_buffered_inclusive = above'.0;
      begin_visible_inclusive = above.0;
      end_visible_exclusive = below.0 + 1;
      end_buffered_exclusive = below'.0 + 1;
      height_offset = get_height_offset_for_index above'.0 l;
    }

-- `none` is a search that does not end.
unfoldable pub find_indices_from_coordinate_soup : Soup → List Sized → Option Found
find_indices_from_coordinate_soup req l =
    elim (bsearch_for_insert compare_sized l req.ordering_key) [
      | none ↦ none
      | some i ↦ some (find_indices_at (focus_within i l) req l)
    ]
