-- ===== src/FolderToc/Walks.antt =====
-- The indices that a request in heights is turned into.
use gaia_email_libs_and_more.Common.{
  ℕ, zero, suc, ◌+◌, ◌-◌, ◌≤◌, ◌<◌, ◌≡◌, refl, some, List, length, ℤ, pos, ◌+ℤ◌, neg, arith,
}
use gaia_email_libs_and_more.Bsearch.Order.{IsSorted, IsComparator}
use gaia_email_libs_and_more.Bsearch.Insert.{bsearch_for_insert-IsPlace}
use gaia_email_libs_and_more.Comparators.{
  conversation_message_comparator, folder_conversation_comparator,
}
use gaia_email_libs_and_more.Comparators.Laws.{conversation_message_comparator-IsComparator}
use gaia_email_libs_and_more.FolderToc.{Sized, dated_of, compare_sized}
use gaia_email_libs_and_more.FolderToc.Heights.{
  height_at, walk_back, walk_on, too_high, walk_above, walk_below, Soup, Found, focus_within,
  find_indices_at, find_indices_from_coordinate_soup, get_height_offset_for_index,
}

pub compare_sized-IsComparator : IsComparator compare_sized
unfolding compare_sized folder_conversation_comparator conversation_message_comparator
compare_sized-IsComparator = record {
  gt_down = λ a b c. laws.gt_down (dated_of a) (dated_of b) (dated_of c);
  lt_up = λ a b c. laws.lt_up (dated_of a) (dated_of b) (dated_of c);
  eq_down = λ a b c. laws.eq_down (dated_of a) (dated_of b) (dated_of c);
  eq_up = λ a b c. laws.eq_up (dated_of a) (dated_of b) (dated_of c);
  swap = λ a b. laws.swap (dated_of a) (dated_of b);
}
  where
    laws : IsComparator conversation_message_comparator
    laws = conversation_message_comparator-IsComparator

walk_back-low : (i : ℕ) (h : ℤ) (l : List Sized) → (walk_back i h l).0 ≤ i
unfolding walk_back
walk_back-low zero h l = omega arith
walk_back-low (suc i) h l = ground (arith, walk_back-low i (h +ℤ neg (pos (height_at i l))) l)

walk_on-between :
    (left i : ℕ) (h : ℤ) (l : List Sized)
    → (i ≤ (walk_on left i h l).0) × ((walk_on left i h l).0 ≤ left + i)
unfolding walk_on
walk_on-between zero i h l = (omega arith, omega arith)
walk_on-between (suc left) i h l =
    ground (arith, walk_on-between left (suc i) (h +ℤ neg (pos (height_at (suc i) l))) l)

walk_above-low : (i : ℕ) (h : ℤ) (l : List Sized) → (walk_above i h l).0 ≤ i
unfolding walk_above
walk_above-low i h l = ground (arith, walk_back-low i h l)

walk_below-between :
    (i : ℕ) (h : ℤ) (l : List Sized)
    → i < length l
    → (i ≤ (walk_below i h l).0) × ((walk_below i h l).0 < length l)
unfolding walk_below
walk_below-between i h l inside = ground (arith, inside, walk_on-between (too_high l - i) i h l)

-- The indices are in order, show something and are within a list of n items.
abbrev pub IsRange : ℕ → Found → Type 0
IsRange n f =
    (f.begin_buffered_inclusive ≤ f.begin_visible_inclusive)
    × (f.begin_visible_inclusive < f.end_visible_exclusive)
    × (f.end_visible_exclusive ≤ f.end_buffered_exclusive)
    × (f.end_buffered_exclusive ≤ n)

find_indices_at-IsRange :
    (i : ℕ) (req : Soup) (l : List Sized)
    → i < length l
    → IsRange (length l) (find_indices_at i req l)
unfolding find_indices_at
find_indices_at-IsRange i req l inside =
    let above = walk_above i req.visible_above l in
    let below = walk_below i req.visible_below l in
    let (on, short) = walk_below-between i req.visible_below l inside in
    ground (
      arith,
      walk_above-low i req.visible_above l,
      walk_above-low above.0 (req.buffer_above +ℤ neg (pos above.1)) l,
      on,
      walk_below-between below.0 (req.buffer_below +ℤ neg (pos below.1)) l short,
    )

-- In a sorted list that is not empty the indices are found, whatever the heights of the request: they
-- are in order, the visible range is not empty, the ranges end within the list, and the height
-- offset is that of the first index.
pub find_indices_from_coordinate_soup-IsRange :
    (req : Soup) (l : List Sized)
    → IsSorted compare_sized l
    → 0 < length l
    → (f : Found) × (find_indices_from_coordinate_soup req l ≡ some f)
      × IsRange (length l) f
      × (f.height_offset ≡ get_height_offset_for_index f.begin_buffered_inclusive l)
unfolding find_indices_from_coordinate_soup
find_indices_from_coordinate_soup-IsRange req l sorted some_item =
    let (i, found, place) =
      bsearch_for_insert-IsPlace compare_sized compare_sized-IsComparator l sorted
        req.ordering_key in
    let inside : focus_within i l < length l = ground (arith, place.within, some_item) in
    (
      find_indices_at (focus_within i l) req l,
      rw (find_indices_from_coordinate_soup, found) refl,
      find_indices_at-IsRange (focus_within i l) req l inside,
      unfold find_indices_at in refl,
    )
