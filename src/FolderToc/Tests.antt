-- ===== src/FolderToc/Tests.antt =====
-- The theorems at concrete inputs.
use gaia_email_libs_and_more.Common.{
  false, ℕ, zero, suc, ◌≡◌, ◌≢◌, refl, Bool, Option, some, List, [], ◌∷◌, get_elem?, insert_at,
  remove_at, pos, arith,
}
use gaia_email_libs_and_more.Bsearch.Order.{IsSorted}
use gaia_email_libs_and_more.Comparators.{folder_conversation_comparator}
use gaia_email_libs_and_more.FolderToc.{
  null, at, Sized, dated_of, compare_sized, FolderToc, Changing, Moves, on_folder_change,
}
use gaia_email_libs_and_more.FolderToc.Heights.{
  get_info_for_offset, get_height_offset_for_index, Soup, Found, find_indices_from_coordinate_soup,
}
use gaia_email_libs_and_more.FolderToc.Totals.{
  IsTotal, on_folder_change-IsTotal, on_folder_change-unlisted,
}
use gaia_email_libs_and_more.FolderToc.Offsets.{height_sum, IsCover, get_info_for_offset-IsCover}
use gaia_email_libs_and_more.FolderToc.Walks.{IsRange, find_indices_from_coordinate_soup-IsRange}

abbrev entry : ℕ → ℕ → ℕ → Sized
entry date id height = record { date = date; id = id; height = height }

abbrev convs : List Sized
convs = entry 30 3 3 ∷ entry 20 2 4 ∷ []

convs-IsSorted : IsSorted compare_sized convs
unfolding compare_sized folder_conversation_comparator
convs-IsSorted zero zero x y p e f = absurd (omega arith)
convs-IsSorted zero (suc zero) x y p e f = ground arith
convs-IsSorted (suc i) zero x y p e f = absurd (omega arith)
convs-IsSorted (suc i) (suc zero) x y p e f = absurd (omega arith)
convs-IsSorted i (suc (suc j)) x y p e f = cc

abbrev toc : FolderToc
toc = record { ids_with_dates = convs; total_height = pos 7 }

toc-IsTotal : IsTotal toc
unfolding height_sum
toc-IsTotal = record { sorted = convs-IsSorted; total = refl }

-- Conversation 2 gets a new message and grows.
abbrev grown : Changing
grown = record { id = 2; remove_date = some 20; add_date = some 40; height = 6; old_height = 4 }

listed :
    (i : ℕ) (k : Sized)
    → get_elem? convs i ≡ some k
    → dated_of k ≡ record { date = 20; id = 2 }
    → k.height ≡ 4
listed zero k e d = ground (arith, e, d)
listed (suc zero) k e d = ground (arith, e)
listed (suc (suc i)) k e d = cc

on_folder_change-IsTotal_example :
    (t : FolderToc) × (m : Option Moves) × (data_only : Bool) × (on_folder_change grown toc
      ≡ some (t, m, data_only))
    × IsTotal t
on_folder_change-IsTotal_example =
    on_folder_change-IsTotal grown toc toc-IsTotal ((1, entry 20 2 4, refl, refl), listed) (λ e. cc)

-- Conversation 9 is moved, which is not in the list.
abbrev stray : Changing
stray = record { id = 9; remove_date = some 10; add_date = some 25; height = 6; old_height = 4 }

unlisted :
    (i : ℕ) (k : Sized) → get_elem? convs i ≡ some k → dated_of k ≢ record { date = 10; id = 9 }
unlisted zero k e d = ground (arith, e, d)
unlisted (suc zero) k e d = ground (arith, e, d)
unlisted (suc (suc i)) k e d = cc

on_folder_change-unlisted_example :
    (t : FolderToc) × (i : ℕ) × (on_folder_change stray toc
      ≡ some (t, some (record { old_index = null; new_index = at i }), false))
    × (t.ids_with_dates ≡ insert_at i (entry 25 9 6) (remove_at 0 convs))
    × IsSorted compare_sized t.ids_with_dates
on_folder_change-unlisted_example =
    on_folder_change-unlisted stray toc 10 25 refl refl refl convs-IsSorted unlisted

get_info_for_offset-IsCover_example : IsCover convs 0 5 (get_info_for_offset (entry 99 0 0) 5 convs)
get_info_for_offset-IsCover_example =
    get_info_for_offset-IsCover (entry 99 0 0) 5 convs (unfold height_sum in omega arith)

abbrev soup : Soup
soup = record {
  ordering_key = entry 20 2 0;
  buffer_above = pos 3;
  visible_above = pos 2;
  visible_below = pos 4;
  buffer_below = pos 3;
}

find_indices_from_coordinate_soup-IsRange_example :
    (f : Found) × (find_indices_from_coordinate_soup soup convs ≡ some f)
    × IsRange 2 f
    × (f.height_offset ≡ get_height_offset_for_index f.begin_buffered_inclusive convs)
find_indices_from_coordinate_soup-IsRange_example =
    find_indices_from_coordinate_soup-IsRange soup convs convs-IsSorted (omega arith)
