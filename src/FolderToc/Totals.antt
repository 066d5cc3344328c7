-- ===== src/FolderToc/Totals.antt =====
-- `totalHeight` is the sum of the heights, and the list stays sorted.
use Prim.Native.Nat.{Ordering}
use gaia_email_libs_and_more.Common.{
  false, ℕ, zero, suc, ◌+◌, ◌≡◌, ◌≢◌, ◌∙◌, refl, sym, ap, Bool, true, Option, none, some, List, [],
  ◌∷◌, length, get_elem?, insert_at, remove_at, get_elem?-lt-length, pos, ◌+ℤ◌, neg, pos_part,
  neg_part, add-Balance, parts-same, neg_parts, arith, Bool-cases, inl, inr,
}
use gaia_email_libs_and_more.Bsearch.{bsearch_maybe_exists}
use gaia_email_libs_and_more.Bsearch.Order.{IsSorted, remove_at-IsSorted}
use gaia_email_libs_and_more.Bsearch.Insert.{bsearch_for_insert-IsPlace, insert_at-IsSorted}
use gaia_email_libs_and_more.Bsearch.Exists.{Answers, bsearch_maybe_exists-Answers}
use gaia_email_libs_and_more.Comparators.{
  conversation_message_comparator, folder_conversation_comparator,
}
use gaia_email_libs_and_more.Comparators.Laws.{conversation_message_comparator-eq}
use gaia_email_libs_and_more.FolderToc.{
  Sized, dated_of, compare_sized, FolderToc, Changing, Index, unset, null, at, same_index, Moves,
  set_date, same_option, key_at, take_out, put_in, remove_old, add_new, reorder, on_folder_change,
}
use gaia_email_libs_and_more.FolderToc.Offsets.{height_sum}
use gaia_email_libs_and_more.FolderToc.Walks.{compare_sized-IsComparator}

height_sum-insert_at :
    (i : ℕ) (k : Sized) (l : List Sized) → height_sum (insert_at i k l) ≡ height_sum l + k.height
unfolding height_sum insert_at
height_sum-insert_at zero k l = omega arith
height_sum-insert_at (suc i) k [] = omega arith
height_sum-insert_at (suc i) k (k' ∷ l) = omega (arith, height_sum-insert_at i k l)

height_sum-remove_at :
    (i : ℕ) (k : Sized) (l : List Sized)
    → get_elem? l i ≡ some k
    → height_sum (remove_at i l) + k.height ≡ height_sum l
unfolding height_sum remove_at
height_sum-remove_at i k [] e = cc
height_sum-remove_at zero k (k' ∷ l) e = let here : k' ≡ k = cc in rw here (omega arith)
height_sum-remove_at (suc i) k (k' ∷ l) e = omega (arith, height_sum-remove_at i k l e)

compare_sized-eq : (a b : Sized) → compare_sized a b ≡ Ordering.eq → dated_of a ≡ dated_of b
unfolding compare_sized folder_conversation_comparator conversation_message_comparator
compare_sized-eq a b e = conversation_message_comparator-eq (dated_of a) (dated_of b) e

compare_sized-same : (a b : Sized) → dated_of b ≡ dated_of a → compare_sized a b ≡ Ordering.eq
unfolding compare_sized folder_conversation_comparator
compare_sized-same a b e = ground arith

-- The list is sorted and the total is that of its heights.
pub record IsTotal (s : FolderToc) : Type 0 where
  pub sorted : IsSorted compare_sized s.ids_with_dates
  pub total : s.total_height ≡ pos (height_sum s.ids_with_dates)

-- The entry with a date and id is in the list, and has a height.
abbrev pub IsListed : ℕ → ℕ → ℕ → List Sized → Type 0
IsListed date id height l =
    ((i : ℕ) × (k : Sized) × (get_elem? l i ≡ some k)
      × (dated_of k ≡ record { date = date; id = id }))
    × ((i : ℕ) (k : Sized)
        → get_elem? l i ≡ some k
        → dated_of k ≡ record { date = date; id = id }
        → k.height ≡ height)

put_in-IsTotal :
    (date : ℕ) (c : Changing) (s : FolderToc)
    → IsTotal s
    → (t : FolderToc) × (i : Index) × (put_in date c s ≡ some (t, i)) × IsTotal t
unfolding put_in
put_in-IsTotal date c s k =
    let key = key_at date c.id c.height in
    let (i, found, place) =
      bsearch_for_insert-IsPlace compare_sized compare_sized-IsComparator s.ids_with_dates k.sorted
        key in
    (
      record {
        ids_with_dates = insert_at i key s.ids_with_dates;
        total_height = s.total_height +ℤ pos c.height;
      },
      at i,
      rw (put_in, found) refl,
      record {
        sorted =
            insert_at-IsSorted compare_sized compare_sized-IsComparator s.ids_with_dates k.sorted
              key i place;
        total = parts-same _ _ (
            omega (
              arith,
              ap pos_part k.total,
              ap neg_part k.total,
              add-Balance s.total_height (pos c.height),
              height_sum-insert_at i key s.ids_with_dates,
            ));
      },
    )

module _ (date : ℕ) (c : Changing) (s : FolderToc) (k : IsTotal s) where
  taken :
      (r : Option ℕ)
      → bsearch_maybe_exists compare_sized s.ids_with_dates (key_at date c.id 0) ≡ some r
      → Answers compare_sized s.ids_with_dates (key_at date c.id 0) 0 (length s.ids_with_dates) r
      → IsListed date c.id c.old_height s.ids_with_dates
      → (t : FolderToc) × (i : Index) × (take_out date c s ≡ some (t, i)) × IsTotal t
  unfolding take_out
  taken none found absent ((i, x, here, e), same) = absurd (
      absent i x (omega arith) (get_elem?-lt-length s.ids_with_dates i x here) here
        (compare_sized-same (key_at date c.id 0) x e))
  taken (some i) found (x, _, _, here, tie) (there, same) =
      let tall : x.height ≡ c.old_height =
        same i x here (sym (compare_sized-eq (key_at date c.id 0) x tie)) in
      (
        record {
          ids_with_dates = remove_at i s.ids_with_dates;
          total_height = s.total_height +ℤ neg (pos c.old_height);
        },
        at i,
        rw (take_out, found) refl,
        record {
          sorted = remove_at-IsSorted compare_sized i s.ids_with_dates k.sorted;
          total = parts-same _ _ (
              omega (
                arith,
                ap pos_part k.total,
                ap neg_part k.total,
                add-Balance s.total_height (neg (pos c.old_height)),
                neg_parts (pos c.old_height),
                height_sum-remove_at i x s.ids_with_dates here,
                tall,
              ));
        },
      )

  take_out-IsTotal :
      IsListed date c.id c.old_height s.ids_with_dates
      → (t : FolderToc) × (i : Index) × (take_out date c s ≡ some (t, i)) × IsTotal t
  take_out-IsTotal listed =
      let (r, found, answer) =
        bsearch_maybe_exists-Answers compare_sized s.ids_with_dates (key_at date c.id 0)
          compare_sized-IsComparator k.sorted in
      taken r found answer listed

-- What a change asks of the list: the entry at the old date is there with its old height. `none` is no
-- date.
abbrev pub IsRemovable : Option ℕ → Changing → FolderToc → Type 0
IsRemovable none c s = Unit
IsRemovable (some date) c s = IsListed date c.id c.old_height s.ids_with_dates

remove_old-IsTotal :
    (date : Option ℕ) (c : Changing) (s : FolderToc)
    → IsTotal s
    → IsRemovable date c s
    → (t : FolderToc) × (i : Index) × (remove_old date c s ≡ some (t, i)) × IsTotal t
remove_old-IsTotal none c s k r = (s, unset, refl, k)
remove_old-IsTotal (some date) c s k r = take_out-IsTotal date c s k r

add_new-IsTotal :
    (date : Option ℕ) (c : Changing) (s : FolderToc)
    → IsTotal s
    → (t : FolderToc) × (i : Index) × (add_new date c s ≡ some (t, i)) × IsTotal t
add_new-IsTotal none c s k = (s, unset, refl, k)
add_new-IsTotal (some date) c s k = put_in-IsTotal date c s k

reorder-IsTotal :
    (c : Changing) (s : FolderToc)
    → IsTotal s
    → IsRemovable (set_date c.remove_date) c s
    → (t : FolderToc) × (m : Moves) × (reorder c s ≡ some (t, m)) × IsTotal t
unfolding reorder
reorder-IsTotal c s k r =
    let (s₁, old, removed, k₁) = remove_old-IsTotal (set_date c.remove_date) c s k r in
    let (s₂, new, added, k₂) = add_new-IsTotal (set_date c.add_date) c s₁ k₁ in
    (s₂, record { old_index = old; new_index = new }, rw (reorder, removed, added) refl, k₂)

same_total :
    (c : Changing) (s : FolderToc)
    → c.height ≡ c.old_height
    → s.total_height +ℤ (pos c.height +ℤ neg (pos c.old_height)) ≡ s.total_height
same_total c s e = parts-same _ _ (
    omega (
      arith,
      e,
      add-Balance (pos c.height) (neg (pos c.old_height)),
      neg_parts (pos c.old_height),
      add-Balance s.total_height (pos c.height +ℤ neg (pos c.old_height)),
    ))

-- From a sorted list whose total is the sum of its heights a change succeeds and leaves such a list,
-- when the entry that it removes, if any, is listed with the old height, and when a change that
-- leaves the date leaves the height too.
pub on_folder_change-IsTotal :
    (c : Changing) (s : FolderToc)
    → IsTotal s
    → IsRemovable (set_date c.remove_date) c s
    → (same_option c.remove_date c.add_date ≡ true → c.height ≡ c.old_height)
    → (t : FolderToc) × (m : Option Moves) × (data_only : Bool) × (on_folder_change c s
        ≡ some (t, m, data_only))
      × IsTotal t
unfolding on_folder_change
on_folder_change-IsTotal c s k r level = elim (Bool-cases (same_option c.remove_date c.add_date)) [
  | inl same ↦ (
    record s { total_height = s.total_height +ℤ (pos c.height +ℤ neg (pos c.old_height)) },
    none,
    true,
    rw (on_folder_change, same) refl,
    record { sorted = k.sorted; total = same_total c s (level same) ∙ k.total },
  )
  | inr other ↦
      let (t, m, done, k') = reorder-IsTotal c s k r in
      (t, some m, same_index m.old_index m.new_index, rw (on_folder_change, other, done) refl, k')
]

-- An entry with a date and id is nowhere in the list.
abbrev pub IsUnlisted : ℕ → ℕ → List Sized → Type 0
IsUnlisted date id l =
    (i : ℕ) (k : Sized) → get_elem? l i ≡ some k → dated_of k ≢ record { date = date; id = id }

take_out-unlisted :
    (date : ℕ) (c : Changing) (s : FolderToc)
    → IsSorted compare_sized s.ids_with_dates
    → IsUnlisted date c.id s.ids_with_dates
    → take_out date c s
      ≡ some (
        record {
          ids_with_dates = remove_at 0 s.ids_with_dates;
          total_height = s.total_height +ℤ neg (pos c.old_height);
        },
        null,
      )
unfolding take_out
take_out-unlisted date c s sorted absent =
    let (r, found, answer) =
      bsearch_maybe_exists-Answers compare_sized s.ids_with_dates (key_at date c.id 0)
        compare_sized-IsComparator sorted in
    go r found answer
  where
    go :
        (r : Option ℕ)
        → bsearch_maybe_exists compare_sized s.ids_with_dates (key_at date c.id 0) ≡ some r
        → Answers compare_sized s.ids_with_dates (key_at date c.id 0) 0 (length s.ids_with_dates) r
        → take_out date c s
          ≡ some (
            record {
              ids_with_dates = remove_at 0 s.ids_with_dates;
              total_height = s.total_height +ℤ neg (pos c.old_height);
            },
            null,
          )
    go none found answer = rw (take_out, found) refl
    go (some i) found (x, _, _, here, tie) =
        absurd (absent i x here (sym (compare_sized-eq (key_at date c.id 0) x tie)))

-- A change that moves a conversation which is not in a sorted list at its old date takes the first
-- entry away in its stead, inserts the new one, and does not count as a change of the data alone; the
-- list stays sorted.
pub on_folder_change-unlisted :
    (c : Changing) (s : FolderToc) (old new : ℕ)
    → set_date c.remove_date ≡ some old
    → set_date c.add_date ≡ some new
    → same_option c.remove_date c.add_date ≡ false
    → IsSorted compare_sized s.ids_with_dates
    → IsUnlisted old c.id s.ids_with_dates
    → (t : FolderToc) × (i : ℕ) × (on_folder_change c s
        ≡ some (t, some (record { old_index = null; new_index = at i }), false))
      × (t.ids_with_dates ≡ insert_at i (key_at new c.id c.height) (remove_at 0 s.ids_with_dates))
      × IsSorted compare_sized t.ids_with_dates
unfolding on_folder_change reorder put_in
on_folder_change-unlisted c s old new from to differ sorted absent =
    let l = remove_at 0 s.ids_with_dates in
    let key = key_at new c.id c.height in
    let sorted' = remove_at-IsSorted compare_sized 0 s.ids_with_dates sorted in
    let (i, found, place) =
      bsearch_for_insert-IsPlace compare_sized compare_sized-IsComparator l sorted' key in
    (
      record {
        ids_with_dates = insert_at i key l;
        total_height = s.total_height +ℤ neg (pos c.old_height) +ℤ pos c.height;
      },
      i,
      rw
          (
            on_folder_change,
            differ,
            reorder,
            from,
            take_out-unlisted old c s sorted absent,
            to,
            put_in,
            found,
          )
          refl,
      refl,
      insert_at-IsSorted compare_sized compare_sized-IsComparator l sorted' key i place,
    )
