-- ===== src/Delta/Tests.antt =====
-- Runs of src/backend/delta_algebra.js on small sets, and the theorems at concrete inputs.
use gaia_email_libs_and_more.Common.{
  ℕ, ◌≡◌, refl, ◌||◌, none, some, List, [], ◌∷◌, has, add, delete, add_all, IsUnique, for_each,
  arith, remove_first,
}
use gaia_email_libs_and_more.Delta.{
  Changes, Values, normalize_and_apply_changes_to_set, normalize_and_apply_changes,
  apply_changes_to_set, apply_changes, merge_changes, add_to_set, remove_from_set, push_onto,
  add_to_array, remove_from_array, apply_add_to_set, apply_remove_from_set, apply_add_to_array,
  apply_remove_from_array, splice_one, concat_lists, null_if_empty, cancel,
}
use gaia_email_libs_and_more.Delta.Effect.{after, IsExact}
use gaia_email_libs_and_more.Delta.Normalize.{normalize_and_apply_changes_to_set-IsExact}
use gaia_email_libs_and_more.Delta.Apply.{apply_changes-array_adds}
use gaia_email_libs_and_more.Delta.Merge.{after-merge_changes}

program : Unit {0}
unfolding has add delete add_all remove_first for_each push_onto add_to_set remove_from_set
    normalize_and_apply_changes_to_set add_to_array remove_from_array normalize_and_apply_changes
    apply_add_to_set apply_remove_from_set apply_changes_to_set apply_add_to_array
    apply_remove_from_array splice_one apply_changes concat_lists null_if_empty cancel merge_changes
program = tt

abbrev folders : List ℕ
folders = 1 ∷ 2 ∷ []

abbrev moved : Changes
moved = record { add = some (3 ∷ []); remove = some (1 ∷ []) }

abbrev moved_back : Changes
moved_back = record { add = some (1 ∷ 4 ∷ []); remove = some (3 ∷ []) }

normalize_runs :
    normalize_and_apply_changes_to_set folders (some (2 ∷ 3 ∷ [])) (some (1 ∷ 7 ∷ []))
    ≡ (moved, 2 ∷ 3 ∷ [])
unfolding program
normalize_runs = refl

merge_runs : merge_changes moved moved_back ≡ record { add = some (4 ∷ []); remove = none }
unfolding program
merge_runs = refl

flags_run :
    normalize_and_apply_changes (Values.array folders) (some (2 ∷ [])) (some (1 ∷ []))
    ≡ (record { add = some (2 ∷ []); remove = some (1 ∷ []) }, Values.array (2 ∷ 2 ∷ []))
unfolding program
flags_run = refl

normalize_and_apply_changes_to_set-IsExact_example :
    IsExact
      (λ y. has y folders)
      (normalize_and_apply_changes_to_set folders (some (2 ∷ 3 ∷ [])) (some (1 ∷ []))).0
    × ((y : ℕ)
        → has y (normalize_and_apply_changes_to_set folders (some (2 ∷ 3 ∷ [])) (some (1 ∷ []))).1
          ≡ after
              (λ z. has z folders)
              (normalize_and_apply_changes_to_set folders (some (2 ∷ 3 ∷ [])) (some (1 ∷ []))).0
              y)
unfolding has
normalize_and_apply_changes_to_set-IsExact_example =
    normalize_and_apply_changes_to_set-IsExact folders (some (2 ∷ 3 ∷ [])) (some (1 ∷ []))
      (λ y. ground arith)

apply_changes-array_adds_example :
    (value' : List ℕ) × (apply_changes
        (λ _. 0)
        (Values.array folders)
        (record { add = some (2 ∷ 3 ∷ []); remove = none })
      ≡ some (Values.array value'))
    × ((y : ℕ) → has y value' ≡ (has y folders || has y (2 ∷ 3 ∷ [])))
    × (IsUnique folders → IsUnique value')
apply_changes-array_adds_example = apply_changes-array_adds (λ _. 0) folders (some (2 ∷ 3 ∷ []))

moved-IsExact : IsExact (λ y. has y folders) moved
unfolding has
moved-IsExact = record {
  added_absent = λ y. ground arith;
  removed_present = λ y. ground arith;
  unique_add = (refl, tt);
  unique_remove = (refl, tt);
}

moved_back-IsExact : IsExact (after (λ y. has y folders) moved) moved_back
unfolding has
moved_back-IsExact = record {
  added_absent = λ y. ground arith;
  removed_present = λ y. ground arith;
  unique_add = (refl, (refl, tt));
  unique_remove = (refl, tt);
}

after-merge_changes_example :
    after (λ y. has y folders) (merge_changes moved moved_back) 1
    ≡ after (after (λ y. has y folders) moved) moved_back 1
after-merge_changes_example =
    after-merge_changes moved moved_back (λ y. has y folders) moved-IsExact moved_back-IsExact 1
