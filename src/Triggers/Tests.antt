-- ===== src/Triggers/Tests.antt =====
-- Runs of src/backend/db_triggers/unread_count.js and message_count.js, and the theorems at concrete inputs.
use gaia_email_libs_and_more.Common.{
  ◌≡◌, refl, true, some, [], ◌∷◌, has, put, for_each, pos, negsuc, ◌+ℤ◌, arith,
}
use gaia_email_libs_and_more.Triggers.{Info, apply_delta, change_deltas, conv_change}
use gaia_email_libs_and_more.Triggers.Tally.{IsDiff, delta_of, unread_in, conv_change-tally}

abbrev before : Info
before = record { folder_ids = 1 ∷ 2 ∷ []; has_unread = true }

abbrev later : Info
later = record { folder_ids = 2 ∷ 3 ∷ []; has_unread = true }

change_runs :
    conv_change before (some later) (3 ∷ []) (1 ∷ []) ≡ some ((3, pos 1) ∷ (1, negsuc 0) ∷ [])
unfolding conv_change change_deltas apply_delta for_each put
change_runs = refl

moved : IsDiff (1 ∷ 2 ∷ []) (2 ∷ 3 ∷ []) (3 ∷ []) (1 ∷ [])
unfolding has
moved = record { added_only = λ f. ground arith; removed_only = λ f. ground arith }

conv_change-tally_example :
    pos (unread_in 1 (some before))
      +ℤ delta_of 1 (conv_change before (some later) (3 ∷ []) (1 ∷ []))
    ≡ pos (unread_in 1 (some later))
conv_change-tally_example = conv_change-tally 1 before (some later) (3 ∷ []) (1 ∷ []) moved
