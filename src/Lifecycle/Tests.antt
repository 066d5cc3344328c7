-- ===== src/Lifecycle/Tests.antt =====
-- Runs of src/backend/db/toc_meta/sync_lifecycle.js, and the theorems at concrete inputs.
use gaia_email_libs_and_more.Common.{
  pos, ℕ, zero, suc, ◌≡◌, refl, Bool, true, false, Option, none, some, [], ◌∷◌, get_elem?, ltb,
  arith,
}
use gaia_email_libs_and_more.Lifecycle.{
  Overlays, Stamps, meta, sync_complete, Lifecycle, create, on_index_change, on_overlay_change,
  activate,
}
use gaia_email_libs_and_more.Lifecycle.Newish.{IsMarked, moved, on_index_change-IsMarked}

abbrev syncing : Option Overlays
syncing =
    some (record {
      sync_refresh = some (record { status = some 1; blocked = none });
      sync_grow = none;
    })

abbrev stamps : Stamps
stamps = record { successful = 40; attempted = 50 }

abbrev busy : Lifecycle
busy = record {
  folder_id = 5;
  newish_index_exclusive = pos 2;
  first_time = false;
  sync_active = true;
  told = [];
}

whole_sync :
    (on_overlay_change 5 none stamps (activate syncing stamps (create 5))).told
    ≡ meta (some 1) none (some stamps) ∷ meta none none (some stamps) ∷ sync_complete (pos 0) ∷ []
unfolding activate create on_overlay_change
whole_sync = refl

two_newish : IsMarked 2 (true ∷ true ∷ false ∷ [])
two_newish = (omega arith, marks_lem)
  where
    marks_lem : (j : ℕ) (b : Bool) → get_elem? (true ∷ true ∷ false ∷ []) j ≡ some b → b ≡ ltb j 2
    marks_lem zero b e = ground arith
    marks_lem (suc zero) b e = ground arith
    marks_lem (suc (suc zero)) b e = ground arith
    marks_lem (suc (suc (suc j))) b e = ground arith

on_index_change-IsMarked_example :
    (n : ℕ) × (on_index_change (pos 2) (pos 0) (pos 2) ≡ pos n)
    × IsMarked n (moved (some 2) (some 0) (true ∷ true ∷ false ∷ []))
on_index_change-IsMarked_example =
    on_index_change-IsMarked 2 (some 2) (some 0) (true ∷ true ∷ false ∷ []) two_newish
      (omega arith, omega arith, λ h. omega arith)
