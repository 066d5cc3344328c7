-- ===== src/Lines/Tests.antt =====
-- Runs of src/backend/streamy/line_transform_stream.js on small chunks, and the theorems at concrete inputs.
use gaia_email_libs_and_more.Common.{ℕ, ◌≡◌, refl, some, List, [], ◌∷◌, for_each}
use gaia_email_libs_and_more.Lines.{scan, write, fresh, write_all}
use gaia_email_libs_and_more.Lines.Chunks.{concat, write_all-regroup}

-- "ab CR", "LF c", with the line break cut in two.
abbrev halves : List (List ℕ)
halves = (97 ∷ 98 ∷ 13 ∷ []) ∷ (10 ∷ 99 ∷ []) ∷ []

abbrev whole : List (List ℕ)
whole = (97 ∷ 98 ∷ 13 ∷ 10 ∷ 99 ∷ []) ∷ []

halves_run :
    write_all fresh halves
    ≡ record { partial_line_buffer = some (99 ∷ []); enqueued = (97 ∷ 98 ∷ 13 ∷ 10 ∷ []) ∷ [] }
unfolding write_all for_each write scan
halves_run = refl

write_all-regroup_example : write_all fresh halves ≡ write_all fresh whole
unfolding concat
write_all-regroup_example = write_all-regroup halves whole refl
