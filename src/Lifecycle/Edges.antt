-- ===== src/Lifecycle/Edges.antt =====
-- When `syncComplete` is broadcast.
use gaia_email_libs_and_more.Common.{
  pos, ℕ, suc, ◌+◌, ◌≡◌, not, ◌&&◌, Option, none, some, List, [], ◌∷◌, ◌++◌, ◌==◌, if◌then◌else◌,
  arith,
}
use gaia_email_libs_and_more.Lifecycle.{
  Overlays, Stamps, Told, meta, sync_complete, Lifecycle, sync_overlay, is_set, on_overlay_change,
}

-- How often a completed sync was broadcast.
unfoldable pub completions : List Told → ℕ
completions [] = 0
completions (meta status blocked stamps ∷ told) = completions told
completions (sync_complete count ∷ told) = suc (completions told)

completions-append : (xs ys : List Told) → completions (xs ++ ys) ≡ completions xs + completions ys
unfolding completions
completions-append [] ys = omega arith
completions-append (meta status blocked stamps ∷ xs) ys = completions-append xs ys
completions-append (sync_complete count ∷ xs) ys = omega (arith, completions-append xs ys)

module _ (overlays : Option Overlays) (stamps : Stamps) (l : Lifecycle) where
  -- A completed sync is broadcast exactly if the change is about this folder, a sync was active, and
  -- none is now; the count of newish conversations is then reset, and otherwise kept.
  pub on_overlay_change-completes :
      (changed : ℕ)
      → (completions (on_overlay_change changed overlays stamps l).told
          ≡ completions l.told
            + (if changed == l.folder_id
                  && l.sync_active
                  && not (is_set (sync_overlay overlays).status)
                then 1
                else 0))
        × ((on_overlay_change changed overlays stamps l).newish_index_exclusive ≡ (
            if changed == l.folder_id
              && l.sync_active
              && not (is_set (sync_overlay overlays).status)
            then pos 0
            else l.newish_index_exclusive))
  unfolding on_overlay_change completions
  on_overlay_change-completes changed =
      let overlay = sync_overlay overlays in
      ground (
        arith,
        completions-append l.told (meta overlay.status overlay.blocked none ∷ []),
        completions-append l.told (meta overlay.status overlay.blocked (some stamps) ∷ []),
        completions-append l.told (
            meta overlay.status overlay.blocked (some stamps)
            ∷ sync_complete l.newish_index_exclusive
            ∷ []),
      )
