-- ===== src/Lifecycle.antt =====
-- src/backend/db/toc_meta/sync_lifecycle.js: how many of the first conversations of a folder are
-- newish, and when a sync is reported as complete.
pub mod Newish
pub mod Edges
mod Tests
use gaia_email_libs_and_more.Common.{
  ℕ, zero, suc, ◌+◌, ◌-◌, Bool, true, false, not, ◌&&◌, ◌||◌, Option, none, some, List, [], ◌∷◌,
  ◌++◌, ltb, leb, ◌==◌, if◌then◌else◌, ℤ, pos, negsuc, ◌+ℤ◌, lt_ℤ, leb_ℤ, is_minus_one,
}

-- A task's overlay on the folder. A status or a blocker that is not set is `none`.
pub record Overlay : Type 0 where
  pub status : Option ℕ
  pub blocked : Option ℕ

-- What the resolver gives for the folder, if it gives anything.
pub record Overlays : Type 0 where
  pub sync_refresh : Option Overlay
  pub sync_grow : Option Overlay

-- `lastSuccessfulSyncAt` and `lastAttemptedSyncAt`.
pub record Stamps : Type 0 where
  pub successful : ℕ
  pub attempted : ℕ

-- What is told to the table of contents: `applyTOCMetaChanges` with or without the stamps, and
-- `broadcastEvent('syncComplete', { newishCount })`.
pub data Told : Type 0 where
  meta : (status blocked : Option ℕ) → Option Stamps → Told
  sync_complete : ℤ → Told

pub record Lifecycle : Type 0 where
  pub folder_id : ℕ
  pub newish_index_exclusive : ℤ
  pub first_time : Bool
  pub sync_active : Bool
  pub told : List Told

-- `new SyncLifecycle(...)`.
unfoldable pub create : ℕ → Lifecycle
create folder_id = record {
  folder_id = folder_id;
  newish_index_exclusive = pos 0;
  first_time = true;
  sync_active = false;
  told = [];
}

-- `onIndexChange`, on `newishIndexExclusive`. An index of -1 is none.
unfoldable pub on_index_change : ℤ → ℤ → ℤ → ℤ
on_index_change old_index new_index newish =
    if is_minus_one new_index
    then (if lt_ℤ old_index newish then newish +ℤ negsuc 0 else newish)
    else if leb_ℤ new_index newish && (is_minus_one old_index || leb_ℤ newish old_index)
    then newish +ℤ pos 1
    else newish

abbrev no_overlay : Overlay
no_overlay = record { status = none; blocked = none }

-- `overlays.sync_refresh || overlays.sync_grow || {}`.
abbrev pub sync_overlay : Option Overlays → Overlay
sync_overlay none = no_overlay
sync_overlay (some overlays) = elim overlays.sync_refresh [
  | some refresh ↦ refresh
  | none ↦ elim overlays.sync_grow [ some grow ↦ grow | none ↦ no_overlay ]
]

abbrev pub is_set : Option ℕ → Bool
is_set none = false
is_set (some x) = true

-- `onOverlayChange`, with what the resolver and `syncStampSource` give at that moment.
unfoldable pub on_overlay_change : ℕ → Option Overlays → Stamps → Lifecycle → Lifecycle
on_overlay_change changed_folder_id overlays stamps l =
    let overlay = sync_overlay overlays in
    let new_active = is_set overlay.status in
    let finished = l.sync_active && not new_active in
    if not (changed_folder_id == l.folder_id)
    then l
    else if finished || l.first_time
    then record l {
      first_time = false;
      sync_active = new_active;
      newish_index_exclusive = if finished then pos 0 else l.newish_index_exclusive;
      told =
          l.told
          ++ meta overlay.status overlay.blocked (some stamps)
            ∷ (if finished then sync_complete l.newish_index_exclusive ∷ [] else []);
    }
    else record l {
      sync_active = new_active;
      told = l.told ++ meta overlay.status overlay.blocked none ∷ [];
    }

-- `activate`: it resets `newIndex`, which nothing reads, and not `newishIndexExclusive`.
unfoldable pub activate : Option Overlays → Stamps → Lifecycle → Lifecycle
activate overlays stamps l =
    on_overlay_change l.folder_id overlays stamps
      (record l { first_time = true; sync_active = false })
