-- ===== src/Vanilla/Moves.antt =====
-- What a UID that has disappeared leads to, and runs of the operations.
use gaia_email_libs_and_more.Common.{
  ℕ, ◌≡◌, refl, sym, true, false, not, ◌&&◌, ◌||◌, ◌==◌, if◌then◌else◌, Option, none, some, List,
  [], ◌∷◌, has, has-add, has-delete, delete, get, get-put, get-erase, map, for_each, arith,
  Option-cases, Bool-cases, inl, inr,
}
use gaia_email_libs_and_more.Vanilla.Umids.{
  IsIssued, forget_uid-IsIssued, yay_message_found_by_date-IsIssued, check_flag_changes-IsIssued,
}
use gaia_email_libs_and_more.Vanilla.{
  Info, Folder, default_state, get_all_uids, forget_uid, infer_deletion_from_existing_uids,
  yay_message_found_by_date, check_flag_changes,
}

-- A run of forgetting.
abbrev forget_all : Folder → List ℕ → Folder
forget_all s uids = for_each forget_uid s uids

forget_all-IsIssued : (uids : List ℕ) (s : Folder) → IsIssued s → IsIssued (forget_all s uids)
unfolding for_each
forget_all-IsIssued [] s h = h
forget_all-IsIssued (uid ∷ uids) s h =
    forget_all-IsIssued uids (forget_uid s uid) (forget_uid-IsIssued uid s h)

get-forget_all :
    (u : ℕ) (uids : List ℕ) (s : Folder)
    → get u (forget_all s uids).uid_info ≡ (if has u uids then none else get u s.uid_info)
unfolding for_each has forget_uid
get-forget_all u [] s = refl
get-forget_all u (uid ∷ uids) s = elim (Option-cases (get uid s.uid_info)) [
  | inl absent ↦ ground (arith, absent, get-forget_all u uids s)
  | inr (info, present) ↦
      ground (arith, present, get-forget_all u uids (forget_uid s uid), get-erase u uid s.uid_info)
]

-- What is deleted stays so.
stays_deleted :
    (m : ℕ) (uids : List ℕ) (s : Folder)
    → has m s.umid_deletions ≡ true
    → get m s.umid_location_writes ≡ some none
    → (has m (forget_all s uids).umid_deletions ≡ true)
      × (get m (forget_all s uids).umid_location_writes ≡ some none)
unfolding for_each forget_uid
stays_deleted m [] s d w = (d, w)
stays_deleted m (uid ∷ uids) s d w = elim (Option-cases (get uid s.uid_info)) [
  | inl absent ↦ ground (arith, absent, stays_deleted m uids s d w)
  | inr (info, present) ↦
      stays_deleted m uids (forget_uid s uid)
        (ground (arith, present, has-add m info.umid s.umid_deletions))
        (ground (arith, present, get-put m info.umid none s.umid_location_writes))
]

forget_all-deletes :
    (u : ℕ) (i : Info) (uids : List ℕ) (s : Folder)
    → IsIssued s
    → get u s.uid_info ≡ some i
    → (has i.umid (forget_all s uids).umid_deletions ≡ (has u uids || has i.umid s.umid_deletions))
      × (get i.umid (forget_all s uids).umid_location_writes
          ≡ (if has u uids then some none else get i.umid s.umid_location_writes))
unfolding for_each has forget_uid
forget_all-deletes u i [] s h e = (refl, refl)
forget_all-deletes u i (uid ∷ uids) s h e = elim (Bool-cases (uid == u)) [
  | inl here ↦
      let same : uid ≡ u = ground arith in
      let present : get uid s.uid_info ≡ some i = rw same e in
      let stays =
        stays_deleted i.umid uids (forget_uid s uid)
          (ground (arith, present, has-add i.umid i.umid s.umid_deletions))
          (ground (arith, present, get-put i.umid i.umid none s.umid_location_writes)) in
      ground (arith, here, stays)
  | inr other ↦ elim (Option-cases (get uid s.uid_info)) [
    | inl absent ↦ ground (arith, other, absent, forget_all-deletes u i uids s h e)
    | inr (info, present) ↦
        let step =
          forget_all-deletes u i uids (forget_uid s uid) (forget_uid-IsIssued uid s h)
            (ground (arith, present, other, get-erase u uid s.uid_info)) in
        ground (
          arith,
          other,
          present,
          step,
          h.apart u uid i info e present,
          has-add i.umid info.umid s.umid_deletions,
          get-put i.umid info.umid none s.umid_location_writes,
        )
  ]
]

has-keys :
    (u : ℕ) (pairs : List (ℕ × Info))
    → has u (map (λ (pair : ℕ × Info). pair.0) pairs)
      ≡ elim (get u pairs) [ none ↦ false | some info ↦ true ]
unfolding has get
has-keys u [] = refl
has-keys u ((v, info) ∷ pairs) = ground (arith, has-keys u pairs)

has-delete_all :
    (u : ℕ) (gone uids : List ℕ)
    → has u (for_each (λ (us : List ℕ) (uid : ℕ). delete uid us) uids gone)
      ≡ (has u uids && not (has u gone))
unfolding has for_each
has-delete_all u [] uids = ground arith
has-delete_all u (g ∷ gone) uids =
    ground (arith, has-delete_all u gone (delete g uids), has-delete u g uids)

-- After a search for all known UIDs, where no two share a umid: exactly the UIDs that were found are
-- still known, as they were. The umid of a known UID is among the deleted exactly if the UID was not
-- found or it was there before, and its location is written as gone exactly if it was not found.
pub infer_deletion_from_existing_uids-deletes :
    (new_uids : List ℕ) (s : Folder) (u : ℕ) (i : Info)
    → IsIssued s
    → get u s.uid_info ≡ some i
    → (get u (infer_deletion_from_existing_uids new_uids s).uid_info
        ≡ (if has u new_uids then some i else none))
      × (has i.umid (infer_deletion_from_existing_uids new_uids s).umid_deletions
          ≡ (not (has u new_uids) || has i.umid s.umid_deletions))
      × (get i.umid (infer_deletion_from_existing_uids new_uids s).umid_location_writes
          ≡ (if has u new_uids then get i.umid s.umid_location_writes else some none))
unfolding infer_deletion_from_existing_uids get_all_uids
infer_deletion_from_existing_uids-deletes new_uids s u i h e =
    let keys = map (λ (pair : ℕ × Info). pair.0) s.uid_info in
    let gone = for_each (λ (us : List ℕ) (uid : ℕ). delete uid us) keys new_uids in
    let deletes = forget_all-deletes u i gone s h e in
    ground (
      arith,
      e,
      deletes,
      get-forget_all u gone s,
      has-keys u s.uid_info,
      has-delete_all u new_uids keys,
    )

-- What a sync does to the folder.
pub data Move : Type 0 where
  found : (uid date_ts flags : ℕ) → Move
  checked : (uid flags : ℕ) → Move
  searched : List ℕ → Move

unfoldable pub move : Move → Folder → Option Folder
move (found uid date_ts flags) s = some (yay_message_found_by_date uid date_ts flags s)
move (checked uid flags) s = check_flag_changes uid flags s
move (searched new_uids) s = some (infer_deletion_from_existing_uids new_uids s)

unfoldable pub move_all : List Move → Folder → Option Folder
move_all [] s = some s
move_all (m ∷ ms) s = elim (move m s) [ none ↦ none | some s' ↦ move_all ms s' ]

move-IsIssued : (m : Move) (s s' : Folder) → move m s ≡ some s' → IsIssued s → IsIssued s'
unfolding move infer_deletion_from_existing_uids
move-IsIssued (found uid date_ts flags) s s' e h =
    let same : yay_message_found_by_date uid date_ts flags s ≡ s' = ground arith in
    rw (sym same) (yay_message_found_by_date-IsIssued uid date_ts flags s h)
move-IsIssued (checked uid flags) s s' e h = check_flag_changes-IsIssued uid flags s s' h e
move-IsIssued (searched new_uids) s s' e h =
    let same : infer_deletion_from_existing_uids new_uids s ≡ s' = ground arith in
    rw (sym same) (forget_all-IsIssued _ s h)

move_all_from-IsIssued :
    (moves : List Move) (s s' : Folder) → move_all moves s ≡ some s' → IsIssued s → IsIssued s'
unfolding move_all
move_all_from-IsIssued [] s s' e h = let same : s ≡ s' = ground arith in rw (sym same) h
move_all_from-IsIssued (m ∷ ms) s s' e h = elim (Option-cases (move m s)) [
  | inl raised ↦ absurd (ground (arith, raised))
  | inr (s₁, moved) ↦
      move_all_from-IsIssued ms s₁ s' (rw (move_all, moved) at e) (move-IsIssued m s s₁ moved h)
]

default_state-IsIssued : IsIssued default_state
unfolding default_state get
default_state-IsIssued = record { issued = λ u i e. cc; apart = λ u v i j e f same. cc }

-- Whatever messages are found, checked and searched for, without an error, in a folder that starts
-- without any: every umid of a known UID was issued, and no two known UIDs have the same.
pub move_all-IsIssued :
    (moves : List Move) (s : Folder) → move_all moves default_state ≡ some s → IsIssued s
move_all-IsIssued moves s e = move_all_from-IsIssued moves default_state s e default_state-IsIssued
