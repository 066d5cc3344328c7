-- ===== src/Vanilla.antt =====
-- src/backend/accounts/imap/vanilla/folder_sync_state_helper.js: which messages of an IMAP folder are
-- known, their flags, and what has changed.
pub mod Tasks
pub mod Umids
pub mod Moves
pub mod Slots
mod Tests
use gaia_email_libs_and_more.Common.{
  ℕ, zero, suc, ◌+◌, ◌-◌, Bool, true, false, not, ◌&&◌, ◌==◌, leb, if◌then◌else◌, Option, none,
  some, List, [], ◌∷◌, ◌++◌, length, get_elem?, has, add, delete, get, put, erase, map, for_each, ℤ,
  pos, negsuc, ◌+ℤ◌,
}

-- What is known of a UID. A umid is the folder's id with the number that stands here.
pub record Info : Type 0 where
  pub umid : ℕ
  pub flag_slot : ℕ

pub data Task : Type 0 where
  sync_message : (uid umid date_ts flags : ℕ) → Task
  sync_conv :
      (conv_id : ℕ) (modified_umids : Option (List (ℕ × ℕ))) (removed_umids : Option (List ℕ))
      → Task

-- A list of flags, sorted and made a string, is told by a number. `tasks_by_conv_id` holds the place
-- of a task in `tasks_to_schedule`.
pub record Folder : Type 0 where
  pub next_umid_suffix : ℕ
  pub since_date : ℕ
  pub flag_sets : List (Option ℕ)
  pub flag_set_counts : List ℤ
  pub uid_info : List (ℕ × Info)
  pub umid_deletions : List ℕ
  pub umid_flag_changes : List (ℕ × ℕ)
  pub umid_name_reads : List (ℕ × Option ℕ)
  pub umid_location_writes : List (ℕ × Option ℕ)
  pub tasks_by_conv_id : List (ℕ × ℕ)
  pub tasks_to_schedule : List Task

-- The default raw state, and what the constructor adds.
unfoldable pub default_state : Folder
default_state = record {
  next_umid_suffix = 1;
  since_date = 0;
  flag_sets = [];
  flag_set_counts = [];
  uid_info = [];
  umid_deletions = [];
  umid_flag_changes = [];
  umid_name_reads = [];
  umid_location_writes = [];
  tasks_by_conv_id = [];
  tasks_to_schedule = [];
}

unfoldable pub issue_unique_message_id : Folder → ℕ × Folder
issue_unique_message_id s =
    (s.next_umid_suffix, record s { next_umid_suffix = s.next_umid_suffix + 1 })

-- `===` on a slot.
abbrev pub same_slot : Option ℕ → Option ℕ → Bool
same_slot none none = true
same_slot (some x) (some y) = x == y
same_slot none (some y) = false
same_slot (some x) none = false

-- `this._flagSets.indexOf(x)`; `none` is -1.
unfoldable pub index_of : Option ℕ → List (Option ℕ) → Option ℕ
index_of x [] = none
index_of x (y ∷ ys) =
    let rest = index_of x ys in
    if same_slot y x then some 0 else elim rest [ none ↦ none | some i ↦ some (suc i) ]

-- `_allocateFlagSlot`: a free slot is taken as it is.
unfoldable pub allocate_flag_slot : ℕ → Folder → ℕ × Folder
allocate_flag_slot norm_str s = elim (index_of none s.flag_sets) [
  | some idx ↦ (idx, s)
  | none ↦ (
    length s.flag_sets,
    record s {
      flag_sets = s.flag_sets ++ some norm_str ∷ [];
      flag_set_counts = s.flag_set_counts ++ pos 0 ∷ [];
    },
  )
]

-- `_findFlagSlot`.
unfoldable pub find_flag_slot : ℕ → Folder → ℕ × Folder
find_flag_slot norm_str s = elim (index_of (some norm_str) s.flag_sets) [
  | some idx ↦ (idx, s)
  | none ↦ allocate_flag_slot norm_str s
]

-- `list[i] = f(list[i])`, for an `i` that is in the list.
unfoldable pub change_at {ℓ} : {A : Type ℓ} → ℕ → (A → A) → List A → List A
change_at i f [] = []
change_at zero f (x ∷ xs) = f x ∷ xs
change_at (suc i) f (x ∷ xs) = x ∷ change_at i f xs

unfoldable pub incr_flag_slot : ℕ → Folder → Folder
incr_flag_slot slot s = record s {
  flag_set_counts = change_at slot (λ (n : ℤ). n +ℤ pos 1) s.flag_set_counts;
}

abbrev pub is_zero : Option ℤ → Bool
is_zero none = false
is_zero (some (pos zero)) = true
is_zero (some (pos (suc n))) = false
is_zero (some (negsuc n)) = false

-- `_decrFlagSlot`; a negative count is only reported.
unfoldable pub decr_flag_slot : ℕ → Folder → Folder
decr_flag_slot slot s =
    let counts = change_at slot (λ (n : ℤ). n +ℤ negsuc 0) s.flag_set_counts in
    if is_zero (get_elem? counts slot)
    then record s {
      flag_set_counts = counts;
      flag_sets = change_at slot (λ (x : Option ℕ). none) s.flag_sets;
    }
    else record s { flag_set_counts = counts }

abbrev pub is_known_uid : ℕ → Folder → Bool
is_known_uid uid s = elim (get uid s.uid_info) [ none ↦ false | some info ↦ true ]

unfoldable pub filter_out_known_uids : List ℕ → Folder → List ℕ
filter_out_known_uids [] s = []
filter_out_known_uids (uid ∷ uids) s =
    let rest = filter_out_known_uids uids s in if not (is_known_uid uid s) then uid ∷ rest else rest

unfoldable pub get_all_uids : Folder → List ℕ
get_all_uids s = map (λ (pair : ℕ × Info). pair.0) s.uid_info

unfoldable pub get_umid_for_uid : ℕ → Folder → Option ℕ
get_umid_for_uid uid s = elim (get uid s.uid_info) [ none ↦ none | some info ↦ some info.umid ]

abbrev pub message_meets_date : ℕ → Folder → Bool
message_meets_date date s = leb s.since_date date

-- The body of the second loop of `inferDeletionFromExistingUids`; the flag slot keeps its count.
unfoldable pub forget_uid : Folder → ℕ → Folder
forget_uid s uid = elim (get uid s.uid_info) [
  | none ↦ s
  | some info ↦ record s {
    uid_info = erase uid s.uid_info;
    umid_deletions = add info.umid s.umid_deletions;
    umid_name_reads = put info.umid none s.umid_name_reads;
    umid_location_writes = put info.umid none s.umid_location_writes;
  }
]

unfoldable pub infer_deletion_from_existing_uids : List ℕ → Folder → Folder
infer_deletion_from_existing_uids new_uids s =
    for_each forget_uid s
      (for_each (λ (uids : List ℕ) (uid : ℕ). delete uid uids) (get_all_uids s) new_uids)

-- `yayMessageFoundByDate`.
unfoldable pub yay_message_found_by_date : ℕ → ℕ → ℕ → Folder → Folder
yay_message_found_by_date uid date_ts flags s =
    let (slot, found) = find_flag_slot flags s in
    let (umid, issued) = issue_unique_message_id (incr_flag_slot slot found) in
    record issued {
      umid_location_writes = put umid (some uid) issued.umid_location_writes;
      tasks_to_schedule = issued.tasks_to_schedule ++ sync_message uid umid date_ts flags ∷ [];
      uid_info = put uid (record { umid = umid; flag_slot = slot }) issued.uid_info;
    }

-- `checkFlagChanges`; a UID that is not known raises a TypeError: `none`.
unfoldable pub check_flag_changes : ℕ → ℕ → Folder → Option Folder
check_flag_changes uid flags s = elim (get uid s.uid_info) [
  | none ↦ none
  | some info ↦
      let (slot, found) = find_flag_slot flags s in
      some (
        if not (slot == info.flag_slot)
        then record (incr_flag_slot slot (decr_flag_slot info.flag_slot found)) {
          uid_info = put uid (record info { flag_slot = slot }) found.uid_info;
          umid_flag_changes = put info.umid flags found.umid_flag_changes;
          umid_name_reads = put info.umid none found.umid_name_reads;
        }
        else found)
]
