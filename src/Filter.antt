-- ===== src/Filter.antt =====
-- src/backend/accounts/activesync/smotocol/infer_filter_type.js: how far back an ActiveSync folder is
-- synchronized.
pub mod Doubles
pub mod Choice
mod Tests
use gaia_email_libs_and_more.Common.{
  ℕ, zero, suc, ◌+◌, Bool, true, false, ltb, ◌==◌, if◌then◌else◌, Option, none, some, ℤ, pos,
  negsuc,
}
use gaia_email_libs_and_more.Filter.Doubles.{nearest, times, at_least}

-- `$AirSync.Enums.FilterType`.
pub data FilterType : Type 0 where
  no_filter one_day_back three_days_back one_week_back two_weeks_back one_month_back : FilterType

-- `===` on filter types.
abbrev pub same_filter : FilterType → FilterType → Bool
same_filter no_filter no_filter = true
same_filter one_day_back one_day_back = true
same_filter three_days_back three_days_back = true
same_filter one_week_back one_week_back = true
same_filter two_weeks_back two_weeks_back = true
same_filter one_month_back one_month_back = true
same_filter _ _ = false

-- `messagesPerDay`, a double.
abbrev pub messages_per_day : ℕ → ℕ × ℕ
messages_per_day estimate = nearest estimate 14

-- `messagesPerDay * days >= desiredMessageCount`; for one day nothing is multiplied.
unfoldable pub suffices : ℕ → ℕ → ℕ → Bool
suffices desired estimate days =
    if days == 1
    then at_least (messages_per_day estimate) desired
    else at_least (times (messages_per_day estimate) days) desired

-- The chain of tests on the two weeks' estimate; `none` is its last branch, which asks again.
unfoldable pub desired_filter_type : ℕ → ℤ → Option FilterType
desired_filter_type desired (negsuc n) = some three_days_back
desired_filter_type desired (pos estimate) =
    if suffices desired estimate 1
    then some one_day_back
    else if suffices desired estimate 3
    then some three_days_back
    else if suffices desired estimate 7
    then some one_week_back
    else if suffices desired estimate 14
    then some two_weeks_back
    else if suffices desired estimate 30
    then some one_month_back
    else none

-- `estimate > desiredMessageCount`.
abbrev pub exceeds : ℤ → ℕ → Bool
exceeds (negsuc n) desired = false
exceeds (pos estimate) desired = ltb desired estimate

pub record Inferred : Type 0 where
  pub filter_type : FilterType
  pub sync_key : ℕ

-- The server: its state, `getFolderSyncKey` and `getItemEstimate`. A call that fails is `none`.
module _ {S : Type 0} (get_folder_sync_key : FilterType → S → Option (ℕ × S))
    (get_item_estimate : ℕ → FilterType → S → Option (ℤ × S)) where
  -- `if (filterType !== desiredFilterType)` and what follows it.
  unfoldable pub settle : FilterType → ℕ → FilterType → S → Option (Inferred × S)
  settle filter_type sync_key desired_type s =
      if same_filter filter_type desired_type
      then some (record { filter_type = filter_type; sync_key = sync_key }, s)
      else elim (get_folder_sync_key desired_type s) [
        | none ↦ none
        | some (key, s') ↦ some (record { filter_type = desired_type; sync_key = key }, s')
      ]

  -- The last branch of the chain.
  unfoldable pub try_no_filter : ℕ → S → Option (Inferred × S)
  try_no_filter desired s = elim (get_folder_sync_key no_filter s) [
    | none ↦ none
    | some (key, s') ↦ elim (get_item_estimate key no_filter s') [
      | none ↦ none
      | some (estimate, s'') ↦
          settle no_filter key (if exceeds estimate desired then one_month_back else no_filter) s''
    ]
  ]

  -- `inferFilterType`.
  unfoldable pub infer_filter_type : ℕ → S → Option (Inferred × S)
  infer_filter_type desired s = elim (get_folder_sync_key two_weeks_back s) [
    | none ↦ none
    | some (key, s') ↦ elim (get_item_estimate key two_weeks_back s') [
      | none ↦ none
      | some (estimate, s'') ↦ elim (desired_filter_type desired estimate) [
        | some desired_type ↦ settle two_weeks_back key desired_type s''
        | none ↦ try_no_filter desired s''
      ]
    ]
  ]
