-- ===== src/Filter/Tests.antt =====
-- Runs of src/backend/accounts/activesync/smotocol/infer_filter_type.js with a small server, and the
-- theorem at it.
use gaia_email_libs_and_more.Common.{ℕ, suc, ◌≡◌, refl, Option, some, ℤ, pos}
use gaia_email_libs_and_more.Filter.{
  FilterType, no_filter, one_day_back, three_days_back, one_week_back, two_weeks_back,
  one_month_back, Inferred, suffices, desired_filter_type, settle, try_no_filter, infer_filter_type,
}
use gaia_email_libs_and_more.Filter.Doubles.{scale_up, scale_down, nearest}
use gaia_email_libs_and_more.Filter.Choice.{IsChoice, infer_filter_type-IsChoice}

abbrev number : FilterType → ℕ
number no_filter = 0
number one_day_back = 1
number three_days_back = 2
number one_week_back = 3
number two_weeks_back = 4
number one_month_back = 5

-- A server whose state counts the calls, and whose key for a filter is the filter's number.
abbrev issue_key : FilterType → ℕ → Option (ℕ × ℕ)
issue_key type s = some (number type, suc s)

abbrev estimate : FilterType → ℤ
estimate no_filter = pos 900
estimate _ = pos 28

abbrev give_estimate : ℕ → FilterType → ℕ → Option (ℤ × ℕ)
give_estimate key type s = some (estimate type, suc s)

week :
    infer_filter_type issue_key give_estimate 10 0
    ≡ some (record { filter_type = one_week_back; sync_key = 3 }, 3)
unfolding infer_filter_type suffices nearest scale_up scale_down desired_filter_type settle
week = refl

month :
    infer_filter_type issue_key give_estimate 100 0
    ≡ some (record { filter_type = one_month_back; sync_key = 5 }, 5)
unfolding infer_filter_type suffices nearest scale_up scale_down desired_filter_type try_no_filter
    settle
month = refl

-- 61 / 14 * 14 is less than 61.
rounded : desired_filter_type 61 (pos 61) ≡ some one_month_back
unfolding desired_filter_type suffices nearest scale_up scale_down
rounded = refl

infer_filter_type-IsChoice_example :
    (r : Inferred) × (s' : ℕ) × (infer_filter_type issue_key give_estimate 10 0 ≡ some (r, s'))
    × (r.sync_key ≡ number r.filter_type)
    × IsChoice 10 (estimate two_weeks_back) (estimate no_filter) r.filter_type
infer_filter_type-IsChoice_example =
    infer_filter_type-IsChoice issue_key give_estimate (λ type key. key ≡ number type) estimate
      (λ type s. (number type, suc s, refl, refl)) (λ type key s k. (suc s, refl)) 10 0
