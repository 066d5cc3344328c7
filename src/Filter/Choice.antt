-- ===== src/Filter/Choice.antt =====
-- Which filter is chosen, and that the sync key belongs to it.
use gaia_email_libs_and_more.Common.{
  ℕ, ◌<◌, ◌≤◌, ◌≡◌, ◌∙◌, refl, true, false, if◌then◌else◌, Option, none, some, ℤ, pos, negsuc,
  arith, sym, Bool-cases, Option-cases, inl, inr,
}
use gaia_email_libs_and_more.Filter.{
  FilterType, no_filter, one_day_back, three_days_back, one_week_back, two_weeks_back,
  one_month_back, same_filter, suffices, desired_filter_type, exceeds, Inferred, settle,
  try_no_filter, infer_filter_type,
}

abbrev pub days : FilterType → Option ℕ
days no_filter = none
days one_day_back = some 1
days three_days_back = some 3
days one_week_back = some 7
days two_weeks_back = some 14
days one_month_back = some 30

-- A filter that lets enough messages through by the two weeks' estimate, and the narrowest such.
pub record IsNarrowest (desired estimate : ℕ) (type : FilterType) : Type 0 where
  pub span : ℕ
  pub span_is : days type ≡ some span
  pub enough : suffices desired estimate span ≡ true
  pub narrowest :
      (other : FilterType) (d : ℕ)
      → days other ≡ some d
      → d < span
      → suffices desired estimate d ≡ false

-- No filter but the last lets enough through.
abbrev pub IsScarce : ℕ → ℕ → Type 0
IsScarce desired estimate =
    (other : FilterType) (d : ℕ) → days other ≡ some d → suffices desired estimate d ≡ false

-- What is asked of the choice: three days if the server has no estimate; the narrowest filter that
-- suffices, if one does; and else no filter, unless that lets more through than desired.
abbrev pub IsChoice : ℕ → ℤ → ℤ → FilterType → Type 0
IsChoice desired (negsuc n) total type = type ≡ three_days_back
IsChoice desired (pos estimate) total type =
    ((other : FilterType) (d : ℕ)
      → days other ≡ some d
      → suffices desired estimate d ≡ true
      → IsNarrowest desired estimate type)
    × (IsScarce desired estimate
        → type ≡ (if exceeds total desired then one_month_back else no_filter))

chosen : ℕ → ℤ → ℤ → FilterType
chosen desired estimate total = elim (desired_filter_type desired estimate) [
  | some type ↦ type
  | none ↦ if exceeds total desired then one_month_back else no_filter
]

same_filter-eq : (a b : FilterType) → same_filter a b ≡ true → a ≡ b
same_filter-eq a b e = ground arith

-- The filters below a span are too narrow if those of the chain below it are.
too_narrow :
    (desired estimate span : ℕ)
    → (1 < span → suffices desired estimate 1 ≡ false)
    → (3 < span → suffices desired estimate 3 ≡ false)
    → (7 < span → suffices desired estimate 7 ≡ false)
    → (14 < span → suffices desired estimate 14 ≡ false)
    → span ≤ 30
    → (other : FilterType) (d : ℕ) → days other ≡ some d
    → d < span
    → suffices desired estimate d ≡ false
too_narrow desired estimate span h1 h3 h7 h14 le no_filter d e lt = cc
too_narrow desired estimate span h1 h3 h7 h14 le one_day_back d e lt = ground (arith, h1)
too_narrow desired estimate span h1 h3 h7 h14 le three_days_back d e lt = ground (arith, h3)
too_narrow desired estimate span h1 h3 h7 h14 le one_week_back d e lt = ground (arith, h7)
too_narrow desired estimate span h1 h3 h7 h14 le two_weeks_back d e lt = ground (arith, h14)
too_narrow desired estimate span h1 h3 h7 h14 le one_month_back d e lt = ground arith

-- The choice if a test of the chain holds; and if none does.
module _ (desired estimate : ℕ) (total : ℤ) where
  chosen-narrow :
      (type : FilterType) (span : ℕ)
      → days type ≡ some span
      → chosen desired (pos estimate) total ≡ type
      → suffices desired estimate span ≡ true
      → ((other : FilterType) (d : ℕ)
          → days other ≡ some d
          → d < span
          → suffices desired estimate d ≡ false)
      → IsChoice desired (pos estimate) total (chosen desired (pos estimate) total)
  chosen-narrow type span e is enough below = rw is (
    λ o d f g. record { span = span; span_is = e; enough = enough; narrowest = below },
    λ scarce. absurd (no (sym enough ∙ scarce type span e)),
  )
    where
      no : true ≡ false → ⊥
      no f = cc

  chosen-scarce :
      chosen desired (pos estimate) total
        ≡ (if exceeds total desired then one_month_back else no_filter)
      → IsScarce desired estimate
      → IsChoice desired (pos estimate) total (chosen desired (pos estimate) total)
  chosen-scarce is scarce = (λ o d f g. absurd (no (sym g ∙ scarce o d f)), λ s. is)
    where
      no : true ≡ false → ⊥
      no f = cc

chosen-IsChoice :
    (desired : ℕ) (estimate total : ℤ)
    → IsChoice desired estimate total (chosen desired estimate total)
unfolding chosen desired_filter_type
chosen-IsChoice desired (negsuc n) total = refl
chosen-IsChoice desired (pos estimate) total = elim (Bool-cases (suffices desired estimate 1)) [
  | inl yes_1 ↦ chosen-narrow desired estimate total one_day_back 1 refl (ground arith) yes_1 (
      too_narrow desired estimate 1 (λ lt. ground arith) (λ lt. ground arith) (λ lt. ground arith)
        (λ lt. ground arith) (omega arith))
  | inr no_1 ↦ elim (Bool-cases (suffices desired estimate 3)) [
    | inl yes_3 ↦ chosen-narrow desired estimate total three_days_back 3 refl (ground arith) yes_3 (
        too_narrow desired estimate 3 (λ lt. ground arith) (λ lt. ground arith) (λ lt. ground arith)
          (λ lt. ground arith) (omega arith))
    | inr no_3 ↦ elim (Bool-cases (suffices desired estimate 7)) [
      | inl yes_7 ↦ chosen-narrow desired estimate total one_week_back 7 refl (ground arith) yes_7 (
          too_narrow desired estimate 7 (λ lt. ground arith) (λ lt. ground arith)
            (λ lt. ground arith) (λ lt. ground arith) (omega arith))
      | inr no_7 ↦ elim (Bool-cases (suffices desired estimate 14)) [
        | inl yes_14 ↦
            chosen-narrow desired estimate total two_weeks_back 14 refl (ground arith) yes_14 (
              too_narrow desired estimate 14 (λ lt. ground arith) (λ lt. ground arith)
                (λ lt. ground arith) (λ lt. ground arith) (omega arith))
        | inr no_14 ↦ elim (Bool-cases (suffices desired estimate 30)) [
          | inl yes_30 ↦
              chosen-narrow desired estimate total one_month_back 30 refl (ground arith) yes_30 (
                too_narrow desired estimate 30 (λ lt. ground arith) (λ lt. ground arith)
                  (λ lt. ground arith) (λ lt. ground arith) (omega arith))
          | inr no_30 ↦
              chosen-scarce desired estimate total (ground arith)
                (scarce no_1 no_3 no_7 no_14 no_30)
        ]
      ]
    ]
  ]
]
  where
    scarce :
        suffices desired estimate 1 ≡ false
        → suffices desired estimate 3 ≡ false
        → suffices desired estimate 7 ≡ false
        → suffices desired estimate 14 ≡ false
        → suffices desired estimate 30 ≡ false
        → IsScarce desired estimate
    scarce n1 n3 n7 n14 n30 no_filter d e = cc
    scarce n1 n3 n7 n14 n30 one_day_back d e = ground (arith, e, n1)
    scarce n1 n3 n7 n14 n30 three_days_back d e = ground (arith, e, n3)
    scarce n1 n3 n7 n14 n30 one_week_back d e = ground (arith, e, n7)
    scarce n1 n3 n7 n14 n30 two_weeks_back d e = ground (arith, e, n14)
    scarce n1 n3 n7 n14 n30 one_month_back d e = ground (arith, e, n30)

module _ {S : Type 0} (get_folder_sync_key : FilterType → S → Option (ℕ × S))
    (get_item_estimate : ℕ → FilterType → S → Option (ℤ × S)) (IsKeyOf : FilterType → ℕ → Type 0)
    (estimate_of : FilterType → ℤ)
    (keys_answered : (type : FilterType) (s : S)
      → (key : ℕ) × (s' : S) × (get_folder_sync_key type s ≡ some (key, s')) × IsKeyOf type key)
    (estimates_answered : (type : FilterType) (key : ℕ) (s : S)
      → IsKeyOf type key
      → (s' : S) × (get_item_estimate key type s ≡ some (estimate_of type, s'))) where
  settle-IsKeyOf :
      (type : FilterType) (key : ℕ) (desired_type : FilterType) (s : S)
      → IsKeyOf type key
      → (r : Inferred) × (s' : S) × (settle get_folder_sync_key get_item_estimate type key
            desired_type s
          ≡ some (r, s'))
        × IsKeyOf desired_type r.sync_key
        × (r.filter_type ≡ desired_type)
  unfolding settle
  settle-IsKeyOf type key desired_type s k = elim (Bool-cases (same_filter type desired_type)) [
    | inl same ↦
        let eq = same_filter-eq type desired_type same in
        (record { filter_type = type; sync_key = key }, s, rw same refl, rw (sym eq) k, eq)
    | inr other ↦
        let (key', s', answer, k') = keys_answered desired_type s in
        (
          record { filter_type = desired_type; sync_key = key' },
          s',
          rw (other, answer) refl,
          k',
          refl,
        )
  ]

  -- If the server answers, with keys that belong to the filter asked for, and with its estimates for
  -- a filter wherever it is given a key of that filter: a filter is inferred, the key returned
  -- belongs to it, and it is the choice by the estimates for two weeks and for no filter: three days
  -- if there is no estimate, the narrowest filter that suffices by the code's arithmetic in doubles,
  -- and if none does no filter, or one month if no filter lets more through than desired.
  pub infer_filter_type-IsChoice :
      (desired : ℕ) (s : S)
      → (r : Inferred) × (s' : S) × (infer_filter_type get_folder_sync_key get_item_estimate desired
            s
          ≡ some (r, s'))
        × IsKeyOf r.filter_type r.sync_key
        × IsChoice desired (estimate_of two_weeks_back) (estimate_of no_filter) r.filter_type
  unfolding infer_filter_type try_no_filter chosen
  infer_filter_type-IsChoice desired s =
      let (key, s₁, got, k) = keys_answered two_weeks_back s in
      let (s₂, estimated) = estimates_answered two_weeks_back key s₁ k in
      let choice = chosen-IsChoice desired (estimate_of two_weeks_back) (estimate_of no_filter) in
      elim (Option-cases (desired_filter_type desired (estimate_of two_weeks_back))) [
        | inr (type, decided) ↦
            let (r, s₃, run, k', is) = settle-IsKeyOf two_weeks_back key type s₂ k in
            (
              r,
              s₃,
              rw (infer_filter_type, got, estimated, decided) run,
              rw is k',
              rw is (rw (chosen, decided) at choice),
            )
        | inl undecided ↦
            let (key', s₃, got', k') = keys_answered no_filter s₂ in
            let (s₄, estimated') = estimates_answered no_filter key' s₃ k' in
            let type =
              if exceeds (estimate_of no_filter) desired then one_month_back else no_filter in
            let (r, s₅, run, k'', is) = settle-IsKeyOf no_filter key' type s₄ k' in
            (
              r,
              s₅,
              rw (infer_filter_type, got, estimated, undecided, try_no_filter, got', estimated')
                  run,
              rw is k'',
              rw is (rw (chosen, undecided) at choice),
            )
      ]
