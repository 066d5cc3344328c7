-- ===== src/Groups/Completes.antt =====
-- Completions are passed on to the groups above, and this ends.
use gaia_email_libs_and_more.Common.{
  ℕ, zero, suc, ◌<◌, ◌≡◌, refl, ◌∙◌, true, false, Option, none, some, ◌==◌, get, get-missing, arith,
  Bool-cases, Option-cases, inl, inr,
}
use mathlib.Core.Path.{subst}
use gaia_email_libs_and_more.Groups.{
  Group, Tracker, complete, decrement_once, decrement_group_pending_count,
}
use gaia_email_libs_and_more.Groups.Counted.{
  IsCounted, with_lowered, owed_nonzero, lowered-IsCounted, complete-IsCounted,
}

-- A result that is there and right.
abbrev pub Counts : Option Tracker → Type 0
Counts r = (s' : Tracker) × (r ≡ some s') × IsCounted none s'

completed :
    (fuel g : ℕ) (x : Group) (s : Tracker) (parent : Option ℕ)
    → get g s.groups ≡ some x
    → (x.pending_count == 0) ≡ false
    → (x.pending_count == 1) ≡ true
    → x.parent_group ≡ parent
    → decrement_group_pending_count (suc fuel) g s ≡ elim parent [
      | none ↦ some (complete g x (with_lowered g s))
      | some p ↦ decrement_group_pending_count fuel p (complete g x (with_lowered g s))
    ]
unfolding decrement_group_pending_count decrement_once
completed fuel g x s none e h k q =
    rw (decrement_group_pending_count, e, decrement_once, h, k, q) refl
completed fuel g x s (some p) e h k q =
    rw (decrement_group_pending_count, e, decrement_once, h, k, q) refl

pub one_less :
    (fuel g : ℕ) (x : Group) (s : Tracker)
    → get g s.groups ≡ some x
    → (x.pending_count == 0) ≡ false
    → (x.pending_count == 1) ≡ false
    → decrement_group_pending_count (suc fuel) g s ≡ some (with_lowered g s)
unfolding decrement_group_pending_count decrement_once
one_less fuel g x s e h k = rw (decrement_group_pending_count, e, decrement_once, h, k) refl

-- Parents are older, so as many rounds as the group's number are enough.
pub decrement-Counts :
    (fuel g : ℕ) (s : Tracker)
    → g < fuel
    → IsCounted (some g) s
    → Counts (decrement_group_pending_count fuel g s)
unfolding decrement_group_pending_count
decrement-Counts zero g s h i = absurd (omega arith)
decrement-Counts (suc fuel) g s h i = elim (Option-cases (get g s.groups)) [
  | inl missing ↦ absurd (ground (arith, missing, i.owed_known g refl, get-missing g s.groups))
  | inr (x, e) ↦ elim (Bool-cases (x.pending_count == 1)) [
    | inl last ↦ elim (Option-cases x.parent_group) [
      | inl top ↦ (
        complete g x (with_lowered g s),
        completed fuel g x s none e (owed_nonzero g x s i e) last top,
        subst (λ o. IsCounted o (complete g x (with_lowered g s))) top
            (complete-IsCounted g x s i e last),
      )
      | inr (p, above) ↦
          let (s', r, i') =
            decrement-Counts fuel p (complete g x (with_lowered g s))
              (omega (arith, (i.older g p x e above).0))
              (subst (λ o. IsCounted o (complete g x (with_lowered g s))) above
                (complete-IsCounted g x s i e last)) in
          (s', completed fuel g x s (some p) e (owed_nonzero g x s i e) last above ∙ r, i')
    ]
    | inr more ↦ (
      with_lowered g s,
      one_less fuel g x s e (owed_nonzero g x s i e) more,
      lowered-IsCounted g x s i e more,
    )
  ]
]
