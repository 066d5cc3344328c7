-- ===== src/Bsearch/Loop.antt =====
-- The loop of the two searches: it ends, reads only inside of the list, and splits the range.
use Prim.Native.Nat.{Ordering}
use gaia_email_libs_and_more.Common.{
  ℕ, zero, suc, ◌+◌, ◌-◌, ◌/◌, ◌≤◌, ◌<◌, ◌≡◌, ◌⊎◌, inl, inr, refl, some, List, length, get_elem?,
  ltb, arith, Bool-cases, ltb→lt, get_elem?-some,
}
use gaia_email_libs_and_more.Bsearch.{Probe, at, below, above, unvisited, fault, out_of_fuel, probe}
use gaia_email_libs_and_more.Bsearch.Order.{IsComparator, IsSorted}

Ordering-cases : (o : Ordering) → (o ≡ Ordering.lt) ⊎ ((o ≡ Ordering.eq) ⊎ (o ≡ Ordering.gt))
Ordering-cases Ordering.lt = inl refl
Ordering-cases Ordering.eq = inr (inl refl)
Ordering-cases Ordering.gt = inr (inr refl)

module _ {ℓ} {A : Type ℓ} (cmp : A → A → Ordering) (items : List A) (seek : A) (lo hi : ℕ) where
  -- In the range from `lo` to `hi`, what stands before `i` is smaller than the sought item, and the
  -- rest is greater.
  abbrev pub Splits : ℕ → Type ℓ
  Splits i =
      ((j : ℕ) (y : A) → lo ≤ j → j < i → get_elem? items j ≡ some y → cmp seek y ≡ Ordering.gt)
      × ((j : ℕ) (y : A) → i ≤ j → j < hi → get_elem? items j ≡ some y → cmp seek y ≡ Ordering.lt)

  -- What each exit means.
  abbrev pub Outcome : Probe → Type ℓ
  Outcome (at mid) =
      (y : A) × (lo ≤ mid)
      × (mid < hi)
      × (get_elem? items mid ≡ some y)
      × (cmp seek y ≡ Ordering.eq)
  Outcome (below mid) = (mid ≤ hi) × Splits mid
  Outcome (above mid) = (mid + 1 ≤ hi) × Splits (mid + 1)
  Outcome unvisited = Splits hi × (hi ≤ lo)
  Outcome fault = ⊥ × Splits hi
  Outcome out_of_fuel = ⊥ × Splits hi

  abbrev Below : ℕ → Type ℓ
  Below low =
      (j : ℕ) (y : A) → lo ≤ j → j < low → get_elem? items j ≡ some y → cmp seek y ≡ Ordering.gt

  abbrev Above : ℕ → Type ℓ
  Above end =
      (j : ℕ) (y : A) → end ≤ j → j < hi → get_elem? items j ≡ some y → cmp seek y ≡ Ordering.lt

  -- The exit that the loop's variables stand for belongs to its bounds.
  abbrev Fits : Probe → ℕ → ℕ → Type 0
  Fits (at mid) low end = ⊥
  Fits (below mid) low end = (mid ≡ end) × (low ≤ end)
  Fits (above mid) low end = (mid + 1 ≡ low) × (low ≤ end)
  Fits unvisited low end = (low ≡ lo) × (end ≡ hi)
  Fits fault low end = ⊥
  Fits out_of_fuel low end = ⊥

  leave :
      (low end : ℕ) (last : Probe)
      → end ≤ low
      → end ≤ hi
      → Below low
      → Above end
      → Fits last low end
      → Outcome last
  leave low end (at mid) crossed top b a f = absurd f
  leave low end (below mid) crossed top b a f =
      (omega arith, (λ j y p q. b j y p (omega arith), λ j y p q. a j y (omega arith) q))
  leave low end (above mid) crossed top b a f =
      (omega arith, (λ j y p q. b j y p (omega arith), λ j y p q. a j y (omega arith) q))
  leave low end unvisited crossed top b a f =
      ((λ j y p q. absurd (omega arith), λ j y p q. absurd (omega arith)), omega arith)
  leave low end fault crossed top b a f = absurd f
  leave low end out_of_fuel crossed top b a f = absurd f

  module _ (laws : IsComparator cmp) (sorted : IsSorted cmp items) where
    Below-mid :
        (mid : ℕ) (y : A)
        → get_elem? items mid ≡ some y
        → cmp seek y ≡ Ordering.gt
        → Below (mid + 1)
    Below-mid mid y e g j x p q at_j = elim (Bool-cases (ltb j mid)) [
      | inl before ↦ laws.gt_down seek y x g (sorted j mid x y (ltb→lt j mid before) at_j e)
      | inr same ↦ let here : j ≡ mid = ground arith in ground arith
    ]

    Above-mid :
        (mid : ℕ) (y : A) → get_elem? items mid ≡ some y → cmp seek y ≡ Ordering.lt → Above mid
    Above-mid mid y e g j x p q at_j = elim (Bool-cases (ltb mid j)) [
      | inl after ↦ laws.lt_up seek y x g (sorted mid j y x (ltb→lt mid j after) e at_j)
      | inr same ↦ let here : j ≡ mid = ground arith in ground arith
    ]

    -- With more fuel than the range is long the loop ends, and its exit means what it says.
    pub probe_ends :
        (fuel low end : ℕ) (last : Probe)
        → end - low < fuel
        → lo ≤ low
        → end ≤ hi
        → hi ≤ length items
        → Below low
        → Above end
        → Fits last low end
        → Outcome (probe cmp items seek fuel low end last)
    unfolding probe
    probe_ends zero low end last enough p q r b a f = elim enough [ ]
    probe_ends (suc fuel) low end last enough p q r b a f = elim (Bool-cases (ltb low end)) [
      | inr crossed ↦ rw crossed (leave low end last (ground arith) q b a f)
      | inl open_range ↦
          let mid = low + (end - 1 - low) / 2 in
          let inside : low < end = ltb→lt low end open_range in
          let (y, e) = get_elem?-some items mid (omega arith) in
          elim (Ordering-cases (cmp seek y)) [
            | inl less ↦
                rw (open_range, e, less)
                  (probe_ends fuel low mid (below mid) (omega arith) p (omega arith) r b
                    (Above-mid mid y e less) (omega arith))
            | inr (inl same) ↦ rw (open_range, e, same) (y, omega arith, omega arith, e, same)
            | inr (inr more) ↦
                rw (open_range, e, more)
                  (probe_ends fuel (mid + 1) end (above mid) (omega arith) (omega arith) q r
                    (Below-mid mid y e more) a (omega arith))
          ]
    ]
