-- ===== src/Bsearch/Exists.antt =====
-- `bsearchMaybeExists` decides whether an equal item stands in the range.
use Prim.Native.Nat.{Ordering}
use gaia_email_libs_and_more.Common.{
  ℕ, ◌+◌, ◌≤◌, ◌<◌, ◌≡◌, ◌≢◌, refl, inl, inr, Option, none, some, List, length, get_elem?, ltb,
  arith, Bool-cases, ltb→lt,
}
use gaia_email_libs_and_more.Bsearch.{
  Probe, at, below, above, unvisited, fault, out_of_fuel, probe, bsearch_maybe_exists_in,
  bsearch_maybe_exists,
}
use gaia_email_libs_and_more.Bsearch.Loop.{Outcome, probe_ends}
use gaia_email_libs_and_more.Bsearch.Order.{IsComparator, IsSorted}

module _ {ℓ} {A : Type ℓ} (cmp : A → A → Ordering) (items : List A) (seek : A) (lo hi : ℕ) where
  -- The answer: an index in the range with an equal item, or null if the range has none.
  abbrev pub Answers : Option ℕ → Type ℓ
  Answers (some i) =
      (y : A) × (lo ≤ i) × (i < hi) × (get_elem? items i ≡ some y) × (cmp seek y ≡ Ordering.eq)
  Answers none =
      (j : ℕ) (y : A) → lo ≤ j → j < hi → get_elem? items j ≡ some y → cmp seek y ≢ Ordering.eq

  answer_of_Outcome :
      (exit : Probe)
      → exit ≡ probe cmp items seek (length items + 1) lo hi unvisited
      → Outcome cmp items seek lo hi exit
      → (r : Option ℕ) × (bsearch_maybe_exists_in cmp items seek lo hi ≡ some r) × Answers r
  unfolding bsearch_maybe_exists_in
  answer_of_Outcome (at mid) e o = (some mid, rw (← e, bsearch_maybe_exists_in), o)
  answer_of_Outcome (below mid) e (top, (b, a)) = (
    none,
    rw (← e, bsearch_maybe_exists_in),
    λ j y p q at_j. elim (Bool-cases (ltb j mid)) [
      | inl before ↦ ground (arith, b j y p (ltb→lt j mid before) at_j)
      | inr behind ↦ ground (arith, a j y (ground arith) q at_j)
    ],
  )
  answer_of_Outcome (above mid) e (top, (b, a)) = (
    none,
    rw (← e, bsearch_maybe_exists_in),
    λ j y p q at_j. elim (Bool-cases (ltb j (mid + 1))) [
      | inl before ↦ ground (arith, b j y p (ltb→lt j (mid + 1) before) at_j)
      | inr behind ↦ ground (arith, a j y (ground arith) q at_j)
    ],
  )
  answer_of_Outcome unvisited e (_, crossed) =
      (none, rw (← e, bsearch_maybe_exists_in), λ j y p q at_j. absurd (omega arith))
  answer_of_Outcome fault e o = absurd o.0
  answer_of_Outcome out_of_fuel e o = absurd o.0

  -- On a sorted list and a range inside of it the search returns: the index in the range of an item
  -- that compares as equal, or null, and then the range has none.
  pub bsearch_maybe_exists_in-Answers :
      IsComparator cmp
      → IsSorted cmp items
      → lo ≤ hi
      → hi ≤ length items
      → (r : Option ℕ) × (bsearch_maybe_exists_in cmp items seek lo hi ≡ some r) × Answers r
  bsearch_maybe_exists_in-Answers laws sorted range inside = answer_of_Outcome _ refl (
      probe_ends cmp items seek lo hi laws sorted (length items + 1) lo hi unvisited (omega arith)
        (omega arith) (omega arith) inside (λ j y p q. absurd (omega arith))
        (λ j y p q. absurd (omega arith)) (refl, refl))

-- The same over the whole list.
pub bsearch_maybe_exists-Answers {ℓ} :
    {A : Type ℓ} (cmp : A → A → Ordering) (items : List A) (seek : A)
    → IsComparator cmp
    → IsSorted cmp items
    → (r : Option ℕ) × (bsearch_maybe_exists cmp items seek ≡ some r)
      × Answers cmp items seek 0 (length items) r
unfolding bsearch_maybe_exists
bsearch_maybe_exists-Answers cmp items seek laws sorted =
    bsearch_maybe_exists_in-Answers cmp items seek 0 (length items) laws sorted (omega arith)
      (omega arith)
