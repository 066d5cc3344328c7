-- ===== src/Bsearch/Insert.antt =====
-- `bsearchForInsert` finds a place that keeps the list sorted.
use Prim.Native.Nat.{Ordering}
use gaia_email_libs_and_more.Common.{
  ℕ, ◌+◌, ◌-◌, ◌≤◌, ◌<◌, ◌≡◌, ◌≢◌, refl, ◌⊎◌, inl, inr, some, List, length, get_elem?, ltb, ◌==◌,
  arith, Bool-cases, ltb→lt, ==_iff, insert_at, get_elem?-insert_at, get_elem?-lt-length,
}
use gaia_email_libs_and_more.Bsearch.{
  Probe, at, below, above, unvisited, fault, out_of_fuel, probe, bsearch_for_insert,
}
use gaia_email_libs_and_more.Bsearch.Loop.{Outcome, probe_ends}
use gaia_email_libs_and_more.Bsearch.Order.{IsComparator, IsSorted}

module _ {ℓ} {A : Type ℓ} (cmp : A → A → Ordering) where
  -- The place `i`: nothing before it is greater than the item, and nothing from it on is smaller.
  pub record IsPlace (items : List A) (seek : A) (i : ℕ) : Type ℓ where
    pub within : i ≤ length items
    pub before : (j : ℕ) (y : A) → j < i → get_elem? items j ≡ some y → cmp seek y ≢ Ordering.lt
    pub behind : (j : ℕ) (y : A) → i ≤ j → get_elem? items j ≡ some y → cmp seek y ≢ Ordering.gt

  -- Where an item of the grown list comes from.
  at_insert :
      (items : List A) (i j : ℕ) (seek x : A)
      → i ≤ length items
      → get_elem? (insert_at i seek items) j ≡ some x
      → ((j < i) × (get_elem? items j ≡ some x))
        ⊎ (((j ≡ i) × (x ≡ seek)) ⊎ ((i < j) × (get_elem? items (j - 1) ≡ some x)))
  at_insert items i j seek x within e =
      let e' = rw (get_elem?-insert_at i j seek items within) at e in
      elim (Bool-cases (ltb j i)) [
        | inl before ↦ inl (ltb→lt j i before, rw before at e')
        | inr not_before ↦ elim (Bool-cases (j == i)) [
          | inl here ↦
              let found = rw (not_before, here) at e' in inr (inl ((==_iff j i).0 here, cc))
          | inr elsewhere ↦ inr (inr (ground arith, rw (not_before, elsewhere) at e'))
        ]
      ]

  module _ (laws : IsComparator cmp) (items : List A) (sorted : IsSorted cmp items) where
    IsPlace-of_Outcome :
        (seek : A) (exit : Probe)
        → exit ≡ probe cmp items seek (length items + 1) 0 (length items) unvisited
        → length items ≢ 0
        → Outcome cmp items seek 0 (length items) exit
        → (i : ℕ) × (bsearch_for_insert cmp items seek ≡ some i) × IsPlace items seek i
    unfolding bsearch_for_insert
    IsPlace-of_Outcome seek (at mid) e full (y, p, q, here, same) = (
      mid,
      rw (← e, bsearch_for_insert) (ground arith),
      record {
        within = omega arith;
        before = λ j x p at_j. laws.eq_down seek y x same (sorted j mid x y p at_j here);
        behind = λ j x p at_j. elim (Bool-cases (ltb mid j)) [
          | inl after ↦ laws.eq_up seek y x same (sorted mid j y x (ltb→lt mid j after) here at_j)
          | inr same_place ↦ let here' : j ≡ mid = ground arith in ground arith
        ];
      },
    )
    IsPlace-of_Outcome seek (below mid) e full (top, (b, a)) = (
      mid,
      rw (← e, bsearch_for_insert) (ground arith),
      record {
        within = top;
        before = λ j x p at_j. ground (arith, b j x);
        behind = λ j x p at_j. ground (arith, a j x p (get_elem?-lt-length items j x at_j) at_j);
      },
    )
    IsPlace-of_Outcome seek (above mid) e full (top, (b, a)) = (
      mid + 1,
      rw (← e, bsearch_for_insert) (ground arith),
      record {
        within = top;
        before = λ j x p at_j. ground (arith, b j x);
        behind = λ j x p at_j. ground (arith, a j x p (get_elem?-lt-length items j x at_j) at_j);
      },
    )
    IsPlace-of_Outcome seek unvisited e full (_, crossed) = absurd (full (omega arith))
    IsPlace-of_Outcome seek fault e full o = absurd o.0
    IsPlace-of_Outcome seek out_of_fuel e full o = absurd o.0

    -- On a sorted list the search returns, without a read outside of the list, a place where the
    -- item can go.
    pub bsearch_for_insert-IsPlace :
        (seek : A) → (i : ℕ) × (bsearch_for_insert cmp items seek ≡ some i) × IsPlace items seek i
    unfolding bsearch_for_insert
    bsearch_for_insert-IsPlace seek = elim (Bool-cases (length items == 0)) [
      | inl empty ↦ (
        0,
        rw empty,
        record {
          within = omega arith;
          before = λ j x p at_j. absurd (omega arith);
          behind = λ j x p at_j. absurd (ground (arith, get_elem?-lt-length items j x at_j));
        },
      )
      | inr full ↦ IsPlace-of_Outcome seek _ refl (ground arith) (
          probe_ends cmp items seek 0 (length items) laws sorted (length items + 1) 0 (length items)
            unvisited (omega arith) (omega arith) (omega arith) (omega arith)
            (λ j y p q. absurd (omega arith)) (λ j y p q at_j. absurd (omega arith)) (refl, refl))
    ]

    -- To put the item there keeps the list sorted.
    pub insert_at-IsSorted :
        (seek : A) (i : ℕ) → IsPlace items seek i → IsSorted cmp (insert_at i seek items)
    insert_at-IsSorted seek i place j k x y p at_j at_k =
        let left = at_insert items i j seek x place.within at_j in
        let right = at_insert items i k seek y place.within at_k in
        elim left [
          | inl (before_j, old_x) ↦ elim right [
            | inl (before_k, old_y) ↦ sorted j k x y p old_x old_y
            | inr (inl (_, new_y)) ↦ rw new_y (laws.swap seek x (place.before j x before_j old_x))
            | inr (inr (after_k, old_y)) ↦ sorted j (k - 1) x y (omega arith) old_x old_y
          ]
          | inr (inl (here_j, new_x)) ↦ elim right [
            | inl (before_k, _) ↦ absurd (omega arith)
            | inr (inl (here_k, _)) ↦ absurd (omega arith)
            | inr (inr (after_k, old_y)) ↦ rw new_x (place.behind (k - 1) y (omega arith) old_y)
          ]
          | inr (inr (after_j, old_x)) ↦ elim right [
            | inl (before_k, _) ↦ absurd (omega arith)
            | inr (inl (here_k, _)) ↦ absurd (omega arith)
            | inr (inr (_, old_y)) ↦ sorted (j - 1) (k - 1) x y (omega arith) old_x old_y
          ]
        ]
