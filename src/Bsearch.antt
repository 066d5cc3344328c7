-- ===== src/Bsearch.antt =====
-- src/shared/util.js: `bsearchForInsert` and `bsearchMaybeExists`.
pub mod Order
pub mod Loop
pub mod Insert
pub mod Exists
use Prim.Native.Nat.{Ordering}
use gaia_email_libs_and_more.Common.{
  ℕ, zero, suc, ◌+◌, ◌-◌, ◌/◌, Bool, true, false, Option, none, some, List, [], ◌∷◌, length,
  get_elem?, ltb, ◌==◌, if◌then◌else◌,
}

-- How the loop ended. `at mid` is the early exit on an equal item; `below mid` and `above mid` are
-- the exits by the loop's test, with the last comparison. `fault` is a read outside of the list, and
-- `out_of_fuel` is no outcome of the source.
pub data Probe : Type 0 where
  at below above : ℕ → Probe
  unvisited fault out_of_fuel : Probe

module _ {ℓ} {A : Type ℓ} (cmp : A → A → Ordering) (items : List A) (seek : A) where
  -- The `while (low <= high)` loop of both functions, over the exclusive bound `end` = `high` + 1;
  -- `high` can be -1. `last` is the exit that the variables `mid` and `cmpval` stand for.
  unfoldable pub probe : ℕ → ℕ → ℕ → Probe → Probe
  probe zero low end last = out_of_fuel
  probe (suc fuel) low end last =
      let mid = low + (end - 1 - low) / 2 in
      let left = probe fuel low mid (below mid) in
      let right = probe fuel (mid + 1) end (above mid) in
      if ltb low end
      then elim (get_elem? items mid) [
        | none ↦ fault
        | some item ↦ elim (cmp seek item) [
          | Ordering.lt ↦ left
          | Ordering.gt ↦ right
          | Ordering.eq ↦ at mid
        ]
      ]
      else last

  -- `bsearchForInsert`. `none` is an exception or a loop that does not end.
  unfoldable pub bsearch_for_insert : Option ℕ
  bsearch_for_insert =
      let searched = probe (length items + 1) 0 (length items) unvisited in
      let place : Option ℕ = elim searched [
        | below mid ↦ some mid
        | above mid ↦ some (mid + 1)
        | at mid ↦ some mid
        | unvisited ↦ none
        | fault ↦ none
        | out_of_fuel ↦ none
      ] in
      if length items == 0 then some 0 else place

  -- `bsearchMaybeExists` from `low` up to `end` (`aHigh` + 1). The inner `none` is `null`.
  unfoldable pub bsearch_maybe_exists_in : ℕ → ℕ → Option (Option ℕ)
  bsearch_maybe_exists_in low end = elim (probe (length items + 1) low end unvisited) [
    | at mid ↦ some (some mid)
    | below mid ↦ some none
    | above mid ↦ some none
    | unvisited ↦ some none
    | fault ↦ none
    | out_of_fuel ↦ none
  ]

  -- `bsearchMaybeExists` with the default bounds.
  unfoldable pub bsearch_maybe_exists : Option (Option ℕ)
  bsearch_maybe_exists = bsearch_maybe_exists_in 0 (length items)
