-- ===== src/Toc/Dynamic.antt =====
-- src/backend/db/dynamic_full_toc.js: a list that is always in memory, over any comparison function.
use Prim.Native.Nat.{Ordering}
use gaia_email_libs_and_more.Common.{
  ◌+◌, ◌≡◌, refl, Option, none, some, List, [], ◌∷◌, length, insert_at, length-insert_at, arith,
}
use gaia_email_libs_and_more.Bsearch.{bsearch_for_insert}
use gaia_email_libs_and_more.Bsearch.Order.{IsComparator, IsSorted}
use gaia_email_libs_and_more.Bsearch.Insert.{bsearch_for_insert-IsPlace, insert_at-IsSorted}

module _ {ℓ} {A : Type ℓ} (cmp : A → A → Ordering) where
  -- `addItem`.
  unfoldable pub add_item : A → List A → Option (List A)
  add_item item items = elim (bsearch_for_insert cmp items item) [
    | none ↦ none
    | some i ↦ some (insert_at i item items)
  ]

  -- A run of `addItem` calls.
  unfoldable pub add_items : List A → List A → Option (List A)
  add_items [] items = some items
  add_items (x ∷ xs) items = elim (add_item x items) [
    | none ↦ none
    | some items' ↦ add_items xs items'
  ]

  add_item-IsSorted :
      IsComparator cmp
      → (item : A) (items : List A) → IsSorted cmp items
      → (items' : List A) × (add_item item items ≡ some items')
        × IsSorted cmp items'
        × (length items' ≡ length items + 1)
  unfolding add_item
  add_item-IsSorted laws item items sorted =
      let (i, found, place) = bsearch_for_insert-IsPlace cmp laws items sorted item in
      (
        insert_at i item items,
        rw (found, add_item),
        insert_at-IsSorted cmp laws items sorted item i place,
        omega (arith, length-insert_at i item items),
      )

  -- Whatever items are added one by one to a sorted list, each call returns, and in the end the
  -- list is sorted and has as many items more.
  pub add_items-IsSorted :
      IsComparator cmp
      → (xs items : List A) → IsSorted cmp items
      → (items' : List A) × (add_items xs items ≡ some items')
        × IsSorted cmp items'
        × (length items' ≡ length items + length xs)
  unfolding add_items
  add_items-IsSorted laws [] items sorted = (items, refl, sorted, omega arith)
  add_items-IsSorted laws (x ∷ xs) items sorted =
      let (items₁, added, sorted₁, length₁) = add_item-IsSorted laws x items sorted in
      let (items₂, rest, sorted₂, length₂) = add_items-IsSorted laws xs items₁ sorted₁ in
      (items₂, rw (added, add_items) rest, sorted₂, omega arith)
