-- ===== src/Delta/Apply.antt =====
-- `applyChanges` on sets and on arrays.
use gaia_email_libs_and_more.Common.{
  ℕ, ◌≡◌, refl, true, false, not, ◌&&◌, ◌||◌, none, some, List, [], ◌∷◌, has, delete, IsUnique,
  has-append, has-delete, append-IsUnique, arith, for_each, Bool-cases, inl, inr, if◌then◌else◌,
  ◌⊎◌,
}
use gaia_email_libs_and_more.Delta.{
  Items, items, Changes, Values, apply_add_to_set, apply_remove_from_set, apply_changes_to_set,
  apply_add_to_array, apply_remove_from_array, apply_changes, splice_one,
}

add_loop-fails : (xs : List ℕ) → for_each apply_add_to_set none xs ≡ none
unfolding for_each apply_add_to_set
add_loop-fails [] = refl
add_loop-fails (x ∷ xs) = add_loop-fails xs

remove_loop-fails : (xs : List ℕ) → for_each apply_remove_from_set none xs ≡ none
unfolding for_each apply_remove_from_set
remove_loop-fails [] = refl
remove_loop-fails (x ∷ xs) = remove_loop-fails xs

add_loop-raises :
    (x : ℕ) (value xs : List ℕ)
    → has x xs ≡ true
    → has x value ≡ false
    → for_each apply_add_to_set (some value) xs ≡ none
unfolding for_each apply_add_to_set has
add_loop-raises x value [] h k = cc
add_loop-raises x value (y ∷ xs) h k = ground (arith, add_loop-raises x value xs, add_loop-fails xs)

add_loop-present :
    (value xs : List ℕ)
    → ((y : ℕ) → has y xs ≡ true → has y value ≡ true)
    → for_each apply_add_to_set (some value) xs ≡ some value
unfolding for_each apply_add_to_set has
add_loop-present value [] h = refl
add_loop-present value (x ∷ xs) h =
    ground (arith, h x, add_loop-present value xs (λ y k. h y (ground arith)))

remove_loop-some :
    (value xs : List ℕ)
    → (value' : List ℕ) × (for_each apply_remove_from_set (some value) xs ≡ some value')
      × ((y : ℕ) → has y value' ≡ (has y value && not (has y xs)))
unfolding for_each apply_remove_from_set has
remove_loop-some value [] = (value, refl, λ y. ground arith)
remove_loop-some value (x ∷ xs) =
    let next = if has x value then delete x value else value in
    let (value', done, members) = remove_loop-some next xs in
    (value', done, λ y. ground (arith, members y, has-delete y x value))

module _ (value : List ℕ) (changes : Changes) where
  -- The set variant raises a TypeError as soon as it has an item to add: `Set` has no `push`.
  pub apply_changes_to_set-raises :
      (x : ℕ)
      → has x (items changes.add) ≡ true
      → has x value ≡ false
      → apply_changes_to_set value changes ≡ none
  unfolding apply_changes_to_set
  apply_changes_to_set-raises x h k =
      rw (add_loop-raises x value (items changes.add) h k)
        (remove_loop-fails (items changes.remove))

  -- If every item to add is in the set already, the set variant returns, and what stays is what is
  -- not to be removed.
  pub apply_changes_to_set-members :
      ((y : ℕ) → has y (items changes.add) ≡ true → has y value ≡ true)
      → (value' : List ℕ) × (apply_changes_to_set value changes ≡ some value')
        × ((y : ℕ) → has y value' ≡ (has y value && not (has y (items changes.remove))))
  unfolding apply_changes_to_set
  apply_changes_to_set-members h =
      rw (add_loop-present value (items changes.add) h)
        (remove_loop-some value (items changes.remove))

-- The array variant removes the wrong item: where the name x of a flag converts to the index 0, it
-- drops the first flag of the message, and x itself stays.
pub apply_changes-array_removes_first :
    (to_index : ℕ → ℕ) (first x : ℕ) (rest : List ℕ)
    → to_index x ≡ 0
    → has x rest ≡ true
    → (apply_changes to_index
          (Values.array (first ∷ rest))
          (record { add = none; remove = some (x ∷ []) })
        ≡ some (Values.array rest))
unfolding apply_changes for_each apply_remove_from_array splice_one has
apply_changes-array_removes_first to_index first x rest zeroth inside = ground arith

add_loop-array :
    (y : ℕ) (xs value : List ℕ)
    → (has y (for_each apply_add_to_array value xs) ≡ (has y value || has y xs))
unfolding for_each apply_add_to_array has
add_loop-array y [] value = ground arith
add_loop-array y (x ∷ xs) value =
    ground (arith, add_loop-array y xs (apply_add_to_array value x), has-append y value (x ∷ []))

add_loop_array-IsUnique :
    (xs value : List ℕ) → IsUnique value → IsUnique (for_each apply_add_to_array value xs)
unfolding for_each apply_add_to_array
add_loop_array-IsUnique [] value u = u
add_loop_array-IsUnique (x ∷ xs) value u =
    add_loop_array-IsUnique xs (apply_add_to_array value x) (step (Bool-cases (has x value)))
  where
    step : (has x value ≡ true) ⊎ (has x value ≡ false) → IsUnique (apply_add_to_array value x)
    step (inl old) = rw (old, apply_add_to_array) u
    step (inr new) = rw (new, apply_add_to_array) (append-IsUnique x value u new)

-- Additions alone are applied well to an array: it has the old and the added items, each once if
-- the old ones stood once.
pub apply_changes-array_adds :
    (to_index : ℕ → ℕ) (value : List ℕ) (xs : Items)
    → (value' : List ℕ) × (apply_changes to_index
          (Values.array value)
          (record { add = xs; remove = none })
        ≡ some (Values.array value'))
      × ((y : ℕ) → has y value' ≡ (has y value || has y (items xs)))
      × (IsUnique value → IsUnique value')
unfolding apply_changes for_each
apply_changes-array_adds to_index value xs = (
  for_each apply_add_to_array value (items xs),
  refl,
  λ y. add_loop-array y (items xs) value,
  add_loop_array-IsUnique (items xs) value,
)
