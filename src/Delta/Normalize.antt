-- ===== src/Delta/Normalize.antt =====
-- `normalizeAndApplyChanges` reports what it changed.
use gaia_email_libs_and_more.Common.{
  ℕ, ◌≡◌, refl, sym, true, false, not, ◌&&◌, ◌||◌, none, some, List, [], ◌∷◌, ◌++◌, has, IsUnique,
  has-append, has-delete, has-add, append-IsUnique, arith, append-nil, append_assoc, ◌∙◌, ap,
  for_each, Bool-cases, inl, inr, append-not-IsUnique,
}
use gaia_email_libs_and_more.Delta.Effect.{after, IsExact}
use gaia_email_libs_and_more.Delta.{
  Items, items, Changes, Progress, Values, push_onto, add_to_set, remove_from_set, add_to_array,
  normalize_and_apply_changes_to_set, normalize_and_apply_changes,
}

items-push_onto : (xs : Items) (x : ℕ) → items (push_onto xs x) ≡ items xs ++ x ∷ []
unfolding push_onto
items-push_onto none x = refl
items-push_onto (some xs) x = refl

-- What the loop over `toAdd` does to the members of the set and of the report.
has-add_loop :
    (y : ℕ) (xs : List ℕ) (p : Progress)
    → (has y (for_each add_to_set p xs).0 ≡ (has y p.0 || has y xs))
      × (has y (items (for_each add_to_set p xs).1)
          ≡ (has y (items p.1) || has y xs && not (has y p.0)))
unfolding for_each add_to_set has
has-add_loop y [] p = ground arith
has-add_loop y (x ∷ xs) p = ground (
  arith,
  has-add_loop y xs (add_to_set p x),
  has-add y x p.0,
  items-push_onto p.1 x,
  has-append y (items p.1) (x ∷ []),
)

has-remove_loop :
    (y : ℕ) (xs : List ℕ) (p : Progress)
    → (has y (for_each remove_from_set p xs).0 ≡ (has y p.0 && not (has y xs)))
      × (has y (items (for_each remove_from_set p xs).1)
          ≡ (has y (items p.1) || has y xs && has y p.0))
unfolding for_each remove_from_set has
has-remove_loop y [] p = ground arith
has-remove_loop y (x ∷ xs) p = ground (
  arith,
  has-remove_loop y xs (remove_from_set p x),
  has-delete y x p.0,
  items-push_onto p.1 x,
  has-append y (items p.1) (x ∷ []),
)

module _ (p : Progress) (x : ℕ) where
  add_to_set-held :
      ((y : ℕ) → has y (items p.1) ≡ true → has y p.0 ≡ true)
      → (y : ℕ) → has y (items (add_to_set p x).1) ≡ true
      → has y (add_to_set p x).0 ≡ true
  unfolding add_to_set has
  add_to_set-held held y =
      ground
        (arith, held y, has-add y x p.0, items-push_onto p.1 x, has-append y (items p.1) (x ∷ []))

  add_to_set-IsUnique :
      ((y : ℕ) → has y (items p.1) ≡ true → has y p.0 ≡ true)
      → IsUnique (items p.1)
      → IsUnique (items (add_to_set p x).1)
  unfolding add_to_set
  add_to_set-IsUnique held u = elim (Bool-cases (has x p.0)) [
    | inl old ↦ rw (old, add_to_set) u
    | inr new ↦ rw (new, items-push_onto) (append-IsUnique x (items p.1) u (ground (arith, held x)))
  ]

  remove_from_set-gone :
      ((y : ℕ) → has y (items p.1) ≡ true → has y p.0 ≡ false)
      → (y : ℕ) → has y (items (remove_from_set p x).1) ≡ true
      → has y (remove_from_set p x).0 ≡ false
  unfolding remove_from_set has
  remove_from_set-gone gone y =
      ground (
        arith,
        gone y,
        has-delete y x p.0,
        items-push_onto p.1 x,
        has-append y (items p.1) (x ∷ []),
      )

  remove_from_set-IsUnique :
      ((y : ℕ) → has y (items p.1) ≡ true → has y p.0 ≡ false)
      → IsUnique (items p.1)
      → IsUnique (items (remove_from_set p x).1)
  unfolding remove_from_set
  remove_from_set-IsUnique gone u = elim (Bool-cases (has x p.0)) [
    | inl old ↦ rw (old, items-push_onto) (append-IsUnique x (items p.1) u (ground (arith, gone x)))
    | inr new ↦ rw (new, remove_from_set) u
  ]

-- Every item is reported as added at most once.
add_loop-IsUnique :
    (xs : List ℕ) (p : Progress)
    → ((y : ℕ) → has y (items p.1) ≡ true → has y p.0 ≡ true)
    → IsUnique (items p.1)
    → IsUnique (items (for_each add_to_set p xs).1)
unfolding for_each
add_loop-IsUnique [] p held u = u
add_loop-IsUnique (x ∷ xs) p held u =
    add_loop-IsUnique xs (add_to_set p x) (add_to_set-held p x held)
      (add_to_set-IsUnique p x held u)

remove_loop-IsUnique :
    (xs : List ℕ) (p : Progress)
    → ((y : ℕ) → has y (items p.1) ≡ true → has y p.0 ≡ false)
    → IsUnique (items p.1)
    → IsUnique (items (for_each remove_from_set p xs).1)
unfolding for_each
remove_loop-IsUnique [] p gone u = u
remove_loop-IsUnique (x ∷ xs) p gone u =
    remove_loop-IsUnique xs (remove_from_set p x) (remove_from_set-gone p x gone)
      (remove_from_set-IsUnique p x gone u)

module _ (values : List ℕ) (to_add to_remove : Items) where
  result : Changes × List ℕ
  result = normalize_and_apply_changes_to_set values to_add to_remove

  -- For every item y of any kind: y is in the new set exactly if it was there or is to be added,
  -- and is not to be removed; it is reported as added exactly if it is to be added and was not
  -- there; it is reported as removed exactly if it is to be removed and was there or is to be added.
  pub normalize_and_apply_changes_to_set-members :
      (y : ℕ)
      → (has y (normalize_and_apply_changes_to_set values to_add to_remove).1
          ≡ ((has y values || has y (items to_add)) && not (has y (items to_remove))))
        × (has y (items (normalize_and_apply_changes_to_set values to_add to_remove).0.add)
            ≡ (has y (items to_add) && not (has y values)))
        × (has y (items (normalize_and_apply_changes_to_set values to_add to_remove).0.remove)
            ≡ (has y (items to_remove) && (has y values || has y (items to_add))))
  unfolding normalize_and_apply_changes_to_set has
  normalize_and_apply_changes_to_set-members y =
      let grown = for_each add_to_set (values, none) (items to_add) in
      ground (
        arith,
        has-add_loop y (items to_add) (values, none),
        has-remove_loop y (items to_remove) (grown.0, none),
      )

  normalize-IsUnique : IsUnique (items result.0.add) × IsUnique (items result.0.remove)
  unfolding result normalize_and_apply_changes_to_set has
  normalize-IsUnique = (
    add_loop-IsUnique (items to_add) (values, none) (λ y h. cc) tt,
    remove_loop-IsUnique (items to_remove) (_, none) (λ y h. cc) tt,
  )

  -- If no item is both to be added and to be removed, the reported changes all take effect, none is
  -- reported twice, and they lead from the old set to the new one.
  pub normalize_and_apply_changes_to_set-IsExact :
      ((y : ℕ) → has y (items to_add) ≡ true → has y (items to_remove) ≡ false)
      → IsExact (λ y. has y values) (normalize_and_apply_changes_to_set values to_add to_remove).0
        × ((y : ℕ)
            → has y (normalize_and_apply_changes_to_set values to_add to_remove).1
              ≡ after
                  (λ z. has z values)
                  (normalize_and_apply_changes_to_set values to_add to_remove).0
                  y)
  unfolding result
  normalize_and_apply_changes_to_set-IsExact apart = (
    record {
      added_absent = λ y h. ground (arith, normalize_and_apply_changes_to_set-members y);
      removed_present =
          λ y h. ground (arith, apart y, normalize_and_apply_changes_to_set-members y);
      unique_add = normalize-IsUnique.0;
      unique_remove = normalize-IsUnique.1;
    },
    λ y. ground (arith, apart y, normalize_and_apply_changes_to_set-members y),
  )

-- The array variant never sees that an item is there already: it appends every item of `toAdd` and
-- reports it as added.
add_loop-array :
    (xs : List ℕ) (p : Progress)
    → ((for_each add_to_array p xs).0 ≡ p.0 ++ xs)
      × (items (for_each add_to_array p xs).1 ≡ items p.1 ++ xs)
unfolding for_each add_to_array
add_loop-array [] p = (sym (append-nil p.0), sym (append-nil (items p.1)))
add_loop-array (x ∷ xs) p =
    let (values, added) = add_loop-array xs (add_to_array p x) in
    (
      values ∙ append_assoc p.0 (x ∷ []) xs,
      rw (added, items-push_onto p.1 x) (append_assoc (items p.1) (x ∷ []) xs),
    )

-- The array variant with nothing to remove: all of `toAdd` is appended and reported as added, also
-- what is there already, so the flag x of a message that has it is stored twice.
pub normalize_and_apply_changes-array :
    (values xs : List ℕ) (x : ℕ)
    → has x values ≡ true
    → has x xs ≡ true
    → (normalize_and_apply_changes (Values.array values) (some xs) none).1
        ≡ Values.array (values ++ xs)
      × (items (normalize_and_apply_changes (Values.array values) (some xs) none).0.add ≡ xs)
      × ¬ IsUnique (values ++ xs)
unfolding normalize_and_apply_changes for_each
normalize_and_apply_changes-array values xs x old new =
    let (all, added) = add_loop-array xs (values, none) in
    (ap Values.array all, added, λ u. append-not-IsUnique x values xs old new u)
