-- ===== src/Delta/Merge.antt =====
-- `mergeChanges` composes changes.
use gaia_email_libs_and_more.Common.{
  ℕ, ◌≡◌, refl, sym, append-nil, Bool, true, false, not, ◌&&◌, ◌||◌, none, some, List, [], ◌∷◌,
  ◌++◌, has, delete, add_all, IsUnique, has-append, has-delete, has-add_all, delete-IsUnique,
  add_all-IsUnique, arith, append-IsUnique_apart, Bool-cases, inl, inr, ◌⊎◌, ◌∙◌,
}
use gaia_email_libs_and_more.Delta.Effect.{after, IsExact}
use gaia_email_libs_and_more.Delta.{
  Items, items, Changes, concat_lists, null_if_empty, is_live, cancel, merge_changes,
}

has-cancel :
    (y : ℕ) (xs pending : List ℕ)
    → IsUnique xs
    → (has y (cancel xs pending).0 ≡ (has y xs && not (has y pending)))
      × (has y (cancel xs pending).1 ≡ (has y pending && not (has y xs)))
unfolding cancel has
has-cancel y [] pending u = ground arith
has-cancel y (x ∷ xs) pending u = elim (Bool-cases (has x pending)) [
  | inl met ↦ ground (arith, met, has-cancel y xs (delete x pending) u.1, has-delete y x pending)
  | inr unmet ↦ ground (arith, unmet, has-cancel y xs pending u.1)
]

cancel-IsUnique :
    (xs pending : List ℕ)
    → IsUnique xs
    → IsUnique pending
    → IsUnique (cancel xs pending).0 × IsUnique (cancel xs pending).1
unfolding cancel
cancel-IsUnique [] pending u v = (tt, v)
cancel-IsUnique (x ∷ xs) pending u v = elim (Bool-cases (has x pending)) [
  | inl met ↦ rw met (cancel-IsUnique xs (delete x pending) u.1 (delete-IsUnique x pending v))
  | inr unmet ↦ rw unmet (
    (ground (arith, has-cancel x xs pending u.1), (cancel-IsUnique xs pending u.1 v).0),
    (cancel-IsUnique xs pending u.1 v).1,
  )
]

items-null_if_empty : (xs : Items) → items (null_if_empty xs) ≡ items xs
unfolding null_if_empty
items-null_if_empty none = refl
items-null_if_empty (some []) = refl
items-null_if_empty (some (x ∷ xs)) = refl

items-concat_lists : (a b : Items) → items (concat_lists a b) ≡ items a ++ items b
unfolding concat_lists
items-concat_lists none b = refl
items-concat_lists (some a) none = sym (append-nil a)
items-concat_lists (some a) (some b) = refl

-- The lists of the merged changes, with the nulls gone.
module _ (e n : Changes) where
  crossing : Bool
  crossing = is_live e.add && is_live n.remove || is_live e.remove && is_live n.add

  cancelled_add : List ℕ × List ℕ
  cancelled_add = cancel (items e.add) (add_all (items n.remove) [])

  cancelled_remove : List ℕ × List ℕ
  cancelled_remove = cancel (items e.remove) (add_all (items n.add) [])

  items-merge_changes :
      (crossing ≡ true)
        × (items (merge_changes e n).add ≡ cancelled_add.0 ++ cancelled_remove.1)
        × (items (merge_changes e n).remove ≡ cancelled_remove.0 ++ cancelled_add.1)
      ⊎ (crossing ≡ false)
        × (items (merge_changes e n).add ≡ items e.add ++ items n.add)
        × (items (merge_changes e n).remove ≡ items e.remove ++ items n.remove)
  unfolding merge_changes crossing cancelled_add cancelled_remove
  items-merge_changes = elim (Bool-cases crossing) [
    | inl live ↦ inl (
      live,
      rw (live, merge_changes) (items-null_if_empty _ ∙ items-concat_lists _ _),
      rw (live, merge_changes) (items-null_if_empty _ ∙ items-concat_lists _ _),
    )
    | inr dead ↦ inr (
      dead,
      rw (dead, merge_changes) (items-null_if_empty _ ∙ items-concat_lists _ _),
      rw (dead, merge_changes) (items-null_if_empty _ ∙ items-concat_lists _ _),
    )
  ]

  -- Without a crossing pair, no item is on both sides.
  not_crossing :
      (y : ℕ)
      → crossing ≡ false
      → ((has y (items e.add) && has y (items n.remove)) ≡ false)
        × ((has y (items e.remove) && has y (items n.add)) ≡ false)
  unfolding crossing has
  not_crossing y h = ground arith

  has-merge_changes :
      (y : ℕ)
      → IsUnique (items e.add)
      → IsUnique (items e.remove)
      → (has y (items (merge_changes e n).add) ≡ (
          has y (items e.add) && not (has y (items n.remove))
          || has y (items n.add) && not (has y (items e.remove))))
        × (has y (items (merge_changes e n).remove) ≡ (
            has y (items e.remove) && not (has y (items n.add))
            || has y (items n.remove) && not (has y (items e.add))))
  unfolding cancelled_add cancelled_remove has
  has-merge_changes y u v =
      let ca = has-cancel y (items e.add) (add_all (items n.remove) []) u in
      let cr = has-cancel y (items e.remove) (add_all (items n.add) []) v in
      let pr = has-add_all y (items n.remove) [] in
      let pa = has-add_all y (items n.add) [] in
      elim items-merge_changes [
        | inl (live, a, r) ↦ (
          rw (a, has-append) (ground (arith, ca, cr, pr, pa)),
          rw (r, has-append) (ground (arith, ca, cr, pr, pa)),
        )
        | inr (dead, a, r) ↦
            let none_met = not_crossing y dead in
            (rw (a, has-append) (ground arith), rw (r, has-append) (ground arith))
      ]

  module _ (members : ℕ → Bool) (exact : IsExact members e)
      (exact' : IsExact (after members e) n) where
    -- If two changes take effect item by item one after the other, which is to add only what is absent,
    -- to remove only what is present, and to name nothing twice, their merged change has the effect
    -- of the two in turn on every item.
    pub after-merge_changes :
        (y : ℕ) → after members (merge_changes e n) y ≡ after (after members e) n y
    after-merge_changes y =
        let m = has-merge_changes y exact.unique_add exact.unique_remove in
        ground (
          arith,
          m,
          exact.added_absent y,
          exact.removed_present y,
          exact'.added_absent y,
          exact'.removed_present y,
        )

    merge_changes-add_absent :
        (y : ℕ) → has y (items (merge_changes e n).add) ≡ true → members y ≡ false
    merge_changes-add_absent y =
        let m = has-merge_changes y exact.unique_add exact.unique_remove in
        ground (arith, m, exact.added_absent y, exact.removed_present y, exact'.added_absent y)

    merge_changes-remove_present :
        (y : ℕ) → has y (items (merge_changes e n).remove) ≡ true → members y ≡ true
    merge_changes-remove_present y =
        let m = has-merge_changes y exact.unique_add exact.unique_remove in
        ground (arith, m, exact.added_absent y, exact.removed_present y, exact'.removed_present y)

    -- No item is added twice, or removed twice.
    adds_apart : (y : ℕ) → has y (items e.add) ≡ true → has y (items n.add) ≡ false
    adds_apart y =
        ground (arith, exact.added_absent y, exact.removed_present y, exact'.added_absent y)

    removes_apart : (y : ℕ) → has y (items e.remove) ≡ true → has y (items n.remove) ≡ false
    removes_apart y = ground (arith, exact'.removed_present y)

    merge_changes-IsUnique :
        IsUnique (items (merge_changes e n).add) × IsUnique (items (merge_changes e n).remove)
    unfolding cancelled_add cancelled_remove has
    merge_changes-IsUnique =
        let pending_remove = add_all (items n.remove) [] in
        let pending_add = add_all (items n.add) [] in
        let ua =
          cancel-IsUnique (items e.add) pending_remove exact.unique_add
            (add_all-IsUnique _ [] tt) in
        let ur =
          cancel-IsUnique (items e.remove) pending_add exact.unique_remove
            (add_all-IsUnique _ [] tt) in
        elim items-merge_changes [
          | inl (live, a, r) ↦ (
            rw a (
                append-IsUnique_apart _ _ ua.0 ur.1 (λ y h. ground (
                  arith,
                  has-cancel y (items e.add) pending_remove exact.unique_add,
                  has-cancel y (items e.remove) pending_add exact.unique_remove,
                  has-add_all y (items n.add) [],
                  adds_apart y,
                ))),
            rw r (
                append-IsUnique_apart _ _ ur.0 ua.1 (λ y h. ground (
                  arith,
                  has-cancel y (items e.add) pending_remove exact.unique_add,
                  has-cancel y (items e.remove) pending_add exact.unique_remove,
                  has-add_all y (items n.remove) [],
                  removes_apart y,
                ))),
          )
          | inr (dead, a, r) ↦ (
            rw a (append-IsUnique_apart _ _ exact.unique_add exact'.unique_add adds_apart),
            rw r (append-IsUnique_apart _ _ exact.unique_remove exact'.unique_remove removes_apart),
          )
        ]

    -- Of two such changes the merged change is again one that adds only what is absent, removes only
    -- what is present, and names nothing twice.
    pub merge_changes-IsExact : IsExact members (merge_changes e n)
    merge_changes-IsExact = record {
      added_absent = merge_changes-add_absent;
      removed_present = merge_changes-remove_present;
      unique_add = merge_changes-IsUnique.0;
      unique_remove = merge_changes-IsUnique.1;
    }
