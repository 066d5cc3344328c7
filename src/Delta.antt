-- ===== src/Delta.antt =====
-- src/backend/delta_algebra.js: add and remove changes to a set (folder ids) or to an array (flags).

pub mod Effect
pub mod Normalize
pub mod Apply
pub mod Merge
mod Tests
use gaia_email_libs_and_more.Common.{
  ℕ, zero, suc, ◌≡◌, Bool, true, false, not, ◌&&◌, ◌||◌, Option, none, some, List, [], ◌∷◌, ◌++◌,
  has, add, delete, add_all, remove_first, if◌then◌else◌, for_each,
}

-- A list of changes, or `null`.
abbrev pub Items : Type 0
Items = Option (List ℕ)

-- `{ add, remove }`.
pub record Changes : Type 0 where
  pub add : Items
  pub remove : Items

-- The items of a list that may be null: `if (list) { for (let x of list) ... }` runs over these.
abbrev pub items : Items → List ℕ
items none = []
items (some xs) = xs

-- `if (!list) { list = []; } list.push(x);`
unfoldable pub push_onto : Items → ℕ → Items
push_onto none x = some (x ∷ [])
push_onto (some xs) x = some (xs ++ x ∷ [])

-- The argument of the two dispatching functions: an array or a `Set`.
pub data Values : Type 0 where
  array : List ℕ → Values
  set : List ℕ → Values

-- The current values beside `actuallyAdded` or `actuallyRemoved`.
abbrev pub Progress : Type 0
Progress = List ℕ × Items

unfoldable pub add_to_set : Progress → ℕ → Progress
add_to_set (values, added) addend =
    if has addend values then (values, added) else (add addend values, push_onto added addend)

unfoldable pub remove_from_set : Progress → ℕ → Progress
remove_from_set (values, removed) subtrahend =
    if has subtrahend values
    then (delete subtrahend values, push_onto removed subtrahend)
    else (values, removed)

-- `normalizeAndApplyChangesToSet`: what changed, and the new values.
unfoldable pub normalize_and_apply_changes_to_set : List ℕ → Items → Items → Changes × List ℕ
normalize_and_apply_changes_to_set values to_add to_remove =
    let (grown, added) = for_each add_to_set (values, none) (items to_add) in
    let (shrunk, removed) = for_each remove_from_set (grown, none) (items to_remove) in
    (record { add = added; remove = removed }, shrunk)

-- The test of the array variant is `values.indexOf(addend === -1)`: it looks for `false` among
-- strings, finds nothing, and -1 is true. So every addend is pushed.
unfoldable pub add_to_array : Progress → ℕ → Progress
add_to_array (values, added) addend = (values ++ addend ∷ [], push_onto added addend)

unfoldable pub remove_from_array : Progress → ℕ → Progress
remove_from_array (values, removed) subtrahend =
    if has subtrahend values
    then (remove_first subtrahend values, push_onto removed subtrahend)
    else (values, removed)

-- `normalizeAndApplyChanges`.
unfoldable pub normalize_and_apply_changes : Values → Items → Items → Changes × Values
normalize_and_apply_changes (set values) to_add to_remove =
    let (changes, values') = normalize_and_apply_changes_to_set values to_add to_remove in
    (changes, set values')
normalize_and_apply_changes (array values) to_add to_remove =
    let (grown, added) = for_each add_to_array (values, none) (items to_add) in
    let (shrunk, removed) = for_each remove_from_array (grown, none) (items to_remove) in
    (record { add = added; remove = removed }, array shrunk)

-- `value.push(addend)` on a `Set` raises a TypeError: `none`.
unfoldable pub apply_add_to_set : Option (List ℕ) → ℕ → Option (List ℕ)
apply_add_to_set none addend = none
apply_add_to_set (some value) addend = if has addend value then some value else none

unfoldable pub apply_remove_from_set : Option (List ℕ) → ℕ → Option (List ℕ)
apply_remove_from_set none subtrahend = none
apply_remove_from_set (some value) subtrahend =
    some (if has subtrahend value then delete subtrahend value else value)

-- `applyChangesToSet`.
unfoldable pub apply_changes_to_set : List ℕ → Changes → Option (List ℕ)
apply_changes_to_set value changes =
    for_each apply_remove_from_set (for_each apply_add_to_set (some value) (items changes.add))
      (items changes.remove)

-- `value.splice(i, 1)` on an array.
unfoldable pub splice_one : ℕ → List ℕ → List ℕ
splice_one i [] = []
splice_one zero (x ∷ xs) = xs
splice_one (suc i) (x ∷ xs) = x ∷ splice_one i xs

unfoldable pub apply_add_to_array : List ℕ → ℕ → List ℕ
apply_add_to_array value addend = if has addend value then value else value ++ addend ∷ []

-- The array variant calls `value.splice(subtrahend, 1)`, with the item where the index belongs.
-- `to_index` is JavaScript's conversion of the item to an index, which is 0 for the name of a flag.
module _ (to_index : ℕ → ℕ) where
  unfoldable pub apply_remove_from_array : List ℕ → ℕ → List ℕ
  apply_remove_from_array value subtrahend =
      if has subtrahend value then splice_one (to_index subtrahend) value else value

  -- `applyChanges`.
  unfoldable pub apply_changes : Values → Changes → Option Values
  apply_changes (set value) changes = elim (apply_changes_to_set value changes) [
    | none ↦ none
    | some value' ↦ some (set value')
  ]
  apply_changes (array value) changes = some (
      array (
        for_each apply_remove_from_array (for_each apply_add_to_array value (items changes.add))
          (items changes.remove)))

-- `concatLists`.
unfoldable pub concat_lists : Items → Items → Items
concat_lists (some a) (some b) = some (a ++ b)
concat_lists (some a) none = some a
concat_lists none b = b

-- `list && !list.length` becomes null.
unfoldable pub null_if_empty : Items → Items
null_if_empty (some []) = none
null_if_empty xs = xs

abbrev pub is_live : Items → Bool
is_live none = false
is_live (some xs) = true

-- One cancellation pass: the items that stay, and what is left of the pending set.
unfoldable pub cancel : List ℕ → List ℕ → List ℕ × List ℕ
cancel [] pending = ([], pending)
cancel (item ∷ rest) pending =
    let met = has item pending in
    let (kept, left) = cancel rest (if met then delete item pending else pending) in
    (if met then kept else item ∷ kept, left)

-- `mergeChanges`.
unfoldable pub merge_changes : Changes → Changes → Changes
merge_changes existing new =
    let (kept_add, pending_remove) = cancel (items existing.add) (add_all (items new.remove) []) in
    let (kept_remove, pending_add) = cancel (items existing.remove) (add_all (items new.add) []) in
    let crossing =
      is_live existing.add && is_live new.remove || is_live existing.remove && is_live new.add in
    if crossing
    then record {
      add = null_if_empty (concat_lists (some kept_add) (some pending_add));
      remove = null_if_empty (concat_lists (some kept_remove) (some pending_remove));
    }
    else record {
      add = null_if_empty (concat_lists existing.add new.add);
      remove = null_if_empty (concat_lists existing.remove new.remove);
    }
