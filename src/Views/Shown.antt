-- ===== src/Views/Shown.antt =====
-- What the page shows after an update.
use gaia_email_libs_and_more.Common.{
  ℕ, ◌≡◌, refl, ◌∙◌, Bool, true, false, Option, none, some, List, [], ◌∷◌, ◌==◌, if◌then◌else◌, get,
  has, for_each, IsUnique, get-put, get-erase, arith, Option-cases, inl, inr,
}
use gaia_email_libs_and_more.Toc.{Entry}
use gaia_email_libs_and_more.Views.{Update}
use gaia_email_libs_and_more.Views.Page.{
  Item, View, Walk, construct, refresh, update_step, update_view,
}

-- What becomes of an item of the page, for what is sent of its id.
abbrev pub shown : Option Item → Option Entry → Option Item
shown none none = none
shown none (some e) = some (construct e)
shown (some o) none = some o
shown (some o) (some e) = some (refresh e o)

abbrev or_else : Option Item → Option Item → Option Item
or_else none o = o
or_else (some o) o' = some o

walk : List (ℕ × Entry) → Walk → List ℕ → Walk
walk new_states = for_each (update_step new_states)

step_new_set :
    (y id : ℕ) (new_states : List (ℕ × Entry)) (w : Walk)
    → get y (update_step new_states w id).new_set ≡ (
        if id == y
        then or_else (shown (get id w.existing) (get id new_states)) (get y w.new_set)
        else get y w.new_set)
unfolding update_step
step_new_set y id new_states w = elim (Option-cases (get id w.existing)) [
  | inl strange ↦ elim (Option-cases (get id new_states)) [
    | inl silent ↦ rw (strange, silent) (ground arith)
    | inr (e, told) ↦ rw (strange, told) (ground (arith, get-put y id (construct e) w.new_set))
  ]
  | inr (o, known) ↦ elim (Option-cases (get id new_states)) [
    | inl silent ↦ rw (known, silent) (ground (arith, get-put y id o w.new_set))
    | inr (e, told) ↦ rw (known, told) (ground (arith, get-put y id (refresh e o) w.new_set))
  ]
]

step_existing :
    (y id : ℕ) (new_states : List (ℕ × Entry)) (w : Walk)
    → (id == y) ≡ false
    → get y (update_step new_states w id).existing ≡ get y w.existing
unfolding update_step
step_existing y id new_states w h = elim (Option-cases (get id w.existing)) [
  | inl strange ↦ elim (Option-cases (get id new_states)) [
    | inl silent ↦ rw (update_step, strange, silent) refl
    | inr (e, told) ↦ rw (update_step, strange, told) refl
  ]
  | inr (o, known) ↦ rw (update_step, known) (ground (arith, h, get-erase y id w.existing))
]

walk_new_set :
    (y : ℕ) (ids : List ℕ) (new_states : List (ℕ × Entry)) (w : Walk)
    → IsUnique ids
    → get y (walk new_states w ids).new_set ≡ (
        if has y ids
        then or_else (shown (get y w.existing) (get y new_states)) (get y w.new_set)
        else get y w.new_set)
unfolding walk for_each has
walk_new_set y [] new_states w u = refl
walk_new_set y (id ∷ ids) new_states w u = ground (
  arith,
  walk_new_set y ids new_states (update_step new_states w id) u.1,
  step_new_set y id new_states w,
  step_existing y id new_states w,
)

-- The item of an id is the one that was there, as far as the update says nothing of it; none that is
-- not in the update's list is kept. The list has each id once.
pub update_view-shown :
    (y : ℕ) (u : Update) (v : View)
    → IsUnique u.ids
    → get y (update_view u v).items_by_id
      ≡ (if has y u.ids then shown (get y v.items_by_id) (get y u.values) else none)
unfolding update_view walk
update_view-shown y u v unique =
    walk_new_set y u.ids u.values
      (record { existing = v.items_by_id; new_set = []; new_items = [] }) unique
    ∙ simple (has y u.ids) (shown (get y v.items_by_id) (get y u.values))
  where
    simple :
        (b : Bool) (o : Option Item)
        → (if b then or_else o (get y []) else get y []) ≡ (if b then o else none)
    simple true none = unfold get in refl
    simple true (some x) = refl
    simple false o = unfold get in refl
