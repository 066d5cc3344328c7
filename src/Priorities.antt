-- ===== src/Priorities.antt =====
-- What src/backend/task_infra/task_priorities.js promises to the keeper of the resources.
use gaia_email_libs_and_more.Common.{
  ℕ, ◌≡◌, Bool, false, ◌||◌, ◌==◌, if◌then◌else◌, Option, none, some, List, [], ◌∷◌, ℤ,
}

-- A wrapped task or a task marker. What is undefined is no resources, no tags, or 0.
pub record Thing : Type 0 where
  pub id : ℕ
  pub resources : List ℕ
  pub priority_tags : List ℕ
  pub rel_priority : ℤ

-- Whether a thing with the id stands in the list.
abbrev pub has_thing : ℕ → List Thing → Bool
has_thing id [] = false
has_thing id (t ∷ ts) = t.id == id || has_thing id ts

-- `prioritizeTaskThing`, `removeTaskThing`, `removeTasksUsingFilter`, which also gives the things for
-- which the filter said yes, in their order, `popNextAvailableTask` and `setPriorityBoostTags`. `prioritized` is the thing
-- that is found for an id.
pub record Priorities (P : Type 0) : Type 0 where
  pub prioritize : Thing → P → P
  pub remove : ℕ → P → P
  pub remove_using_filter : (Thing → Bool) → P → List Thing × P
  pub pop : P → Option Thing × P
  pub set_boosts : ℕ → Option (List (ℕ × ℤ)) → P → P
  pub prioritized : ℕ → P → Option Thing

-- Whether an optional thing is there and passes the test.
abbrev pub passes : (Thing → Bool) → Option Thing → Bool
passes p none = false
passes p (some t) = p t

-- Whether an optional thing has the id.
abbrev pub is_thing : ℕ → Option Thing → Bool
is_thing id none = false
is_thing id (some t) = t.id == id

-- A thing is held under its id until it is removed.
pub record IsPriorities {P : Type 0} (ops : Priorities P) : Type 0 where
  pub after_prioritize :
      (id : ℕ) (t : Thing) (p : P)
      → ops.prioritized id (ops.prioritize t p)
        ≡ (if t.id == id then some t else ops.prioritized id p)
  pub after_remove :
      (id x : ℕ) (p : P)
      → ops.prioritized id (ops.remove x p) ≡ (if x == id then none else ops.prioritized id p)
  pub after_filter :
      (id : ℕ) (f : Thing → Bool) (p : P)
      → ops.prioritized id (ops.remove_using_filter f p).1
        ≡ (if passes f (ops.prioritized id p) then none else ops.prioritized id p)
  pub filtered :
      (id : ℕ) (f : Thing → Bool) (p : P)
      → has_thing id (ops.remove_using_filter f p).0 ≡ passes f (ops.prioritized id p)
  pub after_pop :
      (id : ℕ) (p : P)
      → ops.prioritized id (ops.pop p).1
        ≡ (if is_thing id (ops.pop p).0 then none else ops.prioritized id p)
  pub after_set_boosts :
      (id owner : ℕ) (tags : Option (List (ℕ × ℤ))) (p : P)
      → ops.prioritized id (ops.set_boosts owner tags p) ≡ ops.prioritized id p
