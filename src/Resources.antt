-- ===== src/Resources.antt =====
-- src/backend/task_infra/task_resources.js: which tasks wait for a resource, and which are ready.
pub mod Ready
pub mod Lists
pub mod Filed
pub mod Owning
pub mod Runs
pub mod Tracked
pub mod Queued
mod Tests
use gaia_email_libs_and_more.Common.{
  ℕ, zero, suc, ◌+◌, Bool, true, false, not, ◌||◌, ◌==◌, if◌then◌else◌, Option, none, some, List,
  [], ◌∷◌, ◌++◌, has, add, delete, get, put, erase, for_each,
}
use gaia_email_libs_and_more.Priorities.{Thing, has_thing, Priorities}

-- `timers` are the calls of `setTimeout` that are outstanding, with the resource of each. A thing in
-- a list or a map is told by its id.
pub record Resources (P : Type 0) : Type 0 where
  pub available : List ℕ
  pub blocked_by_resource : List (ℕ × List Thing)
  pub blocked_by_id : List (ℕ × Thing)
  pub resource_timeouts : List (ℕ × ℕ)
  pub timers : List (ℕ × ℕ)
  pub next_timer : ℕ
  pub priorities : P

-- The first resource of the list that is not available.
unfoldable pub first_missing : List ℕ → List ℕ → Option ℕ
first_missing [] available = none
first_missing (resource_id ∷ rest) available =
    let later = first_missing rest available in
    if not (has resource_id available) then some resource_id else later

-- `blockedThings.splice(idx, 1)`, for the index of the thing.
unfoldable pub splice_thing : ℕ → List Thing → List Thing
splice_thing id [] = []
splice_thing id (t ∷ ts) = let rest = splice_thing id ts in if t.id == id then ts else t ∷ rest

abbrev pub put_unless_empty : ℕ → List Thing → List (ℕ × List Thing) → List (ℕ × List Thing)
put_unless_empty resource_id [] rest = rest
put_unless_empty resource_id (t ∷ ts) rest = (resource_id, t ∷ ts) ∷ rest

-- The loop of `removeTaskThing`: it ends with the first list that has the thing.
unfoldable pub unblock : ℕ → List (ℕ × List Thing) → List (ℕ × List Thing)
unblock id [] = []
unblock id ((resource_id, things) ∷ rest) =
    let later = unblock id rest in
    if has_thing id things
    then put_unless_empty resource_id (splice_thing id things) rest
    else (resource_id, things) ∷ later

-- The thing is pushed onto the list of the resource, which may be new.
unfoldable pub file_under : ℕ → Thing → List (ℕ × List Thing) → List (ℕ × List Thing)
file_under resource_id t lists = elim (get resource_id lists) [
  | none ↦ put resource_id (t ∷ []) lists
  | some things ↦ put resource_id (things ++ t ∷ []) lists
]

-- Whether the thing needs one of the resources.
unfoldable pub needs_one_of : List ℕ → List ℕ → Bool
needs_one_of removed [] = false
needs_one_of removed (resource_id ∷ rest) =
    let later = needs_one_of removed rest in if has resource_id removed then true else later

-- The first loop of `resourcesNoLongerAvailable`, with `removedCount`.
unfoldable pub take_away : ℕ × List ℕ → ℕ → ℕ × List ℕ
take_away (removed_count, available) resource_id =
    if has resource_id available
    then (removed_count + 1, delete resource_id available)
    else (removed_count, available)

-- The resources of a list that are not available.
unfoldable pub missing : List ℕ → List ℕ → List ℕ
missing [] available = []
missing (resource_id ∷ rest) available =
    let later = missing rest available in
    if not (has resource_id available) then resource_id ∷ later else later

module _ {P : Type 0} where
  -- `_clearResourceTimeouts`; `none` is an argument that is not given.
  unfoldable pub clear_resource_timeouts : Option ℕ → Resources P → Resources P
  clear_resource_timeouts none s = s
  clear_resource_timeouts (some resource_id) s = elim (get resource_id s.resource_timeouts) [
    | none ↦ s
    | some timer ↦ record s {
      timers = erase timer s.timers;
      resource_timeouts = erase resource_id s.resource_timeouts;
    }
  ]

  -- `restoreResourceAfterTimeout`: it clears no timeout, as it names none.
  unfoldable pub restore_resource_after_timeout : ℕ → Resources P → Resources P
  restore_resource_after_timeout resource_id s =
      let s₁ = clear_resource_timeouts none s in
      record s₁ {
        timers = put s₁.next_timer resource_id s₁.timers;
        next_timer = s₁.next_timer + 1;
        resource_timeouts = put resource_id s₁.next_timer s₁.resource_timeouts;
      }

  unfoldable pub what_is_task_blocked_by : ℕ → Resources P → Option (List ℕ)
  what_is_task_blocked_by id s = elim (get id s.blocked_by_id) [
    | none ↦ none
    | some t ↦ some (missing t.resources s.available)
  ]

module _ {P : Type 0} (ops : Priorities P) where
  unfoldable pub remove_task_thing : ℕ → Resources P → Resources P
  remove_task_thing id s = elim (get id s.blocked_by_id) [
    | none ↦ record s { priorities = ops.remove id s.priorities }
    | some t ↦ record s {
      blocked_by_id = erase id s.blocked_by_id;
      blocked_by_resource = unblock id s.blocked_by_resource;
    }
  ]

  -- The first lines of `ownOrRelayTaskThing`.
  unfoldable pub forget_blocked : ℕ → Resources P → Resources P
  forget_blocked id s = elim (get id s.blocked_by_id) [ none ↦ s | some t ↦ remove_task_thing id s ]

  -- `ownOrRelayTaskThing`: whether the thing was prioritized.
  unfoldable pub own_or_relay_task_thing : Thing → Resources P → Bool × Resources P
  own_or_relay_task_thing t s =
      let s₁ = forget_blocked t.id s in
      elim (first_missing t.resources s₁.available) [
        | none ↦ (true, record s₁ { priorities = ops.prioritize t s₁.priorities })
        | some resource_id ↦ (
          false,
          record s₁ {
            priorities = ops.remove t.id s₁.priorities;
            blocked_by_id = put t.id t s₁.blocked_by_id;
            blocked_by_resource = file_under resource_id t s₁.blocked_by_resource;
          },
        )
      ]

  -- The body of the loop of `resourceAvailable`, with the number of things prioritized.
  unfoldable pub refile : ℕ × Resources P → Thing → ℕ × Resources P
  refile (prioritized, s) t =
      let (relayed, s') =
        own_or_relay_task_thing t (record s { blocked_by_id = erase t.id s.blocked_by_id }) in
      (if relayed then prioritized + 1 else prioritized, s')

  unfoldable pub resource_available : ℕ → Resources P → ℕ × Resources P
  resource_available resource_id s =
      let s₁ =
        clear_resource_timeouts (some resource_id)
          (record s { available = add resource_id s.available }) in
      if has resource_id s.available
      then (0, s)
      else elim (get resource_id s₁.blocked_by_resource) [
        | none ↦ (0, s₁)
        | some things ↦
            for_each refile
              (0, record s₁ { blocked_by_resource = erase resource_id s₁.blocked_by_resource })
              things
      ]

  -- The last loop.
  unfoldable pub own_all : Resources P → List Thing → Resources P
  own_all s things =
      for_each (λ (s : Resources P) (t : Thing). (own_or_relay_task_thing t s).1) s things

  unfoldable pub resources_no_longer_available : List ℕ → Resources P → Resources P
  resources_no_longer_available removed s =
      let (removed_count, available) = for_each take_away (0, s.available) removed in
      let (now_blocked, left) =
        ops.remove_using_filter (λ (t : Thing). needs_one_of removed t.resources) s.priorities in
      if removed_count == 0
      then s
      else own_all (record s { available = available; priorities = left }) now_blocked

  -- A timer fires.
  unfoldable pub timer_fires : ℕ → Resources P → Resources P
  timer_fires timer s = elim (get timer s.timers) [
    | none ↦ s
    | some resource_id ↦
        (resource_available resource_id (record s { timers = erase timer s.timers })).1
  ]
