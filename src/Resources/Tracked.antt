-- ===== src/Resources/Tracked.antt =====
-- No task is lost, and none is invented, when resources come and go.
use gaia_email_libs_and_more.Common.{
  ℕ, ◌+◌, ◌≡◌, refl, sym, Bool, true, false, ◌||◌, ◌==◌, if◌then◌else◌, Option, none, some, List,
  [], ◌∷◌, has, add, get, erase, get-put, get-erase, for_each, arith, All, Option-cases, Bool-cases,
  inl, inr,
}
use gaia_email_libs_and_more.Priorities.{Thing, has_thing, Priorities, IsPriorities}
use gaia_email_libs_and_more.Resources.{
  Resources, needs_one_of, remove_task_thing, forget_blocked, own_or_relay_task_thing, refile,
  resource_available, take_away, own_all, resources_no_longer_available,
}
use gaia_email_libs_and_more.Resources.Lists.{Everywhere-get}
use gaia_email_libs_and_more.Resources.Filed.{IsHeld, IsFiledBut}
use gaia_email_libs_and_more.Resources.Runs.{Event, happen, start, cleared, run-keeps, start-keeps}

abbrev pub is_there : Option Thing → Bool
is_there none = false
is_there (some t) = true

module _ {P : Type 0} (ops : Priorities P) where
  -- A task is prioritized or blocked.
  abbrev pub is_tracked : ℕ → Resources P → Bool
  is_tracked id s = is_there (ops.prioritized id s.priorities) || is_there (get id s.blocked_by_id)

  module _ (laws : IsPriorities ops) where
    is_tracked-own :
        (id : ℕ) (t : Thing) (s : Resources P)
        → is_tracked id (own_or_relay_task_thing ops t s).1 ≡ (t.id == id || is_tracked id s)
    unfolding own_or_relay_task_thing forget_blocked remove_task_thing
    is_tracked-own id t s = elim (Option-cases (get t.id s.blocked_by_id)) [
      | inl absent ↦ ground (
        arith,
        absent,
        laws.after_prioritize id t s.priorities,
        laws.after_remove id t.id s.priorities,
        get-put id t.id t s.blocked_by_id,
      )
      | inr (u, present) ↦ ground (
        arith,
        present,
        laws.after_prioritize id t s.priorities,
        laws.after_remove id t.id s.priorities,
        get-put id t.id t (erase t.id s.blocked_by_id),
        get-erase id t.id s.blocked_by_id,
      )
    ]

    is_tracked-own_all :
        (id : ℕ) (things : List Thing) (s : Resources P)
        → is_tracked id (own_all ops s things) ≡ (has_thing id things || is_tracked id s)
    unfolding own_all for_each
    is_tracked-own_all id [] s = refl
    is_tracked-own_all id (t ∷ things) s = ground (
      arith,
      is_tracked-own id t s,
      is_tracked-own_all id things (own_or_relay_task_thing ops t s).1,
    )

    is_tracked-refile_all :
        (id n : ℕ) (things : List Thing) (s : Resources P)
        → is_tracked id (for_each (refile ops) (n, s) things).1
          ≡ (has_thing id things || is_tracked id s)
    unfolding refile for_each
    is_tracked-refile_all id n [] s = refl
    is_tracked-refile_all id n (t ∷ things) s =
        let taken : Resources P = record s { blocked_by_id = erase t.id s.blocked_by_id } in
        ground (
          arith,
          is_tracked-own id t taken,
          get-erase id t.id s.blocked_by_id,
          is_tracked-refile_all id (if (own_or_relay_task_thing ops t taken).0 then n + 1 else n)
              things (own_or_relay_task_thing ops t taken).1,
        )

    held-is_tracked :
        (id : ℕ) (things : List Thing) (s : Resources P)
        → All (IsHeld s.blocked_by_id) things
        → has_thing id things ≡ true
        → is_tracked id s ≡ true
    held-is_tracked id [] s h e = cc
    held-is_tracked id (t ∷ things) s h e = elim (Bool-cases (t.id == id)) [
      | inl here ↦
          let same : t.id ≡ id = ground arith in
          let held : get id s.blocked_by_id ≡ some t = rw (sym same) h.0 in ground (arith, held)
      | inr other ↦ held-is_tracked id things s h.1 (ground (arith, other, e))
    ]

    -- When a resource comes, exactly the tasks that were prioritized or blocked are so afterwards.
    is_tracked-resource_available :
        (id r : ℕ) (s : Resources P)
        → IsFiledBut [] s
        → is_tracked id (resource_available ops r s).1 ≡ is_tracked id s
    unfolding resource_available
    is_tracked-resource_available id r s h =
        let (timers, timeouts, same) = cleared ops r (record s { available = add r s.available }) in
        elim (Bool-cases (has r s.available)) [
          | inl already ↦ rw already refl
          | inr fresh ↦ elim (Option-cases (get r s.blocked_by_resource)) [
            | inl unused ↦ rw (resource_available, fresh, same, unused, same) refl
            | inr (things, used) ↦
                let held =
                  Everywhere-get (IsHeld s.blocked_by_id) r things s.blocked_by_resource h.held
                    used in
                rw
                  (resource_available, fresh, same, used, same, is_tracked-refile_all id 0 things _)
                  (ground (arith, held-is_tracked id things s held))
          ]
        ]

    -- When resources go likewise.
    is_tracked-resources_no_longer_available :
        (id : ℕ) (rs : List ℕ) (s : Resources P)
        → is_tracked id (resources_no_longer_available ops rs s) ≡ is_tracked id s
    unfolding resources_no_longer_available
    is_tracked-resources_no_longer_available id rs s =
        let available = (for_each take_away (0, s.available) rs).1 in
        let test : Thing → Bool = λ (t : Thing). needs_one_of rs t.resources in
        let filtered = ops.remove_using_filter test s.priorities in
        let after : Resources P = record s { available = available; priorities = filtered.1 } in
        elim (Bool-cases ((for_each take_away (0, s.available) rs).0 == 0)) [
          | inl nothing ↦ rw nothing refl
          | inr some_gone ↦
              rw (some_gone, is_tracked-own_all id filtered.0 after)
                (ground (
                  arith,
                  laws.filtered id test s.priorities,
                  laws.after_filter id test s.priorities,
                ))
        ]

    -- Whatever has happened from the start: when a resource comes or some go, exactly the tasks are
    -- prioritized or blocked afterwards that were before.
    pub run-tracked :
        (p : P) (events : List Event)
        → ((id : ℕ) → ops.prioritized id p ≡ none)
        → (id r : ℕ) (rs : List ℕ)
        → (is_tracked id (resource_available ops r (for_each (happen ops) (start ops p) events)).1
            ≡ is_tracked id (for_each (happen ops) (start ops p) events))
          × (is_tracked id
                (resources_no_longer_available ops rs (for_each (happen ops) (start ops p) events))
              ≡ is_tracked id (for_each (happen ops) (start ops p) events))
    run-tracked p events empty id r rs =
        let (h, k) = start-keeps ops laws p empty in
        let s = for_each (happen ops) (start ops p) events in
        (
          is_tracked-resource_available id r s (run-keeps ops laws events (start ops p) h k).1,
          is_tracked-resources_no_longer_available id rs s,
        )
