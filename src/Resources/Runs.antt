-- ===== src/Resources/Runs.antt =====
-- Runs of everything that happens to the tasks and the resources.
use gaia_email_libs_and_more.Common.{
  Option, ℤ, ℕ, ◌≡◌, refl, ◌==◌, none, some, List, [], ◌∷◌, has, add, get, erase, for_each, arith,
  Option-cases, Bool-cases, inl, inr,
}
use gaia_email_libs_and_more.Priorities.{Thing, Priorities, IsPriorities}
use gaia_email_libs_and_more.Resources.{
  Resources, first_missing, remove_task_thing, own_or_relay_task_thing, clear_resource_timeouts,
  resource_available, take_away, resources_no_longer_available, restore_resource_after_timeout,
  timer_fires, needs_one_of,
}
use gaia_email_libs_and_more.Resources.Ready.{
  IsReady, has-take_away, remove_task_thing-IsReady, own_or_relay_task_thing-IsReady,
  resource_available-IsReady, resources_no_longer_available-IsReady,
}
use gaia_email_libs_and_more.Resources.Filed.{IsFiledBut, IsLacking}
use gaia_email_libs_and_more.Resources.Owning.{
  own_or_relay_task_thing-IsFiledBut, remove_task_thing-IsFiledBut, refile_all-IsFiled,
  own_all-IsFiled, come, come_unused,
}

-- What happens: a task is planned or updated, removed, or taken for execution; boosts are set; a resource comes, or
-- some go; a resource is to be restored; a timer fires.
pub data Event : Type 0 where
  owned : Thing → Event
  removed arrives restored fires : ℕ → Event
  popped : Event
  boosted : ℕ → Option (List (ℕ × ℤ)) → Event
  vanish : List ℕ → Event

module _ {P : Type 0} (ops : Priorities P) where
  unfoldable pub happen : Resources P → Event → Resources P
  happen s (owned t) = (own_or_relay_task_thing ops t s).1
  happen s (removed id) = remove_task_thing ops id s
  happen s popped = record s { priorities = (ops.pop s.priorities).1 }
  happen s (boosted owner tags) = record s { priorities = ops.set_boosts owner tags s.priorities }
  happen s (arrives r) = (resource_available ops r s).1
  happen s (restored r) = restore_resource_after_timeout r s
  happen s (fires timer) = timer_fires ops timer s
  happen s (vanish rs) = resources_no_longer_available ops rs s

  abbrev pub start : P → Resources P
  start p = record {
    available = [];
    blocked_by_resource = [];
    blocked_by_id = [];
    resource_timeouts = [];
    timers = [];
    next_timer = 0;
    priorities = p;
  }

  -- To clear a timeout is to change the timers alone.
  pub cleared :
      (r : ℕ) (s : Resources P)
      → (timers timeouts : List (ℕ × ℕ)) × (clear_resource_timeouts (some r) s
          ≡ record s { timers = timers; resource_timeouts = timeouts })
  unfolding clear_resource_timeouts
  cleared r s = elim (Option-cases (get r s.resource_timeouts)) [
    | inl unset ↦ (s.timers, s.resource_timeouts, rw (clear_resource_timeouts, unset) refl)
    | inr (timer, set) ↦
        (erase timer s.timers, erase r s.resource_timeouts, rw (clear_resource_timeouts, set) refl)
  ]

  resource_available-IsFiled :
      (r : ℕ) (s : Resources P) → IsFiledBut [] s → IsFiledBut [] (resource_available ops r s).1
  unfolding resource_available
  resource_available-IsFiled r s h =
      let (timers, timeouts, same) = cleared r (record s { available = add r s.available }) in
      elim (Bool-cases (has r s.available)) [
        | inl already ↦ rw already h
        | inr fresh ↦ elim (Option-cases (get r s.blocked_by_resource)) [
          | inl unused ↦
              let h' = come_unused ops r s h unused in
              rw (resource_available, fresh, same, unused, same)
                (record { filed = h'.filed; once = h'.once; held = h'.held; left_held = tt })
          | inr (things, used) ↦
              let h' = come ops r things s h used in
              rw (resource_available, fresh, same, used, same)
                (refile_all-IsFiled ops things 0 _ (record {
                  filed = h'.filed;
                  once = h'.once;
                  held = h'.held;
                  left_held = h'.left_held;
                }))
        ]
      ]

  resources_no_longer_available-IsFiled :
      (rs : List ℕ) (s : Resources P)
      → IsFiledBut [] s
      → IsFiledBut [] (resources_no_longer_available ops rs s)
  unfolding resources_no_longer_available
  resources_no_longer_available-IsFiled rs s h =
      let available = (for_each take_away (0, s.available) rs).1 in
      let left =
        (ops.remove_using_filter (λ (t : Thing). needs_one_of rs t.resources) s.priorities).1 in
      let less : IsFiledBut [] (record s { available = available; priorities = left }) = record {
        filed = λ id u e k.
            let (q, needs, absent, under) = h.filed id u e k in
            (q, needs, ground (arith, absent, has-take_away q 0 rs s.available), under);
        once = h.once;
        held = h.held;
        left_held = tt;
      } in
      elim (Bool-cases ((for_each take_away (0, s.available) rs).0 == 0)) [
        | inl nothing ↦ rw nothing h
        | inr some_gone ↦ rw some_gone (own_all-IsFiled ops _ _ less)
      ]

  module _ (laws : IsPriorities ops) where
    timer_fires-keeps :
        (timer : ℕ) (s : Resources P)
        → IsReady ops laws s
        → IsFiledBut [] s
        → IsReady ops laws (timer_fires ops timer s) × IsFiledBut [] (timer_fires ops timer s)
    unfolding timer_fires
    timer_fires-keeps timer s h k = elim (Option-cases (get timer s.timers)) [
      | inl idle ↦ rw (timer_fires, idle) (h, k)
      | inr (r, set) ↦
          rw (timer_fires, set)
            (
              resource_available-IsReady ops laws r _
                  (record { ready = h.ready; waiting = h.waiting }),
              resource_available-IsFiled r _
                  (record { filed = k.filed; once = k.once; held = k.held; left_held = tt }),
            )
    ]

    happen-keeps :
        (e : Event) (s : Resources P)
        → IsReady ops laws s
        → IsFiledBut [] s
        → IsReady ops laws (happen s e) × IsFiledBut [] (happen s e)
    unfolding happen restore_resource_after_timeout clear_resource_timeouts
    happen-keeps (owned t) s h k = (
      own_or_relay_task_thing-IsReady ops laws t s h,
      (own_or_relay_task_thing-IsFiledBut ops [] t s k refl).0,
    )
    happen-keeps (removed id) s h k = (
      remove_task_thing-IsReady ops laws id s h,
      (remove_task_thing-IsFiledBut ops [] id s k refl).0,
    )
    happen-keeps popped s h k = (
      record {
        ready = λ x t e. h.ready x t (ground (arith, e, laws.after_pop x s.priorities));
        waiting = λ x t e. ground (arith, laws.after_pop x s.priorities, h.waiting x t e);
      },
      record { filed = k.filed; once = k.once; held = k.held; left_held = tt },
    )
    happen-keeps (boosted owner tags) s h k = (
      record {
        ready = λ x t e.
            h.ready x t (ground (arith, e, laws.after_set_boosts x owner tags s.priorities));
        waiting = λ x t e.
            ground (arith, laws.after_set_boosts x owner tags s.priorities, h.waiting x t e);
      },
      record { filed = k.filed; once = k.once; held = k.held; left_held = tt },
    )
    happen-keeps (arrives r) s h k =
        (resource_available-IsReady ops laws r s h, resource_available-IsFiled r s k)
    happen-keeps (restored r) s h k = (
      record { ready = h.ready; waiting = h.waiting },
      record { filed = k.filed; once = k.once; held = k.held; left_held = tt },
    )
    happen-keeps (fires timer) s h k = timer_fires-keeps timer s h k
    happen-keeps (vanish rs) s h k = (
      resources_no_longer_available-IsReady ops laws rs s h,
      resources_no_longer_available-IsFiled rs s k,
    )

    pub run-keeps :
        (events : List Event) (s : Resources P)
        → IsReady ops laws s
        → IsFiledBut [] s
        → IsReady ops laws (for_each happen s events) × IsFiledBut [] (for_each happen s events)
    unfolding for_each
    run-keeps [] s h k = (h, k)
    run-keeps (e ∷ events) s h k =
        let (h', k') = happen-keeps e s h k in run-keeps events (happen s e) h' k'

    pub start-keeps :
        (p : P)
        → ((id : ℕ) → ops.prioritized id p ≡ none)
        → IsReady ops laws (start p) × IsFiledBut [] (start p)
    unfolding get
    start-keeps p empty = (
      record { ready = λ id t e. ground (arith, e, empty id); waiting = λ id t e. cc },
      record { filed = λ id t e k. cc; once = λ id. omega arith; held = tt; left_held = tt },
    )

    -- Whatever happens to tasks and resources from the start: a task that is prioritized has all the
    -- resources that it needs.
    pub run-ready :
        (p : P) (events : List Event)
        → ((id : ℕ) → ops.prioritized id p ≡ none)
        → (id : ℕ) (t : Thing)
        → ops.prioritized id (for_each happen (start p) events).priorities ≡ some t
        → first_missing t.resources (for_each happen (start p) events).available ≡ none
    run-ready p events empty id t e =
        let (h, k) = start-keeps p empty in (run-keeps events (start p) h k).0.ready id t e

    -- Whatever happens to tasks and resources from the start: a task that is blocked is not
    -- prioritized, and it is filed under a resource that it needs and that is not available.
    pub run-blocked :
        (p : P) (events : List Event)
        → ((id : ℕ) → ops.prioritized id p ≡ none)
        → (id : ℕ) (t : Thing) → get id (for_each happen (start p) events).blocked_by_id ≡ some t
        → (ops.prioritized id (for_each happen (start p) events).priorities ≡ none)
          × IsLacking
              (for_each happen (start p) events).available
              (for_each happen (start p) events).blocked_by_resource
              t
              id
    run-blocked p events empty id t e =
        let (h, k) = start-keeps p empty in
        let (h', k') = run-keeps events (start p) h k in
        ((h'.waiting id t e).1, k'.filed id t e refl)
