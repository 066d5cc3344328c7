-- ===== src/Resources/Ready.antt =====
-- A prioritized task has its resources, and no task is both prioritized and blocked.
use gaia_email_libs_and_more.Common.{
  ℕ, ◌+◌, ◌≡◌, refl, Bool, false, not, ◌&&◌, ◌==◌, none, some, List, [], ◌∷◌, has, has-add,
  has-delete, add, delete, get, erase, get-put, get-erase, for_each, arith, Option-cases,
  Bool-cases, inl, inr,
}
use gaia_email_libs_and_more.Priorities.{Thing, Priorities, IsPriorities}
use gaia_email_libs_and_more.Resources.{
  Resources, first_missing, needs_one_of, remove_task_thing, forget_blocked,
  own_or_relay_task_thing, clear_resource_timeouts, refile, resource_available, take_away, own_all,
  resources_no_longer_available,
}

first_missing-add :
    (r : ℕ) (rs available : List ℕ)
    → first_missing rs available ≡ none
    → first_missing rs (add r available) ≡ none
unfolding first_missing
first_missing-add r [] available h = refl
first_missing-add r (x ∷ rs) available h =
    ground (arith, h, first_missing-add r rs available, has-add x r available)

-- A thing that needs none of what is taken away has all its resources still.
first_missing-less :
    (rs removed available available' : List ℕ)
    → ((r : ℕ) → has r available' ≡ (has r available && not (has r removed)))
    → first_missing rs available ≡ none
    → needs_one_of removed rs ≡ false
    → first_missing rs available' ≡ none
unfolding first_missing needs_one_of
first_missing-less [] removed available available' less h k = refl
first_missing-less (x ∷ rs) removed available available' less h k =
    ground (arith, h, k, less x, first_missing-less rs removed available available' less)

pub has-take_away :
    (r n : ℕ) (removed available : List ℕ)
    → has r (for_each take_away (n, available) removed).1 ≡ (has r available && not (has r removed))
unfolding for_each take_away has
has-take_away r n [] available = ground arith
has-take_away r n (x ∷ removed) available = ground (
  arith,
  has-take_away r (n + 1) removed (delete x available),
  has-take_away r n removed available,
  has-delete r x available,
)

module _ {P : Type 0} (ops : Priorities P) (laws : IsPriorities ops) where
  pub record IsReady (s : Resources P) : Type 0 where
    pub ready :
        (id : ℕ) (t : Thing)
        → ops.prioritized id s.priorities ≡ some t
        → first_missing t.resources s.available ≡ none
    pub waiting :
        (id : ℕ) (t : Thing)
        → get id s.blocked_by_id ≡ some t
        → (t.id ≡ id) × (ops.prioritized id s.priorities ≡ none)

  pub remove_task_thing-IsReady :
      (id : ℕ) (s : Resources P) → IsReady s → IsReady (remove_task_thing ops id s)
  unfolding remove_task_thing
  remove_task_thing-IsReady id s h = record {
    ready = λ x t e. ground (arith, laws.after_remove x id s.priorities, h.ready x t);
    waiting = λ x t e.
        ground (
          arith,
          laws.after_remove x id s.priorities,
          get-erase x id s.blocked_by_id,
          h.waiting x t,
        );
  }

  forget_blocked-IsReady :
      (id : ℕ) (s : Resources P)
      → IsReady s
      → IsReady (forget_blocked ops id s)
        × (get id (forget_blocked ops id s).blocked_by_id ≡ none)
        × ((forget_blocked ops id s).available ≡ s.available)
  unfolding forget_blocked remove_task_thing
  forget_blocked-IsReady id s h = elim (Option-cases (get id s.blocked_by_id)) [
    | inl absent ↦ rw (forget_blocked, absent) (h, absent, refl)
    | inr (t, present) ↦ (
      rw (forget_blocked, present) (remove_task_thing-IsReady id s h),
      ground (arith, present, get-erase id id s.blocked_by_id),
      ground (arith, present),
    )
  ]

  pub own_or_relay_task_thing-IsReady :
      (t : Thing) (s : Resources P) → IsReady s → IsReady (own_or_relay_task_thing ops t s).1
  unfolding own_or_relay_task_thing
  own_or_relay_task_thing-IsReady t s h =
      let s₁ = forget_blocked ops t.id s in
      let (h₁, gone, same) = forget_blocked-IsReady t.id s h in
      elim (Option-cases (first_missing t.resources s₁.available)) [
        | inl all ↦
            rw (own_or_relay_task_thing, all)
              (record {
                ready = λ x u e.
                    ground (arith, all, laws.after_prioritize x t s₁.priorities, h₁.ready x u);
                waiting = λ x u e.
                    ground (arith, gone, laws.after_prioritize x t s₁.priorities, h₁.waiting x u);
              })
        | inr (r, lacks) ↦
            rw (own_or_relay_task_thing, lacks)
              (record {
                ready =
                    λ x u e. ground (arith, laws.after_remove x t.id s₁.priorities, h₁.ready x u);
                waiting = λ x u e. ground (
                  arith,
                  laws.after_remove x t.id s₁.priorities,
                  get-put x t.id t s₁.blocked_by_id,
                  h₁.waiting x u,
                );
              })
      ]

  -- The other helpers keep it: what is prioritized and blocked stays, or less is blocked.
  less_blocked :
      (id : ℕ) (s : Resources P)
      → IsReady s
      → IsReady (record s { blocked_by_id = erase id s.blocked_by_id })
  less_blocked id s h = record {
    ready = h.ready;
    waiting = λ x t e. h.waiting x t (ground (arith, e, get-erase x id s.blocked_by_id));
  }

  refile_all-IsReady :
      (things : List Thing) (n : ℕ) (s : Resources P)
      → IsReady s
      → IsReady (for_each (refile ops) (n, s) things).1
  unfolding for_each refile
  refile_all-IsReady [] n s h = h
  refile_all-IsReady (t ∷ things) n s h = refile_all-IsReady things _ _ (
      own_or_relay_task_thing-IsReady t (record s { blocked_by_id = erase t.id s.blocked_by_id })
        (less_blocked t.id s h))

  own_all-IsReady :
      (things : List Thing) (s : Resources P) → IsReady s → IsReady (own_all ops s things)
  unfolding own_all for_each
  own_all-IsReady [] s h = h
  own_all-IsReady (t ∷ things) s h =
      own_all-IsReady things _ (own_or_relay_task_thing-IsReady t s h)

  cleared-IsReady :
      (r : ℕ) (s : Resources P)
      → IsReady s
      → IsReady (clear_resource_timeouts (some r) (record s { available = add r s.available }))
  unfolding clear_resource_timeouts
  cleared-IsReady r s h =
      let more : IsReady (record s { available = add r s.available }) = record {
        ready = λ x t e. first_missing-add r t.resources s.available (h.ready x t e);
        waiting = h.waiting;
      } in
      elim (Option-cases (get r s.resource_timeouts)) [
        | inl unset ↦ rw (clear_resource_timeouts, unset) more
        | inr (timer, set) ↦
            rw (clear_resource_timeouts, set)
              (record { ready = more.ready; waiting = more.waiting })
      ]

  pub resource_available-IsReady :
      (r : ℕ) (s : Resources P) → IsReady s → IsReady (resource_available ops r s).1
  unfolding resource_available
  resource_available-IsReady r s h =
      let s₁ = clear_resource_timeouts (some r) (record s { available = add r s.available }) in
      let h₁ = cleared-IsReady r s h in
      elim (Bool-cases (has r s.available)) [
        | inl already ↦ rw already h
        | inr fresh ↦ elim (Option-cases (get r s₁.blocked_by_resource)) [
          | inl unfiled ↦ rw (resource_available, fresh, unfiled) h₁
          | inr (things, filed) ↦
              rw (resource_available, fresh, filed)
                (refile_all-IsReady things 0 _ (record { ready = h₁.ready; waiting = h₁.waiting }))
        ]
      ]

  pub resources_no_longer_available-IsReady :
      (removed : List ℕ) (s : Resources P)
      → IsReady s
      → IsReady (resources_no_longer_available ops removed s)
  unfolding resources_no_longer_available
  resources_no_longer_available-IsReady removed s h =
      let available = (for_each take_away (0, s.available) removed).1 in
      let test : Thing → Bool = λ (t : Thing). needs_one_of removed t.resources in
      let left = (ops.remove_using_filter test s.priorities).1 in
      let less : IsReady (record s { available = available; priorities = left }) = record {
        ready = λ x t e.
            first_missing-less t.resources removed s.available available
              (λ r. has-take_away r 0 removed s.available)
              (h.ready x t (ground (arith, e, laws.after_filter x test s.priorities)))
              (ground (arith, e, laws.after_filter x test s.priorities));
        waiting = λ x t e. ground (arith, laws.after_filter x test s.priorities, h.waiting x t e);
      } in
      elim (Bool-cases ((for_each take_away (0, s.available) removed).0 == 0)) [
        | inl nothing ↦ rw nothing h
        | inr some_gone ↦ rw some_gone (own_all-IsReady _ _ less)
      ]
