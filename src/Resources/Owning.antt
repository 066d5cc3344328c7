-- ===== src/Resources/Owning.antt =====
-- Blocked things stay filed when a task is owned, and when resources come and go.
use gaia_email_libs_and_more.Common.{
  ℕ, ◌+◌, ◌≡◌, ◌≢◌, refl, sym, ◌==◌, none, some, List, [], ◌∷◌, has-add, add, get, put, erase,
  get-put, get-erase, for_each, arith, Option-cases, Bool-cases, inl, inr,
}
use gaia_email_libs_and_more.Priorities.{Thing, Priorities}
use gaia_email_libs_and_more.Resources.{
  Resources, first_missing, unblock, remove_task_thing, forget_blocked, own_or_relay_task_thing,
  refile, own_all,
}
use gaia_email_libs_and_more.Resources.Lists.{
  count, total, total-unblock, is_under-unblock, Everywhere-unblock, Everywhere-erase,
  Everywhere-get, Everywhere-file_under, total-file_under, is_under-file_under, total-erase,
}
use gaia_email_libs_and_more.Resources.Filed.{
  first_missing-some, IsHeld, IsFiledBut, All-IsHeld-put, All-IsHeld-erase, Everywhere-IsHeld-put,
  Everywhere-IsHeld-erase,
}

module _ {P : Type 0} (ops : Priorities P) (left : List Thing) where
  -- A thing that is not left to be filed can be removed, and is then listed nowhere.
  pub remove_task_thing-IsFiledBut :
      (x : ℕ) (s : Resources P)
      → IsFiledBut left s
      → count x left ≡ 0
      → IsFiledBut left (remove_task_thing ops x s)
        × (get x (remove_task_thing ops x s).blocked_by_id ≡ none)
        × ((remove_task_thing ops x s).available ≡ s.available)
  unfolding remove_task_thing
  remove_task_thing-IsFiledBut x s h z = elim (Option-cases (get x s.blocked_by_id)) [
    | inl absent ↦
        rw (remove_task_thing, absent)
          (
            record { filed = h.filed; once = h.once; held = h.held; left_held = h.left_held },
            absent,
            refl,
          )
    | inr (t, present) ↦
        rw (remove_task_thing, present)
          (
            record {
              filed = λ id u e k.
                  let other : id ≢ x = λ same. ground (arith, e, get-erase id x s.blocked_by_id) in
                  let was : get id s.blocked_by_id ≡ some u =
                    ground (arith, e, get-erase id x s.blocked_by_id) in
                  let (r, needs, lacks, under) = h.filed id u was k in
                  (r, needs, lacks, is_under-unblock r id x s.blocked_by_resource other under);
              once = λ id. ground (
                arith,
                h.once id,
                h.once x,
                present,
                z,
                total-unblock id x s.blocked_by_resource,
                get-erase id x s.blocked_by_id,
              );
              held =
                  Everywhere-IsHeld-erase x s.blocked_by_id (unblock x s.blocked_by_resource)
                    (ground (arith, h.once x, present, total-unblock x x s.blocked_by_resource))
                    (Everywhere-unblock (IsHeld s.blocked_by_id) x s.blocked_by_resource h.held);
              left_held = All-IsHeld-erase x s.blocked_by_id left z h.left_held;
            },
            ground (arith, get-erase x x s.blocked_by_id),
            refl,
          )
  ]

  forget_blocked-IsFiledBut :
      (x : ℕ) (s : Resources P)
      → IsFiledBut left s
      → count x left ≡ 0
      → IsFiledBut left (forget_blocked ops x s)
        × (get x (forget_blocked ops x s).blocked_by_id ≡ none)
        × ((forget_blocked ops x s).available ≡ s.available)
  unfolding forget_blocked
  forget_blocked-IsFiledBut x s h z = elim (Option-cases (get x s.blocked_by_id)) [
    | inl absent ↦ rw (forget_blocked, absent) (h, absent, refl)
    | inr (t, present) ↦ rw (forget_blocked, present) (remove_task_thing-IsFiledBut x s h z)
  ]

  pub own_or_relay_task_thing-IsFiledBut :
      (t : Thing) (s : Resources P)
      → IsFiledBut left s
      → count t.id left ≡ 0
      → IsFiledBut left (own_or_relay_task_thing ops t s).1
        × ((own_or_relay_task_thing ops t s).1.available ≡ s.available)
  unfolding own_or_relay_task_thing
  own_or_relay_task_thing-IsFiledBut t s h z =
      let s₁ = forget_blocked ops t.id s in
      let (h₁, gone, same) = forget_blocked-IsFiledBut t.id s h z in
      let unlisted : total t.id s₁.blocked_by_resource ≡ 0 = ground (arith, h₁.once t.id, gone) in
      elim (Option-cases (first_missing t.resources s₁.available)) [
        | inl all ↦
            rw (own_or_relay_task_thing, all)
              (
                record {
                  filed = h₁.filed;
                  once = h₁.once;
                  held = h₁.held;
                  left_held = h₁.left_held;
                },
                same,
              )
        | inr (r, lacks) ↦
            rw (own_or_relay_task_thing, lacks)
              (
                record {
                  filed = λ id u e k. elim (Bool-cases (t.id == id)) [
                    | inl here ↦
                        let same_thing : t ≡ u =
                          ground (arith, e, here, get-put id t.id t s₁.blocked_by_id) in
                        let (needs, absent) = first_missing-some r t.resources s₁.available lacks in
                        (
                          r,
                          rw (sym same_thing) needs,
                          absent,
                          ground (arith, here, is_under-file_under r id r t s₁.blocked_by_resource),
                        )
                    | inr other ↦
                        let was : get id s₁.blocked_by_id ≡ some u =
                          ground (arith, e, other, get-put id t.id t s₁.blocked_by_id) in
                        let (q, needs, absent, under) = h₁.filed id u was k in
                        (
                          q,
                          needs,
                          absent,
                          ground
                              (arith, under, is_under-file_under q id r t s₁.blocked_by_resource),
                        )
                  ];
                  once = λ id. ground (
                    arith,
                    h₁.once id,
                    gone,
                    z,
                    unlisted,
                    total-file_under id r t s₁.blocked_by_resource,
                    get-put id t.id t s₁.blocked_by_id,
                  );
                  held =
                      Everywhere-file_under (IsHeld (put t.id t s₁.blocked_by_id)) r t
                        s₁.blocked_by_resource
                        (ground (arith, get-put t.id t.id t s₁.blocked_by_id))
                        (Everywhere-IsHeld-put t s₁.blocked_by_id s₁.blocked_by_resource unlisted
                          h₁.held);
                  left_held = All-IsHeld-put t s₁.blocked_by_id left z h₁.left_held;
                },
                same,
              )
      ]

module _ {P : Type 0} (ops : Priorities P) where
  -- A thing that is left to be filed is taken up.
  take_up :
      (t : Thing) (left : List Thing) (s : Resources P)
      → IsFiledBut (t ∷ left) s
      → IsFiledBut left (record s { blocked_by_id = erase t.id s.blocked_by_id })
        × (count t.id left ≡ 0)
  take_up t left s h =
      let first : get t.id s.blocked_by_id ≡ some t = h.left_held.0 in
      let alone : count t.id left + total t.id s.blocked_by_resource ≡ 0 =
        ground (arith, first, h.once t.id) in
      (
        record {
          filed = λ id u e k.
              h.filed id u (ground (arith, e, get-erase id t.id s.blocked_by_id))
                (ground (arith, e, k, get-erase id t.id s.blocked_by_id));
          once = λ id. ground (arith, h.once id, alone, get-erase id t.id s.blocked_by_id);
          held =
              Everywhere-IsHeld-erase t.id s.blocked_by_id s.blocked_by_resource
                (omega (arith, alone)) h.held;
          left_held =
              All-IsHeld-erase t.id s.blocked_by_id left (omega (arith, alone)) h.left_held.1;
        },
        omega (arith, alone),
      )

  pub refile_all-IsFiled :
      (left : List Thing) (n : ℕ) (s : Resources P)
      → IsFiledBut left s
      → IsFiledBut [] (for_each (refile ops) (n, s) left).1
  unfolding for_each refile
  refile_all-IsFiled [] n s h = h
  refile_all-IsFiled (t ∷ left) n s h =
      let (taken, alone) = take_up t left s h in
      refile_all-IsFiled left _ _
        (own_or_relay_task_thing-IsFiledBut ops left t
          (record s { blocked_by_id = erase t.id s.blocked_by_id }) taken alone).0

  pub own_all-IsFiled :
      (things : List Thing) (s : Resources P)
      → IsFiledBut [] s
      → IsFiledBut [] (own_all ops s things)
  unfolding own_all for_each
  own_all-IsFiled [] s h = h
  own_all-IsFiled (t ∷ things) s h =
      own_all-IsFiled things _ (own_or_relay_task_thing-IsFiledBut ops [] t s h refl).0

  -- A resource comes: what is filed under it is left to be filed.
  pub come :
      (r : ℕ) (things : List Thing) (s : Resources P)
      → IsFiledBut [] s
      → get r s.blocked_by_resource ≡ some things
      → IsFiledBut things (record s {
        available = add r s.available;
        blocked_by_resource = erase r s.blocked_by_resource;
      })
  come r things s h filed_there = record {
    filed = λ id u e k.
        let (q, needs, absent, under) = h.filed id u e refl in
        (
          q,
          needs,
          ground (arith, under, absent, k, filed_there, has-add q r s.available),
          ground (arith, under, k, filed_there, get-erase q r s.blocked_by_resource),
        );
    once =
        λ id. omega (arith, h.once id, total-erase id r things s.blocked_by_resource filed_there);
    held = Everywhere-erase (IsHeld s.blocked_by_id) r s.blocked_by_resource h.held;
    left_held =
        Everywhere-get (IsHeld s.blocked_by_id) r things s.blocked_by_resource h.held filed_there;
  }

  pub come_unused :
      (r : ℕ) (s : Resources P)
      → IsFiledBut [] s
      → get r s.blocked_by_resource ≡ none
      → IsFiledBut [] (record s { available = add r s.available })
  come_unused r s h none_there = record {
    filed = λ id u e k.
        let (q, needs, absent, under) = h.filed id u e refl in
        (q, needs, ground (arith, under, absent, none_there, has-add q r s.available), under);
    once = h.once;
    held = h.held;
    left_held = tt;
  }
