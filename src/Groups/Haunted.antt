-- ===== src/Groups/Haunted.antt =====
-- A task that nothing is ever told of: it stays in its group, and everything else goes on as without it.
use gaia_email_libs_and_more.Common.{
  ℕ, zero, suc, ◌+◌, ◌<◌, ◌≡◌, refl, Bool, true, false, ◌||◌, Option, none, some, List, [], ◌∷◌,
  ◌==◌, get, put, erase, has, has_key, update, count, get-update, has_key-update, get-has_key,
  count-update, update-IsMap, arith, Bool-cases, Option-cases, inl, inr,
}
use gaia_email_libs_and_more.Groups.{
  Group, Tracker, is_same, raised, make_task_group, adopt, ensure_named_task_group, complete,
  lowered, decrement_once, decrement_group_pending_count, on_will_plan, on_will_execute,
  on_executed, on_planned, get_root_task_group_for_task, ensure_root_task_group_follow_on_task,
  follow_on_in,
}
use gaia_email_libs_and_more.Groups.Counted.{IsCounted, is_open_child}
use gaia_email_libs_and_more.Groups.Runs.{
  Event, ensure, will_plan, will_execute, planned, executed, follow_on, apply, run, IsAllowed,
  IsAllowedRun,
}

-- Whether an event is about a task.
abbrev pub mentions : ℕ → Event → Bool
mentions n (ensure name task) = n == task
mentions n (will_plan task source) = n == task || is_same source n
mentions n (will_execute task source) = n == task || is_same source n
mentions n (planned task) = n == task
mentions n (executed task) = n == task
mentions n (follow_on name task to_plan) = n == task

abbrev pub haunt : ℕ → ℕ → Tracker → Tracker
haunt ghost g s = record s { task_ids_to_groups = (ghost, g) ∷ s.task_ids_to_groups }

abbrev pub haunt_all : ℕ → ℕ → Option Tracker → Option Tracker
haunt_all ghost g none = none
haunt_all ghost g (some s) = some (haunt ghost g s)

module _ (ghost g : ℕ) where
  get_past : (k : ℕ) (m : List (ℕ × ℕ)) → (ghost == k) ≡ false → get k ((ghost, g) ∷ m) ≡ get k m
  unfolding get
  get_past k m h = rw h refl

  put_past :
      (k v : ℕ) (m : List (ℕ × ℕ))
      → (ghost == k) ≡ false
      → put k v ((ghost, g) ∷ m) ≡ (ghost, g) ∷ put k v m
  unfolding put
  put_past k v m h = rw h refl

  erase_past :
      (k : ℕ) (m : List (ℕ × ℕ))
      → (ghost == k) ≡ false
      → erase k ((ghost, g) ∷ m) ≡ (ghost, g) ∷ erase k m
  unfolding erase
  erase_past k m h = rw h refl

  ensure-haunt :
      (name task : ℕ) (s : Tracker)
      → (ghost == task) ≡ false
      → ensure_named_task_group name task (haunt ghost g s) ≡ (
        (ensure_named_task_group name task s).0,
        haunt ghost g (ensure_named_task_group name task s).1,
      )
  unfolding ensure_named_task_group adopt make_task_group
  ensure-haunt name task s h = elim (Option-cases (get name s.groups_by_name)) [
    | inl new ↦
        rw
          (
            ensure_named_task_group,
            new,
            adopt,
            make_task_group,
            get_past task s.task_ids_to_groups h,
            put_past task s.next_group_id s.task_ids_to_groups h,
          )
          refl
    | inr (k, e) ↦
        rw
          (
            ensure_named_task_group,
            e,
            adopt,
            get_past task s.task_ids_to_groups h,
            put_past task k s.task_ids_to_groups h,
          )
          refl
  ]

  decrement-haunt :
      (fuel k : ℕ) (s : Tracker)
      → decrement_group_pending_count fuel k (haunt ghost g s)
        ≡ haunt_all ghost g (decrement_group_pending_count fuel k s)
  unfolding decrement_group_pending_count decrement_once
  decrement-haunt zero k s = refl
  decrement-haunt (suc fuel) k s = elim (Option-cases (get k s.groups)) [
    | inl missing ↦ rw (decrement_group_pending_count, missing) refl
    | inr (x, e) ↦ elim (Bool-cases (x.pending_count == 0)) [
      | inl below ↦ rw (decrement_group_pending_count, e, decrement_once, below) refl
      | inr waits ↦ elim (Bool-cases (x.pending_count == 1)) [
        | inr more ↦ rw (decrement_group_pending_count, e, decrement_once, waits, more) refl
        | inl last ↦ elim (Option-cases x.parent_group) [
          | inl top ↦ rw (decrement_group_pending_count, e, decrement_once, waits, last, top) refl
          | inr (p, above) ↦
              rw (decrement_group_pending_count, e, decrement_once, waits, last, above)
                (decrement-haunt fuel p
                  (complete k x (record s { groups = update k lowered s.groups })))
        ]
      ]
    ]
  ]

  will_plan-haunt :
      (task : ℕ) (source : Option ℕ) (s : Tracker)
      → (ghost == task) ≡ false
      → is_same source ghost ≡ false
      → on_will_plan task source (haunt ghost g s) ≡ haunt ghost g (on_will_plan task source s)
  unfolding on_will_plan
  will_plan-haunt task none s h k = refl
  will_plan-haunt task (some source) s h k =
      let past = get_past source s.task_ids_to_groups (ground (arith, k)) in
      elim (Option-cases (get source s.task_ids_to_groups)) [
        | inl nowhere ↦ rw (on_will_plan, past, nowhere) refl
        | inr (j, e) ↦ rw (on_will_plan, past, e, put_past task j s.task_ids_to_groups h) refl
      ]

  will_execute-haunt :
      (task : ℕ) (source : Option ℕ) (s : Tracker)
      → (ghost == task) ≡ false
      → is_same source ghost ≡ false
      → on_will_execute task source (haunt ghost g s)
        ≡ haunt ghost g (on_will_execute task source s)
  unfolding on_will_execute
  will_execute-haunt task none s h k = refl
  will_execute-haunt task (some source) s h k =
      let past = get_past source s.task_ids_to_groups (ground (arith, k)) in
      elim (Option-cases (get source s.task_ids_to_groups)) [
        | inl nowhere ↦ rw (on_will_execute, past, nowhere) refl
        | inr (j, e) ↦ elim (Bool-cases (source == task)) [
          | inl goes_on ↦
              rw (on_will_execute, past, e, goes_on, put_past task j s.task_ids_to_groups h) refl
          | inr other ↦
              rw (on_will_execute, past, e, other, put_past task j s.task_ids_to_groups h) refl
        ]
      ]

  executed-haunt :
      (task : ℕ) (s : Tracker)
      → (ghost == task) ≡ false
      → on_executed task (haunt ghost g s) ≡ haunt_all ghost g (on_executed task s)
  unfolding on_executed
  executed-haunt task s h = elim (Option-cases (get task s.task_ids_to_groups)) [
    | inl nowhere ↦ rw (on_executed, get_past task s.task_ids_to_groups h, nowhere) refl
    | inr (j, e) ↦
        rw
          (
            on_executed,
            get_past task s.task_ids_to_groups h,
            e,
            erase_past task s.task_ids_to_groups h,
          )
          (decrement-haunt (suc s.next_group_id) j
            (record s { task_ids_to_groups = erase task s.task_ids_to_groups }))
  ]

  planned-haunt :
      (task : ℕ) (s : Tracker)
      → (ghost == task) ≡ false
      → on_planned task (haunt ghost g s) ≡ haunt_all ghost g (on_planned task s)
  unfolding on_planned
  planned-haunt task s h = elim (Bool-cases (has task s.pending_task_id_reuses)) [
    | inl reused ↦ rw (on_planned, reused) refl
    | inr other ↦ rw (on_planned, other) (executed-haunt task s h)
  ]

  root-haunt :
      (task : ℕ) (s : Tracker)
      → (ghost == task) ≡ false
      → get_root_task_group_for_task task (haunt ghost g s) ≡ get_root_task_group_for_task task s
  unfolding get_root_task_group_for_task
  root-haunt task s h = rw (get_root_task_group_for_task, get_past task s.task_ids_to_groups h) refl

  follow_on-haunt :
      (name task to_plan : ℕ) (s : Tracker)
      → (ghost == task) ≡ false
      → ensure_root_task_group_follow_on_task (λ n. name) task to_plan (haunt ghost g s)
        ≡ haunt_all ghost g (ensure_root_task_group_follow_on_task (λ n. name) task to_plan s)
  unfolding ensure_root_task_group_follow_on_task follow_on_in
  follow_on-haunt name task to_plan s h =
      elim (Option-cases (get_root_task_group_for_task task s)) [
        | inl endless ↦
            rw (ensure_root_task_group_follow_on_task, root-haunt task s h, endless) refl
        | inr (none, e) ↦
            rw
              (
                ensure_root_task_group_follow_on_task,
                root-haunt task s h,
                e,
                ensure-haunt name task s h,
              )
              refl
        | inr (some r, e) ↦ rw (ensure_root_task_group_follow_on_task, root-haunt task s h, e) refl
      ]

  apply-haunt :
      (e : Event) (s : Tracker)
      → mentions ghost e ≡ false
      → apply e (haunt ghost g s) ≡ haunt_all ghost g (apply e s)
  unfolding apply
  apply-haunt (ensure name task) s h = rw (ensure-haunt name task s h) refl
  apply-haunt (will_plan task source) s h =
      rw (will_plan-haunt task source s (ground (arith, h)) (ground (arith, h))) refl
  apply-haunt (will_execute task source) s h =
      rw (will_execute-haunt task source s (ground (arith, h)) (ground (arith, h))) refl
  apply-haunt (planned task) s h = planned-haunt task s h
  apply-haunt (executed task) s h = executed-haunt task s h
  apply-haunt (follow_on name task to_plan) s h = follow_on-haunt name task to_plan s h

  has_key_past :
      (k : ℕ) (m : List (ℕ × ℕ)) → (ghost == k) ≡ false → has_key k ((ghost, g) ∷ m) ≡ has_key k m
  unfolding has_key
  has_key_past k m h = rw h refl

  IsAllowed-haunt :
      (e : Event) (s : Tracker)
      → mentions ghost e ≡ false
      → IsAllowed e s
      → IsAllowed e (haunt ghost g s)
  IsAllowed-haunt (ensure name task) s h a = elim (Option-cases (get name s.groups_by_name)) [
    | inl new ↦ rw (IsAllowed, new) tt
    | inr (k, known) ↦
        rw (IsAllowed, known, has_key_past task s.task_ids_to_groups h) (rw (IsAllowed, known) at a)
  ]
  IsAllowed-haunt (will_plan task source) s h a =
      rw (has_key_past task s.task_ids_to_groups (ground (arith, h))) a
  IsAllowed-haunt (will_execute task source) s h a =
      rw (has_key_past task s.task_ids_to_groups (ground (arith, h))) a
  IsAllowed-haunt (planned task) s h a = tt
  IsAllowed-haunt (executed task) s h a = tt
  IsAllowed-haunt (follow_on name task to_plan) s h a = a

  abbrev pub mentions_any : List Event → Bool
  mentions_any [] = false
  mentions_any (e ∷ es) = mentions ghost e || mentions_any es

  pub run-haunt :
      (es : List Event) (s : Tracker)
      → mentions_any es ≡ false
      → run es (haunt ghost g s) ≡ haunt_all ghost g (run es s)
  unfolding run
  run-haunt [] s h = refl
  run-haunt (e ∷ es) s h =
      let step = apply-haunt e s (ground (arith, h)) in
      elim (Option-cases (apply e s)) [
        | inl raises ↦ rw (run, step, raises) refl
        | inr (t, done) ↦ rw (run, step, done) (run-haunt es t (ground (arith, h)))
      ]

  pub IsAllowedRun-haunt :
      (es : List Event) (s : Tracker)
      → mentions_any es ≡ false
      → IsAllowedRun es s
      → IsAllowedRun es (haunt ghost g s)
  IsAllowedRun-haunt [] s h a = tt
  IsAllowedRun-haunt (e ∷ es) s h a =
      let step = apply-haunt e s (ground (arith, h)) in
      elim (Option-cases (apply e s)) [
        | inl raises ↦ (IsAllowed-haunt e s (ground (arith, h)) a.0, rw (step, raises) tt)
        | inr (t, done) ↦ (
          IsAllowed-haunt e s (ground (arith, h)) a.0,
          rw (step, done) (IsAllowedRun-haunt es t (ground (arith, h)) (rw done at a.1)),
        )
      ]

-- A number that neither the events nor the map mention.
unfoldable pub event_top : Event → ℕ
event_top (ensure name task) = suc task
event_top (will_plan task none) = suc task
event_top (will_plan task (some source)) = suc (task + source)
event_top (will_execute task none) = suc task
event_top (will_execute task (some source)) = suc (task + source)
event_top (planned task) = suc task
event_top (executed task) = suc task
event_top (follow_on name task to_plan) = suc task

unfoldable pub events_top : List Event → ℕ
events_top [] = 0
events_top (e ∷ es) = event_top e + events_top es

unfoldable pub keys_top : List (ℕ × ℕ) → ℕ
keys_top [] = 0
keys_top ((k, v) ∷ m) = suc k + keys_top m

mentions_below : (n : ℕ) (e : Event) → mentions n e ≡ true → n < event_top e
unfolding event_top
mentions_below n (ensure name task) h = ground (arith, h)
mentions_below n (will_plan task none) h = ground (arith, h)
mentions_below n (will_plan task (some source)) h = ground (arith, h)
mentions_below n (will_execute task none) h = ground (arith, h)
mentions_below n (will_execute task (some source)) h = ground (arith, h)
mentions_below n (planned task) h = ground (arith, h)
mentions_below n (executed task) h = ground (arith, h)
mentions_below n (follow_on name task to_plan) h = ground (arith, h)

pub unmentioned : (n : ℕ) (es : List Event) → (events_top es < suc n) → mentions_any n 0 es ≡ false
unfolding events_top
unmentioned n [] h = refl
unmentioned n (e ∷ es) h =
    ground (arith, h, mentions_below n e, unmentioned n es (omega (arith, h)))

pub unmapped : (n : ℕ) (m : List (ℕ × ℕ)) → (keys_top m < suc n) → has_key n m ≡ false
unfolding keys_top has_key
unmapped n [] h = refl
unmapped n ((k, v) ∷ m) h = ground (arith, h, unmapped n m (omega (arith, h)))

-- A task that joins at the front of the map.
pub haunt-IsCounted :
    (ghost g : ℕ) (x : Group) (s : Tracker)
    → IsCounted none s
    → has_key ghost s.task_ids_to_groups ≡ false
    → get g s.groups ≡ some x
    → (x.pending_count == 0) ≡ false
    → IsCounted none (haunt ghost g (record s { groups = update g raised s.groups }))
unfolding get has_key count
haunt-IsCounted ghost g x s i m e h = record {
  tasks_IsMap = (m, i.tasks_IsMap);
  groups_IsMap = update-IsMap g raised s.groups i.groups_IsMap;
  mapped = λ t k n.
      ground
        (arith, n, has_key-update k g raised s.groups, get-has_key g x s.groups e, i.mapped t k);
  counted = λ k y n. ground (
    arith,
    n,
    get-update k g raised x s.groups e,
    count-update (is_open_child k) g raised x s.groups e,
    i.counted g x e,
    i.counted k y,
  );
  older = λ k p y n o. ground (
    arith,
    n,
    o,
    get-update k g raised x s.groups e,
    has_key-update p g raised s.groups,
    i.older g p x e,
    i.older k p y,
  );
  unused = λ k n. ground (arith, n, get-update k g raised x s.groups e, i.unused k n);
  resolves = λ k y n.
      ground (arith, n, get-update k g raised x s.groups e, i.resolves g x e, i.resolves k y);
  resolved_known = λ k n. ground (arith, has_key-update k g raised s.groups, i.resolved_known k n);
  resolved_once = i.resolved_once;
  owed_known = λ k n. cc;
  named = λ name k n. ground (arith, n, get-update k g raised x s.groups e, i.named name k n);
}
