-- ===== src/Groups/Runs.antt =====
-- Runs of the tracker's operations: what is allowed, and that the counts stay right.
use gaia_email_libs_and_more.Common.{
  ℕ, suc, ◌≡◌, refl, sym, Bool, true, false, not, ◌&&◌, ◌||◌, Option, none, some, List, [], ◌∷◌,
  ◌==◌, get, has, add, has_key, get-put, has_key-get, get-missing, arith, Bool-cases, Option-cases,
  inl, inr,
}
use mathlib.Core.Path.{subst}
use gaia_email_libs_and_more.Groups.{
  Group, Tracker, is_same, fresh_tracker, noted, make_task_group, adopt, ensure_named_task_group,
  on_will_plan, on_will_execute, on_executed, on_planned, get_root_task_group_for_task,
  ensure_root_task_group_follow_on_task, follow_on_in, with_follow_on,
}
use gaia_email_libs_and_more.Groups.Counted.{IsCounted}
use gaia_email_libs_and_more.Groups.Completes.{Counts, decrement-Counts}
use gaia_email_libs_and_more.Groups.Founded.{found-IsCounted}
use gaia_email_libs_and_more.Groups.Joined.{
  task_open, join-IsCounted, change-IsCounted, stay-IsCounted, reuses-IsCounted, leave-IsCounted,
  adopt-join,
}
use gaia_email_libs_and_more.Groups.Root.{IsRootFor, group_known, get_root_task_group_for_task-ends}

-- What the task manager and the tasks tell the tracker.
pub data Event : Type 0 where
  ensure : ℕ → ℕ → Event
  will_plan : ℕ → Option ℕ → Event
  will_execute : ℕ → Option ℕ → Event
  planned : ℕ → Event
  executed : ℕ → Event
  follow_on : ℕ → ℕ → ℕ → Event

unfoldable pub apply : Event → Tracker → Option Tracker
apply (ensure name task) s = some (ensure_named_task_group name task s).1
apply (will_plan task source) s = some (on_will_plan task source s)
apply (will_execute task source) s = some (on_will_execute task source s)
apply (planned task) s = on_planned task s
apply (executed task) s = on_executed task s
apply (follow_on name task to_plan) s =
    ensure_root_task_group_follow_on_task (λ n. name) task to_plan s

abbrev pub has_no_parent : Option Group → Bool
has_no_parent none = true
has_no_parent (some x) = elim x.parent_group [ none ↦ true | some p ↦ false ]

-- A task that is in no group, and a group that no other is above.
abbrev pub may_join : ℕ → ℕ → Tracker → Bool
may_join task g s = not (has_key task s.task_ids_to_groups) && has_no_parent (get g s.groups)

-- A known name is only ensured for a task in no group, and for a group with no parent; a task is
-- announced with a source in a group only when it is in none, or goes on under its source's id; the name that is made up for a follow-on task is new.
abbrev pub IsAllowed : Event → Tracker → Type 0
IsAllowed (ensure name task) s = elim (get name s.groups_by_name) [
  | none ↦ Unit
  | some g ↦ may_join task g s ≡ true
]
IsAllowed (will_plan task source) s = has_key task s.task_ids_to_groups ≡ false
IsAllowed (will_execute task source) s =
    (is_same source task || not (has_key task s.task_ids_to_groups)) ≡ true
IsAllowed (planned task) s = Unit
IsAllowed (executed task) s = Unit
IsAllowed (follow_on name task to_plan) s = has_key name s.groups_by_name ≡ false

unfoldable pub run : List Event → Tracker → Option Tracker
run [] s = some s
run (e ∷ es) s = elim (apply e s) [ none ↦ none | some s' ↦ run es s' ]

-- Each event of a run is allowed when it happens.
abbrev pub IsAllowedRun : List Event → Tracker → Type 0
IsAllowedRun [] s = Unit
IsAllowedRun (e ∷ es) s =
    IsAllowed e s × elim (apply e s) [ none ↦ Unit | some s' ↦ IsAllowedRun es s' ]

adopt-IsCounted :
    (name task g : ℕ) (s : Tracker)
    → IsCounted none s
    → get name s.groups_by_name ≡ some g
    → may_join task g s ≡ true
    → IsCounted none (adopt task g s)
adopt-IsCounted name task g s i e h = elim (Option-cases (get g s.groups)) [
  | inl missing ↦ absurd (ground (arith, missing, i.named name g e))
  | inr (x, f) ↦ elim (Option-cases x.parent_group) [
    | inl top ↦
        subst (IsCounted none) (sym (adopt-join task g x s nowhere f top))
          (join-IsCounted task g x s i nowhere f (ground (arith, f, i.named name g e)))
    | inr (p, above) ↦ absurd (ground (arith, h, f, above))
  ]
]
  where
    nowhere : get task s.task_ids_to_groups ≡ none
    nowhere = ground (arith, h, has_key-get task s.task_ids_to_groups)

ensure-IsCounted :
    (name task : ℕ) (s : Tracker)
    → IsCounted none s
    → IsAllowed (ensure name task) s
    → IsCounted none (ensure_named_task_group name task s).1
unfolding ensure_named_task_group
ensure-IsCounted name task s i h = elim (Option-cases (get name s.groups_by_name)) [
  | inl new ↦ rw (ensure_named_task_group, new) (found-IsCounted name task s i)
  | inr (g, e) ↦
      rw (ensure_named_task_group, e) (adopt-IsCounted name task g s i e (rw (IsAllowed, e) at h))
]

-- A task is announced with a source that is in a group.
pub source_known :
    (source g : ℕ) (s : Tracker)
    → IsCounted none s
    → get source s.task_ids_to_groups ≡ some g
    → (x : Group) × (get g s.groups ≡ some x)
source_known source g s i e = elim (Option-cases (get g s.groups)) [
  | inl missing ↦ absurd (ground (arith, missing, i.mapped source g e, get-missing g s.groups))
  | inr found ↦ found
]

will_plan-IsCounted :
    (task : ℕ) (source : Option ℕ) (s : Tracker)
    → IsCounted none s
    → has_key task s.task_ids_to_groups ≡ false
    → IsCounted none (on_will_plan task source s)
unfolding on_will_plan
will_plan-IsCounted task none s i h = i
will_plan-IsCounted task (some source) s i h =
    elim (Option-cases (get source s.task_ids_to_groups)) [
      | inl nowhere ↦ rw (on_will_plan, nowhere) i
      | inr (g, e) ↦
          let (x, f) = source_known source g s i e in
          rw (on_will_plan, e)
            (join-IsCounted task g x s i (has_key-get task s.task_ids_to_groups h) f
              (task_open source g x s i e f))
    ]

will_execute-IsCounted :
    (task : ℕ) (source : Option ℕ) (s : Tracker)
    → IsCounted none s
    → IsAllowed (will_execute task source) s
    → IsCounted none (on_will_execute task source s)
unfolding on_will_execute
will_execute-IsCounted task none s i h = i
will_execute-IsCounted task (some source) s i h =
    elim (Option-cases (get source s.task_ids_to_groups)) [
      | inl nowhere ↦ rw (on_will_execute, nowhere) i
      | inr (g, e) ↦
          let (x, f) = source_known source g s i e in
          elim (Bool-cases (source == task)) [
            | inl same ↦
                rw (on_will_execute, e, same)
                  (stay-IsCounted task g _
                    (change-IsCounted g noted x _
                      (reuses-IsCounted (add source s.pending_task_id_reuses) s i) f refl refl refl)
                    (same_task (ground arith) e))
            | inr other ↦
                rw (on_will_execute, e, other)
                  (join-IsCounted task g x s i
                    (has_key-get task s.task_ids_to_groups (ground (arith, h, other))) f
                    (task_open source g x s i e f))
          ]
    ]
  where
    same_task :
        {g : ℕ}
        → source ≡ task
        → get source s.task_ids_to_groups ≡ some g
        → get task s.task_ids_to_groups ≡ some g
    same_task q e = rw q at e

executed-Counts : (task : ℕ) (s : Tracker) → IsCounted none s → Counts (on_executed task s)
unfolding on_executed
executed-Counts task s i = elim (Option-cases (get task s.task_ids_to_groups)) [
  | inl nowhere ↦ rw (on_executed, nowhere) (s, refl, i)
  | inr (g, e) ↦
      rw (on_executed, e)
        (decrement-Counts (suc s.next_group_id) g _ (group_known task g s i e)
          (leave-IsCounted task g s i e))
]

planned-Counts : (task : ℕ) (s : Tracker) → IsCounted none s → Counts (on_planned task s)
unfolding on_planned
planned-Counts task s i = elim (Bool-cases (has task s.pending_task_id_reuses)) [
  | inl reused ↦ rw (on_planned, reused) (_, refl, reuses-IsCounted _ s i)
  | inr other ↦ rw (on_planned, other) (executed-Counts task s i)
]

ensure_owner :
    (name task : ℕ) (s : Tracker)
    → get task (ensure_named_task_group name task s).1.task_ids_to_groups
      ≡ some (ensure_named_task_group name task s).0
unfolding ensure_named_task_group adopt make_task_group
ensure_owner name task s = elim (Option-cases (get name s.groups_by_name)) [
  | inl new ↦
      rw (ensure_named_task_group, new, adopt, make_task_group)
        (ground (arith, get-put task task s.next_group_id s.task_ids_to_groups))
  | inr (g, e) ↦
      rw (ensure_named_task_group, e, adopt)
        (ground (arith, get-put task task g s.task_ids_to_groups))
]

-- A follow-on task is kept by a group that is there.
follow_on_in-IsCounted :
    (g task : ℕ) (x : Group) (s : Tracker)
    → IsCounted none s
    → get g s.groups ≡ some x
    → IsCounted none (follow_on_in task (g, s))
unfolding follow_on_in
follow_on_in-IsCounted g task x s i e =
    change-IsCounted g (with_follow_on task) x s i e refl refl refl

follow_on-Counts :
    (name task to_plan : ℕ) (s : Tracker)
    → IsCounted none s
    → has_key name s.groups_by_name ≡ false
    → Counts (ensure_root_task_group_follow_on_task (λ n. name) task to_plan s)
unfolding ensure_root_task_group_follow_on_task
follow_on-Counts name task to_plan s i h = go (get_root_task_group_for_task-ends task s i)
  where
    ensured : IsCounted none (follow_on_in to_plan (ensure_named_task_group name task s))
    ensured =
        let i' =
          ensure-IsCounted name task s i (rw (IsAllowed, has_key-get name s.groups_by_name h) tt) in
        let (x, f) = source_known task _ _ i' (ensure_owner name task s) in
        follow_on_in-IsCounted _ to_plan x _ i' f

    go :
        ((r : Option ℕ) × (get_root_task_group_for_task task s ≡ some r) × IsRootFor task r s)
        → Counts (ensure_root_task_group_follow_on_task (λ n. name) task to_plan s)
    go (none, e, nowhere) = rw (ensure_root_task_group_follow_on_task, e) (_, refl, ensured)
    go (some r, e, (x, f, top)) =
        rw (ensure_root_task_group_follow_on_task, e)
          (_, refl, follow_on_in-IsCounted r to_plan x s i f)

apply-Counts : (e : Event) (s : Tracker) → IsCounted none s → IsAllowed e s → Counts (apply e s)
unfolding apply
apply-Counts (ensure name task) s i h = (_, refl, ensure-IsCounted name task s i h)
apply-Counts (will_plan task source) s i h = (_, refl, will_plan-IsCounted task source s i h)
apply-Counts (will_execute task source) s i h = (_, refl, will_execute-IsCounted task source s i h)
apply-Counts (planned task) s i h = planned-Counts task s i
apply-Counts (executed task) s i h = executed-Counts task s i
apply-Counts (follow_on name task to_plan) s i h = follow_on-Counts name task to_plan s i h

-- From a tracker whose counts are right a run of allowed events never fails and never goes on for
-- ever, and it ends in one whose counts are right: each group's count is the number of its tasks and of
-- the groups under it that have not completed, and its promise is resolved when that is 0.
pub run-Counts :
    (es : List Event) (s : Tracker) → IsCounted none s → IsAllowedRun es s → Counts (run es s)
unfolding run
run-Counts [] s i h = (s, refl, i)
run-Counts (e ∷ es) s i h =
    let (s', q, i') = apply-Counts e s i h.0 in
    let (s'', r, i'') = run-Counts es s' i' (rw q at h.1) in (s'', rw (run, q) r, i'')

pub fresh_tracker-IsCounted : IsCounted none fresh_tracker
unfolding get has_key has
fresh_tracker-IsCounted = record {
  tasks_IsMap = tt;
  groups_IsMap = tt;
  mapped = λ t g e. cc;
  counted = λ g x e. cc;
  older = λ g p x e f. cc;
  unused = λ g e. refl;
  resolves = λ g x e. cc;
  resolved_known = λ g e. cc;
  resolved_once = tt;
  owed_known = λ g e. cc;
  named = λ name g e. cc;
}
