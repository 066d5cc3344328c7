-- ===== src/Groups.antt =====
-- src/backend/task_infra/task_group_tracker.js: groups of tasks, which complete when all their tasks
-- and the groups under them have.
pub mod Counted
pub mod Completes
pub mod Founded
pub mod Joined
pub mod Root
pub mod Runs
pub mod Haunted
pub mod Twice
mod Tests
use gaia_email_libs_and_more.Common.{
  ℕ, zero, suc, ◌+◌, ◌-◌, ◌≡◌, Bool, true, false, Option, none, some, List, [], ◌∷◌, ◌++◌, ◌==◌,
  for_each, if◌then◌else◌, get, put, erase, update, has, add, delete,
}

-- A group object. A group stands for its `groupId`, also where another object refers to it. Null for
-- the tasks to schedule is the empty list: an empty Set is never stored.
pub record Group : Type 0 where
  pub group_name : ℕ
  pub pending_count : ℕ
  pub total_count : ℕ
  pub parent_group : Option ℕ
  pub tasks_to_schedule_on_completion : List ℕ

-- The tracker, all groups ever made, the groups whose promise is resolved, the latest last, and the
-- lists of tasks handed to `taskManager.scheduleTasks`.
pub record Tracker : Type 0 where
  pub next_group_id : ℕ
  pub groups : List (ℕ × Group)
  pub groups_by_name : List (ℕ × ℕ)
  pub task_ids_to_groups : List (ℕ × ℕ)
  pub pending_task_id_reuses : List ℕ
  pub resolved : List ℕ
  pub scheduled : List (List ℕ)

abbrev pub fresh_tracker : Tracker
fresh_tracker = record {
  next_group_id = 1;
  groups = [];
  groups_by_name = [];
  task_ids_to_groups = [];
  pending_task_id_reuses = [];
  resolved = [];
  scheduled = [];
}

abbrev pub new_group : ℕ → Group
new_group name = record {
  group_name = name;
  pending_count = 0;
  total_count = 0;
  parent_group = none;
  tasks_to_schedule_on_completion = [];
}

-- The group that is made has the id that was the next one.
unfoldable pub make_task_group : ℕ → Tracker → Tracker
make_task_group name s = record s {
  next_group_id = suc s.next_group_id;
  groups = put s.next_group_id (new_group name) s.groups;
  groups_by_name = put name s.next_group_id s.groups_by_name;
}

abbrev pub is_same : Option ℕ → ℕ → Bool
is_same none g = false
is_same (some h) g = h == g

-- One more task in a group; in `_onWillExecute` only the total is raised for a task that goes on.
abbrev pub raised : Group → Group
raised x = record x { pending_count = x.pending_count + 1; total_count = x.total_count + 1 }

abbrev pub noted : Group → Group
noted x = record x { total_count = x.total_count + 1 }

-- The parent is the group the task was in, unless that is this group.
abbrev pub adopted : Option ℕ → ℕ → Group → Group
adopted existing g x =
    raised (if is_same existing g then x else record x { parent_group = existing })

unfoldable pub adopt : ℕ → ℕ → Tracker → Tracker
adopt task g s = record s {
  groups = update g (adopted (get task s.task_ids_to_groups) g) s.groups;
  task_ids_to_groups = put task g s.task_ids_to_groups;
}

-- `_ensureNamedTaskGroup`, with the group it gives.
unfoldable pub ensure_named_task_group : ℕ → ℕ → Tracker → ℕ × Tracker
ensure_named_task_group name task s = elim (get name s.groups_by_name) [
  | none ↦ (s.next_group_id, adopt task s.next_group_id (make_task_group name s))
  | some g ↦ (g, adopt task g s)
]

-- The loop of `getRootTaskGroupForTask`, on fuel; `none` is a loop that has not ended, or a parent that
-- is no group.
unfoldable pub root_of : ℕ → ℕ → List (ℕ × Group) → Option ℕ
root_of zero g groups = none
root_of (suc fuel) g groups = elim (get g groups) [
  | none ↦ none
  | some x ↦ elim x.parent_group [ none ↦ some g | some p ↦ root_of fuel p groups ]
]

-- As many rounds as there have been groups, and one more. The outer `none` is a loop that has not
-- ended, the inner one is undefined.
unfoldable pub get_root_task_group_for_task : ℕ → Tracker → Option (Option ℕ)
get_root_task_group_for_task task s = elim (get task s.task_ids_to_groups) [
  | none ↦ some none
  | some g ↦ elim (root_of (suc s.next_group_id) g s.groups) [
    | none ↦ none
    | some r ↦ some (some r)
  ]
]

abbrev pub with_follow_on : ℕ → Group → Group
with_follow_on task x = record x {
  tasks_to_schedule_on_completion = add task x.tasks_to_schedule_on_completion;
}

unfoldable pub follow_on_in : ℕ → ℕ × Tracker → Tracker
follow_on_in task (g, s) = record s { groups = update g (with_follow_on task) s.groups }

-- `ensured` is the name 'ensured:' with a number behind it.
unfoldable pub ensure_root_task_group_follow_on_task : (ℕ → ℕ) → ℕ → ℕ → Tracker → Option Tracker
ensure_root_task_group_follow_on_task ensured task task_to_plan s =
    elim (get_root_task_group_for_task task s) [
      | none ↦ none
      | some none ↦
          some
            (follow_on_in task_to_plan (ensure_named_task_group (ensured s.next_group_id) task s))
      | some (some r) ↦ some (follow_on_in task_to_plan (r, s))
    ]

-- The task joins a group.
abbrev pub join : ℕ → ℕ → (Group → Group) → Tracker → Tracker
join task g change s = record s {
  groups = update g change s.groups;
  task_ids_to_groups = put task g s.task_ids_to_groups;
}

-- `_onWillPlan` of a task with a source; without one nothing happens.
unfoldable pub on_will_plan : ℕ → Option ℕ → Tracker → Tracker
on_will_plan task none s = s
on_will_plan task (some source) s = elim (get source s.task_ids_to_groups) [
  | none ↦ s
  | some g ↦ join task g raised s
]

unfoldable pub on_will_execute : ℕ → Option ℕ → Tracker → Tracker
on_will_execute task none s = s
on_will_execute task (some source) s = elim (get source s.task_ids_to_groups) [
  | none ↦ s
  | some g ↦
      if source == task
      then join task g noted
          (record s { pending_task_id_reuses = add source s.pending_task_id_reuses })
      else join task g raised s
]

abbrev pub is_empty : List ℕ → Bool
is_empty [] = true
is_empty (x ∷ xs) = false

-- What happens when the last of a group completes.
abbrev pub complete : ℕ → Group → Tracker → Tracker
complete g x s = record s {
  resolved = s.resolved ++ g ∷ [];
  groups_by_name = erase x.group_name s.groups_by_name;
  scheduled =
      if is_empty x.tasks_to_schedule_on_completion
      then s.scheduled
      else s.scheduled ++ x.tasks_to_schedule_on_completion ∷ [];
}

abbrev pub lowered : Group → Group
lowered x = record x { pending_count = x.pending_count - 1 }

-- One call of `_decrementGroupPendingCount`, and the group of the next. The count is 1 at least; `none`
-- is a count below zero, which is never reached.
unfoldable pub decrement_once : ℕ → Group → Tracker → Option (Option ℕ × Tracker)
decrement_once g x s =
    let s' : Tracker = record s { groups = update g lowered s.groups } in
    if x.pending_count == 0
    then none
    else some (if x.pending_count == 1 then (x.parent_group, complete g x s') else (none, s'))

-- `_decrementGroupPendingCount`, whose recursion runs on fuel.
unfoldable pub decrement_group_pending_count : ℕ → ℕ → Tracker → Option Tracker
decrement_group_pending_count zero g s = none
decrement_group_pending_count (suc fuel) g s = elim (get g s.groups) [
  | none ↦ none
  | some x ↦ elim (decrement_once g x s) [
    | none ↦ none
    | some (none, s') ↦ some s'
    | some (some p, s') ↦ decrement_group_pending_count fuel p s'
  ]
]

-- `_onExecuted`. As many calls as there have been groups, and one more, are enough.
unfoldable pub on_executed : ℕ → Tracker → Option Tracker
on_executed task s = elim (get task s.task_ids_to_groups) [
  | none ↦ some s
  | some g ↦
      decrement_group_pending_count (suc s.next_group_id) g
        (record s { task_ids_to_groups = erase task s.task_ids_to_groups })
]

unfoldable pub on_planned : ℕ → Tracker → Option Tracker
on_planned task s =
    if has task s.pending_task_id_reuses
    then some (record s { pending_task_id_reuses = delete task s.pending_task_id_reuses })
    else on_executed task s
