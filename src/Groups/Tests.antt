-- ===== src/Groups/Tests.antt =====
-- Runs of the tracker, and the theorems at concrete inputs.
use gaia_email_libs_and_more.Common.{
  ℕ, ◌≡◌, refl, false, Option, none, some, List, [], ◌∷◌, get, put, erase, update, has, add, delete,
  has_key, count,
}
use gaia_email_libs_and_more.Groups.{
  Tracker, fresh_tracker, make_task_group, adopt, ensure_named_task_group, on_will_plan,
  on_will_execute, decrement_once, decrement_group_pending_count, on_executed, on_planned, root_of,
  get_root_task_group_for_task, follow_on_in, ensure_root_task_group_follow_on_task,
}
use gaia_email_libs_and_more.Groups.Counted.{IsCounted}
use gaia_email_libs_and_more.Groups.Completes.{Counts}
use gaia_email_libs_and_more.Groups.Root.{IsRootFor, get_root_task_group_for_task-ends}
use gaia_email_libs_and_more.Groups.Runs.{
  Event, ensure, will_plan, planned, executed, follow_on, apply, run, IsAllowedRun, run-Counts,
  fresh_tracker-IsCounted,
}
use gaia_email_libs_and_more.Groups.Twice.{ensure_again-leaks}
use mathlib.Core.Path.{subst}

-- A line that collects what the runs unfold.
program : Unit {0}
unfolding make_task_group adopt ensure_named_task_group on_will_plan on_will_execute decrement_once
    decrement_group_pending_count on_executed on_planned root_of get_root_task_group_for_task
    follow_on_in ensure_root_task_group_follow_on_task apply run get put erase update has add delete
    has_key count
program = tt

-- Task 10 founds group 1 and plans task 11, which founds group 2 under it; a third task follows on.
abbrev sync : List Event
sync =
    ensure 7 10
    ∷ will_plan 11 (some 10)
    ∷ ensure 8 11
    ∷ follow_on 9 11 30
    ∷ planned 10
    ∷ executed 11
    ∷ []

abbrev resolved_of : Option Tracker → List ℕ
resolved_of none = []
resolved_of (some s) = s.resolved

abbrev scheduled_of : Option Tracker → List (List ℕ)
scheduled_of none = []
scheduled_of (some s) = s.scheduled

-- The inner group completes first, and the outer one with it; the follow-on task is scheduled.
both_complete : resolved_of (run sync fresh_tracker) ≡ 2 ∷ 1 ∷ []
unfolding program
both_complete = refl

follows : scheduled_of (run sync fresh_tracker) ≡ (30 ∷ []) ∷ []
unfolding program
follows = refl

sync_allowed : IsAllowedRun sync fresh_tracker
unfolding program
sync_allowed = (tt, (refl, (tt, (refl, (tt, (tt, tt))))))

run-Counts_example : Counts (run sync fresh_tracker)
run-Counts_example = run-Counts sync fresh_tracker fresh_tracker-IsCounted sync_allowed

-- The tracker behind the first two events.
abbrev begun : List Event
begun = ensure 7 10 ∷ will_plan 11 (some 10) ∷ []

abbrev begun_state : Tracker
begun_state = record {
  next_group_id = 2;
  groups =
      (
        1,
        record {
          group_name = 7;
          pending_count = 2;
          total_count = 2;
          parent_group = none;
          tasks_to_schedule_on_completion = [];
        },
      )
      ∷ [];
  groups_by_name = (7, 1) ∷ [];
  task_ids_to_groups = (10, 1) ∷ (11, 1) ∷ [];
  pending_task_id_reuses = [];
  resolved = [];
  scheduled = [];
}

begun_runs : run begun fresh_tracker ≡ some begun_state
unfolding program
begun_runs = refl

begun_allowed : IsAllowedRun begun fresh_tracker
unfolding program
begun_allowed = (tt, (refl, tt))

begun-IsCounted : IsCounted none begun_state
begun-IsCounted =
    let (s', q, i) = run-Counts begun fresh_tracker fresh_tracker-IsCounted begun_allowed in
    subst (IsCounted none) (cc (q, begun_runs)) i

get_root_task_group_for_task-ends_example :
    (r : Option ℕ) × (get_root_task_group_for_task 11 begun_state ≡ some r)
    × IsRootFor 11 r begun_state
get_root_task_group_for_task-ends_example =
    get_root_task_group_for_task-ends 11 begun_state begun-IsCounted

ensure_again-leaks_example :
    (s' : Tracker) × (run (ensure 7 10 ∷ executed 10 ∷ executed 11 ∷ []) begun_state ≡ some s')
    × (has 1 s'.resolved ≡ false)
ensure_again-leaks_example =
    ensure_again-leaks 7 10 1 begun_state begun-IsCounted in_7 of_10
      (executed 10 ∷ executed 11 ∷ []) (unfold program in (tt, (tt, tt)))
  where
    in_7 : get 7 begun_state.groups_by_name ≡ some 1
    in_7 = unfold get in refl

    of_10 : get 10 begun_state.task_ids_to_groups ≡ some 1
    of_10 = unfold get in refl
