-- ===== src/Resources/Queued.antt =====
-- Tasks and resources over the queue of src/backend/task_infra/task_priorities.js. A task is prioritized
-- when the queue's map finds it.
use gaia_email_libs_and_more.Common.{ℕ, ◌≡◌, refl, ◌||◌, Bool, none, some, List, get, for_each}
use gaia_email_libs_and_more.Priorities.{Thing}
use gaia_email_libs_and_more.TaskPriorities.{Heap}
use gaia_email_libs_and_more.TaskPriorities.Indexed.{find_task}
use gaia_email_libs_and_more.TaskPriorities.Served.{Indexed, indexed, served, served-IsPriorities}
use gaia_email_libs_and_more.Resources.{
  Resources, first_missing, resource_available, resources_no_longer_available,
}
use gaia_email_libs_and_more.Resources.Filed.{IsLacking}
use gaia_email_libs_and_more.Resources.Runs.{Event, happen, start, run-ready, run-blocked}
use gaia_email_libs_and_more.Resources.Tracked.{is_there, run-tracked}

module _ {H : Type 0} (heap : Heap H) (h : H) where
  -- What is there after a run, from no tasks and no resources.
  abbrev pub after_run : List Event → Resources (Indexed H)
  after_run events = for_each (happen (served heap)) (start (served heap) (indexed h)) events

  nothing_found : (id : ℕ) → find_task id (indexed h).0 ≡ none
  unfolding find_task get
  nothing_found id = refl

  -- Whatever happens to tasks, boosts and resources from the start, and whatever the heap does: a task
  -- that the queue's map finds has all the resources that it needs. Of a node that the heap still holds
  -- of a task that the map does not find, nothing is said.
  pub after_run-ready :
      (events : List Event) (id : ℕ) (t : Thing)
      → find_task id (after_run events).priorities.0 ≡ some t
      → first_missing t.resources (after_run events).available ≡ none
  after_run-ready events id t e =
      run-ready (served heap) (served-IsPriorities heap) (indexed h) events nothing_found id t e

  -- Whatever happens to tasks, boosts and resources from the start, and whatever the heap does: a task
  -- that is blocked is not found by the queue's map, and it is filed under a resource that it needs and
  -- that is not available.
  pub after_run-blocked :
      (events : List Event) (id : ℕ) (t : Thing)
      → get id (after_run events).blocked_by_id ≡ some t
      → (find_task id (after_run events).priorities.0 ≡ none)
        × IsLacking (after_run events).available (after_run events).blocked_by_resource t id
  after_run-blocked events id t e =
      run-blocked (served heap) (served-IsPriorities heap) (indexed h) events nothing_found id t e

  -- A task is found by the queue's map, or it is blocked.
  abbrev pub is_kept : ℕ → Resources (Indexed H) → Bool
  is_kept id s = is_there (find_task id s.priorities.0) || is_there (get id s.blocked_by_id)

  -- Whatever has happened from the start, and whatever the heap does: when a resource comes or some go,
  -- exactly the tasks are found by the queue's map or blocked afterwards that were before.
  pub after_run-kept :
      (events : List Event) (id r : ℕ) (rs : List ℕ)
      → (is_kept id (resource_available (served heap) r (after_run events)).1
          ≡ is_kept id (after_run events))
        × (is_kept id (resources_no_longer_available (served heap) rs (after_run events))
            ≡ is_kept id (after_run events))
  after_run-kept events id r rs =
      run-tracked (served heap) (served-IsPriorities heap) (indexed h) events nothing_found id r rs
