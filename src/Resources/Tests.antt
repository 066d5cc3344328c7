-- ===== src/Resources/Tests.antt =====
-- Runs of src/backend/task_infra/task_resources.js over a list of priorities, and the theorems at
-- concrete inputs.
use gaia_email_libs_and_more.Common.{
  ℕ, ◌≡◌, refl, none, some, List, [], ◌∷◌, ◌++◌, has, add, delete, get, put, erase, for_each,
  remove_first, ℤ, pos, ◌+ℤ◌,
}
use gaia_email_libs_and_more.Priorities.{Thing}
use gaia_email_libs_and_more.TaskPriorities.{
  boost, compute_priority_for_tags, set_priority_boost_tags,
}
use gaia_email_libs_and_more.TaskPriorities.Listed.{first_key, listed}
use gaia_email_libs_and_more.TaskPriorities.Tasks.{
  cleanup_tag, setup_tag, pop_next_available_task, reprioritize_heap_node, prioritize_again,
  prioritize_new, prioritize_task_thing, remove_node, remove_task_thing, filter_node,
  remove_tasks_using_filter,
}
use gaia_email_libs_and_more.TaskPriorities.Indexed.{find_task}
use gaia_email_libs_and_more.TaskPriorities.Served.{Indexed, served}
use gaia_email_libs_and_more.Resources
use gaia_email_libs_and_more.Resources.{
  Resources, first_missing, needs_one_of, splice_thing, unblock, file_under, forget_blocked,
  own_or_relay_task_thing, clear_resource_timeouts, refile, resource_available, take_away, own_all,
  resources_no_longer_available, restore_resource_after_timeout, timer_fires, missing,
  what_is_task_blocked_by,
}
use gaia_email_libs_and_more.Resources.Filed.{IsLacking}
use gaia_email_libs_and_more.Resources.Runs.{
  Event, owned, popped, arrives, restored, vanish, happen,
}
use gaia_email_libs_and_more.Resources.Queued.{
  after_run, after_run-ready, after_run-blocked, is_kept, after_run-kept,
}

program : Unit {0}
unfolding has add delete get put erase for_each first_missing boost compute_priority_for_tags
    set_priority_boost_tags cleanup_tag setup_tag pop_next_available_task reprioritize_heap_node
    prioritize_again prioritize_new prioritize_task_thing remove_node remove_task_thing filter_node
    remove_tasks_using_filter find_task first_key remove_first ◌+ℤ◌ needs_one_of splice_thing
    unblock file_under Resources.remove_task_thing forget_blocked own_or_relay_task_thing
    clear_resource_timeouts refile resource_available take_away own_all
    resources_no_longer_available restore_resource_after_timeout timer_fires missing
    what_is_task_blocked_by happen
program = tt

-- Task 1 needs the network, task 2 the network and the credentials of an account.
abbrev network : ℕ
network = 100

abbrev credentials : ℕ
credentials = 200

abbrev first_task : Thing
first_task = record { id = 1; resources = network ∷ []; priority_tags = []; rel_priority = pos 0 }

abbrev second_task : Thing
second_task = record {
  id = 2;
  resources = network ∷ credentials ∷ [];
  priority_tags = [];
  rel_priority = pos 0;
}

abbrev events : List Event
events = owned first_task ∷ owned second_task ∷ arrives network ∷ []

abbrev after : List Event → Resources (Indexed (List (ℕ × ℤ)))
after es = after_run listed [] es

blocked_run : what_is_task_blocked_by 2 (after events) ≡ some (credentials ∷ [])
unfolding program
blocked_run = refl

found_run : find_task 1 (after events).priorities.0 ≡ some first_task
unfolding program
found_run = refl

taken_run : find_task 1 (after (events ++ popped ∷ [])).priorities.0 ≡ none
unfolding program
taken_run = refl

both_gone_run : find_task 1 (after (events ++ vanish (network ∷ []) ∷ [])).priorities.0 ≡ none
unfolding program
both_gone_run = refl

-- The timeout of a resource that is restored twice is outstanding twice.
restored_twice :
    (after (restored network ∷ restored network ∷ [])).timers ≡ (0, network) ∷ (1, network) ∷ []
unfolding program
restored_twice = refl

after_run-ready_example : first_missing first_task.resources (after events).available ≡ none
unfolding program
after_run-ready_example = after_run-ready listed [] events 1 first_task refl

after_run-blocked_example :
    (find_task 2 (after events).priorities.0 ≡ none)
    × IsLacking (after events).available (after events).blocked_by_resource second_task 2
unfolding program
after_run-blocked_example = after_run-blocked listed [] events 2 second_task refl

after_run-kept_example :
    (is_kept listed [] 2 (resource_available (served listed) credentials (after events)).1
      ≡ is_kept listed [] 2 (after events))
    × (is_kept listed [] 2
          (resources_no_longer_available (served listed) (network ∷ []) (after events))
        ≡ is_kept listed [] 2 (after events))
after_run-kept_example = after_run-kept listed [] events 2 credentials (network ∷ [])
