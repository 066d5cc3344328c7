-- ===== src/TaskPriorities/Tests.antt =====
-- A heap that is a list, runs of the queue, and the theorems at concrete inputs.
use gaia_email_libs_and_more.Common.{
  ℕ, ◌≡◌, refl, true, false, ◌||◌, none, some, List, [], ◌∷◌, remove_first, get, put, erase,
  has_key, for_each, get-put, has_key-put, has_key-erase, ℤ, pos, negsuc, ◌+ℤ◌, neg, arith,
}
use gaia_email_libs_and_more.Priorities.{Thing}
use gaia_email_libs_and_more.TaskPriorities.Listed.{first_key, listed}
use gaia_email_libs_and_more.TaskPriorities.{
  boost, compute_priority_for_tags, thing_deltas, apply_tag_delta, apply_new, apply_gone,
  or_new_map, Queue, create_queue, set_priority_boost_tags,
}
use gaia_email_libs_and_more.TaskPriorities.Tasks.{
  cleanup_tag, setup_tag, pop_next_available_task, reprioritize_heap_node, prioritize_again,
  prioritize_new, prioritize_task_thing, remove_node, remove_task_thing, filter_node,
  remove_tasks_using_filter,
}
use gaia_email_libs_and_more.TaskPriorities.Boosted.{
  total, IsSummed, set_priority_boost_tags-IsSummed,
}
use gaia_email_libs_and_more.TaskPriorities.Raises.{
  is_tagged, some_tagged, set_priority_boost_tags-raises,
}
use gaia_email_libs_and_more.TaskPriorities.Runs.{Call, boosts_set, prioritized, call, run-IsSummed}
use gaia_email_libs_and_more.TaskPriorities.Keys.{
  IsHeap, total_of, prioritize_task_thing-key, prioritize_task_thing-stale,
}

program : Unit {0}
unfolding boost compute_priority_for_tags thing_deltas apply_tag_delta apply_new apply_gone
    set_priority_boost_tags remove_first cleanup_tag setup_tag pop_next_available_task
    reprioritize_heap_node prioritize_again prioritize_new prioritize_task_thing remove_node
    remove_task_thing filter_node remove_tasks_using_filter total call is_tagged some_tagged
    total_of get put erase has_key for_each ◌+ℤ◌
program = tt

listed-IsHeap : IsHeap listed has_key
unfolding first_key
listed-IsHeap = record {
  key_insert = λ m n key h. ground (arith, get-put m n key h);
  holds_insert = λ m n key h. ground (arith, has_key-put m n key h);
  holds_delete = λ m n h. ground (arith, has_key-erase m n h);
}

abbrev empty : Queue (List (ℕ × ℤ))
empty = create_queue []

empty-IsSummed : IsSummed empty
unfolding program
empty-IsSummed = record { summed = λ t. refl; owners = tt; maps = λ o m e. cc }

-- Task 5 has tag 1.
abbrev task : Thing
task = record { id = 5; resources = []; priority_tags = 1 ∷ []; rel_priority = pos 2 }

-- Owner 8 boosts tags 1 and 2, the task comes, and the owner takes the boosts back, which raises.
abbrev calls : List Call
calls =
    boosts_set 8 (some ((1, pos 10) ∷ (2, pos 3) ∷ [])) ∷ prioritized task ∷ boosts_set 8 none ∷ []

run-IsSummed_example : IsSummed (for_each (call listed) empty calls)
run-IsSummed_example =
    run-IsSummed listed calls empty empty-IsSummed
      (unfold has_key in ((refl, (refl, tt)), (tt, tt)))

abbrev boosted : Queue (List (ℕ × ℤ))
boosted = record (create_queue []) {
  priority_tags_by_owner = (8, (1, pos 10) ∷ []) ∷ [];
  summed_priority_tags = (1, pos 10) ∷ [];
}

boosted-IsSummed : IsSummed boosted
unfolding program
boosted-IsSummed =
    set_priority_boost_tags-IsSummed 8 (some ((1, pos 10) ∷ [])) empty empty-IsSummed (refl, tt)

-- The task in the queue, at node 0.
abbrev queued : Queue (List (ℕ × ℤ))
queued = record (create_queue []) {
  prioritized_tasks = (0, negsuc 11) ∷ [];
  next_node = 1;
  values = (0, task) ∷ [];
  task_id_to_heap_node = (5, 0) ∷ [];
  priority_tag_to_heap_nodes = (1, 0 ∷ []) ∷ [];
  priority_tags_by_owner = (8, (1, pos 10) ∷ []) ∷ [];
  summed_priority_tags = (1, pos 10) ∷ [];
}

queued_so : prioritize_task_thing listed task boosted ≡ queued
unfolding program
queued_so = refl

set_priority_boost_tags-raises_example : (set_priority_boost_tags 8 none queued).1 ≡ (
    some_tagged queued.priority_tag_to_heap_nodes (or_new_map none) []
    || some_tagged queued.priority_tag_to_heap_nodes
        (or_new_map (get 8 queued.priority_tags_by_owner))
        (or_new_map none))
set_priority_boost_tags-raises_example = set_priority_boost_tags-raises 8 none queued

raised : (set_priority_boost_tags 8 none queued).1 ≡ true
unfolding program
raised = refl

prioritize_task_thing-key_example :
    (get 5 (prioritize_task_thing listed task boosted).task_id_to_heap_node ≡ some 0)
    × (get 0 (prioritize_task_thing listed task boosted).values ≡ some task)
    × (has_key 0 (prioritize_task_thing listed task boosted).prioritized_tasks ≡ true)
    × (first_key (get 0 (prioritize_task_thing listed task boosted).prioritized_tasks)
        ≡ neg (pos 2 +ℤ total_of (1 ∷ []) boosted.priority_tags_by_owner))
prioritize_task_thing-key_example =
    prioritize_task_thing-key listed has_key listed-IsHeap task boosted boosted-IsSummed
      (unfold get in refl)

-- The same task, with less priority of its own.
abbrev lesser : Thing
lesser = record task { rel_priority = pos 1 }

prioritize_task_thing-stale_example :
    (get 5 (prioritize_task_thing listed lesser queued).task_id_to_heap_node ≡ some 0)
    × (has_key 0 (prioritize_task_thing listed lesser queued).prioritized_tasks ≡ false)
    × (has_key 1 (prioritize_task_thing listed lesser queued).prioritized_tasks ≡ true)
    × (get 1 (prioritize_task_thing listed lesser queued).values ≡ some task)
prioritize_task_thing-stale_example =
    prioritize_task_thing-stale listed has_key listed-IsHeap lesser 0 queued (unfold get in refl)
      (omega arith) (unfold first_key get compute_priority_for_tags boost ◌+ℤ◌ in refl) task
      (unfold get in refl)
