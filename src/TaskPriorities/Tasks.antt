-- ===== src/TaskPriorities/Tasks.antt =====
-- src/backend/task_infra/task_priorities.js: the tasks in the heap.
use gaia_email_libs_and_more.Common.{
  ℕ, suc, Bool, Option, none, some, List, [], ◌∷◌, ◌++◌, if◌then◌else◌, get, put, erase,
  remove_first, for_each, ℤ, ◌+ℤ◌, neg, lt_ℤ,
}
use gaia_email_libs_and_more.Priorities.{Thing}
use gaia_email_libs_and_more.TaskPriorities.{Heap, Queue, compute_priority_for_tags}

abbrev pub put_nodes : ℕ → List ℕ → List (ℕ × List ℕ) → List (ℕ × List ℕ)
put_nodes tag [] m = erase tag m
put_nodes tag (n ∷ ns) m = put tag (n ∷ ns) m

-- `_cleanupTaskPriorityTracking` and `_setupTaskPriorityTracking`. `none` is an undefined node, which
-- is in no list.
unfoldable pub cleanup_tag : Option ℕ → List (ℕ × List ℕ) → ℕ → List (ℕ × List ℕ)
cleanup_tag node m tag = elim (get tag m) [
  | none ↦ m
  | some nodes ↦ put_nodes tag (elim node [ none ↦ nodes | some n ↦ remove_first n nodes ]) m
]

unfoldable pub setup_tag : ℕ → List (ℕ × List ℕ) → ℕ → List (ℕ × List ℕ)
setup_tag node m tag = elim (get tag m) [
  | none ↦ put tag (node ∷ []) m
  | some nodes ↦ put tag (nodes ++ node ∷ []) m
]

abbrev pub tags_of : Option Thing → List ℕ
tags_of none = []
tags_of (some t) = t.priority_tags

module _ {H : Type 0} where
  abbrev pub cleanup : Option Thing → Option ℕ → Queue H → Queue H
  cleanup t node q = record q {
    priority_tag_to_heap_nodes =
        for_each (cleanup_tag node) q.priority_tag_to_heap_nodes (tags_of t);
  }

  abbrev pub setup : Thing → ℕ → Queue H → Queue H
  setup t node q = record q {
    priority_tag_to_heap_nodes =
        for_each (setup_tag node) q.priority_tag_to_heap_nodes t.priority_tags;
  }

module _ {H : Type 0} (heap : Heap H) where
  abbrev pub has_tasks_to_execute : Queue H → Bool
  has_tasks_to_execute q = heap.is_empty q.prioritized_tasks

  abbrev pub num_tasks_to_execute : Queue H → ℕ
  num_tasks_to_execute q = heap.node_count q.prioritized_tasks

  abbrev pub without_id : Option Thing → List (ℕ × ℕ) → List (ℕ × ℕ)
  without_id none m = m
  without_id (some t) m = erase t.id m

  -- `popNextAvailableTask`.
  unfoldable pub pop_next_available_task : Queue H → Option Thing × Queue H
  pop_next_available_task q = elim (heap.extract_minimum q.prioritized_tasks) [
    | none ↦ (none, q)
    | some (node, rest) ↦
        let t = get node q.values in
        (
          t,
          cleanup t (some node) (record q {
            prioritized_tasks = rest;
            task_id_to_heap_node = without_id t q.task_id_to_heap_node;
          }),
        )
  ]

  -- A node that the heap makes.
  abbrev pub insert_node : ℤ → Option Thing → Queue H → Queue H
  insert_node key t q = record q {
    prioritized_tasks = heap.insert q.next_node key q.prioritized_tasks;
    next_node = suc q.next_node;
    values = elim t [ none ↦ q.values | some t ↦ put q.next_node t q.values ];
  }

  -- `_reprioritizeHeapNode`.
  unfoldable pub reprioritize_heap_node : ℕ → ℤ → Queue H → Queue H
  reprioritize_heap_node node new_key q =
      let key = heap.key_of node q.prioritized_tasks in
      if lt_ℤ new_key key
      then record q { prioritized_tasks = heap.decrease_key node new_key q.prioritized_tasks }
      else if lt_ℤ key new_key
      then insert_node new_key (get node q.values)
          (record q { prioritized_tasks = heap.delete_node node q.prioritized_tasks })
      else q

  abbrev pub node_key : Thing → Queue H → ℤ
  node_key t q =
      neg (t.rel_priority +ℤ compute_priority_for_tags t.priority_tags q.summed_priority_tags)

  -- The two cases of `prioritizeTaskThing`: the task has a node already, or it has none.
  unfoldable pub prioritize_again : Thing → ℕ → Queue H → Queue H
  prioritize_again t node q =
      let q' : Queue H = reprioritize_heap_node node (node_key t q) q in
      let q'' : Queue H = cleanup (get node q'.values) none q' in
      record q'' { values = put node t q''.values }

  unfoldable pub prioritize_new : Thing → Queue H → Queue H
  prioritize_new t q =
      let q' : Queue H = insert_node (node_key t q) (some t) q in
      record q' { task_id_to_heap_node = put t.id q.next_node q'.task_id_to_heap_node }

  unfoldable pub prioritize_task_thing : Thing → Queue H → Queue H
  prioritize_task_thing t q = elim (get t.id q.task_id_to_heap_node) [
    | some node ↦ setup t node (prioritize_again t node q)
    | none ↦ setup t q.next_node (prioritize_new t q)
  ]

  -- `removeTaskThing`, of a node that is known and of one that is looked up.
  unfoldable pub remove_node : ℕ → ℕ → Queue H → Queue H
  remove_node task_id node q = cleanup (get node q.values) (some node) (record q {
    prioritized_tasks = heap.delete_node node q.prioritized_tasks;
    task_id_to_heap_node = erase task_id q.task_id_to_heap_node;
  })

  unfoldable pub remove_task_thing : ℕ → Queue H → Queue H
  remove_task_thing task_id q = elim (get task_id q.task_id_to_heap_node) [
    | none ↦ q
    | some node ↦ remove_node task_id node q
  ]

  -- The loop of `removeTasksUsingFilter`, with the things for which `shouldRemove` has said yes.
  unfoldable pub filter_node : (Thing → Bool) → List Thing × Queue H → ℕ × ℕ → List Thing × Queue H
  filter_node should_remove (taken, q) (id, node) = elim (get node q.values) [
    | none ↦ (taken, q)
    | some t ↦ if should_remove t then (taken ++ t ∷ [], remove_node t.id node q) else (taken, q)
  ]

  -- `removeTasksUsingFilter`.
  unfoldable pub remove_tasks_using_filter : (Thing → Bool) → Queue H → List Thing × Queue H
  remove_tasks_using_filter should_remove q =
      for_each (filter_node should_remove) ([], q) q.task_id_to_heap_node
