-- ===== src/TaskPriorities/Runs.antt =====
-- Runs of the operations of the queue.
use gaia_email_libs_and_more.Common.{
  ℕ, ◌≡◌, refl, sym, Bool, Option, List, [], ◌∷◌, get, for_each, IsMap, ℤ, ◌∙◌, arith, Option-cases,
  inl, inr,
}
use gaia_email_libs_and_more.Priorities.{Thing}
use gaia_email_libs_and_more.TaskPriorities.{
  Heap, Boosts, Queue, or_new_map, set_priority_boost_tags,
}
use gaia_email_libs_and_more.TaskPriorities.Tasks.{
  pop_next_available_task, node_key, reprioritize_heap_node, prioritize_again, prioritize_new,
  prioritize_task_thing, remove_node, remove_task_thing, filter_node, remove_tasks_using_filter,
}
use gaia_email_libs_and_more.TaskPriorities.Boosted.{IsSummed, set_priority_boost_tags-IsSummed}

-- The calls of the queue.
pub data Call : Type 0 where
  boosts_set : ℕ → Option Boosts → Call
  popped : Call
  prioritized : Thing → Call
  removed : ℕ → Call
  filtered : (Thing → Bool) → Call

-- The boosts of a call are a map.
abbrev pub IsProper : List Call → Type 0
IsProper [] = Unit
IsProper (boosts_set o tags ∷ calls) = IsMap (or_new_map tags) × IsProper calls
IsProper (popped ∷ calls) = IsProper calls
IsProper (prioritized t ∷ calls) = IsProper calls
IsProper (removed id ∷ calls) = IsProper calls
IsProper (filtered f ∷ calls) = IsProper calls

module _ {H : Type 0} (heap : Heap H) where
  unfoldable pub call : Queue H → Call → Queue H
  call q (boosts_set o tags) = (set_priority_boost_tags o tags q).0
  call q popped = (pop_next_available_task heap q).1
  call q (prioritized t) = prioritize_task_thing heap t q
  call q (removed id) = remove_task_thing heap id q
  call q (filtered f) = (remove_tasks_using_filter heap f q).1

  -- The boosts are as they were.
  abbrev pub SameBoosts : Queue H → Queue H → Type 0
  SameBoosts q p =
      (p.summed_priority_tags ≡ q.summed_priority_tags)
      × (p.priority_tags_by_owner ≡ q.priority_tags_by_owner)

  same-IsSummed : (q p : Queue H) → SameBoosts q p → IsSummed q → IsSummed p
  same-IsSummed q p e i = record {
    summed = λ t. rw (e.0, e.1) (i.summed t);
    owners = rw e.1 i.owners;
    maps = λ o m h. i.maps o m (rw (sym e.1) h);
  }

  pop_next_available_task-SameBoosts :
      (q : Queue H) → SameBoosts q (pop_next_available_task heap q).1
  unfolding pop_next_available_task
  pop_next_available_task-SameBoosts q =
      elim (Option-cases (heap.extract_minimum q.prioritized_tasks)) [
        | inl e ↦ ground (arith, e)
        | inr (found, e) ↦ ground (arith, e)
      ]

  reprioritize_heap_node-SameBoosts :
      (node : ℕ) (key : ℤ) (q : Queue H) → SameBoosts q (reprioritize_heap_node heap node key q)
  unfolding reprioritize_heap_node
  reprioritize_heap_node-SameBoosts node key q = ground arith

  prioritize_task_thing-SameBoosts :
      (t : Thing) (q : Queue H) → SameBoosts q (prioritize_task_thing heap t q)
  unfolding prioritize_task_thing prioritize_again prioritize_new
  prioritize_task_thing-SameBoosts t q = elim (Option-cases (get t.id q.task_id_to_heap_node)) [
    | inl e ↦ ground (arith, e)
    | inr (node, e) ↦
        ground (arith, e, reprioritize_heap_node-SameBoosts node (node_key heap t q) q)
  ]

  filter_node-SameBoosts :
      (f : Thing → Bool) (taken : List Thing) (q : Queue H) (entry : ℕ × ℕ)
      → SameBoosts q (filter_node heap f (taken, q) entry).1
  unfolding filter_node remove_node
  filter_node-SameBoosts f taken q (id, node) = elim (Option-cases (get node q.values)) [
    | inl e ↦ ground (arith, e)
    | inr (t, e) ↦ ground (arith, e)
  ]

  filter_all-SameBoosts :
      (f : Thing → Bool) (taken : List Thing) (q : Queue H) (entries : List (ℕ × ℕ))
      → SameBoosts q (for_each (filter_node heap f) (taken, q) entries).1
  unfolding for_each
  filter_all-SameBoosts f taken q [] = (refl, refl)
  filter_all-SameBoosts f taken q (entry ∷ entries) =
      let (sums, owners) = filter_node-SameBoosts f taken q entry in
      let step = filter_node heap f (taken, q) entry in
      let (sums', owners') = filter_all-SameBoosts f step.0 step.1 entries in
      (sums' ∙ sums, owners' ∙ owners)

  remove_task_thing-SameBoosts : (id : ℕ) (q : Queue H) → SameBoosts q (remove_task_thing heap id q)
  unfolding remove_task_thing remove_node
  remove_task_thing-SameBoosts id q = elim (Option-cases (get id q.task_id_to_heap_node)) [
    | inl e ↦ ground (arith, e)
    | inr (node, e) ↦ ground (arith, e)
  ]

  -- Whatever calls are made, those that raise included: in the end the sum that is kept for a tag is
  -- the sum of what the owners give to it.
  pub run-IsSummed :
      (calls : List Call) (q : Queue H)
      → IsSummed q
      → IsProper calls
      → IsSummed (for_each call q calls)
  unfolding for_each call remove_tasks_using_filter
  run-IsSummed [] q i k = i
  run-IsSummed (boosts_set o tags ∷ calls) q i k =
      run-IsSummed calls _ (set_priority_boost_tags-IsSummed o tags q i k.0) k.1
  run-IsSummed (popped ∷ calls) q i k =
      run-IsSummed calls _ (same-IsSummed q _ (pop_next_available_task-SameBoosts q) i) k
  run-IsSummed (prioritized t ∷ calls) q i k =
      run-IsSummed calls _ (same-IsSummed q _ (prioritize_task_thing-SameBoosts t q) i) k
  run-IsSummed (removed id ∷ calls) q i k =
      run-IsSummed calls _ (same-IsSummed q _ (remove_task_thing-SameBoosts id q) i) k
  run-IsSummed (filtered f ∷ calls) q i k =
      run-IsSummed calls _
        (same-IsSummed q _ (filter_all-SameBoosts f [] q q.task_id_to_heap_node) i) k
