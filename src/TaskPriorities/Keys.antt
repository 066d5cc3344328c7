-- ===== src/TaskPriorities/Keys.antt =====
-- The key of a task in the heap.
use gaia_email_libs_and_more.Common.{
  lt_ℤ, ℕ, ◌≡◌, ◌<◌, refl, Bool, true, false, not, ◌&&◌, ◌||◌, none, some, List, [], ◌∷◌, ◌==◌,
  if◌then◌else◌, get, put, get-put, ℤ, pos, negsuc, ◌+ℤ◌, neg, arith,
}
use gaia_email_libs_and_more.Priorities.{Thing}
use gaia_email_libs_and_more.TaskPriorities.{Heap, Boosts, compute_priority_for_tags, Queue}
use gaia_email_libs_and_more.TaskPriorities.Tasks.{
  reprioritize_heap_node, node_key, prioritize_again, prioritize_new, prioritize_task_thing,
}
use gaia_email_libs_and_more.TaskPriorities.Boosted.{total, IsSummed}

-- What the heap is documented to do with a node that it makes or removes.
pub record IsHeap {H : Type 0} (heap : Heap H) (holds : ℕ → H → Bool) : Type 0 where
  pub key_insert :
      (m n : ℕ) (key : ℤ) (h : H)
      → heap.key_of m (heap.insert n key h) ≡ (if n == m then key else heap.key_of m h)
  pub holds_insert :
      (m n : ℕ) (key : ℤ) (h : H) → holds m (heap.insert n key h) ≡ (n == m || holds m h)
  pub holds_delete :
      (m n : ℕ) (h : H) → holds m (heap.delete_node n h) ≡ (holds m h && not (n == m))

-- What all owners give to the tags of a task.
unfoldable pub total_of : List ℕ → List (ℕ × Boosts) → ℤ
total_of [] owners = pos 0
total_of (tag ∷ tags) owners = total tag owners +ℤ total_of tags owners

compute_priority_for_tags-total :
    {H : Type 0}
    → (tags : List ℕ) (q : Queue H) → IsSummed q
    → compute_priority_for_tags tags q.summed_priority_tags ≡ total_of tags q.priority_tags_by_owner
unfolding compute_priority_for_tags total_of
compute_priority_for_tags-total [] q i = refl
compute_priority_for_tags-total (tag ∷ tags) q i =
    rw (i.summed tag, compute_priority_for_tags-total tags q i) refl

lt_ℤ-asym : (a b : ℤ) → lt_ℤ a b ≡ true → lt_ℤ b a ≡ false
lt_ℤ-asym (pos a) (pos b) h = ground (arith, h)
lt_ℤ-asym (pos a) (negsuc b) h = cc
lt_ℤ-asym (negsuc a) (pos b) h = refl
lt_ℤ-asym (negsuc a) (negsuc b) h = ground (arith, h)

module _ {H : Type 0} (heap : Heap H) (holds : ℕ → H → Bool) (laws : IsHeap heap holds) where
  -- A task without a node gets one, which the heap holds under the negation of its own priority and of
  -- what all owners give to its tags.
  pub prioritize_task_thing-key :
      (t : Thing) (q : Queue H)
      → IsSummed q
      → get t.id q.task_id_to_heap_node ≡ none
      → (get t.id (prioritize_task_thing heap t q).task_id_to_heap_node ≡ some q.next_node)
        × (get q.next_node (prioritize_task_thing heap t q).values ≡ some t)
        × (holds q.next_node (prioritize_task_thing heap t q).prioritized_tasks ≡ true)
        × (heap.key_of q.next_node (prioritize_task_thing heap t q).prioritized_tasks
            ≡ neg (t.rel_priority +ℤ total_of t.priority_tags q.priority_tags_by_owner))
  unfolding prioritize_task_thing prioritize_new
  prioritize_task_thing-key t q i absent = ground (
    arith,
    absent,
    get-put t.id t.id q.next_node q.task_id_to_heap_node,
    get-put q.next_node q.next_node t q.values,
    laws.holds_insert q.next_node q.next_node (node_key heap t q) q.prioritized_tasks,
    laws.key_insert q.next_node q.next_node (node_key heap t q) q.prioritized_tasks,
    compute_priority_for_tags-total t.priority_tags q i,
  )

  -- A task whose priority falls is put on a new node with its former value, while the queue goes on
  -- to look it up at the old node, which the heap no longer holds.
  pub prioritize_task_thing-stale :
      (t : Thing) (node : ℕ) (q : Queue H)
      → get t.id q.task_id_to_heap_node ≡ some node
      → node < q.next_node
      → lt_ℤ (heap.key_of node q.prioritized_tasks) (node_key heap t q) ≡ true
      → (old : Thing) → get node q.values ≡ some old
      → (get t.id (prioritize_task_thing heap t q).task_id_to_heap_node ≡ some node)
        × (holds node (prioritize_task_thing heap t q).prioritized_tasks ≡ false)
        × (holds q.next_node (prioritize_task_thing heap t q).prioritized_tasks ≡ true)
        × (get q.next_node (prioritize_task_thing heap t q).values ≡ some old)
  unfolding prioritize_task_thing prioritize_again reprioritize_heap_node
  prioritize_task_thing-stale t node q known made lower old valued =
      let rest = heap.delete_node node q.prioritized_tasks in
      ground (
        arith,
        known,
        lower,
        lt_ℤ-asym (heap.key_of node q.prioritized_tasks) (node_key heap t q) lower,
        valued,
        laws.holds_insert node q.next_node (node_key heap t q) rest,
        laws.holds_insert q.next_node q.next_node (node_key heap t q) rest,
        laws.holds_delete node node q.prioritized_tasks,
        get-put q.next_node node t (put q.next_node old q.values),
        get-put q.next_node q.next_node old q.values,
      )
