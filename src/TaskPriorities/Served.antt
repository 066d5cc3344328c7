-- ===== src/TaskPriorities/Served.antt =====
-- The queue keeps the promises that the keeper of the resources relies on.
use gaia_email_libs_and_more.Common.{
  ℕ, ◌≡◌, refl, Bool, false, ◌&&◌, ◌||◌, Option, none, some, List, [], ◌∷◌, ◌++◌, ◌==◌,
  if◌then◌else◌, get, has_key, get-erase, IsMap, has_key-get, get-has_key, for_each, ℤ, arith,
  Bool-cases, inl, inr,
}
use gaia_email_libs_and_more.Priorities.{Thing, has_thing, passes, Priorities, IsPriorities}
use gaia_email_libs_and_more.TaskPriorities.{Heap, Queue, create_queue, set_priority_boost_tags}
use gaia_email_libs_and_more.TaskPriorities.Tasks.{
  pop_next_available_task, prioritize_task_thing, remove_node, remove_task_thing, filter_node,
  remove_tasks_using_filter,
}
use gaia_email_libs_and_more.TaskPriorities.Indexed.{
  find_task, IsIndexed, create_queue-IsIndexed, prioritize-IsIndexed, remove_node-IsIndexed,
  remove-IsIndexed, pop-IsIndexed,
}

has_thing-snoc :
    (id : ℕ) (ts : List Thing) (t : Thing)
    → has_thing id (ts ++ t ∷ []) ≡ (has_thing id ts || t.id == id)
has_thing-snoc id [] t = ground arith
has_thing-snoc id (u ∷ ts) t = ground (arith, has_thing-snoc id ts t)

-- Entries of the map of the queue that are still to be visited.
abbrev pub AreEntries : {H : Type 0} → List (ℕ × ℕ) → Queue H → Type 0
AreEntries entries q =
    (id node : ℕ) → get id entries ≡ some node → get id q.task_id_to_heap_node ≡ some node

module _ {H : Type 0} (heap : Heap H) (f : Thing → Bool) where
  -- What the visit of an entry does: the task is taken if the filter says yes.
  visit-IsIndexed :
      (taken : List Thing) (id node : ℕ) (q : Queue H)
      → IsIndexed q
      → get id q.task_id_to_heap_node ≡ some node
      → IsIndexed (filter_node heap f (taken, q) (id, node)).1
        × ((x : ℕ)
            → find_task x (filter_node heap f (taken, q) (id, node)).1
              ≡ (if x == id && passes f (find_task x q) then none else find_task x q))
        × ((x : ℕ)
            → has_thing x (filter_node heap f (taken, q) (id, node)).0
              ≡ (has_thing x taken || x == id && passes f (find_task x q)))
        × ((x : ℕ)
            → (x == id) ≡ false
            → get x (filter_node heap f (taken, q) (id, node)).1.task_id_to_heap_node
              ≡ get x q.task_id_to_heap_node)
  unfolding filter_node find_task remove_node
  visit-IsIndexed taken id node q i here =
      let (made, t, value, has_id) = i.valued id node here in
      let (i', found) = remove_node-IsIndexed heap t.id node q i in
      elim (Bool-cases (f t)) [
        | inl chosen ↦ (
          rw (filter_node, value, chosen) i',
          λ x. ground (arith, value, chosen, here, has_id, get-erase x t.id q.task_id_to_heap_node),
          λ x. ground (arith, value, chosen, here, has_id, has_thing-snoc x taken t),
          λ x e. ground (arith, value, chosen, has_id, e, get-erase x t.id q.task_id_to_heap_node),
        )
        | inr left ↦ (
          rw (filter_node, value, left) i,
          λ x. ground (arith, value, left, here, has_id),
          λ x. ground (arith, value, left, here, has_id),
          λ x e. ground (arith, value, left),
        )
      ]

  visit_all-IsIndexed :
      (entries : List (ℕ × ℕ)) (taken : List Thing) (q : Queue H)
      → IsMap entries
      → IsIndexed q
      → AreEntries entries q
      → IsIndexed (for_each (filter_node heap f) (taken, q) entries).1
        × ((x : ℕ)
            → find_task x (for_each (filter_node heap f) (taken, q) entries).1
              ≡ (if has_key x entries && passes f (find_task x q) then none else find_task x q))
        × ((x : ℕ)
            → has_thing x (for_each (filter_node heap f) (taken, q) entries).0
              ≡ (has_thing x taken || has_key x entries && passes f (find_task x q)))
  unfolding for_each has_key get
  visit_all-IsIndexed [] taken q m i here = (i, λ x. refl, λ x. ground arith)
  visit_all-IsIndexed ((id, node) ∷ entries) taken q m i here =
      let step = filter_node heap f (taken, q) (id, node) in
      let (i₁, found₁, has₁, kept) =
        visit-IsIndexed taken id node q i (here id node (ground arith)) in
      let (i₂, found₂, has₂) =
        visit_all-IsIndexed entries step.0 step.1 m.1 i₁
          (λ x n e. ground (arith, e, m.0, get-has_key x n entries e, kept x, here x n)) in
      (
        i₂,
        λ x. ground (arith, found₂ x, found₁ x, m.0),
        λ x. ground (arith, has₂ x, has₁ x, found₁ x, m.0),
      )

  pub filter-IsIndexed :
      (q : Queue H)
      → IsIndexed q
      → IsIndexed (remove_tasks_using_filter heap f q).1
        × ((x : ℕ)
            → find_task x (remove_tasks_using_filter heap f q).1
              ≡ (if passes f (find_task x q) then none else find_task x q))
        × ((x : ℕ) → has_thing x (remove_tasks_using_filter heap f q).0 ≡ passes f (find_task x q))
  unfolding remove_tasks_using_filter find_task
  filter-IsIndexed q i =
      let (i', found, has) =
        visit_all-IsIndexed q.task_id_to_heap_node [] q i.unique i (λ id node e. e) in
      (i', λ x. ground (arith, found x, missed x), λ x. ground (arith, has x, missed x))
    where
      missed : (x : ℕ) → has_key x q.task_id_to_heap_node ≡ false → find_task x q ≡ none
      missed x e = rw (find_task, has_key-get x q.task_id_to_heap_node e) refl

-- Boosts leave the nodes alone.
pub boosted-IsIndexed :
    {H : Type 0}
    → (owner : ℕ) (tags : Option (List (ℕ × ℤ))) (q : Queue H) → IsIndexed q
    → IsIndexed (set_priority_boost_tags owner tags q).0
unfolding set_priority_boost_tags
boosted-IsIndexed owner tags q i = record { unique = i.unique; valued = i.valued }

find_task-boosted :
    {H : Type 0}
    → (id owner : ℕ) (tags : Option (List (ℕ × ℤ))) (q : Queue H)
    → find_task id (set_priority_boost_tags owner tags q).0 ≡ find_task id q
unfolding set_priority_boost_tags find_task
find_task-boosted id owner tags q = refl

-- A queue whose map is right.
abbrev pub Indexed : Type 0 → Type 0
Indexed H = (q : Queue H) × IsIndexed q

abbrev pub indexed : {H : Type 0} → H → Indexed H
indexed h = (create_queue h, create_queue-IsIndexed h)

module _ {H : Type 0} (heap : Heap H) where
  -- The operations of the queue, as the keeper of the resources and the task manager call them.
  abbrev pub served : Priorities (Indexed H)
  served = record {
    prioritize = λ t p. (prioritize_task_thing heap t p.0, (prioritize-IsIndexed heap t p.0 p.1).0);
    remove = λ id p. (remove_task_thing heap id p.0, (remove-IsIndexed heap id p.0 p.1).0);
    remove_using_filter = λ f p. (
      (remove_tasks_using_filter heap f p.0).0,
      ((remove_tasks_using_filter heap f p.0).1, (filter-IsIndexed heap f p.0 p.1).0),
    );
    pop = λ p. (
      (pop_next_available_task heap p.0).0,
      ((pop_next_available_task heap p.0).1, (pop-IsIndexed heap p.0 p.1).0),
    );
    set_boosts = λ owner tags p.
        ((set_priority_boost_tags owner tags p.0).0, boosted-IsIndexed owner tags p.0 p.1);
    prioritized = λ id p. find_task id p.0;
  }

  pub served-IsPriorities : IsPriorities served
  served-IsPriorities = record {
    after_prioritize = λ id t p. (prioritize-IsIndexed heap t p.0 p.1).1 id;
    after_remove = λ id x p. (remove-IsIndexed heap x p.0 p.1).1 id;
    after_filter = λ id f p. (filter-IsIndexed heap f p.0 p.1).1 id;
    filtered = λ id f p. (filter-IsIndexed heap f p.0 p.1).2 id;
    after_set_boosts = λ id owner tags p. find_task-boosted id owner tags p.0;
    after_pop = λ id p. (pop-IsIndexed heap p.0 p.1).1 id;
  }
