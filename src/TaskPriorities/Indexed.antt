-- ===== src/TaskPriorities/Indexed.antt =====
-- The queue as the keeper of the resources sees it: the tasks that `_taskIdToHeapNode` finds. Nodes that
-- the heap still holds of a task that is not found are none of them.
use gaia_email_libs_and_more.Common.{
  ℕ, suc, ◌<◌, ◌≡◌, Option, none, some, List, ◌==◌, if◌then◌else◌, get, erase, get-put, get-erase,
  IsMap, put-IsMap, erase-IsMap, ℤ, arith, Option-cases, Bool-cases, inl, inr,
}
use gaia_email_libs_and_more.Priorities.{Thing, is_thing}
use gaia_email_libs_and_more.TaskPriorities.{Heap, Queue, create_queue}
use gaia_email_libs_and_more.TaskPriorities.Tasks.{
  pop_next_available_task, reprioritize_heap_node, node_key, prioritize_again, prioritize_new,
  prioritize_task_thing, remove_node, remove_task_thing,
}

-- The value of the node that is looked up for an id.
unfoldable pub find_task : {H : Type 0} → ℕ → Queue H → Option Thing
find_task id q = elim (get id q.task_id_to_heap_node) [
  | none ↦ none
  | some node ↦ get node q.values
]

-- A node that is looked up for an id was made, and its value has that id.
pub record IsIndexed {H : Type 0} (q : Queue H) : Type 0 where
  pub unique : IsMap q.task_id_to_heap_node
  pub valued :
      (id node : ℕ)
      → get id q.task_id_to_heap_node ≡ some node
      → (node < q.next_node) × (t : Thing) × (get node q.values ≡ some t) × (t.id ≡ id)

pub create_queue-IsIndexed : {H : Type 0} → (h : H) → IsIndexed (create_queue h)
unfolding get
create_queue-IsIndexed h = record { unique = tt; valued = λ id node e. cc }

module _ {H : Type 0} (heap : Heap H) where
  -- What a change of the key does to the nodes: nothing, or there is a new one.
  reprioritize-nodes :
      (node : ℕ) (key : ℤ) (q : Queue H)
      → ((reprioritize_heap_node heap node key q).task_id_to_heap_node ≡ q.task_id_to_heap_node)
        × (q.next_node < suc (reprioritize_heap_node heap node key q).next_node)
        × ((n : ℕ)
            → n < q.next_node
            → get n (reprioritize_heap_node heap node key q).values ≡ get n q.values)
  unfolding reprioritize_heap_node
  reprioritize-nodes node key q = elim (Option-cases (get node q.values)) [
    | inl e ↦ (ground (arith, e), ground (arith, e), λ n h. ground (arith, e))
    | inr (t, e) ↦ (
      ground (arith, e),
      ground (arith, e),
      λ n h. ground (arith, e, h, get-put n q.next_node t q.values),
    )
  ]

  module _ (t : Thing) (q : Queue H) (i : IsIndexed q) where
    again-IsIndexed :
        (node : ℕ)
        → get t.id q.task_id_to_heap_node ≡ some node
        → IsIndexed (prioritize_task_thing heap t q)
          × ((id : ℕ)
              → find_task id (prioritize_task_thing heap t q)
                ≡ (if t.id == id then some t else find_task id q))
    unfolding prioritize_task_thing prioritize_again find_task
    again-IsIndexed node known =
        let q' : Queue H = reprioritize_heap_node heap node (node_key heap t q) q in
        let (same, more, kept) = reprioritize-nodes node (node_key heap t q) q in
        (
          rw (prioritize_task_thing, known)
              (record {
                unique = rw same i.unique;
                valued = λ id n e.
                    let (made, u, value, has_id) = i.valued id n (rw same at e) in
                    elim (Bool-cases (node == n)) [
                      | inl here ↦ (
                        omega (arith, made, more),
                        t,
                        ground (arith, here, get-put n node t q'.values),
                        ground (
                          arith,
                          here,
                          known,
                          rw same at e,
                          i.valued t.id node known,
                          value,
                          has_id,
                        ),
                      )
                      | inr other ↦ (
                        omega (arith, made, more),
                        u,
                        ground (arith, other, get-put n node t q'.values, kept n made, value),
                        has_id,
                      )
                    ];
              }),
          λ id. elim (Option-cases (get id q.task_id_to_heap_node)) [
            | inl absent ↦ ground (arith, known, same, absent)
            | inr (n, present) ↦
                let (made, u, value, has_id) = i.valued id n present in
                let (made', u', value', has_id') = i.valued t.id node known in
                ground (
                  arith,
                  known,
                  same,
                  present,
                  value,
                  has_id,
                  value',
                  has_id',
                  kept n made,
                  get-put n node t q'.values,
                )
          ],
        )

    new-IsIndexed :
        get t.id q.task_id_to_heap_node ≡ none
        → IsIndexed (prioritize_task_thing heap t q)
          × ((id : ℕ)
              → find_task id (prioritize_task_thing heap t q)
                ≡ (if t.id == id then some t else find_task id q))
    unfolding prioritize_task_thing prioritize_new find_task
    new-IsIndexed unknown = (
      rw (prioritize_task_thing, unknown)
          (record {
            unique = put-IsMap t.id q.next_node q.task_id_to_heap_node i.unique;
            valued = λ id n e. elim (Bool-cases (t.id == id)) [
              | inl here ↦ (
                ground (arith, here, e, get-put id t.id q.next_node q.task_id_to_heap_node),
                t,
                ground (
                  arith,
                  here,
                  e,
                  get-put id t.id q.next_node q.task_id_to_heap_node,
                  get-put n q.next_node t q.values,
                ),
                ground (arith, here),
              )
              | inr other ↦
                  let (made, u, value, has_id) = i.valued id n (
                    ground (arith, other, e, get-put id t.id q.next_node q.task_id_to_heap_node)) in
                  (
                    omega (arith, made),
                    u,
                    ground (arith, made, value, get-put n q.next_node t q.values),
                    has_id,
                  )
            ];
          }),
      λ id. elim (Option-cases (get id q.task_id_to_heap_node)) [
        | inl absent ↦ ground (
          arith,
          unknown,
          absent,
          get-put id t.id q.next_node q.task_id_to_heap_node,
          get-put q.next_node q.next_node t q.values,
        )
        | inr (n, present) ↦
            let (made, u, value, has_id) = i.valued id n present in
            ground (
              arith,
              unknown,
              present,
              made,
              get-put id t.id q.next_node q.task_id_to_heap_node,
              get-put q.next_node q.next_node t q.values,
              get-put n q.next_node t q.values,
            )
      ],
    )

    pub prioritize-IsIndexed :
        IsIndexed (prioritize_task_thing heap t q)
        × ((id : ℕ)
            → find_task id (prioritize_task_thing heap t q)
              ≡ (if t.id == id then some t else find_task id q))
    prioritize-IsIndexed = elim (Option-cases (get t.id q.task_id_to_heap_node)) [
      | inl unknown ↦ new-IsIndexed unknown
      | inr (node, known) ↦ again-IsIndexed node known
    ]

  -- A queue in which other ids are found less: one was taken out.
  erased-IsIndexed :
      (x : ℕ) (h : H) (nodes : List (ℕ × List ℕ)) (q : Queue H)
      → IsIndexed q
      → IsIndexed (record q {
        prioritized_tasks = h;
        task_id_to_heap_node = erase x q.task_id_to_heap_node;
        priority_tag_to_heap_nodes = nodes;
      })
  erased-IsIndexed x h nodes q i = record {
    unique = erase-IsMap x q.task_id_to_heap_node i.unique;
    valued = λ id n e. i.valued id n (ground (arith, e, get-erase id x q.task_id_to_heap_node));
  }

  pub remove_node-IsIndexed :
      (x node : ℕ) (q : Queue H)
      → IsIndexed q
      → IsIndexed (remove_node heap x node q)
        × ((id : ℕ)
            → find_task id (remove_node heap x node q) ≡ (if x == id then none else find_task id q))
  unfolding remove_node find_task
  remove_node-IsIndexed x node q i =
      (erased-IsIndexed x _ _ q i, λ id. ground (arith, get-erase id x q.task_id_to_heap_node))

  pub remove-IsIndexed :
      (x : ℕ) (q : Queue H)
      → IsIndexed q
      → IsIndexed (remove_task_thing heap x q)
        × ((id : ℕ)
            → find_task id (remove_task_thing heap x q)
              ≡ (if x == id then none else find_task id q))
  unfolding remove_task_thing find_task
  remove-IsIndexed x q i = elim (Option-cases (get x q.task_id_to_heap_node)) [
    | inl absent ↦ (rw (remove_task_thing, absent) i, λ id. ground (arith, absent))
    | inr (node, present) ↦
        let (i', found) = remove_node-IsIndexed x node q i in
        (
          rw (remove_task_thing, present) i',
          λ id. rw (remove_task_thing, present) (unfold find_task in found id),
        )
  ]

  pub pop-IsIndexed :
      (q : Queue H)
      → IsIndexed q
      → IsIndexed (pop_next_available_task heap q).1
        × ((id : ℕ)
            → find_task id (pop_next_available_task heap q).1
              ≡ (if is_thing id (pop_next_available_task heap q).0 then none else find_task id q))
  unfolding pop_next_available_task find_task
  pop-IsIndexed q i = elim (Option-cases (heap.extract_minimum q.prioritized_tasks)) [
    | inl empty ↦ (rw (pop_next_available_task, empty) i, λ id. ground (arith, empty))
    | inr ((node, rest), taken) ↦ elim (Option-cases (get node q.values)) [
      | inl absent ↦ (
        rw (pop_next_available_task, taken, absent)
            (record { unique = i.unique; valued = i.valued }),
        λ id. ground (arith, taken, absent),
      )
      | inr (t, present) ↦ (
        rw (pop_next_available_task, taken, present) (erased-IsIndexed t.id rest _ q i),
        λ id. ground (arith, taken, present, get-erase id t.id q.task_id_to_heap_node),
      )
    ]
  ]
