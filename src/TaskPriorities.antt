-- ===== src/TaskPriorities.antt =====
-- src/backend/task_infra/task_priorities.js: the queue of the tasks that are ready, by their priority.
-- The heap is a vendored one and a parameter.
pub mod Listed
pub mod Sums
pub mod Keys
pub mod Boosted
pub mod Runs
pub mod Raises
pub mod Indexed
pub mod Served
pub mod Tasks
mod Tests
use gaia_email_libs_and_more.Common.{
  ℕ, zero, suc, ◌+◌, Bool, true, false, not, Option, none, some, List, [], ◌∷◌, ◌++◌, ◌==◌,
  if◌then◌else◌, ltb, get, put, erase, has_key, delete, remove_first, for_each, ℤ, pos, negsuc,
  ◌+ℤ◌, neg,
}
use gaia_email_libs_and_more.Priorities.{Thing}

-- `FibonacciHeap`, by the numbers of its nodes. `key_of` is the node's field `key`.
pub record Heap (H : Type 0) : Type 0 where
  pub insert : ℕ → ℤ → H → H
  pub delete_node : ℕ → H → H
  pub decrease_key : ℕ → ℤ → H → H
  pub extract_minimum : H → Option (ℕ × H)
  pub is_empty : H → Bool
  pub node_count : H → ℕ
  pub key_of : ℕ → H → ℤ

-- Boosts by tag.
abbrev pub Boosts : Type 0
Boosts = List (ℕ × ℤ)

-- `TaskPriorities`. `values` has the field `value` of every node that was made, `next_node` the number
-- of the next.
pub record Queue (H : Type 0) : Type 0 where
  pub prioritized_tasks : H
  pub next_node : ℕ
  pub values : List (ℕ × Thing)
  pub task_id_to_heap_node : List (ℕ × ℕ)
  pub priority_tag_to_heap_nodes : List (ℕ × List ℕ)
  pub priority_tags_by_owner : List (ℕ × Boosts)
  pub summed_priority_tags : Boosts

abbrev pub create_queue : {H : Type 0} → H → Queue H
create_queue heap = record {
  prioritized_tasks = heap;
  next_node = 0;
  values = [];
  task_id_to_heap_node = [];
  priority_tag_to_heap_nodes = [];
  priority_tags_by_owner = [];
  summed_priority_tags = [];
}

-- `map.get(tag) || 0`.
unfoldable pub boost : ℕ → Boosts → ℤ
boost tag m = elim (get tag m) [ none ↦ pos 0 | some v ↦ v ]

-- `_computePriorityForTags`.
unfoldable pub compute_priority_for_tags : List ℕ → Boosts → ℤ
compute_priority_for_tags [] sums = pos 0
compute_priority_for_tags (tag ∷ tags) sums = boost tag sums +ℤ compute_priority_for_tags tags sums

-- ---- the boosts

-- The variables of `setPriorityBoostTags`.
pub record BoostDeltas : Type 0 where
  pub sums : Boosts
  pub per_thing_deltas : Boosts

abbrev pub is_falsy : ℤ → Bool
is_falsy (pos zero) = true
is_falsy (pos (suc n)) = false
is_falsy (negsuc n) = false

abbrev pub new_sums : ℕ → ℤ → Boosts → Boosts
new_sums tag new_sum sums = if is_falsy new_sum then erase tag sums else put tag new_sum sums

unfoldable pub thing_deltas : ℤ → List ℕ → Boosts → Boosts
thing_deltas delta [] things = things
thing_deltas delta (node ∷ nodes) things =
    thing_deltas delta nodes (put node (boost node things +ℤ delta) things)

-- `applyDelta`.
unfoldable pub apply_tag_delta : List (ℕ × List ℕ) → ℕ → ℤ → BoostDeltas → BoostDeltas
apply_tag_delta nodes tag delta d = record {
  sums = new_sums tag (boost tag d.sums +ℤ delta) d.sums;
  per_thing_deltas = elim (get tag nodes) [
    | none ↦ d.per_thing_deltas
    | some ns ↦ thing_deltas delta ns d.per_thing_deltas
  ];
}

unfoldable pub apply_new : List (ℕ × List ℕ) → Boosts → Boosts → BoostDeltas → BoostDeltas
apply_new nodes existing [] d = d
apply_new nodes existing ((tag, new_priority) ∷ new_values) d =
    apply_new nodes existing new_values
      (apply_tag_delta nodes tag (new_priority +ℤ neg (boost tag existing)) d)

unfoldable pub apply_gone : List (ℕ × List ℕ) → Boosts → Boosts → BoostDeltas → BoostDeltas
apply_gone nodes new_values [] d = d
apply_gone nodes new_values ((tag, old_priority) ∷ existing) d =
    apply_gone nodes new_values existing
      (if has_key tag new_values then d else apply_tag_delta nodes tag (neg old_priority) d)

abbrev pub or_new_map : Option Boosts → Boosts
or_new_map none = []
or_new_map (some m) = m

abbrev pub set_owner : ℕ → Option Boosts → List (ℕ × Boosts) → List (ℕ × Boosts)
set_owner owning_id none m = erase owning_id m
set_owner owning_id (some tags) m = put owning_id tags m

abbrev pub is_nothing : Boosts → Bool
is_nothing [] = true
is_nothing (d ∷ ds) = false

module _ {H : Type 0} where
  abbrev pub deltas : ℕ → Option Boosts → Queue H → BoostDeltas
  deltas owning_id tags_with_values q =
      let existing = or_new_map (get owning_id q.priority_tags_by_owner) in
      let new_values = or_new_map tags_with_values in
      apply_gone q.priority_tag_to_heap_nodes new_values existing (
        apply_new q.priority_tag_to_heap_nodes existing new_values
          (record { sums = q.summed_priority_tags; per_thing_deltas = [] }))

  -- `setPriorityBoostTags`, with whether it raises. The loop of the second phase takes the values of
  -- a map, which are numbers, apart as pairs: it raises a TypeError at the first.
  unfoldable pub set_priority_boost_tags : ℕ → Option Boosts → Queue H → Queue H × Bool
  set_priority_boost_tags owning_id tags_with_values q =
      let d : BoostDeltas = deltas owning_id tags_with_values q in
      (
        record q {
          priority_tags_by_owner = set_owner owning_id tags_with_values q.priority_tags_by_owner;
          summed_priority_tags = d.sums;
        },
        not (is_nothing d.per_thing_deltas),
      )
