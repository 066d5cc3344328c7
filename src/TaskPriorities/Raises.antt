-- ===== src/TaskPriorities/Raises.antt =====
-- When the change of an owner's boosts raises.
use gaia_email_libs_and_more.Common.{
  ℕ, ◌≡◌, refl, Bool, true, false, not, ◌||◌, ◌&&◌, Option, none, some, List, [], ◌∷◌,
  if◌then◌else◌, get, put, has_key, ℤ, ◌+ℤ◌, neg, arith, Option-cases, inl, inr,
}
use gaia_email_libs_and_more.TaskPriorities.{
  Boosts, boost, BoostDeltas, thing_deltas, apply_tag_delta, apply_new, apply_gone, or_new_map,
  Queue, is_nothing, set_priority_boost_tags,
}

-- Whether the tag mapping has a node for a tag.
unfoldable pub is_tagged : ℕ → List (ℕ × List ℕ) → Bool
is_tagged tag nodes = elim (get tag nodes) [
  | none ↦ false
  | some ns ↦ elim ns [ [] ↦ false | n ∷ ns ↦ true ]
]

-- Likewise for one of the tags of the first map that are not in the second.
unfoldable pub some_tagged : List (ℕ × List ℕ) → Boosts → Boosts → Bool
some_tagged nodes [] others = false
some_tagged nodes ((tag, v) ∷ m) others =
    (not (has_key tag others) && is_tagged tag nodes) || some_tagged nodes m others

is_nothing-put : (k : ℕ) (v : ℤ) (m : Boosts) → is_nothing (put k v m) ≡ false
unfolding put
is_nothing-put k v [] = refl
is_nothing-put k v ((j, w) ∷ m) = ground arith

abbrev pub is_nil : List ℕ → Bool
is_nil [] = true
is_nil (x ∷ xs) = false

is_nothing-thing_deltas :
    (delta : ℤ) (ns : List ℕ) (things : Boosts)
    → is_nothing (thing_deltas delta ns things) ≡ (is_nil ns && is_nothing things)
unfolding thing_deltas
is_nothing-thing_deltas delta [] things = refl
is_nothing-thing_deltas delta (n ∷ ns) things = ground (
  arith,
  is_nothing-put n (boost n things +ℤ delta) things,
  is_nothing-thing_deltas delta ns (put n (boost n things +ℤ delta) things),
)

is_nothing-apply_tag_delta :
    (nodes : List (ℕ × List ℕ)) (tag : ℕ) (delta : ℤ) (d : BoostDeltas)
    → is_nothing (apply_tag_delta nodes tag delta d).per_thing_deltas
      ≡ (not (is_tagged tag nodes) && is_nothing d.per_thing_deltas)
unfolding apply_tag_delta is_tagged
is_nothing-apply_tag_delta nodes tag delta d = elim (Option-cases (get tag nodes)) [
  | inl absent ↦ ground (arith, absent)
  | inr ([], present) ↦ ground (arith, present, is_nothing-thing_deltas delta [] d.per_thing_deltas)
  | inr (n ∷ ns, present) ↦
      ground (arith, present, is_nothing-thing_deltas delta (n ∷ ns) d.per_thing_deltas)
]

is_nothing-apply_new :
    (nodes : List (ℕ × List ℕ)) (existing new_values : Boosts) (d : BoostDeltas)
    → is_nothing (apply_new nodes existing new_values d).per_thing_deltas
      ≡ (not (some_tagged nodes new_values []) && is_nothing d.per_thing_deltas)
unfolding apply_new some_tagged has_key
is_nothing-apply_new nodes existing [] d = refl
is_nothing-apply_new nodes existing ((tag, v) ∷ m) d =
    let delta = v +ℤ neg (boost tag existing) in
    ground (
      arith,
      is_nothing-apply_tag_delta nodes tag delta d,
      is_nothing-apply_new nodes existing m (apply_tag_delta nodes tag delta d),
    )

is_nothing-apply_gone :
    (nodes : List (ℕ × List ℕ)) (new_values existing : Boosts) (d : BoostDeltas)
    → is_nothing (apply_gone nodes new_values existing d).per_thing_deltas
      ≡ (not (some_tagged nodes existing new_values) && is_nothing d.per_thing_deltas)
unfolding apply_gone some_tagged
is_nothing-apply_gone nodes new_values [] d = refl
is_nothing-apply_gone nodes new_values ((tag, v) ∷ m) d = ground (
  arith,
  is_nothing-apply_tag_delta nodes tag (neg v) d,
  is_nothing-apply_gone nodes new_values m
      (if has_key tag new_values then d else apply_tag_delta nodes tag (neg v) d),
)

-- The call raises exactly if the tag mapping has a node for a tag that the owner is given, or for one
-- that is taken from it; whether the heap still holds that node is not asked.
pub set_priority_boost_tags-raises :
    {H : Type 0}
    → (o : ℕ) (tags : Option Boosts) (q : Queue H)
    → (set_priority_boost_tags o tags q).1 ≡ (
        some_tagged q.priority_tag_to_heap_nodes (or_new_map tags) []
        || some_tagged q.priority_tag_to_heap_nodes
            (or_new_map (get o q.priority_tags_by_owner))
            (or_new_map tags))
unfolding set_priority_boost_tags
set_priority_boost_tags-raises o tags q =
    let existing = or_new_map (get o q.priority_tags_by_owner) in
    let nodes = q.priority_tag_to_heap_nodes in
    let start : BoostDeltas = record { sums = q.summed_priority_tags; per_thing_deltas = [] } in
    ground (
      arith,
      is_nothing-apply_new nodes existing (or_new_map tags) start,
      is_nothing-apply_gone nodes (or_new_map tags) existing
          (apply_new nodes existing (or_new_map tags) start),
    )
