-- ===== src/TaskPriorities/Boosted.antt =====
-- The summed priority of a tag and the boosts of the owners.
use gaia_email_libs_and_more.Common.{
  ℕ, ◌+◌, ◌≡◌, refl, ap, Option, none, some, List, [], ◌∷◌, ◌==◌, get, put, erase, get-put,
  get-erase, IsMap, put-IsMap, erase-IsMap, ℤ, pos, ◌+ℤ◌, pos_part, neg_part, arith, add-Balance,
  parts-same, Option-cases, Bool-cases, inl, inr, erase_missing,
}
use mathlib.Core.Path.{subst}
use mathlib.Core.Option.{some-injective}
use gaia_email_libs_and_more.TaskPriorities.{
  Boosts, boost, BoostDeltas, apply_new, or_new_map, set_owner, Queue, deltas,
  set_priority_boost_tags,
}
use gaia_email_libs_and_more.TaskPriorities.Sums.{Moved, apply_new-Moved, apply_gone-Moved}

-- What all owners give to a tag.
unfoldable pub total : ℕ → List (ℕ × Boosts) → ℤ
total t [] = pos 0
total t ((owner, m) ∷ owners) = boost t m +ℤ total t owners

boost-nothing : (t : ℕ) → boost t [] ≡ pos 0
unfolding boost get
boost-nothing t = refl

total-put :
    (t o : ℕ) (m : Boosts) (owners : List (ℕ × Boosts))
    → Moved
        (total t owners)
        (pos_part (boost t m) + neg_part (boost t (or_new_map (get o owners))))
        (neg_part (boost t m) + pos_part (boost t (or_new_map (get o owners))))
        (total t (put o m owners))
unfolding total put get
total-put t o m [] = ground (arith, boost-nothing t, add-Balance (boost t m) (pos 0))
total-put t o m ((j, w) ∷ owners) = ground (
  arith,
  add-Balance (boost t m) (total t owners),
  add-Balance (boost t w) (total t owners),
  add-Balance (boost t w) (total t (put o m owners)),
  total-put t o m owners,
)

total-erase :
    (t o : ℕ) (owners : List (ℕ × Boosts))
    → IsMap owners
    → Moved
        (total t owners)
        (neg_part (boost t (or_new_map (get o owners))))
        (pos_part (boost t (or_new_map (get o owners))))
        (total t (erase o owners))
unfolding total erase get
total-erase t o [] u = ground (arith, boost-nothing t)
total-erase t o ((j, w) ∷ owners) u = ground (
  arith,
  u.0,
  erase_missing j owners,
  add-Balance (boost t w) (total t owners),
  add-Balance (boost t w) (total t (erase o owners)),
  total-erase t o owners u.1,
)

total-set_owner :
    (t o : ℕ) (tags : Option Boosts) (owners : List (ℕ × Boosts))
    → IsMap owners
    → Moved
        (total t owners)
        (pos_part (boost t (or_new_map tags)) + neg_part (boost t (or_new_map (get o owners))))
        (neg_part (boost t (or_new_map tags)) + pos_part (boost t (or_new_map (get o owners))))
        (total t (set_owner o tags owners))
total-set_owner t o none owners u = ground (arith, boost-nothing t, total-erase t o owners u)
total-set_owner t o (some m) owners u = total-put t o m owners

-- The sum that is kept for a tag is what the owners give to it; the maps of JavaScript have a key once.
pub record IsSummed {H : Type 0} (q : Queue H) : Type 0 where
  pub summed : (t : ℕ) → boost t q.summed_priority_tags ≡ total t q.priority_tags_by_owner
  pub owners : IsMap q.priority_tags_by_owner
  pub maps : (o : ℕ) (m : Boosts) → get o q.priority_tags_by_owner ≡ some m → IsMap m

pub or_new_map-IsMap :
    {H : Type 0}
    → (o : ℕ) (q : Queue H) → IsSummed q
    → IsMap (or_new_map (get o q.priority_tags_by_owner))
or_new_map-IsMap o q i = elim (Option-cases (get o q.priority_tags_by_owner)) [
  | inl absent ↦ rw absent tt
  | inr (m, present) ↦ rw present (i.maps o m present)
]

deltas-Moved :
    {H : Type 0}
    → (t o : ℕ) (tags : Option Boosts) (q : Queue H) → IsSummed q
    → IsMap (or_new_map tags)
    → Moved
        (boost t q.summed_priority_tags)
        (pos_part (boost t (or_new_map tags))
          + neg_part (boost t (or_new_map (get o q.priority_tags_by_owner))))
        (neg_part (boost t (or_new_map tags))
          + pos_part (boost t (or_new_map (get o q.priority_tags_by_owner))))
        (boost t (deltas o tags q).sums)
deltas-Moved t o tags q i u =
    let existing = or_new_map (get o q.priority_tags_by_owner) in
    let nodes = q.priority_tag_to_heap_nodes in
    let start : BoostDeltas = record { sums = q.summed_priority_tags; per_thing_deltas = [] } in
    ground (
      arith,
      apply_new-Moved nodes t existing (or_new_map tags) start u,
      apply_gone-Moved nodes t (or_new_map tags) existing
          (apply_new nodes existing (or_new_map tags) start) (or_new_map-IsMap o q i),
    )

set_owner-IsMap :
    (o : ℕ) (tags : Option Boosts) (owners : List (ℕ × Boosts))
    → IsMap owners
    → IsMap (set_owner o tags owners)
set_owner-IsMap o none owners u = erase-IsMap o owners u
set_owner-IsMap o (some m) owners u = put-IsMap o m owners u

set_owner-maps :
    (o : ℕ) (tags : Option Boosts) (owners : List (ℕ × Boosts))
    → IsMap (or_new_map tags)
    → ((p : ℕ) (m : Boosts) → get p owners ≡ some m → IsMap m)
    → (p : ℕ) (m : Boosts) → get p (set_owner o tags owners) ≡ some m
    → IsMap m
set_owner-maps o none owners u maps p m e = maps p m (ground (arith, e, get-erase p o owners))
set_owner-maps o (some tags) owners u maps p m e = elim (Bool-cases (o == p)) [
  | inl same ↦
      let e' : some tags ≡ some m = ground (arith, e, same, get-put p o tags owners) in
      subst IsMap (some-injective tags m e') u
  | inr other ↦ maps p m (ground (arith, e, other, get-put p o tags owners))
]

-- The call keeps the sums, whether it raises or not.
pub set_priority_boost_tags-IsSummed :
    {H : Type 0}
    → (o : ℕ) (tags : Option Boosts) (q : Queue H) → IsSummed q
    → IsMap (or_new_map tags)
    → IsSummed (set_priority_boost_tags o tags q).0
unfolding set_priority_boost_tags
set_priority_boost_tags-IsSummed o tags q i u = record {
  summed = λ t.
      parts-same (boost t (deltas o tags q).sums)
        (total t (set_owner o tags q.priority_tags_by_owner))
        (omega (
          arith,
          ap pos_part (i.summed t),
          ap neg_part (i.summed t),
          deltas-Moved t o tags q i u,
          total-set_owner t o tags q.priority_tags_by_owner i.owners,
        ));
  owners = set_owner-IsMap o tags q.priority_tags_by_owner i.owners;
  maps = set_owner-maps o tags q.priority_tags_by_owner u i.maps;
}
