-- ===== src/TaskPriorities/Sums.antt =====
-- The sum of the boosts of a tag is kept up to date.
use gaia_email_libs_and_more.Common.{
  ℕ, zero, suc, ◌+◌, ◌≡◌, refl, false, List, [], ◌∷◌, ◌==◌, if◌then◌else◌, get, has_key, get-put,
  get-erase, IsMap, has_key-get, ℤ, pos, negsuc, ◌+ℤ◌, neg, add-Balance, neg_parts, pos_part,
  neg_part, arith,
}
use gaia_email_libs_and_more.TaskPriorities.{
  Boosts, boost, new_sums, BoostDeltas, apply_tag_delta, apply_new, apply_gone,
}

boost-new_sums :
    (t tag : ℕ) (v : ℤ) (sums : Boosts)
    → boost t (new_sums tag v sums) ≡ (if tag == t then v else boost t sums)
unfolding boost
boost-new_sums t tag (pos zero) sums = ground (arith, get-erase t tag sums)
boost-new_sums t tag (pos (suc n)) sums = ground (arith, get-put t tag (pos (suc n)) sums)
boost-new_sums t tag (negsuc n) sums = ground (arith, get-put t tag (negsuc n) sums)

-- b moved by the difference of x and y is c.
abbrev pub Moved : ℤ → ℕ → ℕ → ℤ → Type 0
Moved b x y c = pos_part b + x + neg_part c ≡ neg_part b + y + pos_part c

apply_tag_delta-Moved :
    (nodes : List (ℕ × List ℕ)) (t tag : ℕ) (delta : ℤ) (d : BoostDeltas)
    → Moved
        (boost t d.sums)
        (if tag == t then pos_part delta else 0)
        (if tag == t then neg_part delta else 0)
        (boost t (apply_tag_delta nodes tag delta d).sums)
unfolding apply_tag_delta
apply_tag_delta-Moved nodes t tag delta d = ground (
  arith,
  boost-new_sums t tag (boost tag d.sums +ℤ delta) d.sums,
  add-Balance (boost tag d.sums) delta,
)

pub boost-missing : (t : ℕ) (m : Boosts) → has_key t m ≡ false → boost t m ≡ pos 0
unfolding boost
boost-missing t m h = rw (boost, has_key-get t m h) refl

boost-first :
    (t tag : ℕ) (v : ℤ) (m : Boosts) → boost t ((tag, v) ∷ m) ≡ (if tag == t then v else boost t m)
unfolding boost get
boost-first t tag v m = ground arith

pub apply_new-Moved :
    (nodes : List (ℕ × List ℕ)) (t : ℕ) (existing new_values : Boosts) (d : BoostDeltas)
    → IsMap new_values
    → Moved
        (boost t d.sums)
        (pos_part (boost t new_values)
          + (if has_key t new_values then neg_part (boost t existing) else 0))
        (neg_part (boost t new_values)
          + (if has_key t new_values then pos_part (boost t existing) else 0))
        (boost t (apply_new nodes existing new_values d).sums)
unfolding apply_new has_key boost get
apply_new-Moved nodes t existing [] d u = omega arith
apply_new-Moved nodes t existing ((tag, v) ∷ m) d u =
    let delta = v +ℤ neg (boost tag existing) in
    ground (
      arith,
      u.0,
      boost-first t tag v m,
      boost-missing t m,
      add-Balance v (neg (boost tag existing)),
      neg_parts (boost tag existing),
      apply_tag_delta-Moved nodes t tag delta d,
      apply_new-Moved nodes t existing m (apply_tag_delta nodes tag delta d) u.1,
    )

pub apply_gone-Moved :
    (nodes : List (ℕ × List ℕ)) (t : ℕ) (new_values existing : Boosts) (d : BoostDeltas)
    → IsMap existing
    → Moved
        (boost t d.sums)
        (if has_key t new_values then 0 else neg_part (boost t existing))
        (if has_key t new_values then 0 else pos_part (boost t existing))
        (boost t (apply_gone nodes new_values existing d).sums)
unfolding apply_gone has_key boost get
apply_gone-Moved nodes t new_values [] d u = ground arith
apply_gone-Moved nodes t new_values ((tag, v) ∷ m) d u = ground (
  arith,
  u.0,
  boost-first t tag v m,
  boost-missing t m,
  neg_parts v,
  apply_tag_delta-Moved nodes t tag (neg v) d,
  apply_gone-Moved nodes t new_values m
      (if has_key tag new_values then d else apply_tag_delta nodes tag (neg v) d) u.1,
)
