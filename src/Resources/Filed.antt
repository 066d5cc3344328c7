-- ===== src/Resources/Filed.antt =====
-- A blocked task is filed, once, under a resource that it needs and that is not available.
use gaia_email_libs_and_more.Common.{
  ℕ, ◌+◌, ◌≤◌, ◌≡◌, true, false, Option, none, some, List, [], ◌∷◌, has, get, put, erase, get-put,
  get-erase, arith, All,
}
use gaia_email_libs_and_more.Priorities.{has_thing, Thing}
use gaia_email_libs_and_more.Resources.{Resources, first_missing}
use gaia_email_libs_and_more.Resources.Lists.{is_under, count, total, Everywhere}

-- The first missing resource is one that the thing needs and that is not available.
pub first_missing-some :
    (r : ℕ) (rs available : List ℕ)
    → first_missing rs available ≡ some r
    → (has r rs ≡ true) × (has r available ≡ false)
unfolding first_missing has
first_missing-some r [] available e = cc
first_missing-some r (x ∷ rs) available e = ground (arith, e, first_missing-some r rs available)

-- The thing is the one that is blocked under its id.
abbrev pub IsHeld : List (ℕ × Thing) → Thing → Type 0
IsHeld by_id t = get t.id by_id ≡ some t

abbrev pub bit : Option Thing → ℕ
bit none = 0
bit (some t) = 1

-- A resource that the thing lacks and is filed under.
abbrev pub IsLacking : List ℕ → List (ℕ × List Thing) → Thing → ℕ → Type 0
IsLacking available lists t id =
    (r : ℕ) × (has r t.resources ≡ true) × (has r available ≡ false) × (is_under r id lists ≡ true)

-- All blocked things are filed, but for those that are `left` to be filed anew.
pub record IsFiledBut {P : Type 0} (left : List Thing) (s : Resources P) : Type 0 where
  pub filed :
      (id : ℕ) (t : Thing)
      → get id s.blocked_by_id ≡ some t
      → has_thing id left ≡ false
      → IsLacking s.available s.blocked_by_resource t id
  pub once :
      (id : ℕ) → count id left + total id s.blocked_by_resource ≤ bit (get id s.blocked_by_id)
  pub held : Everywhere (IsHeld s.blocked_by_id) s.blocked_by_resource
  pub left_held : All (IsHeld s.blocked_by_id) left

-- A change of what is blocked under an id at which nothing is listed.
pub All-IsHeld-put :
    (t : Thing) (by_id : List (ℕ × Thing)) (ts : List Thing)
    → count t.id ts ≡ 0
    → All (IsHeld by_id) ts
    → All (IsHeld (put t.id t by_id)) ts
All-IsHeld-put t by_id [] z h = tt
All-IsHeld-put t by_id (u ∷ ts) z h = (
  ground (arith, h.0, get-put u.id t.id t by_id, z),
  All-IsHeld-put t by_id ts (ground (arith, z)) h.1,
)

pub All-IsHeld-erase :
    (x : ℕ) (by_id : List (ℕ × Thing)) (ts : List Thing)
    → count x ts ≡ 0
    → All (IsHeld by_id) ts
    → All (IsHeld (erase x by_id)) ts
All-IsHeld-erase x by_id [] z h = tt
All-IsHeld-erase x by_id (u ∷ ts) z h = (
  ground (arith, h.0, get-erase u.id x by_id, z),
  All-IsHeld-erase x by_id ts (ground (arith, z)) h.1,
)

pub Everywhere-IsHeld-put :
    (t : Thing) (by_id : List (ℕ × Thing)) (m : List (ℕ × List Thing))
    → total t.id m ≡ 0
    → Everywhere (IsHeld by_id) m
    → Everywhere (IsHeld (put t.id t by_id)) m
Everywhere-IsHeld-put t by_id [] z h = tt
Everywhere-IsHeld-put t by_id ((r, ts) ∷ m) z h = (
  All-IsHeld-put t by_id ts (omega (arith, z)) h.0,
  Everywhere-IsHeld-put t by_id m (omega (arith, z)) h.1,
)

pub Everywhere-IsHeld-erase :
    (x : ℕ) (by_id : List (ℕ × Thing)) (m : List (ℕ × List Thing))
    → total x m ≡ 0
    → Everywhere (IsHeld by_id) m
    → Everywhere (IsHeld (erase x by_id)) m
Everywhere-IsHeld-erase x by_id [] z h = tt
Everywhere-IsHeld-erase x by_id ((r, ts) ∷ m) z h = (
  All-IsHeld-erase x by_id ts (omega (arith, z)) h.0,
  Everywhere-IsHeld-erase x by_id m (omega (arith, z)) h.1,
)
