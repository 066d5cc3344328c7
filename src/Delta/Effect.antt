-- ===== src/Delta/Effect.antt =====
-- What a change does to the members of a set.
use gaia_email_libs_and_more.Common.{ℕ, ◌≡◌, Bool, true, false, not, ◌&&◌, ◌||◌, has, IsUnique}
use gaia_email_libs_and_more.Delta.{items, Changes}

-- The members of a set after some changes: additions first, then removals.
abbrev pub after : (ℕ → Bool) → Changes → ℕ → Bool
after members c y = (members y || has y (items c.add)) && not (has y (items c.remove))

-- Changes that all take effect: as `normalizeAndApplyChangesToSet` reports them.
pub record IsExact (members : ℕ → Bool) (c : Changes) : Type 0 where
  pub added_absent : (y : ℕ) → has y (items c.add) ≡ true → members y ≡ false
  pub removed_present : (y : ℕ) → has y (items c.remove) ≡ true → members y ≡ true
  pub unique_add : IsUnique (items c.add)
  pub unique_remove : IsUnique (items c.remove)
