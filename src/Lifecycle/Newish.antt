-- ===== src/Lifecycle/Newish.antt =====
-- `newishIndexExclusive` is the length of the run of newish conversations at the top of the list.
use gaia_email_libs_and_more.Common.{
  zero, suc, refl, true, [], ◌∷◌, ◌&&◌, if◌then◌else◌, ℤ, pos, negsuc, ◌+ℤ◌, ℕ, ◌+◌, ◌-◌, ◌≤◌, ◌<◌,
  ◌≡◌, Bool, Option, none, some, List, length, get_elem?, ltb, leb, insert_at, remove_at,
  get_elem?-insert_at, get_elem?-remove_at, length-insert_at, length-remove_at, arith,
}
use gaia_email_libs_and_more.Lifecycle.{on_index_change}

-- A mark for each conversation of the list: exactly the first `n` are newish.
abbrev pub IsMarked : ℕ → List Bool → Type 0
IsMarked n marks =
    (n ≤ length marks) × ((j : ℕ) (b : Bool) → get_elem? marks j ≡ some b → b ≡ ltb j n)

-- An index, -1 for none.
abbrev pub index_of_option : Option ℕ → ℤ
index_of_option none = negsuc 0
index_of_option (some i) = pos i

-- Whether the first conversations of the list, so many, are all newish.
abbrev pub all_newish : ℕ → List Bool → Bool
all_newish zero marks = true
all_newish (suc i) [] = true
all_newish (suc i) (b ∷ marks) = b && all_newish i marks

-- The list after the change. What comes in is newish if all conversations above it are.
abbrev pub without : Option ℕ → List Bool → List Bool
without none marks = marks
without (some old) marks = remove_at old marks

abbrev pub moved : Option ℕ → Option ℕ → List Bool → List Bool
moved old none marks = without old marks
moved old (some new) marks = insert_at new (all_newish new (without old marks)) (without old marks)

-- Places of the list, not both none; and no newish conversation goes down to the end of the newish
-- ones or beyond.
abbrev pub IsMove : ℕ → Option ℕ → Option ℕ → List Bool → Type 0
IsMove newish none none marks = ⊥
IsMove newish none (some new) marks = new ≤ length marks
IsMove newish (some old) none marks = old < length marks
IsMove newish (some old) (some new) marks =
    (old < length marks) × (new < length marks) × (old < newish → new < newish)

tail-IsMarked :
    (n : ℕ) (b : Bool) (marks : List Bool) → IsMarked (suc n) (b ∷ marks) → IsMarked n marks
tail-IsMarked n b marks m = (omega (arith, m.0), λ j c e. ground (arith, m.1 (suc j) c e))

-- As far as the run of newish conversations reaches, and no farther.
all_newish-leb :
    (i n : ℕ) (marks : List Bool)
    → IsMarked n marks
    → i ≤ length marks
    → all_newish i marks ≡ leb i n
all_newish-leb zero n marks m h = ground arith
all_newish-leb (suc i) n [] m h = absurd (omega (arith, h))
all_newish-leb (suc i) zero (b ∷ marks) m h = ground (arith, m.1 0 b refl)
all_newish-leb (suc i) (suc n) (b ∷ marks) m h =
    ground
      (arith, m.1 0 b refl, all_newish-leb i n marks (tail-IsMarked n b marks m) (omega (arith, h)))

removed-IsMarked :
    (newish old : ℕ) (marks : List Bool)
    → IsMarked newish marks
    → old < length marks
    → IsMarked (if ltb old newish then newish - 1 else newish) (remove_at old marks)
removed-IsMarked newish old marks m h = (
  ground (arith, m.0, length-remove_at old marks h),
  λ j b e. ground (arith, get_elem?-remove_at old j marks, m.1 j b, m.1 (j + 1) b),
)

inserted-IsMarked :
    (newish new : ℕ) (marks : List Bool)
    → IsMarked newish marks
    → new ≤ length marks
    → IsMarked
        (if leb new newish then newish + 1 else newish)
        (insert_at new (all_newish new marks) marks)
inserted-IsMarked newish new marks m h = rw (all_newish-leb new newish marks m h) (
  ground (arith, m.0, length-insert_at new (leb new newish) marks),
  λ j b e.
      ground (arith, get_elem?-insert_at new j (leb new newish) marks h, m.1 j b, m.1 (j - 1) b),
)

-- If exactly the conversations above the index are newish, and a conversation appears at a place of
-- the list, goes away from one, or moves from one to another, exactly those above the new index are
-- newish again, where what comes in counts as newish if all that is above it is. Left out are an
-- index of -1 twice, and a newish conversation that goes down to the end of the newish ones or
-- beyond.
pub on_index_change-IsMarked :
    (newish : ℕ) (old new : Option ℕ) (marks : List Bool)
    → IsMarked newish marks
    → IsMove newish old new marks
    → (n : ℕ) × (on_index_change (index_of_option old) (index_of_option new) (pos newish) ≡ pos n)
      × IsMarked n (moved old new marks)
unfolding on_index_change ◌+ℤ◌
on_index_change-IsMarked newish none none marks m h = absurd h
on_index_change-IsMarked newish none (some new) marks m h =
    (_, ground arith, inserted-IsMarked newish new marks m h)
on_index_change-IsMarked newish (some old) none marks m h =
    (_, ground arith, removed-IsMarked newish old marks m h)
on_index_change-IsMarked newish (some old) (some new) marks m h = (
  (let n = if ltb old newish then newish - 1 else newish in if leb new n then n + 1 else n),
  ground (arith, h.2),
  inserted-IsMarked (if ltb old newish then newish - 1 else newish) new (remove_at old marks)
      (removed-IsMarked newish old marks m h.0)
      (omega (arith, h.1, length-remove_at old marks h.0)),
)
