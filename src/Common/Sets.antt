-- ===== src/Common/Sets.antt =====
-- JavaScript's `Set` of identifiers, and arrays of identifiers used as sets. An identifier (a
-- folder id, a flag, a task id, a UID) is an opaque token that is only compared by `===`; a number
-- stands for it. A set keeps its insertion order.
use Prim.Native.Nat.{ℕ}
use mathlib.Core.Path.{◌≡◌, refl}
use mathlib.Core.Bool.{Bool, true, false, not, ◌&&◌, ◌||◌}
use mathlib.Core.List.{List, [], ◌∷◌, ◌++◌}
use native.Mathlib.Omega.{arith}
use gaia_email_libs_and_more.Common.Bools.{◌==◌, if◌then◌else◌, Bool-cases}
use mathlib.Core.Logic.{inl, inr}

-- `set.has(x)`, and `list.indexOf(x) !== -1`.
unfoldable pub has : ℕ → List ℕ → Bool
has x [] = false
has x (y ∷ ys) = y == x || has x ys

-- `set.add(x)`.
unfoldable pub add : ℕ → List ℕ → List ℕ
unfolding has
add x s = if has x s then s else s ++ x ∷ []

-- `set.delete(x)`.
unfoldable pub delete : ℕ → List ℕ → List ℕ
delete x [] = []
delete x (y ∷ ys) = if y == x then delete x ys else y ∷ delete x ys

-- `new Set(list)`.
unfoldable pub add_all : List ℕ → List ℕ → List ℕ
add_all [] s = s
add_all (x ∷ xs) s = add_all xs (add x s)

-- `list.splice(list.indexOf(x), 1)`, for an `x` that is in the list.
unfoldable pub remove_first : ℕ → List ℕ → List ℕ
remove_first x [] = []
remove_first x (y ∷ ys) = if y == x then ys else y ∷ remove_first x ys

-- No item stands twice.
abbrev pub IsUnique : List ℕ → Type 0
IsUnique [] = Unit
IsUnique (x ∷ xs) = (has x xs ≡ false) × IsUnique xs

pub has-append : (x : ℕ) (xs ys : List ℕ) → has x (xs ++ ys) ≡ (has x xs || has x ys)
unfolding has
has-append x [] ys = refl
has-append x (y ∷ xs) ys = ground (arith, has-append x xs ys)

pub has-add : (y x : ℕ) (s : List ℕ) → has y (add x s) ≡ (has y s || x == y)
unfolding add has
has-add y x s = ground (arith, has-append y s (x ∷ []))

pub has-delete : (y x : ℕ) (s : List ℕ) → has y (delete x s) ≡ (has y s && not (x == y))
unfolding delete has
has-delete y x [] = refl
has-delete y x (z ∷ s) = ground (arith, has-delete y x s)

pub has-add_all : (y : ℕ) (xs s : List ℕ) → has y (add_all xs s) ≡ (has y s || has y xs)
unfolding add_all has
has-add_all y [] s = ground arith
has-add_all y (x ∷ xs) s = ground (arith, has-add_all y xs (add x s), has-add y x s)

pub has-remove_first :
    (y x : ℕ) (s : List ℕ) → IsUnique s → has y (remove_first x s) ≡ (has y s && not (x == y))
unfolding remove_first has
has-remove_first y x [] u = refl
has-remove_first y x (z ∷ s) u = ground (arith, has-remove_first y x s u.1)

pub delete-IsUnique : (x : ℕ) (s : List ℕ) → IsUnique s → IsUnique (delete x s)
unfolding delete has
delete-IsUnique x [] u = tt
delete-IsUnique x (y ∷ s) u = ground (arith, delete-IsUnique x s u.1, has-delete y x s)

pub append-IsUnique : (x : ℕ) (s : List ℕ) → IsUnique s → has x s ≡ false → IsUnique (s ++ x ∷ [])
unfolding has
append-IsUnique x [] u h = (refl, tt)
append-IsUnique x (y ∷ s) u h = ground (arith, append-IsUnique x s u.1, has-append y s (x ∷ []))

pub add-IsUnique : (x : ℕ) (s : List ℕ) → IsUnique s → IsUnique (add x s)
unfolding add
add-IsUnique x s u = ground (arith, append-IsUnique x s u)

pub add_all-IsUnique : (xs s : List ℕ) → IsUnique s → IsUnique (add_all xs s)
unfolding add_all
add_all-IsUnique [] s u = u
add_all-IsUnique (x ∷ xs) s u = add_all-IsUnique xs (add x s) (add-IsUnique x s u)

pub append-IsUnique_apart :
    (xs ys : List ℕ)
    → IsUnique xs
    → IsUnique ys
    → ((y : ℕ) → has y xs ≡ true → has y ys ≡ false)
    → IsUnique (xs ++ ys)
unfolding has
append-IsUnique_apart [] ys u v apart = v
append-IsUnique_apart (x ∷ xs) ys u v apart = (
  ground (arith, has-append x xs ys, apart x),
  append-IsUnique_apart xs ys u.1 v (λ y h. apart y (ground arith)),
)

pub append-not-IsUnique :
    (x : ℕ) (xs ys : List ℕ) → has x xs ≡ true → has x ys ≡ true → ¬ IsUnique (xs ++ ys)
unfolding has
append-not-IsUnique x [] ys h k u = cc
append-not-IsUnique x (z ∷ xs) ys h k u = elim (Bool-cases (has x xs)) [
  | inl later ↦ append-not-IsUnique x xs ys later k u.1
  | inr here ↦ ground (arith, has-append x xs ys)
]
