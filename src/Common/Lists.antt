-- ===== src/Common/Lists.antt =====
-- Lists measured and indexed by native numbers, under the library's names.
use Prim.Native.Nat.{ℕ, zero, suc, ◌+◌, ◌-◌, ◌<◌, ◌≤◌}
use gaia_email_libs_and_more.Common.Bools.{ltb, ◌==◌, if◌then◌else◌}
use mathlib.Core.Path.{◌≡◌, refl, ap}
use mathlib.Core.List.{List, [], ◌∷◌, ◌++◌}
use mathlib.Core.Option.{Option, none, some}
use native.Mathlib.Omega.{arith}

module _ {ℓ} {A : Type ℓ} where
  abbrev pub length : List A → ℕ
  length [] = 0
  length (x ∷ xs) = suc (length xs)

  abbrev pub get_elem? : List A → ℕ → Option A
  get_elem? [] i = none
  get_elem? (x ∷ xs) zero = some x
  get_elem? (x ∷ xs) (suc i) = get_elem? xs i

  pub get_elem?-some : (xs : List A) (i : ℕ) → i < length xs → (x : A) × (get_elem? xs i ≡ some x)
  get_elem?-some [] i h = elim h [ ]
  get_elem?-some (x ∷ xs) zero h = (x, refl)
  get_elem?-some (x ∷ xs) (suc i) h = get_elem?-some xs i (omega arith)

  pub get_elem?-lt-length : (l : List A) (j : ℕ) (y : A) → get_elem? l j ≡ some y → j < length l
  get_elem?-lt-length [] j y e = cc
  get_elem?-lt-length (x ∷ l) zero y e = omega arith
  get_elem?-lt-length (x ∷ l) (suc j) y e = omega (arith, get_elem?-lt-length l j y e)

  pub length-append : (xs ys : List A) → length (xs ++ ys) ≡ length xs + length ys
  length-append [] ys = omega arith
  length-append (x ∷ xs) ys = omega (arith, length-append xs ys)

-- A property of every item.
abbrev pub All {ℓ κ} : {A : Type ℓ} → (A → Type κ) → List A → Type κ
All P [] = Unit
All P (x ∷ xs) = P x × All P xs

pub All-append {ℓ κ} :
    {A : Type ℓ} (P : A → Type κ) (xs ys : List A) → All P xs → All P ys → All P (xs ++ ys)
All-append P [] ys hx hy = hy
All-append P (x ∷ xs) ys hx hy = (hx.0, All-append P xs ys hx.1 hy)

-- `for (let x of xs) { s = body(s, x); }`.
unfoldable pub for_each {ℓ κ} : {S : Type ℓ} {A : Type κ} → (S → A → S) → S → List A → S
for_each body s [] = s
for_each body s (x ∷ xs) = for_each body (body s x) xs

module _ {ℓ} {A : Type ℓ} where
  -- `list.splice(i, 0, x)`: past the end it appends.
  unfoldable pub insert_at : ℕ → A → List A → List A
  insert_at zero x ys = x ∷ ys
  insert_at (suc i) x [] = x ∷ []
  insert_at (suc i) x (y ∷ ys) = y ∷ insert_at i x ys

  -- `list.splice(i, 1)`: past the end nothing changes.
  unfoldable pub remove_at : ℕ → List A → List A
  remove_at i [] = []
  remove_at zero (y ∷ ys) = ys
  remove_at (suc i) (y ∷ ys) = y ∷ remove_at i ys

  pub get_elem?-insert_at :
      (i j : ℕ) (x : A) (ys : List A)
      → i ≤ length ys
      → get_elem? (insert_at i x ys) j
        ≡ (if ltb j i then get_elem? ys j else if j == i then some x else get_elem? ys (j - 1))
  unfolding insert_at
  get_elem?-insert_at zero zero x ys h = refl
  get_elem?-insert_at zero (suc j) x ys h = ground arith
  get_elem?-insert_at (suc i) j x [] h = absurd (omega arith)
  get_elem?-insert_at (suc i) zero x (y ∷ ys) h = ground arith
  get_elem?-insert_at (suc i) (suc zero) x (y ∷ ys) h =
      ground (arith, get_elem?-insert_at i zero x ys)
  get_elem?-insert_at (suc i) (suc (suc j)) x (y ∷ ys) h =
      ground (arith, get_elem?-insert_at i (suc j) x ys)

  pub get_elem?-remove_at :
      (i j : ℕ) (ys : List A)
      → get_elem? (remove_at i ys) j ≡ (if ltb j i then get_elem? ys j else get_elem? ys (suc j))
  unfolding remove_at
  get_elem?-remove_at i j [] = ground arith
  get_elem?-remove_at zero j (y ∷ ys) = ground arith
  get_elem?-remove_at (suc i) zero (y ∷ ys) = ground arith
  get_elem?-remove_at (suc i) (suc j) (y ∷ ys) = ground (arith, get_elem?-remove_at i j ys)

  pub length-insert_at : (i : ℕ) (x : A) (ys : List A) → length (insert_at i x ys) ≡ suc (length ys)
  unfolding insert_at
  length-insert_at zero x ys = refl
  length-insert_at (suc i) x [] = refl
  length-insert_at (suc i) x (y ∷ ys) = ap suc (length-insert_at i x ys)

  pub length-remove_at :
      (i : ℕ) (ys : List A) → i < length ys → suc (length (remove_at i ys)) ≡ length ys
  unfolding remove_at
  length-remove_at i [] h = elim h [ ]
  length-remove_at zero (y ∷ ys) h = refl
  length-remove_at (suc i) (y ∷ ys) h = ap suc (length-remove_at i ys (omega arith))

module _ {ℓ} {A : Type ℓ} where
  abbrev pub take : ℕ → List A → List A
  take zero xs = []
  take (suc n) [] = []
  take (suc n) (x ∷ xs) = x ∷ take n xs

  abbrev pub drop : ℕ → List A → List A
  drop zero xs = xs
  drop (suc n) [] = []
  drop (suc n) (x ∷ xs) = drop n xs
