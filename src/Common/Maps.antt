-- ===== src/Common/Maps.antt =====
-- JavaScript's `Map` from identifiers, as an association list in insertion order.
use mathlib.Core.Path.{◌≡◌, refl}
use mathlib.Core.List.{List, [], ◌∷◌}
use mathlib.Core.Option.{Option, none, some}
use native.Mathlib.Omega.{arith}
use gaia_email_libs_and_more.Common.Bools.{◌==◌, if◌then◌else◌, bit}
use Prim.Native.Nat.{ℕ, ◌+◌, ◌<◌}
use mathlib.Core.Bool.{Bool, true, false}

module _ {ℓ} {V : Type ℓ} where
  -- `map.get(k)`; `none` is `undefined`.
  unfoldable pub get : ℕ → List (ℕ × V) → Option V
  get k [] = none
  get k ((j, v) ∷ m) = if j == k then some v else get k m

  -- `map.set(k, v)`: in place, or at the end.
  unfoldable pub put : ℕ → V → List (ℕ × V) → List (ℕ × V)
  put k v [] = (k, v) ∷ []
  put k v ((j, w) ∷ m) = if j == k then (k, v) ∷ m else (j, w) ∷ put k v m

  -- `map.delete(k)`.
  unfoldable pub erase : ℕ → List (ℕ × V) → List (ℕ × V)
  erase k [] = []
  erase k ((j, w) ∷ m) = if j == k then erase k m else (j, w) ∷ erase k m

  pub get-put :
      (j k : ℕ) (v : V) (m : List (ℕ × V))
      → get j (put k v m) ≡ (if k == j then some v else get j m)
  unfolding get put
  get-put j k v [] = refl
  get-put j k v ((i, w) ∷ m) = ground (arith, get-put j k v m)

  pub get-erase :
      (j k : ℕ) (m : List (ℕ × V)) → get j (erase k m) ≡ (if k == j then none else get j m)
  unfolding get erase
  get-erase j k [] = ground arith
  get-erase j k ((i, w) ∷ m) = ground (arith, get-erase j k m)

  -- Whether there is an entry for a key.
  unfoldable pub has_key : ℕ → List (ℕ × V) → Bool
  has_key k [] = false
  has_key k ((j, v) ∷ m) = if j == k then true else has_key k m

  -- An object that the map holds is changed in place.
  unfoldable pub update : ℕ → (V → V) → List (ℕ × V) → List (ℕ × V)
  update k f [] = []
  update k f ((j, v) ∷ m) = if j == k then (j, f v) ∷ m else (j, v) ∷ update k f m

  -- How many values pass a test.
  unfoldable pub count : (V → Bool) → List (ℕ × V) → ℕ
  count p [] = 0
  count p ((j, v) ∷ m) = bit (p v) + count p m

  -- No key stands twice.
  abbrev pub IsMap : List (ℕ × V) → Type 0
  IsMap [] = Unit
  IsMap ((j, v) ∷ m) = (has_key j m ≡ false) × IsMap m

  pub has_key-put :
      (j k : ℕ) (v : V) (m : List (ℕ × V))
      → has_key j (put k v m) ≡ (if k == j then true else has_key j m)
  unfolding has_key put
  has_key-put j k v [] = refl
  has_key-put j k v ((i, w) ∷ m) = ground (arith, has_key-put j k v m)

  pub has_key-erase :
      (j k : ℕ) (m : List (ℕ × V)) → has_key j (erase k m) ≡ (if k == j then false else has_key j m)
  unfolding has_key erase
  has_key-erase j k [] = ground arith
  has_key-erase j k ((i, w) ∷ m) = ground (arith, has_key-erase j k m)

  pub put-IsMap : (k : ℕ) (v : V) (m : List (ℕ × V)) → IsMap m → IsMap (put k v m)
  unfolding has_key put
  put-IsMap k v [] h = (refl, tt)
  put-IsMap k v ((j, w) ∷ m) h = ground (arith, put-IsMap k v m h.1, has_key-put j k v m)

  pub erase-IsMap : (k : ℕ) (m : List (ℕ × V)) → IsMap m → IsMap (erase k m)
  unfolding has_key erase
  erase-IsMap k [] h = tt
  erase-IsMap k ((j, w) ∷ m) h = ground (arith, erase-IsMap k m h.1, has_key-erase j k m)

  pub has_key-get : (k : ℕ) (m : List (ℕ × V)) → has_key k m ≡ false → get k m ≡ none
  unfolding has_key get
  has_key-get k [] h = refl
  has_key-get k ((j, w) ∷ m) h = ground (arith, has_key-get k m)

  pub get-has_key : (k : ℕ) (v : V) (m : List (ℕ × V)) → get k m ≡ some v → has_key k m ≡ true
  unfolding has_key get
  get-has_key k v [] h = cc
  get-has_key k v ((j, w) ∷ m) h = ground (arith, get-has_key k v m)

  pub get-update :
      (j k : ℕ) (f : V → V) (v : V) (m : List (ℕ × V))
      → get k m ≡ some v
      → get j (update k f m) ≡ (if k == j then some (f v) else get j m)
  unfolding get update
  get-update j k f v [] h = cc
  get-update j k f v ((i, w) ∷ m) h = ground (arith, get-update j k f v m)

  pub has_key-update :
      (j k : ℕ) (f : V → V) (m : List (ℕ × V)) → has_key j (update k f m) ≡ has_key j m
  unfolding has_key update
  has_key-update j k f [] = refl
  has_key-update j k f ((i, w) ∷ m) = ground (arith, has_key-update j k f m)

  pub count-update :
      (p : V → Bool) (k : ℕ) (f : V → V) (v : V) (m : List (ℕ × V))
      → get k m ≡ some v
      → count p (update k f m) + bit (p v) ≡ count p m + bit (p (f v))
  unfolding count update get
  count-update p k f v [] h = cc
  count-update p k f v ((j, w) ∷ m) h = ground (arith, count-update p k f v m)

  pub count-put_new :
      (p : V → Bool) (k : ℕ) (v : V) (m : List (ℕ × V))
      → get k m ≡ none
      → count p (put k v m) ≡ count p m + bit (p v)
  unfolding count put get
  count-put_new p k v [] h = omega arith
  count-put_new p k v ((j, w) ∷ m) h = ground (arith, count-put_new p k v m)

  pub count-put_old :
      (p : V → Bool) (k : ℕ) (v w : V) (m : List (ℕ × V))
      → get k m ≡ some w
      → count p (put k v m) + bit (p w) ≡ count p m + bit (p v)
  unfolding count put get
  count-put_old p k v w [] h = cc
  count-put_old p k v w ((j, u) ∷ m) h = ground (arith, count-put_old p k v w m)

  pub erase_missing : (k : ℕ) (m : List (ℕ × V)) → has_key k m ≡ false → erase k m ≡ m
  unfolding has_key erase
  erase_missing k [] h = refl
  erase_missing k ((j, w) ∷ m) h = ground (arith, erase_missing k m)

  pub count-erase :
      (p : V → Bool) (k : ℕ) (v : V) (m : List (ℕ × V))
      → IsMap m
      → get k m ≡ some v
      → count p (erase k m) + bit (p v) ≡ count p m
  unfolding count erase get
  count-erase p k v [] u h = cc
  count-erase p k v ((j, w) ∷ m) u h =
      ground (arith, count-erase p k v m u.1, erase_missing j m u.0)

  pub count-get :
      (p : V → Bool) (k : ℕ) (v : V) (m : List (ℕ × V))
      → get k m ≡ some v
      → p v ≡ true
      → 0 < count p m
  unfolding count get
  count-get p k v [] h e = cc
  count-get p k v ((j, w) ∷ m) h e = ground (arith, count-get p k v m)

  pub get-missing : (k : ℕ) (m : List (ℕ × V)) → get k m ≡ none → has_key k m ≡ false
  unfolding has_key get
  get-missing k [] h = refl
  get-missing k ((j, w) ∷ m) h = ground (arith, get-missing k m)

  pub update-IsMap : (k : ℕ) (f : V → V) (m : List (ℕ × V)) → IsMap m → IsMap (update k f m)
  unfolding has_key update
  update-IsMap k f [] h = tt
  update-IsMap k f ((j, w) ∷ m) h = ground (arith, update-IsMap k f m h.1, has_key-update j k f m)

  pub count-none :
      (p : V → Bool) (m : List (ℕ × V))
      → IsMap m
      → ((k : ℕ) (v : V) → get k m ≡ some v → p v ≡ false)
      → count p m ≡ 0
  unfolding count get
  count-none p [] u h = refl
  count-none p ((j, w) ∷ m) u h = ground (
    arith,
    h j w,
    count-none p m u.1 (λ k v e. h k v (ground (arith, e, u.0, get-has_key k v m e))),
  )
