-- ===== src/Bsearch/Order.antt =====
-- Comparison functions and the lists that they sort.
use Prim.Native.Nat.{Ordering}
use gaia_email_libs_and_more.Common.{
  ℕ, suc, ◌<◌, ◌≡◌, ◌≢◌, some, List, get_elem?, remove_at, get_elem?-remove_at, ltb, Bool-cases,
  inl, inr, arith,
}

-- What a comparison function has to satisfy: a total order up to ties.
pub record IsComparator {ℓ} {A : Type ℓ} (cmp : A → A → Ordering) : Type ℓ where
  pub gt_down : (a b c : A) → cmp a b ≡ Ordering.gt → cmp c b ≢ Ordering.gt → cmp a c ≡ Ordering.gt
  pub lt_up : (a b c : A) → cmp a b ≡ Ordering.lt → cmp b c ≢ Ordering.gt → cmp a c ≡ Ordering.lt
  pub eq_down : (a b c : A) → cmp a b ≡ Ordering.eq → cmp c b ≢ Ordering.gt → cmp a c ≢ Ordering.lt
  pub eq_up : (a b c : A) → cmp a b ≡ Ordering.eq → cmp b c ≢ Ordering.gt → cmp a c ≢ Ordering.gt
  pub swap : (a b : A) → cmp a b ≢ Ordering.lt → cmp b a ≢ Ordering.gt

-- No earlier item compares as greater than a later one.
abbrev pub IsSorted {ℓ} : {A : Type ℓ} → (A → A → Ordering) → List A → Type ℓ
IsSorted {A} cmp l =
    (i j : ℕ) (x y : A)
    → i < j
    → get_elem? l i ≡ some x
    → get_elem? l j ≡ some y
    → cmp x y ≢ Ordering.gt

-- A list without one of its items is as sorted.
pub remove_at-IsSorted {ℓ} :
    {A : Type ℓ} (cmp : A → A → Ordering) (i : ℕ) (l : List A)
    → IsSorted cmp l
    → IsSorted cmp (remove_at i l)
remove_at-IsSorted cmp i l sorted j k x y p at_j at_k =
    let ej = rw (get_elem?-remove_at i j l) at at_j in
    let ek = rw (get_elem?-remove_at i k l) at at_k in
    elim (Bool-cases (ltb j i)) [
      | inl j_low ↦ elim (Bool-cases (ltb k i)) [
        | inl k_low ↦ sorted j k x y p (rw j_low at ej) (rw k_low at ek)
        | inr k_high ↦ sorted j (suc k) x y (omega arith) (rw j_low at ej) (rw k_high at ek)
      ]
      | inr j_high ↦ elim (Bool-cases (ltb k i)) [
        | inl k_low ↦ absurd (ground arith)
        | inr k_high ↦ sorted (suc j) (suc k) x y (omega arith) (rw j_high at ej) (rw k_high at ek)
      ]
    ]
