-- ===== src/A64/Glue.antt =====
-- Digits cut in two and glued together.
use gaia_email_libs_and_more.Common.{
  ℕ, zero, suc, ◌+◌, ◌-◌, ◌*◌, ◌^◌, ◌≤◌, ◌<◌, ◌≡◌, refl, sym, ap, ◌∙◌, List, [], ◌∷◌, ◌++◌, map,
  length, All, All-append, take, drop, arith,
}
use gaia_email_libs_and_more.A64.{last_part, first_part}
use gaia_email_libs_and_more.A64.Digits.{
  value, digits, IsBelow, IsCanonical, canonical_unique, value-append, value-digits, digits-IsBelow,
  digits-IsCanonical, length-digits,
}
use gaia_email_libs_and_more.A64.Padding.{padded, length-padded, value-padded, padded-below}
use native.Mathlib.Nat.{pow-zero, pow-succ', mul-le-mul_right}

-- What stands in front counts by a power of the base.
pub value_front : (b acc : ℕ) (ds : List ℕ) → value b acc ds ≡ acc * b ^ length ds + value b 0 ds
unfolding value
value_front b acc [] = rw pow-zero (omega arith)
value_front b acc (d ∷ ds) = omega (
  arith,
  value_front b (acc * b + d) ds,
  value_front b (0 * b + d) ds,
  ap (λ p. acc * p) (pow-succ' b (length ds)),
)

pub value_below : (b : ℕ) (ds : List ℕ) → All (λ d. d < b) ds → value b 0 ds < b ^ length ds
unfolding value
value_below b [] h = omega (arith, pow-zero b)
value_below b (d ∷ ds) h = omega (
  arith,
  value_front b (0 * b + d) ds,
  value_below b ds h.1,
  pow-succ' b (length ds),
  mul-le-mul_right {m = suc d} {n = b} (b ^ length ds) h.0,
)

pub take-map : (f : ℕ → ℕ) (n : ℕ) (ds : List ℕ) → take n (map f ds) ≡ map f (take n ds)
take-map f zero ds = refl
take-map f (suc n) [] = refl
take-map f (suc n) (d ∷ ds) = ap (λ s. f d ∷ s) (take-map f n ds)

pub drop-map : (f : ℕ → ℕ) (n : ℕ) (ds : List ℕ) → drop n (map f ds) ≡ map f (drop n ds)
drop-map f zero ds = refl
drop-map f (suc n) [] = refl
drop-map f (suc n) (d ∷ ds) = drop-map f n ds

take-drop : (n : ℕ) (ds : List ℕ) → take n ds ++ drop n ds ≡ ds
take-drop zero ds = refl
take-drop (suc n) [] = refl
take-drop (suc n) (d ∷ ds) = ap (λ s. d ∷ s) (take-drop n ds)

pub take-below : (b n : ℕ) (ds : List ℕ) → All (λ d. d < b) ds → All (λ d. d < b) (take n ds)
take-below b zero ds h = tt
take-below b (suc n) [] h = tt
take-below b (suc n) (d ∷ ds) h = (h.0, take-below b n ds h.1)

pub drop-below : (b n : ℕ) (ds : List ℕ) → All (λ d. d < b) ds → All (λ d. d < b) (drop n ds)
drop-below b zero ds h = h
drop-below b (suc n) [] h = tt
drop-below b (suc n) (d ∷ ds) h = drop-below b n ds h.1

length-drop : (n : ℕ) (ds : List ℕ) → length (drop n ds) ≡ length ds - n
length-drop zero ds = omega arith
length-drop (suc n) [] = omega arith
length-drop (suc n) (d ∷ ds) = omega (arith, length-drop n ds)

pub length-last_part : (n : ℕ) (ds : List ℕ) → n ≤ length ds → length (last_part n ds) ≡ n
length-last_part n ds h = omega (arith, length-drop (length ds - n) ds)

-- The value of the two parts of a string.
pub value-parts :
    (b n : ℕ) (ds : List ℕ)
    → n ≤ length ds
    → value b 0 ds ≡ value b 0 (first_part n ds) * b ^ n + value b 0 (last_part n ds)
value-parts b n ds h =
    sym (ap (value b 0) (take-drop (length ds - n) ds))
    ∙ value-append b 0 (first_part n ds) (last_part n ds)
    ∙ value_front b _ (last_part n ds)
    ∙ ap (λ k. value b 0 (first_part n ds) * b ^ k + value b 0 (last_part n ds))
        (length-last_part n ds h)

append-IsCanonical :
    (b : ℕ) (xs ys : List ℕ) → IsCanonical xs → 0 < value b 0 xs → IsCanonical (xs ++ ys)
unfolding value
append-IsCanonical b [] ys c h = elim c [ ]
append-IsCanonical b (x ∷ []) [] c h = tt
append-IsCanonical b (x ∷ []) (y ∷ ys) c h = omega (arith, h)
append-IsCanonical b (x ∷ z ∷ xs) ys c h = c

-- The digits of a quotient and those of the remainder, filled up with zeros, are the number's.
pub digits_glue :
    (b : ℕ) (hb : 1 < b) (k q r : ℕ)
    → 0 < q
    → r < b ^ suc k
    → digits b hb q ++ padded (suc k) (digits b hb r) ≡ digits b hb (q * b ^ suc k + r)
digits_glue b hb k q r hq hr =
    canonical_unique b hb (digits b hb q ++ tail) (digits b hb (q * b ^ suc k + r))
      (All-append _ (digits b hb q) tail (digits-IsBelow b hb q) tail_below)
      (digits-IsBelow b hb (q * b ^ suc k + r))
      (append-IsCanonical b (digits b hb q) tail (digits-IsCanonical b hb q)
        (omega (arith, value-digits b hb q)))
      (digits-IsCanonical b hb (q * b ^ suc k + r))
      (value_glued ∙ sym (value-digits b hb (q * b ^ suc k + r)))
  where
    tail : List ℕ
    tail = padded (suc k) (digits b hb r)

    tail_below : IsBelow b hb tail
    tail_below = padded-below b (suc k) (digits b hb r) (omega arith) (digits-IsBelow b hb r)

    value_glued : value b 0 (digits b hb q ++ tail) ≡ q * b ^ suc k + r
    value_glued =
        value-append b 0 (digits b hb q) tail
        ∙ value_front b _ tail
        ∙ rw
            (
              value-digits b hb q,
              length-padded (suc k) (digits b hb r) (length-digits b hb k r hr),
              value-padded b (suc k) (digits b hb r),
              value-digits b hb r,
            )
            refl
