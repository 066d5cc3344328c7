-- ===== src/A64/Digits.antt =====
-- Numbers written in a base, the digits from the highest: how many digits, which order, which value.
use gaia_email_libs_and_more.Common.{
  ℕ, zero, suc, ◌+◌, ◌*◌, ◌/◌, ◌%◌, ◌^◌, ◌≤◌, ◌<◌, ◌≡◌, refl, sym, ap, ◌∙◌, Bool, true, false, List,
  [], ◌∷◌, ◌++◌, length, All, ltb, ◌==◌, if◌then◌else◌, arith, inl, inr, ◌⊎◌, Bool-cases,
}
use mathlib.Core.Logic.{dite}
use mathlib.Core.WellFounded.{Acc, WellFounded}
use native.Mathlib.Decide.{dec_lt}
use native.Mathlib.Nat.{
  div-add-mod, mod-lt, mul-le-mul_right, pow-zero, pow-succ', pow-le-pow_right,
}

acc_below : (k n : ℕ) → n < k → Acc ◌<◌ n
acc_below zero n h = absurd (omega arith)
acc_below (suc k) n h = Acc.intro n (λ m hm. acc_below k m (omega arith))

unfoldable pub lt_wf : WellFounded ◌<◌
unfolding acc_below
lt_wf = record { apply = λ n. acc_below (suc n) n (omega arith) }

-- What digits say behind a number that is already read.
unfoldable pub value : ℕ → ℕ → List ℕ → ℕ
value b acc [] = acc
value b acc (d ∷ ds) = value b (acc * b + d) ds

-- The order of two strings of digits of the same length.
unfoldable pub lex : List ℕ → List ℕ → Bool
lex [] [] = false
lex [] (y ∷ ys) = true
lex (x ∷ xs) [] = false
lex (x ∷ xs) (y ∷ ys) = if x == y then lex xs ys else ltb x y

-- A digit, and no zero in front of another digit.
abbrev pub IsCanonical : List ℕ → Type 0
IsCanonical [] = ⊥
IsCanonical (d ∷ []) = Unit
IsCanonical (d ∷ e ∷ ds) = 0 < d

pub shrinks : (b v : ℕ) → 1 < b → 0 < v / b → v / b < v
shrinks b v hb h = omega (arith, div-add-mod v b, mul-le-mul_right {m = 2} {n = b} (v / b) hb)

pub base64 : 1 < 64
base64 = omega arith

pub base10 : 1 < 10
base10 = omega arith

step_lt : (b a c x y : ℕ) → a < c → x < b → a * b + x < c * b + y
step_lt b a c x y h hx = omega (arith, mul-le-mul_right {m = suc a} {n = c} b h)

pub value-append :
    (b acc : ℕ) (xs ys : List ℕ) → value b acc (xs ++ ys) ≡ value b (value b acc xs) ys
unfolding value
value-append b acc [] ys = refl
value-append b acc (x ∷ xs) ys = value-append b (acc * b + x) xs ys

-- More in front is more, whatever follows.
value_lt :
    (b a c : ℕ) (xs ys : List ℕ)
    → a < c
    → length xs ≡ length ys
    → All (λ d. d < b) xs
    → value b a xs < value b c ys
unfolding value
value_lt b a c [] [] h e hx = h
value_lt b a c [] (y ∷ ys) h e hx = absurd (omega arith)
value_lt b a c (x ∷ xs) [] h e hx = absurd (omega arith)
value_lt b a c (x ∷ xs) (y ∷ ys) h e hx =
    value_lt b (a * b + x) (c * b + y) xs ys (step_lt b a c x y h hx.0) (omega arith) hx.1

-- With the same in front the order is that of the digits.
pub lex-value :
    (b a : ℕ) (xs ys : List ℕ)
    → length xs ≡ length ys
    → All (λ d. d < b) xs
    → All (λ d. d < b) ys
    → lex xs ys ≡ ltb (value b a xs) (value b a ys)
unfolding value lex
lex-value b a [] [] e hx hy = ground arith
lex-value b a [] (y ∷ ys) e hx hy = absurd (omega arith)
lex-value b a (x ∷ xs) [] e hx hy = absurd (omega arith)
lex-value b a (x ∷ xs) (y ∷ ys) e hx hy = ground (
  arith,
  lex-value b (a * b + x) xs ys (omega arith) hx.1 hy.1,
  value_lt b (a * b + x) (a * b + y) xs ys,
  value_lt b (a * b + y) (a * b + x) ys xs,
)

-- A longer string without a zero in front is more.
pub value_longer :
    (b c : ℕ) (xs ys : List ℕ)
    → 1 < b
    → 0 < c
    → length xs ≤ length ys
    → All (λ d. d < b) xs
    → value b 0 xs < value b c ys
unfolding value
value_longer b c [] [] hb hc e hx = hc
value_longer b c (x ∷ xs) [] hb hc e hx = absurd (omega arith)
value_longer b c xs (y ∷ ys) hb hc e hx = elim (Bool-cases (length xs == suc (length ys))) [
  | inl same ↦ value_lt b 0 c xs (y ∷ ys) hc (ground arith) hx
  | inr less ↦ value_longer b (c * b + y) xs ys hb grown (ground arith) hx
]
  where
    grown : 0 < c * b + y
    grown = omega (arith, mul-le-mul_right {m = 1} {n = c} b hc)

lex_none :
    (xs ys : List ℕ) → length xs ≡ length ys → lex xs ys ≡ false → lex ys xs ≡ false → xs ≡ ys
unfolding lex
lex_none [] [] e h k = refl
lex_none [] (y ∷ ys) e h k = absurd (omega arith)
lex_none (x ∷ xs) [] e h k = absurd (omega arith)
lex_none (x ∷ xs) (y ∷ ys) e h k = ground (arith, lex_none xs ys)

-- The digits of a number, in front of digits.
unfoldable pub digits_loop : (b : ℕ) → 1 < b → (v : ℕ) → Acc ◌<◌ v → List ℕ → List ℕ
digits_loop b hb v (Acc.intro _ smaller) ds =
    dite (dec_lt 0 (v / b))
      (λ more. digits_loop b hb (v / b) (smaller _ (shrinks b v hb more)) (v % b ∷ ds))
      (λ _. v % b ∷ ds)

unfoldable pub digits : (b : ℕ) → 1 < b → ℕ → List ℕ
digits b hb v = digits_loop b hb v (lt_wf.apply v) []

quotient_step : (b v : ℕ) → v / b * b + v % b ≡ v
quotient_step b v = omega (arith, div-add-mod v b)

-- What holds of both branches of a test holds of the branch taken.
dite_either :
    {A C : Type 0} (P : C → Type 0) (d : Dec A) (f : A → C) (g : ¬ A → C)
    → ((a : A) → P (f a))
    → ((n : ¬ A) → P (g n))
    → P (dite d f g)
dite_either P (yes a) f g hf hg = hf a
dite_either P (no n) f g hf hg = hg n

last_digit : (b v : ℕ) → ¬ (0 < v / b) → v % b ≡ v
last_digit b v last = omega (arith, ap (λ q. q * b + v % b) none_left, quotient_step b v)
  where
    none_left : 0 ≡ v / b
    none_left = omega arith

value-digits_loop :
    (b : ℕ) (hb : 1 < b) (v : ℕ) (w : Acc ◌<◌ v) (ds : List ℕ)
    → value b 0 (digits_loop b hb v w ds) ≡ value b v ds
unfolding digits_loop value
value-digits_loop b hb v (Acc.intro _ smaller) ds =
    dite_either (λ r. value b 0 r ≡ value b v ds) (dec_lt 0 (v / b)) _ _
      (λ more.
        value-digits_loop b hb (v / b) (smaller _ (shrinks b v hb more)) (v % b ∷ ds)
        ∙ ap (λ a. value b a ds) (quotient_step b v))
      (λ last. ap (λ a. value b a ds) (omega (arith, last_digit b v last)))

digits_loop-below :
    (b : ℕ) (hb : 1 < b) (v : ℕ) (w : Acc ◌<◌ v) (ds : List ℕ)
    → All (λ d. d < b) ds
    → All (λ d. d < b) (digits_loop b hb v w ds)
unfolding digits_loop
digits_loop-below b hb v (Acc.intro _ smaller) ds h =
    dite_either (All (λ d. d < b)) (dec_lt 0 (v / b)) _ _
      (λ more.
        digits_loop-below b hb (v / b) (smaller _ (shrinks b v hb more)) (v % b ∷ ds)
          (digit_below, h))
      (λ last. (digit_below, h))
  where
    digit_below : v % b < b
    digit_below = mod-lt v (omega arith)

digits_loop-IsCanonical :
    (b : ℕ) (hb : 1 < b) (v : ℕ) (w : Acc ◌<◌ v) (ds : List ℕ)
    → 0 < v ⊎ (ds ≡ [])
    → IsCanonical (digits_loop b hb v w ds)
unfolding digits_loop
digits_loop-IsCanonical b hb v (Acc.intro _ smaller) ds h =
    dite_either IsCanonical (dec_lt 0 (v / b)) _ _
      (λ more.
        digits_loop-IsCanonical b hb (v / b) (smaller _ (shrinks b v hb more)) (v % b ∷ ds)
          (inl more))
      (λ last. first_digit ds h last)
  where
    first_digit : (es : List ℕ) → 0 < v ⊎ (es ≡ []) → ¬ (0 < v / b) → IsCanonical (v % b ∷ es)
    first_digit [] k last = tt
    first_digit (e ∷ es) (inl k) last = omega (arith, last_digit b v last)
    first_digit (e ∷ es) (inr k) last = cc

pub below_up : (b c : ℕ) (ds : List ℕ) → b ≤ c → All (λ d. d < b) ds → All (λ d. d < c) ds
below_up b c [] h hd = tt
below_up b c (d ∷ ds) h hd = (omega (arith, hd.0), below_up b c ds h hd.1)

module _ (b : ℕ) (hb : 1 < b) where
  -- Digits in the base.
  abbrev pub IsBelow : List ℕ → Type 0
  IsBelow ds = All (λ d. d < b) ds

  pub value-digits : (v : ℕ) → value b 0 (digits b hb v) ≡ v
  unfolding digits value
  value-digits v = value-digits_loop b hb v _ []

  pub digits-IsBelow : (v : ℕ) → IsBelow (digits b hb v)
  unfolding digits
  digits-IsBelow v = digits_loop-below b hb v _ [] tt

  pub digits-IsCanonical : (v : ℕ) → IsCanonical (digits b hb v)
  unfolding digits
  digits-IsCanonical v = digits_loop-IsCanonical b hb v _ [] (inr refl)

  -- Of two strings of digits the longer is the larger number.
  pub shorter-value_lt :
      (xs ys : List ℕ)
      → IsBelow xs
      → IsCanonical ys
      → length xs < length ys
      → 0 < length xs
      → value b 0 xs < value b 0 ys
  unfolding value
  shorter-value_lt xs [] hx cy h n = elim cy [ ]
  shorter-value_lt xs (y ∷ []) hx cy h n = absurd (omega arith)
  shorter-value_lt xs (y ∷ z ∷ ys) hx cy h n =
      value_longer b (0 * b + y) xs (z ∷ ys) hb (omega (arith, cy)) (omega arith) hx

  pub canonical_length : (xs : List ℕ) → IsCanonical xs → 0 < length xs
  canonical_length [] c = elim c [ ]
  canonical_length (x ∷ xs) c = omega arith

  pub value_eq-length :
      (xs ys : List ℕ)
      → IsBelow xs
      → IsBelow ys
      → IsCanonical xs
      → IsCanonical ys
      → value b 0 xs ≡ value b 0 ys
      → length xs ≡ length ys
  value_eq-length xs ys hx hy cx cy e = grind (
    arith,
    shorter-value_lt xs ys hx cy,
    shorter-value_lt ys xs hy cx,
    canonical_length xs cx,
    canonical_length ys cy,
  )

  -- A number has one string of digits.
  pub canonical_unique :
      (xs ys : List ℕ)
      → IsBelow xs
      → IsBelow ys
      → IsCanonical xs
      → IsCanonical ys
      → value b 0 xs ≡ value b 0 ys
      → xs ≡ ys
  canonical_unique xs ys hx hy cx cy e =
      let same = value_eq-length xs ys hx hy cx cy e in
      lex_none xs ys same (ground (arith, lex-value b 0 xs ys same hx hy))
        (ground (arith, lex-value b 0 ys xs (sym same) hy hx))

  no_power : (a c : ℕ) → a * c ^ 0 ≤ a
  no_power a c = rw pow-zero (omega arith)

  -- A number below a power of the base has at most so many digits.
  value_ge : (acc : ℕ) (ds : List ℕ) → acc * b ^ length ds ≤ value b acc ds
  unfolding value
  value_ge acc [] = no_power acc b
  value_ge acc (d ∷ ds) = omega (arith, pow-succ' b (length ds), more, value_ge (acc * b + d) ds)
    where
      more : acc * b ^ suc (length ds) ≤ (acc * b + d) * b ^ length ds
      more = rw pow-succ' (omega arith)

  pub length-digits : (k v : ℕ) → v < b ^ suc k → length (digits b hb v) ≤ suc k
  unfolding value
  length-digits k v h = bounded (digits b hb v) (digits-IsCanonical v) (value-digits v)
    where
      bounded : (ds : List ℕ) → IsCanonical ds → value b 0 ds ≡ v → length ds ≤ suc k
      bounded [] c e = elim c [ ]
      bounded (d ∷ []) c e = omega arith
      bounded (d ∷ f ∷ ds) c e = elim (Bool-cases (ltb (length ds) k)) [
        | inl short ↦ ground arith
        | inr long ↦ absurd (
            omega (
              arith,
              pow-le-pow_right {n = b} (omega arith) {i = suc k} {j = suc (length ds)}
                  (ground arith),
              value_ge (0 * b + d) (f ∷ ds),
              mul-le-mul_right {m = 1} {n = 0 * b + d} (b ^ suc (length ds)) (omega (arith, c)),
            ))
      ]
