-- ===== src/A64/Padding.antt =====
-- Strings with zeros in front.
use gaia_email_libs_and_more.Common.{
  ℕ, zero, suc, ◌+◌, ◌-◌, ◌*◌, ◌≤◌, ◌<◌, ◌≡◌, refl, ap, false, List, [], ◌∷◌, ◌++◌, map, length,
  length-append, All, All-append, take, ltb, Bool-cases, inl, inr, arith,
}
use gaia_email_libs_and_more.A64.{zero_padding, char_at, pad}
use gaia_email_libs_and_more.A64.Digits.{value}
use gaia_email_libs_and_more.A64.Strings.{length-map, map-append}

-- Zeros in front of digits, up to a width.
unfoldable pub zeros : ℕ → List ℕ
zeros zero = []
zeros (suc n) = 0 ∷ zeros n

unfoldable pub padded : ℕ → List ℕ → List ℕ
padded width ds = zeros (width - length ds) ++ ds

pub take-zeros : (n m : ℕ) → n ≤ m → take n (map char_at (zeros m)) ≡ map char_at (zeros n)
unfolding zeros
take-zeros zero m h = refl
take-zeros (suc n) zero h = absurd (omega arith)
take-zeros (suc n) (suc m) h = ap (λ s. char_at 0 ∷ s) (take-zeros n m (omega arith))

pub sixteen_zeros : zero_padding ≡ map char_at (zeros 16)
unfolding zeros char_at
sixteen_zeros = refl

pub length-zeros : (n : ℕ) → length (zeros n) ≡ n
unfolding zeros
length-zeros zero = refl
length-zeros (suc n) = ap suc (length-zeros n)

-- Padding writes as many zeros as the string lacks.
pub pad-padded :
    (width : ℕ) (ds : List ℕ)
    → width ≤ 16
    → pad width (map char_at ds) ≡ map char_at (padded width ds)
unfolding pad padded
pad-padded width ds h = elim (Bool-cases (ltb (length ds) width)) [
  | inl short ↦
      rw (length-map, short, sixteen_zeros)
        (rw (take-zeros (width - length ds) 16 (omega arith), map-append) refl)
  | inr long ↦ rw (length-map, long, none_lacks long) (unfold zeros in refl)
]
  where
    none_lacks : ltb (length ds) width ≡ false → width - length ds ≡ 0
    none_lacks long = ground arith

nothing : (b : ℕ) → 0 * b + 0 ≡ 0
nothing b = omega arith

pub value-zeros : (b n : ℕ) (ds : List ℕ) → value b 0 (zeros n ++ ds) ≡ value b 0 ds
unfolding zeros value
value-zeros b zero ds = refl
value-zeros b (suc n) ds = rw (value, nothing b) (value-zeros b n ds)

pub zeros-below : (b n : ℕ) → 0 < b → All (λ d. d < b) (zeros n)
unfolding zeros
zeros-below b zero h = tt
zeros-below b (suc n) h = (h, zeros-below b n h)

-- A padded string has the width, and its value is the same.
pub length-padded : (width : ℕ) (ds : List ℕ) → length ds ≤ width → length (padded width ds) ≡ width
unfolding padded
length-padded width ds h = rw (length-append, length-zeros) (omega arith)

pub value-padded : (b width : ℕ) (ds : List ℕ) → value b 0 (padded width ds) ≡ value b 0 ds
unfolding padded
value-padded b width ds = value-zeros b (width - length ds) ds

pub padded-below :
    (b width : ℕ) (ds : List ℕ) → 0 < b → All (λ d. d < b) ds → All (λ d. d < b) (padded width ds)
unfolding padded
padded-below b width ds h hd = All-append _ (zeros (width - length ds)) ds (zeros-below b _ h) hd
