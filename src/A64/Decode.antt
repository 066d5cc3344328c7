-- ===== src/A64/Decode.antt =====
-- Encoded strings back to decimal ones.
use gaia_email_libs_and_more.Common.{
  ℕ, zero, suc, ◌+◌, ◌-◌, ◌*◌, ◌/◌, ◌%◌, ◌^◌, ◌≤◌, ◌<◌, ◌≡◌, refl, sym, ap, ◌∙◌, false, some, List,
  [], ◌∷◌, ◌++◌, map, length, All, take, leb, arith, Bool-cases, inl, inr,
}
use gaia_email_libs_and_more.A64.{
  char_at, pad, encode_int, to_string, parse_ui64, skip_zeros, unmix, decode_parts, decode_ui64,
  decode_a64_int, last_part,
}
use gaia_email_libs_and_more.A64.Digits.{
  value, digits, value-digits, digits-IsBelow, base64, base10,
}
use gaia_email_libs_and_more.A64.Strings.{
  length-map, parse_int-value, decode_loop-value, map-append, char_at_lt,
}
use gaia_email_libs_and_more.A64.Padding.{zeros, pad-padded, sixteen_zeros}
use gaia_email_libs_and_more.A64.Glue.{
  value_below, take-map, drop-map, take-below, drop-below, value-parts, length-last_part,
  digits_glue, value_front,
}
use gaia_email_libs_and_more.A64.Mix.{unmix_quotient, unmix_remainder}
use gaia_email_libs_and_more.A64.RoundTrip.{encode_int-pad, parse_ui64-encodes}
use native.Mathlib.Nat.{pow-le-pow_right, mul-le-mul_right}

-- The digits behind the zeros.
unfoldable significant : List ℕ → List ℕ
significant [] = []
significant (zero ∷ ds) = significant ds
significant (suc d ∷ ds) = suc d ∷ ds

significant-below : (b : ℕ) (ds : List ℕ) → All (λ d. d < b) ds → All (λ d. d < b) (significant ds)
unfolding significant
significant-below b [] h = tt
significant-below b (zero ∷ ds) h = significant-below b ds h.1
significant-below b (suc d ∷ ds) h = h

value-significant : (b : ℕ) (ds : List ℕ) → value b 0 (significant ds) ≡ value b 0 ds
unfolding significant value
value-significant b [] = refl
value-significant b (zero ∷ ds) = value-significant b ds ∙ ap (λ a. value b a ds) (omega arith)
value-significant b (suc d ∷ ds) = refl

skip_zeros-significant :
    (ds : List ℕ)
    → All (λ d. d < 64) ds
    → skip_zeros (map char_at ds) ≡ map char_at (significant ds)
unfolding skip_zeros significant char_at
skip_zeros-significant [] h = refl
skip_zeros-significant (zero ∷ ds) h = skip_zeros-significant ds h.1
skip_zeros-significant (suc d ∷ ds) h = ground (arith, char_at_lt 0 (suc d))

skip_zeros-take :
    (n m : ℕ) (s : List ℕ) → skip_zeros (take n (map char_at (zeros m)) ++ s) ≡ skip_zeros s
unfolding skip_zeros zeros char_at
skip_zeros-take zero m s = refl
skip_zeros-take (suc n) zero s = refl
skip_zeros-take (suc n) (suc m) s = skip_zeros-take n m s

-- The zeros of the padding are skipped.
skip_zeros-pad : (width : ℕ) (s : List ℕ) → skip_zeros (pad width s) ≡ skip_zeros s
unfolding pad
skip_zeros-pad width s = rw sixteen_zeros (ground (arith, skip_zeros-take (width - length s) 16 s))

-- What `decodeUI64` makes of the two halves.
unmix_string :
    (uv lv : ℕ)
    → lv < 64 ^ 6
    → 10 ^ 14 ≤ uv * 64 ^ 6 + lv
    → unmix uv lv ≡ to_string (uv * 64 ^ 6 + lv)
unfolding unmix to_string
unmix_string uv lv h k =
    rw
      (
        unmix_quotient uv lv h,
        unmix_remainder uv lv h,
        pad-padded 14 (digits 10 base10 remainder) (omega arith),
      )
      (sym (map-append char_at _ _)
        ∙ ap (map char_at) (
            digits_glue 10 base10 13 quotient remainder (omega arith) (omega arith)
            ∙ ap (digits 10 base10) whole))
  where
    quotient : ℕ
    quotient = (uv * 64 ^ 6 + lv) / 10 ^ 14

    remainder : ℕ
    remainder = (uv * 64 ^ 6 + lv) % 10 ^ 14

    whole : quotient * 10 ^ 14 + remainder ≡ uv * 64 ^ 6 + lv
    whole = omega arith

long_significant :
    (es : List ℕ) → 8 < length (significant es) → 10 ^ 14 ≤ value 64 0 (significant es)
unfolding significant value
long_significant [] h = absurd (omega arith)
long_significant (zero ∷ es) h = long_significant es h
long_significant (suc d ∷ es) h = omega (
  arith,
  value_front 64 (0 + suc d) es,
  mul-le-mul_right {m = 1} {n = 0 + suc d} (64 ^ length es) (omega arith),
  pow-le-pow_right {n = 64} (omega arith) {i = 8} {j = length es} (omega arith),
)

decode_parts-value :
    (ds : List ℕ)
    → All (λ d. d < 64) ds
    → 6 ≤ length ds
    → 10 ^ 14 ≤ value 64 0 ds
    → decode_parts (map char_at ds) ≡ some (to_string (value 64 0 ds))
unfolding decode_parts
decode_parts-value ds hd hl h =
    rw
      (
        length-map char_at ds,
        take-map char_at _ ds,
        drop-map char_at _ ds,
        decode_loop-value 0 _ (take-below 64 (length ds - 6) ds hd),
        decode_loop-value 0 _ (drop-below 64 (length ds - 6) ds hd),
      )
      (ap some (
        unmix_string _ _ low_below (omega (arith, value-parts 64 6 ds hl))
        ∙ ap to_string (sym (value-parts 64 6 ds hl))))
  where
    low_below : value 64 0 (last_part 6 ds) < 64 ^ 6
    low_below =
        rw (length-last_part 6 ds hl) at (value_below 64 (last_part 6 ds) (drop-below 64 _ ds hd))

decode_significant :
    (es : List ℕ)
    → All (λ d. d < 64) es
    → decode_ui64 (map char_at es) ≡ some (to_string (value 64 0 es))
unfolding decode_ui64 decode_parts
decode_significant es h =
    rw (skip_zeros-significant es h)
      (elim (Bool-cases (leb (length (map char_at (significant es))) 8)) [
        | inl short ↦
            rw
              (
                short,
                decode_loop-value 0 (significant es) (significant-below 64 es h),
                value-significant,
              )
              refl
        | inr long ↦ rw long (
            decode_parts-value (significant es) (significant-below 64 es h)
              (omega (arith, is_long long)) (long_significant es (is_long long))
            ∙ ap (λ n. some (to_string n)) (value-significant 64 es))
      ])
  where
    is_long : leb (length (map char_at (significant es))) 8 ≡ false → 8 < length (significant es)
    is_long long = ground (arith, length-map char_at (significant es))

-- An encoded number is decoded to its decimal string, however it is padded.
decode_ui64-encode_int : (n width : ℕ) → decode_ui64 (encode_int n width) ≡ some (to_string n)
decode_ui64-encode_int n width =
    skipped
    ∙ decode_significant (digits 64 base64 n) (digits-IsBelow 64 base64 n)
    ∙ ap (λ v. some (to_string v)) (value-digits 64 base64 n)
  where
    skipped : decode_ui64 (encode_int n width) ≡ decode_ui64 (map char_at (digits 64 base64 n))
    skipped = unfold decode_ui64 in rw (encode_int-pad, skip_zeros-pad) refl

-- The decimal string of a number below 2 ^ 64 comes back from its encoding, whatever width it was
-- padded to.
pub decode_ui64-parse_ui64 :
    (n width : ℕ) → n < 2 ^ 64 → decode_ui64 (parse_ui64 (to_string n) width) ≡ some (to_string n)
decode_ui64-parse_ui64 n width h = rw (parse_ui64-encodes n width h) (decode_ui64-encode_int n _)

-- A number below 2 ^ 53 comes back from its encoding, whatever width it was padded to.
pub decode_a64_int-encode_int :
    (n width : ℕ) → n < 2 ^ 53 → decode_a64_int (encode_int n width) ≡ some n
unfolding to_string decode_a64_int
decode_a64_int-encode_int n width h =
    rw
      (
        decode_a64_int,
        decode_ui64-encode_int n width,
        parse_int-value 0 _ (digits-IsBelow 10 base10 n),
        value-digits,
      )
      refl
