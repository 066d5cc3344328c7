-- ===== src/A64/RoundTrip.antt =====
-- Decimal strings to encoded ones and back.
use gaia_email_libs_and_more.Common.{
  ℕ, ◌+◌, ◌*◌, ◌^◌, ◌≤◌, ◌<◌, ◌≡◌, refl, sym, ap, ◌∙◌, List, ◌++◌, map, length, All, ltb, arith,
  if◌then◌else◌, Bool-cases, inl, inr,
}
use gaia_email_libs_and_more.A64.{
  char_at, pad, encode_int, parse_int, to_string, mix, parse_ui64, last_part, first_part,
}
use gaia_email_libs_and_more.A64.Digits.{
  value, digits, value-digits, digits-IsBelow, length-digits, base64, base10,
}
use gaia_email_libs_and_more.A64.Strings.{
  length-map, encode_loop-digits, pad_none, parse_int-value, map-append,
}
use gaia_email_libs_and_more.A64.Padding.{pad-padded}
use gaia_email_libs_and_more.A64.Glue.{
  value_below, take-map, drop-map, take-below, drop-below, value-parts, length-last_part,
  digits_glue,
}
use gaia_email_libs_and_more.A64.Mix.{mix-low_bits, mix-halves}
use native.Mathlib.Nat.{pow-le-pow_right}

-- The parts of a string that is cut are strings of digits, too.
parse_int-parts :
    (n : ℕ) (ds : List ℕ)
    → All (λ d. d < 10) ds
    → (parse_int 0 (last_part n (map char_at ds)) ≡ value 10 0 (last_part n ds))
      × (parse_int 0 (first_part n (map char_at ds)) ≡ value 10 0 (first_part n ds))
parse_int-parts n ds h =
    rw (length-map char_at ds, drop-map char_at _ ds, take-map char_at _ ds)
      (parse_int-value 0 _ (drop-below 10 _ ds h), parse_int-value 0 _ (take-below 10 _ ds h))

pub encode_int-pad :
    (n width : ℕ) → encode_int n width ≡ pad width (map char_at (digits 64 base64 n))
unfolding encode_int
encode_int-pad n width = ap (pad width) (encode_loop-digits n)

-- `encodeInt` of the halves that `mix` finds, one behind the other.
halves_glued :
    (low high : ℕ)
    → low < 10 ^ 14
    → 10 ^ 15 ≤ high * 10 ^ 14 + low
    → encode_int (mix low high).high_bits 0 ++ encode_int (mix low high).low_bits 6
      ≡ map char_at (digits 64 base64 (high * 10 ^ 14 + low))
halves_glued low high h k =
    rw
      (
        encode_int-pad,
        encode_int-pad,
        pad_none,
        pad-padded 6 (digits 64 base64 low_half) (omega arith),
      )
      (sym (map-append char_at _ _)
        ∙ ap (map char_at) (
            digits_glue 64 base64 5 high_half low_half
              (omega (arith, mix-halves low high h, mix-low_bits low high)) (mix-low_bits low high)
            ∙ ap (digits 64 base64) (mix-halves low high h)))
  where
    high_half : ℕ
    high_half = (mix low high).high_bits

    low_half : ℕ
    low_half = (mix low high).low_bits

string_length : (n : ℕ) → ltb (length (digits 10 base10 n)) 16 ≡ ltb n (10 ^ 15)
string_length n = ground (arith, length-digits 10 base10 14 n, short)
  where
    short : length (digits 10 base10 n) < 16 → n < 10 ^ 15
    short h = omega (
      arith,
      value_below 10 (digits 10 base10 n) (digits-IsBelow 10 base10 n),
      value-digits 10 base10 n,
      pow-le-pow_right {n = 10} (omega arith) {i = length (digits 10 base10 n)} {j = 15}
          (omega arith),
    )

long_string : (n : ℕ) → ltb (length (map char_at (digits 10 base10 n))) 16 ≡ ltb n (10 ^ 15)
long_string n = rw length-map (string_length n)

-- What is computed of a long string.
parts_glued :
    (ds : List ℕ)
    → All (λ d. d < 10) ds
    → 14 ≤ length ds
    → 10 ^ 15 ≤ value 10 0 ds
    → encode_int
          (mix
            (parse_int 0 (last_part 14 (map char_at ds)))
            (parse_int 0 (first_part 14 (map char_at ds)))).high_bits
          0
        ++ encode_int
            (mix
              (parse_int 0 (last_part 14 (map char_at ds)))
              (parse_int 0 (first_part 14 (map char_at ds)))).low_bits
            6
      ≡ map char_at (digits 64 base64 (value 10 0 ds))
parts_glued ds hd hl h =
    rw ((parse_int-parts 14 ds hd).0, (parse_int-parts 14 ds hd).1)
      (halves_glued _ _ low_below (omega (arith, value-parts 10 14 ds hl))
        ∙ ap (λ n. map char_at (digits 64 base64 n)) (sym (value-parts 10 14 ds hl)))
  where
    low_below : value 10 0 (last_part 14 ds) < 10 ^ 14
    low_below =
        rw (length-last_part 14 ds hl) at (value_below 10 (last_part 14 ds) (drop-below 10 _ ds hd))

-- `parseUI64` of the decimal string of a number below 2 ^ 64 is the number's encoding, which is
-- padded as asked for when the number has more than 15 digits, and else not at all.
pub parse_ui64-encodes :
    (n width : ℕ)
    → n < 2 ^ 64
    → parse_ui64 (to_string n) width ≡ encode_int n (if ltb n (10 ^ 15) then 0 else width)
unfolding parse_ui64 to_string
parse_ui64-encodes n width h = elim (Bool-cases (ltb n (10 ^ 15))) [
  | inl short ↦
      rw (long_string n, short)
        (ap (λ v. encode_int v 0)
          (parse_int-value 0 _ (digits-IsBelow 10 base10 n) ∙ value-digits 10 base10 n))
  | inr long ↦
      rw (long_string n, long)
        (ap (pad width) (
            parts_glued (digits 10 base10 n) (digits-IsBelow 10 base10 n)
              (ground (arith, string_length n)) (ground (arith, value-digits 10 base10 n)))
          ∙ rw (value-digits 10 base10 n, encode_int-pad n width) refl)
]
