-- ===== src/A64/Tests.antt =====
-- Concrete runs of the encoding, and the theorems at concrete inputs.
use gaia_email_libs_and_more.Common.{◌≡◌, refl, some, [], ◌∷◌, map, arith}
use gaia_email_libs_and_more.A64.{
  char_at, index_of, encode_loop, pad, encode_int, parse_int, to_string, mix, parse_ui64, string_lt,
  cmp_ui64, max_ui64, skip_zeros, decode_loop, unmix, decode_parts, decode_ui64, decode_a64_int,
}
use gaia_email_libs_and_more.A64.Digits.{lt_wf, value, digits_loop, digits, base10}
use gaia_email_libs_and_more.A64.Order.{sign, cmp_ui64-compares}
use gaia_email_libs_and_more.A64.RoundTrip.{parse_ui64-encodes}
use gaia_email_libs_and_more.A64.Decode.{decode_ui64-parse_ui64, decode_a64_int-encode_int}
use native.Mathlib.Decide.{dec_lt}
use Prim.Native.Nat.{Ordering}

-- A line that collects what the runs unfold.
program : Unit {0}
unfolding char_at index_of encode_loop pad encode_int parse_int to_string mix parse_ui64 string_lt
    cmp_ui64 max_ui64 skip_zeros decode_loop unmix decode_parts decode_ui64 decode_a64_int lt_wf
    digits_loop digits dec_lt
program = tt

-- "}{" is 63 * 64 + 62.
encodes : encode_int 4094 0 ≡ 125 ∷ 123 ∷ []
unfolding program
encodes = refl

decodes : decode_ui64 (125 ∷ 123 ∷ []) ≡ some (52 ∷ 48 ∷ 57 ∷ 52 ∷ [])
unfolding program
decodes = refl

largest :
    decode_ui64 (parse_ui64 (to_string 18446744073709551615) 0)
    ≡ some (to_string 18446744073709551615)
unfolding program
largest = refl

-- A short string is not padded, although padding is asked for.
unpadded : parse_ui64 (to_string 7) 11 ≡ 55 ∷ []
unfolding program
unpadded = refl

smaller : max_ui64 (encode_int 4096 0) (encode_int 1 0) ≡ encode_int 1 0
unfolding program
smaller = refl

cmp_ui64-compares_example :
    sign (cmp_ui64 (map char_at (9 ∷ [])) (map char_at (1 ∷ 0 ∷ []))) ≡ Ordering.lt
unfolding value
cmp_ui64-compares_example =
    cmp_ui64-compares 10 base10 (9 ∷ []) (1 ∷ 0 ∷ []) (omega arith) (omega arith) (omega arith) tt
      (omega arith)

parse_ui64-encodes_example :
    parse_ui64 (to_string 18446744073709551615) 16 ≡ encode_int 18446744073709551615 16
parse_ui64-encodes_example = parse_ui64-encodes 18446744073709551615 16 (omega arith)

decode_ui64-parse_ui64_example :
    decode_ui64 (parse_ui64 (to_string 18446744073709551615) 11)
    ≡ some (to_string 18446744073709551615)
decode_ui64-parse_ui64_example = decode_ui64-parse_ui64 18446744073709551615 11 (omega arith)

decode_a64_int-encode_int_example : decode_a64_int (encode_int 4094 4) ≡ some 4094
decode_a64_int-encode_int_example = decode_a64_int-encode_int 4094 4 (omega arith)
