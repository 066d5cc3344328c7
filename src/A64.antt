-- ===== src/A64.antt =====
-- src/shared/a64.js: numbers as strings that sort as the numbers do. A string is the list of the
-- codes of its characters.
pub mod Digits
mod Strings
mod Padding
mod Glue
pub mod Mix
pub mod RoundTrip
pub mod Decode
mod Tests
pub mod Order
use gaia_email_libs_and_more.Common.{
  ℕ, zero, suc, ◌+◌, ◌-◌, ◌*◌, ◌/◌, ◌%◌, ◌^◌, ◌<◌, Bool, true, false, ◌&&◌, Option, none, some,
  List, [], ◌∷◌, ◌++◌, map, length, get_elem?, take, drop, ltb, leb, ◌==◌, if◌then◌else◌, ◌>>=◌, ℤ,
  pos, negsuc, sub_ℕ, arith,
}
use gaia_email_libs_and_more.A64.Digits.{lt_wf, shrinks, digits, base64, base10}
use mathlib.Core.Logic.{dite}
use mathlib.Core.WellFounded.{Acc}
use native.Mathlib.Decide.{dec_lt}

-- '0' to '9', 'A' to 'Z', 'a' to 'z', '{' and '}'.
abbrev pub ordered_arbitrary_base64_chars : List ℕ
ordered_arbitrary_base64_chars =
    48 ∷ 49 ∷ 50 ∷ 51 ∷ 52 ∷ 53 ∷ 54 ∷ 55 ∷ 56 ∷ 57 ∷ 65 ∷ 66 ∷ 67 ∷ 68 ∷ 69 ∷ 70 ∷ 71 ∷ 72 ∷ 73
    ∷ 74 ∷ 75 ∷ 76 ∷ 77 ∷ 78 ∷ 79 ∷ 80 ∷ 81 ∷ 82 ∷ 83 ∷ 84 ∷ 85 ∷ 86 ∷ 87 ∷ 88 ∷ 89 ∷ 90 ∷ 97 ∷ 98
    ∷ 99 ∷ 100 ∷ 101 ∷ 102 ∷ 103 ∷ 104 ∷ 105 ∷ 106 ∷ 107 ∷ 108 ∷ 109 ∷ 110 ∷ 111 ∷ 112 ∷ 113 ∷ 114
    ∷ 115 ∷ 116 ∷ 117 ∷ 118 ∷ 119 ∷ 120 ∷ 121 ∷ 122 ∷ 123 ∷ 125 ∷ []

abbrev pub zero_padding : List ℕ
zero_padding = 48 ∷ 48 ∷ 48 ∷ 48 ∷ 48 ∷ 48 ∷ 48 ∷ 48 ∷ 48 ∷ 48 ∷ 48 ∷ 48 ∷ 48 ∷ 48 ∷ 48 ∷ 48 ∷ []

-- The character at an index of the table, which is never past its end.
unfoldable pub char_at : ℕ → ℕ
char_at d = elim (get_elem? ordered_arbitrary_base64_chars d) [ none ↦ 0 | some c ↦ c ]

-- `list.indexOf(c)`, counting from `i`; `none` is -1.
unfoldable pub index_of : ℕ → ℕ → List ℕ → Option ℕ
index_of i c [] = none
index_of i c (x ∷ xs) = if x == c then some i else index_of (suc i) c xs

-- The loop of `encodeInt`. What it pushes stands in front, as it does after the reversal. `v & 0x3f`
-- is taken of the lowest 32 bits.
unfoldable pub encode_loop : (v : ℕ) → Acc ◌<◌ v → List ℕ → List ℕ
encode_loop v (Acc.intro _ smaller) sbits =
    let pushed = char_at (v % 2 ^ 32 % 64) ∷ sbits in
    dite (dec_lt 0 (v / 64))
      (λ more. encode_loop (v / 64) (smaller _ (shrinks 64 v base64 more)) pushed) (λ _. pushed)

-- `ZERO_PADDING.substring(0, width - s.length) + s`, for a string that is shorter than the width.
unfoldable pub pad : ℕ → List ℕ → List ℕ
pad width s = if ltb (length s) width then take (width - length s) zero_padding ++ s else s

-- A width of 0 stands for none, as both are falsy.
unfoldable pub encode_int : ℕ → ℕ → List ℕ
encode_int v pad_to = pad pad_to (encode_loop v (lt_wf.apply v) [])

-- `parseInt(s, 10)`, for a string that starts with a digit: what follows the digits is ignored.
unfoldable pub parse_int : ℕ → List ℕ → ℕ
parse_int acc [] = acc
parse_int acc (c ∷ s) =
    let rest = parse_int (acc * 10 + (c - 48)) s in if leb 48 c && leb c 57 then rest else acc

-- `n.toString(10)`.
unfoldable pub to_string : ℕ → List ℕ
to_string n = map char_at (digits 10 base10 n)

abbrev pub e10_14_rsh_14 : ℕ
e10_14_rsh_14 = 6103515625

-- The two strings that `parseUI64` glues together, and what it computes on the way. The numbers are
-- doubles; below 2 ^ 53 a double is exact.
pub record Mixed : Type 0 where
  pub low_parse : ℕ
  pub high_parse : ℕ
  pub raw_high_bits : ℕ
  pub low_bits_added : ℕ
  pub low_bits : ℕ
  pub overflow : ℕ
  pub high_bits : ℕ

unfoldable pub mix : ℕ → ℕ → Mixed
mix low high =
    let raw = high * e10_14_rsh_14 in
    let added = raw % 2 ^ 36 * 2 ^ 14 % 2 ^ 36 + low % 2 ^ 36 in
    let carry = added / 2 ^ 36 % 2 in
    record {
      low_parse = low;
      high_parse = high;
      raw_high_bits = raw;
      low_bits_added = added;
      low_bits = added % 2 ^ 36;
      overflow = carry;
      high_bits = raw / 2 ^ 22 + low / 2 ^ 36 + carry;
    }

-- `s.substring(s.length - n)` and `s.substring(0, s.length - n)`.
abbrev pub last_part : ℕ → List ℕ → List ℕ
last_part n s = drop (length s - n) s

abbrev pub first_part : ℕ → List ℕ → List ℕ
first_part n s = take (length s - n) s

unfoldable pub parse_ui64 : List ℕ → ℕ → List ℕ
parse_ui64 s pad_to =
    if ltb (length s) 16
    then encode_int (parse_int 0 s) 0
    else let m = mix (parse_int 0 (last_part 14 s)) (parse_int 0 (first_part 14 s)) in
      pad pad_to (encode_int m.high_bits 0 ++ encode_int m.low_bits 6)

-- The order of strings: by the first character that differs, a prefix first.
unfoldable pub string_lt : List ℕ → List ℕ → Bool
string_lt [] [] = false
string_lt [] (y ∷ ys) = true
string_lt (x ∷ xs) [] = false
string_lt (x ∷ xs) (y ∷ ys) = if x == y then string_lt xs ys else ltb x y

unfoldable pub cmp_ui64 : List ℕ → List ℕ → ℤ
cmp_ui64 a b =
    if length a == length b
    then (if string_lt a b then negsuc 0 else if string_lt b a then pos 1 else pos 0)
    else sub_ℕ (length a) (length b)

abbrev pub is_one : ℤ → Bool
is_one (pos n) = n == 1
is_one (negsuc n) = false

unfoldable pub max_ui64 : List ℕ → List ℕ → List ℕ
max_ui64 a b = if is_one (cmp_ui64 a b) then a else b

-- The zeros in front are skipped.
unfoldable pub skip_zeros : List ℕ → List ℕ
skip_zeros [] = []
skip_zeros (c ∷ s) = if c == 48 then skip_zeros s else c ∷ s

-- `v * 64 + indexOf(c)` for each character; `none` where a character is not of the alphabet, for which
-- the source would go on with the -1 of `indexOf`.
unfoldable pub decode_loop : ℕ → List ℕ → Option ℕ
decode_loop v [] = some v
decode_loop v (c ∷ s) = elim (index_of 0 c ordered_arbitrary_base64_chars) [
  | none ↦ none
  | some d ↦ decode_loop (v * 64 + d) s
]

-- The decimal string of `uv * 2 ^ 36 + lv`. The quotient of doubles below 2 ^ 53 by
-- 6103515625, rounded down, is the quotient of the numbers.
unfoldable pub unmix : ℕ → ℕ → List ℕ
unmix uv lv =
    let rsh14 = uv * 2 ^ 22 + lv / 2 ^ 14 in
    let udv = rsh14 / e10_14_rsh_14 in
    let low_bits_removed = (rsh14 - udv * e10_14_rsh_14) * 2 ^ 14 + lv % 2 ^ 14 in
    to_string udv ++ pad 14 (to_string low_bits_removed)

-- A string of more than eight characters, by its two parts.
unfoldable pub decode_parts : List ℕ → Option (List ℕ)
decode_parts es = do
  uv ← decode_loop 0 (first_part 6 es)
  lv ← decode_loop 0 (last_part 6 es)
  some (unmix uv lv)

unfoldable pub decode_ui64 : List ℕ → Option (List ℕ)
decode_ui64 s =
    let es = skip_zeros s in
    if leb (length es) 8
    then elim (decode_loop 0 es) [ none ↦ none | some v ↦ some (to_string v) ]
    else decode_parts es

-- `parseInt(decodeUI64(es), 10)`.
unfoldable pub decode_a64_int : List ℕ → Option ℕ
decode_a64_int es = elim (decode_ui64 es) [ none ↦ none | some s ↦ some (parse_int 0 s) ]
