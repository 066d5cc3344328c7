-- ===== src/A64/Mix.antt =====
-- The arithmetic of `parseUI64` and `decodeUI64` on the two halves of a number.
use gaia_email_libs_and_more.Common.{ℕ, ◌+◌, ◌-◌, ◌*◌, ◌/◌, ◌%◌, ◌^◌, ◌<◌, ◌≡◌, arith}
use gaia_email_libs_and_more.A64.{mix, e10_14_rsh_14}

-- What no double represents exactly, all numbers below aside.
abbrev pub IsExact : ℕ → Type 0
IsExact n = n < 2 ^ 53

-- For the two parts of a decimal number below 2 ^ 64, all that is computed is below 2 ^ 53, where
-- doubles are exact.
pub mix-IsExact :
    (low high : ℕ)
    → low < 10 ^ 14
    → high * 10 ^ 14 + low < 2 ^ 64
    → IsExact (mix low high).raw_high_bits
      × IsExact ((mix low high).raw_high_bits % 2 ^ 36 * 2 ^ 14)
      × IsExact (mix low high).low_bits_added
      × IsExact (mix low high).high_bits
unfolding mix
mix-IsExact low high h k = (omega arith, omega arith, omega arith, omega arith)

pub mix-low_bits : (low high : ℕ) → (mix low high).low_bits < 64 ^ 6
unfolding mix
mix-low_bits low high = omega arith

-- The two halves are the number's.
pub mix-halves :
    (low high : ℕ)
    → low < 10 ^ 14
    → (mix low high).high_bits * 64 ^ 6 + (mix low high).low_bits ≡ high * 10 ^ 14 + low
unfolding mix
mix-halves low high h = omega arith

pub unmix_quotient :
    (uv lv : ℕ)
    → lv < 64 ^ 6
    → (uv * 2 ^ 22 + lv / 2 ^ 14) / e10_14_rsh_14 ≡ (uv * 64 ^ 6 + lv) / 10 ^ 14
unmix_quotient uv lv h = omega arith

pub unmix_remainder :
    (uv lv : ℕ)
    → lv < 64 ^ 6
    → (uv * 2 ^ 22 + lv / 2 ^ 14 - (uv * 64 ^ 6 + lv) / 10 ^ 14 * e10_14_rsh_14) * 2 ^ 14
        + lv % 2 ^ 14
      ≡ (uv * 64 ^ 6 + lv) % 10 ^ 14
unmix_remainder uv lv h = omega arith
