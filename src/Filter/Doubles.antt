-- ===== src/Filter/Doubles.antt =====
-- JavaScript's numbers that are not negative: a double is a fraction whose numerator has 53 bits at most
-- and whose denominator is a power of 2. A quotient or a product is the nearest one, and of two that are
-- as near the even one.
use gaia_email_libs_and_more.Common.{
  ℕ, zero, suc, ◌+◌, ◌*◌, ◌/◌, ◌%◌, ◌^◌, Bool, ltb, leb, ◌==◌, if◌then◌else◌,
}

-- The integer nearest to num / den.
abbrev pub half_even : ℕ → ℕ → ℕ
half_even num den =
    let low = num / den in
    let twice = 2 * (num % den) in
    if ltb twice den
    then low
    else if ltb den twice
    then low + 1
    else if low % 2 == 0
    then low
    else low + 1

-- The power of 2 by which num / den is multiplied until it has 53 bits, over rounds.
unfoldable pub scale_up : ℕ → ℕ → ℕ → ℕ
scale_up zero num den = 1
scale_up (suc fuel) num den =
    let rest = scale_up fuel (2 * num) den in if ltb num (2 ^ 52 * den) then 2 * rest else 1

-- The power of 2 by which it is divided until it has no more.
unfoldable pub scale_down : ℕ → ℕ → ℕ → ℕ
scale_down zero num den = 1
scale_down (suc fuel) num den =
    let rest = scale_down fuel num (2 * den) in if leb (2 ^ 53 * den) num then 2 * rest else 1

-- The double nearest to num / den. 64 rounds are enough from 2 ^ -12 up to 2 ^ 117.
unfoldable pub nearest : ℕ → ℕ → ℕ × ℕ
nearest num den =
    let up = scale_up 64 num den in
    let down = scale_down 64 num den in (half_even (num * up) (den * down) * down, up)

-- A double times an integer.
abbrev pub times : ℕ × ℕ → ℕ → ℕ × ℕ
times (num, den) n = nearest (num * n) den

-- `double >= integer`.
abbrev pub at_least : ℕ × ℕ → ℕ → Bool
at_least (num, den) n = leb (n * den) num
