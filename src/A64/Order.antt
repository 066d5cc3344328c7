-- ===== src/A64/Order.antt =====
-- The comparison of encoded numbers, and of decimal strings.
use gaia_email_libs_and_more.Common.{
  ℕ, zero, suc, ◌^◌, ◌≤◌, ◌<◌, ◌≡◌, refl, sym, ap, ◌∙◌, Bool, true, false, ◌&&◌, List, map, length,
  All, ltb, leb, ◌==◌, if◌then◌else◌, arith, ℤ, pos, negsuc, sub_ℕ, Bool-cases, inl, inr,
}
use gaia_email_libs_and_more.A64.{char_at, encode_int, string_lt, cmp_ui64, max_ui64, is_one}
use gaia_email_libs_and_more.A64.Digits.{
  value, lex, digits, base64, IsBelow, IsCanonical, lex-value, shorter-value_lt, canonical_length,
  value-digits, digits-IsBelow, digits-IsCanonical, length-digits, below_up,
}
use gaia_email_libs_and_more.A64.Strings.{
  length-map, string_lt-lex, encode_int-digits, encode_loop-digits,
}
use gaia_email_libs_and_more.A64.Padding.{
  padded, pad-padded, length-padded, value-padded, padded-below,
}
use Prim.Native.Nat.{compare, Ordering}

-- What a caller reads off the result of a comparison.
unfoldable pub sign : ℤ → Ordering
sign (pos zero) = Ordering.eq
sign (pos (suc n)) = Ordering.gt
sign (negsuc n) = Ordering.lt

sign-sub_ℕ : (a b : ℕ) → sign (sub_ℕ a b) ≡ compare a b
unfolding sign
sign-sub_ℕ a b = ground arith

sign-lex :
    (below above : Bool) (v w : ℕ)
    → below ≡ ltb v w
    → above ≡ ltb w v
    → sign (if below then negsuc 0 else if above then pos 1 else pos 0) ≡ compare v w
unfolding sign
sign-lex below above v w h k = ground arith

-- Two strings of digits of a base up to 64, neither with a zero in front of another digit, compare as
-- the numbers they stand for: this is so for the encoded numbers and for the decimal ones.
pub cmp_ui64-compares :
    (b : ℕ) (hb : 1 < b) (xs ys : List ℕ)
    → b ≤ 64
    → IsBelow b hb xs
    → IsBelow b hb ys
    → IsCanonical xs
    → IsCanonical ys
    → sign (cmp_ui64 (map char_at xs) (map char_at ys)) ≡ compare (value b 0 xs) (value b 0 ys)
unfolding cmp_ui64
cmp_ui64-compares b hb xs ys h hx hy cx cy =
    let hx' = below_up b 64 xs h hx in
    let hy' = below_up b 64 ys h hy in
    rw
      (
        length-map char_at xs,
        length-map char_at ys,
        string_lt-lex xs ys hx' hy',
        string_lt-lex ys xs hy' hx',
      )
      (elim (Bool-cases (length xs == length ys)) [
        | inl same ↦ rw same (
            sign-lex (lex xs ys) (lex ys xs) _ _ (lex-value b 0 xs ys (ground arith) hx hy)
              (lex-value b 0 ys xs (ground arith) hy hx))
        | inr other ↦ rw other (
            sign-sub_ℕ (length xs) (length ys)
            ∙ ground (
              arith,
              shorter-value_lt b hb xs ys hx cy,
              shorter-value_lt b hb ys xs hy cx,
              canonical_length b hb xs cx,
              canonical_length b hb ys cy,
            ))
      ])

abbrev pub is_gt : Ordering → Bool
is_gt Ordering.gt = true
is_gt o = false

is_one-sign :
    (m n : ℕ) (below above : Bool)
    → is_one
        (if m == n then (if below then negsuc 0 else if above then pos 1 else pos 0) else sub_ℕ m n)
      ≡ (is_gt (
            sign (
              if m == n
              then (if below then negsuc 0 else if above then pos 1 else pos 0)
              else sub_ℕ m n))
          && leb m (suc n))
unfolding sign
is_one-sign m n below above = ground arith

is_one-cmp_ui64 :
    (s t : List ℕ)
    → is_one (cmp_ui64 s t) ≡ (is_gt (sign (cmp_ui64 s t)) && leb (length s) (suc (length t)))
unfolding cmp_ui64
is_one-cmp_ui64 s t = is_one-sign (length s) (length t) (string_lt s t) (string_lt t s)

is_gt-compare : (v w : ℕ) → is_gt (compare v w) ≡ ltb w v
is_gt-compare v w = ground arith

encode_int-compares : (v w : ℕ) → sign (cmp_ui64 (encode_int v 0) (encode_int w 0)) ≡ compare v w
encode_int-compares v w =
    rw (encode_int-digits v, encode_int-digits w)
      (cmp_ui64-compares 64 base64 (digits 64 base64 v) (digits 64 base64 w) (omega arith)
          (digits-IsBelow 64 base64 v) (digits-IsBelow 64 base64 w) (digits-IsCanonical 64 base64 v)
          (digits-IsCanonical 64 base64 w)
        ∙ rw (value-digits 64 base64 v, value-digits 64 base64 w) refl)

-- `maxUI64` gives the encoding of the larger number, but for one that is given first and is longer
-- than the other by two characters or more: then it gives the encoding of the smaller one.
pub max_ui64-result :
    (v w : ℕ)
    → max_ui64 (encode_int v 0) (encode_int w 0) ≡ (
        if ltb w v && leb (length (encode_int v 0)) (suc (length (encode_int w 0)))
        then encode_int v 0
        else encode_int w 0)
unfolding max_ui64
max_ui64-result v w =
    ap (λ c. if c then encode_int v 0 else encode_int w 0)
      (is_one-cmp_ui64 (encode_int v 0) (encode_int w 0)
        ∙ rw (encode_int-compares v w, is_gt-compare v w) refl)

padded-digits : (k v : ℕ) → v < 64 ^ suc k → length (padded (suc k) (digits 64 base64 v)) ≡ suc k
padded-digits k v h = length-padded (suc k) (digits 64 base64 v) (length-digits 64 base64 k v h)

encode_int-padded :
    (width v : ℕ)
    → width ≤ 16
    → encode_int v width ≡ map char_at (padded width (digits 64 base64 v))
unfolding encode_int
encode_int-padded width v h = rw encode_loop-digits (pad-padded width (digits 64 base64 v) h)

-- Numbers of up to a width of digits that are padded to this width, which is at most the 16 zeros there
-- are, sort as strings the way the numbers do.
pub string_lt-encode_int :
    (k v w : ℕ)
    → suc k ≤ 16
    → v < 64 ^ suc k
    → w < 64 ^ suc k
    → string_lt (encode_int v (suc k)) (encode_int w (suc k)) ≡ ltb v w
string_lt-encode_int k v w h hv hw =
    rw
      (
        encode_int-padded (suc k) v h,
        encode_int-padded (suc k) w h,
        string_lt-lex _ _ (below v) (below w),
      )
      (lex-value 64 0 _ _ (padded-digits k v hv ∙ sym (padded-digits k w hw)) (below v) (below w)
        ∙ rw (value-padded, value-digits 64 base64 v, value-padded, value-digits 64 base64 w) refl)
  where
    below : (u : ℕ) → All (λ d. d < 64) (padded (suc k) (digits 64 base64 u))
    below u = padded-below 64 (suc k) _ (omega arith) (digits-IsBelow 64 base64 u)
