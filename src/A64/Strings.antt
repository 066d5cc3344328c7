-- ===== src/A64/Strings.antt =====
-- The alphabet of the strings, and strings as digits.
use gaia_email_libs_and_more.Common.{
  ℕ, zero, suc, ◌+◌, ◌-◌, ◌*◌, ◌/◌, ◌%◌, ◌^◌, ◌<◌, ◌≡◌, refl, ap, Bool, true, false, ◌&&◌, Option,
  none, some, List, [], ◌∷◌, ◌++◌, map, length, All, ltb, leb, ◌==◌, Bool-cases, inl, inr, arith,
}
use gaia_email_libs_and_more.A64.{
  ordered_arbitrary_base64_chars, char_at, index_of, encode_loop, pad, encode_int, parse_int,
  string_lt, decode_loop,
}
use gaia_email_libs_and_more.A64.Digits.{value, lex, lt_wf, digits_loop, digits, shrinks, base64}
use mathlib.Core.Logic.{dite}
use mathlib.Core.WellFounded.{Acc}
use native.Mathlib.Decide.{dec_lt}

-- A test of all numbers below a bound.
unfoldable every : (ℕ → Bool) → ℕ → Bool
every p zero = true
every p (suc n) = p n && every p n

every_at : (p : ℕ → Bool) (n d : ℕ) → every p n ≡ true → d < n → p d ≡ true
unfolding every
every_at p zero d h k = absurd (omega arith)
every_at p (suc n) d h k = elim (Bool-cases (d == n)) [
  | inl last ↦ ground arith
  | inr earlier ↦ every_at p n d (ground arith) (ground arith)
]

abbrev is_some_of : ℕ → Option ℕ → Bool
is_some_of d none = false
is_some_of d (some e) = e == d

some_of : (d : ℕ) (o : Option ℕ) → is_some_of d o ≡ true → o ≡ some d
some_of d none h = cc
some_of d (some e) h = ground arith

all_found :
    every (λ d. is_some_of d (index_of 0 (char_at d) ordered_arbitrary_base64_chars)) 64 ≡ true
unfolding every char_at index_of
all_found = refl

pub index_of-char_at :
    (d : ℕ) → d < 64 → index_of 0 (char_at d) ordered_arbitrary_base64_chars ≡ some d
index_of-char_at d h = some_of d _ (every_at _ 64 d all_found h)

ascends : every (λ d. ltb (char_at d) (char_at (suc d))) 63 ≡ true
unfolding every char_at
ascends = refl

pub char_at_lt : (d e : ℕ) → d < e → e < 64 → char_at d < char_at e
char_at_lt d zero h k = absurd (omega arith)
char_at_lt d (suc e) h k = ground (arith, every_at _ 63 e ascends, char_at_lt d e)

pub char_at-low : (d : ℕ) → d < 10 → char_at d ≡ 48 + d
char_at-low d h =
    ground (arith, every_at (λ e. char_at e == 48 + e) 10 d (unfold every char_at in refl) h)

-- The order of strings is the order of their digits.
pub string_lt-lex :
    (xs ys : List ℕ)
    → All (λ d. d < 64) xs
    → All (λ d. d < 64) ys
    → string_lt (map char_at xs) (map char_at ys) ≡ lex xs ys
unfolding string_lt lex
string_lt-lex [] [] hx hy = refl
string_lt-lex [] (y ∷ ys) hx hy = refl
string_lt-lex (x ∷ xs) [] hx hy = refl
string_lt-lex (x ∷ xs) (y ∷ ys) hx hy =
    ground (arith, string_lt-lex xs ys hx.1 hy.1, char_at_lt x y, char_at_lt y x)

pub length-map : (f : ℕ → ℕ) (xs : List ℕ) → length (map f xs) ≡ length xs
length-map f [] = refl
length-map f (x ∷ xs) = ap suc (length-map f xs)

pub map-append : (f : ℕ → ℕ) (xs ys : List ℕ) → map f (xs ++ ys) ≡ map f xs ++ map f ys
map-append f [] ys = refl
map-append f (x ∷ xs) ys = ap (λ s. f x ∷ s) (map-append f xs ys)

pub decode_loop-value :
    (v : ℕ) (ds : List ℕ)
    → All (λ d. d < 64) ds
    → decode_loop v (map char_at ds) ≡ some (value 64 v ds)
unfolding decode_loop value
decode_loop-value v [] h = refl
decode_loop-value v (d ∷ ds) h =
    rw (decode_loop, index_of-char_at d h.0) (decode_loop-value (v * 64 + d) ds h.1)

pub parse_int-value :
    (v : ℕ) (ds : List ℕ) → All (λ d. d < 10) ds → parse_int v (map char_at ds) ≡ value 10 v ds
unfolding parse_int value
parse_int-value v [] h = refl
parse_int-value v (d ∷ ds) h =
    rw (char_at-low d h.0, parse_int-value (v * 10 + (48 + d - 48)) ds h.1, the_digit, is_digit)
      refl
  where
    the_digit : 48 + d - 48 ≡ d
    the_digit = omega arith

    is_digit : (leb 48 (48 + d) && leb (48 + d) 57) ≡ true
    is_digit = ground arith

low_bits : (v : ℕ) → v % 2 ^ 32 % 64 ≡ v % 64
low_bits v = omega arith

-- One test, and what holds of its two results in either case.
dite_both :
    {A C D : Type 0} (R : C → D → Type 0) (t : Dec A) (f : A → C) (g : ¬ A → C) (h : A → D)
    (k : ¬ A → D)
    → ((a : A) → R (f a) (h a))
    → ((n : ¬ A) → R (g n) (k n))
    → R (dite t f g) (dite t h k)
dite_both R (yes a) f g h k fh gk = fh a
dite_both R (no n) f g h k fh gk = gk n

encode_loop-digits_loop :
    (v : ℕ) (w w' : Acc ◌<◌ v) (ds : List ℕ)
    → encode_loop v w (map char_at ds) ≡ map char_at (digits_loop 64 base64 v w' ds)
unfolding encode_loop digits_loop
encode_loop-digits_loop v (Acc.intro _ smaller) (Acc.intro _ smaller') ds = rw low_bits (
    dite_both (λ (s : List ℕ) (es : List ℕ). s ≡ map char_at es) (dec_lt 0 (v / 64)) _ _ _ _
      (λ more.
        encode_loop-digits_loop (v / 64) (smaller _ (shrinks 64 v base64 more))
          (smaller' _ (shrinks 64 v base64 more)) (v % 64 ∷ ds))
      (λ last. refl))

pub encode_loop-digits :
    (v : ℕ) → encode_loop v (lt_wf.apply v) [] ≡ map char_at (digits 64 base64 v)
unfolding digits
encode_loop-digits v = encode_loop-digits_loop v _ _ []

pub pad_none : (s : List ℕ) → pad 0 s ≡ s
unfolding pad
pad_none s = ground arith

pub encode_int-digits : (v : ℕ) → encode_int v 0 ≡ map char_at (digits 64 base64 v)
unfolding encode_int
encode_int-digits v = rw (pad_none, encode_loop-digits) refl
