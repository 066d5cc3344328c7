-- ===== src/Resources/Lists.antt =====
-- The lists of blocked things: what filing and unblocking do to them.
use gaia_email_libs_and_more.Common.{
  ℕ, ◌+◌, ◌≤◌, ◌≡◌, ◌≢◌, refl, sym, ap, Bool, true, false, ◌&&◌, ◌||◌, ◌==◌, ltb, if◌then◌else◌,
  none, some, List, [], ◌∷◌, ◌++◌, get, put, erase, get-put, arith, All, All-append, Option-cases,
  Bool-cases, inl, inr,
}
use gaia_email_libs_and_more.Priorities.{has_thing, Thing}
use gaia_email_libs_and_more.Resources.{splice_thing, put_unless_empty, unblock, file_under}

abbrev pub Lists : Type 0
Lists = List (ℕ × List Thing)

-- Whether the thing is filed under the resource.
abbrev pub is_under : ℕ → ℕ → Lists → Bool
is_under r id m = elim (get r m) [ none ↦ false | some things ↦ has_thing id things ]

-- How often a thing stands in a list, and in all lists.
abbrev pub count : ℕ → List Thing → ℕ
count id [] = 0
count id (t ∷ ts) = (if t.id == id then 1 else 0) + count id ts

abbrev pub total : ℕ → Lists → ℕ
total id [] = 0
total id ((r, things) ∷ m) = count id things + total id m

-- Every thing of the lists has the property.
abbrev pub Everywhere : (Thing → Type 0) → Lists → Type 0
Everywhere Q m = All (λ (entry : ℕ × List Thing). All Q entry.1) m

pub has_thing-count : (id : ℕ) (ts : List Thing) → has_thing id ts ≡ ltb 0 (count id ts)
has_thing-count id [] = refl
has_thing-count id (t ∷ ts) = ground (arith, has_thing-count id ts)

count-append : (id : ℕ) (ts us : List Thing) → count id (ts ++ us) ≡ count id ts + count id us
count-append id [] us = omega arith
count-append id (t ∷ ts) us = ground (arith, count-append id ts us)

count-splice_thing :
    (id x : ℕ) (ts : List Thing)
    → count id (splice_thing x ts) + (if x == id && has_thing x ts then 1 else 0) ≡ count id ts
unfolding splice_thing
count-splice_thing id x [] = ground arith
count-splice_thing id x (t ∷ ts) = ground (arith, count-splice_thing id x ts)

-- Unblocking takes a thing out once and leaves the others.
total-put_unless_empty :
    (id r : ℕ) (ts : List Thing) (m : Lists)
    → total id (put_unless_empty r ts m) ≡ count id ts + total id m
total-put_unless_empty id r [] m = omega arith
total-put_unless_empty id r (t ∷ ts) m = refl

pub total-unblock :
    (id x : ℕ) (m : Lists)
    → total id (unblock x m) + (if x == id && ltb 0 (total x m) then 1 else 0) ≡ total id m
unfolding unblock
total-unblock id x [] = ground arith
total-unblock id x ((r, things) ∷ m) = ground (
  arith,
  total-unblock id x m,
  has_thing-count x things,
  count-splice_thing id x things,
  total-put_unless_empty id r (splice_thing x things) m,
)

is_under-put_unless_empty :
    (r id q : ℕ) (ts : List Thing) (m : Lists)
    → (if q == r then has_thing id ts else is_under r id m) ≡ true
    → is_under r id (put_unless_empty q ts m) ≡ true
unfolding get
is_under-put_unless_empty r id q [] m h = ground (arith, h)
is_under-put_unless_empty r id q (t ∷ ts) m h = ground (arith, h)

pub is_under-unblock :
    (r id x : ℕ) (m : Lists) → id ≢ x → is_under r id m ≡ true → is_under r id (unblock x m) ≡ true
unfolding unblock get
is_under-unblock r id x [] other h = h
is_under-unblock r id x ((q, things) ∷ m) other h = ground (
  arith,
  h,
  is_under-unblock r id x m other,
  is_under-put_unless_empty r id q (splice_thing x things) m,
  has_thing-count id things,
  has_thing-count id (splice_thing x things),
  count-splice_thing id x things,
)

module _ (Q : Thing → Type 0) where
  All-splice_thing : (x : ℕ) (ts : List Thing) → All Q ts → All Q (splice_thing x ts)
  unfolding splice_thing
  All-splice_thing x [] h = h
  All-splice_thing x (t ∷ ts) h = elim (Bool-cases (t.id == x)) [
    | inl here ↦ rw here h.1
    | inr other ↦ rw other (h.0, All-splice_thing x ts h.1)
  ]

  Everywhere-put_unless_empty :
      (r : ℕ) (ts : List Thing) (m : Lists)
      → All Q ts
      → Everywhere Q m
      → Everywhere Q (put_unless_empty r ts m)
  Everywhere-put_unless_empty r [] m h k = k
  Everywhere-put_unless_empty r (t ∷ ts) m h k = (h, k)

  pub Everywhere-unblock : (x : ℕ) (m : Lists) → Everywhere Q m → Everywhere Q (unblock x m)
  unfolding unblock
  Everywhere-unblock x [] h = h
  Everywhere-unblock x ((r, things) ∷ m) h = elim (Bool-cases (has_thing x things)) [
    | inl here ↦ rw here (
        Everywhere-put_unless_empty r (splice_thing x things) m (All-splice_thing x things h.0) h.1)
    | inr other ↦ rw other (h.0, Everywhere-unblock x m h.1)
  ]

  pub Everywhere-put :
      (r : ℕ) (things : List Thing) (m : Lists)
      → All Q things
      → Everywhere Q m
      → Everywhere Q (put r things m)
  unfolding put
  Everywhere-put r things [] h k = (h, k)
  Everywhere-put r things ((q, us) ∷ m) h k = elim (Bool-cases (q == r)) [
    | inl here ↦ rw here (h, k.1)
    | inr other ↦ rw other (k.0, Everywhere-put r things m h k.1)
  ]

  pub Everywhere-get :
      (r : ℕ) (things : List Thing) (m : Lists)
      → Everywhere Q m
      → get r m ≡ some things
      → All Q things
  unfolding get
  Everywhere-get r things [] h e = cc
  Everywhere-get r things ((q, us) ∷ m) h e = elim (Bool-cases (q == r)) [
    | inl here ↦ let same : us ≡ things = ground (arith, here, e) in rw (sym same) h.0
    | inr other ↦ Everywhere-get r things m h.1 (ground (arith, other, e))
  ]

  pub Everywhere-erase : (r : ℕ) (m : Lists) → Everywhere Q m → Everywhere Q (erase r m)
  unfolding erase
  Everywhere-erase r [] h = h
  Everywhere-erase r ((q, us) ∷ m) h = elim (Bool-cases (q == r)) [
    | inl here ↦ rw here (Everywhere-erase r m h.1)
    | inr other ↦ rw other (h.0, Everywhere-erase r m h.1)
  ]

  pub Everywhere-file_under :
      (r : ℕ) (t : Thing) (m : Lists) → Q t → Everywhere Q m → Everywhere Q (file_under r t m)
  unfolding file_under
  Everywhere-file_under r t m q h = elim (Option-cases (get r m)) [
    | inl absent ↦ rw (file_under, absent) (Everywhere-put r (t ∷ []) m (q, tt) h)
    | inr (things, present) ↦
        rw (file_under, present)
          (Everywhere-put r (things ++ t ∷ []) m
            (All-append Q things (t ∷ []) (Everywhere-get r things m h present) (q, tt)) h)
  ]

total-put :
    (id r : ℕ) (ts : List Thing) (m : Lists)
    → total id (put r ts m) + elim (get r m) [ none ↦ 0 | some us ↦ count id us ]
      ≡ total id m + count id ts
unfolding put get
total-put id r ts [] = omega arith
total-put id r ts ((q, us) ∷ m) = ground (arith, total-put id r ts m)

pub total-file_under :
    (id r : ℕ) (t : Thing) (m : Lists)
    → total id (file_under r t m) ≡ total id m + (if t.id == id then 1 else 0)
unfolding file_under
total-file_under id r t m = elim (Option-cases (get r m)) [
  | inl absent ↦ ground (arith, absent, total-put id r (t ∷ []) m)
  | inr (things, present) ↦
      ground (arith, present, total-put id r (things ++ t ∷ []) m, count-append id things (t ∷ []))
]

pub is_under-file_under :
    (q id r : ℕ) (t : Thing) (m : Lists)
    → is_under q id (file_under r t m) ≡ (is_under q id m || (r == q && t.id == id))
unfolding file_under
is_under-file_under q id r t m = elim (Option-cases (get r m)) [
  | inl absent ↦ ground (arith, absent, get-put q r (t ∷ []) m)
  | inr (things, present) ↦ ground (
    arith,
    present,
    get-put q r (things ++ t ∷ []) m,
    has_thing-count id (things ++ t ∷ []),
    has_thing-count id things,
    count-append id things (t ∷ []),
  )
]

total-erase_le : (id r : ℕ) (m : Lists) → total id (erase r m) ≤ total id m
unfolding erase
total-erase_le id r [] = omega arith
total-erase_le id r ((q, us) ∷ m) = ground (arith, total-erase_le id r m)

pub total-erase :
    (id r : ℕ) (things : List Thing) (m : Lists)
    → get r m ≡ some things
    → count id things + total id (erase r m) ≤ total id m
unfolding get erase
total-erase id r things [] e = cc
total-erase id r things ((q, us) ∷ m) e = elim (Bool-cases (q == r)) [
  | inl here ↦
      let same : us ≡ things = ground (arith, here, e) in
      ground (arith, here, total-erase_le id r m, ap (count id) same)
  | inr other ↦ ground (arith, other, total-erase id r things m (ground (arith, other, e)))
]
