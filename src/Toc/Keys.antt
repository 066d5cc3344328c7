-- ===== src/Toc/Keys.antt =====
-- Entries of a table of contents as a multiset, and the two edits of a list.
use Prim.Native.Nat.{Ordering}
use gaia_email_libs_and_more.Common.{
  ℕ, zero, suc, ◌+◌, ◌<◌, ◌≡◌, refl, ◌&&◌, some, List, [], ◌∷◌, get_elem?, ◌==◌, if◌then◌else◌,
  insert_at, remove_at, arith, Bool-cases, inl, inr,
}
use gaia_email_libs_and_more.Bsearch.Order.{IsComparator}
use gaia_email_libs_and_more.Comparators.{Dated, conversation_message_comparator}
use gaia_email_libs_and_more.Comparators.Laws.{
  conversation_message_comparator-IsComparator, conversation_message_comparator-eq,
}
use gaia_email_libs_and_more.Toc.{Key, dated, compare_keys}

pub compare_keys-IsComparator : IsComparator compare_keys
unfolding compare_keys
compare_keys-IsComparator = record {
  gt_down = λ a b c. laws.gt_down (dated a) (dated b) (dated c);
  lt_up = λ a b c. laws.lt_up (dated a) (dated b) (dated c);
  eq_down = λ a b c. laws.eq_down (dated a) (dated b) (dated c);
  eq_up = λ a b c. laws.eq_up (dated a) (dated b) (dated c);
  swap = λ a b. laws.swap (dated a) (dated b);
}
  where
    laws : IsComparator conversation_message_comparator
    laws = conversation_message_comparator-IsComparator

-- 1 for the same date and id.
abbrev pub same : Dated → Dated → ℕ
same q k = if q.date == k.date && q.id == k.id then 1 else 0

-- How often a date and id stand in the list.
unfoldable pub count : Dated → List Key → ℕ
count q [] = 0
count q (k ∷ l) = same q (dated k) + count q l

pub count-insert_at :
    (q : Dated) (i : ℕ) (k : Key) (l : List Key)
    → count q (insert_at i k l) ≡ count q l + same q (dated k)
unfolding count insert_at
count-insert_at q zero k l = omega arith
count-insert_at q (suc i) k [] = omega arith
count-insert_at q (suc i) k (k' ∷ l) = omega (arith, count-insert_at q i k l)

pub count-remove_at :
    (q : Dated) (i : ℕ) (k : Key) (l : List Key)
    → get_elem? l i ≡ some k
    → count q (remove_at i l) + same q (dated k) ≡ count q l
unfolding count remove_at
count-remove_at q i k [] e = cc
count-remove_at q zero k (k' ∷ l) e = let here : k' ≡ k = cc in rw here (omega arith)
count-remove_at q (suc i) k (k' ∷ l) e = omega (arith, count-remove_at q i k l e)

-- An entry that is counted stands somewhere.
pub index_of_count :
    (q : Dated) (l : List Key)
    → 0 < count q l
    → (i : ℕ) × (k : Key) × (get_elem? l i ≡ some k) × (dated k ≡ q)
unfolding count
index_of_count q [] h = elim h [ ]
index_of_count q (k ∷ l) h = elim (Bool-cases (q.date == k.date && q.id == k.id)) [
  | inl here ↦ (0, k, refl, ground arith)
  | inr elsewhere ↦ let (i, k', e, e') = index_of_count q l (ground arith) in (suc i, k', e, e')
]

pub compare_keys-eq : (a b : Key) → compare_keys a b ≡ Ordering.eq → dated a ≡ dated b
unfolding compare_keys
compare_keys-eq a b e = conversation_message_comparator-eq (dated a) (dated b) e

pub compare_keys-same : (a b : Key) → dated b ≡ dated a → compare_keys a b ≡ Ordering.eq
unfolding compare_keys conversation_message_comparator
compare_keys-same a b e = ground arith

pub same_self : (q k : Dated) → q ≡ k → same q k ≡ 1
same_self q k e = ground arith
