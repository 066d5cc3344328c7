-- ===== src/Views/Bounds.antt =====
-- The indices of a window.
use gaia_email_libs_and_more.Common.{
  ℕ, ◌-◌, ◌≤◌, ◌<◌, ◌≡◌, refl, Bool, true, false, some, List, [], ◌∷◌, length, arith, pos,
  Option-cases, Bool-cases, inl, inr, ℤ, negsuc, leb, get_elem?, get_elem?-some,
}
use gaia_email_libs_and_more.Toc.{
  compare_keys, get_ordering_key_for_index, find_index_for_ordering_key, Key,
}
use gaia_email_libs_and_more.Toc.Window.{is_some}
use gaia_email_libs_and_more.Bsearch.Order.{IsSorted}
use gaia_email_libs_and_more.Bsearch.Insert.{bsearch_for_insert-IsPlace}
use gaia_email_libs_and_more.Toc.Keys.{compare_keys-IsComparator}
use gaia_email_libs_and_more.Views.{
  Mode, unsought, top, bottom, focus, Proxy, Indices, no_indices, top_indices, bottom_indices,
  focus_indices, indices,
}

-- A focused proxy has a key.
abbrev pub can_flush : Proxy → Bool
can_flush p = elim p.mode [
  | focus ↦ is_some p.focus_key
  | unsought ↦ true
  | top ↦ true
  | bottom ↦ true
]

-- A table finds an index for every key, and a key for every index.
pub find_index-some :
    (key : Key) (l : List Key)
    → IsSorted compare_keys l
    → (n : ℕ) × (find_index_for_ordering_key key l ≡ some n) × (n ≤ length l)
unfolding find_index_for_ordering_key
find_index-some key l sorted =
    let (n, e, place) =
      bsearch_for_insert-IsPlace compare_keys compare_keys-IsComparator l sorted key in
    (n, e, place.within)

pub ordering_key-some :
    (top_key : Key) (index : ℤ) (l : List Key)
    → is_some (get_ordering_key_for_index top_key index l) ≡ true
unfolding get_ordering_key_for_index
ordering_key-some top_key index [] = refl
ordering_key-some top_key (negsuc n) (k ∷ l) = refl
ordering_key-some top_key (pos n) (k ∷ l) = elim (Bool-cases (leb (length (k ∷ l)) n)) [
  | inl past ↦ rw past (found (length (k ∷ l) - 1) (omega arith))
  | inr within ↦ rw within (found n (ground (arith, within)))
]
  where
    found : (i : ℕ) → i < length (k ∷ l) → is_some (get_elem? (k ∷ l) i) ≡ true
    found i h = let (x, e) = get_elem?-some (k ∷ l) i h in rw e refl

-- The modes whose first index is a number: 'top', and 'focus' with a key.
abbrev pub is_placed : Proxy → Bool
is_placed p = elim p.mode [
  | focus ↦ is_some p.focus_key
  | unsought ↦ false
  | top ↦ true
  | bottom ↦ false
]

-- The first index is a number, and the visible part lies in the buffered one and that in the list.
abbrev pub IsWindow : ℕ → Indices → Type 0
IsWindow n x =
    (begin : ℕ) × (x.begin_buffered_inclusive ≡ some begin)
    × (begin ≤ x.begin_visible_inclusive)
    × (x.begin_visible_inclusive ≤ x.end_visible_exclusive)
    × (x.end_visible_exclusive ≤ x.end_buffered_exclusive)
    × (x.end_buffered_exclusive ≤ n)

-- In a sorted table the indices of a proxy in mode 'top', or in mode 'focus' with a key, are found, are
-- numbers in order, and end within the table.
pub indices-IsWindow :
    (l : List Key) (p : Proxy)
    → IsSorted compare_keys l
    → is_placed p ≡ true
    → (x : Indices) × (indices l p ≡ some x) × IsWindow (length l) x
unfolding indices
indices-IsWindow l p sorted h = of_mode p.mode refl
  where
    misplaced : false ≡ true → ⊥
    misplaced f = cc

    of_mode :
        (m : Mode) → p.mode ≡ m → (x : Indices) × (indices l p ≡ some x) × IsWindow (length l) x
    of_mode unsought e = absurd (misplaced (rw e at h))
    of_mode bottom e = absurd (misplaced (rw e at h))
    of_mode top e = (
      top_indices (length l) p,
      rw (indices, e) refl,
      (0, refl, omega arith, omega arith, omega arith, omega arith),
    )
    of_mode focus e = elim (Option-cases p.focus_key) [
      | inl keyless ↦ absurd (misplaced (rw (e, keyless) at h))
      | inr (key, k) ↦
          let (n, q, within) = find_index-some key l sorted in
          (
            focus_indices n (length l) p,
            rw (indices, e, k, q) refl,
            (
              n - p.visible_above - p.buffer_above,
              refl,
              omega arith,
              omega arith,
              omega arith,
              omega arith,
            ),
          )
    ]

-- Every proxy that can flush has indices, numbers or not.
pub indices-some :
    (l : List Key) (p : Proxy)
    → IsSorted compare_keys l
    → can_flush p ≡ true
    → (x : Indices) × (indices l p ≡ some x)
unfolding indices
indices-some l p sorted h = of_mode p.mode refl
  where
    needs_key : false ≡ true → ⊥
    needs_key f = cc

    of_mode : (m : Mode) → p.mode ≡ m → (x : Indices) × (indices l p ≡ some x)
    of_mode unsought e = (no_indices, rw (indices, e) refl)
    of_mode bottom e = (bottom_indices (length l) p, rw (indices, e) refl)
    of_mode top e = (top_indices (length l) p, rw (indices, e) refl)
    of_mode focus e = elim (Option-cases p.focus_key) [
      | inl keyless ↦ absurd (needs_key (rw (e, keyless) at h))
      | inr (key, k) ↦
          let (n, q, within) = find_index-some key l sorted in
          (focus_indices n (length l) p, rw (indices, e, k, q) refl)
    ]
