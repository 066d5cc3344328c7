-- ===== src/Toc/Changes.antt =====
-- `onTOCChange` keeps the list sorted and makes exactly the change that it is told of.
use gaia_email_libs_and_more.Common.{
  ℕ, ◌+◌, ◌<◌, ◌≡◌, ap, Bool, true, not, ◌&&◌, Option, none, some, List, length, if◌then◌else◌,
  insert_at, remove_at, arith, Bool-cases, inl, inr, ◌||◌, get_elem?-lt-length,
}
use gaia_email_libs_and_more.Bsearch.{bsearch_maybe_exists}
use gaia_email_libs_and_more.Bsearch.Order.{IsSorted, remove_at-IsSorted}
use gaia_email_libs_and_more.Bsearch.Insert.{bsearch_for_insert-IsPlace, insert_at-IsSorted}
use gaia_email_libs_and_more.Bsearch.Exists.{Answers, bsearch_maybe_exists-Answers}
use gaia_email_libs_and_more.Comparators.{Dated}
use gaia_email_libs_and_more.Toc.{
  Key, dated, compare_keys, Change, same_date, old_key, new_key, insert_key, delete_key, move_key,
  on_toc_change,
}
use gaia_email_libs_and_more.Toc.Keys.{
  compare_keys-IsComparator, same, count, count-insert_at, count-remove_at, index_of_count,
  same_self, compare_keys-eq, compare_keys-same,
}

insert_key-effect :
    (key : Key) (l : List Key)
    → IsSorted compare_keys l
    → (l' : List Key) × (insert_key key l ≡ some l')
      × IsSorted compare_keys l'
      × ((q : Dated) → count q l' ≡ count q l + same q (dated key))
unfolding insert_key
insert_key-effect key l sorted =
    let laws = compare_keys-IsComparator in
    let (i, found, place) = bsearch_for_insert-IsPlace compare_keys laws l sorted key in
    (
      insert_at i key l,
      rw (found, insert_key),
      insert_at-IsSorted compare_keys laws l sorted key i place,
      λ q. count-insert_at q i key l,
    )

module _ (key : Key) (l : List Key) (sorted : IsSorted compare_keys l) where
  removed :
      (r : Option ℕ)
      → bsearch_maybe_exists compare_keys l key ≡ some r
      → Answers compare_keys l key 0 (length l) r
      → 0 < count (dated key) l
      → (l' : List Key) × (delete_key key l ≡ some l')
        × IsSorted compare_keys l'
        × ((q : Dated) → count q l' + same q (dated key) ≡ count q l)
  unfolding delete_key
  removed (some i) found (k, _, _, here, tie) listed = (
    remove_at i l,
    rw (found, delete_key),
    remove_at-IsSorted compare_keys i l sorted,
    λ q. omega (
      arith,
      count-remove_at q i k l here,
      ap (λ (d : Dated). same q d) (compare_keys-eq key k tie),
    ),
  )
  removed none found absent listed =
      let (i, k, here, e) = index_of_count (dated key) l listed in
      absurd
        (absent i k (omega arith) (get_elem?-lt-length l i k here) here (compare_keys-same key k e))

  delete_key-effect :
      0 < count (dated key) l
      → (l' : List Key) × (delete_key key l ≡ some l')
        × IsSorted compare_keys l'
        × ((q : Dated) → count q l' + same q (dated key) ≡ count q l)
  delete_key-effect listed =
      let (r, found, answer) =
        bsearch_maybe_exists-Answers compare_keys l key compare_keys-IsComparator sorted in
      removed r found answer listed

  -- A deletion whose key is not in the list still removes an entry: the first one.
  pub delete_key-unlisted : count (dated key) l ≡ 0 → delete_key key l ≡ some (remove_at 0 l)
  unfolding delete_key
  delete_key-unlisted unlisted =
      let (r, found, answer) =
        bsearch_maybe_exists-Answers compare_keys l key compare_keys-IsComparator sorted in
      first r found answer
    where
      first :
          (r : Option ℕ)
          → bsearch_maybe_exists compare_keys l key ≡ some r
          → Answers compare_keys l key 0 (length l) r
          → delete_key key l ≡ some (remove_at 0 l)
      first none found absent = rw (found, delete_key)
      first (some i) found (k, _, _, here, tie) = absurd (
          omega (
            arith,
            count-remove_at (dated key) i k l here,
            same_self (dated key) (dated k) (compare_keys-eq key k tie),
          ))

-- How often the change adds a date and id, and how often it takes one away.
abbrev pub gain : Change → Dated → ℕ
gain c q =
    if c.freshly_added
    then same q (dated (new_key c))
    else if not c.has_item
    then 0
    else if same_date c.pre_date c.post_date
    then 0
    else same q (dated (new_key c))

abbrev pub loss : Change → Dated → ℕ
loss c q =
    if c.freshly_added
    then 0
    else if not c.has_item
    then same q (dated (old_key c))
    else if same_date c.pre_date c.post_date
    then 0
    else same q (dated (old_key c))

-- Whether the change takes the entry at its old date away.
abbrev pub takes_away : Change → Bool
takes_away c = not c.freshly_added && (not c.has_item || not (same_date c.pre_date c.post_date))

module _ (c : Change) (l : List Key) (sorted : IsSorted compare_keys l)
    (listed : takes_away c ≡ true → 0 < count (dated (old_key c)) l) where
  move_key-effect :
      takes_away c ≡ true
      → (l' : List Key) × (move_key (old_key c) (new_key c) l ≡ some l')
        × IsSorted compare_keys l'
        × ((q : Dated)
            → count q l' + same q (dated (old_key c)) ≡ count q l + same q (dated (new_key c)))
  move_key-effect away =
      let (l₁, deleted, sorted₁, count₁) = delete_key-effect (old_key c) l sorted (listed away) in
      let (l₂, inserted, sorted₂, count₂) = insert_key-effect (new_key c) l₁ sorted₁ in
      (l₂, rw (deleted, move_key) inserted, sorted₂, λ q. omega (arith, count₁ q, count₂ q))

  -- On a sorted list that has the entry at the old date, if one is to be taken away, `onTOCChange`
  -- returns a sorted list: with the new entry for an added message, without the old one for a
  -- deleted message, with the one in place of the other for a changed date, and otherwise the same.
  pub on_toc_change-effect :
      (l' : List Key) × ((on_toc_change c l).0 ≡ some l')
      × IsSorted compare_keys l'
      × ((q : Dated) → count q l' + loss c q ≡ count q l + gain c q)
  unfolding on_toc_change
  on_toc_change-effect = elim (Bool-cases c.freshly_added) [
    | inl added ↦
        let (l', done, sorted', count') = insert_key-effect (new_key c) l sorted in
        (l', rw added done, sorted', λ q. rw added (omega (arith, count' q)))
    | inr old ↦ elim (Bool-cases c.has_item) [
      | inr gone ↦
          let (l', done, sorted', count') =
            delete_key-effect (old_key c) l sorted (listed (ground arith)) in
          (l', rw (old, gone) done, sorted', λ q. rw (old, gone) (omega (arith, count' q)))
      | inl there ↦ elim (Bool-cases (same_date c.pre_date c.post_date)) [
        | inl still ↦ (l, rw (old, there, still), sorted, λ q. rw (old, there, still))
        | inr moved ↦
            let (l', done, sorted', count') = move_key-effect (ground arith) in
            (l', rw (old, there, moved) done, sorted', λ q. rw (old, there, moved) (count' q))
      ]
    ]
  ]
