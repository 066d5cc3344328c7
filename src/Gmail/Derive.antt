-- ===== src/Gmail/Derive.antt =====
-- What the stashes hold that are derived from a raw state.
use gaia_email_libs_and_more.Common.{
  ℕ, ◌≡◌, Bool, true, false, ◌&&◌, ◌||◌, ◌==◌, none, some, List, [], ◌∷◌, ◌++◌, has, has-append,
  get, get-put, for_each, arith, Option-cases, inl, inr,
}
use gaia_email_libs_and_more.Gmail.{Stash, derive_yay, derive_meh, derive_stashes}

abbrev pub Stashes : Type 0
Stashes = List (ℕ × Stash)

-- Whether the conversation's stash holds the UID as yay, or as meh, and whether there is a stash.
abbrev pub holds_yay : ℕ → ℕ → Stashes → Bool
holds_yay c uid stashes = elim (get c stashes) [
  | none ↦ false
  | some stash ↦ has uid stash.yay_uids
]

abbrev pub holds_meh : ℕ → ℕ → Stashes → Bool
holds_meh c uid stashes = elim (get c stashes) [
  | none ↦ false
  | some stash ↦ has uid stash.meh_uids
]

abbrev pub is_known : ℕ → Stashes → Bool
is_known c stashes = elim (get c stashes) [ none ↦ false | some stash ↦ true ]

-- Whether the raw state has the UID under the conversation, and whether it has one at all.
abbrev pub assigns : ℕ → ℕ → List (ℕ × ℕ) → Bool
assigns c uid [] = false
assigns c uid ((u, d) ∷ uids) = (u == uid && d == c) || assigns c uid uids

abbrev pub has_some : ℕ → List (ℕ × ℕ) → Bool
has_some c [] = false
has_some c ((u, d) ∷ uids) = d == c || has_some c uids

module _ (c uid : ℕ) where
  derive_yay-holds :
      (stashes : Stashes) (u d : ℕ)
      → (holds_yay c uid (derive_yay stashes (u, d))
          ≡ (holds_yay c uid stashes || (u == uid && d == c)))
        × (holds_meh c uid (derive_yay stashes (u, d)) ≡ holds_meh c uid stashes)
        × (is_known c (derive_yay stashes (u, d)) ≡ (is_known c stashes || d == c))
  unfolding derive_yay has
  derive_yay-holds stashes u d = elim (Option-cases (get d stashes)) [
    | inl absent ↦
        let fresh : Stash = record {
          yay_uids = u ∷ [];
          meh_uids = [];
          most_recent = 0;
          task = none;
        } in
        ground (arith, absent, get-put c d fresh stashes)
    | inr (stash, present) ↦
        let more : Stash = record stash { yay_uids = stash.yay_uids ++ u ∷ [] } in
        ground (arith, present, get-put c d more stashes, has-append uid stash.yay_uids (u ∷ []))
  ]

  derive_meh-holds :
      (stashes : Stashes) (u d : ℕ)
      → (holds_yay c uid (derive_meh stashes (u, d))
          ≡ (holds_yay c uid stashes || (u == uid && d == c && is_known c stashes)))
        × (holds_meh c uid (derive_meh stashes (u, d)) ≡ holds_meh c uid stashes)
        × (is_known c (derive_meh stashes (u, d)) ≡ is_known c stashes)
  unfolding derive_meh has
  derive_meh-holds stashes u d = elim (Option-cases (get d stashes)) [
    | inl absent ↦ ground (arith, absent)
    | inr (stash, present) ↦
        let more : Stash = record stash { yay_uids = stash.yay_uids ++ u ∷ [] } in
        ground (arith, present, get-put c d more stashes, has-append uid stash.yay_uids (u ∷ []))
  ]

  derive_yay_all-holds :
      (stashes : Stashes) (yay : List (ℕ × ℕ))
      → (holds_yay c uid (for_each derive_yay stashes yay)
          ≡ (holds_yay c uid stashes || assigns c uid yay))
        × (holds_meh c uid (for_each derive_yay stashes yay) ≡ holds_meh c uid stashes)
        × (is_known c (for_each derive_yay stashes yay) ≡ (is_known c stashes || has_some c yay))
  unfolding for_each
  derive_yay_all-holds stashes [] = ground arith
  derive_yay_all-holds stashes ((u, d) ∷ yay) =
      ground
        (arith, derive_yay-holds stashes u d, derive_yay_all-holds (derive_yay stashes (u, d)) yay)

  derive_meh_all-holds :
      (stashes : Stashes) (meh : List (ℕ × ℕ))
      → (holds_yay c uid (for_each derive_meh stashes meh)
          ≡ (holds_yay c uid stashes || (assigns c uid meh && is_known c stashes)))
        × (holds_meh c uid (for_each derive_meh stashes meh) ≡ holds_meh c uid stashes)
        × (is_known c (for_each derive_meh stashes meh) ≡ is_known c stashes)
  unfolding for_each
  derive_meh_all-holds stashes [] = ground arith
  derive_meh_all-holds stashes ((u, d) ∷ meh) =
      ground
        (arith, derive_meh-holds stashes u d, derive_meh_all-holds (derive_meh stashes (u, d)) meh)

  -- The stashes derived from a raw state are those of the conversations with a yay UID. A stash's yay
  -- UIDs are the conversation's yay UIDs and its meh UIDs too, and its meh UIDs are none.
  pub derive_stashes-holds :
      (yay meh : List (ℕ × ℕ))
      → (holds_yay c uid (derive_stashes yay meh)
          ≡ (assigns c uid yay || (assigns c uid meh && has_some c yay)))
        × (holds_meh c uid (derive_stashes yay meh) ≡ false)
        × (is_known c (derive_stashes yay meh) ≡ has_some c yay)
  unfolding derive_stashes get
  derive_stashes-holds yay meh =
      ground
        (arith, derive_yay_all-holds [] yay, derive_meh_all-holds (for_each derive_yay [] yay) meh)
