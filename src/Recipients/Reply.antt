-- ===== src/Recipients/Reply.antt =====
-- Whom a reply reaches.
use gaia_email_libs_and_more.Common.{
  ℕ, ◌≡◌, refl, Bool, true, false, not, ◌&&◌, ◌||◌, ◌==◌, Option, none, some, List, [], ◌∷◌, arith,
  Option-cases, inl, inr, ◌↔◌,
}
use gaia_email_libs_and_more.Recipients.{
  AddressPair, Recipients, contains_address, check_if_address_list_contains_address,
  filter_out_identity, or_empty, is_none, reply_to_list, reply_all_to, reply_all_recipients,
}

-- Whether the address is on the list.
abbrev pub reaches : ℕ → List AddressPair → Bool
reaches x [] = false
reaches x (a ∷ list) = x == a.address || reaches x list

contains_address-reaches :
    (list : List AddressPair) (a : AddressPair) → contains_address list a ≡ reaches a.address list
unfolding contains_address
contains_address-reaches [] a = refl
contains_address-reaches (b ∷ list) a = ground (arith, contains_address-reaches list a)

reaches-filter_out_identity :
    (x : ℕ) (list : List AddressPair) (me : AddressPair)
    → reaches x (filter_out_identity list me) ≡ (reaches x list && not (x == me.address))
unfolding filter_out_identity
reaches-filter_out_identity x [] me = refl
reaches-filter_out_identity x (a ∷ list) me = ground (arith, reaches-filter_out_identity x list me)

-- The message went only from oneself to oneself.
abbrev pub is_note : Recipients → AddressPair → AddressPair → Bool
is_note source source_author me =
    source_author.address == me.address && is_none source.cc && elim source.to [
      | none ↦ true
      | some [] ↦ true
      | some (a ∷ []) ↦ a.address == me.address
      | some (a ∷ b ∷ list) ↦ false
    ]

-- Whom the answer reaches, and whom the source did.
abbrev pub reaches_of : ℕ → Recipients → Bool
reaches_of x r = reaches x (or_empty r.to) || reaches x (or_empty r.cc)

abbrev lists : (to cc bcc : Option (List AddressPair)) → Recipients
lists t c b = record { to = t; cc = c; bcc = b }

reply_all_to-reaches :
    (to cc bcc : Option (List AddressPair)) (source_author me : AddressPair)
    (r_to : List AddressPair)
    → reply_to_list (lists to cc bcc) source_author ≡ some r_to
    → (x : ℕ)
    → reaches_of x (reply_all_to r_to (lists to cc bcc) me) ≡ (
        (is_note (lists to cc bcc) source_author me || not (x == me.address))
        && (x == source_author.address || reaches_of x (lists to cc bcc)))
unfolding reply_to_list reply_all_to check_if_address_list_contains_address contains_address
reply_all_to-reaches none cc bcc source_author me r_to e x = ground (
  arith,
  reaches-filter_out_identity x r_to me,
  reaches-filter_out_identity x (or_empty cc) me,
  contains_address-reaches r_to me,
  contains_address-reaches (or_empty cc) source_author,
)
reply_all_to-reaches (some []) cc bcc source_author me r_to e x = ground (
  arith,
  reaches-filter_out_identity x r_to me,
  reaches-filter_out_identity x (or_empty cc) me,
  contains_address-reaches r_to me,
  contains_address-reaches (or_empty cc) source_author,
)
reply_all_to-reaches (some (a ∷ [])) cc bcc source_author me r_to e x = ground (
  arith,
  reaches-filter_out_identity x r_to me,
  reaches-filter_out_identity x (or_empty cc) me,
  contains_address-reaches r_to me,
  contains_address-reaches (or_empty cc) source_author,
)
reply_all_to-reaches (some (a ∷ b ∷ to)) cc bcc source_author me r_to e x = ground (
  arith,
  contains_address-reaches to source_author,
  reaches-filter_out_identity x r_to me,
  reaches-filter_out_identity x (or_empty cc) me,
  contains_address-reaches r_to me,
  contains_address-reaches (or_empty cc) source_author,
)

module _ (source : Recipients) (source_author me : AddressPair) where
  -- Replying to all raises a TypeError exactly if the source has no `to` list and its author is on
  -- its `cc` list.
  pub reply_all_recipients-raises :
      (reply_all_recipients source source_author me ≡ none)
      ↔ ((source.to ≡ none) × (reaches source_author.address (or_empty source.cc) ≡ true))
  unfolding reply_all_recipients reply_to_list check_if_address_list_contains_address
  reply_all_recipients-raises = ground (
    arith,
    contains_address-reaches (or_empty source.to) source_author,
    contains_address-reaches (or_empty source.cc) source_author,
  )

  -- If the source has a `to` list, or its author is not on its `cc` list, replying to all returns. The
  -- reply reaches its source's author and whom the source reached, except for oneself; oneself it
  -- reaches only if the source was a note to oneself. The `bcc` list stays.
  pub reply_all_recipients-reaches :
      (source.to ≡ none → reaches source_author.address (or_empty source.cc) ≡ false)
      → (r : Recipients) × (reply_all_recipients source source_author me ≡ some r)
        × ((x : ℕ)
            → reaches_of x r ≡ (
                (is_note source source_author me || not (x == me.address))
                && (x == source_author.address || reaches_of x source)))
        × (r.bcc ≡ source.bcc)
  unfolding reply_all_recipients reply_all_to
  reply_all_recipients-reaches ok = elim (Option-cases (reply_to_list source source_author)) [
    | inl missing ↦
        let (no_to, listed) =
          reply_all_recipients-raises.0 (rw (reply_all_recipients, missing) refl) in
        absurd (ground (arith, ok no_to))
    | inr (r_to, e) ↦ (
      reply_all_to r_to source me,
      rw (reply_all_recipients, e),
      reply_all_to-reaches source.to source.cc source.bcc source_author me r_to e,
      ground arith,
    )
  ]
