-- ===== src/Churn/Summary.antt =====
-- The summary says of the conversation what its messages say.
use gaia_email_libs_and_more.Common.{
  ℕ, ◌+◌, ◌≡◌, ◌≢◌, refl, Bool, true, false, not, ◌||◌, ◌==◌, if◌then◌else◌, Option, none, some,
  List, [], ◌∷◌, length, has, has-add_all, get, get-put, for_each, max, arith, Option-cases, inl,
  inr,
}
use gaia_email_libs_and_more.Churn.{
  Author, Message, ConvType, author_key, is_set, seen, flagged, Tally, empty_tally, note_author,
  tally_message, tally, ConvInfo, conv_info, churn_conversation_driver,
}

-- Whether some message passes the test, and how many do.
abbrev pub any : (Message → Bool) → List Message → Bool
any p [] = false
any p (m ∷ ms) = p m || any p ms

abbrev pub count : (Message → Bool) → List Message → ℕ
count p [] = 0
count p (m ∷ ms) = (if p m then 1 else 0) + count p ms

-- The latest date of the messages that pass the test.
abbrev pub latest : (Message → Bool) → List Message → ℕ
latest p [] = 0
latest p (m ∷ ms) = max (if p m then m.date else 0) (latest p ms)

-- The author of the first message whose author has the key.
abbrev pub first_author : ConvType → ℕ → List Message → Option Author
first_author conv_type key [] = none
first_author conv_type key (m ∷ ms) =
    if author_key conv_type m.author == key then some m.author else first_author conv_type key ms

abbrev pub is_unread : Message → Bool
is_unread m = not (has seen m.flags)

abbrev pub is_starred : Message → Bool
is_starred m = has flagged m.flags

abbrev pub is_draft : Message → Bool
is_draft m = is_set m.draft_info

abbrev pub has_snippet : Message → Bool
has_snippet m = is_set m.snippet

module _ (conv_type : ConvType) where
  get-note_author :
      (key k : ℕ) (author : Author) (authors : List (ℕ × Author))
      → get key (note_author k author authors) ≡ elim (get key authors) [
        | some known ↦ some known
        | none ↦ if k == key then some author else none
      ]
  unfolding note_author
  get-note_author key k author authors = elim (Option-cases (get k authors)) [
    | inl absent ↦ ground (arith, absent, get-put key k author authors)
    | inr (known, present) ↦ ground (arith, present)
  ]

  tally-flags :
      (t : Tally) (ms : List Message)
      → ((tally conv_type t ms).unread ≡ (t.unread || any is_unread ms))
        × ((tally conv_type t ms).starred ≡ (t.starred || any is_starred ms))
        × ((tally conv_type t ms).drafts ≡ (t.drafts || any is_draft ms))
        × ((tally conv_type t ms).attachments
            ≡ (t.attachments || any (λ (m : Message). m.has_attachments) ms))
  unfolding tally for_each tally_message
  tally-flags t [] = ground arith
  tally-flags t (m ∷ ms) = ground (arith, tally-flags (tally_message conv_type t m) ms)

  tally-numbers :
      (t : Tally) (ms : List Message)
      → ((tally conv_type t ms).snippet_count ≡ t.snippet_count + count has_snippet ms)
        × ((tally conv_type t ms).effective_date
            ≡ max t.effective_date (latest (λ (m : Message). not (is_draft m)) ms))
        × ((tally conv_type t ms).fallback_date
            ≡ max t.fallback_date (latest (λ (m : Message). true) ms))
  unfolding tally for_each tally_message
  tally-numbers t [] = ground arith
  tally-numbers t (m ∷ ms) = ground (arith, tally-numbers (tally_message conv_type t m) ms)

  tally-sets :
      (t : Tally) (ms : List Message) (x : ℕ)
      → (has x (tally conv_type t ms).folder_ids
          ≡ (has x t.folder_ids || any (λ (m : Message). has x m.folder_ids) ms))
        × (get x (tally conv_type t ms).authors_by_id ≡ elim (get x t.authors_by_id) [
          | some known ↦ some known
          | none ↦ first_author conv_type x ms
        ])
  unfolding tally for_each tally_message
  tally-sets t [] x = ground arith
  tally-sets t (m ∷ ms) x = ground (
    arith,
    tally-sets (tally_message conv_type t m) ms x,
    has-add_all x m.folder_ids t.folder_ids,
    get-note_author x (author_key conv_type m.author) m.author t.authors_by_id,
  )

-- A flag stands for some message; the date is the latest of the messages that are no drafts, or of
-- all where that is 0; the author of a key is the first.
pub record IsSummary (conv_type : ConvType) (ms : List Message) (info : ConvInfo) : Type 0 where
  pub message_count_is : info.message_count ≡ length ms
  pub snippet_count_is : info.snippet_count ≡ count has_snippet ms
  pub unread_is : info.has_unread ≡ any is_unread ms
  pub starred_is : info.has_starred ≡ any is_starred ms
  pub drafts_is : info.has_drafts ≡ any is_draft ms
  pub attachments_is : info.has_attachments ≡ any (λ (m : Message). m.has_attachments) ms
  pub date_is : info.date ≡ (
      if latest (λ (m : Message). not (is_draft m)) ms == 0
      then latest (λ (m : Message). true) ms
      else latest (λ (m : Message). not (is_draft m)) ms)
  pub folder_ids_is : (f : ℕ) → has f info.folder_ids ≡ any (λ (m : Message). has f m.folder_ids) ms
  pub authors_is : (key : ℕ) → get key info.authors ≡ first_author conv_type key ms

conv_info-IsSummary :
    (conv_id : ℕ) (conv_type : ConvType) (first : Message) (ms : List Message)
    → IsSummary conv_type ms (conv_info conv_id conv_type first ms)
unfolding conv_info has get
conv_info-IsSummary conv_id conv_type first ms =
    let flags = tally-flags conv_type empty_tally ms in
    let numbers = tally-numbers conv_type empty_tally ms in
    record {
      message_count_is = refl;
      snippet_count_is = ground (arith, numbers);
      unread_is = flags.0;
      starred_is = flags.1;
      drafts_is = flags.2;
      attachments_is = flags.3;
      date_is = ground (arith, numbers);
      folder_ids_is = λ f. (tally-sets conv_type empty_tally ms f).0;
      authors_is = λ key. (tally-sets conv_type empty_tally ms key).1;
    }

-- For a conversation with a message the driver returns what the app makes of a summary that says
-- what the messages say.
pub churn_conversation_driver-IsSummary :
    (app_churn : ConvInfo → List Message → ConvInfo) (conv_id : ℕ) (conv_type : ConvType)
    (ms : List Message)
    → ms ≢ []
    → (info : ConvInfo) × (churn_conversation_driver app_churn conv_id ms conv_type
        ≡ some (app_churn info ms))
      × IsSummary conv_type ms info
unfolding churn_conversation_driver
churn_conversation_driver-IsSummary app_churn conv_id conv_type [] full = absurd (full refl)
churn_conversation_driver-IsSummary app_churn conv_id conv_type (first ∷ rest) full = (
  conv_info conv_id conv_type first (first ∷ rest),
  refl,
  conv_info-IsSummary conv_id conv_type first (first ∷ rest),
)
