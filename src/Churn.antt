-- ===== src/Churn.antt =====
-- src/backend/churn_drivers/conv_churn_driver.js: the summary of a conversation from its messages.
pub mod Summary
mod Tests
use gaia_email_libs_and_more.Common.{
  ℕ, zero, suc, ◌+◌, Bool, true, false, not, ◌||◌, ◌==◌, if◌then◌else◌, Option, none, some, List,
  [], ◌∷◌, length, has, add_all, get, put, for_each, max,
}

pub record Author : Type 0 where
  pub address : ℕ
  pub nick : ℕ

-- What the driver reads of a message.
pub record Message : Type 0 where
  pub flags : List ℕ
  pub draft_info : Option ℕ
  pub date : ℕ
  pub has_attachments : Bool
  pub author : Author
  pub folder_ids : List ℕ
  pub snippet : Option ℕ
  pub subject : ℕ

-- The numbers that stand for `\Seen` and `\Flagged`.
abbrev pub seen : ℕ
seen = 0

abbrev pub flagged : ℕ
flagged = 1

pub data ConvType : Type 0 where
  mail phab_drev other_type : ConvType

-- `message.author[userCanonicalField]`.
abbrev pub author_key : ConvType → Author → ℕ
author_key phab_drev author = author.nick
author_key mail author = author.address
author_key other_type author = author.address

abbrev pub is_set : Option ℕ → Bool
is_set none = false
is_set (some x) = true

-- The variables of the loop.
pub record Tally : Type 0 where
  pub authors_by_id : List (ℕ × Author)
  pub snippet_count : ℕ
  pub unread : Bool
  pub starred : Bool
  pub drafts : Bool
  pub attachments : Bool
  pub folder_ids : List ℕ
  pub effective_date : ℕ
  pub fallback_date : ℕ

abbrev pub empty_tally : Tally
empty_tally = record {
  authors_by_id = [];
  snippet_count = 0;
  unread = false;
  starred = false;
  drafts = false;
  attachments = false;
  folder_ids = [];
  effective_date = 0;
  fallback_date = 0;
}

-- `if (!authorsById.has(key)) { authorsById.set(key, author); }`
unfoldable pub note_author : ℕ → Author → List (ℕ × Author) → List (ℕ × Author)
note_author key author authors = elim (get key authors) [
  | none ↦ put key author authors
  | some known ↦ authors
]

-- The body of the loop.
unfoldable pub tally_message : ConvType → Tally → Message → Tally
tally_message conv_type t message = record {
  authors_by_id = note_author (author_key conv_type message.author) message.author t.authors_by_id;
  snippet_count = if is_set message.snippet then t.snippet_count + 1 else t.snippet_count;
  unread = if not (has seen message.flags) then true else t.unread;
  starred = if has flagged message.flags then true else t.starred;
  drafts = if is_set message.draft_info then true else t.drafts;
  attachments = if message.has_attachments then true else t.attachments;
  folder_ids = add_all message.folder_ids t.folder_ids;
  effective_date =
      if is_set message.draft_info then t.effective_date else max t.effective_date message.date;
  fallback_date = max t.fallback_date message.date;
}

unfoldable pub tally : ConvType → Tally → List Message → Tally
tally conv_type t messages = for_each (tally_message conv_type) t messages

pub record ConvInfo : Type 0 where
  pub id : ℕ
  pub conv_type : ConvType
  pub date : ℕ
  pub folder_ids : List ℕ
  pub height : ℕ
  pub subject : ℕ
  pub message_count : ℕ
  pub snippet_count : ℕ
  pub authors : List (ℕ × Author)
  pub tidbits : List ℕ
  pub has_unread : Bool
  pub has_starred : Bool
  pub has_drafts : Bool
  pub has_attachments : Bool

-- `convInfo` as the driver makes it. An author stands with the key, under which it is kept.
unfoldable pub conv_info : ℕ → ConvType → Message → List Message → ConvInfo
conv_info conv_id conv_type first messages =
    let t = tally conv_type empty_tally messages in
    record {
      id = conv_id;
      conv_type = conv_type;
      date = if t.effective_date == 0 then t.fallback_date else t.effective_date;
      folder_ids = t.folder_ids;
      height = 1;
      subject = first.subject;
      message_count = length messages;
      snippet_count = t.snippet_count;
      authors = t.authors_by_id;
      tidbits = [];
      has_unread = t.unread;
      has_starred = t.starred;
      has_drafts = t.drafts;
      has_attachments = t.attachments;
    }

-- `app_churn` gives the info as `appChurnConversation` leaves it, whether or not that raises.
module _ (app_churn : ConvInfo → List Message → ConvInfo) where
  -- `churnConversationDriver`; `none` is the TypeError of `messages[0].subject`.
  unfoldable pub churn_conversation_driver : ℕ → List Message → ConvType → Option ConvInfo
  churn_conversation_driver conv_id [] conv_type = none
  churn_conversation_driver conv_id (first ∷ rest) conv_type =
      some (app_churn (conv_info conv_id conv_type first (first ∷ rest)) (first ∷ rest))
