-- ===== src/Recipients.antt =====
-- src/backend/drafts/reply_all_recipients.js, reply_to_sender_recipients.js and address_helpers.js:
-- whom a reply is addressed to.
pub mod Reply
mod Tests
use gaia_email_libs_and_more.Common.{
  ℕ, Bool, true, false, not, ◌&&◌, ◌||◌, ◌==◌, if◌then◌else◌, Option, none, some, List, [], ◌∷◌,
  length,
}

-- An address pair. An address is compared only by `===`; 0 stands for the empty string.
pub record AddressPair : Type 0 where
  pub name : ℕ
  pub address : ℕ

-- A list that is missing is `none`.
pub record Recipients : Type 0 where
  pub to : Option (List AddressPair)
  pub cc : Option (List AddressPair)
  pub bcc : Option (List AddressPair)

abbrev pub address_matches : AddressPair → AddressPair → Bool
address_matches a b = a.address == b.address

-- The loop of `checkIfAddressListContainsAddress`.
unfoldable pub contains_address : List AddressPair → AddressPair → Bool
contains_address [] addr_pair = false
contains_address (a ∷ list) addr_pair =
    let rest = contains_address list addr_pair in
    if a.address == addr_pair.address then true else rest

unfoldable pub check_if_address_list_contains_address :
    Option (List AddressPair) → AddressPair → Bool
check_if_address_list_contains_address none addr_pair = false
check_if_address_list_contains_address (some list) addr_pair = contains_address list addr_pair

unfoldable pub filter_out_identity : List AddressPair → AddressPair → List AddressPair
filter_out_identity [] identity = []
filter_out_identity (a ∷ list) identity =
    let rest = filter_out_identity list identity in
    if not (a.address == identity.address) then a ∷ rest else rest

-- `list || []`.
abbrev pub or_empty : Option (List AddressPair) → List AddressPair
or_empty none = []
or_empty (some list) = list

-- `!list || list.length === 0`.
abbrev pub is_none : Option (List AddressPair) → Bool
is_none none = true
is_none (some []) = true
is_none (some (a ∷ list)) = false

-- `rTo`: where the author is on a list already it is the `to` list, which may be missing.
unfoldable pub reply_to_list : Recipients → AddressPair → Option (List AddressPair)
reply_to_list source source_author =
    if check_if_address_list_contains_address source.to source_author
      || check_if_address_list_contains_address source.cc source_author
    then source.to
    else some (source_author ∷ or_empty source.to)

abbrev pub is_single : List AddressPair → Bool
is_single [] = false
is_single (a ∷ []) = true
is_single (a ∷ b ∷ list) = false

-- `replyAllRecipients` behind the computation of `rTo`.
unfoldable pub reply_all_to : List AddressPair → Recipients → AddressPair → Recipients
reply_all_to r_to source reply_author =
    if is_single r_to && is_none source.cc && contains_address r_to reply_author
    then record { to = some r_to; cc = some []; bcc = source.bcc }
    else record {
      to = some (filter_out_identity r_to reply_author);
      cc = some (filter_out_identity (or_empty source.cc) reply_author);
      bcc = source.bcc;
    }

-- `replyAllRecipients`; `none` is the TypeError of `rTo.length` where `rTo` is null.
unfoldable pub reply_all_recipients : Recipients → AddressPair → AddressPair → Option Recipients
reply_all_recipients source source_author reply_author = elim (reply_to_list source source_author) [
  | none ↦ none
  | some r_to ↦ some (reply_all_to r_to source reply_author)
]

-- `effectiveAuthorGivenReplyTo`.
unfoldable pub effective_author_given_reply_to : AddressPair → Option AddressPair → AddressPair
effective_author_given_reply_to from none = from
effective_author_given_reply_to from (some reply_to) =
    if reply_to.address == 0 then from else record from { address = reply_to.address }

-- The `bcc` of `cloneRecipients`: null, or the function `slice` itself, which is not called.
pub data ClonedBcc : Type 0 where
  no_bcc slice_function : ClonedBcc
  bcc_list : List AddressPair → ClonedBcc

pub record ClonedRecipients : Type 0 where
  pub to : Option (List AddressPair)
  pub cc : Option (List AddressPair)
  pub bcc : ClonedBcc

unfoldable pub clone_recipients : Recipients → ClonedRecipients
clone_recipients recipients = record {
  to = recipients.to;
  cc = recipients.cc;
  bcc = elim recipients.bcc [ none ↦ no_bcc | some list ↦ slice_function ];
}

unfoldable pub reply_to_sender_recipients :
    Recipients → AddressPair → AddressPair → ClonedRecipients
reply_to_sender_recipients source source_author reply_author =
    if address_matches source_author reply_author
    then clone_recipients source
    else record { to = some (source_author ∷ []); cc = some []; bcc = bcc_list [] }
