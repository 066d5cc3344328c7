-- ===== src/Recipients/Tests.antt =====
-- Runs of the recipients' computations of src/backend/drafts/, and the theorems at concrete inputs.
use gaia_email_libs_and_more.Common.{ℕ, ◌≡◌, refl, not, ◌&&◌, ◌||◌, ◌==◌, none, some, [], ◌∷◌}
use gaia_email_libs_and_more.Recipients.{
  AddressPair, Recipients, contains_address, check_if_address_list_contains_address,
  filter_out_identity, reply_to_list, reply_all_to, reply_all_recipients, slice_function,
  clone_recipients, reply_to_sender_recipients, effective_author_given_reply_to,
}
use gaia_email_libs_and_more.Recipients.Reply.{reaches_of, is_note, reply_all_recipients-reaches}

abbrev alice : AddressPair
alice = record { name = 1; address = 10 }

abbrev bob : AddressPair
bob = record { name = 2; address = 20 }

abbrev carol : AddressPair
carol = record { name = 3; address = 30 }

-- To Bob, with a copy to Carol.
abbrev source : Recipients
source = record { to = some (bob ∷ []); cc = some (carol ∷ []); bcc = none }

-- To nobody, with a copy to Carol.
abbrev copies : Recipients
copies = record { to = none; cc = some (carol ∷ []); bcc = none }

bob_replies :
    reply_all_recipients source alice bob
    ≡ some (record { to = some (alice ∷ []); cc = some (carol ∷ []); bcc = none })
unfolding reply_all_recipients reply_to_list reply_all_to check_if_address_list_contains_address
    contains_address filter_out_identity
bob_replies = refl

own_message_is_cloned :
    (reply_to_sender_recipients (record source { bcc = some (alice ∷ []) }) bob bob).bcc
    ≡ slice_function
unfolding reply_to_sender_recipients clone_recipients
own_message_is_cloned = refl

empty_reply_to :
    effective_author_given_reply_to alice (some (record { name = 4; address = 0 })) ≡ alice
unfolding effective_author_given_reply_to
empty_reply_to = refl

reply_all_recipients-reaches_example :
    (r : Recipients) × (reply_all_recipients source alice bob ≡ some r)
    × ((x : ℕ)
        → reaches_of x r ≡ (
            (is_note source alice bob || not (x == bob.address))
            && (x == alice.address || reaches_of x source)))
    × (r.bcc ≡ source.bcc)
reply_all_recipients-reaches_example = reply_all_recipients-reaches source alice bob (λ missing. cc)
