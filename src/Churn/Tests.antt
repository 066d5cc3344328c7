-- ===== src/Churn/Tests.antt =====
-- A run of src/backend/churn_drivers/conv_churn_driver.js on two messages, and the theorem at them.
use gaia_email_libs_and_more.Common.{
  ◌≡◌, refl, true, false, none, some, List, [], ◌∷◌, has, add, add_all, get, put, for_each,
}
use gaia_email_libs_and_more.Churn.{
  Author, Message, mail, ConvInfo, note_author, tally_message, tally, conv_info,
  churn_conversation_driver,
}
use gaia_email_libs_and_more.Churn.Summary.{IsSummary, churn_conversation_driver-IsSummary}

abbrev alice : Author
alice = record { address = 10; nick = 1 }

abbrev sent : Message
sent = record {
  flags = 0 ∷ [];
  draft_info = none;
  date = 100;
  has_attachments = false;
  author = alice;
  folder_ids = 1 ∷ [];
  snippet = some 7;
  subject = 3;
}

abbrev draft : Message
draft = record sent { draft_info = some 1; date = 200; flags = []; folder_ids = 1 ∷ 2 ∷ [] }

abbrev conversation : List Message
conversation = sent ∷ draft ∷ []

-- An app that makes its conversations higher.
abbrev heighten : ConvInfo → List Message → ConvInfo
heighten info messages = record info { height = 2 }

summary_runs :
    churn_conversation_driver heighten 5 conversation mail
    ≡ some (record {
      id = 5;
      conv_type = mail;
      date = 100;
      folder_ids = 1 ∷ 2 ∷ [];
      height = 2;
      subject = 3;
      message_count = 2;
      snippet_count = 2;
      authors = (10, alice) ∷ [];
      tidbits = [];
      has_unread = true;
      has_starred = false;
      has_drafts = true;
      has_attachments = false;
    })
unfolding churn_conversation_driver conv_info tally tally_message note_author for_each has add
    add_all get put
summary_runs = refl

churn_conversation_driver-IsSummary_example :
    (info : ConvInfo) × (churn_conversation_driver heighten 5 conversation mail
      ≡ some (heighten info conversation))
    × IsSummary mail conversation info
churn_conversation_driver-IsSummary_example =
    churn_conversation_driver-IsSummary heighten 5 mail conversation (λ e. cc)
