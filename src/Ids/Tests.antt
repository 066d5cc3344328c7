-- ===== src/Ids/Tests.antt =====
-- Runs of the conversions, and the theorems at concrete inputs.
use gaia_email_libs_and_more.Common.{has, ◌≡◌, refl, some, [], ◌∷◌}
use gaia_email_libs_and_more.A64.{index_of, parse_int}
use gaia_email_libs_and_more.Ids.{
  dot, split, part, index_from, after_first_dot, account_id_from_message_id,
  conv_id_from_message_id, conv_specific_id_from_message_id, message_specific_id_from_message_id,
  string_uid_from_message_id, numeric_uid_from_message_id, message_id_component_from_umid,
}
use gaia_email_libs_and_more.Ids.Parts.{
  IsPart, message_id, message_id-parts, message_id_component-IsPart,
}

-- "1.2.3.45" has the uid 45.
uid :
    numeric_uid_from_message_id (message_id (49 ∷ []) (50 ∷ []) (51 ∷ []) (52 ∷ 53 ∷ [])) ≡ some 45
unfolding numeric_uid_from_message_id part split parse_int
uid = refl

-- "a.b.c" becomes "b_c".
component : message_id_component_from_umid (97 ∷ dot ∷ 98 ∷ dot ∷ 99 ∷ []) ≡ 98 ∷ 95 ∷ 99 ∷ []
unfolding message_id_component_from_umid after_first_dot index_from index_of
component = refl

message_id-parts_example :
    (account_id_from_message_id (message_id (49 ∷ []) (50 ∷ []) (51 ∷ []) (52 ∷ []))
      ≡ some (49 ∷ []))
    × (conv_id_from_message_id (message_id (49 ∷ []) (50 ∷ []) (51 ∷ []) (52 ∷ []))
        ≡ 49 ∷ dot ∷ 50 ∷ [])
    × (conv_specific_id_from_message_id (message_id (49 ∷ []) (50 ∷ []) (51 ∷ []) (52 ∷ []))
        ≡ some (50 ∷ []))
    × (message_specific_id_from_message_id (message_id (49 ∷ []) (50 ∷ []) (51 ∷ []) (52 ∷ []))
        ≡ some (51 ∷ []))
    × (string_uid_from_message_id (message_id (49 ∷ []) (50 ∷ []) (51 ∷ []) (52 ∷ []))
        ≡ some (52 ∷ []))
unfolding has
message_id-parts_example =
    message_id-parts (49 ∷ []) (50 ∷ []) (51 ∷ []) (52 ∷ []) refl refl refl refl

message_id_component-IsPart_example :
    IsPart (message_id_component_from_umid (97 ∷ dot ∷ 98 ∷ dot ∷ 99 ∷ []))
message_id_component-IsPart_example = message_id_component-IsPart (97 ∷ dot ∷ 98 ∷ dot ∷ 99 ∷ [])
