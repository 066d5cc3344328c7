-- ===== src/Ids.antt =====
-- src/shared/id_conversions.js: the parts of identifiers. An identifier is a string, the list of the
-- codes of its characters; here its parts matter.
pub mod Parts
mod Tests
use gaia_email_libs_and_more.Common.{
  ℕ, suc, ◌+◌, Option, none, some, List, [], ◌∷◌, ◌++◌, map, get_elem?, take, drop, ◌==◌,
  if◌then◌else◌, ◌>>=◌,
}
use gaia_email_libs_and_more.A64.{index_of, parse_int, decode_a64_int}

abbrev pub dot : ℕ
dot = 46

abbrev pub underscore : ℕ
underscore = 95

-- A character in front of the first part.
abbrev grow : ℕ → List (List ℕ) → List (List ℕ)
grow c [] = (c ∷ []) ∷ []
grow c (part ∷ parts) = (c ∷ part) ∷ parts

-- `s.split(/\./g)`; there is one part at least.
unfoldable pub split : List ℕ → List (List ℕ)
split [] = [] ∷ []
split (c ∷ s) = if c == dot then [] ∷ split s else grow c (split s)

-- `s.split(/\./g, n)[i]`, for an i below n; `none` is undefined.
unfoldable pub part : ℕ → List ℕ → Option (List ℕ)
part i s = get_elem? (split s) i

-- `s.indexOf('.', start)`; `none` is -1.
unfoldable pub index_from : ℕ → List ℕ → Option ℕ
index_from start s = index_of start dot (drop start s)

-- One behind what indexOf gave.
abbrev pub behind : Option ℕ → ℕ
behind none = 0
behind (some i) = suc i

-- `s.substring(s.indexOf('.') + 1)`.
unfoldable pub after_first_dot : List ℕ → List ℕ
after_first_dot s = drop (behind (index_from 0 s)) s

unfoldable pub account_id_from_identity_id : List ℕ → Option (List ℕ)
account_id_from_identity_id identity_id = part 0 identity_id

unfoldable pub account_id_from_folder_id : List ℕ → Option (List ℕ)
account_id_from_folder_id folder_id = part 0 folder_id

unfoldable pub decode_specific_folder_id_from_folder_id : List ℕ → Option ℕ
decode_specific_folder_id_from_folder_id folder_id = decode_a64_int (after_first_dot folder_id)

unfoldable pub account_id_from_conv_id : List ℕ → Option (List ℕ)
account_id_from_conv_id conv_id = part 0 conv_id

-- Also `encodedGmailConvIdFromConvId`.
unfoldable pub conv_specific_id_from_conv_id : List ℕ → List ℕ
conv_specific_id_from_conv_id = after_first_dot

unfoldable pub account_id_from_message_id : List ℕ → Option (List ℕ)
account_id_from_message_id message_id = part 0 message_id

-- `substring(0, -1)` is empty.
unfoldable pub conv_id_from_message_id : List ℕ → List ℕ
conv_id_from_message_id message_id =
    elim (index_from (behind (index_from 0 message_id)) message_id) [
      | none ↦ []
      | some second ↦ take second message_id
    ]

-- Also `encodedGmailConvIdFromMessageId`.
unfoldable pub conv_specific_id_from_message_id : List ℕ → Option (List ℕ)
conv_specific_id_from_message_id message_id = part 1 message_id

-- Also `encodedGmailMessageIdFromMessageId`.
unfoldable pub message_specific_id_from_message_id : List ℕ → Option (List ℕ)
message_specific_id_from_message_id message_id = part 2 message_id

unfoldable pub string_uid_from_message_id : List ℕ → Option (List ℕ)
string_uid_from_message_id message_id = part 3 message_id

-- `none` where there is no uid, for which the source gives NaN.
unfoldable pub numeric_uid_from_message_id : List ℕ → Option ℕ
numeric_uid_from_message_id message_id = do uid ← part 3 message_id; some (parse_int 0 uid)

abbrev pub undotted : ℕ → ℕ
undotted c = if c == dot then underscore else c

unfoldable pub message_id_component_from_umid : List ℕ → List ℕ
message_id_component_from_umid umid = map undotted (after_first_dot umid)
