-- ===== src/Ids/Parts.antt =====
-- The parts that an identifier was put together from come back.
use gaia_email_libs_and_more.Common.{
  ℕ, suc, ◌+◌, ◌^◌, ◌<◌, ◌≡◌, refl, sym, ap, ◌∙◌, false, some, List, [], ◌∷◌, ◌++◌, map, length,
  get_elem?, take, drop, arith, has, append_assoc, length-append,
}
use gaia_email_libs_and_more.A64.{index_of, encode_int}
use gaia_email_libs_and_more.A64.Decode.{decode_a64_int-encode_int}
use gaia_email_libs_and_more.Ids.{
  dot, undotted, split, part, index_from, after_first_dot, decode_specific_folder_id_from_folder_id,
  account_id_from_message_id, conv_id_from_message_id, conv_specific_id_from_message_id,
  message_specific_id_from_message_id, string_uid_from_message_id, message_id_component_from_umid,
}

-- A part has no dot.
abbrev pub IsPart : List ℕ → Type 0
IsPart p = has dot p ≡ false

split_part : (p rest : List ℕ) → IsPart p → split (p ++ dot ∷ rest) ≡ p ∷ split rest
unfolding split has
split_part [] rest h = refl
split_part (c ∷ p) rest h = ground (arith, split_part p rest)

split_last : (p : List ℕ) → IsPart p → split p ≡ p ∷ []
unfolding split has
split_last [] h = refl
split_last (c ∷ p) h = ground (arith, split_last p)

index_of-dot :
    (i : ℕ) (p rest : List ℕ) → IsPart p → index_of i dot (p ++ dot ∷ rest) ≡ some (length p + i)
unfolding index_of has
index_of-dot i [] rest h = ap some (omega arith)
index_of-dot i (c ∷ p) rest h = ground (arith, index_of-dot (suc i) p rest)

drop_front : (p : List ℕ) (c : ℕ) (rest : List ℕ) → drop (suc (length p)) (p ++ c ∷ rest) ≡ rest
drop_front [] c rest = refl
drop_front (d ∷ p) c rest = drop_front p c rest

take_front : (p rest : List ℕ) → take (length p) (p ++ rest) ≡ p
take_front [] rest = refl
take_front (d ∷ p) rest = ap (λ s. d ∷ s) (take_front p rest)

pub after_first_dot-append : (p rest : List ℕ) → IsPart p → after_first_dot (p ++ dot ∷ rest) ≡ rest
unfolding after_first_dot index_from
after_first_dot-append p rest h =
    rw (index_of-dot 0 p rest h) (rw (count p) (drop_front p dot rest))
  where
    count : (q : List ℕ) → length q + 0 ≡ length q
    count q = omega arith

abbrev pub message_id : List ℕ → List ℕ → List ℕ → List ℕ → List ℕ
message_id account conv message uid = account ++ dot ∷ (conv ++ dot ∷ (message ++ dot ∷ uid))

first_dot : (p rest : List ℕ) → IsPart p → index_from 0 (p ++ dot ∷ rest) ≡ some (length p)
unfolding index_from
first_dot p rest h = index_of-dot 0 p rest h ∙ ap some (omega arith)

second_dot :
    (account conv rest : List ℕ)
    → IsPart conv
    → index_from (suc (length account)) (account ++ dot ∷ (conv ++ dot ∷ rest))
      ≡ some (length (account ++ dot ∷ conv))
unfolding index_from
second_dot account conv rest h =
    ap (index_of (suc (length account)) dot) (drop_front account dot (conv ++ dot ∷ rest))
    ∙ index_of-dot (suc (length account)) conv rest h
    ∙ ap some (omega (arith, length-append account (dot ∷ conv)))

conv_id_cut :
    (account conv rest : List ℕ)
    → IsPart account
    → IsPart conv
    → conv_id_from_message_id (account ++ dot ∷ (conv ++ dot ∷ rest)) ≡ account ++ dot ∷ conv
unfolding conv_id_from_message_id
conv_id_cut account conv rest ha hc =
    rw
      (
        conv_id_from_message_id,
        first_dot account (conv ++ dot ∷ rest) ha,
        second_dot account conv rest hc,
      )
      (ap (take (length (account ++ dot ∷ conv)))
          (sym (append_assoc account (dot ∷ conv) (dot ∷ rest)))
        ∙ take_front (account ++ dot ∷ conv) (dot ∷ rest))

-- An identifier of a message that is put together from an account's, a conversation's, a message's and
-- a uid, none with a dot, yields each of them, and the conversation's identifier.
pub message_id-parts :
    (account conv message uid : List ℕ)
    → IsPart account
    → IsPart conv
    → IsPart message
    → IsPart uid
    → (account_id_from_message_id (message_id account conv message uid) ≡ some account)
      × (conv_id_from_message_id (message_id account conv message uid) ≡ account ++ dot ∷ conv)
      × (conv_specific_id_from_message_id (message_id account conv message uid) ≡ some conv)
      × (message_specific_id_from_message_id (message_id account conv message uid) ≡ some message)
      × (string_uid_from_message_id (message_id account conv message uid) ≡ some uid)
unfolding account_id_from_message_id conv_specific_id_from_message_id
    message_specific_id_from_message_id string_uid_from_message_id part
message_id-parts account conv message uid ha hc hm hu =
    let parts = whole in
    (
      ap (λ ps. get_elem? ps 0) parts,
      conv_id_cut account conv (message ++ dot ∷ uid) ha hc,
      ap (λ ps. get_elem? ps 1) parts,
      ap (λ ps. get_elem? ps 2) parts,
      ap (λ ps. get_elem? ps 3) parts,
    )
  where
    whole : split (message_id account conv message uid) ≡ account ∷ conv ∷ message ∷ uid ∷ []
    whole =
        split_part account _ ha
        ∙ ap (λ ps. account ∷ ps)
            (split_part conv _ hc
              ∙ ap (λ ps. conv ∷ ps)
                  (split_part message _ hm ∙ ap (λ ps. message ∷ ps) (split_last uid hu)))

-- The number of a folder, below 2 ^ 53, comes back from the identifier of an account without a dot, a
-- dot and the encoded number.
pub decode_specific_folder_id-encode_int :
    (account : List ℕ) (n : ℕ)
    → IsPart account
    → n < 2 ^ 53
    → decode_specific_folder_id_from_folder_id (account ++ dot ∷ encode_int n 0) ≡ some n
unfolding decode_specific_folder_id_from_folder_id
decode_specific_folder_id-encode_int account n ha h =
    rw (after_first_dot-append account (encode_int n 0) ha) (decode_a64_int-encode_int n 0 h)

undotted-IsPart : (s : List ℕ) → IsPart (map undotted s)
unfolding has
undotted-IsPart [] = refl
undotted-IsPart (c ∷ s) = ground (arith, undotted-IsPart s)

-- The component that is made of a umid has no dot, whatever the umid is.
pub message_id_component-IsPart : (umid : List ℕ) → IsPart (message_id_component_from_umid umid)
unfolding message_id_component_from_umid
message_id_component-IsPart umid = undotted-IsPart (after_first_dot umid)
