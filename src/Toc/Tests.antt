-- ===== src/Toc/Tests.antt =====
-- Runs of the searches and of the message list, and the theorems at concrete inputs.
use gaia_email_libs_and_more.Common.{
  ℕ, zero, suc, ◌+◌, ◌≡◌, refl, true, false, not, ◌&&◌, ◌||◌, none, some, Option, List, [], ◌∷◌,
  insert_at, remove_at, has, add, put, get, for_each, pos, arith, map,
}
use gaia_email_libs_and_more.Bsearch.{
  probe, bsearch_for_insert, bsearch_maybe_exists_in, bsearch_maybe_exists,
}
use gaia_email_libs_and_more.Bsearch.Order.{IsSorted}
use gaia_email_libs_and_more.Bsearch.Insert.{IsPlace, bsearch_for_insert-IsPlace}
use gaia_email_libs_and_more.Bsearch.Exists.{Answers, bsearch_maybe_exists_in-Answers}
use gaia_email_libs_and_more.Comparators.{Dated, conversation_message_comparator}
use gaia_email_libs_and_more.Comparators.Laws.{conversation_message_comparator-eq}
use gaia_email_libs_and_more.Toc.{
  Key, dated, compare_keys, Change, insert_key, delete_key, on_toc_change, slice_step, slice_ids,
  get_data_for_slice_range, overlays_only, whole,
}
use gaia_email_libs_and_more.Toc.Keys.{compare_keys-IsComparator, count}
use gaia_email_libs_and_more.Toc.Changes.{gain, loss, on_toc_change-effect}
use gaia_email_libs_and_more.Toc.Window.{
  is_some, is_known, is_missing, get_data_for_slice_range-members,
}
use gaia_email_libs_and_more.Toc.Dynamic.{add_item, add_items}

program : Unit {0}
unfolding probe bsearch_for_insert bsearch_maybe_exists_in bsearch_maybe_exists
    conversation_message_comparator compare_keys insert_key delete_key on_toc_change insert_at
    remove_at slice_step slice_ids get_data_for_slice_range for_each has add put get add_item
    add_items
program = tt

abbrev key : ℕ → ℕ → Key
key date id = record { date = date; id = id; match_info = none }

abbrev messages : List Key
messages = key 30 3 ∷ key 20 2 ∷ key 10 1 ∷ []

messages-IsSorted : IsSorted compare_keys messages
unfolding compare_keys conversation_message_comparator
messages-IsSorted zero (suc zero) x y p e f = ground arith
messages-IsSorted zero (suc (suc zero)) x y p e f = ground arith
messages-IsSorted (suc zero) (suc (suc zero)) x y p e f = ground arith
messages-IsSorted zero zero x y p e f = absurd (omega arith)
messages-IsSorted (suc zero) zero x y p e f = absurd (omega arith)
messages-IsSorted (suc zero) (suc zero) x y p e f = absurd (omega arith)
messages-IsSorted (suc (suc i)) zero x y p e f = absurd (omega arith)
messages-IsSorted (suc (suc i)) (suc zero) x y p e f = absurd (omega arith)
messages-IsSorted (suc (suc i)) (suc (suc zero)) x y p e f = absurd (omega arith)
messages-IsSorted i (suc (suc (suc j))) x y p e f = cc

abbrev added : Change
added = record {
  id = 4;
  pre_date = none;
  post_date = some 25;
  has_item = true;
  freshly_added = true;
  match_info = none;
}

abbrev redated : Change
redated = record {
  id = 1;
  pre_date = some 10;
  post_date = some 40;
  has_item = true;
  freshly_added = false;
  match_info = none;
}

abbrev deleted : Change
deleted = record redated { id = 2; pre_date = some 20; post_date = none; has_item = false }

changes_run :
    ((on_toc_change added messages).0 ≡ some (key 30 3 ∷ key 25 4 ∷ key 20 2 ∷ key 10 1 ∷ []))
    × ((on_toc_change redated messages).0 ≡ some (key 40 1 ∷ key 30 3 ∷ key 20 2 ∷ []))
    × ((on_toc_change deleted messages).0 ≡ some (key 30 3 ∷ key 10 1 ∷ []))
unfolding program
changes_run = (refl, refl, refl)

-- A deletion of a message that is not listed.
stray_run : delete_key (key 15 9) messages ≡ some (key 20 2 ∷ key 10 1 ∷ [])
unfolding program
stray_run = refl

bsearch_for_insert-IsPlace_example :
    (i : ℕ) × (bsearch_for_insert compare_keys messages (key 25 4) ≡ some i)
    × IsPlace compare_keys messages (key 25 4) i
bsearch_for_insert-IsPlace_example =
    bsearch_for_insert-IsPlace compare_keys compare_keys-IsComparator messages messages-IsSorted
      (key 25 4)

bsearch_maybe_exists_in-Answers_example :
    (r : Option ℕ) × (bsearch_maybe_exists_in compare_keys messages (key 20 2) 0 3 ≡ some r)
    × Answers compare_keys messages (key 20 2) 0 3 r
bsearch_maybe_exists_in-Answers_example =
    bsearch_maybe_exists_in-Answers compare_keys messages (key 20 2) 0 3 compare_keys-IsComparator
      messages-IsSorted (omega arith) (omega arith)

on_toc_change-effect_example :
    (l' : List Key) × ((on_toc_change redated messages).0 ≡ some l')
    × IsSorted compare_keys l'
    × ((q : Dated) → count q l' + loss redated q ≡ count q messages + gain redated q)
unfolding count
on_toc_change-effect_example =
    on_toc_change-effect redated messages messages-IsSorted (λ _. omega arith)

conversation_message_comparator-eq_example : dated (key 20 2) ≡ dated (key 20 2)
unfolding conversation_message_comparator
conversation_message_comparator-eq_example =
    conversation_message_comparator-eq (dated (key 20 2)) (dated (key 20 2)) refl

abbrev in_cache : ℕ → Option ℕ
in_cache zero = none
in_cache (suc zero) = none
in_cache (suc (suc id)) = some 7

slice_run :
    get_data_for_slice_range (λ id. id) in_cache (3 ∷ []) [] (pos 0) (pos 9) messages ≡ record {
      ids = 3 ∷ 2 ∷ 1 ∷ [];
      send_state = (3, overlays_only 3) ∷ (2, whole 7 2 none) ∷ [];
      need_data = (1, 10) ∷ [];
      new_known_set = 2 ∷ [];
    }
unfolding program
slice_run = refl

get_data_for_slice_range-members_example :
    ((get_data_for_slice_range (λ id. id) in_cache (3 ∷ []) [] (pos 0) (pos 9) messages).ids
      ≡ slice_ids 0 3 messages)
    × (has 2
          (get_data_for_slice_range
            (λ id. id)
            in_cache
            (3 ∷ [])
            []
            (pos 0)
            (pos 9)
            messages).new_known_set
        ≡ (has 2 (slice_ids 0 3 messages)
            && (is_known (λ id. id) in_cache (3 ∷ []) [] 2
                || not (has 2 (3 ∷ [])) && is_some (in_cache 2))))
    × (is_some (
          get 2
            (get_data_for_slice_range
              (λ id. id)
              in_cache
              (3 ∷ [])
              []
              (pos 0)
              (pos 9)
              messages).send_state)
        ≡ (has 2 (slice_ids 0 3 messages)
            && not (is_known (λ id. id) in_cache (3 ∷ []) [] 2)
            && not (is_missing (λ id. id) in_cache (3 ∷ []) [] 2)))
    × (has 2 (
          map
            (λ e. e.0)
            (get_data_for_slice_range
              (λ id. id)
              in_cache
              (3 ∷ [])
              []
              (pos 0)
              (pos 9)
              messages).need_data)
        ≡ (has 2 (slice_ids 0 3 messages) && is_missing (λ id. id) in_cache (3 ∷ []) [] 2))
get_data_for_slice_range-members_example =
    get_data_for_slice_range-members (λ id. id) in_cache (3 ∷ []) [] (pos 0) (pos 9) messages 2
