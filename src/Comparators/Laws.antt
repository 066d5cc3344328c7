-- ===== src/Comparators/Laws.antt =====
-- The three comparators are total orders that tell every two different keys apart.
use Prim.Native.Nat.{Ordering}
use gaia_email_libs_and_more.Common.{◌≡◌, arith}
use gaia_email_libs_and_more.Bsearch.Order.{IsComparator}
use gaia_email_libs_and_more.Comparators.{
  Dated, conversation_message_comparator, old_to_new_conversation_message_comparator,
}

-- Newest first, and ties broken by the id: a total order.
pub conversation_message_comparator-IsComparator : IsComparator conversation_message_comparator
unfolding conversation_message_comparator
conversation_message_comparator-IsComparator = record {
  gt_down = λ a b c. ground arith;
  lt_up = λ a b c. ground arith;
  eq_down = λ a b c. ground arith;
  eq_up = λ a b c. ground arith;
  swap = λ a b. ground arith;
}

pub old_to_new_conversation_message_comparator-IsComparator :
    IsComparator old_to_new_conversation_message_comparator
unfolding old_to_new_conversation_message_comparator
old_to_new_conversation_message_comparator-IsComparator = record {
  gt_down = λ a b c. ground arith;
  lt_up = λ a b c. ground arith;
  eq_down = λ a b c. ground arith;
  eq_up = λ a b c. ground arith;
  swap = λ a b. ground arith;
}

-- Two keys tie exactly if they are the same key.
pub conversation_message_comparator-eq :
    (a b : Dated) → conversation_message_comparator a b ≡ Ordering.eq → a ≡ b
unfolding conversation_message_comparator
conversation_message_comparator-eq a b = ground arith
