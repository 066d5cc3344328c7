-- ===== src/TaskPriorities/Listed.antt =====
-- A heap for the tests of src/backend/task_infra: a list.
use gaia_email_libs_and_more.Common.{
  ℕ, Bool, true, false, Option, none, some, List, [], ◌∷◌, length, get, put, erase, ℤ, pos,
}
use gaia_email_libs_and_more.TaskPriorities.{Heap}

unfoldable pub first_key : Option ℤ → ℤ
first_key none = pos 0
first_key (some k) = k

abbrev pub first_node : List (ℕ × ℤ) → Option (ℕ × List (ℕ × ℤ))
first_node [] = none
first_node ((n, k) ∷ h) = some (n, h)

abbrev pub is_empty : List (ℕ × ℤ) → Bool
is_empty [] = true
is_empty (n ∷ h) = false

-- Nodes with their keys; the first made is the first out, which the laws below leave open.
abbrev pub listed : Heap (List (ℕ × ℤ))
listed = record {
  insert = put;
  delete_node = erase;
  decrease_key = put;
  extract_minimum = first_node;
  is_empty = is_empty;
  node_count = length;
  key_of = λ n h. first_key (get n h);
}
