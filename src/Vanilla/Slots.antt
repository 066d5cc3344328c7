-- ===== src/Vanilla/Slots.antt =====
-- What a free flag slot does to a change of flags.
use gaia_email_libs_and_more.Common.{ℕ, ◌≡◌, none, some, get-put, arith}
use gaia_email_libs_and_more.Vanilla.{
  Info, Folder, index_of, allocate_flag_slot, find_flag_slot, incr_flag_slot,
  issue_unique_message_id, yay_message_found_by_date, check_flag_changes,
}

-- If a flag slot is free and neither of two lists of flags has a slot, then after a message is found
-- with the first, a check that finds it with the second records no change at all.
pub check_flag_changes-misses :
    (uid date_ts flags flags' free : ℕ) (s : Folder)
    → index_of none s.flag_sets ≡ some free
    → index_of (some flags) s.flag_sets ≡ none
    → index_of (some flags') s.flag_sets ≡ none
    → check_flag_changes uid flags' (yay_message_found_by_date uid date_ts flags s)
      ≡ some (yay_message_found_by_date uid date_ts flags s)
unfolding check_flag_changes yay_message_found_by_date find_flag_slot allocate_flag_slot
    incr_flag_slot issue_unique_message_id
check_flag_changes-misses uid date_ts flags flags' free s is_free absent absent' =
    let info : Info = record { umid = s.next_umid_suffix; flag_slot = free } in
    ground (arith, is_free, absent, absent', get-put uid uid info s.uid_info)
