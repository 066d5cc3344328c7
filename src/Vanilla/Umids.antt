-- ===== src/Vanilla/Umids.antt =====
-- Every known UID has a umid of its own, and what a disappeared UID leads to.
use gaia_email_libs_and_more.Common.{
  ℕ, ◌<◌, ◌≡◌, some, get, get-put, get-erase, arith, Option-cases, inl, inr,
}
use gaia_email_libs_and_more.Vanilla.{
  Info, Folder, issue_unique_message_id, allocate_flag_slot, find_flag_slot, incr_flag_slot,
  decr_flag_slot, forget_uid, yay_message_found_by_date, check_flag_changes,
}

-- Umids are issued once, and no two UIDs share one.
pub record IsIssued (s : Folder) : Type 0 where
  pub issued : (u : ℕ) (i : Info) → get u s.uid_info ≡ some i → i.umid < s.next_umid_suffix
  pub apart :
      (u v : ℕ) (i j : Info)
      → get u s.uid_info ≡ some i
      → get v s.uid_info ≡ some j
      → i.umid ≡ j.umid
      → u ≡ v

-- The flag slots are no concern of the UIDs.
find_flag_slot-keeps :
    (flags : ℕ) (s : Folder)
    → ((find_flag_slot flags s).1.uid_info ≡ s.uid_info)
      × ((find_flag_slot flags s).1.next_umid_suffix ≡ s.next_umid_suffix)
unfolding find_flag_slot allocate_flag_slot
find_flag_slot-keeps flags s = ground arith

pub yay_message_found_by_date-IsIssued :
    (uid date_ts flags : ℕ) (s : Folder)
    → IsIssued s
    → IsIssued (yay_message_found_by_date uid date_ts flags s)
unfolding yay_message_found_by_date issue_unique_message_id incr_flag_slot
yay_message_found_by_date-IsIssued uid date_ts flags s h =
    let keeps = find_flag_slot-keeps flags s in
    let slot = (find_flag_slot flags s).0 in
    let info : Info = record { umid = s.next_umid_suffix; flag_slot = slot } in
    record {
      issued = λ u i e. ground (arith, keeps, get-put u uid info s.uid_info, h.issued u i);
      apart = λ u v i j e f same. ground (
        arith,
        keeps,
        get-put u uid info s.uid_info,
        get-put v uid info s.uid_info,
        h.issued u i,
        h.issued v j,
        h.apart u v i j,
      );
    }

pub forget_uid-IsIssued : (uid : ℕ) (s : Folder) → IsIssued s → IsIssued (forget_uid s uid)
unfolding forget_uid
forget_uid-IsIssued uid s h = elim (Option-cases (get uid s.uid_info)) [
  | inl absent ↦ rw (forget_uid, absent) h
  | inr (info, present) ↦
      rw (forget_uid, present)
        (record {
          issued = λ u i e. h.issued u i (ground (arith, get-erase u uid s.uid_info));
          apart = λ u v i j e f same.
              h.apart u v i j (ground (arith, get-erase u uid s.uid_info))
                (ground (arith, get-erase v uid s.uid_info)) same;
        })
]

pub check_flag_changes-IsIssued :
    (uid flags : ℕ) (s s' : Folder)
    → IsIssued s
    → check_flag_changes uid flags s ≡ some s'
    → IsIssued s'
unfolding check_flag_changes incr_flag_slot decr_flag_slot
check_flag_changes-IsIssued uid flags s s' h run = elim (Option-cases (get uid s.uid_info)) [
  | inl absent ↦ absurd (ground (arith, absent))
  | inr (info, present) ↦
      let keeps = find_flag_slot-keeps flags s in
      let next : Info = record info { flag_slot = (find_flag_slot flags s).0 } in
      record {
        issued = λ u i e. ground (
          arith,
          keeps,
          present,
          run,
          get-put u uid next s.uid_info,
          h.issued u i,
          h.issued uid info,
        );
        apart = λ u v i j e f same. ground (
          arith,
          keeps,
          present,
          run,
          get-put u uid next s.uid_info,
          get-put v uid next s.uid_info,
          h.apart u v i j,
          h.apart uid v info j,
          h.apart u uid i info,
        );
      }
]
