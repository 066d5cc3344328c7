-- ===== src/Gmail/Criteria.antt =====
-- When a message is worth syncing on its own.
use gaia_email_libs_and_more.Common.{
  ℕ, ◌≤◌, ◌≡◌, ◌≢◌, ◌↔◌, true, not, ◌&&◌, ◌==◌, leb, some, List, [], ◌∷◌, has, get, arith,
  Option-cases, Bool-cases, inl, inr,
}
use gaia_email_libs_and_more.Gmail.{Sync, message_meets_sync_criteria}

-- A folder of the message that has a date to sync from, and the message is not older.
pub record IsSynced (date : ℕ) (folder_ids : List ℕ) (s : Sync) : Type 0 where
  pub folder_id : ℕ
  pub since_date : ℕ
  pub listed : has folder_id folder_ids ≡ true
  pub since : get folder_id s.label_since_dates ≡ some since_date
  pub not_zero : since_date ≢ 0
  pub not_older : since_date ≤ date

module _ (date : ℕ) (s : Sync) where
  IsSynced-later :
      (f : ℕ) (folder_ids : List ℕ) → IsSynced date folder_ids s → IsSynced date (f ∷ folder_ids) s
  unfolding has
  IsSynced-later f folder_ids h = record {
    folder_id = h.folder_id;
    since_date = h.since_date;
    listed = ground (arith, h.listed);
    since = h.since;
    not_zero = h.not_zero;
    not_older = h.not_older;
  }

  meets→IsSynced :
      (folder_ids : List ℕ)
      → message_meets_sync_criteria date folder_ids s ≡ true
      → IsSynced date folder_ids s
  unfolding message_meets_sync_criteria has
  meets→IsSynced [] e = cc
  meets→IsSynced (f ∷ fs) e = elim (Option-cases (get f s.label_since_dates)) [
    | inl absent ↦ IsSynced-later f fs (meets→IsSynced fs (ground (arith, absent)))
    | inr (d, present) ↦ elim (Bool-cases (not (d == 0) && leb d date)) [
      | inl fits ↦ record {
        folder_id = f;
        since_date = d;
        listed = ground arith;
        since = present;
        not_zero = λ z. ground arith;
        not_older = ground arith;
      }
      | inr other ↦ IsSynced-later f fs (meets→IsSynced fs (ground (arith, present)))
    ]
  ]

  IsSynced→meets :
      (folder_ids : List ℕ)
      → IsSynced date folder_ids s
      → message_meets_sync_criteria date folder_ids s ≡ true
  unfolding message_meets_sync_criteria has
  IsSynced→meets [] h = absurd (ground (arith, h.listed))
  IsSynced→meets (f ∷ fs) h = elim (Bool-cases (f == h.folder_id)) [
    | inl here ↦
        let same : f ≡ h.folder_id = ground arith in
        let since : get f s.label_since_dates ≡ some h.since_date = rw same h.since in
        ground (arith, since, h.not_zero, h.not_older)
    | inr later ↦
        let rest : IsSynced date fs s = record {
          folder_id = h.folder_id;
          since_date = h.since_date;
          listed = ground (arith, h.listed);
          since = h.since;
          not_zero = h.not_zero;
          not_older = h.not_older;
        } in
        ground (arith, IsSynced→meets fs rest)
  ]

  -- A message meets the sync criteria exactly if it has a folder with a date to sync from, which is
  -- not 0 and not after the message's.
  pub message_meets_sync_criteria_iff :
      (folder_ids : List ℕ)
      → (message_meets_sync_criteria date folder_ids s ≡ true) ↔ IsSynced date folder_ids s
  message_meets_sync_criteria_iff folder_ids =
      (meets→IsSynced folder_ids, IsSynced→meets folder_ids)
