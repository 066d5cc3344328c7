-- ===== src/Gmail/Removal.antt =====
-- Which conversations are removed in the end.
use gaia_email_libs_and_more.Common.{
  ℕ, ◌≡◌, refl, sym, ap, ◌∙◌, Bool, true, false, ◌==◌, if◌then◌else◌, Option, none, some, List, [],
  ◌∷◌, ◌++◌, has, has-add, has-delete, get, get-put, arith, Option-cases, inl, inr,
}
use gaia_email_libs_and_more.Gmail.{Stash, Sync, is_known_raw_conv_id}
use gaia_email_libs_and_more.Gmail.Tasks.{
  Work, store, ensure_task, update_task_with_new_uid, update_task_with_modified_uid,
  update_task_with_removed_uid, set_remove_conv,
}
use gaia_email_libs_and_more.Gmail.Moves.{
  new_yay_message_in_new_conv, new_meh_message_in_existing_conv, moot_message, splice_out, is_empty,
  is_one, doom_if_empty, save_if_one, existing_yay_message_is_now_meh,
  existing_meh_message_is_now_yay, existing_message_updated, yay_message_deleted,
  meh_message_deleted, remove_last, with_stash,
}

-- A conversation is pending for removal exactly if it has a stash and that has no yay UID.
abbrev pub is_doomed : ℕ → List (ℕ × Stash) → Bool
is_doomed c stashes = elim (get c stashes) [ none ↦ false | some stash ↦ is_empty stash.yay_uids ]

abbrev pub IsPending : Sync → Type 0
IsPending s = (c : ℕ) → has c s.pending_for_removal ≡ is_doomed c s.stashes

-- The helpers on tasks leave the UIDs of the stash alone.
yay-update_task_with_new_uid :
    (grow : Bool) (uid c date : ℕ) (work : Work)
    → (update_task_with_new_uid grow uid c date work).0.yay_uids ≡ work.0.yay_uids
unfolding update_task_with_new_uid ensure_task
yay-update_task_with_new_uid grow uid c date work = ground arith

yay-update_task_with_modified_uid :
    (uid c state : ℕ) (work : Work)
    → (update_task_with_modified_uid uid c state work).0.yay_uids ≡ work.0.yay_uids
unfolding update_task_with_modified_uid ensure_task
yay-update_task_with_modified_uid uid c state work = ground arith

yay-update_task_with_removed_uid :
    (uid : ℕ) (work : Work) → (update_task_with_removed_uid uid work).0.yay_uids ≡ work.0.yay_uids
unfolding update_task_with_removed_uid ensure_task
yay-update_task_with_removed_uid uid work = ground arith

yay-set_remove_conv :
    (value : Bool) (work : Work) → (set_remove_conv value work).0.yay_uids ≡ work.0.yay_uids
unfolding set_remove_conv
yay-set_remove_conv value work = ground arith

-- What is pending after a stash is stored, doomed or saved.
store-IsPending :
    (c : ℕ) (work : Work) (s : Sync)
    → IsPending s
    → has c s.pending_for_removal ≡ is_empty work.0.yay_uids
    → IsPending (store c work s)
unfolding store
store-IsPending c work s p h d = ground (arith, get-put d c work.0 s.stashes, p d)

doom_if_empty-IsPending :
    (c : ℕ) (work : Work) (s : Sync)
    → IsPending s
    → (is_empty work.0.yay_uids ≡ false → has c s.pending_for_removal ≡ false)
    → IsPending (doom_if_empty c work s)
unfolding doom_if_empty store
doom_if_empty-IsPending c work s p h d = ground (
  arith,
  get-put d c work.0 s.stashes,
  get-put d c (set_remove_conv true work).0 s.stashes,
  yay-set_remove_conv true work,
  has-add d c s.pending_for_removal,
  p d,
)

save_if_one-IsPending :
    (c : ℕ) (work : Work) (s : Sync)
    → IsPending s
    → is_empty work.0.yay_uids ≡ false
    → (is_one work.0.yay_uids ≡ false → has c s.pending_for_removal ≡ false)
    → IsPending (save_if_one c work s)
unfolding save_if_one store
save_if_one-IsPending c work s p full h d = ground (
  arith,
  get-put d c work.0 s.stashes,
  get-put d c (set_remove_conv false work).0 s.stashes,
  yay-set_remove_conv false work,
  has-delete d c s.pending_for_removal,
  p d,
)

-- What the server tells of a message, but for a new yay message of a conversation that is known.
pub data Event : Type 0 where
  yay_in_new_conv yay_is_now_meh meh_is_now_yay updated meh_in_existing_conv : (uid c n : ℕ) → Event
  yay_deleted meh_deleted : ℕ → Event
  moot : Event

unfoldable pub tell : Event → Sync → Option Sync
tell (yay_in_new_conv uid c date) s =
    if is_known_raw_conv_id c s then none else some (new_yay_message_in_new_conv uid c date s)
tell (yay_is_now_meh uid c state) s = existing_yay_message_is_now_meh uid c state s
tell (meh_is_now_yay uid c state) s = existing_meh_message_is_now_yay uid c state s
tell (updated uid c state) s = existing_message_updated uid c state s
tell (meh_in_existing_conv uid c date) s = new_meh_message_in_existing_conv uid c date s
tell (yay_deleted uid) s = yay_message_deleted uid s
tell (meh_deleted uid) s = meh_message_deleted uid s
tell moot s = some (moot_message s)

is_empty-splice_out :
    (uid : ℕ) (uids : List ℕ) → is_empty (splice_out uid uids) ≡ false → is_empty uids ≡ false
unfolding splice_out remove_last has
is_empty-splice_out uid [] e = e
is_empty-splice_out uid (x ∷ uids) e = refl

yay-maybe_update :
    (grow : Bool) (uid c date : ℕ) (work : Work)
    → (if date == 0 then work else update_task_with_new_uid grow uid c date work).0.yay_uids
      ≡ work.0.yay_uids
yay-maybe_update grow uid c date work =
    ground (arith, yay-update_task_with_new_uid grow uid c date work)

pub is_empty-snoc : (uid : ℕ) (uids : List ℕ) → is_empty (uids ++ uid ∷ []) ≡ false
is_empty-snoc uid [] = refl
is_empty-snoc uid (x ∷ uids) = refl

is_one-snoc : (uid : ℕ) (uids : List ℕ) → is_one (uids ++ uid ∷ []) ≡ is_empty uids
is_one-snoc uid [] = refl
is_one-snoc uid (x ∷ []) = refl
is_one-snoc uid (x ∷ y ∷ uids) = refl

with_stash-keeps :
    (P : Sync → Type 0) (c : ℕ) (s s' : Sync) (body : Stash → Sync)
    → with_stash c s body ≡ some s'
    → ((stash : Stash) → get c s.stashes ≡ some stash → P (body stash))
    → P s'
unfolding with_stash
with_stash-keeps P c s s' body e h = elim (Option-cases (get c s.stashes)) [
  | inl absent ↦ absurd (ground (arith, absent))
  | inr (stash, present) ↦
      let same : body stash ≡ s' = ground (arith, present) in rw (sym same) (h stash present)
]

-- A stash that has a yay UID is not pending.
not_pending :
    (c : ℕ) (s : Sync) (stash : Stash)
    → IsPending s
    → get c s.stashes ≡ some stash
    → has c s.pending_for_removal ≡ is_empty stash.yay_uids
not_pending c s stash p e = ground (arith, p c, e)

pub tell-IsPending :
    (event : Event) (s s' : Sync) → tell event s ≡ some s' → IsPending s → IsPending s'
unfolding tell existing_yay_message_is_now_meh existing_meh_message_is_now_yay
    existing_message_updated new_meh_message_in_existing_conv yay_message_deleted
    meh_message_deleted new_yay_message_in_new_conv moot_message
tell-IsPending (yay_in_new_conv uid c date) s s' e p = elim (Option-cases (get c s.stashes)) [
  | inl absent ↦
      let same : new_yay_message_in_new_conv uid c date s ≡ s' = ground (arith, absent) in
      rw (sym same) (store-IsPending c _ _ p (ground (arith, p c, absent)))
  | inr (stash, present) ↦ absurd (ground (arith, present))
]
tell-IsPending (yay_is_now_meh uid c state) s s' e p =
    with_stash-keeps IsPending c s s' _ e (λ stash present. doom_if_empty-IsPending c _ _ p (λ full.
      not_pending c s stash p present
      ∙ is_empty-splice_out uid stash.yay_uids
          (ap is_empty (sym (yay-update_task_with_modified_uid uid c state _)) ∙ full)))
tell-IsPending (meh_is_now_yay uid c state) s s' e p =
    with_stash-keeps IsPending c s s' _ e (λ stash present.
      save_if_one-IsPending c _ _ p
        (ap is_empty (yay-update_task_with_modified_uid uid c state _)
          ∙ is_empty-snoc uid stash.yay_uids)
        (λ more.
          not_pending c s stash p present
          ∙ sym (is_one-snoc uid stash.yay_uids)
          ∙ ap is_one (sym (yay-update_task_with_modified_uid uid c state _))
          ∙ more))
tell-IsPending (updated uid c state) s s' e p =
    with_stash-keeps IsPending c s s' _ e (λ stash present. store-IsPending c _ _ p (
      not_pending c s stash p present
      ∙ ap is_empty (sym (yay-update_task_with_modified_uid uid c state _))))
tell-IsPending (meh_in_existing_conv uid c date) s s' e p =
    with_stash-keeps IsPending c s s' _ e (λ stash present. store-IsPending c _ _ p (
      not_pending c s stash p present
      ∙ ap is_empty (sym (yay-maybe_update s.grow_mode uid c date _))))
tell-IsPending (yay_deleted uid) s s' e p = elim (Option-cases (get uid s.yay_uids)) [
  | inl unknown ↦ absurd (ground (arith, unknown))
  | inr (c, known) ↦
      with_stash-keeps IsPending c s s' _ (rw (yay_message_deleted, known) at e) (λ stash present.
        doom_if_empty-IsPending c _ _ p (λ full.
          not_pending c s stash p present
          ∙ is_empty-splice_out uid stash.yay_uids
              (ap is_empty (sym (yay-update_task_with_removed_uid uid _)) ∙ full)))
]
tell-IsPending (meh_deleted uid) s s' e p = elim (Option-cases (get uid s.meh_uids)) [
  | inl unknown ↦ absurd (ground (arith, unknown))
  | inr (c, known) ↦
      with_stash-keeps IsPending c s s' _ (rw (meh_message_deleted, known) at e) (λ stash present.
        store-IsPending c _ _ p (
          not_pending c s stash p present
          ∙ ap is_empty (sym (yay-update_task_with_removed_uid uid _))))
]
tell-IsPending moot s s' e p = let same : moot_message s ≡ s' = ground arith in rw (sym same) p
