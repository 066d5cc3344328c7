-- ===== src/Gmail/Rounds.antt =====
-- sync_state_helper.js: a round of messages and the removals that end it.
use gaia_email_libs_and_more.Common.{
  ℕ, ◌≡◌, refl, sym, ap, Bool, true, false, ◌||◌, if◌then◌else◌, Option, none, some, List, [], ◌∷◌,
  ◌++◌, has, get, put, erase, get-put, get-erase, length, for_each, arith, Option-cases, Bool-cases,
  inl, inr,
}
use gaia_email_libs_and_more.Gmail.{Task, Stash, Sync, load, derive_yay, derive_meh, derive_stashes}
use gaia_email_libs_and_more.Gmail.Tasks.{
  Work, store, ensure_task, update_task_with_new_uid, update_task_with_removed_uid, set_remove_conv,
  note_removed_uid, at_task, fresh_task,
}
use gaia_email_libs_and_more.Gmail.Removal.{
  is_doomed, IsPending, is_empty-snoc, Event, tell, tell-IsPending,
}
use gaia_email_libs_and_more.Gmail.Moves.{
  new_yay_message_in_existing_conv, splice_out, is_empty, doom_if_empty, yay_message_deleted,
  finalize_one, finalize_pending_removals, with_stash, useful, push_yay,
}

unfoldable pub tell_all : List Event → Sync → Option Sync
tell_all [] s = some s
tell_all (event ∷ events) s = elim (tell event s) [ none ↦ none | some s' ↦ tell_all events s' ]

tell_all-IsPending :
    (events : List Event) (s s' : Sync) → tell_all events s ≡ some s' → IsPending s → IsPending s'
unfolding tell_all
tell_all-IsPending [] s s' e p = let same : s ≡ s' = ground arith in rw (sym same) p
tell_all-IsPending (event ∷ events) s s' e p = elim (Option-cases (tell event s)) [
  | inl raised ↦ absurd (ground (arith, raised))
  | inr (s₁, told) ↦
      tell_all-IsPending events s₁ s' (rw (tell_all, told) at e) (tell-IsPending event s s₁ told p)
]

get-finalize_all :
    (c : ℕ) (pending : List ℕ) (s : Sync)
    → get c (for_each finalize_one s pending).stashes
      ≡ (if has c pending then none else get c s.stashes)
unfolding for_each has finalize_one
get-finalize_all c [] s = refl
get-finalize_all c (d ∷ pending) s = elim (Option-cases (get d s.stashes)) [
  | inl absent ↦ ground (arith, absent, get-finalize_all c pending s)
  | inr (stash, present) ↦
      ground
        (arith, present, get-finalize_all c pending (finalize_one s d), get-erase c d s.stashes)
]

-- A stash that is derived lists a UID in `yayUids`.
derive_yay-is_doomed :
    (c : ℕ) (stashes : List (ℕ × Stash)) (pair : ℕ × ℕ)
    → is_doomed c stashes ≡ false
    → is_doomed c (derive_yay stashes pair) ≡ false
unfolding derive_yay
derive_yay-is_doomed c stashes (u, d) h = elim (Option-cases (get d stashes)) [
  | inl absent ↦
      let fresh : Stash = record {
        yay_uids = u ∷ [];
        meh_uids = [];
        most_recent = 0;
        task = none;
      } in
      ground (arith, h, absent, get-put c d fresh stashes)
  | inr (stash, present) ↦
      let more : Stash = record stash { yay_uids = stash.yay_uids ++ u ∷ [] } in
      ground (arith, h, present, get-put c d more stashes, is_empty-snoc u stash.yay_uids)
]

derive_meh-is_doomed :
    (c : ℕ) (stashes : List (ℕ × Stash)) (pair : ℕ × ℕ)
    → is_doomed c stashes ≡ false
    → is_doomed c (derive_meh stashes pair) ≡ false
unfolding derive_meh
derive_meh-is_doomed c stashes (u, d) h = elim (Option-cases (get d stashes)) [
  | inl absent ↦ ground (arith, h, absent)
  | inr (stash, present) ↦
      let more : Stash = record stash { yay_uids = stash.yay_uids ++ u ∷ [] } in
      ground (arith, h, present, get-put c d more stashes, is_empty-snoc u stash.yay_uids)
]

for_each-is_doomed :
    (c : ℕ) (body : List (ℕ × Stash) → ℕ × ℕ → List (ℕ × Stash))
    → ((stashes : List (ℕ × Stash)) (pair : ℕ × ℕ)
        → is_doomed c stashes ≡ false
        → is_doomed c (body stashes pair) ≡ false)
    → (pairs : List (ℕ × ℕ)) (stashes : List (ℕ × Stash)) → is_doomed c stashes ≡ false
    → is_doomed c (for_each body stashes pairs) ≡ false
unfolding for_each
for_each-is_doomed c body step [] stashes h = h
for_each-is_doomed c body step (pair ∷ pairs) stashes h =
    for_each-is_doomed c body step pairs (body stashes pair) (step stashes pair h)

load-IsPending :
    (yay meh since_dates : List (ℕ × ℕ)) (grow : Bool) → IsPending (load yay meh since_dates grow)
unfolding load derive_stashes has get
load-IsPending yay meh since_dates grow c = sym (
    for_each-is_doomed c derive_meh (derive_meh-is_doomed c) meh (for_each derive_yay [] yay)
      (for_each-is_doomed c derive_yay (derive_yay-is_doomed c) yay [] refl))

-- From any raw state: if the server tells of messages, with no error and with no new yay message of a
-- conversation that is known, and the removals are then finalized, exactly the conversations stay whose
-- stash lists a UID in `yayUids`, with that stash. Of the conversations of the raw state that list has
-- the meh UIDs too, since they are pushed there when the stashes are derived.
pub finalize_pending_removals-keeps :
    (yay meh since_dates : List (ℕ × ℕ)) (grow : Bool) (events : List Event) (s : Sync)
    → tell_all events (load yay meh since_dates grow) ≡ some s
    → (c : ℕ)
    → get c (finalize_pending_removals s).stashes
      ≡ (if is_doomed c s.stashes then none else get c s.stashes)
unfolding finalize_pending_removals
finalize_pending_removals-keeps yay meh since_dates grow events s e c = ground (
  arith,
  get-finalize_all c s.pending_for_removal s,
  tell_all-IsPending events (load yay meh since_dates grow) s e
      (load-IsPending yay meh since_dates grow) c,
)

yay_uids-finalize_all :
    (pending : List ℕ) (s : Sync) → (for_each finalize_one s pending).yay_uids ≡ s.yay_uids
unfolding for_each finalize_one
yay_uids-finalize_all [] s = refl
yay_uids-finalize_all (d ∷ pending) s =
    ground (arith, yay_uids-finalize_all pending (finalize_one s d))

at_task-snoc :
    (f : Task → Task) (tasks : List Task) (t : Task)
    → at_task (length tasks) f (tasks ++ t ∷ []) ≡ tasks ++ f t ∷ []
unfolding at_task
at_task-snoc f [] t = refl
at_task-snoc f (x ∷ tasks) t = ap (◌∷◌ x) (at_task-snoc f tasks t)

-- A new yay message does not save its conversation: if it is pending for removal, it has no stash
-- after the removals, while the message's UID is still recorded as one of its yay UIDs.
pub new_yay_message_in_existing_conv-dooms :
    (uid c date : ℕ) (s : Sync) (stash : Stash)
    → get c s.stashes ≡ some stash
    → has c s.pending_for_removal ≡ true
    → (s' : Sync) × (new_yay_message_in_existing_conv uid c date s ≡ some s')
      × (get c (finalize_pending_removals s').stashes ≡ none)
      × (get uid (finalize_pending_removals s').yay_uids ≡ some c)
unfolding new_yay_message_in_existing_conv with_stash finalize_pending_removals store
new_yay_message_in_existing_conv-dooms uid c date s stash present pending =
    let kept : Sync = record (useful s) { yay_uids = put uid c s.yay_uids } in
    let work : Work =
      update_task_with_new_uid s.grow_mode uid c date (push_yay uid stash, s.tasks_to_schedule) in
    let s' : Sync = store c work kept in
    (
      s',
      rw (new_yay_message_in_existing_conv, with_stash, present) refl,
      rw (get-finalize_all c s.pending_for_removal s', pending) refl,
      rw (yay_uids-finalize_all s.pending_for_removal s', get-put uid uid c s.yay_uids)
          (ground arith),
    )

-- The work on a stash without a task, for a deletion.
removed_work_lem :
    (uid : ℕ) (stash : Stash) (tasks : List Task)
    → stash.task ≡ none
    → update_task_with_removed_uid uid (stash, tasks) ≡ (
      record stash { task = some (length tasks) },
      tasks ++ record (fresh_task none) { removed_uids = some (uid ∷ []) } ∷ [],
    )
unfolding update_task_with_removed_uid ensure_task note_removed_uid
removed_work_lem uid stash tasks none_yet =
    rw (none_yet, at_task-snoc (note_removed_uid uid) tasks (fresh_task none)) refl

tasks-doom_if_empty :
    (c : ℕ) (stash : Stash) (tasks : List Task) (t : Task) (s : Sync)
    → stash.task ≡ some (length tasks)
    → (doom_if_empty c (stash, tasks ++ t ∷ []) s).tasks_to_schedule
      ≡ tasks ++ record t { remove_conv = is_empty stash.yay_uids || t.remove_conv } ∷ []
unfolding doom_if_empty store set_remove_conv
tasks-doom_if_empty c stash tasks t s e = elim (Bool-cases (is_empty stash.yay_uids)) [
  | inl empty ↦
      rw (empty, e, at_task-snoc (λ (u : Task). record u { remove_conv = true }) tasks t) refl
  | inr full ↦ rw full refl
]

-- A deletion whose conversation has no task yet makes a task whose conversation is undefined.
pub yay_message_deleted-undefined :
    (uid c : ℕ) (s : Sync) (stash : Stash)
    → get uid s.yay_uids ≡ some c
    → get c s.stashes ≡ some stash
    → stash.task ≡ none
    → (s' : Sync) × (t : Task) × (yay_message_deleted uid s ≡ some s')
      × (s'.tasks_to_schedule ≡ s.tasks_to_schedule ++ t ∷ [])
      × (t.conv_id ≡ none)
      × (t.removed_uids ≡ some (uid ∷ []))
unfolding yay_message_deleted with_stash
yay_message_deleted-undefined uid c s stash known present none_yet =
    let left : Stash = record stash { yay_uids = splice_out uid stash.yay_uids } in
    let t : Task = record (fresh_task none) { removed_uids = some (uid ∷ []) } in
    let work : Work = update_task_with_removed_uid uid (left, s.tasks_to_schedule) in
    let s' : Sync = doom_if_empty c work (record s { yay_uids = erase uid s.yay_uids }) in
    (
      s',
      record t { remove_conv = is_empty left.yay_uids || false },
      rw (yay_message_deleted, known, with_stash, present) refl,
      rw (removed_work_lem uid left s.tasks_to_schedule none_yet) (
          tasks-doom_if_empty c (record left { task = some (length s.tasks_to_schedule) })
            s.tasks_to_schedule t (record s { yay_uids = erase uid s.yay_uids }) refl),
      refl,
      refl,
    )
