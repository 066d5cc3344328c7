-- ===== src/Groups/Twice.antt =====
-- A group that a task asks for twice.
use gaia_email_libs_and_more.Common.{
  ℕ, ◌+◌, ◌≡◌, refl, sym, false, none, some, List, ◌∷◌, get, put, update, has, arith, Option-cases,
  inl, inr,
}
use mathlib.Core.Path.{subst}
use mathlib.Core.Option.{some-injective}
use gaia_email_libs_and_more.Groups.{
  Group, Tracker, raised, adopted, adopt, ensure_named_task_group,
}
use gaia_email_libs_and_more.Groups.Counted.{IsCounted}
use gaia_email_libs_and_more.Groups.Joined.{task_open, stay-IsCounted, update_same}
use gaia_email_libs_and_more.Groups.Haunted.{
  haunt, events_top, keys_top, unmentioned, unmapped, run-haunt, IsAllowedRun-haunt,
  haunt-IsCounted,
}
use gaia_email_libs_and_more.Groups.Runs.{
  Event, source_known, ensure, run, apply, IsAllowedRun, run-Counts,
}

-- The tracker after the second call.
abbrev again : ℕ → ℕ → Tracker → Tracker
again task g s = record s {
  groups = update g raised s.groups;
  task_ids_to_groups = put task g s.task_ids_to_groups;
}

ensured_again :
    (name task g : ℕ) (x : Group) (s : Tracker)
    → get name s.groups_by_name ≡ some g
    → get task s.task_ids_to_groups ≡ some g
    → get g s.groups ≡ some x
    → (ensure_named_task_group name task s).1 ≡ again task g s
unfolding ensure_named_task_group adopt
ensured_again name task g x s e m f =
    rw
      (
        ensure_named_task_group,
        e,
        adopt,
        m,
        update_same g (adopted (some g) g) raised x s.groups f (ground arith),
      )
      refl

-- A group with a task that no event is about is never resolved.
haunted_open :
    (ghost g : ℕ) (s : Tracker) → IsCounted none (haunt ghost g s) → has g s.resolved ≡ false
unfolding get
haunted_open ghost g s i =
    let here : get ghost (haunt ghost g s).task_ids_to_groups ≡ some g = ground arith in
    let (x, f) = source_known ghost g (haunt ghost g s) i here in
    ground (arith, i.resolves g x f, task_open ghost g x (haunt ghost g s) i here f)

-- A task that asks for the group it is in leaves a count behind: whatever allowed events follow, among
-- them that the task is executed, the group is not resolved.
pub ensure_again-leaks :
    (name task g : ℕ) (s : Tracker)
    → IsCounted none s
    → get name s.groups_by_name ≡ some g
    → get task s.task_ids_to_groups ≡ some g
    → (es : List Event) → IsAllowedRun es (ensure_named_task_group name task s).1
    → (s' : Tracker) × (run (ensure name task ∷ es) s ≡ some s') × (has g s'.resolved ≡ false)
unfolding run apply
ensure_again-leaks name task g s i e m es allowed =
    let (x, f) = source_known task g s i m in
    let after = again task g s in
    let ghost = events_top es + keys_top after.task_ids_to_groups in
    let same = ensured_again name task g x s e m f in
    let quiet = unmentioned ghost es (omega arith) in
    let counted =
      haunt-IsCounted ghost g x (record s { task_ids_to_groups = put task g s.task_ids_to_groups })
        (stay-IsCounted task g s i m) (unmapped ghost after.task_ids_to_groups (omega arith)) f
        (task_open task g x s i m f) in
    let (t, ran, counts) =
      run-Counts es (haunt ghost g after) counted
        (IsAllowedRun-haunt ghost g es after quiet (subst (IsAllowedRun es) same allowed)) in
    elim (Option-cases (run es after)) [
      | inl raises ↦ absurd (failed (rw (run-haunt ghost g es after quiet, raises) at ran))
      | inr (s', done) ↦
          let like : some (haunt ghost g s') ≡ some t =
            rw (run-haunt ghost g es after quiet, done) at ran in
          (
            s',
            rw (run, same) done,
            haunted_open ghost g s'
                (subst (IsCounted none) (sym (some-injective (haunt ghost g s') t like)) counts),
          )
    ]
  where
    failed : {t : Tracker} → none ≡ some t → ⊥
    failed q = cc
