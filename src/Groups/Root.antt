-- ===== src/Groups/Root.antt =====
-- The loop up to the root of a group.
use gaia_email_libs_and_more.Common.{
  ℕ, zero, suc, ◌<◌, ◌≡◌, refl, ◌∙◌, true, Option, none, some, get, has_key, get-missing, arith,
  Option-cases, inl, inr,
}
use gaia_email_libs_and_more.Groups.{Group, Tracker, root_of, get_root_task_group_for_task}
use gaia_email_libs_and_more.Groups.Counted.{IsCounted}

-- A group with no parent.
abbrev pub IsRoot : ℕ → Tracker → Type 0
IsRoot g s = (x : Group) × (get g s.groups ≡ some x) × (x.parent_group ≡ none)

root_step :
    (fuel g : ℕ) (x : Group) (parent : Option ℕ) (s : Tracker)
    → get g s.groups ≡ some x
    → x.parent_group ≡ parent
    → root_of (suc fuel) g s.groups
      ≡ elim parent [ none ↦ some g | some p ↦ root_of fuel p s.groups ]
unfolding root_of
root_step fuel g x none s e q = rw (root_of, e, q) refl
root_step fuel g x (some p) s e q = rw (root_of, e, q) refl

-- Parents are older, so the loop ends after as many rounds as the group's number.
pub root_of-IsRoot :
    (fuel g : ℕ) (s : Tracker)
    → IsCounted none s
    → g < fuel
    → has_key g s.groups ≡ true
    → (r : ℕ) × (root_of fuel g s.groups ≡ some r) × IsRoot r s
root_of-IsRoot zero g s i h k = absurd (omega arith)
root_of-IsRoot (suc fuel) g s i h k = elim (Option-cases (get g s.groups)) [
  | inl missing ↦ absurd (ground (arith, missing, k, get-missing g s.groups))
  | inr (x, e) ↦ elim (Option-cases x.parent_group) [
    | inl top ↦ (g, root_step fuel g x none s e top, (x, e, top))
    | inr (p, above) ↦
        let (lower, known) = i.older g p x e above in
        let (r, q, root) = root_of-IsRoot fuel p s i (omega arith) known in
        (r, root_step fuel g x (some p) s e above ∙ q, root)
  ]
]

pub group_known :
    (task g : ℕ) (s : Tracker)
    → IsCounted none s
    → get task s.task_ids_to_groups ≡ some g
    → g < suc s.next_group_id
group_known task g s i e = ground (arith, i.mapped task g e, i.unused g, get-missing g s.groups)

-- What `getRootTaskGroupForTask` should give: nothing for a task in no group, else a group with no
-- parent.
abbrev pub IsRootFor : ℕ → Option ℕ → Tracker → Type 0
IsRootFor task none s = get task s.task_ids_to_groups ≡ none
IsRootFor task (some r) s = IsRoot r s

-- When the counts are right and parents are older, `getRootTaskGroupForTask` ends: it gives undefined
-- for a task in no group, and for another a group that has no parent.
pub get_root_task_group_for_task-ends :
    (task : ℕ) (s : Tracker)
    → IsCounted none s
    → (r : Option ℕ) × (get_root_task_group_for_task task s ≡ some r) × IsRootFor task r s
unfolding get_root_task_group_for_task
get_root_task_group_for_task-ends task s i = elim (Option-cases (get task s.task_ids_to_groups)) [
  | inl nowhere ↦ (none, rw (get_root_task_group_for_task, nowhere) refl, nowhere)
  | inr (g, e) ↦
      let (r, q, root) =
        root_of-IsRoot (suc s.next_group_id) g s i (group_known task g s i e) (i.mapped task g e) in
      (some r, rw (get_root_task_group_for_task, e, q) refl, root)
]
