-- ===== src/Groups/Founded.antt =====
-- New groups, and groups that a task joins by name.
use gaia_email_libs_and_more.Common.{
  ℕ, ◌+◌, ◌≡◌, refl, Bool, false, Option, none, some, List, [], ◌==◌, if◌then◌else◌, get, put,
  update, count, bit, get-put, get-update, has_key-put, has_key-update, count-update, count-put_new,
  count-put_old, count-none, put-IsMap, update-IsMap, get-missing, arith, Option-cases, inl, inr,
}
use gaia_email_libs_and_more.Groups.{
  Group, Tracker, is_same, new_group, adopted, make_task_group, adopt,
}
use gaia_email_libs_and_more.Groups.Counted.{IsCounted, members, children, is_open_child}

-- A new group is in no map yet.
no_members : (s : Tracker) → IsCounted none s → members s.next_group_id s ≡ 0
no_members s i =
    count-none (λ h. h == s.next_group_id) s.task_ids_to_groups i.tasks_IsMap
      (λ t h e. ground (arith, e, i.mapped t h e, get-missing h s.groups, i.unused h))

no_children : (s : Tracker) → IsCounted none s → children s.next_group_id s ≡ 0
no_children s i = count-none (is_open_child s.next_group_id) s.groups i.groups_IsMap (λ k x e.
    ground (
      arith,
      e,
      get-missing s.next_group_id s.groups,
      i.unused s.next_group_id,
      i.older k s.next_group_id x e,
    ))

-- The group that a task founds, under the group it was in.
abbrev pub founded : Option ℕ → ℕ → Group
founded owner name = record {
  group_name = name;
  pending_count = 1;
  total_count = 1;
  parent_group = owner;
  tasks_to_schedule_on_completion = [];
}

abbrev with_founded : Option ℕ → ℕ → Tracker → List (ℕ × Group)
with_founded owner name s =
    update s.next_group_id (adopted owner s.next_group_id)
      (put s.next_group_id (new_group name) s.groups)

pub owner_older :
    (task : ℕ) (s : Tracker)
    → IsCounted none s
    → is_same (get task s.task_ids_to_groups) s.next_group_id ≡ false
owner_older task s i = elim (Option-cases (get task s.task_ids_to_groups)) [
  | inl nowhere ↦ rw nowhere refl
  | inr (a, e) ↦ rw e (ground (arith, i.mapped task a e, i.unused a, get-missing a s.groups))
]

pub get-founded :
    (k name : ℕ) (owner : Option ℕ) (s : Tracker)
    → is_same owner s.next_group_id ≡ false
    → get k (with_founded owner name s)
      ≡ (if s.next_group_id == k then some (founded owner name) else get k s.groups)
get-founded k name owner s h = ground (
  arith,
  h,
  get-update k s.next_group_id (adopted owner s.next_group_id) (new_group name)
      (put s.next_group_id (new_group name) s.groups)
      (ground (arith, get-put s.next_group_id s.next_group_id (new_group name) s.groups)),
  get-put k s.next_group_id (new_group name) s.groups,
)

count-founded :
    (p : Group → Bool) (name : ℕ) (owner : Option ℕ) (s : Tracker)
    → is_same owner s.next_group_id ≡ false
    → get s.next_group_id s.groups ≡ none
    → count p (with_founded owner name s) ≡ count p s.groups + bit (p (founded owner name))
count-founded p name owner s h e = ground (
  arith,
  h,
  count-update p s.next_group_id (adopted owner s.next_group_id) (new_group name)
      (put s.next_group_id (new_group name) s.groups)
      (ground (arith, get-put s.next_group_id s.next_group_id (new_group name) s.groups)),
  count-put_new p s.next_group_id (new_group name) s.groups e,
)

members-founded :
    (k g task : ℕ) (tasks : List (ℕ × ℕ))
    → count (λ h. h == k) (put task g tasks) + bit (is_same (get task tasks) k)
      ≡ count (λ h. h == k) tasks + bit (g == k)
members-founded k g task tasks = elim (Option-cases (get task tasks)) [
  | inl nowhere ↦ ground (arith, nowhere, count-put_new (λ h. h == k) task g tasks nowhere)
  | inr (a, e) ↦ ground (arith, e, count-put_old (λ h. h == k) task g a tasks e)
]

-- A task founds a group, under the group that it was in.
pub found-IsCounted :
    (name task : ℕ) (s : Tracker)
    → IsCounted none s
    → IsCounted none (adopt task s.next_group_id (make_task_group name s))
unfolding adopt make_task_group
found-IsCounted name task s i =
    let n = s.next_group_id in
    let owner = get task s.task_ids_to_groups in
    let apart = owner_older task s i in
    record {
      tasks_IsMap = put-IsMap task n s.task_ids_to_groups i.tasks_IsMap;
      groups_IsMap =
          update-IsMap n (adopted owner n) (put n (new_group name) s.groups)
            (put-IsMap n (new_group name) s.groups i.groups_IsMap);
      mapped = λ t k e. ground (
        arith,
        e,
        get-put t task n s.task_ids_to_groups,
        has_key-update k n (adopted owner n) (put n (new_group name) s.groups),
        has_key-put k n (new_group name) s.groups,
        i.mapped t k,
      );
      counted = λ k y e. ground (
        arith,
        e,
        apart,
        get-founded k name owner s apart,
        count-founded (is_open_child k) name owner s apart (i.unused n (omega arith)),
        members-founded k n task s.task_ids_to_groups,
        no_members s i,
        no_children s i,
        i.counted k y,
      );
      older = λ k p y e o. ground (
        arith,
        e,
        o,
        get-founded k name owner s apart,
        has_key-update p n (adopted owner n) (put n (new_group name) s.groups),
        has_key-put p n (new_group name) s.groups,
        i.mapped task p,
        i.unused p,
        get-missing p s.groups,
        i.older k p y,
      );
      unused = λ k e. ground (arith, e, get-founded k name owner s apart, i.unused k);
      resolves = λ k y e. ground (
        arith,
        e,
        get-founded k name owner s apart,
        i.resolved_known n,
        i.unused n,
        get-missing n s.groups,
        i.resolves k y,
      );
      resolved_known = λ k e. ground (
        arith,
        e,
        has_key-update k n (adopted owner n) (put n (new_group name) s.groups),
        has_key-put k n (new_group name) s.groups,
        i.resolved_known k,
      );
      resolved_once = i.resolved_once;
      owed_known = λ k e. cc;
      named = λ other k e. ground (
        arith,
        e,
        get-put other name n s.groups_by_name,
        get-founded k name owner s apart,
        i.unused n,
        i.named other k,
      );
    }
