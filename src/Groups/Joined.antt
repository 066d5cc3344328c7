-- ===== src/Groups/Joined.antt =====
-- Tasks that join a group, stay in it and leave it.
use gaia_email_libs_and_more.Common.{
  ℕ, ◌+◌, ◌≡◌, refl, sym, ap, false, none, some, List, [], ◌∷◌, ◌==◌, get, put, erase, update,
  get-put, get-erase, get-update, has_key-update, get-has_key, count-update, count-put_new,
  count-put_old, count-erase, count-get, put-IsMap, erase-IsMap, update-IsMap, arith,
}
use gaia_email_libs_and_more.Groups.{Group, Tracker, raised, adopted, adopt, join}
use gaia_email_libs_and_more.Groups.Counted.{IsCounted, is_open_child}

-- A group of a task has not completed.
pub task_open :
    (task g : ℕ) (x : Group) (s : Tracker)
    → IsCounted none s
    → get task s.task_ids_to_groups ≡ some g
    → get g s.groups ≡ some x
    → (x.pending_count == 0) ≡ false
task_open task g x s i m e =
    ground (arith, i.counted g x e, count-get (λ h. h == g) task g s.task_ids_to_groups m)

-- A task that is in no group joins one that has not completed.
pub join-IsCounted :
    (task g : ℕ) (x : Group) (s : Tracker)
    → IsCounted none s
    → get task s.task_ids_to_groups ≡ none
    → get g s.groups ≡ some x
    → (x.pending_count == 0) ≡ false
    → IsCounted none (join task g raised s)
join-IsCounted task g x s i m e h = record {
  tasks_IsMap = put-IsMap task g s.task_ids_to_groups i.tasks_IsMap;
  groups_IsMap = update-IsMap g raised s.groups i.groups_IsMap;
  mapped = λ t k n. ground (
    arith,
    n,
    get-put t task g s.task_ids_to_groups,
    has_key-update k g raised s.groups,
    get-has_key g x s.groups e,
    i.mapped t k,
  );
  counted = λ k y n. ground (
    arith,
    n,
    get-update k g raised x s.groups e,
    count-update (is_open_child k) g raised x s.groups e,
    count-put_new (λ j. j == k) task g s.task_ids_to_groups m,
    i.counted g x e,
    i.counted k y,
  );
  older = λ k p y n o. ground (
    arith,
    n,
    o,
    get-update k g raised x s.groups e,
    has_key-update p g raised s.groups,
    i.older g p x e,
    i.older k p y,
  );
  unused = λ k n. ground (arith, n, get-update k g raised x s.groups e, i.unused k n);
  resolves = λ k y n.
      ground (arith, n, get-update k g raised x s.groups e, i.resolves g x e, i.resolves k y);
  resolved_known = λ k n. ground (arith, has_key-update k g raised s.groups, i.resolved_known k n);
  resolved_once = i.resolved_once;
  owed_known = λ k n. cc;
  named = λ name k n. ground (arith, n, get-update k g raised x s.groups e, i.named name k n);
}

-- A change of a group that leaves its name, its count and its parent as they are.
pub change-IsCounted :
    (g : ℕ) (f : Group → Group) (x : Group) (s : Tracker)
    → IsCounted none s
    → get g s.groups ≡ some x
    → (f x).group_name ≡ x.group_name
    → (f x).pending_count ≡ x.pending_count
    → (f x).parent_group ≡ x.parent_group
    → IsCounted none (record s { groups = update g f s.groups })
change-IsCounted g f x s i e hn hc hp = record {
  tasks_IsMap = i.tasks_IsMap;
  groups_IsMap = update-IsMap g f s.groups i.groups_IsMap;
  mapped = λ t k n. ground (arith, has_key-update k g f s.groups, i.mapped t k n);
  counted = λ k y n. ground (
    arith,
    n,
    hc,
    hp,
    get-update k g f x s.groups e,
    count-update (is_open_child k) g f x s.groups e,
    i.counted g x e,
    i.counted k y,
  );
  older = λ k p y n o. ground (
    arith,
    n,
    o,
    hp,
    get-update k g f x s.groups e,
    has_key-update p g f s.groups,
    i.older g p x e,
    i.older k p y,
  );
  unused = λ k n. ground (arith, n, get-update k g f x s.groups e, i.unused k n);
  resolves = λ k y n.
      ground (arith, n, hc, get-update k g f x s.groups e, i.resolves g x e, i.resolves k y);
  resolved_known = λ k n. ground (arith, has_key-update k g f s.groups, i.resolved_known k n);
  resolved_once = i.resolved_once;
  owed_known = λ k n. cc;
  named = λ name k n. ground (arith, n, hn, hc, get-update k g f x s.groups e, i.named name k n);
}

-- A task stays in its group.
pub stay-IsCounted :
    (task g : ℕ) (s : Tracker)
    → IsCounted none s
    → get task s.task_ids_to_groups ≡ some g
    → IsCounted none (record s { task_ids_to_groups = put task g s.task_ids_to_groups })
stay-IsCounted task g s i m = record {
  tasks_IsMap = put-IsMap task g s.task_ids_to_groups i.tasks_IsMap;
  groups_IsMap = i.groups_IsMap;
  mapped = λ t k n.
      ground (arith, n, get-put t task g s.task_ids_to_groups, i.mapped task g m, i.mapped t k);
  counted = λ k y n.
      ground
        (arith, n, count-put_old (λ j. j == k) task g g s.task_ids_to_groups m, i.counted k y n);
  older = i.older;
  unused = i.unused;
  resolves = i.resolves;
  resolved_known = i.resolved_known;
  resolved_once = i.resolved_once;
  owed_known = i.owed_known;
  named = i.named;
}

-- The ids that are used again do not matter to the counts.
pub reuses-IsCounted :
    (ids : List ℕ) (s : Tracker)
    → IsCounted none s
    → IsCounted none (record s { pending_task_id_reuses = ids })
reuses-IsCounted ids s i = record {
  tasks_IsMap = i.tasks_IsMap;
  groups_IsMap = i.groups_IsMap;
  mapped = i.mapped;
  counted = i.counted;
  older = i.older;
  unused = i.unused;
  resolves = i.resolves;
  resolved_known = i.resolved_known;
  resolved_once = i.resolved_once;
  owed_known = i.owed_known;
  named = i.named;
}

-- A task leaves its group, which is owed a decrement.
pub leave-IsCounted :
    (task g : ℕ) (s : Tracker)
    → IsCounted none s
    → get task s.task_ids_to_groups ≡ some g
    → IsCounted (some g) (record s { task_ids_to_groups = erase task s.task_ids_to_groups })
leave-IsCounted task g s i m = record {
  tasks_IsMap = erase-IsMap task s.task_ids_to_groups i.tasks_IsMap;
  groups_IsMap = i.groups_IsMap;
  mapped = λ t k n. ground (arith, n, get-erase t task s.task_ids_to_groups, i.mapped t k);
  counted = λ k y n. ground (
    arith,
    n,
    count-erase (λ j. j == k) task g s.task_ids_to_groups i.tasks_IsMap m,
    i.counted k y n,
  );
  older = i.older;
  unused = i.unused;
  resolves = i.resolves;
  resolved_known = i.resolved_known;
  resolved_once = i.resolved_once;
  owed_known = λ k n. ground (arith, n, i.mapped task g m);
  named = i.named;
}

pub update_same :
    (k : ℕ) (f h : Group → Group) (x : Group) (m : List (ℕ × Group))
    → get k m ≡ some x
    → f x ≡ h x
    → update k f m ≡ update k h m
unfolding update get
update_same k f h x [] e d = refl
update_same k f h x ((j, w) ∷ m) e d = ground (arith, update_same k f h x m)

-- A task in no group joins a group without a parent by name as it would by its source.
pub adopt-join :
    (task g : ℕ) (x : Group) (s : Tracker)
    → get task s.task_ids_to_groups ≡ none
    → get g s.groups ≡ some x
    → x.parent_group ≡ none
    → adopt task g s ≡ join task g raised s
unfolding adopt
adopt-join task g x s m e top = rw m (
    ap
      (λ (groups : List (ℕ × Group)). record s {
        groups = groups;
        task_ids_to_groups = put task g s.task_ids_to_groups;
      })
      (update_same g (adopted none g) raised x s.groups e same))
  where
    same : adopted none g x ≡ raised x
    same =
        ap
          (λ o. record x {
            pending_count = x.pending_count + 1;
            total_count = x.total_count + 1;
            parent_group = o;
          })
          (sym top)
