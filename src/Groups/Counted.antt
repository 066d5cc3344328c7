-- ===== src/Groups/Counted.antt =====
-- The counts of the groups: each is the number of the tasks in the group and of the groups under it
-- that have not completed.
use gaia_email_libs_and_more.Common.{
  ℕ, ◌+◌, ◌≤◌, ◌<◌, ◌≡◌, Bool, true, false, not, ◌&&◌, Option, none, some, [], ◌∷◌, ◌==◌, get,
  update, has, has_key, count, IsMap, bit, get-erase, get-update, has_key-update, get-has_key,
  count-update, update-IsMap, has-append, IsUnique, append-IsUnique, arith,
}
use gaia_email_libs_and_more.Groups.{Group, Tracker, is_same, lowered, complete}

abbrev pub members : ℕ → Tracker → ℕ
members g s = count (λ h. h == g) s.task_ids_to_groups

abbrev pub is_open_child : ℕ → Group → Bool
is_open_child g x = is_same x.parent_group g && not (x.pending_count == 0)

abbrev pub children : ℕ → Tracker → ℕ
children g s = count (is_open_child g) s.groups

-- While a completion is passed on, one group has one count too many.
abbrev pub owes : Option ℕ → ℕ → ℕ
owes owed g = bit (is_same owed g)

abbrev pub is_open_named : ℕ → Option Group → Bool
is_open_named name none = false
is_open_named name (some x) = x.group_name == name && not (x.pending_count == 0)

-- The counts are right but for the group that is owed a decrement, parents are older than their
-- children, and a group's promise is resolved when its count is 0.
pub record IsCounted (owed : Option ℕ) (s : Tracker) : Type 0 where
  pub tasks_IsMap : IsMap s.task_ids_to_groups
  pub groups_IsMap : IsMap s.groups
  pub mapped : (task g : ℕ) → get task s.task_ids_to_groups ≡ some g → has_key g s.groups ≡ true
  pub counted :
      (g : ℕ) (x : Group)
      → get g s.groups ≡ some x
      → x.pending_count ≡ members g s + children g s + owes owed g
  pub older :
      (g p : ℕ) (x : Group)
      → get g s.groups ≡ some x
      → x.parent_group ≡ some p
      → (p < g) × (has_key p s.groups ≡ true)
  pub unused : (g : ℕ) → s.next_group_id ≤ g → get g s.groups ≡ none
  pub resolves :
      (g : ℕ) (x : Group) → get g s.groups ≡ some x → has g s.resolved ≡ (x.pending_count == 0)
  pub resolved_known : (g : ℕ) → has g s.resolved ≡ true → has_key g s.groups ≡ true
  pub resolved_once : IsUnique s.resolved
  pub owed_known : (g : ℕ) → owed ≡ some g → has_key g s.groups ≡ true
  pub named :
      (name g : ℕ) → get name s.groups_by_name ≡ some g → is_open_named name (get g s.groups) ≡ true

abbrev pub with_lowered : ℕ → Tracker → Tracker
with_lowered g s = record s { groups = update g lowered s.groups }

pub owed_nonzero :
    (g : ℕ) (x : Group) (s : Tracker)
    → IsCounted (some g) s
    → get g s.groups ≡ some x
    → (x.pending_count == 0) ≡ false
owed_nonzero g x s i e = ground (arith, i.counted g x e)

pub lowered-IsCounted :
    (g : ℕ) (x : Group) (s : Tracker)
    → IsCounted (some g) s
    → get g s.groups ≡ some x
    → (x.pending_count == 1) ≡ false
    → IsCounted none (with_lowered g s)
lowered-IsCounted g x s i e h = record {
  tasks_IsMap = i.tasks_IsMap;
  groups_IsMap = update-IsMap g lowered s.groups i.groups_IsMap;
  mapped = λ task k m. rw has_key-update (i.mapped task k m);
  counted = λ k y m. ground (
    arith,
    m,
    get-update k g lowered x s.groups e,
    count-update (is_open_child k) g lowered x s.groups e,
    i.counted g x e,
    i.counted k y,
  );
  older = λ k p y m n. ground (
    arith,
    m,
    n,
    get-update k g lowered x s.groups e,
    has_key-update p g lowered s.groups,
    i.older g p x e,
    i.older k p y,
  );
  unused = λ k m. ground (arith, m, get-update k g lowered x s.groups e, i.unused k m);
  resolves = λ k y m. ground (
    arith,
    m,
    get-update k g lowered x s.groups e,
    i.counted g x e,
    i.resolves g x e,
    i.resolves k y,
  );
  resolved_known = λ k m. ground (arith, has_key-update k g lowered s.groups, i.resolved_known k m);
  resolved_once = i.resolved_once;
  owed_known = λ k m. cc;
  named = λ name k m.
      ground (arith, get-update k g lowered x s.groups e, i.counted g x e, i.named name k m);
}

pub complete-IsCounted :
    (g : ℕ) (x : Group) (s : Tracker)
    → IsCounted (some g) s
    → get g s.groups ≡ some x
    → (x.pending_count == 1) ≡ true
    → IsCounted x.parent_group (complete g x (with_lowered g s))
unfolding has
complete-IsCounted g x s i e h = record {
  tasks_IsMap = i.tasks_IsMap;
  groups_IsMap = update-IsMap g lowered s.groups i.groups_IsMap;
  mapped = λ task k m. rw has_key-update (i.mapped task k m);
  counted = λ k y m. ground (
    arith,
    m,
    get-update k g lowered x s.groups e,
    count-update (is_open_child k) g lowered x s.groups e,
    i.counted g x e,
    i.counted k y,
  );
  older = λ k p y m n. ground (
    arith,
    m,
    n,
    get-update k g lowered x s.groups e,
    has_key-update p g lowered s.groups,
    i.older g p x e,
    i.older k p y,
  );
  unused = λ k m. ground (arith, m, get-update k g lowered x s.groups e, i.unused k m);
  resolves = λ k y m. ground (
    arith,
    m,
    get-update k g lowered x s.groups e,
    has-append k s.resolved (g ∷ []),
    i.counted g x e,
    i.resolves g x e,
    i.resolves k y,
  );
  resolved_known = λ k m. ground (
    arith,
    has_key-update k g lowered s.groups,
    has-append k s.resolved (g ∷ []),
    get-has_key g x s.groups e,
    i.resolved_known k,
  );
  resolved_once =
      append-IsUnique g s.resolved i.resolved_once
        (ground (arith, i.resolves g x e, i.counted g x e));
  owed_known = λ p m. ground (arith, has_key-update p g lowered s.groups, i.older g p x e m);
  named = λ name k m. ground (
    arith,
    m,
    get-update k g lowered x s.groups e,
    get-erase name x.group_name s.groups_by_name,
    i.counted g x e,
    i.named name k,
  );
}
