-- ===== src/Task/Progress.antt =====
-- How the task table changes: a chain of moves of single rows, of touched rows, and of new rows. The
-- moves are those of packages/task-orchestration/src/transitions.ts, and `reopenNode`'s; a touched row
-- is what `putTaskDocument` leaves.
pub mod Lifecycle
pub mod Nodes
pub mod Loops
pub mod Readied
pub mod Groups
pub mod Create
pub mod Documents
pub mod Commands
use proflow.Base.{
  String, ℕ, ◌+◌, ◌<◌, ◌≤◌, ◌≡◌, refl, sym, ap, subst, ◌∙◌, ◌⊎◌, inl, inr, Bool, true, false, List,
  [], ◌∷◌, ◌++◌, Option, none, some, arith, ◌==◌, if◌then◌else◌, get_row, put_row, text_key,
  get_row-key, text_dec, get_row-put_row, get_row-append, instead, IsUnique, IsUnique-put_row,
  IsUnique-append,
}
use proflow.Task.Model.{TaskStatus, Task}
use proflow.Task.Transitions.{task_transition}
use proflow.Task.Readiness.{is_terminal}
use proflow.Task.Store.{task_key}

-- The new row of a Task: a greater version, the same identity, and a declared transition or none.
-- Where `reopens` is true, an open Task may also become ACTIVE.
pub record Moves (reopens : Bool) (t t' : Task) : Type 0 where
  pub newer : t.version < t'.version
  pub unfinished : is_terminal t.status ≡ false
  pub legal :
      (t'.status ≡ t.status)
      ⊎ (task_transition t.status t'.status ≡ true)
      ⊎ ((reopens ≡ true) × (t'.status ≡ TaskStatus.active))
  pub same_id : t'.task_id ≡ t.task_id
  pub same_group : t'.task_group_id ≡ t.task_group_id
  pub same_place : t'.sequence_no ≡ t.sequence_no

-- The same row with the next version and another time: all that `putTaskDocument` does to the row of
-- its Task, which may be over.
abbrev pub Touches : Task → Task → Type 0
Touches t t' = (now : String) × (t' ≡ record t { version = t.version + 1; updated_at = now })

pub data Evolves (reopens : Bool) (ts : List Task) : List Task → Type 0 where
  same : {ts' : List Task} → ts' ≡ ts → Evolves reopens ts ts'
  move :
      {ts' ts'' : List Task} (old v : Task)
      → Evolves reopens ts ts'
      → get_row task_key v.task_id ts' ≡ some old
      → Moves reopens old v
      → ts'' ≡ put_row task_key v ts'
      → Evolves reopens ts ts''
  touch :
      {ts' ts'' : List Task} (old v : Task)
      → Evolves reopens ts ts'
      → get_row task_key v.task_id ts' ≡ some old
      → Touches old v
      → ts'' ≡ put_row task_key v ts'
      → Evolves reopens ts ts''
  add :
      {ts' ts'' : List Task} (v : Task)
      → Evolves reopens ts ts'
      → get_row task_key v.task_id ts' ≡ none
      → ts'' ≡ ts' ++ v ∷ []
      → Evolves reopens ts ts''

-- A later row of the same Task: the row itself, or one with a greater version and the same identity.
abbrev pub Succeeds : Task → Task → Type 0
Succeeds t t' =
    (t' ≡ t)
    ⊎ ((t.version < t'.version)
        × (t'.task_id ≡ t.task_id)
        × (t'.task_group_id ≡ t.task_group_id)
        × (t'.sequence_no ≡ t.sequence_no))

Succeeds-move :
    {reopens : Bool} {t : Task} (v old t1 : Task)
    → Moves reopens old v
    → old ≡ t1
    → Succeeds t t1
    → Succeeds t v
Succeeds-move v old t1 m e since =
    ground (arith, m.newer, m.same_id, m.same_group, m.same_place, e, since)

Succeeds-touch :
    {t : Task} (v old t1 : Task) → Touches old v → old ≡ t1 → Succeeds t t1 → Succeeds t v
Succeeds-touch v old t1 (now, p) e since = ground (arith, p, e, since)

-- A later row of a Task that is over: the same but for `version` and `updated_at`.
pub record Stays (t t' : Task) : Type 0 where
  pub not_older : t.version ≤ t'.version
  pub kept : t' ≡ record t { version = t'.version; updated_at = t'.updated_at }

again : Task → String → Task → Task
again t1 now u = record u { version = t1.version + 1; updated_at = now }

Stays-touch : {t : Task} (v t1 : Task) → Touches t1 v → Stays t t1 → Stays t v
unfolding again
Stays-touch v t1 (now, p) s = record {
  not_older = ground (arith, p, s.not_older);
  kept = rw p (ap (again t1 now) s.kept);
}

touched_row : (old t1 v : Task) → old ≡ t1 → Touches old v → Touches t1 v
touched_row old t1 v e m = subst (λ u. Touches u v) e m

over : (t t1 : Task) → Stays t t1 → is_terminal t.status ≡ true → is_terminal t1.status ≡ true
over t t1 stays done = subst (λ s. is_terminal s ≡ true) (sym (ap Task.status stays.kept)) done

module _ {reopens : Bool} {ts : List Task} where
  pub Evolves-trans :
      {ts' ts'' : List Task}
      → Evolves reopens ts ts'
      → Evolves reopens ts' ts''
      → Evolves reopens ts ts''
  Evolves-trans first (same e) = subst_to e first
    where
      subst_to : {a b : List Task} → b ≡ a → Evolves reopens ts a → Evolves reopens ts b
      subst_to p x = rw p x
  Evolves-trans first (move old v chain found m e) =
      move old v (Evolves-trans first chain) found m e
  Evolves-trans first (touch old v chain found m e) =
      touch old v (Evolves-trans first chain) found m e
  Evolves-trans first (add v chain absent e) = add v (Evolves-trans first chain) absent e

  pub Evolves-IsUnique :
      {ts' : List Task} → Evolves reopens ts ts' → IsUnique task_key ts → IsUnique task_key ts'
  Evolves-IsUnique (same e) u = rw e u
  Evolves-IsUnique (move old v chain found m e) u =
      rw e (IsUnique-put_row task_key v _ (Evolves-IsUnique chain u))
  Evolves-IsUnique (touch old v chain found m e) u =
      rw e (IsUnique-put_row task_key v _ (Evolves-IsUnique chain u))
  Evolves-IsUnique (add v chain absent e) u =
      rw e (IsUnique-append task_key v _ absent (Evolves-IsUnique chain u))

  -- A terminal row stays, but for its version and time.
  pub Evolves-terminal :
      {ts' : List Task} (k : String) (t : Task)
      → Evolves reopens ts ts'
      → is_terminal t.status ≡ true
      → get_row task_key k ts ≡ some t
      → (t' : Task) × (get_row task_key k ts' ≡ some t') × Stays t t'
  Evolves-terminal k t (same e) done h =
      (t, rw e h, record { not_older = omega arith; kept = refl })
  Evolves-terminal k t (move {ts'} old v chain found m e) done h =
      let (t1, found1, stays) = Evolves-terminal k t chain done h in
      (
        t1,
        rw (e, get_row-put_row task_key k v ts')
            (ground (arith, found1, m.unfinished, found, over t t1 stays done)),
        stays,
      )
  Evolves-terminal k t (touch {ts'} old v chain found m e) done h =
      let (t1, found1, stays) = Evolves-terminal k t chain done h in
      elim (text_dec (task_key v) k) [
        | yes p ↦ (
          v,
          rw (e, get_row-put_row task_key k v ts') (ground (arith, p, found, found1)),
          Stays-touch v t1 (touched_row old t1 v (ground (arith, p, found, found1)) m) stays,
        )
        | no q ↦ (t1, rw (e, get_row-put_row task_key k v ts') (ground (arith, q, found1)), stays)
      ]
  Evolves-terminal k t (add {ts'} v chain absent e) done h =
      let (t1, found1, stays) = Evolves-terminal k t chain done h in
      (t1, rw (e, get_row-append task_key k v ts') (ground (arith, found1)), stays)

  -- A row stays as it is, or gets a greater version.
  pub Evolves-version :
      {ts' : List Task} (k : String) (t : Task)
      → Evolves reopens ts ts'
      → get_row task_key k ts ≡ some t
      → (t' : Task) × (get_row task_key k ts' ≡ some t') × Succeeds t t'
  Evolves-version k t (same e) h = (t, rw e h, inl refl)
  Evolves-version k t (move {ts'} old v chain found m e) h =
      let (t1, found1, since) = Evolves-version k t chain h in
      elim (text_dec (task_key v) k) [
        | yes p ↦ (
          v,
          rw (e, get_row-put_row task_key k v ts') (ground (arith, p, found, found1)),
          Succeeds-move v old t1 m (ground (arith, p, found, found1)) since,
        )
        | no q ↦ (t1, rw (e, get_row-put_row task_key k v ts') (ground (arith, q, found1)), since)
      ]
  Evolves-version k t (touch {ts'} old v chain found m e) h =
      let (t1, found1, since) = Evolves-version k t chain h in
      elim (text_dec (task_key v) k) [
        | yes p ↦ (
          v,
          rw (e, get_row-put_row task_key k v ts') (ground (arith, p, found, found1)),
          Succeeds-touch v old t1 m (ground (arith, p, found, found1)) since,
        )
        | no q ↦ (t1, rw (e, get_row-put_row task_key k v ts') (ground (arith, q, found1)), since)
      ]
  Evolves-version k t (add {ts'} v chain absent e) h =
      let (t1, found1, since) = Evolves-version k t chain h in
      (t1, rw (e, get_row-append task_key k v ts') (ground (arith, found1)), since)

pub Moves-any : {b : Bool} {t t' : Task} → Moves b t t' → Moves true t t'
Moves-any m = record {
  newer = m.newer;
  unfinished = m.unfinished;
  legal = ground (arith, m.legal);
  same_id = m.same_id;
  same_group = m.same_group;
  same_place = m.same_place;
}

pub Evolves-any : {b : Bool} {ts ts' : List Task} → Evolves b ts ts' → Evolves true ts ts'
Evolves-any (same e) = same e
Evolves-any (move old v chain found m e) = move old v (Evolves-any chain) found (Moves-any m) e
Evolves-any (touch old v chain found m e) = touch old v (Evolves-any chain) found m e
Evolves-any (add v chain absent e) = add v (Evolves-any chain) absent e
