-- ===== src/Task/Progress/Readied.antt =====
-- `recomputeReadiness` and the writes that follow it: a PENDING Task becomes READY.
use proflow.Base.{
  String, ◌+◌, ◌<◌, ◌≡◌, refl, ◌⊎◌, inl, inr, Bool, false, List, [], ◌∷◌, Option, some, arith,
  put_row, get_row, text_key, get_row-put_row, get_row-append, text_dec, All, All-mono, All-keep,
  All-sort_by, All-get_row, IsUnique,
}
use proflow.Task.Model.{Task, TaskStatus}
use proflow.Task.Transitions.{task_transition}
use proflow.Task.Errors.{ok, >>=-eq-ok}
use proflow.Task.Requests.{Env}
use proflow.Task.Store.{Db, ⊤, task_key}
use proflow.Task.Store.Rows.{update_task}
use proflow.Task.Store.Lists.{list_tasks_of}
use proflow.Task.Readiness.{recompute_readiness}
use proflow.Task.Commands.Groups.{update_if_readied, ready_members, first_ready}
use proflow.Task.Progress.{Evolves, same, move, touch, add, Evolves-trans}

-- The row of a Task that was read earlier: as it was read, or written since.
abbrev pub IsSeen : List Task → Task → Type 0
IsSeen ts m =
    (row : Task) × (get_row task_key m.task_id ts ≡ some row)
    × ((row ≡ m) ⊎ (m.version < row.version))

-- Rows that a list of the database shows have been seen.
pub list_tasks_of-IsSeen :
    (g : String) (db : Db) → IsUnique task_key db.tasks → All (IsSeen db.tasks) (list_tasks_of g db)
unfolding list_tasks_of
list_tasks_of-IsSeen g db unique = All-sort_by _ _ _ (
    All-keep _ _ _
      (All-mono _ _ (λ x e. (x, e, inl refl)) db.tasks (All-get_row task_key db.tasks unique)))

IsSeen-put_row :
    (ts : List Task) {ts' : List Task} (old v m : Task)
    → get_row task_key v.task_id ts ≡ some old
    → old.version < v.version
    → ts' ≡ put_row task_key v ts
    → IsSeen ts m
    → IsSeen ts' m
IsSeen-put_row ts old v m found newer e (row, f, o) = elim (text_dec v.task_id m.task_id) [
  | yes q ↦ (v, rw (e, get_row-put_row task_key m.task_id v ts) (ground arith), ground arith)
  | no q ↦ (row, rw (e, get_row-put_row task_key m.task_id v ts) (ground arith), o)
]

pub Evolves-IsSeen :
    {reopens : Bool} {ts ts' : List Task} (m : Task)
    → Evolves reopens ts ts'
    → IsSeen ts m
    → IsSeen ts' m
Evolves-IsSeen m (same e) s = rw e s
Evolves-IsSeen m (move {ts'} old v chain found moved e) s =
    IsSeen-put_row ts' old v m found moved.newer e (Evolves-IsSeen m chain s)
Evolves-IsSeen m (touch {ts'} old v chain found (now, p) e) s =
    IsSeen-put_row ts' old v m found (ground (arith, p)) e (Evolves-IsSeen m chain s)
Evolves-IsSeen m (add {ts'} v chain absent e) s =
    let (row, f, o) = Evolves-IsSeen m chain s in
    (row, rw (e, get_row-append task_key m.task_id v ts', f), o)

module _ (env : Env) (before : Task) (db0 db db' : Db) (u : ⊤)
    (h : update_if_readied before (recompute_readiness env db0 before) db ≡ ok (u, db')) where
  readied_write :
      get_row task_key before.task_id db.tasks ≡ some before
      → (db'.tasks ≡ db.tasks)
        ⊎ ((before.status ≡ TaskStatus.pending)
            × (db'.tasks
                ≡ put_row task_key
                    (record before {
                      status = TaskStatus.ready;
                      version = before.version + 1;
                      updated_at = env.now;
                    })
                    db.tasks))
  unfolding update_if_readied recompute_readiness update_task
  readied_write found = ground (arith, h, found)

  stale_write :
      (row : Task)
      → get_row task_key before.task_id db.tasks ≡ some row
      → before.version < row.version
      → db'.tasks ≡ db.tasks
  unfolding update_if_readied recompute_readiness update_task
  stale_write row found stale = ground (arith, h, found, stale)

  pub update_if_readied-Evolves : IsSeen db.tasks before → Evolves false db.tasks db'.tasks
  unfolding task_transition
  update_if_readied-Evolves (row, found, inl e) = elim (readied_write (rw e at found)) [
    | inl kept ↦ same kept
    | inr (pending, written) ↦ move before _ (same refl) (rw e at found) (ground arith) written
  ]
  update_if_readied-Evolves (row, found, inr stale) = same (stale_write row found stale)

pub ready_members-Evolves :
    (env : Env) (first : Option String) (members : List Task) (db db' : Db) (r : Option String)
    → All (IsSeen db.tasks) members
    → ready_members env first members db ≡ ok (r, db')
    → Evolves false db.tasks db'.tasks
unfolding ready_members
ready_members-Evolves env first [] db db' r seen h = same (ground arith)
ready_members-Evolves env first (m ∷ ms) db db' r seen h =
    let readied = recompute_readiness env db m in
    let (u, db1, one, rest) =
      >>=-eq-ok (update_if_readied m readied)
        (λ _. ready_members env (first_ready first readied) ms) db (r, db') h in
    let step = update_if_readied-Evolves env m db db db1 u one seen.0 in
    Evolves-trans step (
      ready_members-Evolves env (first_ready first readied) ms db1 db' r
        (All-mono _ _ (λ x s. Evolves-IsSeen x step s) ms seen.1) rest)
