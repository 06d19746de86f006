-- ===== src/Task/Guards/Binding.antt =====
-- `bindTaskWorker`: no worker and no conversation serves two Tasks.
use proflow.Base.{
  ◌≡◌, ◌≢◌, false, some, arith, text_key, ◌==◌, ==_iff, any, any-none, All, All-mono, keep-All,
  sort_by-All,
}
use proflow.Task.Model.{Task, TaskRoleBinding}
use proflow.Task.Errors.{ok}
use proflow.Task.Requests.{Env, BindInput, BindTaskWorkerResult}
use proflow.Task.Store.{Db}
use proflow.Task.Store.Lists.{list_tasks_all, list_bindings}
use proflow.Task.Steps.{require_task, check_version}
use proflow.Task.Commands.Bind.{shares_identity, bound_to_another, bind_task_worker}

-- The binding has another worker than the request, and another conversation.
abbrev pub IsApart : BindInput → TaskRoleBinding → Type 0
IsApart input b =
    (b.worker_ref ≢ some input.worker_ref)
    × (b.conversation_locator ≢ some input.conversation_locator)

-- No binding of another Task in the table has the worker or the conversation of the request.
abbrev pub IsExclusive : BindInput → Db → Type 0
IsExclusive input db =
    All
      (λ (t : Task).
        t.task_id ≢ input.task_id
        → All (λ (b : TaskRoleBinding). b.task_id ≡ t.task_id → IsApart input b) db.role_bindings)
      db.tasks

module _ (input : BindInput) (db : Db) where
  any-IsApart :
      (t : Task)
      → (any (shares_identity input) (list_bindings t.task_id db) ≡ false)
      → All (λ (b : TaskRoleBinding). b.task_id ≡ t.task_id → IsApart input b) db.role_bindings
  unfolding list_bindings
  any-IsApart t h =
      All-mono _ _ (λ b f e. f ((==_iff b.task_id t.task_id).1 e)) db.role_bindings
        (keep-All (IsApart input) (λ b. b.task_id == t.task_id) db.role_bindings
          (sort_by-All (IsApart input) _ _
            ((any-none (shares_identity input) (IsApart input) (λ b. ground arith) _).0 h)))

  bound_to_another-IsExclusive : bound_to_another input db ≡ false → IsExclusive input db
  unfolding bound_to_another list_tasks_all
  bound_to_another-IsExclusive h =
      All-mono
        (λ (t : Task).
          t.task_id ≢ input.task_id
          → any (shares_identity input) (list_bindings t.task_id db) ≡ false)
        _ (λ t f other. any-IsApart t (f other)) db.tasks
        (sort_by-All _ _ _ ((any-none _ _ (λ t. ground arith) _).0 h))

  -- Where `bindTaskWorker` succeeds, no binding of another Task has its worker or conversation.
  pub bind_task_worker-IsExclusive :
      (env : Env) (r : BindTaskWorkerResult) (db' : Db)
      → bind_task_worker env input db ≡ ok (r, db')
      → IsExclusive input db
  unfolding bind_task_worker require_task check_version
  bind_task_worker-IsExclusive env r db' h = bound_to_another-IsExclusive (ground (arith, h))
