-- ===== src/Task/Commands/Bind.antt =====
-- `bindTaskWorker`, and `workerIdentityBoundToAnotherTask`.
use proflow.Base.{
  String, ◌+◌, Bool, false, not, ◌&&◌, ◌||◌, Option, none, some, if◌then◌else◌, ◌==◌, option_eq,
  any,
}
use proflow.Task.Model.{Task, TaskRoleBinding}
use proflow.Task.Errors.{
  ◌>>=◌, ◌>>◌, pure, gets, some_or_throw, throw_if, domain, task_version_conflict,
  task_invalid_state, agent_package_not_eligible, role_binding_mismatch, task_role_binding_conflict,
}
use proflow.Task.Requests.{Env, BindInput, BindTaskWorkerResult}
use proflow.Task.Store.{Db, Action, find_binding}
use proflow.Task.Store.Rows.{update_task}
use proflow.Task.Store.Logs.{upsert_binding}
use proflow.Task.Store.Lists.{list_tasks_all, list_bindings}
use proflow.Task.Readiness.{is_terminal, recompute_readiness}
use proflow.Task.Steps.{require_task, check_version}
use proflow.Task.Commands.Groups.{update_if_readied}

abbrev pub shares_identity : BindInput → TaskRoleBinding → Bool
shares_identity input b =
    option_eq b.worker_ref (some input.worker_ref)
    || option_eq b.conversation_locator (some input.conversation_locator)

unfoldable pub bound_to_another : BindInput → Db → Bool
bound_to_another input db =
    any
      (λ t.
        not (t.task_id == input.task_id)
        && any (shares_identity input) (list_bindings t.task_id db))
      (list_tasks_all db)

-- `old !== null && old !== given`
abbrev pub differs : Option String → String → Bool
differs none s = false
differs (some o) s = not (o == s)

abbrev bound_result : BindInput → TaskRoleBinding → Task → BindTaskWorkerResult
bound_result input old task = record {
  task_id = task.task_id;
  version = task.version;
  role_binding = record {
    agent_package_ref = old.agent_package_ref;
    role_ref = old.role_ref;
    worker_ref = some input.worker_ref;
    conversation_locator = some input.conversation_locator;
  };
}

abbrev pub is_bound_already : BindInput → TaskRoleBinding → Bool
is_bound_already input old =
    option_eq old.worker_ref (some input.worker_ref)
    && option_eq old.conversation_locator (some input.conversation_locator)

abbrev pub bound : Env → BindInput → TaskRoleBinding → TaskRoleBinding
bound env input old = record old {
  worker_ref = some input.worker_ref;
  conversation_locator = some input.conversation_locator;
  version = old.version + 1;
  updated_at = env.now;
}

abbrev pub touched : Env → Task → Task
touched env task = record task { version = task.version + 1; updated_at = env.now }

-- The part behind the return for a binding that is there already.
unfoldable pub bind_anew : Env → BindInput → Task → TaskRoleBinding → Action BindTaskWorkerResult
bind_anew env input task old = do
  throw_if (differs old.worker_ref input.worker_ref) (domain task_role_binding_conflict)
  throw_if (differs old.conversation_locator input.conversation_locator)
      (domain task_role_binding_conflict)
  upsert_binding (bound env input old)
  let updated = touched env task
  update_task updated
  readied ← gets (λ db. recompute_readiness env db updated)
  update_if_readied updated readied
  pure (bound_result input old readied)

unfoldable pub bind_task_worker : Env → BindInput → Action BindTaskWorkerResult
bind_task_worker env input = do
  task ← require_task input.task_id
  check_version task.version input.expected_task_version task_version_conflict
  throw_if (is_terminal task.status) (domain task_invalid_state)
  old ←
      some_or_throw (← gets (find_binding task.task_id input.agent_package_ref))
        (domain agent_package_not_eligible)
  throw_if (not (old.role_ref == input.role_ref)) (domain role_binding_mismatch)
  throw_if (← gets (bound_to_another input)) (domain task_role_binding_conflict)
  if is_bound_already input old
      then pure (bound_result input old task)
      else bind_anew env input task old
