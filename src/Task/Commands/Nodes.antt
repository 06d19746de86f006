-- ===== src/Task/Commands/Nodes.antt =====
-- `startNode`, `waitNode` and `failNode`.
use proflow.Base.{String, ◌+◌, not, ◌||◌, Option, none, some, if◌then◌else◌, option_eq, truthy}
use proflow.Task.Model.{TaskStatus, Task, NodeStatus, TaskRoleBinding, MessageStatus}
use proflow.Task.Errors.{
  ◌>>=◌, ◌>>◌, pure, gets, throw_if, domain, task_version_conflict, node_version_conflict,
  task_invalid_state, node_invalid_state, node_not_current, task_role_binding_required,
  worker_mismatch,
}
use proflow.Task.Requests.{Env, NodeControls, WaitInput, FailInput, NodeResult}
use proflow.Task.Store.{Action, find_binding}
use proflow.Task.Store.Rows.{update_task, update_node}
use proflow.Task.Store.Logs.{insert_message}
use proflow.Task.Readiness.{is_active}
use proflow.Task.Steps.{
  require_task, require_node, check_version, preserve_run_history, node_result, matches_worker,
  is_node_ready, is_in_progress,
}

abbrev pub worker_of : Option TaskRoleBinding → Option String
worker_of none = none
worker_of (some b) = b.worker_ref

abbrev pub locator_of : Option TaskRoleBinding → Option String
locator_of none = none
locator_of (some b) = b.conversation_locator

unfoldable pub start_node : Env → NodeControls → Action NodeResult
start_node env input = do
  task ← require_task input.task_id
  node ← require_node input.task_id input.node_id
  check_version task.version input.expected_task_version task_version_conflict
  check_version node.version input.expected_node_version node_version_conflict
  throw_if
      (not (is_active task.status)
        || not (is_node_ready node.status)
        || not (option_eq task.current_node_id (some node.node_id)))
      (domain node_invalid_state)
  binding ← gets (find_binding task.task_id node.required_agent_package_ref)
  throw_if (not (truthy (worker_of binding)) || not (truthy (locator_of binding)))
      (domain task_role_binding_required)
  throw_if (not (matches_worker input.actor_ref (worker_of binding))) (domain worker_mismatch)
  let updated_node = record node {
    status = NodeStatus.in_progress;
    worker_ref = worker_of binding;
    version = node.version + 1;
    started_at = some env.now;
    updated_at = env.now;
  }
  let updated_task = record task { version = task.version + 1; updated_at = env.now }
  update_node updated_node
  update_task updated_task
  pure (node_result updated_task updated_node)

unfoldable pub wait_node : Env → WaitInput → Action Task
wait_node env input = do
  task ← require_task input.task_id
  node ← require_node input.task_id input.node_id
  check_version task.version input.expected_task_version task_version_conflict
  check_version node.version input.expected_node_version node_version_conflict
  throw_if (not (is_active task.status)) (domain task_invalid_state)
  throw_if (not (option_eq task.current_node_id (some node.node_id))) (domain node_not_current)
  throw_if
      (not (is_in_progress node.status) || not (matches_worker input.actor_ref node.worker_ref))
      (domain (
        if matches_worker input.actor_ref node.worker_ref
        then node_invalid_state
        else worker_mismatch))
  update_node (record node {
    status = NodeStatus.waiting;
    version = node.version + 1;
    updated_at = env.now;
  })
  let updated = record task {
    status = TaskStatus.waiting;
    version = task.version + 1;
    updated_at = env.now;
  }
  update_task updated
  insert_message (record {
    message_id = env.create_id "message" 0;
    task_id = task.task_id;
    node_id = some node.node_id;
    message_type = input.wait_type;
    reason_code = input.reason_code;
    message = input.message;
    related_ref = input.related_ref;
    status = MessageStatus.pending;
    created_by_ref = input.actor_ref;
    created_at = env.now;
    acknowledged_by_ref = none;
    acknowledged_at = none;
    resolution = none;
  })
  pure updated

unfoldable pub fail_node : Env → FailInput → Action Task
fail_node env input = do
  task ← require_task input.task_id
  node ← require_node input.task_id input.node_id
  check_version task.version input.expected_task_version task_version_conflict
  check_version node.version input.expected_node_version node_version_conflict
  throw_if (not (is_active task.status)) (domain task_invalid_state)
  throw_if (not (option_eq task.current_node_id (some node.node_id))) (domain node_not_current)
  throw_if (not (matches_worker input.actor_ref node.worker_ref)) (domain worker_mismatch)
  throw_if (not (is_in_progress node.status)) (domain node_invalid_state)
  let failed_node = record node {
    status = NodeStatus.failed;
    version = node.version + 1;
    error_code = some input.error_code;
    error_message = some input.error_message;
    error_retryable = some input.retryable;
    completed_at = some env.now;
    updated_at = env.now;
  }
  update_node failed_node
  preserve_run_history failed_node NodeStatus.failed env.now
  let updated = record task {
    status = TaskStatus.failed;
    version = task.version + 1;
    updated_at = env.now;
  }
  update_task updated
  pure updated
