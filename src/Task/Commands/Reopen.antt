-- ===== src/Task/Commands/Reopen.antt =====
-- `reopenNode`.
use proflow.Base.{String, ℕ, ◌+◌, Bool, not, ◌||◌, none, some, if◌then◌else◌, ltb}
use proflow.Task.Model.{TaskStatus, Task, NodeStatus, TaskNode, EventType, Payload}
use proflow.Task.Errors.{
  ok, ◌>>=◌, ◌>>◌, pure, gets, throw_if, domain, task_version_conflict, task_invalid_state,
  node_invalid_state,
}
use proflow.Task.Requests.{Env, ReopenInput, NodeResult}
use proflow.Task.Store.{Action, ⊤}
use proflow.Task.Store.Rows.{is_some, update_task, update_node}
use proflow.Task.Store.Logs.{insert_event}
use proflow.Task.Store.Lists.{list_nodes}
use proflow.Task.Readiness.{is_terminal}
use proflow.Task.Steps.{
  require_task, require_node, check_version, for_each, preserve_run_history, node_result,
  can_reopen,
}

-- A node with what its last run left removed.
abbrev pub cleared : Env → NodeStatus → ℕ → TaskNode → TaskNode
cleared env status run_no node = record node {
  status = status;
  version = node.version + 1;
  run_no = run_no;
  worker_ref = none;
  result_summary = none;
  error_code = none;
  error_message = none;
  error_retryable = none;
  started_at = none;
  completed_at = none;
  updated_at = env.now;
}

-- `later.startedAt !== null || later.workerRef !== null`
abbrev pub was_started : TaskNode → Bool
was_started later = is_some later.started_at || is_some later.worker_ref

-- One round of the loop over the later nodes.
unfoldable pub invalidate_later : Env → TaskNode → TaskNode → Action ⊤
invalidate_later env target later =
    if ltb target.sequence_no later.sequence_no
    then (do
      preserve_run_history later later.status env.now
      update_node (
          cleared env NodeStatus.pending (later.run_no + (if was_started later then 1 else 0))
            later))
    else (λ db. ok (tt, db))

-- The writes of nodes: the target becomes READY for its next run, the later nodes PENDING.
unfoldable pub reopen_nodes : Env → Task → TaskNode → Action ⊤
reopen_nodes env task target = do
  preserve_run_history target target.status env.now
  update_node (cleared env NodeStatus.ready (target.run_no + 1) target)
  nodes ← gets (list_nodes task.task_id)
  for_each nodes (invalidate_later env target)

unfoldable pub reopen_node : Env → ReopenInput → Action (NodeResult × String)
reopen_node env input = do
  task ← require_task input.task_id
  target ← require_node input.task_id input.node_id
  check_version task.version input.expected_task_version task_version_conflict
  throw_if (is_terminal task.status) (domain task_invalid_state)
  throw_if (not (can_reopen target.status)) (domain node_invalid_state)
  reopen_nodes env task target
  let reopened = cleared env NodeStatus.ready (target.run_no + 1) target
  let updated = record task {
    status = TaskStatus.active;
    version = task.version + 1;
    current_node_id = some target.node_id;
    completed_at = none;
    updated_at = env.now;
  }
  update_task updated
  insert_event (record {
    task_id = task.task_id;
    node_id = some target.node_id;
    event_type = EventType.node_reopened;
    actor_ref = input.actor_ref;
    task_version = some updated.version;
    node_version = some reopened.version;
    payload = some (Payload.reason input.reason);
    created_at = env.now;
  })
  pure (node_result updated reopened, target.node_id)
