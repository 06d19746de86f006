-- ===== src/Task/Commands/Complete.antt =====
-- `completeNode`.
use proflow.Base.{
  String, ◌+◌, Bool, not, ◌&&◌, ◌||◌, List, Option, none, some, if◌then◌else◌, ltb, ◌==◌, find,
  keep, all, truthy,
}
use proflow.Task.Model.{
  TaskGroupStatus, TaskGroup, TaskStatus, Task, NodeStatus, TaskNode, NodeExecutionHistory,
  TaskDocument,
}
use proflow.Task.Errors.{
  ok, err, ◌>>=◌, ◌>>◌, pure, gets, throw_if, domain, task_version_conflict, node_version_conflict,
  node_invalid_state, worker_mismatch, node_output_missing, document_index_mismatch,
}
use proflow.Task.Environment.{content_hash}
use proflow.Task.Requests.{Env, CompleteInput, CompleteNodeResult}
use proflow.Task.Store.{Action, ⊤, find_group, find_document}
use proflow.Task.Store.Rows.{update_group, update_task, update_node}
use proflow.Task.Store.Logs.{insert_history}
use proflow.Task.Store.Lists.{list_tasks_of, list_nodes}
use proflow.Task.Readiness.{is_active, is_pending, is_succeeded, place, recompute_readiness}
use proflow.Task.Steps.{
  require_task, require_node, check_version, for_each, run_of, matches_worker, is_in_progress,
  is_node_pending,
}
use proflow.Task.Commands.Groups.{update_if_readied}

-- One required output: an indexed document whose file has the indexed hash.
abbrev check_output_of : Env → Option TaskDocument → Action ⊤
check_output_of env none db = err (domain node_output_missing)
check_output_of env (some d) db = elim (env.file d.file_path) [
  | none ↦ err (domain node_output_missing)
  | some content ↦
      if content_hash env content == d.content_hash
      then ok (tt, db)
      else err (domain document_index_mismatch)
]

unfoldable pub check_output : Env → String → String → Action ⊤
check_output env task_id type db = check_output_of env (find_document task_id type db) db

abbrev pub is_next : TaskNode → TaskNode → Bool
is_next node item = ltb node.sequence_no item.sequence_no && is_node_pending item.status

-- The node that follows becomes READY and current; without one the Task has SUCCEEDED.
unfoldable pub advance : Env → Task → Option TaskNode → Action Task
advance env task none = pure (record task {
  status = TaskStatus.succeeded;
  version = task.version + 1;
  current_node_id = none;
  completed_at = some env.now;
  updated_at = env.now;
})
advance env task (some next) = do
  update_node
      (record next { status = NodeStatus.ready; version = next.version + 1; updated_at = env.now })
  pure (record task {
    version = task.version + 1;
    current_node_id = some next.node_id;
    updated_at = env.now;
  })

abbrev pub is_next_task : Task → Task → Bool
is_next_task task item =
    ltb (place task.sequence_no) (place item.sequence_no) && is_pending item.status

unfoldable pub ready_next_task : Env → Option Task → Action ⊤
ready_next_task env none db = ok (tt, db)
ready_next_task env (some next_task) db =
    update_if_readied next_task (recompute_readiness env db next_task) db

abbrev pub all_done : Task → List Task → Bool
all_done task group_tasks =
    all (λ (t : Task). is_succeeded t.status)
      (keep (λ (t : Task). not (t.task_id == task.task_id)) group_tasks)

abbrev pub closed : Env → Task → TaskGroup → List Task → TaskGroup
closed env task group group_tasks = record group {
  status = if all_done task group_tasks then TaskGroupStatus.succeeded else group.status;
  version = group.version + 1;
  updated_at = env.now;
}

-- The group of a Task that has just SUCCEEDED.
unfoldable pub close_group : Env → Task → Option TaskGroup → Action ⊤
close_group env task none = λ db. ok (tt, db)
close_group env task (some group) = do
  group_tasks ← gets (list_tasks_of group.task_group_id)
  ready_next_task env (find (is_next_task task) group_tasks)
  update_group (closed env task group group_tasks)

abbrev pub group_of : Task → Option String
group_of task = if truthy task.task_group_id then task.task_group_id else none

unfoldable pub finish_group : Env → Task → Task → Action ⊤
finish_group env task updated_task = elim (group_of task) [
  | none ↦ λ db. ok (tt, db)
  | some id ↦
      if is_succeeded updated_task.status
      then (do close_group env task (← gets (find_group id)))
      else (λ db. ok (tt, db))
]

abbrev pub completed : Env → CompleteInput → TaskNode → TaskNode
completed env input node = record node {
  status = NodeStatus.succeeded;
  version = node.version + 1;
  result_summary = some input.result_summary;
  completed_at = some env.now;
  updated_at = env.now;
}

abbrev pub completed_run : Env → CompleteInput → TaskNode → NodeExecutionHistory
completed_run env input node =
    record (run_of (completed env input node) NodeStatus.succeeded env.now) {
      error_code = none;
      error_message = none;
      error_retryable = none;
    }

-- The checks of the outputs and the writes of nodes and run history; yields `updatedTask`.
unfoldable pub complete_run : Env → CompleteInput → Task → TaskNode → Action Task
complete_run env input task node = do
  for_each node.output_documents (check_output env task.task_id)
  update_node (completed env input node)
  insert_history (completed_run env input node)
  nodes ← gets (list_nodes task.task_id)
  advance env task (find (is_next node) nodes)

unfoldable pub complete_node : Env → CompleteInput → Action CompleteNodeResult
complete_node env input = do
  task ← require_task input.task_id
  node ← require_node input.task_id input.node_id
  check_version task.version input.expected_task_version task_version_conflict
  check_version node.version input.expected_node_version node_version_conflict
  throw_if
      (not (is_active task.status)
        || not (is_in_progress node.status)
        || not (matches_worker input.actor_ref node.worker_ref))
      (domain (
        if matches_worker input.actor_ref node.worker_ref
        then node_invalid_state
        else worker_mismatch))
  updated_task ← complete_run env input task node
  update_task updated_task
  finish_group env task updated_task
  pure (record {
    node_id = node.node_id;
    run_no = node.run_no;
    completed_at = env.now;
    task_status = updated_task.status;
    task_version = updated_task.version;
    next_node_id = updated_task.current_node_id;
  })
