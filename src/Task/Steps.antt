-- ===== src/Task/Steps.antt =====
-- The helpers that the handlers of packages/task-orchestration/src/services.ts share.
pub mod Loops
use proflow.Base.{
  String, ℕ, Bool, true, false, not, ◌&&◌, ◌||◌, List, [], ◌∷◌, Option, none, some, if◌then◌else◌,
  nat_eq, ◌==◌, any,
}
use Prim.Native.String.{◌++◌}
use proflow.Task.Model.{
  NodeStatus, Task, TaskNode, EventType, Payload, NewEvent, NodeExecutionHistory,
}
use proflow.Task.Errors.{
  ok, err, ◌>>=◌, ◌>>◌, gets, some_or_throw, throw_if, Code, DomainError, domain, versions,
  task_not_found, node_not_found,
}
use proflow.Task.Requests.{NodeResult}
use proflow.Task.Store.{Db, Action, ⊤, find_task, find_node}
use proflow.Task.Store.Logs.{same_run, insert_history}
use proflow.Task.Store.Lists.{list_history}

unfoldable pub require_task : String → Action Task
require_task id = do some_or_throw (← gets (find_task id)) (domain task_not_found)

-- A node of another Task counts as missing.
abbrev node_of : String → Option TaskNode → Option TaskNode
node_of task_id none = none
node_of task_id (some n) = if n.task_id == task_id then some n else none

unfoldable pub require_node : String → String → Action TaskNode
require_node task_id node_id = do
  found ← gets (find_node node_id)
  some_or_throw (node_of task_id found) (domain node_not_found)

unfoldable pub check_version : ℕ → ℕ → Code → Action ⊤
check_version actual expected code =
    throw_if (not (nat_eq actual expected))
      (record { code = code; retryable = true; details = versions expected actual })

-- `for (const item of items) body(item)`
unfoldable pub for_each : {A : Type 0} → List A → (A → Action ⊤) → Action ⊤
for_each [] body = λ db. ok (tt, db)
for_each (x ∷ xs) body = body x >> for_each xs body

abbrev is_null : {A : Type 0} → Option A → Bool
is_null none = true
is_null (some _) = false

-- The row that a run leaves behind.
abbrev pub run_of : TaskNode → NodeStatus → String → NodeExecutionHistory
run_of node final_status ended_at = record {
  task_id = node.task_id;
  node_id = node.node_id;
  run_no = node.run_no;
  worker_ref = node.worker_ref;
  final_status = final_status;
  result_summary = node.result_summary;
  error_code = node.error_code;
  error_message = node.error_message;
  error_retryable = node.error_retryable;
  input_documents = node.input_documents;
  output_documents = node.output_documents;
  started_at = node.started_at;
  ended_at = ended_at;
}

-- No row for a run that never started, and none for a run that has one.
unfoldable pub preserve_run_history : TaskNode → NodeStatus → String → Action ⊤
preserve_run_history node final_status ended_at db =
    if is_null node.started_at && is_null node.worker_ref
    then ok (tt, db)
    else if any (same_run node.node_id node.run_no) (list_history node.task_id db)
    then ok (tt, db)
    else insert_history (run_of node final_status ended_at) db

abbrev pub node_result : Task → TaskNode → NodeResult
node_result task node = record {
  task_id = task.task_id;
  node_id = node.node_id;
  status = node.status;
  run_no = node.run_no;
  worker_ref = node.worker_ref;
  task_version = task.version;
  node_version = node.version;
  started_at = node.started_at;
}

-- actorRef === `worker:${workerRef}`
unfoldable pub matches_worker : String → Option String → Bool
matches_worker actor_ref none = false
matches_worker actor_ref (some w) = actor_ref == ("worker:" ++ w)

-- Tests on the status of a node.
abbrev pub is_node_pending : NodeStatus → Bool
is_node_pending NodeStatus.pending = true
is_node_pending _ = false

abbrev pub is_node_ready : NodeStatus → Bool
is_node_ready NodeStatus.ready = true
is_node_ready _ = false

abbrev pub is_in_progress : NodeStatus → Bool
is_in_progress NodeStatus.in_progress = true
is_in_progress _ = false

abbrev pub is_node_waiting : NodeStatus → Bool
is_node_waiting NodeStatus.waiting = true
is_node_waiting _ = false

abbrev pub is_node_failed : NodeStatus → Bool
is_node_failed NodeStatus.failed = true
is_node_failed _ = false

-- ["SUCCEEDED", "TERMINATED"].includes(item.status)
abbrev pub is_node_terminal : NodeStatus → Bool
is_node_terminal NodeStatus.succeeded = true
is_node_terminal NodeStatus.terminated = true
is_node_terminal _ = false

-- ["SUCCEEDED", "FAILED"].includes(target.status)
abbrev pub can_reopen : NodeStatus → Bool
can_reopen NodeStatus.succeeded = true
can_reopen NodeStatus.failed = true
can_reopen _ = false
