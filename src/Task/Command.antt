-- ===== src/Task/Command.antt =====
-- `command` of packages/task-orchestration/src/services.ts: one transaction with the idempotency
-- record, the handler and the audit event; an error rolls the database back.
pub mod Replay
pub mod Records
pub mod Sequences
pub mod Again
use proflow.Base.{
  String, ℕ, Bool, true, false, not, ◌&&◌, ◌||◌, Option, none, some, if◌then◌else◌, ◌==◌,
}
use proflow.Task.Model.{EventType, NewEvent}
use proflow.Task.Errors.{
  Result, ok, err, DomainError, ◌>>=◌, ◌>>◌, pure, gets, throw_if, domain, idempotency_conflict,
}
use proflow.Task.Requests.{
  Env, Controls, Request, create_task_group, start_task_group, create_task, bind_task_worker,
  start_task, pause_task, resume_task, terminate_task, start_node, complete_node, wait_node,
  fail_node, reopen_node, acknowledge_message, put_task_document, Response,
}
use proflow.Task.Store.{Db, Action, ⊤, IdempotencyRecord, find_task, find_node, find_record}
use proflow.Task.Store.Logs.{insert_event, insert_record}
use proflow.Task.Commands.Groups
use proflow.Task.Commands.Create
use proflow.Task.Commands.Bind
use proflow.Task.Commands.Lifecycle
use proflow.Task.Commands.Nodes
use proflow.Task.Commands.Complete
use proflow.Task.Commands.Reopen
use proflow.Task.Commands.Messages
use proflow.Task.Commands.Documents
use proflow.Task.Commands.Messages.{version_of_task, version_of_node}

-- `relativeDocumentPath`, which names a Task's document under the workspace root.
abbrev pub DocumentPath : Type 0
DocumentPath = String → String → String

unfoldable pub controls_of : Request → Controls
controls_of (create_task_group i) = i.controls
controls_of (start_task_group i) = i.controls
controls_of (create_task i) = i.controls
controls_of (bind_task_worker i) = i.task_controls.controls
controls_of (start_task i) = i.controls
controls_of (pause_task i) = i.task_controls.controls
controls_of (resume_task i) = i.controls
controls_of (terminate_task i) = i.task_controls.controls
controls_of (start_node i) = i.task_controls.controls
controls_of (complete_node i) = i.node_controls.task_controls.controls
controls_of (wait_node i) = i.node_controls.task_controls.controls
controls_of (fail_node i) = i.node_controls.task_controls.controls
controls_of (reopen_node i) = i.task_controls.controls
controls_of (acknowledge_message i) = i.controls
controls_of (put_task_document i) = i.task_controls.controls

unfoldable pub operation_of : Request → String
operation_of (create_task_group _) = "createTaskGroup"
operation_of (start_task_group _) = "startTaskGroup"
operation_of (create_task _) = "createTask"
operation_of (bind_task_worker _) = "bindTaskWorker"
operation_of (start_task _) = "startTask"
operation_of (pause_task _) = "pauseTask"
operation_of (resume_task _) = "resumeTask"
operation_of (terminate_task _) = "terminateTask"
operation_of (start_node _) = "startNode"
operation_of (complete_node _) = "completeNode"
operation_of (wait_node _) = "waitNode"
operation_of (fail_node _) = "failNode"
operation_of (reopen_node _) = "reopenNode"
operation_of (acknowledge_message _) = "acknowledgeMessage"
operation_of (put_task_document _) = "putTaskDocument"

-- `auditEventTypes[operation]`, with the `taskId` and `nodeId` of the input.
abbrev pub Audit : Type 0
Audit = EventType × String × Option String

unfoldable pub audit_of : Request → Option Audit
audit_of (bind_task_worker i) = some (EventType.task_role_bound, i.task_id, none)
audit_of (start_task i) = some (EventType.task_started, i.task_id, none)
audit_of (pause_task i) = some (EventType.task_paused, i.task_id, none)
audit_of (resume_task i) = some (EventType.task_resumed, i.task_id, none)
audit_of (terminate_task i) = some (EventType.task_terminated, i.task_id, none)
audit_of (start_node i) = some (EventType.node_started, i.task_id, some i.node_id)
audit_of (complete_node i) = some (EventType.node_completed, i.task_id, some i.node_id)
audit_of (wait_node i) = some (EventType.node_waiting, i.task_id, some i.node_id)
audit_of (fail_node i) = some (EventType.node_failed, i.task_id, some i.node_id)
audit_of _ = none

-- The handler that each operation passes to `command`.
unfoldable pub perform : Env → DocumentPath → Request → Action Response
perform env path (create_task_group i) = do pure (Response.group (← Groups.create_task_group env i))
perform env path (start_task_group i) = do
  r ← Groups.start_task_group env i
  pure (Response.started_group r.0 r.1)
perform env path (create_task i) = do pure (Response.created (← Create.create_task env path i))
perform env path (bind_task_worker i) = do pure (Response.bound (← Bind.bind_task_worker env i))
perform env path (start_task i) = do pure (Response.view (← Lifecycle.start_task env i))
perform env path (pause_task i) = do pure (Response.task (← Lifecycle.pause_task env i))
perform env path (resume_task i) = do pure (Response.task (← Lifecycle.resume_task env i))
perform env path (terminate_task i) = do pure (Response.task (← Lifecycle.terminate_task env i))
perform env path (start_node i) = do pure (Response.node (← Nodes.start_node env i))
perform env path (complete_node i) = do pure (Response.completed (← Complete.complete_node env i))
perform env path (wait_node i) = do pure (Response.task (← Nodes.wait_node env i))
perform env path (fail_node i) = do pure (Response.task (← Nodes.fail_node env i))
perform env path (reopen_node i) = do r ← Reopen.reopen_node env i; pure (Response.reopened r.0 r.1)
perform env path (acknowledge_message i) = do
  pure (Response.message (← Messages.acknowledge_message env i))
perform env path (put_task_document i) = do
  pure (Response.document (← Documents.put_task_document env path i))

abbrev node_version_at : Option String → Db → Option ℕ
node_version_at none db = none
node_version_at (some id) db = version_of_node (find_node id db)

unfoldable pub write_audit : Env → Controls → Option Audit → Action ⊤
write_audit env controls none = λ db. ok (tt, db)
write_audit env controls (some (event_type, task_id, node_id)) = do
  task ← gets (find_task task_id)
  node_version ← gets (node_version_at node_id)
  insert_event (record {
    task_id = task_id;
    node_id = node_id;
    event_type = event_type;
    actor_ref = controls.actor_ref;
    task_version = version_of_task task;
    node_version = node_version;
    payload = none;
    created_at = env.now;
  })

-- A key that is used again: the recorded response, or a conflict.
unfoldable pub replay : Env → Request → IdempotencyRecord → Action Response
replay env request prior = do
  throw_if
      (not (prior.operation == operation_of request)
        || not (prior.request_hash == env.fingerprint request))
      (domain idempotency_conflict)
  pure (env.parse prior.response_json)

unfoldable pub new_record : Env → Request → Response → IdempotencyRecord
new_record env request result = record {
  idempotency_key = (controls_of request).idempotency_key;
  operation = operation_of request;
  request_hash = env.fingerprint request;
  response_json = env.stringify result;
  created_at = env.now;
}

unfoldable pub perform_first : Env → DocumentPath → Request → Action Response
perform_first env path request = do
  result ← perform env path request
  write_audit env (controls_of request) (audit_of request)
  insert_record (new_record env request result)
  pure result

abbrev transaction_from : Env → DocumentPath → Request → Option IdempotencyRecord → Action Response
transaction_from env path request none = perform_first env path request
transaction_from env path request (some prior) = replay env request prior

unfoldable pub transact : Env → DocumentPath → Request → Action Response
transact env path request db =
    transaction_from env path request (find_record (controls_of request).idempotency_key db) db

-- `SqliteTaskStore.transaction`: COMMIT what the work did, or ROLLBACK and answer with the error. A
-- ROLLBACK puts the tables back as they were at BEGIN, which is SQLite's own work, so an error of a
-- handler carries no database.
pub data Reply : Type 0 where
  success : Response → Reply
  failure : DomainError → Reply

abbrev pub commit : Db → Result (Response × Db) → Reply × Db
commit db (ok (r, db')) = (success r, db')
commit db (err e) = (failure e, db)

unfoldable pub command : Env → DocumentPath → Request → Db → Reply × Db
command env path request db = commit db (transact env path request db)
