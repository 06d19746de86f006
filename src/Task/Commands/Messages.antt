-- ===== src/Task/Commands/Messages.antt =====
-- `acknowledgeMessage`.
use proflow.Base.{String, ℕ, Option, none, some, if◌then◌else◌, ◌==◌}
use proflow.Task.Model.{Task, TaskNode, MessageStatus, TaskMessage, EventType, Payload}
use proflow.Task.Errors.{◌>>=◌, ◌>>◌, pure, gets, some_or_throw, domain, message_not_found}
use proflow.Task.Requests.{Env, AckInput}
use proflow.Task.Store.{Db, Action, find_task, find_node, find_message}
use proflow.Task.Store.Logs.{update_message, insert_event}
use proflow.Task.Store.Lists.{is_pending}

abbrev pub version_of_task : Option Task → Option ℕ
version_of_task none = none
version_of_task (some t) = some t.version

abbrev pub version_of_node : Option TaskNode → Option ℕ
version_of_node none = none
version_of_node (some n) = some n.version

abbrev message_node_version : Option String → Db → Option ℕ
message_node_version none db = none
message_node_version (some id) db = if id == "" then none else version_of_node (find_node id db)

-- The part behind the return for an ACKNOWLEDGED message.
unfoldable pub acknowledge_pending : Env → AckInput → TaskMessage → Action TaskMessage
acknowledge_pending env input message = do
  let updated = record message {
    status = MessageStatus.acknowledged;
    acknowledged_by_ref = some input.actor_ref;
    acknowledged_at = some env.now;
    resolution = input.resolution;
  }
  update_message updated
  task_version ← gets (λ db. version_of_task (find_task message.task_id db))
  node_version ← gets (message_node_version message.node_id)
  insert_event (record {
    task_id = message.task_id;
    node_id = message.node_id;
    event_type = EventType.message_acknowledged;
    actor_ref = input.actor_ref;
    task_version = task_version;
    node_version = node_version;
    payload = some (Payload.message_id message.message_id);
    created_at = env.now;
  })
  pure updated

unfoldable pub acknowledge_message : Env → AckInput → Action TaskMessage
acknowledge_message env input = do
  message ← some_or_throw (← gets (find_message input.message_id)) (domain message_not_found)
  if is_pending message.status then acknowledge_pending env input message else pure message
