-- ===== src/Task/Store.antt =====
-- packages/task-store-sqlite/src/index.ts: the repositories over SQLite. A table is the list of its
-- rows in the order of insertion. A statement that SQLite refuses (a PRIMARY KEY or UNIQUE clash, a
-- FOREIGN KEY with no row), and an UPDATE that changes no row, throw a plain Error.
pub mod Rows
pub mod Logs
pub mod Lists
pub mod Laws
pub mod Seen
use proflow.Base.{String, List, Option, text_key, pair_key, get_row}
use proflow.Task.Model.{
  TaskGroup, Task, TaskNode, TaskRoleBinding, NodeExecutionHistory, TaskDocument, TaskMessage,
  TaskEvent,
}
use proflow.Task.Errors.{Tx}

-- The response that an idempotency record holds is the JSON text.
pub record IdempotencyRecord : Type 0 where
  pub idempotency_key : String
  pub operation : String
  pub request_hash : String
  pub response_json : String
  pub created_at : String

pub record Db : Type 0 where
  pub task_groups : List TaskGroup
  pub tasks : List Task
  pub nodes : List TaskNode
  pub role_bindings : List TaskRoleBinding
  pub execution_history : List NodeExecutionHistory
  pub documents : List TaskDocument
  pub messages : List TaskMessage
  pub events : List TaskEvent
  pub idempotency : List IdempotencyRecord

abbrev pub Action : Type 0 → Type 0
Action A = Tx Db A

abbrev pub ⊤ : Type 0
⊤ = Unit

abbrev pub group_key : TaskGroup → String
group_key g = g.task_group_id

abbrev pub task_key : Task → String
task_key t = t.task_id

abbrev pub node_key : TaskNode → String
node_key n = n.node_id

abbrev pub binding_key : TaskRoleBinding → String × String
binding_key b = (b.task_id, b.agent_package_ref)

abbrev pub document_key : TaskDocument → String × String
document_key d = (d.task_id, d.document_type)

abbrev pub message_key : TaskMessage → String
message_key m = m.message_id

abbrev pub idempotency_key_of : IdempotencyRecord → String
idempotency_key_of r = r.idempotency_key

-- The reads, as functions of the database.
abbrev pub find_group : String → Db → Option TaskGroup
find_group id db = get_row group_key id db.task_groups

abbrev pub find_task : String → Db → Option Task
find_task id db = get_row task_key id db.tasks

abbrev pub find_node : String → Db → Option TaskNode
find_node id db = get_row node_key id db.nodes

abbrev pub find_binding : String → String → Db → Option TaskRoleBinding
find_binding task_id agent db = get_row binding_key (task_id, agent) db.role_bindings

abbrev pub find_document : String → String → Db → Option TaskDocument
find_document task_id type db = get_row document_key (task_id, type) db.documents

abbrev pub find_message : String → Db → Option TaskMessage
find_message id db = get_row message_key id db.messages

abbrev pub find_record : String → Db → Option IdempotencyRecord
find_record k db = get_row idempotency_key_of k db.idempotency
