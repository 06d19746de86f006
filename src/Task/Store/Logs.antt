-- ===== src/Task/Store/Logs.antt =====
-- packages/task-store-sqlite/src/index.ts: writes of bindings, run history, documents, messages,
-- events and idempotency records.
use proflow.Base.{
  ℕ, String, ◌+◌, Bool, not, ◌&&◌, ◌||◌, [], ◌∷◌, ◌++◌, Option, none, some, if◌then◌else◌, nat_eq,
  ◌==◌, any, length, put_row, upsert_row, text_key, pair_key,
}
use proflow.Task.Model.{TaskRoleBinding, NodeExecutionHistory, TaskDocument, TaskMessage, NewEvent}
use proflow.Task.Errors.{ok, err, internal}
use proflow.Task.Store.{
  Action, ⊤, IdempotencyRecord, binding_key, document_key, message_key, find_task, find_node,
  find_message, find_record,
}
use proflow.Task.Store.Rows.{is_some}

-- ON CONFLICT keeps the key and `created_at`.
abbrev pub set_binding : TaskRoleBinding → TaskRoleBinding → TaskRoleBinding
set_binding old v = record old {
  role_ref = v.role_ref;
  worker_ref = v.worker_ref;
  conversation_locator = v.conversation_locator;
  version = v.version;
  updated_at = v.updated_at;
}

unfoldable pub upsert_binding : TaskRoleBinding → Action ⊤
upsert_binding v db =
    if is_some (find_task v.task_id db)
    then ok
        (tt, record db { role_bindings = upsert_row binding_key set_binding v db.role_bindings })
    else err internal

-- UNIQUE(node_id, run_no).
abbrev pub same_run : String → ℕ → NodeExecutionHistory → Bool
same_run node_id run_no h = h.node_id == node_id && nat_eq h.run_no run_no

unfoldable pub insert_history : NodeExecutionHistory → Action ⊤
insert_history v db =
    if not (is_some (find_task v.task_id db))
      || not (is_some (find_node v.node_id db))
      || any (same_run v.node_id v.run_no) db.execution_history
    then err internal
    else ok (tt, record db { execution_history = db.execution_history ++ v ∷ [] })

abbrev pub set_document : TaskDocument → TaskDocument → TaskDocument
set_document old v = record old {
  source_node_id = v.source_node_id;
  file_path = v.file_path;
  content_hash = v.content_hash;
  updated_by_ref = v.updated_by_ref;
  updated_at = v.updated_at;
}

unfoldable pub upsert_document : TaskDocument → Action ⊤
upsert_document v db =
    if is_some (find_task v.task_id db)
    then ok (tt, record db { documents = upsert_row document_key set_document v db.documents })
    else err internal

unfoldable pub insert_message : TaskMessage → Action ⊤
insert_message v db =
    if is_some (find_message v.message_id db) || not (is_some (find_task v.task_id db))
    then err internal
    else ok (tt, record db { messages = db.messages ++ v ∷ [] })

abbrev pub set_message : TaskMessage → TaskMessage → TaskMessage
set_message old v = record old {
  status = v.status;
  acknowledged_by_ref = v.acknowledged_by_ref;
  acknowledged_at = v.acknowledged_at;
  resolution = v.resolution;
}

-- An UPDATE of no row is no error here.
abbrev update_message_from : Option TaskMessage → TaskMessage → Action ⊤
update_message_from none v db = ok (tt, db)
update_message_from (some old) v db =
    ok (tt, record db { messages = put_row message_key (set_message old v) db.messages })

unfoldable pub update_message : TaskMessage → Action ⊤
update_message v db = update_message_from (find_message v.message_id db) v db

-- No event is ever deleted on its own, so the AUTOINCREMENT id is the row's place.
unfoldable pub insert_event : NewEvent → Action ⊤
insert_event v db =
    if is_some (find_task v.task_id db)
    then ok (
      tt,
      record db {
        events = db.events ++ record { event_id = length db.events + 1; fields = v } ∷ [];
      },
    )
    else err internal

unfoldable pub insert_record : IdempotencyRecord → Action ⊤
insert_record v db =
    if is_some (find_record v.idempotency_key db)
    then err internal
    else ok (tt, record db { idempotency = db.idempotency ++ v ∷ [] })
