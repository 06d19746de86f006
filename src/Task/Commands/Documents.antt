-- ===== src/Task/Commands/Documents.antt =====
-- `putTaskDocument`: the transaction. The replay and the staging of the Markdown file before it, its
-- promotion (`promoteDocument`) and the recovery after it change files alone and are not part of this
-- file; `env.file` is what readiness reads once the document is promoted.
use proflow.Base.{String, not, List, [], ◌∷◌, Option, none, some, ◌==◌, any}
use proflow.Task.Model.{Task, TaskDocument, EventType, Payload, NewEvent}
use proflow.Task.Errors.{
  ok, ◌>>=◌, ◌>>◌, pure, gets, throw_if, domain, task_version_conflict, document_type_not_allowed,
}
use proflow.Task.Environment.{content_hash}
use proflow.Task.Requests.{Env, PutDocumentInput, DocumentResult}
use proflow.Task.Store.{Action, ⊤}
use proflow.Task.Store.Rows.{update_task}
use proflow.Task.Store.Logs.{upsert_document, insert_event}
use proflow.Task.Readiness.{recompute_readiness}
use proflow.Task.Steps.{require_task, require_node, check_version}
use proflow.Task.Commands.Groups.{update_if_readied}
use proflow.Task.Commands.Bind.{touched}

abbrev allowed_document_types : List String
allowed_document_types =
    "REQUIREMENT" ∷ "PRD" ∷ "TECHNICAL_DESIGN" ∷ "TEST_PLAN" ∷ "TEST_RESULT" ∷ "RELEASE_RESULT" ∷ []

unfoldable pub ensure_type : String → Action ⊤
ensure_type value =
    throw_if (not (any (λ t. t == value) allowed_document_types)) (domain document_type_not_allowed)

-- `if (validated.nodeId !== null) requireNode(...)`
unfoldable pub check_node : String → Option String → Action ⊤
check_node task_id none = λ db. ok (tt, db)
check_node task_id (some node_id) = do node ← require_node task_id node_id; pure tt

abbrev pub put_document : Env → (String → String → String) → PutDocumentInput → Task → TaskDocument
put_document env document_path input task = record {
  task_id = task.task_id;
  document_type = input.document_type;
  source_node_id = input.node_id;
  file_path = document_path task.task_id input.document_type;
  content_hash = content_hash env input.content;
  updated_by_ref = input.actor_ref;
  updated_at = env.now;
}

abbrev pub put_event : Env → PutDocumentInput → Task → Task → NewEvent
put_event env input task readied = record {
  task_id = task.task_id;
  node_id = input.node_id;
  event_type = EventType.task_document_put;
  actor_ref = input.actor_ref;
  task_version = some readied.version;
  node_version = none;
  payload = some (Payload.document_type input.document_type);
  created_at = env.now;
}

-- The writes: the Task's row and the document's, and the readiness that follows from them.
unfoldable pub write_document :
    Env → (String → String → String) → PutDocumentInput → Task → Action Task
write_document env document_path input task = do
  let updated = touched env task
  update_task updated
  upsert_document (put_document env document_path input task)
  readied ← gets (λ db. recompute_readiness env db updated)
  update_if_readied updated readied
  insert_event (put_event env input task readied)
  pure readied

unfoldable pub put_task_document :
    Env → (String → String → String) → PutDocumentInput → Action DocumentResult
put_task_document env document_path input = do
  task ← require_task input.task_id
  check_version task.version input.expected_task_version task_version_conflict
  check_node task.task_id input.node_id
  ensure_type input.document_type
  readied ← write_document env document_path input task
  pure (record {
    task_id = task.task_id;
    node_id = input.node_id;
    document_type = input.document_type;
    path = document_path task.task_id input.document_type;
    content_hash = content_hash env input.content;
    size_bytes = input.size_bytes;
    task_version = readied.version;
    updated_at = env.now;
  })
