-- ===== src/Task/Commands/Create.antt =====
-- `createTask`: the transaction. The documents' staging before it and promotion after it are not
-- part of this file. `document_path` is `relativeDocumentPath`.
use proflow.Base.{
  String, ℕ, ◌+◌, Bool, false, not, List, [], ◌∷◌, Option, none, some, if◌then◌else◌, ◌==◌,
}
use proflow.Task.Model.{TaskStatus, Task, NodeStatus, TaskNode, EventType, NewEvent}
use proflow.Task.Errors.{
  ok, ◌>>=◌, ◌>>◌, pure, gets, throw_if, domain, task_already_exists, task_group_not_found,
}
use proflow.Task.Environment.{content_hash}
use proflow.Task.Requests.{
  Env, PlanNodeInput, InitialDocument, RoleBindingView, CreateTaskInput, CreateTaskResult,
}
use proflow.Task.Store.{Db, Action, ⊤, find_group, find_task}
use proflow.Task.Store.Rows.{is_some, insert_task, insert_node}
use proflow.Task.Store.Logs.{upsert_binding, upsert_document, insert_event}
use proflow.Task.Steps.{for_each}

-- `validated.taskGroupId && !tx.taskGroups.get(validated.taskGroupId)`
abbrev missing_group : Option String → Db → Bool
missing_group none db = false
missing_group (some id) db = if id == "" then false else not (is_some (find_group id db))

-- `item.nodeId ?? createId("node")`
abbrev given : Option String → String → String
given none fresh = fresh
given (some id) fresh = id

abbrev pub planned_node : Env → String → ℕ → PlanNodeInput → TaskNode
planned_node env task_id sequence_no item = record {
  node_id = given item.node_id (env.create_id "node" sequence_no);
  task_id = task_id;
  sequence_no = sequence_no;
  title = item.title;
  objective = item.objective;
  status = NodeStatus.pending;
  version = 1;
  run_no = 1;
  required_agent_package_ref = item.required_agent_package_ref;
  worker_ref = none;
  input_documents = item.input_documents;
  output_documents = item.output_documents;
  result_summary = none;
  error_code = none;
  error_message = none;
  error_retryable = none;
  started_at = none;
  completed_at = none;
  updated_at = env.now;
}

-- The loop over the plan; `index` counts from 0.
unfoldable pub insert_plan : Env → String → ℕ → List PlanNodeInput → Action ⊤
insert_plan env task_id index [] = λ db. ok (tt, db)
insert_plan env task_id index (item ∷ items) = do
  insert_node (planned_node env task_id (index + 1) item)
  insert_plan env task_id (index + 1) items

unfoldable pub insert_role_binding : Env → String → RoleBindingView → Action ⊤
insert_role_binding env task_id item = upsert_binding (record {
  task_id = task_id;
  agent_package_ref = item.agent_package_ref;
  role_ref = item.role_ref;
  worker_ref = item.worker_ref;
  conversation_locator = item.conversation_locator;
  version = 1;
  created_at = env.now;
  updated_at = env.now;
})

unfoldable pub index_document :
    Env → (String → String → String) → CreateTaskInput → InitialDocument → Action ⊤
index_document env document_path input item = upsert_document (record {
  task_id = input.task_id;
  document_type = item.document_type;
  source_node_id = none;
  file_path = document_path input.task_id item.document_type;
  content_hash = content_hash env item.content;
  updated_by_ref = input.actor_ref;
  updated_at = env.now;
})

abbrev pub new_task : Env → CreateTaskInput → Task
new_task env input = record {
  task_id = input.task_id;
  task_group_id = input.task_group_id;
  sequence_no = input.sequence_no;
  title = input.title;
  objective = input.objective;
  status = TaskStatus.pending;
  version = 1;
  plan_version = 1;
  current_node_id = none;
  created_by_ref = input.actor_ref;
  created_at = env.now;
  started_at = none;
  completed_at = none;
  updated_at = env.now;
}

abbrev pub created_event : Env → CreateTaskInput → NewEvent
created_event env input = record {
  task_id = input.task_id;
  node_id = none;
  event_type = EventType.task_created;
  actor_ref = input.actor_ref;
  task_version = some 1;
  node_version = none;
  payload = none;
  created_at = env.now;
}

-- The rows that go with the Task's: its plan, bindings, documents and first event.
unfoldable pub create_rows : Env → (String → String → String) → CreateTaskInput → Action ⊤
create_rows env document_path input = do
  insert_plan env input.task_id 0 input.plan
  for_each input.role_bindings (insert_role_binding env input.task_id)
  for_each input.initial_documents (index_document env document_path input)
  insert_event (created_event env input)

unfoldable pub create_task :
    Env → (String → String → String) → CreateTaskInput → Action CreateTaskResult
create_task env document_path input = do
  throw_if (is_some (← gets (find_task input.task_id))) (domain task_already_exists)
  throw_if (← gets (missing_group input.task_group_id)) (domain task_group_not_found)
  let value = new_task env input
  insert_task value
  create_rows env document_path input
  pure (record {
    task_id = value.task_id;
    task_group_id = value.task_group_id;
    status = value.status;
    version = value.version;
    plan_version = value.plan_version;
    current_node_id = value.current_node_id;
    role_bindings = input.role_bindings;
  })
