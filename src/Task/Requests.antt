-- ===== src/Task/Requests.antt =====
-- The inputs and the results of the commands (packages/task-orchestration/src/services.ts), and the
-- operation names (contracts.ts).
use proflow.Base.{String, ℕ, Bool, List, Option}
use proflow.Task.Model.{TaskWaitType, TaskGroup, TaskStatus, Task, NodeStatus, TaskMessage}
use proflow.Task.Environment.{Environment}

pub record Controls : Type 0 where
  pub actor_ref : String
  pub idempotency_key : String

pub record TaskControls : Type 0 where
  pub controls : Controls
  pub open controls use *
  pub task_id : String
  pub expected_task_version : ℕ

pub record NodeControls : Type 0 where
  pub task_controls : TaskControls
  pub open task_controls use *
  pub node_id : String
  pub expected_node_version : ℕ

pub record CreateGroupInput : Type 0 where
  pub controls : Controls
  pub open controls use *
  pub task_group_id : Option String
  pub title : String
  pub objective : Option String

pub record StartGroupInput : Type 0 where
  pub controls : Controls
  pub open controls use *
  pub task_group_id : String
  pub expected_group_version : ℕ

pub record PlanNodeInput : Type 0 where
  pub node_id : Option String
  pub title : String
  pub objective : String
  pub required_agent_package_ref : String
  pub input_documents : List String
  pub output_documents : List String

pub record InitialDocument : Type 0 where
  pub document_type : String
  pub content : String

pub record RoleBindingView : Type 0 where
  pub agent_package_ref : String
  pub role_ref : String
  pub worker_ref : Option String
  pub conversation_locator : Option String

-- `task_id` is filled in before the transaction, from the idempotency key where it is missing.
pub record CreateTaskInput : Type 0 where
  pub controls : Controls
  pub open controls use *
  pub task_id : String
  pub task_group_id : Option String
  pub sequence_no : Option ℕ
  pub title : String
  pub objective : String
  pub plan : List PlanNodeInput
  pub initial_documents : List InitialDocument
  pub role_bindings : List RoleBindingView

pub record BindInput : Type 0 where
  pub task_controls : TaskControls
  pub open task_controls use *
  pub agent_package_ref : String
  pub role_ref : String
  pub worker_ref : String
  pub conversation_locator : String

pub record ReasonInput : Type 0 where
  pub task_controls : TaskControls
  pub open task_controls use *
  pub reason : String

pub record CompleteInput : Type 0 where
  pub node_controls : NodeControls
  pub open node_controls use *
  pub result_summary : String

pub record WaitInput : Type 0 where
  pub node_controls : NodeControls
  pub open node_controls use *
  pub wait_type : TaskWaitType
  pub reason_code : String
  pub message : String
  pub related_ref : Option String

pub record FailInput : Type 0 where
  pub node_controls : NodeControls
  pub open node_controls use *
  pub error_code : String
  pub error_message : String
  pub retryable : Bool

pub record ReopenInput : Type 0 where
  pub task_controls : TaskControls
  pub open task_controls use *
  pub node_id : String
  pub reason : String

pub record AckInput : Type 0 where
  pub controls : Controls
  pub open controls use *
  pub message_id : String
  pub resolution : Option String

-- `size_bytes` is `Buffer.byteLength(content)`.
pub record PutDocumentInput : Type 0 where
  pub task_controls : TaskControls
  pub open task_controls use *
  pub node_id : Option String
  pub document_type : String
  pub content : String
  pub size_bytes : ℕ

-- The commands that run in `command`, with their validated inputs.
pub data Request : Type 0 where
  create_task_group : CreateGroupInput → Request
  start_task_group : StartGroupInput → Request
  create_task : CreateTaskInput → Request
  bind_task_worker : BindInput → Request
  start_task : TaskControls → Request
  pause_task : ReasonInput → Request
  resume_task : TaskControls → Request
  terminate_task : ReasonInput → Request
  start_node : NodeControls → Request
  complete_node : CompleteInput → Request
  wait_node : WaitInput → Request
  fail_node : FailInput → Request
  reopen_node : ReopenInput → Request
  acknowledge_message : AckInput → Request
  put_task_document : PutDocumentInput → Request

pub record NodeView : Type 0 where
  pub node_id : String
  pub title : String
  pub status : NodeStatus
  pub run_no : ℕ
  pub required_agent_package_ref : String
  pub worker_ref : Option String
  pub version : ℕ

pub record TaskView : Type 0 where
  pub task_id : String
  pub task_group_id : Option String
  pub sequence_no : Option ℕ
  pub title : String
  pub objective : String
  pub status : TaskStatus
  pub version : ℕ
  pub plan_version : ℕ
  pub current_node_id : Option String
  pub role_bindings : List RoleBindingView
  pub nodes : List NodeView
  pub pending_messages : List TaskMessage
  pub ready : Bool

pub record NodeResult : Type 0 where
  pub task_id : String
  pub node_id : String
  pub status : NodeStatus
  pub run_no : ℕ
  pub worker_ref : Option String
  pub task_version : ℕ
  pub node_version : ℕ
  pub started_at : Option String

pub record CreateTaskResult : Type 0 where
  pub task_id : String
  pub task_group_id : Option String
  pub status : TaskStatus
  pub version : ℕ
  pub plan_version : ℕ
  pub current_node_id : Option String
  pub role_bindings : List RoleBindingView

pub record BindTaskWorkerResult : Type 0 where
  pub task_id : String
  pub version : ℕ
  pub role_binding : RoleBindingView

pub record CompleteNodeResult : Type 0 where
  pub node_id : String
  pub run_no : ℕ
  pub completed_at : String
  pub task_status : TaskStatus
  pub task_version : ℕ
  pub next_node_id : Option String

pub record DocumentResult : Type 0 where
  pub task_id : String
  pub node_id : Option String
  pub document_type : String
  pub path : String
  pub content_hash : String
  pub size_bytes : ℕ
  pub task_version : ℕ
  pub updated_at : String

pub data Response : Type 0 where
  group : TaskGroup → Response
  started_group : TaskGroup → (first_eligible_task_id : Option String) → Response
  created : CreateTaskResult → Response
  bound : BindTaskWorkerResult → Response
  view : TaskView → Response
  task : Task → Response
  node : NodeResult → Response
  completed : CompleteNodeResult → Response
  reopened : NodeResult → (current_node_id : String) → Response
  message : TaskMessage → Response
  document : DocumentResult → Response

abbrev pub Env : Type 0
Env = Environment Request Response
