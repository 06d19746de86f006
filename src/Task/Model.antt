-- ===== src/Task/Model.antt =====
-- packages/task-orchestration/src/model.ts: the durable records of a Task. `null` is `none`.
-- Identifiers, references and time stamps are texts; versions and sequence numbers are naturals.
use proflow.Base.{String, ℕ, Bool, List, [], ◌∷◌, Option}

-- The three agent packages that every Task binds.
abbrev pub product_package : String
product_package = "@tomflow/proflow-agent-product"

abbrev pub controller_package : String
controller_package = "@tomflow/proflow-agent-controller-dev"

abbrev pub test_ops_package : String
test_ops_package = "@tomflow/proflow-agent-test-ops"

abbrev pub required_task_agent_package_refs : List String
required_task_agent_package_refs = product_package ∷ controller_package ∷ test_ops_package ∷ []

pub data TaskWaitType : Type 0 where
  business_confirmation requirement_blocked external_business_dependency : TaskWaitType

pub data TaskGroupStatus : Type 0 where
  ready active succeeded : TaskGroupStatus

pub data TaskStatus : Type 0 where
  pending ready active waiting failed paused succeeded terminated : TaskStatus

pub data NodeStatus : Type 0 where
  pending ready in_progress waiting failed succeeded terminated : NodeStatus

pub record TaskGroup : Type 0 where
  pub task_group_id : String
  pub title : String
  pub objective : Option String
  pub status : TaskGroupStatus
  pub max_active_tasks : ℕ
  pub version : ℕ
  pub created_by_ref : String
  pub created_at : String
  pub updated_at : String

pub record Task : Type 0 where
  pub task_id : String
  pub task_group_id : Option String
  pub sequence_no : Option ℕ
  pub title : String
  pub objective : String
  pub status : TaskStatus
  pub version : ℕ
  pub plan_version : ℕ
  pub current_node_id : Option String
  pub created_by_ref : String
  pub created_at : String
  pub started_at : Option String
  pub completed_at : Option String
  pub updated_at : String

pub record TaskNode : Type 0 where
  pub node_id : String
  pub task_id : String
  pub sequence_no : ℕ
  pub title : String
  pub objective : String
  pub status : NodeStatus
  pub version : ℕ
  pub run_no : ℕ
  pub required_agent_package_ref : String
  pub worker_ref : Option String
  pub input_documents : List String
  pub output_documents : List String
  pub result_summary : Option String
  pub error_code : Option String
  pub error_message : Option String
  pub error_retryable : Option Bool
  pub started_at : Option String
  pub completed_at : Option String
  pub updated_at : String

pub record TaskRoleBinding : Type 0 where
  pub task_id : String
  pub agent_package_ref : String
  pub role_ref : String
  pub worker_ref : Option String
  pub conversation_locator : Option String
  pub version : ℕ
  pub created_at : String
  pub updated_at : String

-- `executionId` is the row's place in the table.
pub record NodeExecutionHistory : Type 0 where
  pub task_id : String
  pub node_id : String
  pub run_no : ℕ
  pub worker_ref : Option String
  pub final_status : NodeStatus
  pub result_summary : Option String
  pub error_code : Option String
  pub error_message : Option String
  pub error_retryable : Option Bool
  pub input_documents : List String
  pub output_documents : List String
  pub started_at : Option String
  pub ended_at : String

pub record TaskDocument : Type 0 where
  pub task_id : String
  pub document_type : String
  pub source_node_id : Option String
  pub file_path : String
  pub content_hash : String
  pub updated_by_ref : String
  pub updated_at : String

pub data MessageStatus : Type 0 where
  pending acknowledged : MessageStatus

pub record TaskMessage : Type 0 where
  pub message_id : String
  pub task_id : String
  pub node_id : Option String
  pub message_type : TaskWaitType
  pub reason_code : String
  pub message : String
  pub related_ref : Option String
  pub status : MessageStatus
  pub created_by_ref : String
  pub created_at : String
  pub acknowledged_by_ref : Option String
  pub acknowledged_at : Option String
  pub resolution : Option String

pub data EventType : Type 0 where
  task_created task_role_bound task_started task_paused task_resumed task_terminated : EventType
  node_started node_completed node_waiting node_failed node_reopened : EventType
  message_acknowledged task_document_put : EventType

-- The payloads that the handlers write.
pub data Payload : Type 0 where
  reason : String → Payload
  message_id : String → Payload
  document_type : String → Payload

-- An event before the store numbers it (`event_id`, counted from 1).
pub record NewEvent : Type 0 where
  pub task_id : String
  pub node_id : Option String
  pub event_type : EventType
  pub actor_ref : String
  pub task_version : Option ℕ
  pub node_version : Option ℕ
  pub payload : Option Payload
  pub created_at : String

pub record TaskEvent : Type 0 where
  pub event_id : ℕ
  pub fields : NewEvent
  pub open fields use *
