-- ===== src/Task/Samples.antt =====
-- Concrete rows, requests and an environment for the examples: Task "T1" runs node "N1", Task "T2"
-- is READY, and Task "T0" has SUCCEEDED.
use proflow.Base.{String, ℕ, true, Option, none, some, List, [], ◌∷◌}
use proflow.Task.Model.{
  TaskStatus, Task, NodeStatus, TaskNode, TaskRoleBinding, TaskDocument, product_package,
  controller_package, test_ops_package,
}
use proflow.Task.Requests.{
  Env, Controls, TaskControls, NodeControls, BindInput, ReasonInput, CompleteInput, WaitInput,
  FailInput, AckInput, PlanNodeInput, CreateTaskInput, Request, Response,
}
use proflow.Task.Model.{TaskWaitType, MessageStatus, TaskMessage}
use proflow.Task.Store.{Db}
use proflow.Task.Command.{DocumentPath}

abbrev pub sample_task : String → TaskStatus → Option String → Task
sample_task id status current = record {
  task_id = id;
  task_group_id = none;
  sequence_no = none;
  title = "title";
  objective = "objective";
  status = status;
  version = 3;
  plan_version = 1;
  current_node_id = current;
  created_by_ref = "user:1";
  created_at = "2026-01-01";
  started_at = none;
  completed_at = none;
  updated_at = "2026-01-02";
}

abbrev pub sample_node : String → String → NodeStatus → Option String → TaskNode
sample_node id task_id status worker = record {
  node_id = id;
  task_id = task_id;
  sequence_no = 1;
  title = "node";
  objective = "objective";
  status = status;
  version = 2;
  run_no = 1;
  required_agent_package_ref = controller_package;
  worker_ref = worker;
  input_documents = [];
  output_documents = "TEST_REPORT" ∷ [];
  result_summary = none;
  error_code = none;
  error_message = none;
  error_retryable = none;
  started_at = none;
  completed_at = none;
  updated_at = "2026-01-02";
}

abbrev pub sample_binding :
    String → String → String → Option String → Option String → TaskRoleBinding
sample_binding task_id agent role worker conversation = record {
  task_id = task_id;
  agent_package_ref = agent;
  role_ref = role;
  worker_ref = worker;
  conversation_locator = conversation;
  version = 1;
  created_at = "2026-01-01";
  updated_at = "2026-01-01";
}

abbrev pub sample_document : String → String → String → String → TaskDocument
sample_document task_id type path hash = record {
  task_id = task_id;
  document_type = type;
  source_node_id = none;
  file_path = path;
  content_hash = hash;
  updated_by_ref = "user:1";
  updated_at = "2026-01-01";
}

abbrev pub done_task : Task
done_task = sample_task "T0" TaskStatus.succeeded none

abbrev pub active_task : Task
active_task = sample_task "T1" TaskStatus.active (some "N1")

abbrev pub ready_task : Task
ready_task = sample_task "T2" TaskStatus.ready none

abbrev pub ready_node : TaskNode
ready_node = sample_node "N1" "T1" NodeStatus.ready none

abbrev pub running_node : TaskNode
running_node = sample_node "N1" "T1" NodeStatus.in_progress (some "w1")

abbrev pub first_node : TaskNode
first_node = sample_node "N2" "T2" NodeStatus.pending none

abbrev pub worker_binding : TaskRoleBinding
worker_binding = sample_binding "T1" controller_package "dev" (some "w1") (some "c1")

abbrev pub open_binding : TaskRoleBinding
open_binding = sample_binding "T1" product_package "product" none none

abbrev empty : Db
empty = record {
  task_groups = [];
  tasks = [];
  nodes = [];
  role_bindings = [];
  execution_history = [];
  documents = [];
  messages = [];
  events = [];
  idempotency = [];
}

-- Before `startNode`, `startTask` and `bindTaskWorker`.
abbrev pub before_run : Db
before_run = record empty {
  tasks = done_task ∷ active_task ∷ ready_task ∷ [];
  nodes = ready_node ∷ first_node ∷ [];
  role_bindings =
      worker_binding
      ∷ open_binding
      ∷ sample_binding "T2" product_package "product" (some "w2") (some "c2")
      ∷ sample_binding "T2" controller_package "dev" (some "w3") (some "c3")
      ∷ sample_binding "T2" test_ops_package "test" (some "w4") (some "c4")
      ∷ [];
  documents = sample_document "T2" "REQUIREMENT" "T2.md" "sha256:content" ∷ [];
}

-- During the run of "N1", with its output in place.
abbrev pub in_run : Db
in_run = record empty {
  tasks = done_task ∷ active_task ∷ [];
  nodes = running_node ∷ [];
  role_bindings = worker_binding ∷ [];
  documents = sample_document "T1" "TEST_REPORT" "report.md" "sha256:content" ∷ [];
}

-- SHA-256 is the identity here, every file has the text "content", all requests have one
-- fingerprint, and the parser knows one response.
abbrev pub sample_env : Response → Env
sample_env r = record {
  now = "2026-01-03";
  create_id = λ kind number. kind;
  sha256 = λ s. s;
  file = λ path. some "content";
  fingerprint = λ request. "fingerprint";
  stringify = λ _. "response";
  parse = λ _. r;
}

abbrev pub sample_path : DocumentPath
sample_path task_id type = task_id

abbrev pub by : String → String → Controls
by actor key = record { actor_ref = actor; idempotency_key = key }

abbrev pub on_task : String → ℕ → TaskControls
on_task id version = record {
  controls = by "user:1" "key-1";
  task_id = id;
  expected_task_version = version;
}

abbrev pub on_node : NodeControls
on_node = record {
  task_controls = record {
    controls = by "worker:w1" "key-1";
    task_id = "T1";
    expected_task_version = 3;
  };
  node_id = "N1";
  expected_node_version = 2;
}

abbrev pub bind_input : BindInput
bind_input = record {
  task_controls = on_task "T1" 3;
  agent_package_ref = product_package;
  role_ref = "product";
  worker_ref = "w9";
  conversation_locator = "c9";
}

abbrev pub reason_input : ReasonInput
reason_input = record { task_controls = on_task "T1" 3; reason = "reason" }

abbrev pub complete_input : CompleteInput
complete_input = record { node_controls = on_node; result_summary = "done" }

abbrev pub wait_input : WaitInput
wait_input = record {
  node_controls = on_node;
  wait_type = TaskWaitType.business_confirmation;
  reason_code = "REASON";
  message = "message";
  related_ref = none;
}

abbrev pub fail_input : FailInput
fail_input = record {
  node_controls = on_node;
  error_code = "ERROR";
  error_message = "message";
  retryable = true;
}

abbrev pub pause_request : Request
pause_request = Request.pause_task reason_input

-- What `pauseTask` writes and answers.
abbrev pub paused_task : Task
paused_task = record active_task {
  status = TaskStatus.paused;
  version = 4;
  updated_at = "2026-01-03";
}

abbrev pub pause_env : Env
pause_env = sample_env (Response.task paused_task)

abbrev pub stop_request : Request
stop_request = Request.terminate_task reason_input

-- A request that names an earlier version, under a key of its own.
abbrev pub early_claim : TaskControls
early_claim = record { controls = by "user:2" "key-2"; task_id = "T1"; expected_task_version = 2 }

abbrev pub early_request : Request
early_request = Request.pause_task (record { task_controls = early_claim; reason = "reason" })

abbrev pub steps : List (Env × Request)
steps = (pause_env, pause_request) ∷ []

-- A document for the Task that has SUCCEEDED.
abbrev pub put_request : Request
put_request = Request.put_task_document (record {
  task_controls = record {
    controls = by "user:3" "key-3";
    task_id = "T0";
    expected_task_version = 3;
  };
  node_id = none;
  document_type = "PRD";
  content = "content";
  size_bytes = 7;
})

abbrev pub put_steps : List (Env × Request)
put_steps = (pause_env, put_request) ∷ []

abbrev pub waiting_task : Task
waiting_task = sample_task "T3" TaskStatus.waiting (some "N3")

abbrev pub sample_message : TaskMessage
sample_message = record {
  message_id = "M1";
  task_id = "T3";
  node_id = some "N4";
  message_type = TaskWaitType.requirement_blocked;
  reason_code = "REASON";
  message = "message";
  related_ref = none;
  status = MessageStatus.pending;
  created_by_ref = "worker:w1";
  created_at = "2026-01-02";
  acknowledged_by_ref = none;
  acknowledged_at = none;
  resolution = none;
}

-- Task "T3" waits at node "N3", and a message about another node is pending.
abbrev pub in_wait : Db
in_wait = record empty {
  tasks = waiting_task ∷ [];
  nodes = sample_node "N3" "T3" NodeStatus.waiting (some "w1") ∷ [];
  messages = sample_message ∷ [];
}

abbrev pub ack_input : AckInput
ack_input = record { controls = by "user:1" "key-3"; message_id = "M1"; resolution = some "agreed" }

abbrev pub ack_again : AckInput
ack_again = record { controls = by "user:2" "key-4"; message_id = "M1"; resolution = none }

abbrev sample_item : String → PlanNodeInput
sample_item id = record {
  node_id = some id;
  title = "node";
  objective = "objective";
  required_agent_package_ref = controller_package;
  input_documents = [];
  output_documents = [];
}

abbrev pub create_input : CreateTaskInput
create_input = record {
  controls = by "user:1" "key-5";
  task_id = "T5";
  task_group_id = none;
  sequence_no = none;
  title = "title";
  objective = "objective";
  plan = sample_item "N5" ∷ sample_item "N6" ∷ [];
  initial_documents = record { document_type = "REQUIREMENT"; content = "content" } ∷ [];
  role_bindings =
      record {
        agent_package_ref = controller_package;
        role_ref = "dev";
        worker_ref = none;
        conversation_locator = none;
      }
      ∷ [];
}
