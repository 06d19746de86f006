-- ===== src/Task/Commands/Lifecycle.antt =====
-- `startTask`, `pauseTask`, `resumeTask` and `terminateTask`.
use proflow.Base.{
  ◌+◌, Bool, true, false, not, ◌&&◌, ◌||◌, List, [], ◌∷◌, Option, none, some, map, if◌then◌else◌,
  ◌==◌, option_eq, any, keep,
}
use proflow.Task.Model.{TaskStatus, Task, NodeStatus, TaskNode, TaskRoleBinding, TaskMessage}
use proflow.Task.Errors.{
  ok, err, ◌>>=◌, ◌>>◌, pure, gets, some_or_throw, throw_if, domain, blocked, BlockedReason,
  task_version_conflict, task_invalid_state, task_blocked, task_plan_empty, task_blocker_unresolved,
}
use proflow.Task.Requests.{Env, TaskControls, ReasonInput, RoleBindingView, NodeView, TaskView}
use proflow.Task.Store.{Db, Action, ⊤, find_node}
use proflow.Task.Store.Rows.{update_task, update_node}
use proflow.Task.Store.Lists.{list_nodes, list_bindings, list_pending}
use proflow.Task.Readiness.{is_terminal, is_ready, is_active, is_waiting, readiness_blocked_reason}
use proflow.Task.Steps.{
  require_task, check_version, for_each, preserve_run_history, is_node_waiting, is_node_failed,
  is_node_terminal,
}

abbrev pub binding_view : TaskRoleBinding → RoleBindingView
binding_view b = record {
  agent_package_ref = b.agent_package_ref;
  role_ref = b.role_ref;
  worker_ref = b.worker_ref;
  conversation_locator = b.conversation_locator;
}

abbrev node_view : TaskNode → NodeView
node_view n = record {
  node_id = n.node_id;
  title = n.title;
  status = n.status;
  run_no = n.run_no;
  required_agent_package_ref = n.required_agent_package_ref;
  worker_ref = n.worker_ref;
  version = n.version;
}

abbrev is_unblocked : Option BlockedReason → Bool
is_unblocked none = true
is_unblocked (some _) = false

unfoldable pub view : Env → Task → Db → TaskView
view env task db = record {
  task_id = task.task_id;
  task_group_id = task.task_group_id;
  sequence_no = task.sequence_no;
  title = task.title;
  objective = task.objective;
  status = task.status;
  version = task.version;
  plan_version = task.plan_version;
  current_node_id = task.current_node_id;
  role_bindings = map binding_view (list_bindings task.task_id db);
  nodes = map node_view (list_nodes task.task_id db);
  pending_messages = keep (λ m. m.task_id == task.task_id) (list_pending db);
  ready = is_ready task.status && is_unblocked (readiness_blocked_reason env db task);
}

abbrev refuse_blocked : Option BlockedReason → Action ⊤
refuse_blocked none db = ok (tt, db)
refuse_blocked (some r) db =
    err (record { code = task_blocked; retryable = false; details = blocked r })

abbrev pub first : List TaskNode → Option TaskNode
first [] = none
first (n ∷ _) = some n

unfoldable pub start_task : Env → TaskControls → Action TaskView
start_task env input = do
  task ← require_task input.task_id
  check_version task.version input.expected_task_version task_version_conflict
  throw_if (not (is_ready task.status)) (domain task_invalid_state)
  blocked_reason ← gets (λ db. readiness_blocked_reason env db task)
  refuse_blocked blocked_reason
  nodes ← gets (list_nodes task.task_id)
  head ← some_or_throw (first nodes) (domain task_plan_empty)
  update_node
      (record head { status = NodeStatus.ready; version = head.version + 1; updated_at = env.now })
  let updated = record task {
    status = TaskStatus.active;
    version = task.version + 1;
    current_node_id = some head.node_id;
    started_at = some env.now;
    updated_at = env.now;
  }
  update_task updated
  gets (view env updated)

unfoldable pub pause_task : Env → ReasonInput → Action Task
pause_task env input = do
  task ← require_task input.task_id
  check_version task.version input.expected_task_version task_version_conflict
  throw_if (not (is_active task.status || is_waiting task.status)) (domain task_invalid_state)
  let updated = record task {
    status = TaskStatus.paused;
    version = task.version + 1;
    updated_at = env.now;
  }
  update_task updated
  pure updated

abbrev is_paused : TaskStatus → Bool
is_paused TaskStatus.paused = true
is_paused _ = false

-- `task.currentNodeId ? tx.nodes.get(task.currentNodeId) : undefined`
abbrev pub current_node : Task → Db → Option TaskNode
current_node task db = elim task.current_node_id [
  | none ↦ none
  | some id ↦ if id == "" then none else find_node id db
]

abbrev status_is : (NodeStatus → Bool) → Option TaskNode → Bool
status_is test none = false
status_is test (some n) = test n.status

abbrev pub is_blocker : Task → TaskNode → TaskMessage → Bool
is_blocker task current m = m.task_id == task.task_id && option_eq m.node_id (some current.node_id)

-- The branch of `current?.status === "WAITING"`.
unfoldable pub resume_waiting : Env → Task → Option TaskNode → Action ⊤
resume_waiting env task none db = ok (tt, db)
resume_waiting env task (some current) db =
    if is_node_waiting current.status
    then if any (is_blocker task current) (list_pending db)
      then err (domain task_blocker_unresolved)
      else update_node
          (record current {
            status = NodeStatus.in_progress;
            version = current.version + 1;
            updated_at = env.now;
          })
          db
    else ok (tt, db)

unfoldable pub resume_task : Env → TaskControls → Action Task
resume_task env input = do
  task ← require_task input.task_id
  check_version task.version input.expected_task_version task_version_conflict
  throw_if (not (is_waiting task.status || is_paused task.status)) (domain task_invalid_state)
  current ← gets (current_node task)
  throw_if (is_waiting task.status && not (status_is is_node_waiting current))
      (domain task_invalid_state)
  throw_if (status_is is_node_failed current) (domain task_invalid_state)
  resume_waiting env task current
  let updated = record task {
    status = TaskStatus.active;
    version = task.version + 1;
    updated_at = env.now;
  }
  update_task updated
  pure updated

-- One round of the loop of `terminateTask`.
unfoldable pub terminate_node : Env → TaskNode → Action ⊤
terminate_node env item = if is_node_terminal item.status then (λ db. ok (tt, db)) else do
  preserve_run_history item NodeStatus.terminated env.now
  update_node (record item {
    status = NodeStatus.terminated;
    version = item.version + 1;
    completed_at = some env.now;
    updated_at = env.now;
  })

unfoldable pub terminate_task : Env → ReasonInput → Action Task
terminate_task env input = do
  task ← require_task input.task_id
  check_version task.version input.expected_task_version task_version_conflict
  throw_if (is_terminal task.status) (domain task_invalid_state)
  nodes ← gets (list_nodes task.task_id)
  for_each nodes (terminate_node env)
  let updated = record task {
    status = TaskStatus.terminated;
    version = task.version + 1;
    completed_at = some env.now;
    updated_at = env.now;
  }
  update_task updated
  pure updated
