-- ===== src/Task/Queries.antt =====
-- `getTaskGroup`, `listTasks`, `getTask`, `getTaskDriveProjection`, `listPendingMessages` and
-- `listTaskEvents` of packages/task-orchestration/src/services.ts.
use proflow.Base.{
  String, ℕ, Bool, true, false, not, ◌&&◌, List, [], ◌∷◌, Option, none, some, map, if◌then◌else◌,
  ltb, nat_eq, ◌==◌, truthy, any, find, keep, take,
}
use proflow.Task.Model.{
  TaskStatus, TaskGroup, Task, NodeStatus, TaskNode, TaskRoleBinding, TaskMessage, EventType,
  TaskEvent,
}
use proflow.Task.Errors.{
  ◌>>=◌, pure, gets, some_or_throw, domain, task_group_not_found, BlockedReason, task_not_ready,
}
use proflow.Task.Requests.{Env, RoleBindingView, TaskView}
use proflow.Task.Store.{Db, Action, find_group, find_binding}
use proflow.Task.Store.Lists.{list_tasks_all, list_tasks_of, list_pending, list_events}
use proflow.Task.Readiness.{is_terminal, is_ready, is_active, is_open, readiness_blocked_reason}
use proflow.Task.Steps.{require_task, is_node_ready, is_in_progress}
use proflow.Task.Commands.Groups.{same_status}
use proflow.Task.Commands.Lifecycle.{view, current_node, binding_view}

pub record GroupView : Type 0 where
  pub group : TaskGroup
  pub current_task_id : Option String
  pub tasks : List Task

abbrev task_id_of : Option Task → Option String
task_id_of none = none
task_id_of (some t) = some t.task_id

unfoldable pub get_task_group : String → Action GroupView
get_task_group id = do
  group ← some_or_throw (← gets (find_group id)) (domain task_group_not_found)
  tasks ← gets (list_tasks_of group.task_group_id)
  pure (record {
    group = group;
    current_task_id = task_id_of (find (λ (t : Task). is_open t.status) tasks);
    tasks = tasks;
  })

pub record TaskSummary : Type 0 where
  pub task : Task
  pub can_start : Bool
  pub blocked_reason : Option BlockedReason

abbrev pub is_none : Option BlockedReason → Bool
is_none none = true
is_none (some _) = false

-- `if (item.status !== "READY" && blockedReason === null) blockedReason = "TASK_NOT_READY"`
abbrev reason_of : Task → Option BlockedReason → Option BlockedReason
reason_of item (some r) = some r
reason_of item none = if is_ready item.status then none else some task_not_ready

unfoldable pub summary : Env → Db → Task → TaskSummary
summary env db item =
    let reason = reason_of item (readiness_blocked_reason env db item) in
    record {
      task = item;
      can_start = is_ready item.status && is_none reason;
      blocked_reason = reason;
    }

abbrev has_status : Option (List TaskStatus) → Task → Bool
has_status none item = true
has_status (some statuses) item = any (λ s. same_status s item.status) statuses

abbrev tasks_in : Option String → Db → List Task
tasks_in none db = list_tasks_all db
tasks_in (some g) db = list_tasks_of g db

unfoldable pub list_tasks : Env → Option String → Option (List TaskStatus) → Db → List TaskSummary
list_tasks env group_id statuses db =
    map (summary env db) (keep (has_status statuses) (tasks_in group_id db))

unfoldable pub get_task : Env → String → Action TaskView
get_task env id = do task ← require_task id; gets (view env task)

pub data DriveBlock : Type 0 where
  task_plan_empty node_not_ready task_role_binding_required : DriveBlock

pub record DriveNode : Type 0 where
  pub node_id : String
  pub status : NodeStatus
  pub version : ℕ
  pub run_no : ℕ
  pub required_agent_package_ref : String

-- `resumeSignalRef` is `task-event:` and the event's id in decimal; the id is kept.
pub record DriveProjection : Type 0 where
  pub task_id : String
  pub task_status : TaskStatus
  pub task_version : ℕ
  pub terminal : Bool
  pub current_node : Option DriveNode
  pub role_binding : Option RoleBindingView
  pub can_drive : Bool
  pub blocked_reason : Option DriveBlock
  pub resume_signal : Option ℕ

abbrev pub drive_node : Option TaskNode → Option DriveNode
drive_node none = none
drive_node (some n) = some (record {
  node_id = n.node_id;
  status = n.status;
  version = n.version;
  run_no = n.run_no;
  required_agent_package_ref = n.required_agent_package_ref;
})

abbrev role_view : Option TaskRoleBinding → Option RoleBindingView
role_view none = none
role_view (some b) = some (binding_view b)

abbrev pub worker_of : Option TaskRoleBinding → Option String
worker_of none = none
worker_of (some b) = b.worker_ref

abbrev pub binding_for : Task → Option TaskNode → Db → Option TaskRoleBinding
binding_for task none db = none
binding_for task (some n) db = find_binding task.task_id n.required_agent_package_ref db

abbrev drive_block_at : Option TaskNode → Option TaskRoleBinding → Option DriveBlock
drive_block_at none b = some task_plan_empty
drive_block_at (some n) b =
    if not (is_node_ready n.status)
    then some node_not_ready
    else if not (truthy (worker_of b))
    then some task_role_binding_required
    else none

unfoldable pub drive_block : Bool → Option TaskNode → Option TaskRoleBinding → Option DriveBlock
drive_block terminal node binding = if terminal then none else drive_block_at node binding

abbrev is_resumed : EventType → Bool
is_resumed EventType.task_resumed = true
is_resumed _ = false

abbrev is_resume_of : Task → TaskEvent → Bool
is_resume_of task e =
    is_resumed e.event_type && elim e.task_version [ none ↦ false | some v ↦ nat_eq v task.version ]

-- The loop keeps the last event that fits.
last_resume : Task → Option ℕ → List TaskEvent → Option ℕ
last_resume task found [] = found
last_resume task found (e ∷ es) =
    last_resume task (if is_resume_of task e then some e.event_id else found) es

abbrev runs : Option TaskNode → Bool
runs none = false
runs (some n) = is_in_progress n.status

unfoldable pub resume_signal : Task → Option TaskNode → Db → Option ℕ
unfolding last_resume
resume_signal task node db =
    if is_active task.status && runs node
    then last_resume task none (list_events task.task_id db)
    else none

abbrev unblocked : Option DriveBlock → Bool
unblocked none = true
unblocked (some _) = false

unfoldable pub projection : Task → Db → DriveProjection
projection task db =
    let node = current_node task db in
    let binding = binding_for task node db in
    let terminal = is_terminal task.status in
    let block = drive_block terminal node binding in
    record {
      task_id = task.task_id;
      task_status = task.status;
      task_version = task.version;
      terminal = terminal;
      current_node = drive_node node;
      role_binding = role_view binding;
      can_drive = not terminal && unblocked block;
      blocked_reason = block;
      resume_signal = resume_signal task node db;
    }

unfoldable pub get_task_drive_projection : String → Action DriveProjection
get_task_drive_projection id = do task ← require_task id; gets (projection task)

-- `!input.taskId || item.taskId === input.taskId`
abbrev wanted : Option String → TaskMessage → Bool
wanted none m = true
wanted (some id) m = if id == "" then true else m.task_id == id

unfoldable pub list_pending_messages : Option String → Db → List TaskMessage
list_pending_messages id db = keep (wanted id) (list_pending db)

abbrev after : Option ℕ → TaskEvent → Bool
after none e = true
after (some n) e = ltb n e.event_id

abbrev limit_of : Option ℕ → ℕ
limit_of none = 100
limit_of (some n) = n

unfoldable pub list_task_events : String → Option ℕ → Option ℕ → Db → List TaskEvent
list_task_events task_id after_event_id limit db =
    take (limit_of limit) (keep (after after_event_id) (list_events task_id db))
