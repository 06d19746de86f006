-- ===== src/Task/Store/Lists.antt =====
-- packages/task-store-sqlite/src/index.ts: the SELECTs that list rows, with their ORDER BY.
use proflow.Base.{
  ℕ, String, Bool, true, false, ◌&&◌, ◌||◌, List, Option, none, some, ltb, nat_eq, ◌==◌, option_eq,
  option_lt, option_nat_eq, text_lt, keep, sort_by,
}
use proflow.Task.Model.{
  Task, TaskNode, TaskRoleBinding, NodeExecutionHistory, MessageStatus, TaskMessage, TaskEvent,
}
use proflow.Task.Store.{Db}

abbrev coalesce : Option ℕ → ℕ
coalesce none = 2147483647
coalesce (some n) = n

-- ORDER BY COALESCE(sequence_no, 2147483647), created_at, task_id
abbrev before : Task → Task → Bool
before a b =
    ltb (coalesce a.sequence_no) (coalesce b.sequence_no)
    || nat_eq (coalesce a.sequence_no) (coalesce b.sequence_no)
      && (text_lt a.created_at b.created_at
          || a.created_at == b.created_at && text_lt a.task_id b.task_id)

unfoldable pub list_tasks_all : Db → List Task
list_tasks_all db = sort_by before db.tasks

-- ORDER BY sequence_no, task_id
abbrev pub before_in_group : Task → Task → Bool
before_in_group a b =
    option_lt a.sequence_no b.sequence_no
    || option_nat_eq a.sequence_no b.sequence_no && text_lt a.task_id b.task_id

unfoldable pub list_tasks_of : String → Db → List Task
list_tasks_of group_id db =
    sort_by before_in_group (keep (λ t. option_eq t.task_group_id (some group_id)) db.tasks)

-- ORDER BY sequence_no, node_id
abbrev pub node_before : TaskNode → TaskNode → Bool
node_before a b =
    ltb a.sequence_no b.sequence_no
    || nat_eq a.sequence_no b.sequence_no && text_lt a.node_id b.node_id

unfoldable pub list_nodes : String → Db → List TaskNode
list_nodes task_id db = sort_by node_before (keep (λ n. n.task_id == task_id) db.nodes)

unfoldable pub list_bindings : String → Db → List TaskRoleBinding
list_bindings task_id db =
    sort_by (λ a b. text_lt a.agent_package_ref b.agent_package_ref)
      (keep (λ b. b.task_id == task_id) db.role_bindings)

-- Rows stand in the order of their ids.
unfoldable pub list_history : String → Db → List NodeExecutionHistory
list_history task_id db = keep (λ h. h.task_id == task_id) db.execution_history

abbrev pub is_pending : MessageStatus → Bool
is_pending MessageStatus.pending = true
is_pending MessageStatus.acknowledged = false

unfoldable pub list_pending : Db → List TaskMessage
list_pending db =
    sort_by
      (λ a b.
        text_lt a.created_at b.created_at
        || a.created_at == b.created_at && text_lt a.message_id b.message_id)
      (keep (λ m. is_pending m.status) db.messages)

unfoldable pub list_events : String → Db → List TaskEvent
list_events task_id db = keep (λ e. e.task_id == task_id) db.events
