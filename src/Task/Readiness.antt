-- ===== src/Task/Readiness.antt =====
-- `readinessBlockedReason`, `recomputeReadiness` and the status tests of
-- packages/task-orchestration/src/services.ts.
use proflow.Base.{
  String, ℕ, ◌+◌, Bool, true, false, not, ◌&&◌, List, [], ◌∷◌, Option, none, some, if◌then◌else◌,
  ltb, nat_eq, ◌==◌, any, find, length,
}
use proflow.Task.Model.{
  TaskGroupStatus, TaskStatus, TaskGroup, Task, TaskNode, TaskRoleBinding, TaskDocument,
  required_task_agent_package_refs,
}
use proflow.Task.Errors.{
  BlockedReason, task_requirement_required, task_document_index_mismatch,
  task_role_binding_required, task_node_agent_package_invalid, task_role_binding_incomplete,
  task_group_not_active, predecessor_not_succeeded, task_group_busy,
}
use proflow.Task.Environment.{content_hash}
use proflow.Task.Requests.{Env}
use proflow.Task.Store.{Db, find_group, find_document}
use proflow.Task.Store.Lists.{list_tasks_of, list_nodes, list_bindings}

-- ["SUCCEEDED", "TERMINATED"].includes(task.status)
abbrev pub is_terminal : TaskStatus → Bool
is_terminal TaskStatus.succeeded = true
is_terminal TaskStatus.terminated = true
is_terminal _ = false

abbrev pub is_succeeded : TaskStatus → Bool
is_succeeded TaskStatus.succeeded = true
is_succeeded _ = false

abbrev pub is_pending : TaskStatus → Bool
is_pending TaskStatus.pending = true
is_pending _ = false

abbrev pub is_ready : TaskStatus → Bool
is_ready TaskStatus.ready = true
is_ready _ = false

abbrev pub is_active : TaskStatus → Bool
is_active TaskStatus.active = true
is_active _ = false

abbrev pub is_waiting : TaskStatus → Bool
is_waiting TaskStatus.waiting = true
is_waiting _ = false

-- ["READY", "ACTIVE", "WAITING", "FAILED", "PAUSED"].includes(item.status)
abbrev pub is_open : TaskStatus → Bool
is_open TaskStatus.pending = false
is_open TaskStatus.succeeded = false
is_open TaskStatus.terminated = false
is_open _ = true

abbrev pub is_group_active : Option TaskGroup → Bool
is_group_active none = false
is_group_active (some g) = elim g.status [ TaskGroupStatus.active ↦ true | _ ↦ false ]

-- `sequenceNo ?? 0`
abbrev pub place : Option ℕ → ℕ
place none = 0
place (some n) = n

-- An early return that yields `none` goes on.
infixr 20 ◌or_else◌
abbrev pub ◌or_else◌ : Option BlockedReason → Option BlockedReason → Option BlockedReason
(some r) or_else next = some r
none or_else next = next

unfoldable pub requirement_block : Env → Option TaskDocument → Option BlockedReason
requirement_block env none = some task_requirement_required
requirement_block env (some d) = elim (env.file d.file_path) [
  | none ↦ some task_requirement_required
  | some content ↦
      if content_hash env content == d.content_hash then none else some task_document_index_mismatch
]

abbrev pub incomplete : Option TaskRoleBinding → Option BlockedReason
incomplete none = some task_role_binding_required
incomplete (some b) = elim b.worker_ref [
  | none ↦ some task_role_binding_incomplete
  | some _ ↦ elim b.conversation_locator [
    | none ↦ some task_role_binding_incomplete
    | some _ ↦ none
  ]
]

-- The loop over the required packages.
unfoldable pub binding_block : List TaskRoleBinding → List String → Option BlockedReason
binding_block bindings [] = none
binding_block bindings (ref ∷ refs) =
    incomplete (find (λ b. b.agent_package_ref == ref) bindings) or_else binding_block bindings refs

unfoldable pub package_block : List TaskRoleBinding → List TaskNode → Option BlockedReason
package_block bindings nodes =
    if not (nat_eq (length bindings) (length required_task_agent_package_refs))
    then some task_role_binding_required
    else if any
        (λ n.
          not (any (λ ref. n.required_agent_package_ref == ref) required_task_agent_package_refs))
        nodes
    then some task_node_agent_package_invalid
    else binding_block bindings required_task_agent_package_refs

abbrev pub precedes_unfinished : Task → Task → Bool
precedes_unfinished task item =
    ltb (place item.sequence_no) (place task.sequence_no) && not (is_succeeded item.status)

abbrev pub is_busy_sibling : Task → Task → Bool
is_busy_sibling task item = not (item.task_id == task.task_id) && is_open item.status

unfoldable pub group_block : Db → Task → Option String → Option BlockedReason
group_block db task none = none
group_block db task (some g) =
    if not (is_group_active (find_group g db))
    then some task_group_not_active
    else if any (precedes_unfinished task) (list_tasks_of g db)
    then some predecessor_not_succeeded
    else if any (is_busy_sibling task) (list_tasks_of g db)
    then some task_group_busy
    else none

unfoldable pub readiness_blocked_reason : Env → Db → Task → Option BlockedReason
readiness_blocked_reason env db task =
    requirement_block env (find_document task.task_id "REQUIREMENT" db)
    or_else package_block (list_bindings task.task_id db) (list_nodes task.task_id db)
    or_else group_block db task task.task_group_id

unfoldable pub recompute_readiness : Env → Db → Task → Task
recompute_readiness env db task =
    if is_pending task.status
    then elim (readiness_blocked_reason env db task) [
      | some _ ↦ task
      | none ↦ record task {
        status = TaskStatus.ready;
        version = task.version + 1;
        updated_at = env.now;
      }
    ]
    else task
