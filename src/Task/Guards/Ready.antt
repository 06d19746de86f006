-- ===== src/Task/Guards/Ready.antt =====
-- `readinessBlockedReason`: what a Task needs to have no reason against it.
use proflow.Base.{
  String, ◌<◌, ◌≡◌, ◌≢◌, ◌↔◌, ◌⊎◌, refl, not, false, List, [], ◌∷◌, Option, none, some, arith,
  Option-cases, inl, inr, ◌==◌, any, find, length, All, any-none, text_key, pair_key,
}
use proflow.Task.Model.{
  TaskGroup, TaskGroupStatus, TaskStatus, Task, TaskNode, TaskDocument, TaskRoleBinding,
  required_task_agent_package_refs, product_package, controller_package, test_ops_package,
}
use proflow.Task.Environment.{content_hash}
use proflow.Task.Requests.{Env}
use proflow.Task.Store.{Db, find_group, find_document}
use proflow.Task.Store.Lists.{list_tasks_of, list_nodes, list_bindings}
use proflow.Task.Readiness.{
  incomplete, is_open, place, requirement_block, binding_block, package_block, group_block,
  precedes_unfinished, is_busy_sibling, readiness_blocked_reason,
}

-- The REQUIREMENT document is indexed, and its file has the content that the index names.
abbrev pub HasRequirement : Env → Db → Task → Type 0
HasRequirement env db task =
    (d : TaskDocument) × (content : String) × (find_document task.task_id "REQUIREMENT" db ≡ some d)
    × (env.file d.file_path ≡ some content)
    × (content_hash env content ≡ d.content_hash)

-- The package has a binding with a worker and a conversation.
abbrev pub IsBound : List TaskRoleBinding → String → Type 0
IsBound bindings ref =
    (b : TaskRoleBinding) × (w : String) × (l : String) × (find
        (λ (b : TaskRoleBinding). b.agent_package_ref == ref) bindings
      ≡ some b)
    × (b.worker_ref ≡ some w)
    × (b.conversation_locator ≡ some l)

requirement_block-none :
    (env : Env) (db : Db) (task : Task)
    → (requirement_block env (find_document task.task_id "REQUIREMENT" db) ≡ none)
      ↔ HasRequirement env db task
unfolding requirement_block
requirement_block-none env db task = ground arith

incomplete-none :
    (o : Option TaskRoleBinding)
    → (incomplete o ≡ none) ↔ (
        (b : TaskRoleBinding) × (w : String) × (l : String) × (o ≡ some b)
        × (b.worker_ref ≡ some w)
        × (b.conversation_locator ≡ some l))
incomplete-none none = ground arith
incomplete-none (some b) = elim (Option-cases b.worker_ref) [
  | inl e ↦ ground (arith, e)
  | inr (w, e) ↦ elim (Option-cases b.conversation_locator) [
    | inl q ↦ ground (arith, e, q)
    | inr (l, q) ↦ (λ h. (b, w, l, refl, e, q), λ h. ground (arith, e, q))
  ]
]

binding_block-none :
    (bindings : List TaskRoleBinding) (refs : List String)
    → (binding_block bindings refs ≡ none) ↔ All (IsBound bindings) refs
unfolding binding_block
binding_block-none bindings [] = ground arith
binding_block-none bindings (ref ∷ refs) =
    let (to, from) = binding_block-none bindings refs in
    let bound = incomplete-none (find (λ b. b.agent_package_ref == ref) bindings) in
    (
      λ h. (bound.0 (ground (arith, h)), to (ground (arith, h))),
      λ h. ground (arith, bound.1 h.0, from h.1),
    )

abbrev pub IsRequired : String → Type 0
IsRequired ref = (ref ≡ product_package) ⊎ (ref ≡ controller_package) ⊎ (ref ≡ test_ops_package)

-- As many bindings as required packages, each of them bound, and no node for another package.
abbrev pub HasPackages : Db → Task → Type 0
HasPackages db task =
    let bindings = list_bindings task.task_id db in
    (length bindings ≡ length required_task_agent_package_refs)
    × All (λ (n : TaskNode). IsRequired n.required_agent_package_ref) (list_nodes task.task_id db)
    × All (IsBound bindings) required_task_agent_package_refs

unknown-IsRequired :
    (ref : String)
    → (not (any (λ r. ref == r) required_task_agent_package_refs) ≡ false) ↔ IsRequired ref
unknown-IsRequired ref = ground arith

package_block-none :
    (db : Db) (task : Task)
    → (package_block (list_bindings task.task_id db) (list_nodes task.task_id db) ≡ none)
      ↔ HasPackages db task
unfolding package_block
package_block-none db task =
    let bindings = list_bindings task.task_id db in
    let nodes =
      any-none
        (λ (n : TaskNode).
          not (any (λ r. n.required_agent_package_ref == r) required_task_agent_package_refs))
        (λ n. IsRequired n.required_agent_package_ref)
        (λ n. unknown-IsRequired n.required_agent_package_ref) (list_nodes task.task_id db) in
    let bound = binding_block-none bindings required_task_agent_package_refs in
    (
      λ h. (ground (arith, h), nodes.0 (ground (arith, h)), bound.0 (ground (arith, h))),
      λ h. ground (arith, h.0, nodes.1 h.1, bound.1 h.2),
    )

-- The group is ACTIVE, every Task before this one has SUCCEEDED, and no other one is open.
abbrev pub IsNext : Db → Task → Option String → Type 0
IsNext db task none = Unit
IsNext db task (some g) =
    ((group : TaskGroup) × (find_group g db ≡ some group) × (group.status ≡ TaskGroupStatus.active))
    × All
        (λ (item : Task).
          place item.sequence_no < place task.sequence_no → item.status ≡ TaskStatus.succeeded)
        (list_tasks_of g db)
    × All (λ (item : Task). item.task_id ≢ task.task_id → is_open item.status ≡ false)
        (list_tasks_of g db)

group_block-none :
    (db : Db) (task : Task) (group_id : Option String)
    → (group_block db task group_id ≡ none) ↔ IsNext db task group_id
unfolding group_block
group_block-none db task none = ground arith
group_block-none db task (some g) =
    let before =
      any-none (precedes_unfinished task)
        (λ (item : Task).
          place item.sequence_no < place task.sequence_no → item.status ≡ TaskStatus.succeeded)
        (λ item. ground arith) (list_tasks_of g db) in
    let busy =
      any-none (is_busy_sibling task)
        (λ (item : Task). item.task_id ≢ task.task_id → is_open item.status ≡ false)
        (λ item. ground arith) (list_tasks_of g db) in
    (
      λ h. (ground (arith, h), before.0 (ground (arith, h)), busy.0 (ground (arith, h))),
      λ h. ground (arith, h.0, before.1 h.1, busy.1 h.2),
    )

-- There is no reason against a Task exactly where its REQUIREMENT document is indexed and intact, it
-- has as many bindings as there are required packages, each required package is bound with a worker
-- and a conversation and every node is for one of them, and its group is ACTIVE with every earlier
-- Task SUCCEEDED and no other Task open.
pub readiness_blocked_reason-none :
    (env : Env) (db : Db) (task : Task)
    → (readiness_blocked_reason env db task ≡ none)
      ↔ (HasRequirement env db task × HasPackages db task × IsNext db task task.task_group_id)
unfolding readiness_blocked_reason
readiness_blocked_reason-none env db task =
    let requirement = requirement_block-none env db task in
    let packages = package_block-none db task in
    let next = group_block-none db task task.task_group_id in
    (
      λ h. (
        requirement.0 (ground (arith, h)),
        packages.0 (ground (arith, h)),
        next.0 (ground (arith, h)),
      ),
      λ h. ground (arith, requirement.1 h.0, packages.1 h.1, next.1 h.2),
    )
