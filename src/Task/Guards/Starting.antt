-- ===== src/Task/Guards/Starting.antt =====
-- `startNode`: when it succeeds, and what it writes.
use proflow.Base.{String, ◌+◌, ◌≡◌, ◌≢◌, some, arith, get_row-key, text_key, pair_key, put_row}
use Prim.Native.String.{◌++◌}
use proflow.Task.Model.{TaskStatus, Task, NodeStatus, TaskNode, TaskRoleBinding}
use proflow.Task.Errors.{ok}
use proflow.Task.Requests.{Env, NodeControls, NodeResult}
use proflow.Task.Store.{Db, find_task, find_node, find_binding, task_key, node_key}
use proflow.Task.Store.Rows.{update_task, update_node}
use proflow.Task.Steps.{require_task, require_node, check_version, matches_worker, node_result}
use proflow.Task.Steps.Loops.{with_found}
use proflow.Task.Commands.Nodes.{start_node}

-- The bound worker of the node asks for the current node of an active Task, which is READY, and
-- names both versions.
pub record Startable (input : NodeControls) (db : Db) (task : Task) (node : TaskNode)
    (binding : TaskRoleBinding) (worker locator : String) : Type 0 where
  pub found_task : find_task input.task_id db ≡ some task
  pub found_node : find_node input.node_id db ≡ some node
  pub found_binding : find_binding input.task_id node.required_agent_package_ref db ≡ some binding
  pub same_task : node.task_id ≡ input.task_id
  pub task_version : task.version ≡ input.expected_task_version
  pub node_version : node.version ≡ input.expected_node_version
  pub active : task.status ≡ TaskStatus.active
  pub ready : node.status ≡ NodeStatus.ready
  pub current : task.current_node_id ≡ some input.node_id
  pub has_worker : binding.worker_ref ≡ some worker
  pub named_worker : worker ≢ ""
  pub has_locator : binding.conversation_locator ≡ some locator
  pub named_locator : locator ≢ ""
  pub by_worker : input.actor_ref ≡ "worker:" ++ worker

abbrev pub CanStart : NodeControls → Db → Type 0
CanStart input db =
    (task : Task) × (node : TaskNode) × (binding : TaskRoleBinding) × (worker : String)
    × (locator : String) × Startable input db task node binding worker locator

-- The rows that `startNode` writes.
abbrev pub started : Env → TaskNode → String → TaskNode
started env node worker = record node {
  status = NodeStatus.in_progress;
  worker_ref = some worker;
  version = node.version + 1;
  started_at = some env.now;
  updated_at = env.now;
}

abbrev pub touched : Env → Task → Task
touched env task = record task { version = task.version + 1; updated_at = env.now }

module _ (env : Env) (input : NodeControls) (db : Db) where
  -- `startNode` succeeds only for the bound worker of the current node of an ACTIVE Task, where the
  -- node is READY, the binding is complete, and the request names both versions.
  pub start_node-CanStart :
      (r : NodeResult) (db' : Db) → start_node env input db ≡ ok (r, db') → CanStart input db
  unfolding start_node require_task require_node check_version matches_worker
  start_node-CanStart r db' h =
      with_found (find_task input.task_id db) (ground arith) (λ task found.
        with_found (find_node input.node_id db) (ground arith) (λ node found_node.
          let task_id = get_row-key task_key input.task_id db.tasks task found in
          let node_id = get_row-key node_key input.node_id db.nodes node found_node in
          with_found (find_binding task.task_id node.required_agent_package_ref db) (ground arith)
            (λ binding found_binding. with_found binding.worker_ref (ground arith) (λ worker e.
              with_found binding.conversation_locator (ground arith)
                (λ locator l. (task, node, binding, worker, locator, ground arith))))))

  -- There it succeeds: the node's row becomes IN_PROGRESS for the worker, the Task's row gets the
  -- next version, and no other row changes.
  pub start_node-writes :
      (task : Task) (node : TaskNode) (binding : TaskRoleBinding) (worker locator : String)
      → Startable input db task node binding worker locator
      → start_node env input db
        ≡ ok (
          node_result (touched env task) (started env node worker),
          record db {
            tasks = put_row task_key (touched env task) db.tasks;
            nodes = put_row node_key (started env node worker) db.nodes;
          },
        )
  unfolding start_node require_task require_node check_version matches_worker update_node
      update_task
  start_node-writes task node binding worker locator s =
      let task_id = get_row-key task_key input.task_id db.tasks task s.found_task in
      let node_id = get_row-key node_key input.node_id db.nodes node s.found_node in ground arith
