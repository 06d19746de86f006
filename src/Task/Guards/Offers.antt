-- ===== src/Task/Guards/Offers.antt =====
-- What the queries offer against what the commands accept: `listTasks` and `startTask`,
-- `getTaskDriveProjection` and `startNode`.
use proflow.Base.{
  String, ◌+◌, ◌≡◌, ◌≢◌, true, false, List, [], ◌∷◌, none, some, arith, get_row-key, text_key,
  pair_key, put_row, IsUnique, All, subst,
}
use proflow.Task.Model.{TaskStatus, Task, NodeStatus, TaskNode, TaskRoleBinding}
use proflow.Task.Errors.{ok}
use proflow.Task.Requests.{Env, TaskControls, NodeControls, TaskView}
use proflow.Task.Store.{Db, find_task, find_node, find_binding, task_key, node_key}
use proflow.Task.Store.Rows.{update_task, update_node}
use proflow.Task.Store.Lists.{list_nodes}
use proflow.Task.Store.Seen.{list_nodes-found}
use proflow.Task.Readiness.{is_terminal}
use proflow.Task.Steps.{require_task, check_version}
use proflow.Task.Steps.Loops.{with_found}
use proflow.Task.Commands.Lifecycle.{current_node, first, view, start_task}
use proflow.Task.Queries.{drive_node, summary, drive_block, projection}
use proflow.Task.Guards.Starting.{Startable}

-- A Task of which `listTasks` says `canStart`, at the version that the request names, with a node.
pub record IsOffered (env : Env) (input : TaskControls) (db : Db) (task : Task) (head : TaskNode)
    : Type 0 where
  pub found : find_task input.task_id db ≡ some task
  pub version : task.version ≡ input.expected_task_version
  pub can_start : (summary env db task).can_start ≡ true
  pub head_is : first (list_nodes task.task_id db) ≡ some head

-- The rows that `startTask` writes.
abbrev pub begun : Env → Task → TaskNode → Task
begun env task head = record task {
  status = TaskStatus.active;
  version = task.version + 1;
  current_node_id = some head.node_id;
  started_at = some env.now;
  updated_at = env.now;
}

abbrev pub readied : Env → TaskNode → TaskNode
readied env head = record head {
  status = NodeStatus.ready;
  version = head.version + 1;
  updated_at = env.now;
}

abbrev pub begun_db : Env → Task → TaskNode → Db → Db
begun_db env task head db = record db {
  tasks = put_row task_key (begun env task head) db.tasks;
  nodes = put_row node_key (readied env head) db.nodes;
}

first-All :
    (P : TaskNode → Type 0) (ns : List TaskNode) (n : TaskNode) → All P ns → first ns ≡ some n → P n
first-All P [] n h e = cc
first-All P (m ∷ ns) n h e = let same_node : m ≡ n = ground (arith, e) in subst P same_node h.0

module _ (env : Env) (input : TaskControls) (db : Db) where
  -- `startTask` succeeds only for a Task that `listTasks` offers.
  pub start_task-IsOffered :
      (r : TaskView) (db' : Db)
      → start_task env input db ≡ ok (r, db')
      → (task : Task) × (head : TaskNode) × IsOffered env input db task head
  unfolding start_task require_task check_version summary
  start_task-IsOffered r db' h =
      with_found (find_task input.task_id db) (ground (arith, h)) (λ task found.
        with_found (first (list_nodes task.task_id db)) (ground (arith, h, found))
          (λ head e. (task, head, ground (arith, h, found, e))))

  -- `startTask` starts each Task that `listTasks` offers: the Task becomes ACTIVE, its first node
  -- READY and current, and no other row changes.
  pub IsOffered-start_task :
      (task : Task) (head : TaskNode)
      → IsUnique node_key db.nodes
      → IsOffered env input db task head
      → start_task env input db
        ≡ ok (view env (begun env task head) (begun_db env task head db), begun_db env task head db)
  unfolding start_task require_task check_version summary update_node update_task
  IsOffered-start_task task head unique offered =
      let key = get_row-key task_key input.task_id db.tasks task offered.found in
      let (row, _) =
        first-All _ (list_nodes task.task_id db) head (list_nodes-found task.task_id db unique)
          offered.head_is in
      ground arith

pub record IsDrivable (task : Task) (db : Db) (node : TaskNode) (binding : TaskRoleBinding)
    (worker : String) : Type 0 where
  pub unfinished : is_terminal task.status ≡ false
  pub current : task.current_node_id ≡ some node.node_id
  pub found : find_node node.node_id db ≡ some node
  pub ready : node.status ≡ NodeStatus.ready
  pub found_binding : find_binding task.task_id node.required_agent_package_ref db ≡ some binding
  pub has_worker : binding.worker_ref ≡ some worker
  pub named : worker ≢ ""

-- Where `startNode` would succeed, the drive projection of the Task says `canDrive`, names the node
-- as the current one, and gives no reason against it.
pub Startable-can_drive :
    (input : NodeControls) (db : Db) (task : Task) (node : TaskNode) (binding : TaskRoleBinding)
    (worker locator : String)
    → input.node_id ≢ ""
    → Startable input db task node binding worker locator
    → ((projection task db).can_drive ≡ true)
      × ((projection task db).blocked_reason ≡ none)
      × ((projection task db).current_node ≡ drive_node (some node))
unfolding projection drive_block
Startable-can_drive input db task node binding worker locator named s =
    let key = get_row-key task_key input.task_id db.tasks task s.found_task in ground arith

-- `canDrive` names a Task that is not over, with a current node that is READY and whose package has
-- a worker.
pub can_drive-current :
    (task : Task) (db : Db)
    → (projection task db).can_drive ≡ true
    → (node : TaskNode) × (binding : TaskRoleBinding) × (worker : String) × IsDrivable task db node
        binding worker
unfolding projection drive_block
can_drive-current task db h = with_found (current_node task db) (ground (arith, h)) (λ node e.
    with_found task.current_node_id (ground (arith, e)) (λ id i.
      let here : find_node id db ≡ some node = ground (arith, e, i) in
      let key = get_row-key node_key id db.nodes node here in
      with_found (find_binding task.task_id node.required_agent_package_ref db)
        (ground (arith, h, e))
        (λ binding b.
          with_found binding.worker_ref (ground (arith, h, e, b))
            (λ worker w. (node, binding, worker, ground (arith, h, e, i, here, key, b, w))))))
