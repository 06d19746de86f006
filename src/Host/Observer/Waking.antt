-- ===== src/Host/Observer/Waking.antt =====
-- Whom `decideTaskProgression` wakes, and whether the woken worker can go on.
use proflow.Base.{
  String, ℕ, ◌≡◌, ◌≢◌, ◌⊎◌, true, false, Option, some, arith, text_key, pair_key, get_row-key,
}
use Prim.Native.String.{◌++◌}
use proflow.Task.Model.{TaskStatus, Task, NodeStatus, TaskNode, TaskRoleBinding}
use proflow.Task.Requests.{Env, NodeControls, RoleBindingView, NodeResult}
use proflow.Task.Store.{Db, find_task, find_node, find_binding, node_key}
use proflow.Task.Commands.Lifecycle.{current_node}
use proflow.Task.Errors.{ok}
use proflow.Task.Steps.{matches_worker}
use proflow.Task.Commands.Nodes.{start_node}
use proflow.Task.Guards.Starting.{Startable, start_node-writes}
use proflow.Task.Queries.{DriveNode, DriveProjection, projection, drive_block}
use proflow.Task.Steps.Loops.{with_found}
use proflow.Host.Observer.{
  ResumeSignal, Wake, wake, bound_for, decide_resume, decide_bound, decide_task_progression,
}

-- The wake names the current node and its run, and the worker and conversation of the binding for
-- the node's package.
pub record IsAddressed (p : DriveProjection) (w : Wake) (node : DriveNode) (b : RoleBindingView)
    : Type 0 where
  pub unfinished : p.terminal ≡ false
  pub current : p.current_node ≡ some node
  pub binding : p.role_binding ≡ some b
  pub for_package : b.agent_package_ref ≡ node.required_agent_package_ref
  pub task_id : w.task_id ≡ p.task_id
  pub node_id : w.node_id ≡ node.node_id
  pub run_no : w.run_no ≡ node.run_no
  pub worker : b.worker_ref ≡ some w.worker_ref
  pub named : w.worker_ref ≢ ""
  pub locator : b.conversation_locator ≡ some w.conversation_locator
  pub located : w.conversation_locator ≢ ""
  pub intent :
      ((node.status ≡ NodeStatus.ready) × (p.can_drive ≡ true))
      ⊎ ((node.status ≡ NodeStatus.in_progress) × (p.task_status ≡ TaskStatus.active))

-- When `decideTaskProgression` decides to wake, the wake names the projection's Task, its current node
-- and that node's run, and the worker and conversation of its binding, which are not empty and whose
-- package is the node's; the Task is not terminal, and the node is READY and may be driven, or
-- IN_PROGRESS in an ACTIVE Task.
pub decide-IsAddressed :
    (decimal : ℕ → String) (p : DriveProjection) (signal : Option ResumeSignal) (w : Wake)
    → decide_task_progression decimal p signal ≡ wake w
    → (node : DriveNode) × (b : RoleBindingView) × IsAddressed p w node b
unfolding decide_task_progression decide_bound bound_for decide_resume
decide-IsAddressed decimal p signal w h = with_found p.current_node (ground (arith, h)) (λ node e.
    with_found p.role_binding (ground (arith, h, e)) (λ b q. (node, b, ground (arith, h, e, q))))

-- The request by which a woken worker starts the node.
abbrev pub start_request : Wake → Task → TaskNode → String → NodeControls
start_request w task node key = record {
  task_controls = record {
    controls = record { actor_ref = "worker:" ++ w.worker_ref; idempotency_key = key };
    task_id = w.task_id;
    expected_task_version = task.version;
  };
  node_id = w.node_id;
  expected_node_version = node.version;
}

module _ (db : Db) (task : Task) (w : Wake) where
  addressed-Startable :
      find_task task.task_id db ≡ some task
      → task.status ≡ TaskStatus.active
      → (node : TaskNode) → find_node w.node_id db ≡ some node
      → node.task_id ≡ task.task_id
      → node.status ≡ NodeStatus.ready
      → (key : String) (dn : DriveNode) (b : RoleBindingView)
      → IsAddressed (projection task db) w dn b
      → (binding : TaskRoleBinding) × Startable
          (start_request w task node key)
          db
          task
          node
          binding
          w.worker_ref
          w.conversation_locator
  unfolding projection matches_worker
  addressed-Startable found active node here mine ready key dn b addr =
      with_found (current_node task db) (ground arith) (λ n e.
        with_found task.current_node_id (ground (arith, e)) (λ id i.
          let there : find_node id db ≡ some n = ground (arith, e, i) in
          let key_of_n = get_row-key node_key id db.nodes n there in
          with_found (find_binding task.task_id n.required_agent_package_ref db) (ground arith)
            (λ binding q. (binding, ground arith))))

  -- A worker that is woken for a READY node of an ACTIVE Task starts it: `startNode` with the worker
  -- of the wake, the node of the wake and the versions of the rows succeeds on the database that the
  -- projection was read from, where the node belongs to the Task.
  pub woken-start_node :
      (env : Env) (decimal : ℕ → String) (signal : Option ResumeSignal) (node : TaskNode)
      (key : String)
      → find_task task.task_id db ≡ some task
      → task.status ≡ TaskStatus.active
      → find_node w.node_id db ≡ some node
      → node.task_id ≡ task.task_id
      → node.status ≡ NodeStatus.ready
      → decide_task_progression decimal (projection task db) signal ≡ wake w
      → (r : NodeResult) × (db' : Db) × (start_node env (start_request w task node key) db
          ≡ ok (r, db'))
  woken-start_node env decimal signal node key found active here mine ready h =
      let (dn, b, addr) = decide-IsAddressed decimal (projection task db) signal w h in
      let (binding, startable) =
        addressed-Startable found active node here mine ready key dn b addr in
      (
        _,
        _,
        start_node-writes env (start_request w task node key) db task node binding w.worker_ref
            w.conversation_locator startable,
      )

-- While the current node is READY, `decideTaskProgression` decides the same for a PAUSED Task as for
-- the ACTIVE one.
pub paused-decide :
    (decimal : ℕ → String) (signal : Option ResumeSignal) (db : Db) (task : Task) (node : TaskNode)
    → current_node task db ≡ some node
    → node.status ≡ NodeStatus.ready
    → decide_task_progression decimal
        (projection (record task { status = TaskStatus.paused }) db)
        signal
      ≡ decide_task_progression decimal
          (projection (record task { status = TaskStatus.active }) db)
          signal
unfolding projection drive_block decide_task_progression decide_bound bound_for
paused-decide decimal signal db task node e ready = ground arith
