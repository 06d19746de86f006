-- ===== src/Task/Guards/Completing.antt =====
-- `completeNode`, `waitNode` and `failNode`: who may end or suspend a run, and with what outputs.
use proflow.Base.{
  String, ◌≡◌, subst, List, [], ◌∷◌, some, arith, text_key, pair_key, get_row-key, All,
}
use Prim.Native.String.{◌++◌ as text_append}
use proflow.Task.Model.{TaskStatus, Task, NodeStatus, TaskNode, TaskDocument}
use proflow.Task.Errors.{ok, >>=-eq-ok}
use proflow.Task.Environment.{content_hash}
use proflow.Task.Requests.{
  Env, NodeControls, CompleteInput, WaitInput, FailInput, CompleteNodeResult,
}
use proflow.Task.Store.{Db, ⊤, find_task, find_node, find_document, task_key, node_key}
use proflow.Task.Steps.{require_task, require_node, check_version, for_each, matches_worker}
use proflow.Task.Steps.Loops.{with_found, with_result}
use proflow.Task.Commands.Nodes.{wait_node, fail_node}
use proflow.Task.Commands.Complete.{check_output, complete_run, complete_node}

-- The worker of a run in progress, of an ACTIVE Task, asks with both versions.
pub record IsRunBy (input : NodeControls) (db : Db) (task : Task) (node : TaskNode)
    (worker : String) : Type 0 where
  pub found_task : find_task input.task_id db ≡ some task
  pub found_node : find_node input.node_id db ≡ some node
  pub same_task : node.task_id ≡ input.task_id
  pub task_version : task.version ≡ input.expected_task_version
  pub node_version : node.version ≡ input.expected_node_version
  pub active : task.status ≡ TaskStatus.active
  pub running : node.status ≡ NodeStatus.in_progress
  pub has_worker : node.worker_ref ≡ some worker
  pub by_worker : input.actor_ref ≡ text_append "worker:" worker

abbrev pub RunsCurrent : NodeControls → Db → Type 0
RunsCurrent input db =
    (task : Task) × (node : TaskNode) × (worker : String) × IsRunBy input db task node worker
    × (task.current_node_id ≡ some input.node_id)

-- The document is indexed, and its file has the content that the index names.
abbrev pub IsDelivered : Env → Db → String → String → Type 0
IsDelivered env db task_id type =
    (d : TaskDocument) × (content : String) × (find_document task_id type db ≡ some d)
    × (env.file d.file_path ≡ some content)
    × (content_hash env content ≡ d.content_hash)

module _ (env : Env) where
  check_output-IsDelivered :
      (id type : String) (db db' : Db) (u : ⊤)
      → check_output env id type db ≡ ok (u, db')
      → (db' ≡ db) × IsDelivered env db id type
  unfolding check_output
  check_output-IsDelivered id type db db' u h =
      with_found (find_document id type db) (ground (arith, h)) (λ d e.
        with_found (env.file d.file_path) (ground (arith, h, e))
          (λ content f. (ground (arith, h, e, f), (d, content, e, f, ground (arith, h, e, f)))))

  check_outputs-IsDelivered :
      (id : String) (types : List String) (db db' : Db) (u : ⊤)
      → for_each types (check_output env id) db ≡ ok (u, db')
      → All (IsDelivered env db id) types
  unfolding for_each
  check_outputs-IsDelivered id [] db db' u h = tt
  check_outputs-IsDelivered id (type ∷ types) db db' u h =
      let (v, db1, first, rest) =
        >>=-eq-ok (check_output env id type) (λ _. for_each types (check_output env id)) db (u, db')
          h in
      let (same_db, delivered) = check_output-IsDelivered id type db db1 v first in
      (
        delivered,
        subst (λ d. All (IsDelivered env d id) types) same_db
            (check_outputs-IsDelivered id types db1 db' u rest),
      )

  module _ (db db' : Db) where
    -- `waitNode` succeeds only for the worker of the current node's run in an ACTIVE Task.
    pub wait_node-RunsCurrent :
        (input : WaitInput) (r : Task)
        → wait_node env input db ≡ ok (r, db')
        → RunsCurrent input.node_controls db
    unfolding wait_node require_task require_node check_version matches_worker
    wait_node-RunsCurrent input r h =
        with_found (find_task input.task_id db) (ground arith) (λ task found.
          with_found (find_node input.node_id db) (ground arith) (λ node found_node.
            let key = get_row-key node_key input.node_id db.nodes node found_node in
            with_found node.worker_ref (ground arith)
              (λ worker w. (task, node, worker, ground arith, ground arith))))

    -- `failNode` succeeds only for the worker of the current node's run in an ACTIVE Task.
    pub fail_node-RunsCurrent :
        (input : FailInput) (r : Task)
        → fail_node env input db ≡ ok (r, db')
        → RunsCurrent input.node_controls db
    unfolding fail_node require_task require_node check_version matches_worker
    fail_node-RunsCurrent input r h =
        with_found (find_task input.task_id db) (ground arith) (λ task found.
          with_found (find_node input.node_id db) (ground arith) (λ node found_node.
            let key = get_row-key node_key input.node_id db.nodes node found_node in
            with_found node.worker_ref (ground arith)
              (λ worker w. (task, node, worker, ground arith, ground arith))))

    complete_node-guards :
        (input : CompleteInput) (r : CompleteNodeResult)
        → complete_node env input db ≡ ok (r, db')
        → (task : Task) × (node : TaskNode) × (worker : String) × IsRunBy input.node_controls db
            task node worker
          × ((v : Task) × (db1 : Db) × (complete_run env input task node db ≡ ok (v, db1)))
    unfolding complete_node require_task require_node check_version matches_worker
    complete_node-guards input r h =
        with_found (find_task input.task_id db) (ground arith) (λ task found.
          with_found (find_node input.node_id db) (ground arith) (λ node found_node.
            with_found node.worker_ref (ground arith) (λ worker w.
              with_result (complete_run env input task node db) (ground arith)
                (λ (v, db1) run. (task, node, worker, ground arith, (v, db1, run))))))

    -- `completeNode` succeeds only for the worker of a run in an ACTIVE Task, and only where every
    -- output document of the node is indexed and its file has the indexed content.
    pub complete_node-IsDelivered :
        (input : CompleteInput) (r : CompleteNodeResult)
        → complete_node env input db ≡ ok (r, db')
        → (task : Task) × (node : TaskNode) × (worker : String) × IsRunBy input.node_controls db
            task node worker
          × All (IsDelivered env db input.task_id) node.output_documents
    unfolding complete_run
    complete_node-IsDelivered input r h =
        let (task, node, worker, run_by, (v, db1, run)) = complete_node-guards input r h in
        let key = get_row-key task_key input.task_id db.tasks task run_by.found_task in
        let (u, db2, outputs, rest) =
          >>=-eq-ok (for_each node.output_documents (check_output env task.task_id)) _ db (v, db1)
            run in
        (
          task,
          node,
          worker,
          run_by,
          subst (λ id. All (IsDelivered env db id) node.output_documents) key
              (check_outputs-IsDelivered task.task_id node.output_documents db db2 u outputs),
        )
