-- ===== src/Task/Progress/Loops.antt =====
-- The moves of `terminateTask` and `reopenNode`, whose loops leave the task table alone.
use proflow.Base.{String, ◌+◌, ◌≡◌, true, false, List, none, some, arith, text_key}
use proflow.Task.Model.{Task, TaskStatus, TaskNode, NodeStatus}
use proflow.Task.Transitions.{task_transition}
use proflow.Task.Errors.{ok}
use proflow.Task.Requests.{Env, ReasonInput, ReopenInput, NodeResult}
use proflow.Task.Store.{Db, find_node}
use proflow.Task.Store.Rows.{update_task, update_node}
use proflow.Task.Store.Logs.{insert_history, insert_event}
use proflow.Task.Store.Lists.{list_nodes}
use proflow.Task.Steps.{require_task, require_node, check_version, preserve_run_history}
use proflow.Task.Steps.Loops.{Keeps, Keeps->>, for_each-Keeps, Keeps-Kept, with_found}
use proflow.Task.Commands.Lifecycle.{terminate_node, terminate_task}
use proflow.Task.Commands.Reopen.{invalidate_later, reopen_nodes, reopen_node}
use proflow.Task.Progress.{Evolves}
use proflow.Task.Progress.Lifecycle.{WroteOne-Evolves}

abbrev pub tasks_of : Db → List Task
tasks_of db = db.tasks

module _ (env : Env) where
  terminate_node-Keeps : (n : TaskNode) → Keeps tasks_of (terminate_node env n)
  unfolding terminate_node preserve_run_history insert_history update_node
  terminate_node-Keeps n db db' u h = ground arith

  invalidate_later-Keeps : (target n : TaskNode) → Keeps tasks_of (invalidate_later env target n)
  unfolding invalidate_later preserve_run_history insert_history update_node
  invalidate_later-Keeps target n db db' u h = ground arith

  preserve-Keeps :
      (n : TaskNode) (s : NodeStatus) (at : String) → Keeps tasks_of (preserve_run_history n s at)
  unfolding preserve_run_history insert_history
  preserve-Keeps n s at db db' u h = ground arith

  pub update_node-Keeps : (n : TaskNode) → Keeps tasks_of (update_node n)
  unfolding update_node
  update_node-Keeps n db db' u h = ground arith

  reopen_nodes-Keeps :
      (task : Task) (target : TaskNode) → Keeps tasks_of (reopen_nodes env task target)
  unfolding reopen_nodes
  reopen_nodes-Keeps task target =
      Keeps->> tasks_of _ _ (preserve-Keeps target target.status env.now) (
        Keeps->> tasks_of _ _ (update_node-Keeps _) (λ db.
          for_each-Keeps tasks_of (invalidate_later env target) (invalidate_later-Keeps target)
            (list_nodes task.task_id db) db))

  module _ (db db' : Db) where
    pub terminate_task-Evolves :
        (input : ReasonInput) (r : Task)
        → terminate_task env input db ≡ ok (r, db')
        → Evolves false db.tasks db'.tasks
    unfolding terminate_task require_task check_version update_task task_transition
    terminate_task-Evolves input r h =
        WroteOne-Evolves db.tasks db'.tasks input.task_id (ground arith) (λ task found key.
          let kept =
            Keeps-Kept tasks_of _
              (for_each-Keeps tasks_of (terminate_node env) terminate_node-Keeps
                (list_nodes task.task_id db))
              db in
          record { v = r; moves = ground arith; written = ground arith })

    pub reopen_node-Evolves :
        (input : ReopenInput) (r : NodeResult × String)
        → reopen_node env input db ≡ ok (r, db')
        → Evolves true db.tasks db'.tasks
    unfolding reopen_node require_task require_node check_version update_task insert_event
        task_transition
    reopen_node-Evolves input r h =
        WroteOne-Evolves db.tasks db'.tasks input.task_id (ground arith) (λ task found key.
          with_found (find_node input.node_id db) (ground arith) (λ target target_found.
            let kept = Keeps-Kept tasks_of _ (reopen_nodes-Keeps task target) db in
            record {
              v = record task {
                status = TaskStatus.active;
                version = task.version + 1;
                current_node_id = some target.node_id;
                completed_at = none;
                updated_at = env.now;
              };
              moves = ground arith;
              written = ground arith;
            }))
