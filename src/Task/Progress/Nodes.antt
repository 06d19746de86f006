-- ===== src/Task/Progress/Nodes.antt =====
-- The moves of `startNode`, `waitNode`, `failNode`, `terminateTask` and `reopenNode`: one row each.
use proflow.Base.{◌+◌, ◌≡◌, false, arith, text_key}
use proflow.Task.Model.{Task}
use proflow.Task.Transitions.{task_transition}
use proflow.Task.Errors.{ok}
use proflow.Task.Requests.{Env, NodeControls, WaitInput, FailInput, NodeResult}
use proflow.Task.Store.{Db}
use proflow.Task.Store.Rows.{update_task, update_node}
use proflow.Task.Store.Logs.{insert_message, insert_history}
use proflow.Task.Steps.{require_task, require_node, check_version, preserve_run_history}
use proflow.Task.Commands.Nodes.{start_node, wait_node, fail_node}
use proflow.Task.Progress.{Evolves}
use proflow.Task.Progress.Lifecycle.{WroteOne-Evolves}

module _ (env : Env) (db db' : Db) where
  pub start_node-Evolves :
      (input : NodeControls) (r : NodeResult)
      → start_node env input db ≡ ok (r, db')
      → Evolves false db.tasks db'.tasks
  unfolding start_node require_task require_node check_version update_node update_task
      task_transition
  start_node-Evolves input r h =
      WroteOne-Evolves db.tasks db'.tasks input.task_id (ground arith) (λ task found key. record {
        v = record task { version = task.version + 1; updated_at = env.now };
        moves = ground arith;
        written = ground arith;
      })

  pub wait_node-Evolves :
      (input : WaitInput) (r : Task)
      → wait_node env input db ≡ ok (r, db')
      → Evolves false db.tasks db'.tasks
  unfolding wait_node require_task require_node check_version update_node update_task insert_message
      task_transition
  wait_node-Evolves input r h =
      WroteOne-Evolves db.tasks db'.tasks input.task_id (ground arith)
        (λ task found key. record { v = r; moves = ground arith; written = ground arith })

  pub fail_node-Evolves :
      (input : FailInput) (r : Task)
      → fail_node env input db ≡ ok (r, db')
      → Evolves false db.tasks db'.tasks
  unfolding fail_node require_task require_node check_version update_node update_task
      preserve_run_history insert_history task_transition
  fail_node-Evolves input r h =
      WroteOne-Evolves db.tasks db'.tasks input.task_id (ground arith)
        (λ task found key. record { v = r; moves = ground arith; written = ground arith })
