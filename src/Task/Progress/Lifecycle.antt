-- ===== src/Task/Progress/Lifecycle.antt =====
-- The moves of `startTask`, `pauseTask` and `resumeTask`: one row each.
use proflow.Base.{
  String, ◌+◌, ◌≡◌, refl, sym, ◌∙◌, subst, Bool, false, List, some, arith, put_row, get_row,
  get_row-key, text_key,
}
use proflow.Task.Model.{Task, TaskStatus}
use proflow.Task.Transitions.{task_transition}
use proflow.Task.Errors.{ok}
use proflow.Task.Requests.{Env, ReasonInput, TaskControls, TaskView}
use proflow.Task.Store.{Db, task_key}
use proflow.Task.Store.Rows.{update_task, update_node}
use proflow.Task.Steps.{require_task, check_version}
use proflow.Task.Commands.Lifecycle.{start_task, pause_task, resume_task, resume_waiting, view}
use proflow.Task.Progress.{Moves, Evolves, same, move}

-- A Task that a handler has read under the id that its input names.
abbrev pub Read : String → List Task → Type 0
Read id ts = (task : Task) × (get_row task_key id ts ≡ some task)

-- A handler that wrote one row, which it had read.
pub record WroteOne (reopens : Bool) (ts ts' : List Task) (task : Task) : Type 0 where
  pub v : Task
  pub moves : Moves reopens task v
  pub written : ts' ≡ put_row task_key v ts

pub WroteOne-Evolves :
    {reopens : Bool} (ts ts' : List Task) (id : String)
    → Read id ts
    → ((task : Task)
        → get_row task_key id ts ≡ some task
        → task.task_id ≡ id
        → WroteOne reopens ts ts' task)
    → Evolves reopens ts ts'
WroteOne-Evolves ts ts' id (task, found) wrote =
    let key = get_row-key task_key id ts task found in
    let w = wrote task found key in
    let same_key : id ≡ w.v.task_id = sym (w.moves.same_id ∙ key) in
    move task w.v (same refl) (subst (λ k. get_row task_key k ts ≡ some task) same_key found)
      w.moves w.written

module _ (env : Env) (db db' : Db) where
  pub start_task-Evolves :
      (input : TaskControls) (r : TaskView)
      → start_task env input db ≡ ok (r, db')
      → Evolves false db.tasks db'.tasks
  unfolding start_task require_task check_version update_node update_task view task_transition
  start_task-Evolves input r h =
      WroteOne-Evolves db.tasks db'.tasks input.task_id (ground arith) (λ task found key. record {
        v = record task {
          status = TaskStatus.active;
          version = task.version + 1;
          current_node_id = r.current_node_id;
          started_at = some env.now;
          updated_at = env.now;
        };
        moves = ground arith;
        written = ground arith;
      })

  pub pause_task-Evolves :
      (input : ReasonInput) (r : Task)
      → pause_task env input db ≡ ok (r, db')
      → Evolves false db.tasks db'.tasks
  unfolding pause_task require_task check_version update_task task_transition
  pause_task-Evolves input r h =
      WroteOne-Evolves db.tasks db'.tasks input.task_id (ground arith)
        (λ task found key. record { v = r; moves = ground arith; written = ground arith })

  pub resume_task-Evolves :
      (input : TaskControls) (r : Task)
      → resume_task env input db ≡ ok (r, db')
      → Evolves false db.tasks db'.tasks
  unfolding resume_task resume_waiting require_task check_version update_node update_task
      task_transition
  resume_task-Evolves input r h =
      WroteOne-Evolves db.tasks db'.tasks input.task_id (ground arith)
        (λ task found key. record { v = r; moves = ground arith; written = ground arith })
