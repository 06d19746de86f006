-- ===== src/Task/Command/Records.antt =====
-- The idempotency records: the steps that the handlers share leave them alone.
pub mod Handlers
use proflow.Base.{
  String, ℕ, ◌+◌, Bool, List, [], ◌∷◌, Option, none, some, arith, find, Option-cases, inl, inr,
}
use proflow.Task.Model.{
  Task, TaskGroup, NodeStatus, TaskNode, TaskDocument, NodeExecutionHistory, NewEvent,
}
use proflow.Task.Errors.{DomainError, Code, pure, gets, throw_if, some_or_throw}
use proflow.Task.Requests.{
  Env, PlanNodeInput, RoleBindingView, InitialDocument, CreateGroupInput, StartGroupInput,
  CreateTaskInput, BindInput, TaskControls, ReasonInput, NodeControls, CompleteInput, WaitInput,
  FailInput, ReopenInput, AckInput, PutDocumentInput, Request, create_task_group, start_task_group,
  create_task, bind_task_worker, start_task, pause_task, resume_task, terminate_task, start_node,
  complete_node, wait_node, fail_node, reopen_node, acknowledge_message, put_task_document,
}
use proflow.Task.Store.{Db, IdempotencyRecord, find_group}
use proflow.Task.Store.Rows.{
  insert_group, update_group, insert_task, update_task, insert_node, update_node,
}
use proflow.Task.Store.Logs.{
  upsert_binding, upsert_document, insert_message, update_message, insert_event, insert_history,
}
use proflow.Task.Store.Lists.{list_nodes, list_tasks_of}
use proflow.Task.Steps.{require_task, require_node, check_version, preserve_run_history}
use proflow.Task.Steps.Loops.{Keeps, Keeps->>=, Keeps->>, for_each-Keeps, Kept, Keeps-Kept}
use proflow.Task.Commands.Groups
use proflow.Task.Commands.Groups.{first_ready, update_if_readied, ready_members}
use proflow.Task.Readiness.{recompute_readiness}
use proflow.Task.Commands.Create
use proflow.Task.Commands.Create.{
  insert_plan, insert_role_binding, index_document, create_rows, new_task,
}
use proflow.Task.Commands.Bind
use proflow.Task.Commands.Bind.{bind_anew}
use proflow.Task.Commands.Lifecycle
use proflow.Task.Commands.Lifecycle.{resume_waiting, terminate_node}
use proflow.Task.Commands.Nodes
use proflow.Task.Commands.Complete
use proflow.Task.Commands.Complete.{
  is_next_task, closed, check_output, advance, group_of, ready_next_task, close_group, finish_group,
  complete_run,
}
use proflow.Task.Commands.Reopen
use proflow.Task.Commands.Reopen.{invalidate_later, reopen_nodes}
use proflow.Task.Commands.Messages
use proflow.Task.Commands.Messages.{acknowledge_pending}
use proflow.Task.Commands.Documents
use proflow.Task.Commands.Documents.{ensure_type, check_node, write_document}
use proflow.Task.Command.{DocumentPath, perform}

abbrev pub records_of : Db → List IdempotencyRecord
records_of db = db.idempotency

pub gets-Keeps : {A : Type 0} (f : Db → A) → Keeps records_of (gets f)
gets-Keeps f db db' a h = ground (arith, h)

pub pure-Keeps : {A : Type 0} (a : A) → Keeps records_of (pure {S = Db} a)
pure-Keeps a db db' b h = ground (arith, h)

pub throw_if-Keeps : (b : Bool) (e : DomainError) → Keeps records_of (throw_if b e)
throw_if-Keeps b e db db' u h = ground (arith, h)

pub require_task-Keeps : (id : String) → Keeps records_of (require_task id)
unfolding require_task
require_task-Keeps id db db' t h = ground (arith, h)

pub require_node-Keeps : (id node_id : String) → Keeps records_of (require_node id node_id)
unfolding require_node
require_node-Keeps id node_id db db' n h = ground (arith, h)

pub check_version-Keeps : (a b : ℕ) (c : Code) → Keeps records_of (check_version a b c)
unfolding check_version
check_version-Keeps a b c db db' u h = ground (arith, h)

pub update_task-Keeps : (t : Task) → Keeps records_of (update_task t)
unfolding update_task
update_task-Keeps t db db' u h = ground (arith, h)

pub update_node-Keeps : (n : TaskNode) → Keeps records_of (update_node n)
unfolding update_node
update_node-Keeps n db db' u h = ground (arith, h)

pub insert_node-Keeps : (n : TaskNode) → Keeps records_of (insert_node n)
unfolding insert_node
insert_node-Keeps n db db' u h = ground (arith, h)

pub insert_task-Keeps : (t : Task) → Keeps records_of (insert_task t)
unfolding insert_task
insert_task-Keeps t db db' u h = ground (arith, h)

pub insert_group-Keeps : (g : TaskGroup) → Keeps records_of (insert_group g)
unfolding insert_group
insert_group-Keeps g db db' u h = ground (arith, h)

pub update_group-Keeps : (g : TaskGroup) → Keeps records_of (update_group g)
unfolding update_group
update_group-Keeps g db db' u h = ground (arith, h)

pub insert_event-Keeps : (e : NewEvent) → Keeps records_of (insert_event e)
unfolding insert_event
insert_event-Keeps e db db' u h = ground (arith, h)

pub upsert_document-Keeps : (d : TaskDocument) → Keeps records_of (upsert_document d)
unfolding upsert_document
upsert_document-Keeps d db db' u h = ground (arith, h)

pub insert_history-Keeps : (r : NodeExecutionHistory) → Keeps records_of (insert_history r)
unfolding insert_history
insert_history-Keeps r db db' u h = ground (arith, h)

pub preserve-Keeps :
    (n : TaskNode) (s : NodeStatus) (at : String) → Keeps records_of (preserve_run_history n s at)
unfolding preserve_run_history insert_history
preserve-Keeps n s at db db' u h = ground (arith, h)

pub some_or_throw-Keeps :
    {A : Type 0} (o : Option A) (e : DomainError) → Keeps records_of (some_or_throw o e)
some_or_throw-Keeps none e db db' a h = ground (arith, h)
some_or_throw-Keeps (some x) e db db' a h = ground (arith, h)

pub ruleset keeps = (
  gets-Keeps, pure-Keeps, throw_if-Keeps, require_task-Keeps, require_node-Keeps,
  check_version-Keeps, update_task-Keeps, update_node-Keeps, insert_node-Keeps, insert_task-Keeps,
  insert_group-Keeps, update_group-Keeps, insert_event-Keeps, upsert_document-Keeps,
  insert_history-Keeps, preserve-Keeps, some_or_throw-Keeps, Keeps->>=, Keeps->>, for_each-Keeps,
)
