-- ===== src/Task/Progress/Commands.antt =====
-- Every command, and every sequence of commands.
use proflow.Base.{◌≡◌, Bool, true, false, arith, IsUnique, text_key}
use proflow.Task.Model.{TaskGroup}
use proflow.Task.Errors.{ok, >>=-pure}
use proflow.Task.Requests.{
  Env, CreateGroupInput, AckInput, Request, create_task_group, start_task_group, create_task,
  bind_task_worker, start_task, pause_task, resume_task, terminate_task, start_node, complete_node,
  wait_node, fail_node, reopen_node, acknowledge_message, put_task_document, Response,
}
use proflow.Task.Store.{Db, task_key}
use proflow.Task.Store.Rows.{insert_group}
use proflow.Task.Store.Logs.{update_message, insert_event}
use proflow.Task.Steps.Loops.{Keeps}
use proflow.Task.Commands.Groups
use proflow.Task.Commands.Create
use proflow.Task.Commands.Bind
use proflow.Task.Commands.Lifecycle
use proflow.Task.Commands.Nodes
use proflow.Task.Commands.Complete
use proflow.Task.Commands.Reopen
use proflow.Task.Commands.Messages
use proflow.Task.Commands.Documents
use proflow.Task.Command.{DocumentPath, perform}
use proflow.Task.Progress.{Evolves, same}
use proflow.Task.Progress.Lifecycle.{start_task-Evolves, pause_task-Evolves, resume_task-Evolves}
use proflow.Task.Progress.Nodes.{start_node-Evolves, wait_node-Evolves, fail_node-Evolves}
use proflow.Task.Progress.Loops.{tasks_of, terminate_task-Evolves, reopen_node-Evolves}
use proflow.Task.Progress.Groups.{
  start_task_group-Evolves, complete_node-Evolves, bind_task_worker-Evolves,
}
use proflow.Task.Progress.Create.{create_task-Evolves}
use proflow.Task.Progress.Documents.{put_task_document-Evolves}

abbrev pub is_reopen : Request → Bool
is_reopen (reopen_node _) = true
is_reopen _ = false

insert_group-Keeps : (g : TaskGroup) → Keeps tasks_of (insert_group g)
unfolding insert_group
insert_group-Keeps g db db' u h = ground arith

create_task_group-Keeps :
    (env : Env) (i : CreateGroupInput) → Keeps tasks_of (Groups.create_task_group env i)
unfolding Groups.create_task_group
create_task_group-Keeps env i db db' r h =
    insert_group-Keeps (Groups.new_group env i) db db' tt (ground (arith, h))

acknowledge_message-Keeps :
    (env : Env) (i : AckInput) → Keeps tasks_of (Messages.acknowledge_message env i)
unfolding Messages.acknowledge_message Messages.acknowledge_pending update_message insert_event
acknowledge_message-Keeps env i db db' r h = ground arith

-- Whatever a command does to the task table is a chain of moves, touched rows and additions.
pub perform-Evolves :
    (env : Env) (path : DocumentPath) (request : Request) (db db' : Db) (r : Response)
    → IsUnique task_key db.tasks
    → perform env path request db ≡ ok (r, db')
    → Evolves (is_reopen request) db.tasks db'.tasks
unfolding perform
perform-Evolves env path (create_task_group i) db db' r unique h =
    let (a, e) = >>=-pure (Groups.create_task_group env i) Response.group db r db' h in
    same (create_task_group-Keeps env i db db' a e)
perform-Evolves env path (start_task_group i) db db' r unique h =
    let (a, e) =
      >>=-pure (Groups.start_task_group env i) (λ p. Response.started_group p.0 p.1) db r db' h in
    start_task_group-Evolves env db db' i a unique e
perform-Evolves env path (create_task i) db db' r unique h =
    let (a, e) = >>=-pure (Create.create_task env path i) Response.created db r db' h in
    create_task-Evolves env path i db db' a e
perform-Evolves env path (bind_task_worker i) db db' r unique h =
    let (a, e) = >>=-pure (Bind.bind_task_worker env i) Response.bound db r db' h in
    bind_task_worker-Evolves env db db' i a e
perform-Evolves env path (start_task i) db db' r unique h =
    let (a, e) = >>=-pure (Lifecycle.start_task env i) Response.view db r db' h in
    start_task-Evolves env db db' i a e
perform-Evolves env path (pause_task i) db db' r unique h =
    let (a, e) = >>=-pure (Lifecycle.pause_task env i) Response.task db r db' h in
    pause_task-Evolves env db db' i a e
perform-Evolves env path (resume_task i) db db' r unique h =
    let (a, e) = >>=-pure (Lifecycle.resume_task env i) Response.task db r db' h in
    resume_task-Evolves env db db' i a e
perform-Evolves env path (terminate_task i) db db' r unique h =
    let (a, e) = >>=-pure (Lifecycle.terminate_task env i) Response.task db r db' h in
    terminate_task-Evolves env db db' i a e
perform-Evolves env path (start_node i) db db' r unique h =
    let (a, e) = >>=-pure (Nodes.start_node env i) Response.node db r db' h in
    start_node-Evolves env db db' i a e
perform-Evolves env path (complete_node i) db db' r unique h =
    let (a, e) = >>=-pure (Complete.complete_node env i) Response.completed db r db' h in
    complete_node-Evolves env db db' i a unique e
perform-Evolves env path (wait_node i) db db' r unique h =
    let (a, e) = >>=-pure (Nodes.wait_node env i) Response.task db r db' h in
    wait_node-Evolves env db db' i a e
perform-Evolves env path (fail_node i) db db' r unique h =
    let (a, e) = >>=-pure (Nodes.fail_node env i) Response.task db r db' h in
    fail_node-Evolves env db db' i a e
perform-Evolves env path (reopen_node i) db db' r unique h =
    let (a, e) = >>=-pure (Reopen.reopen_node env i) (λ p. Response.reopened p.0 p.1) db r db' h in
    reopen_node-Evolves env db db' i a e
perform-Evolves env path (acknowledge_message i) db db' r unique h =
    let (a, e) = >>=-pure (Messages.acknowledge_message env i) Response.message db r db' h in
    same (acknowledge_message-Keeps env i db db' a e)
perform-Evolves env path (put_task_document i) db db' r unique h =
    let (a, e) = >>=-pure (Documents.put_task_document env path i) Response.document db r db' h in
    put_task_document-Evolves env path db db' i a e
