-- ===== src/Task/Command/Records/Handlers.antt =====
-- The idempotency records: each handler leaves them alone.
use proflow.Base.{
  String, ℕ, ◌+◌, List, [], ◌∷◌, Option, none, some, arith, find, Option-cases, inl, inr,
}
use proflow.Task.Model.{Task, TaskGroup, TaskNode}
use proflow.Task.Errors.{gets}
use proflow.Task.Requests.{
  Env, PlanNodeInput, RoleBindingView, InitialDocument, CreateGroupInput, StartGroupInput,
  CreateTaskInput, BindInput, TaskControls, ReasonInput, NodeControls, CompleteInput, WaitInput,
  FailInput, ReopenInput, AckInput, PutDocumentInput, Request, create_task_group, start_task_group,
  create_task, bind_task_worker, start_task, pause_task, resume_task, terminate_task, start_node,
  complete_node, wait_node, fail_node, reopen_node, acknowledge_message, put_task_document,
}
use proflow.Task.Store.{find_group}
use proflow.Task.Store.Rows.{update_task, update_node}
use proflow.Task.Store.Logs.{
  upsert_binding, upsert_document, insert_message, update_message, insert_event, insert_history,
}
use proflow.Task.Store.Lists.{list_nodes, list_tasks_of}
use proflow.Task.Steps.{require_task, require_node, check_version, preserve_run_history}
use proflow.Task.Steps.Loops.{Keeps, Keeps->>=, Keeps->>, for_each-Keeps, Kept, Keeps-Kept}
use proflow.Task.Commands.Groups
use proflow.Task.Commands.Groups.{first_ready, update_if_readied, ready_members}
use proflow.Task.Readiness.{recompute_readiness}
use proflow.Task.Commands.Create
use proflow.Task.Commands.Create.{
  insert_plan, insert_role_binding, index_document, create_rows, new_task,
}
use proflow.Task.Commands.Bind
use proflow.Task.Commands.Bind.{bind_anew}
use proflow.Task.Commands.Lifecycle
use proflow.Task.Commands.Lifecycle.{resume_waiting, terminate_node}
use proflow.Task.Commands.Nodes
use proflow.Task.Commands.Complete
use proflow.Task.Commands.Complete.{
  is_next_task, closed, check_output, advance, group_of, ready_next_task, close_group, finish_group,
  complete_run,
}
use proflow.Task.Commands.Reopen
use proflow.Task.Commands.Reopen.{invalidate_later, reopen_nodes}
use proflow.Task.Commands.Messages
use proflow.Task.Commands.Messages.{acknowledge_pending}
use proflow.Task.Commands.Documents
use proflow.Task.Commands.Documents.{ensure_type, check_node, write_document}
use proflow.Task.Command.{DocumentPath, perform}
use proflow.Task.Command.Records.{
  records_of, keeps, gets-Keeps, pure-Keeps, update_node-Keeps, insert_node-Keeps,
  update_group-Keeps, insert_event-Keeps, insert_history-Keeps, preserve-Keeps,
}

module _ (env : Env) where
  update_if_readied-Keeps : (t r : Task) → Keeps records_of (update_if_readied t r)
  unfolding update_if_readied update_task
  update_if_readied-Keeps t r db db' u h = ground arith

  ready_members-Keeps :
      (found : Option String) (members : List Task)
      → Keeps records_of (ready_members env found members)
  unfolding ready_members
  ready_members-Keeps found [] = pure-Keeps found
  ready_members-Keeps found (m ∷ ms) =
      Keeps->>= records_of (gets (λ db. recompute_readiness env db m)) _ (gets-Keeps _) (λ readied.
        Keeps->> records_of _ _ (update_if_readied-Keeps m readied)
          (ready_members-Keeps (first_ready found readied) ms))

  start_task_group-Keeps : (i : StartGroupInput) → Keeps records_of (Groups.start_task_group env i)
  unfolding Groups.start_task_group
  start_task_group-Keeps i = search (keeps, ready_members-Keeps) depth 24

  insert_plan-Keeps :
      (id : String) (plan : List PlanNodeInput) (index : ℕ)
      → Keeps records_of (insert_plan env id index plan)
  unfolding insert_plan
  insert_plan-Keeps id [] index = λ db db' u h. ground (arith, h)
  insert_plan-Keeps id (item ∷ plan) index =
      Keeps->> records_of _ _ (insert_node-Keeps _) (insert_plan-Keeps id plan (index + 1))

  create_rows-Keeps :
      (path : DocumentPath) (i : CreateTaskInput) → Keeps records_of (create_rows env path i)
  unfolding create_rows insert_role_binding upsert_binding index_document upsert_document
      insert_event
  create_rows-Keeps path i = Keeps->> records_of _ _ (insert_plan-Keeps i.task_id i.plan 0) (
      Keeps->> records_of _ _
        (for_each-Keeps records_of _ (λ (b : RoleBindingView) db db' u h. ground arith)
          i.role_bindings)
        (Keeps->> records_of _ _
          (for_each-Keeps records_of _ (λ (d : InitialDocument) db db' u h. ground arith)
            i.initial_documents)
          (insert_event-Keeps _)))

  create_task-Keeps :
      (path : DocumentPath) (i : CreateTaskInput) → Keeps records_of (Create.create_task env path i)
  unfolding Create.create_task
  create_task-Keeps path i = search (keeps, create_rows-Keeps) depth 24

  bind_task_worker-Keeps : (i : BindInput) → Keeps records_of (Bind.bind_task_worker env i)
  unfolding Bind.bind_task_worker bind_anew require_task check_version upsert_binding update_task
      update_if_readied
  bind_task_worker-Keeps i db db' r h = ground arith

  start_task-Keeps : (i : TaskControls) → Keeps records_of (Lifecycle.start_task env i)
  unfolding Lifecycle.start_task require_task check_version update_node update_task
  start_task-Keeps i db db' r h = ground arith

  pause_task-Keeps : (i : ReasonInput) → Keeps records_of (Lifecycle.pause_task env i)
  unfolding Lifecycle.pause_task require_task check_version update_task
  pause_task-Keeps i db db' r h = ground arith

  resume_task-Keeps : (i : TaskControls) → Keeps records_of (Lifecycle.resume_task env i)
  unfolding Lifecycle.resume_task resume_waiting require_task check_version update_node update_task
  resume_task-Keeps i db db' r h = ground arith

  terminate_node-Keeps : (n : TaskNode) → Keeps records_of (terminate_node env n)
  unfolding terminate_node preserve_run_history insert_history update_node
  terminate_node-Keeps n db db' u h = ground arith

  terminate_task-Keeps : (i : ReasonInput) → Keeps records_of (Lifecycle.terminate_task env i)
  unfolding Lifecycle.terminate_task
  terminate_task-Keeps i = search (keeps, terminate_node-Keeps) depth 24

  start_node-Keeps : (i : NodeControls) → Keeps records_of (Nodes.start_node env i)
  unfolding Nodes.start_node require_task require_node check_version update_node update_task
  start_node-Keeps i db db' r h = ground arith

  wait_node-Keeps : (i : WaitInput) → Keeps records_of (Nodes.wait_node env i)
  unfolding Nodes.wait_node require_task require_node check_version update_node update_task
      insert_message
  wait_node-Keeps i db db' r h = ground arith

  fail_node-Keeps : (i : FailInput) → Keeps records_of (Nodes.fail_node env i)
  unfolding Nodes.fail_node require_task require_node check_version update_node update_task
      preserve_run_history insert_history
  fail_node-Keeps i db db' r h = ground arith

  check_output-Keeps : (id kind : String) → Keeps records_of (check_output env id kind)
  unfolding check_output
  check_output-Keeps id kind db db' u h = ground arith

  advance-Keeps : (t : Task) (o : Option TaskNode) → Keeps records_of (advance env t o)
  unfolding advance update_node
  advance-Keeps t none db db' r h = ground arith
  advance-Keeps t (some n) db db' r h = ground arith

  complete_run-Keeps :
      (i : CompleteInput) (t : Task) (n : TaskNode) → Keeps records_of (complete_run env i t n)
  unfolding complete_run
  complete_run-Keeps i t n =
      Keeps->> records_of _ _
        (for_each-Keeps records_of _ (check_output-Keeps t.task_id) n.output_documents)
        (Keeps->> records_of _ _ (update_node-Keeps _)
          (Keeps->> records_of _ _ (insert_history-Keeps _) (λ db. advance-Keeps t _ db)))

  ready_next_task-Keeps : (o : Option Task) → Keeps records_of (ready_next_task env o)
  unfolding ready_next_task update_if_readied update_task
  ready_next_task-Keeps none db db' u h = ground arith
  ready_next_task-Keeps (some t) db db' u h = ground arith

  close_group-Keeps : (t : Task) (o : Option TaskGroup) → Keeps records_of (close_group env t o)
  unfolding close_group
  close_group-Keeps t none = λ db db' u h. ground (arith, h)
  close_group-Keeps t (some g) =
      Keeps->>= records_of (gets (list_tasks_of g.task_group_id)) _ (gets-Keeps _) (λ tasks.
        Keeps->> records_of _ _ (ready_next_task-Keeps (find (is_next_task t) tasks))
          (update_group-Keeps (closed env t g tasks)))

  finish_group-Keeps : (t v : Task) → Keeps records_of (finish_group env t v)
  unfolding finish_group
  finish_group-Keeps t v db db' u h =
      let kept : (id : String) → Kept records_of db (close_group env t (find_group id db) db) =
        λ id. Keeps-Kept records_of _ (close_group-Keeps t (find_group id db)) db in
      elim (Option-cases (group_of t)) [
        | inl e ↦ ground (arith, h, e)
        | inr (id, e) ↦ ground (arith, h, e, kept id)
      ]

  complete_node-Keeps : (i : CompleteInput) → Keeps records_of (Complete.complete_node env i)
  unfolding Complete.complete_node
  complete_node-Keeps i = search (keeps, complete_run-Keeps, finish_group-Keeps) depth 24

  invalidate_later-Keeps : (target n : TaskNode) → Keeps records_of (invalidate_later env target n)
  unfolding invalidate_later preserve_run_history insert_history update_node
  invalidate_later-Keeps target n db db' u h = ground arith

  reopen_nodes-Keeps : (t : Task) (n : TaskNode) → Keeps records_of (reopen_nodes env t n)
  unfolding reopen_nodes
  reopen_nodes-Keeps t n = Keeps->> records_of _ _ (preserve-Keeps n n.status env.now) (
      Keeps->> records_of _ _ (update_node-Keeps _) (λ db.
        for_each-Keeps records_of (invalidate_later env n) (invalidate_later-Keeps n)
          (list_nodes t.task_id db) db))

  reopen_node-Keeps : (i : ReopenInput) → Keeps records_of (Reopen.reopen_node env i)
  unfolding Reopen.reopen_node
  reopen_node-Keeps i = search (keeps, reopen_nodes-Keeps) depth 24

  acknowledge_message-Keeps : (i : AckInput) → Keeps records_of (Messages.acknowledge_message env i)
  unfolding Messages.acknowledge_message acknowledge_pending update_message insert_event
  acknowledge_message-Keeps i db db' r h = ground arith

  check_node-Keeps : (id : String) (node : Option String) → Keeps records_of (check_node id node)
  unfolding check_node require_node
  check_node-Keeps id none db db' u h = ground arith
  check_node-Keeps id (some n) db db' u h = ground arith

  write_document-Keeps :
      (path : DocumentPath) (i : PutDocumentInput) (t : Task)
      → Keeps records_of (write_document env path i t)
  unfolding write_document
  write_document-Keeps path i t = search (keeps, update_if_readied-Keeps) depth 24

  ensure_type-Keeps : (t : String) → Keeps records_of (ensure_type t)
  unfolding ensure_type
  ensure_type-Keeps t db db' u h = ground arith

  put_task_document-Keeps :
      (path : DocumentPath) (i : PutDocumentInput)
      → Keeps records_of (Documents.put_task_document env path i)
  unfolding Documents.put_task_document
  put_task_document-Keeps path i =
      search (keeps, check_node-Keeps, ensure_type-Keeps, write_document-Keeps) depth 24

  create_task_group-Keeps :
      (i : CreateGroupInput) → Keeps records_of (Groups.create_task_group env i)
  unfolding Groups.create_task_group
  create_task_group-Keeps i = search (keeps) depth 24

  -- Whatever a handler does, the records stay as they are.
  pub perform-records :
      (path : DocumentPath) (request : Request) → Keeps records_of (perform env path request)
  unfolding perform
  perform-records path (create_task_group i) =
      Keeps->>= records_of _ _ (create_task_group-Keeps i) (λ a. pure-Keeps _)
  perform-records path (start_task_group i) =
      Keeps->>= records_of _ _ (start_task_group-Keeps i) (λ a. pure-Keeps _)
  perform-records path (create_task i) =
      Keeps->>= records_of _ _ (create_task-Keeps path i) (λ a. pure-Keeps _)
  perform-records path (bind_task_worker i) =
      Keeps->>= records_of _ _ (bind_task_worker-Keeps i) (λ a. pure-Keeps _)
  perform-records path (start_task i) =
      Keeps->>= records_of _ _ (start_task-Keeps i) (λ a. pure-Keeps _)
  perform-records path (pause_task i) =
      Keeps->>= records_of _ _ (pause_task-Keeps i) (λ a. pure-Keeps _)
  perform-records path (resume_task i) =
      Keeps->>= records_of _ _ (resume_task-Keeps i) (λ a. pure-Keeps _)
  perform-records path (terminate_task i) =
      Keeps->>= records_of _ _ (terminate_task-Keeps i) (λ a. pure-Keeps _)
  perform-records path (start_node i) =
      Keeps->>= records_of _ _ (start_node-Keeps i) (λ a. pure-Keeps _)
  perform-records path (complete_node i) =
      Keeps->>= records_of _ _ (complete_node-Keeps i) (λ a. pure-Keeps _)
  perform-records path (wait_node i) =
      Keeps->>= records_of _ _ (wait_node-Keeps i) (λ a. pure-Keeps _)
  perform-records path (fail_node i) =
      Keeps->>= records_of _ _ (fail_node-Keeps i) (λ a. pure-Keeps _)
  perform-records path (reopen_node i) =
      Keeps->>= records_of _ _ (reopen_node-Keeps i) (λ a. pure-Keeps _)
  perform-records path (acknowledge_message i) =
      Keeps->>= records_of _ _ (acknowledge_message-Keeps i) (λ a. pure-Keeps _)
  perform-records path (put_task_document i) =
      Keeps->>= records_of _ _ (put_task_document-Keeps path i) (λ a. pure-Keeps _)
