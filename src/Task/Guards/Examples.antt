-- ===== src/Task/Guards/Examples.antt =====
-- The theorems on the guards of the commands, on the sample rows.
use proflow.Base.{
  String, ◌≡◌, ◌≢◌, ◌↔◌, refl, Bool, true, false, none, some, get_row, put_row, upsert_row, sort_by,
  sort_from, insert_sorted, text_dec, text_key, ==-≢, IsUnique, All,
}
use proflow.Task.Model.{Task, TaskNode}
use proflow.Task.Errors.{Result, ok, err}
use proflow.Task.Environment.{content_hash}
use proflow.Task.Store.{Db, find_node, node_key, task_key}
use proflow.Task.Store.Rows.{update_task, update_node}
use proflow.Task.Store.Logs.{insert_history, insert_message, upsert_binding}
use proflow.Task.Store.Lists.{list_nodes, list_bindings, list_tasks_all, list_history}
use proflow.Task.Readiness
use proflow.Task.Steps.{
  require_task, require_node, check_version, for_each, matches_worker, preserve_run_history,
  node_result,
}
use proflow.Task.Commands.Lifecycle.{start_task, terminate_node, terminate_task, pause_task, view}
use proflow.Task.Commands.Nodes.{start_node, wait_node, fail_node}
use proflow.Task.Commands.Complete
use proflow.Task.Commands.Groups.{update_if_readied}
use proflow.Task.Commands.Bind.{bound_to_another, bind_anew, bind_task_worker}
use proflow.Task.Command.{perform}
use proflow.Task.Requests.{BindTaskWorkerResult, CompleteNodeResult, Response}
use proflow.Task.Queries.{summary, drive_node, drive_block, projection}
use proflow.Task.Guards.Starting.{
  CanStart, Startable, started, touched, start_node-CanStart, start_node-writes,
}
use proflow.Task.Guards.Ready.{HasRequirement, HasPackages, IsNext, readiness_blocked_reason-none}
use proflow.Task.Guards.Offers.{
  IsOffered, begun, begun_db, start_task-IsOffered, IsOffered-start_task, Startable-can_drive,
}
use proflow.Task.Guards.Completing.{IsRunBy, IsDelivered, complete_node-IsDelivered}
use proflow.Task.Guards.Binding.{IsExclusive, bind_task_worker-IsExclusive}
use proflow.Task.Guards.Ending.{HasEnded, terminate_task-HasEnded}
use proflow.Task.Guards.Waking.{IsUnblocked, resume_task-IsUnblocked}
use proflow.Task.Commands.Messages.{acknowledge_pending, acknowledge_message}
use proflow.Task.Commands.Lifecycle.{current_node, resume_waiting, resume_task}
use proflow.Task.Model.{TaskStatus, NodeStatus, TaskMessage}
use proflow.Task.Store.{find_task}
use proflow.Task.Store.Logs.{update_message, insert_event}
use proflow.Task.Store.Lists.{list_pending}
use proflow.Base.{◌⊎◌}
use proflow.Task.Guards.Creating.{PlannedFrom, create_task-planned}
use proflow.Task.Commands.Create
use proflow.Task.Requests.{CreateTaskResult}
use proflow.Task.Store.Rows.{insert_task, insert_node}
use proflow.Task.Store.Logs.{upsert_document}
use proflow.Base.{List, ◌++◌}
use proflow.Task.Samples

abbrev is_ok : {A : Type 0} → Result A → Bool
is_ok (ok _) = true
is_ok (err _) = false

-- What a step that succeeds yields.
outcome : {A : Type 0} (x : Result A) → is_ok x ≡ true → (a : A) × (x ≡ ok a)
outcome (ok a) h = (a, refl)
outcome (err e) h = cc

startable :
    Startable Samples.on_node Samples.before_run Samples.active_task Samples.ready_node
      Samples.worker_binding "w1" "c1"
unfolding get_row text_dec
startable = record {
  found_task = refl;
  found_node = refl;
  found_binding = refl;
  same_task = refl;
  task_version = refl;
  node_version = refl;
  active = refl;
  ready = refl;
  current = refl;
  has_worker = refl;
  named_worker = ==-≢ _ _ refl;
  has_locator = refl;
  named_locator = ==-≢ _ _ refl;
  by_worker = refl;
}

abbrev started_db : Db
started_db = record Samples.before_run {
  tasks = put_row task_key (touched Samples.pause_env Samples.active_task) Samples.before_run.tasks;
  nodes =
      put_row node_key (started Samples.pause_env Samples.ready_node "w1") Samples.before_run.nodes;
}

start_node-writes_example :
    start_node Samples.pause_env Samples.on_node Samples.before_run
    ≡ ok (
      node_result
          (touched Samples.pause_env Samples.active_task)
          (started Samples.pause_env Samples.ready_node "w1"),
      started_db,
    )
start_node-writes_example =
    start_node-writes Samples.pause_env Samples.on_node Samples.before_run Samples.active_task
      Samples.ready_node Samples.worker_binding "w1" "c1" startable

start_node-CanStart_example : CanStart Samples.on_node Samples.before_run
start_node-CanStart_example =
    start_node-CanStart Samples.pause_env Samples.on_node Samples.before_run
      (node_result (touched Samples.pause_env Samples.active_task)
        (started Samples.pause_env Samples.ready_node "w1"))
      started_db
      (start_node-writes Samples.pause_env Samples.on_node Samples.before_run Samples.active_task
        Samples.ready_node Samples.worker_binding "w1" "c1" startable)

readiness_blocked_reason-none_example :
    (Readiness.readiness_blocked_reason Samples.pause_env Samples.before_run Samples.ready_task
      ≡ none)
    ↔ (HasRequirement Samples.pause_env Samples.before_run Samples.ready_task
        × HasPackages Samples.before_run Samples.ready_task
        × IsNext Samples.before_run Samples.ready_task none)
readiness_blocked_reason-none_example =
    readiness_blocked_reason-none Samples.pause_env Samples.before_run Samples.ready_task

before_run-IsUnique : IsUnique node_key Samples.before_run.nodes
unfolding get_row text_dec
before_run-IsUnique = (refl, (refl, tt))

offered :
    IsOffered Samples.pause_env
      (Samples.on_task "T2" 3)
      Samples.before_run
      Samples.ready_task
      Samples.first_node
unfolding get_row text_dec summary Readiness.readiness_blocked_reason Readiness.requirement_block
    Readiness.package_block Readiness.binding_block Readiness.group_block content_hash list_nodes
    list_bindings sort_by sort_from insert_sorted
offered = record { found = refl; version = refl; can_start = refl; head_is = refl }

IsOffered-start_task_example :
    start_task Samples.pause_env (Samples.on_task "T2" 3) Samples.before_run
    ≡ ok (
      view Samples.pause_env
          (begun Samples.pause_env Samples.ready_task Samples.first_node)
          (begun_db Samples.pause_env Samples.ready_task Samples.first_node Samples.before_run),
      begun_db Samples.pause_env Samples.ready_task Samples.first_node Samples.before_run,
    )
IsOffered-start_task_example =
    IsOffered-start_task Samples.pause_env (Samples.on_task "T2" 3) Samples.before_run
      Samples.ready_task Samples.first_node before_run-IsUnique offered

start_task-IsOffered_example :
    (task : Task) × (head : TaskNode) × IsOffered Samples.pause_env
      (Samples.on_task "T2" 3)
      Samples.before_run
      task
      head
start_task-IsOffered_example =
    start_task-IsOffered Samples.pause_env (Samples.on_task "T2" 3) Samples.before_run
      (view Samples.pause_env (begun Samples.pause_env Samples.ready_task Samples.first_node)
        (begun_db Samples.pause_env Samples.ready_task Samples.first_node Samples.before_run))
      (begun_db Samples.pause_env Samples.ready_task Samples.first_node Samples.before_run)
      (IsOffered-start_task Samples.pause_env (Samples.on_task "T2" 3) Samples.before_run
        Samples.ready_task Samples.first_node before_run-IsUnique offered)

named_node : Samples.on_node.node_id ≢ ""
unfolding text_dec
named_node = ==-≢ _ _ refl

drivable : (projection Samples.active_task Samples.before_run).can_drive ≡ true
unfolding projection drive_block get_row text_dec
drivable = refl

in_run-IsUnique : IsUnique node_key Samples.in_run.nodes
unfolding get_row text_dec
in_run-IsUnique = (refl, tt)

found_run : find_node "N1" Samples.in_run ≡ some Samples.running_node
unfolding get_row text_dec
found_run = refl

waited : (a : Task × Db) × (wait_node Samples.pause_env Samples.wait_input Samples.in_run ≡ ok a)
unfolding wait_node insert_message require_task require_node check_version matches_worker
    update_node update_task get_row put_row text_dec
waited = outcome (wait_node Samples.pause_env Samples.wait_input Samples.in_run) refl

failed : (a : Task × Db) × (fail_node Samples.pause_env Samples.fail_input Samples.in_run ≡ ok a)
unfolding fail_node preserve_run_history insert_history list_history require_task require_node
    check_version matches_worker update_node update_task get_row put_row text_dec
failed = outcome (fail_node Samples.pause_env Samples.fail_input Samples.in_run) refl

completed_run :
    (a : CompleteNodeResult × Db) × (Complete.complete_node Samples.pause_env Samples.complete_input
        Samples.in_run
      ≡ ok a)
unfolding Complete.complete_node Complete.complete_run Complete.check_output Complete.advance
    Complete.finish_group for_each content_hash insert_history list_nodes sort_by sort_from
    insert_sorted require_task require_node check_version matches_worker update_node update_task
    get_row put_row text_dec
completed_run =
    outcome (Complete.complete_node Samples.pause_env Samples.complete_input Samples.in_run) refl

bound :
    (a : BindTaskWorkerResult × Db) × (bind_task_worker Samples.pause_env Samples.bind_input
        Samples.before_run
      ≡ ok a)
unfolding bind_task_worker bind_anew bound_to_another update_if_readied upsert_binding upsert_row
    Readiness.recompute_readiness list_tasks_all list_bindings sort_by sort_from insert_sorted
    require_task require_node check_version matches_worker update_node update_task get_row put_row
    text_dec
bound = outcome (bind_task_worker Samples.pause_env Samples.bind_input Samples.before_run) refl

terminated :
    (a : Task × Db) × (terminate_task Samples.pause_env Samples.reason_input Samples.in_run ≡ ok a)
unfolding terminate_task terminate_node preserve_run_history insert_history list_history for_each
    list_nodes sort_by sort_from insert_sorted require_task require_node check_version
    matches_worker update_node update_task get_row put_row text_dec
terminated = outcome (terminate_task Samples.pause_env Samples.reason_input Samples.in_run) refl

paused :
    (a : Response × Db) × (perform Samples.pause_env Samples.sample_path Samples.pause_request
        Samples.in_run
      ≡ ok a)
unfolding perform pause_task require_task require_node check_version matches_worker update_node
    update_task get_row put_row text_dec
paused =
    outcome (perform Samples.pause_env Samples.sample_path Samples.pause_request Samples.in_run)
      refl

Startable-can_drive_example :
    ((projection Samples.active_task Samples.before_run).can_drive ≡ true)
    × ((projection Samples.active_task Samples.before_run).blocked_reason ≡ none)
    × ((projection Samples.active_task Samples.before_run).current_node
        ≡ drive_node (some Samples.ready_node))
Startable-can_drive_example =
    Startable-can_drive Samples.on_node Samples.before_run Samples.active_task Samples.ready_node
      Samples.worker_binding "w1" "c1" named_node startable

complete_node-IsDelivered_example :
    (task : Task) × (node : TaskNode) × (worker : String) × IsRunBy Samples.on_node Samples.in_run
      task node worker
    × All (IsDelivered Samples.pause_env Samples.in_run "T1") node.output_documents
complete_node-IsDelivered_example =
    complete_node-IsDelivered Samples.pause_env Samples.in_run completed_run.0.1
      Samples.complete_input completed_run.0.0 completed_run.1

bind_task_worker-IsExclusive_example : IsExclusive Samples.bind_input Samples.before_run
bind_task_worker-IsExclusive_example =
    bind_task_worker-IsExclusive Samples.bind_input Samples.before_run Samples.pause_env bound.0.0
      bound.0.1 bound.1

terminate_task-HasEnded_example : HasEnded terminated.0.1 Samples.running_node
terminate_task-HasEnded_example =
    terminate_task-HasEnded Samples.pause_env Samples.reason_input Samples.in_run terminated.0.1
      terminated.0.0 in_run-IsUnique terminated.1 "N1" Samples.running_node found_run refl

resumed :
    (a : Task × Db) × (resume_task Samples.pause_env (Samples.on_task "T3" 3) Samples.in_wait
      ≡ ok a)
unfolding resume_task resume_waiting list_pending sort_by sort_from insert_sorted require_task
    require_node check_version matches_worker update_node update_task get_row put_row text_dec
resumed = outcome (resume_task Samples.pause_env (Samples.on_task "T3" 3) Samples.in_wait) refl

acknowledged :
    (a : TaskMessage × Db) × (acknowledge_message Samples.pause_env Samples.ack_input
        Samples.in_wait
      ≡ ok a)
unfolding acknowledge_message acknowledge_pending update_message insert_event require_task
    require_node check_version matches_worker update_node update_task get_row put_row text_dec
acknowledged =
    outcome (acknowledge_message Samples.pause_env Samples.ack_input Samples.in_wait) refl

resume_task-IsUnblocked_example :
    (task : Task) × (find_task "T3" Samples.in_wait ≡ some task)
    × ((task.status ≡ TaskStatus.waiting) ⊎ (task.status ≡ TaskStatus.paused))
    × ((node : TaskNode)
        → current_node task Samples.in_wait ≡ some node
        → node.status ≡ NodeStatus.waiting
        → IsUnblocked task node Samples.in_wait)
resume_task-IsUnblocked_example =
    resume_task-IsUnblocked Samples.pause_env (Samples.on_task "T3" 3) Samples.in_wait resumed.0.1
      resumed.0.0 resumed.1

created :
    (a : CreateTaskResult × Db) × (Create.create_task Samples.pause_env Samples.sample_path
        Samples.create_input Samples.in_run
      ≡ ok a)
unfolding Create.create_task Create.create_rows Create.insert_plan Create.insert_role_binding
    Create.index_document insert_task insert_node upsert_binding upsert_row upsert_document
    insert_event content_hash for_each get_row text_dec
created =
    outcome
      (Create.create_task Samples.pause_env Samples.sample_path Samples.create_input Samples.in_run)
      refl

create_task-planned_example :
    (find_task "T5" Samples.in_run ≡ none)
    × ((added : List TaskNode) × (created.0.1.nodes ≡ Samples.in_run.nodes ++ added)
        × PlannedFrom Samples.pause_env "T5" 1 Samples.create_input.plan added)
create_task-planned_example =
    create_task-planned Samples.pause_env Samples.sample_path Samples.create_input Samples.in_run
      created.0.1 created.0.0 created.1
