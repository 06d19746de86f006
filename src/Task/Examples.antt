-- ===== src/Task/Examples.antt =====
-- The theorems on the sample rows.
use proflow.Base.{
  ◌≡◌, refl, inl, false, none, some, arith, get_row, put_row, text_key, IsUnique, ◌<◌, text_dec,
  ==-≢,
}
use proflow.Task.Model.{Task}
use proflow.Task.Errors.{DomainError, domain, idempotency_conflict}
use proflow.Task.Requests.{Response}
use proflow.Task.Store.{find_task, find_record, task_key}
use proflow.Task.Store.Rows.{update_task}
use proflow.Task.Store.Logs.{insert_event, insert_record}
use proflow.Task.Store.Logs.{upsert_document}
use proflow.Task.Readiness.{recompute_readiness}
use proflow.Task.Commands.Groups.{update_if_readied}
use proflow.Task.Commands.Documents.{put_task_document, write_document, ensure_type, check_node}
use proflow.Base.{◌+◌, upsert_row}
use proflow.Task.Steps.{require_task, check_version}
use proflow.Task.Commands.Lifecycle.{pause_task}
use proflow.Task.Command.{
  controls_of, operation_of, audit_of, new_record, write_audit, perform_first, command, perform,
  transact, success, failure,
}
use proflow.Task.Command.Replay.{key_of, command-conflict}
use proflow.Task.Command.Again.{command-again}
use proflow.Task.Command.Sequences.{run, run-terminal, run-version, command-Evolves}
use proflow.Task.Progress.{Evolves, Succeeds, Stays}
use proflow.Task.Guards.Versions.{run-stale}
use proflow.Task.Samples

pause_reply :
    (command Samples.pause_env Samples.sample_path Samples.pause_request Samples.in_run).0
    ≡ success (Response.task Samples.paused_task)
unfolding command transact perform_first perform pause_task require_task check_version update_task
    write_audit insert_event insert_record new_record controls_of operation_of audit_of get_row
    put_row text_dec
pause_reply = refl

in_run-IsUnique : IsUnique task_key Samples.in_run.tasks
unfolding get_row text_dec
in_run-IsUnique = (refl, (refl, tt))

found_done : find_task "T0" Samples.in_run ≡ some Samples.done_task
unfolding get_row text_dec
found_done = refl

found_active : find_task "T1" Samples.in_run ≡ some Samples.active_task
unfolding get_row text_dec
found_active = refl

newer_row : 2 < 3
newer_row = ground arith

fresh_key :
    find_record
      (key_of Samples.early_request)
      (run Samples.sample_path Samples.steps Samples.in_run)
    ≡ none
unfolding command transact perform_first perform pause_task require_task check_version update_task
    write_audit insert_event insert_record new_record controls_of operation_of audit_of get_row
    put_row text_dec
fresh_key = refl

command-again_example :
    command Samples.pause_env Samples.sample_path Samples.pause_request (
      run Samples.sample_path Samples.put_steps
        (command Samples.pause_env Samples.sample_path Samples.pause_request Samples.in_run).1)
    ≡ (
      success (Response.task Samples.paused_task),
      run Samples.sample_path Samples.put_steps
          (command Samples.pause_env Samples.sample_path Samples.pause_request Samples.in_run).1,
    )
command-again_example =
    command-again Samples.pause_env Samples.pause_env Samples.sample_path Samples.pause_request
      Samples.in_run (Response.task Samples.paused_task) refl pause_reply Samples.put_steps refl
      (λ s. refl)

command-conflict_example :
    command Samples.pause_env Samples.sample_path Samples.stop_request
      (command Samples.pause_env Samples.sample_path Samples.pause_request Samples.in_run).1
    ≡ (
      failure (domain idempotency_conflict),
      (command Samples.pause_env Samples.sample_path Samples.pause_request Samples.in_run).1,
    )
unfolding operation_of controls_of text_dec
command-conflict_example =
    command-conflict Samples.pause_env Samples.pause_env Samples.sample_path Samples.pause_request
      Samples.in_run (Response.task Samples.paused_task) refl pause_reply Samples.stop_request refl
      (inl (==-≢ _ _ refl))

command-Evolves_example :
    Evolves false Samples.in_run.tasks
      (command Samples.pause_env Samples.sample_path Samples.pause_request Samples.in_run).1.tasks
command-Evolves_example =
    command-Evolves Samples.pause_env Samples.sample_path Samples.pause_request Samples.in_run
      in_run-IsUnique

run-terminal_example :
    (t' : Task) × (find_task "T0" (run Samples.sample_path Samples.put_steps Samples.in_run)
      ≡ some t')
    × Stays Samples.done_task t'
run-terminal_example =
    run-terminal Samples.sample_path Samples.put_steps Samples.in_run "T0" Samples.done_task
      in_run-IsUnique found_done refl

run-version_example :
    (t' : Task) × (find_task "T1" (run Samples.sample_path Samples.steps Samples.in_run) ≡ some t')
    × Succeeds Samples.active_task t'
run-version_example =
    run-version Samples.sample_path Samples.steps Samples.in_run "T1" Samples.active_task
      in_run-IsUnique found_active

run-stale_example :
    (e : DomainError) × (command Samples.pause_env Samples.sample_path Samples.early_request
        (run Samples.sample_path Samples.steps Samples.in_run)
      ≡ (failure e, run Samples.sample_path Samples.steps Samples.in_run))
run-stale_example =
    run-stale Samples.pause_env Samples.sample_path Samples.early_request Samples.early_claim refl
      Samples.steps Samples.in_run Samples.active_task in_run-IsUnique found_active newer_row
      fresh_key

-- A document put for a Task that is over gives its row the next version.
put_on_done_test :
    find_task "T0"
      (command Samples.pause_env Samples.sample_path Samples.put_request Samples.in_run).1
    ≡ some (record Samples.done_task {
      version = Samples.done_task.version + 1;
      updated_at = Samples.pause_env.now;
    })
unfolding command transact perform_first perform put_task_document write_document ensure_type
    check_node require_task check_version update_task upsert_document recompute_readiness
    update_if_readied write_audit insert_event insert_record new_record controls_of operation_of
    audit_of get_row put_row upsert_row text_dec
put_on_done_test = refl
