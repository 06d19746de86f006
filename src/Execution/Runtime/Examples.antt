-- ===== src/Execution/Runtime/Examples.antt =====
-- The theorems on packages/execution-runtime/src/index.ts, at concrete inputs.
use proflow.Base.{
  String, ℕ, ◌≤◌, ◌⊎◌, ==-≢, ◌≡◌, refl, true, false, [], ◌∷◌, none, some, text_dec, get_row,
  put_row,
}
use proflow.Execution.Approvals.Operations
use proflow.Execution.Runtime.{
  ExecutionRecord, SideEffectState, Request, Row, Tables, ok, err, failure, policy_denied,
  idempotency_conflict, deterministic, is_legal, save, find_row, runtime_error, failed_record,
  with_record,
}
use proflow.Execution.Runtime.Artifacts.{register_all, register_each, assert_patch_scope}
use proflow.Execution.Runtime.Admission.{admit, Admission, Intent, validate_approval}
use proflow.Execution.Runtime.Intents.{
  resumed_record, lookup_intent, open_execution, find_or_create, resume_execution, rewrite_row,
  find_intent, is_compatible,
}
use proflow.Execution.Runtime.Effects.{
  with_artifacts, succeeded_record, running_record, still_pending, execute_admitted, attempt,
  start_running, perform_work, finish_work, record_result, going, on_effect_started, started_record,
  store,
}
use proflow.Execution.Runtime.Execute.{
  admit_and_run, take_slot, execute_capability, recover_incomplete, reject_admission,
}
use proflow.Execution.Runtime.Life.{Sound}
use proflow.Execution.Runtime.Recovering.{is_running}
use proflow.Execution.Runtime.Recovery.{recover-is_running}
use proflow.Execution.Runtime.History.{serve, serve-Sound}
use proflow.Execution.Runtime.Repeats.{execute-again, execute-conflict}
use proflow.Execution.Runtime.Late.{reject_admission-overwrites}
use proflow.Execution.Runtime.Slots.{come, end, Balanced, go_on, fresh, semaphore-Balanced}
use proflow.Execution.Runtime.Lookup.{execute-lookup}
use proflow.Execution.Runtime.Samples.{
  written, sample_env, noon, sample_request, sample_record, waiting_row, done_row, sample_tables,
  sample-Sound, sample_run, sample_world, sample_calls,
}

serve-Sound_example : Sound (serve sample_env sample_calls sample_tables)
serve-Sound_example = serve-Sound sample_env sample_calls sample_tables sample-Sound

execute-again_example :
    execute_capability sample_env sample_world
      (sample_request "k2" none)
      (serve sample_env sample_calls sample_tables)
    ≡ (ok done_row.execution, serve sample_env sample_calls sample_tables)
unfolding find_intent text_dec assert_patch_scope
execute-again_example =
    execute-again sample_env sample_calls sample_world (sample_request "k2" none) done_row
      sample_tables sample-Sound refl refl refl refl refl

recover-is_running_example :
    ((recover_incomplete sample_env noon (λ row. none) sample_tables).0 ≡ ok tt)
    × ((ref : String) (after : Row)
        → find_row ref (recover_incomplete sample_env noon (λ row. none) sample_tables).1
          ≡ some after
        → is_running after.execution.status ≡ false)
recover-is_running_example =
    recover-is_running sample_env noon (λ row. none) sample_tables sample-Sound
      (refl, (refl, (refl, tt)))

abbrev other_input : Request
other_input = record (sample_request "k2" none) { input = "another" }

execute-conflict_example :
    execute_capability sample_env sample_world other_input
      (serve sample_env sample_calls sample_tables)
    ≡ (err (failure idempotency_conflict), serve sample_env sample_calls sample_tables)
unfolding find_intent text_dec assert_patch_scope
execute-conflict_example =
    execute-conflict sample_env sample_calls sample_world other_input done_row sample_tables
      sample-Sound refl (==-≢ _ _ refl) (==-≢ _ _ refl) refl refl

-- The record is PENDING for the call, and SUCCEEDED in the table.
reject_admission-overwrites_example :
    find_row "E2"
      (reject_admission sample_env sample_world
        (sample_request "k2" none)
        (sample_record "E2" "k2")
        (failure policy_denied)
        sample_tables).1
    ≡ some (
        with_record
          (failed_record noon (runtime_error (failure policy_denied)) (sample_record "E2" "k2"))
          none
          done_row)
unfolding get_row is_legal text_dec
reject_admission-overwrites_example =
    reject_admission-overwrites sample_env sample_world (sample_request "k2" none)
      (sample_record "E2" "k2") (failure policy_denied) sample_tables done_row refl refl refl refl

semaphore-Balanced_example :
    (slots : ℕ) × (1 ≤ slots)
    × (1 ≤ slots)
    × ((slots ≡ 1) ⊎ (slots ≡ 1))
    × Balanced 1 slots (go_on 1 (come "a" ∷ come "b" ∷ end ∷ []) (fresh 1 1))
semaphore-Balanced_example = semaphore-Balanced 1 1 (come "a" ∷ come "b" ∷ end ∷ [])

abbrev asking : Intent
asking = record {
  request = sample_request "k1" (some "A1");
  execution_ref = "E1";
  input_fingerprint = "input";
}

abbrev needs_approval : Admission
needs_approval = record { path = deterministic; approval_required = true }

abbrev effect_tables : Tables
effect_tables =
    (on_effect_started sample_env sample_run asking needs_approval noon going going "{}"
      waiting_row.execution sample_tables).1

abbrev written_record : ExecutionRecord
written_record = with_artifacts [] (
    succeeded_record noon SideEffectState.applied written [] (
      started_record noon (
        running_record noon
          (record {
            request = sample_request "k1" none;
            execution_ref = "E1";
            input_fingerprint = "input";
          })
          (record { path = deterministic; approval_required = false })
          (resumed_record sample_env noon waiting_row.execution))))

execute-lookup_example :
    (is_legal written_record ≡ true)
    × (lookup_intent sample_env
          (sample_request "k1" none)
          (execute_capability sample_env sample_world (sample_request "k1" none) sample_tables).1
        ≡ (
          ok written_record,
          (execute_capability sample_env sample_world (sample_request "k1" none) sample_tables).1,
        ))
unfolding execute_capability open_execution assert_patch_scope find_or_create find_intent text_dec
    resume_execution is_compatible is_legal rewrite_row put_row admit_and_run admit
    validate_approval take_slot still_pending get_row execute_admitted attempt start_running store
    save perform_work on_effect_started finish_work register_all register_each record_result
execute-lookup_example =
    execute-lookup sample_env (sample_request "k1" none) sample_world sample_tables written_record
      sample-Sound refl refl
