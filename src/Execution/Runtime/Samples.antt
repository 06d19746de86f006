-- ===== src/Execution/Runtime/Samples.antt =====
-- A runtime, its tables and calls, for the theorems at concrete inputs.
use proflow.Base.{
  String, refl, true, false, List, [], ◌∷◌, Option, none, some, text_dec, get_row, if◌then◌else◌,
  ◌==◌,
}
use proflow.Execution.Approvals.{ApprovalRecord, approved, other, Moment}
use proflow.Execution.Runtime.{
  pending, running, succeeded, not_started, started, applied, CapabilityResult, Request,
  ExecutionRecord, Row, Tables, ok, deterministic, is_legal,
}
use proflow.Execution.Runtime.Admission.{Ports, allow}
use proflow.Execution.Runtime.Intents.{Env}
use proflow.Execution.Runtime.Effects.{Run, going, start, finish, Reality}
use proflow.Execution.Runtime.Execute.{World}
use proflow.Execution.Runtime.Life.{IsSound, Sound}
use proflow.Execution.Runtime.History.{Call, execute, cancel, recover}

abbrev pub sample_env : Env
sample_env = record {
  approvals = record {
    parse_date = λ date. if date == "2027-01-01" then 20 else 10;
    sha = λ value. "sha";
  };
  texts = record { stringify = λ a. a.path; metadata = λ stream ref m. stream };
  sha = λ c. c.input;
  signal_sha = λ key. key.execution_ref;
  protect_input = λ input. input;
  protect_request = λ request. request;
  protect_precondition = λ p. p;
  reads_back = λ request. true;
}

abbrev pub noon : Moment
noon = record { time = 12; stamp = "2026-01-01"; id = "7" }

abbrev pub sample_request : String → Option String → Request
sample_request key approval = record {
  scope = record {
    caller_ref = "role:dev";
    task_id = none;
    node_id = none;
    role_ref = none;
    worker_ref = none;
    capability = other "file.write";
    project_root = none;
  };
  execution_ref = none;
  correlation_id = none;
  run_no = none;
  approval_ref = approval;
  idempotency_key = key;
  input = "input";
  method = none;
}

abbrev pub written : CapabilityResult
written = record { capability = "file.write"; data_json = "{}" }

abbrev pub sample_record : String → String → ExecutionRecord
sample_record ref key = record {
  execution_ref = ref;
  capability = "file.write";
  caller_ref = "role:dev";
  correlation_id = none;
  task_id = none;
  node_id = none;
  run_no = none;
  role_ref = none;
  worker_ref = none;
  idempotency_key = key;
  input_fingerprint = "input";
  status = pending;
  side_effect_state = not_started;
  retryable = false;
  decision_path = none;
  approval_ref = none;
  result = none;
  evidence = [];
  evidence_refs = none;
  artifact_refs = none;
  error = none;
  attempt_count = 0;
  created_at = "2026-01-01";
  started_at = none;
  effect_started_at = none;
  finished_at = none;
  updated_at = "2026-01-01";
}

abbrev pub sample_row : ExecutionRecord → Row
sample_row r = record {
  execution_ref = r.execution_ref;
  caller_ref = r.caller_ref;
  capability = r.capability;
  idempotency_key = r.idempotency_key;
  input_fingerprint = r.input_fingerprint;
  request = sample_request r.idempotency_key none;
  execution = r;
  precondition = none;
}

abbrev pub waiting_row : Row
waiting_row = sample_row (sample_record "E1" "k1")

abbrev pub done_row : Row
done_row = sample_row (record (sample_record "E2" "k2") {
  status = succeeded;
  side_effect_state = applied;
  result = some written;
})

abbrev pub stuck_row : Row
stuck_row =
    sample_row (record (sample_record "E3" "k3") { status = running; side_effect_state = started })

abbrev pub sample_approval : ApprovalRecord
sample_approval = record {
  approval_ref = "A1";
  execution_ref = "E1";
  caller_ref = "role:dev";
  task_id = none;
  node_id = none;
  role_ref = none;
  worker_ref = none;
  capability = "file.write";
  input_fingerprint = "input";
  effect_fingerprint = "sha";
  scope_fingerprint = "sha";
  precondition_fingerprint = none;
  status = approved;
  requested_by_actor_ref = "role:dev";
  decided_by_actor_ref = none;
  reason = none;
  requested_at = "2026-01-01";
  expires_at = "2027-01-01";
  decided_at = none;
  revoked_at = none;
  consumed_at = none;
  version = 2;
}

abbrev pub sample_tables : Tables
sample_tables = record {
  executions = waiting_row ∷ done_row ∷ stuck_row ∷ [];
  artifacts = [];
  relations = [];
  signals = [];
  approvals = sample_approval ∷ [];
}

waiting-IsSound : IsSound waiting_row
unfolding is_legal
waiting-IsSound = record {
  execution_ref = refl;
  caller_ref = refl;
  capability = refl;
  idempotency_key = refl;
  input_fingerprint = refl;
  legal = refl;
}

done-IsSound : IsSound done_row
unfolding is_legal text_dec
done-IsSound = record {
  execution_ref = refl;
  caller_ref = refl;
  capability = refl;
  idempotency_key = refl;
  input_fingerprint = refl;
  legal = refl;
}

stuck-IsSound : IsSound stuck_row
unfolding is_legal
stuck-IsSound = record {
  execution_ref = refl;
  caller_ref = refl;
  capability = refl;
  idempotency_key = refl;
  input_fingerprint = refl;
  legal = refl;
}

pub sample-Sound : Sound sample_tables
unfolding get_row text_dec
sample-Sound = record {
  unique = (refl, (refl, (refl, tt)));
  rows = (waiting-IsSound, (done-IsSound, (stuck-IsSound, tt)));
}

abbrev pub open_ports : Ports
open_ports = record { identity = none; policy = none; model = none; approval = none }

-- The executor starts its effect once, and then returns.
abbrev pub sample_run : Run
sample_run = record {
  ports = record open_ports {
    policy =
        some (ok (record { verdict = allow; path = deterministic; approval_required = false }));
  };
  begun = noon;
  stop_begun = going;
  work = some (
      start noon going going "{}" (λ thrown. finish (
        ok (record {
          result = written;
          evidence = [];
          artifacts = [];
          effect_applied = true;
          successful = true;
        }))));
  ended = noon;
  stop_ended = going;
  timed_out = false;
  reconciled = ok (record { state = Reality.unknown; evidence = []; result = none });
}

abbrev pub sample_world : World
sample_world = record {
  now = noon;
  closed = false;
  observed = ok none;
  expires_at = "2027-01-01";
  has_slot = true;
  meanwhile = none;
  run = sample_run;
}

abbrev pub sample_calls : List Call
sample_calls =
    execute sample_world (sample_request "k1" none)
    ∷ recover noon (λ row. none)
    ∷ cancel noon (record { execution_ref = "E2"; caller_ref = "role:dev" })
    ∷ []
