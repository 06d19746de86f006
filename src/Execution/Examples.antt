-- ===== src/Execution/Examples.antt =====
-- The theorems on packages/execution-runtime, at concrete inputs.
use proflow.Base.{
  String, ◌≡◌, refl, List, [], ◌∷◌, none, some, if◌then◌else◌, ◌==◌, text_dec, get_row, sort_by,
}
use proflow.Execution.Approvals.{
  Status, approved, pending, denied, other, ExecuteRequest, ApprovalRecord, of_effect, of_scope,
  of_precondition, approval_state_invalid, Runtime, Moment, Owner, find_approval, err,
}
use proflow.Execution.Approvals.Operations
use proflow.Execution.Approvals.Operations.{
  ValidateInput, EnsureInput, Decision, DecideInput, deny, get_approval, moved, consume_current,
  decide_current, decide_approval, validate, validate_current, is_for, fits,
  approval_effect_fingerprint, patch_artifact_binding, ensure_pending_approval, request_approval,
  insert_approval,
}
use proflow.Execution.Approvals.Trail.{Trail}
use proflow.Execution.Approvals.Requests.{IsOpen, ensure-IsOpen}
use proflow.Execution.Approvals.Validity.{IsValid, validate-IsValid}
use proflow.Execution.Approvals.History.{Call, run}
use proflow.Execution.Approvals.Final.{run-Trail, consume-again}

-- The dates are two: one far off, and all others.
abbrev sample_runtime : Runtime
sample_runtime = record {
  parse_date = λ date. if date == "2027-01-01" then 20 else 10;
  sha = λ value. elim value [
    | of_effect e ↦ e.capability
    | of_scope c ↦ c.caller_ref
    | of_precondition p ↦ p
  ];
}

abbrev noon : Moment
noon = record { time = 12; stamp = "2026-01-01"; id = "7" }

abbrev sample_request : ExecuteRequest
sample_request = record {
  caller_ref = "role:dev";
  task_id = none;
  node_id = none;
  role_ref = none;
  worker_ref = none;
  capability = other "process.run";
  project_root = none;
}

abbrev sample_approval : String → Status → ApprovalRecord
sample_approval ref status = record {
  approval_ref = ref;
  execution_ref = "E1";
  caller_ref = "role:dev";
  task_id = none;
  node_id = none;
  role_ref = none;
  worker_ref = none;
  capability = "process.run";
  input_fingerprint = "input";
  effect_fingerprint = "process.run";
  scope_fingerprint = "role:dev";
  precondition_fingerprint = none;
  status = status;
  requested_by_actor_ref = "role:dev";
  decided_by_actor_ref = none;
  reason = none;
  requested_at = "2026-01-01";
  expires_at = "2027-01-01";
  decided_at = none;
  revoked_at = none;
  consumed_at = none;
  version = 2;
}

abbrev sample_owner : Owner
sample_owner = record {
  approvals =
      sample_approval "A1" approved
      ∷ sample_approval "A2" denied
      ∷ sample_approval "A3" pending
      ∷ [];
  executions =
      record { execution_ref = "E1"; request = sample_request; input_fingerprint = "input" } ∷ [];
  artifacts = [];
}

abbrev sample_input : String → ValidateInput
sample_input ref = record {
  approval_ref = ref;
  execution_ref = "E1";
  caller_ref = "role:dev";
  task_id = none;
  capability = "process.run";
  input_fingerprint = "input";
  request = sample_request;
  precondition = none;
  now = "2026-01-01";
}

abbrev some_calls : List (Moment × Call)
some_calls = (noon, Call.get "A2") ∷ (noon, Call.consume "A2") ∷ []

run-Trail_example :
    (b : ApprovalRecord) × (find_approval "A1" (run sample_runtime some_calls sample_owner)
      ≡ some b)
    × Trail (sample_approval "A1" approved) b
unfolding get_row text_dec
run-Trail_example =
    run-Trail sample_runtime some_calls sample_owner "A1" (sample_approval "A1" approved) refl

abbrev consumed_approval : ApprovalRecord
consumed_approval = record (moved sample_runtime Status.consumed (sample_approval "A1" approved)) {
  consumed_at = some "2026-01-01";
}

consume-again_example :
    (Operations.consume sample_runtime noon "A1" (
      run sample_runtime some_calls (Operations.consume sample_runtime noon "A1" sample_owner).1)).0
    ≡ err approval_state_invalid
unfolding Operations.consume get_approval consume_current get_row text_dec
consume-again_example =
    consume-again sample_runtime noon noon "A1" sample_owner consumed_approval some_calls refl

validate-IsValid_example :
    (a : ApprovalRecord) × IsValid sample_runtime noon
      (sample_input "A1")
      a
      (validate sample_runtime noon (sample_input "A1") sample_owner).1
unfolding validate validate_current is_for fits approval_effect_fingerprint patch_artifact_binding
    get_approval get_row text_dec
validate-IsValid_example =
    validate-IsValid sample_runtime noon (sample_input "A1") sample_owner refl

abbrev ensure_input : EnsureInput
ensure_input = record {
  execution_ref = "E1";
  actor_ref = "role:dev";
  expires_at = "2027-01-01";
  precondition = none;
}

ensure-IsOpen_example : IsOpen sample_runtime noon "E1" sample_owner (sample_approval "A3" pending)
unfolding ensure_pending_approval get_row sort_by text_dec
ensure-IsOpen_example =
    ensure-IsOpen sample_runtime noon ensure_input sample_owner (sample_approval "A3" pending) refl
