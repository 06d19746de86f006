-- ===== src/Execution/Runtime/Intents.antt =====
-- packages/execution-runtime/src/index.ts: how a request finds or makes its record.
use proflow.Base.{
  String, ℕ, Bool, true, false, not, ◌&&◌, ◌||◌, [], ◌∷◌, ◌++◌, Option, none, some, if◌then◌else◌,
  ◌==◌, nat_eq, find, put_row, text_key,
}
use Prim.Native.String
use proflow.Execution.Approvals
use proflow.Execution.Approvals.{Moment, capability_name}
use proflow.Execution.Approvals.Operations.{present}
use proflow.Execution.Runtime.{
  Status, SideEffectState, pending, not_started, failed, not_applied, Request, ExecutionRecord, Row,
  SignalKey, Tables, ok, Act, ◌>>=◌, ◌>>◌, pure, throw, failure, parse_record, row_key, find_row,
  invalid_request, identity_invalid, idempotency_conflict,
}
use proflow.Execution.Runtime.Artifacts.{Texts, assert_patch_scope}
use proflow.Execution.Runtime.Admission.{Intent}

-- What `sha` is taken of. A field that is undefined leaves no trace in the JSON text.
pub record Critical : Type 0 where
  pub capability : String
  pub input : String
  pub caller_ref : String
  pub task_id : Option String
  pub node_id : Option String
  pub run_no : Option ℕ
  pub role_ref : Option String
  pub worker_ref : Option String
  pub project_root : Option String

-- SHA-256 of canonical JSON texts, `protectedValue`, and whether a request whose secrets are replaced
-- still meets the schema of requests.
pub record Env : Type 0 where
  pub approvals : Approvals.Runtime
  pub texts : Texts
  pub sha : Critical → String
  pub signal_sha : SignalKey → String
  pub protect_input : String → String
  pub protect_request : Request → Request
  pub protect_precondition : String → String
  pub reads_back : Request → Bool

abbrev pub run_eq : Option ℕ → Option ℕ → Bool
run_eq none none = true
run_eq (some a) (some b) = nat_eq a b
run_eq _ _ = false

-- `...(request.runNo ? { runNo } : {})`
abbrev pub present_run : Option ℕ → Option ℕ
present_run none = none
present_run (some n) = if nat_eq n 0 then none else some n

abbrev pub is_intent : Request → Row → Bool
is_intent request row =
    row.caller_ref == request.scope.caller_ref
    && row.capability == capability_name request.scope.capability
    && row.idempotency_key == request.idempotency_key

unfoldable pub find_intent : Request → Tables → Option Row
find_intent request s = find (is_intent request) s.executions

abbrev pub is_resumable : Status → SideEffectState → Bool
is_resumable pending not_started = true
is_resumable failed not_applied = true
is_resumable _ _ = false

-- A record that is settled for this call, or one to carry on with.
pub data Opened : Type 0 where
  settled : ExecutionRecord → Opened
  opened : Intent → ExecutionRecord → Opened

module _ (env : Env) where
  abbrev pub critical : Request → Option ℕ → Critical
  critical request run_no = record {
    capability = capability_name request.scope.capability;
    input = env.protect_input request.input;
    caller_ref = request.scope.caller_ref;
    task_id = request.scope.task_id;
    node_id = request.scope.node_id;
    run_no = run_no;
    role_ref = request.scope.role_ref;
    worker_ref = request.scope.worker_ref;
    project_root = request.scope.project_root;
  }

  -- `executionInputFingerprint` and `legacyExecutionInputFingerprint`
  abbrev pub input_fingerprint : Request → String
  input_fingerprint request = env.sha (critical request request.run_no)

  abbrev pub legacy_fingerprint : Request → String
  legacy_fingerprint request = env.sha (critical request none)

  abbrev pub is_legacy : Row → Request → Bool
  is_legacy row request =
      env.reads_back row.request
      && row.input_fingerprint == legacy_fingerprint request
      && run_eq row.request.run_no request.run_no
      && run_eq row.execution.run_no request.run_no

  -- `compatibleDurableInputFingerprint(...) !== undefined`; the fingerprint is the row's.
  unfoldable pub is_compatible : Row → Request → Bool
  is_compatible row request =
      row.input_fingerprint == input_fingerprint request || is_legacy row request

  unfoldable pub lookup_intent : Request → Act ExecutionRecord
  lookup_intent request s = elim (find_intent request s) [
    | none ↦ throw (failure invalid_request) s
    | some row ↦
        (if is_compatible row request
            then pure row.execution
            else throw (failure idempotency_conflict))
          s
  ]

  abbrev pub new_ref : Moment → Option String → String
  new_ref now none = String.◌++◌ "execution:" now.id
  new_ref now (some ref) = ref

  -- `createPending`
  abbrev pub pending_record : Moment → Request → ExecutionRecord
  pending_record now request = record {
    execution_ref = new_ref now request.execution_ref;
    capability = capability_name request.scope.capability;
    caller_ref = request.scope.caller_ref;
    correlation_id = present request.correlation_id;
    task_id = present request.scope.task_id;
    node_id = present request.scope.node_id;
    run_no = present_run request.run_no;
    role_ref = present request.scope.role_ref;
    worker_ref = present request.scope.worker_ref;
    idempotency_key = request.idempotency_key;
    input_fingerprint = input_fingerprint request;
    status = pending;
    side_effect_state = not_started;
    retryable = false;
    decision_path = none;
    approval_ref = none;
    result = none;
    evidence = [];
    evidence_refs = none;
    artifact_refs = none;
    error = none;
    attempt_count = 0;
    created_at = now.stamp;
    started_at = none;
    effect_started_at = none;
    finished_at = none;
    updated_at = now.stamp;
  }

  abbrev pub new_row : Request → ExecutionRecord → Row
  new_row request r = record {
    execution_ref = r.execution_ref;
    caller_ref = request.scope.caller_ref;
    capability = capability_name request.scope.capability;
    idempotency_key = request.idempotency_key;
    input_fingerprint = input_fingerprint request;
    request = env.protect_request request;
    execution = r;
    precondition = none;
  }

  abbrev pub intent_of : Request → String → ExecutionRecord → Intent
  intent_of request fingerprint r = record {
    request = request;
    execution_ref = r.execution_ref;
    input_fingerprint = fingerprint;
  }

  -- `INSERT INTO executions`: the intent is new, and a reference that is taken is refused.
  unfoldable pub insert_row : Request → ExecutionRecord → Act Opened
  insert_row request r s = elim (find_row r.execution_ref s) [
    | some _ ↦ throw (failure idempotency_conflict) s
    | none ↦ (
      ok (opened (intent_of request (input_fingerprint request) r) r),
      record s { executions = s.executions ++ new_row request r ∷ [] },
    )
  ]

  unfoldable pub create_execution : Moment → Request → Act Opened
  create_execution now request = parse_record (pending_record now request) >>= insert_row request

  abbrev pub resumed_record : Moment → ExecutionRecord → ExecutionRecord
  resumed_record now r = record r {
    status = pending;
    side_effect_state = not_started;
    retryable = false;
    decision_path = none;
    approval_ref = none;
    result = none;
    error = none;
    started_at = none;
    effect_started_at = none;
    finished_at = none;
    updated_at = now.stamp;
  }

  abbrev pub resumed_row : Request → ExecutionRecord → Row → Row
  resumed_row request r row = record row {
    request = env.protect_request request;
    execution = r;
    precondition = none;
  }

  unfoldable pub rewrite_row : Request → Row → ExecutionRecord → Act Opened
  rewrite_row request row r s = (
    ok (opened (intent_of request row.input_fingerprint r) r),
    record s { executions = put_row row_key (resumed_row request r row) s.executions },
  )

  unfoldable pub resume_execution : Moment → Request → Row → Act Opened
  resume_execution now request row =
      if not (is_compatible row request)
      then throw (failure idempotency_conflict)
      else if not (is_resumable row.execution.status row.execution.side_effect_state)
      then pure (settled row.execution)
      else parse_record (resumed_record now row.execution) >>= rewrite_row request row

  unfoldable pub find_or_create : Moment → Request → Act Opened
  find_or_create now request s = elim (find_intent request s) [
    | none ↦ create_execution now request s
    | some row ↦ resume_execution now request row s
  ]

  unfoldable pub open_execution : Moment → Request → Act Opened
  open_execution now request = assert_patch_scope request.scope >> find_or_create now request

-- `getExecutionRecord`
unfoldable pub get_execution : String → Act ExecutionRecord
get_execution ref s = elim (find_row ref s) [
  | none ↦ throw (failure invalid_request) s
  | some row ↦ pure row.execution s
]

abbrev pub check_caller : String → ExecutionRecord → Act ExecutionRecord
check_caller caller r =
    if not (r.caller_ref == caller) then throw (failure identity_invalid) else pure r

unfoldable pub get_execution_for_caller : String → String → Act ExecutionRecord
get_execution_for_caller ref caller = get_execution ref >>= check_caller caller
