-- ===== src/Execution/Runtime.antt =====
-- packages/execution-runtime/src/index.ts: the records of executions and the tables. A record is stored
-- as its JSON text, which gives the record back. Texts of messages are left out, and what the source
-- does nothing but store or hash (an input, a precondition, metadata) is its JSON text.
pub mod Artifacts
pub mod Admission
pub mod Intents
pub mod Effects
pub mod Signals
pub mod Execute
pub mod Life
pub mod Runs
pub mod Leaves
pub mod Tracks
pub mod Working
pub mod Attempts
pub mod Endings
pub mod Opening
pub mod Calls
pub mod Recovering
pub mod Verifying
pub mod Recovery
pub mod History
pub mod Repeats
pub mod Lookup
pub mod Consent
pub mod Slots
pub mod Samples
mod Examples
pub mod Late
use proflow.Base.{
  String, ℕ, ◌+◌, ◌≡◌, Bool, true, false, not, ◌&&◌, ◌||◌, List, [], ◌∷◌, ◌++◌, Option, none, some,
  map, if◌then◌else◌, ◌==◌, get_row, put_row, text_key, truthy,
}
use proflow.Execution.Approvals
use proflow.Execution.Approvals.{ApprovalRecord, Artifact, ExecuteRequest, Moment, Owner}

pub data Status : Type 0 where
  pending running succeeded failed unknown : Status

pub data SideEffectState : Type 0 where
  not_started started applied not_applied unknown : SideEffectState

pub data ErrorCode : Type 0 where
  invalid_request identity_invalid scope_denied policy_denied : ErrorCode
  approval_required approval_invalid precondition_failed executor_unavailable : ErrorCode
  execution_failed timeout cancelled idempotency_conflict : ErrorCode
  decision_unresolved unknown_side_effect : ErrorCode

pub data DecisionPath : Type 0 where
  deterministic fast reason human : DecisionPath

-- `ExecutionRuntimeError`, and the error of a record.
pub record Failure : Type 0 where
  pub code : ErrorCode
  pub retryable : Bool

pub record CapabilityResult : Type 0 where
  pub capability : String
  pub data_json : String

pub record Evidence : Type 0 where
  pub evidence_ref : String
  pub json : String

pub record Request : Type 0 where
  pub scope : ExecuteRequest
  pub execution_ref : Option String
  pub correlation_id : Option String
  pub run_no : Option ℕ
  pub approval_ref : Option String
  pub idempotency_key : String
  -- `input` as JSON, and its field `method`.
  pub input : String
  pub method : Option String

pub record ExecutionRecord : Type 0 where
  pub execution_ref : String
  pub capability : String
  pub caller_ref : String
  pub correlation_id : Option String
  pub task_id : Option String
  pub node_id : Option String
  pub run_no : Option ℕ
  pub role_ref : Option String
  pub worker_ref : Option String
  pub idempotency_key : String
  pub input_fingerprint : String
  pub status : Status
  pub side_effect_state : SideEffectState
  pub retryable : Bool
  pub decision_path : Option DecisionPath
  pub approval_ref : Option String
  pub result : Option CapabilityResult
  pub evidence : List Evidence
  pub evidence_refs : Option (List String)
  pub artifact_refs : Option (List String)
  pub error : Option Failure
  pub attempt_count : ℕ
  pub created_at : String
  pub started_at : Option String
  pub effect_started_at : Option String
  pub finished_at : Option String
  pub updated_at : String

abbrev pub is_legal_pair : Status → SideEffectState → Bool
is_legal_pair pending not_started = true
is_legal_pair running not_started = true
is_legal_pair running started = true
is_legal_pair succeeded applied = true
is_legal_pair succeeded not_applied = true
is_legal_pair failed not_applied = true
is_legal_pair unknown unknown = true
is_legal_pair _ _ = false

abbrev pub is_some {ℓ} : {A : Type ℓ} → Option A → Bool
is_some none = false
is_some (some _) = true

abbrev pub result_fits : String → Option CapabilityResult → Bool
result_fits capability none = false
result_fits capability (some r) = r.capability == capability

abbrev pub is_unknown_effect : Option Failure → Bool
is_unknown_effect none = false
is_unknown_effect (some e) = elim e.code [ unknown_side_effect ↦ true | _ ↦ false ]

-- The `superRefine` of `executionRecordSchema`: what a status demands of the other fields.
abbrev pub fits_status : Status → ExecutionRecord → Bool
fits_status pending r = not (is_some r.result) && not (is_some r.error)
fits_status running r = not (is_some r.result) && not (is_some r.error)
fits_status succeeded r = result_fits r.capability r.result && not (is_some r.error)
fits_status failed r = not (is_some r.result) && is_some r.error
fits_status unknown r = not (is_some r.result) && is_unknown_effect r.error && not r.retryable

unfoldable pub is_legal : ExecutionRecord → Bool
is_legal r = is_legal_pair r.status r.side_effect_state && fits_status r.status r

-- A row of `executions`. `request` has its secrets replaced.
pub record Row : Type 0 where
  pub execution_ref : String
  pub caller_ref : String
  pub capability : String
  pub idempotency_key : String
  pub input_fingerprint : String
  pub request : Request
  pub execution : ExecutionRecord
  pub precondition : Option String

pub data SignalKind : Type 0 where
  recovery_resume unknown_reality : SignalKind

-- What the reference of a signal is hashed of.
pub record SignalKey : Type 0 where
  pub execution_ref : String
  pub kind : SignalKind
  pub status : Status
  pub side_effect_state : SideEffectState

pub record Signal : Type 0 where
  pub signal_ref : String
  pub key : SignalKey
  pub task_id : String
  pub node_id : String
  pub run_no : Option ℕ
  pub role_ref : Option String
  pub worker_ref : String
  pub error_code : Option ErrorCode
  pub created_at : String
  pub acknowledged_at : Option String

-- A row of `artifact_registry`.
pub record Stored : Type 0 where
  pub artifact : Artifact
  pub mime : Option String
  pub bytes : ℕ
  pub metadata : String
  pub created_at : String
  pub path : String

pub record Relation : Type 0 where
  pub execution_ref : String
  pub artifact_ref : String
  pub stream : String
  pub path : String

pub record Tables : Type 0 where
  pub executions : List Row
  pub artifacts : List Stored
  pub relations : List Relation
  pub signals : List Signal
  pub approvals : List ApprovalRecord

-- An error that `runtimeError` reads the code of, or another one.
pub data Thrown : Type 0 where
  coded : Failure → Thrown
  foreign : Thrown

pub data Result (A : Type 0) : Type 0 where
  ok : A → Result A
  err : Thrown → Result A

-- What a call has written before it throws stays written.
abbrev pub Act : Type 0 → Type 0
Act A = Tables → Result A × Tables

infixl 5 ◌>>=◌ ◌>>◌
abbrev pub ◌>>=◌ : {A B : Type 0} → Act A → (A → Act B) → Act B
◌>>=◌ m f s = let (r, s') = m s in elim r [ ok a ↦ f a s' | err e ↦ (err e, s') ]

abbrev pub ◌>>◌ : {A B : Type 0} → Act A → Act B → Act B
m >> k = m >>= λ _. k

abbrev pub pure : {A : Type 0} → A → Act A
pure a s = (ok a, s)

abbrev pub throw : {A : Type 0} → Thrown → Act A
throw e s = (err e, s)

abbrev pub failure : ErrorCode → Thrown
failure code = coded (record { code = code; retryable = false })

abbrev pub runtime_error : Thrown → Failure
runtime_error (coded e) = e
runtime_error foreign = record { code = execution_failed; retryable = false }

-- `parseExecutionRecord`, on records whose fields have their formats.
abbrev pub parse_record : ExecutionRecord → Act ExecutionRecord
parse_record r = if is_legal r then pure r else throw foreign

abbrev pub row_key : Row → String
row_key row = row.execution_ref

abbrev pub find_row : String → Tables → Option Row
find_row ref s = get_row row_key ref s.executions

abbrev pub or_else : Option String → Option String → Option String
or_else none b = b
or_else (some a) b = some a

abbrev pub with_record : ExecutionRecord → Option String → Row → Row
with_record r precondition row = record row {
  execution = r;
  precondition = or_else precondition row.precondition;
}

abbrev pub rewritten : ExecutionRecord → Option String → List Row → List Row
rewritten r precondition rows = elim (get_row row_key r.execution_ref rows) [
  | none ↦ rows
  | some row ↦ put_row row_key (with_record r precondition row) rows
]

-- `save`, with the precondition if there is one: `COALESCE(?, precondition_json)`.
unfoldable pub save : ExecutionRecord → Option String → Act ExecutionRecord
save r precondition s = (ok r, record s { executions = rewritten r precondition s.executions })

-- `failRecord`: what is known not to have been applied, and what is not known.
abbrev pub failed_record : Moment → Failure → ExecutionRecord → ExecutionRecord
failed_record now e r = record r {
  status = failed;
  side_effect_state = not_applied;
  retryable = e.retryable;
  error = some e;
  finished_at = some now.stamp;
  updated_at = now.stamp;
}

abbrev pub unknown_record : Moment → ExecutionRecord → ExecutionRecord
unknown_record now r = record r {
  status = unknown;
  side_effect_state = SideEffectState.unknown;
  retryable = false;
  error = some (record { code = unknown_side_effect; retryable = false });
  finished_at = some now.stamp;
  updated_at = now.stamp;
}

abbrev pub fail_record : Moment → Failure → ExecutionRecord → Act ExecutionRecord
fail_record now e r = parse_record (failed_record now e r)

abbrev pub lose_record : Moment → ExecutionRecord → Act ExecutionRecord
lose_record now r = parse_record (unknown_record now r)
