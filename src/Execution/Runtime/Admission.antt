-- ===== src/Execution/Runtime/Admission.antt =====
-- packages/execution-runtime/src/index.ts: `defaultPolicy` and `admit`.
use proflow.Base.{
  String, Bool, true, false, not, ◌&&◌, ◌||◌, List, [], ◌∷◌, Option, none, some, map, if◌then◌else◌,
  ◌==◌, option_eq, any,
}
use proflow.Execution.Approvals
use proflow.Execution.Approvals.{Execution, Moment, Owner, capability_name}
use proflow.Execution.Approvals.Operations
use proflow.Execution.Approvals.Operations.{ValidateInput, present}
use proflow.Execution.Runtime.{
  Request, Row, Stored, Tables, DecisionPath, deterministic, fast, human, foreign, Result, ok, err,
  Act, ◌>>=◌, ◌>>◌, pure, throw, failure, identity_invalid, policy_denied, decision_unresolved,
  approval_required, approval_invalid,
}

pub data Verdict : Type 0 where
  allow deny review : Verdict

pub record PolicyDecision : Type 0 where
  pub verdict : Verdict
  pub path : DecisionPath
  pub approval_required : Bool

pub record ModelDecision : Type 0 where
  pub is_denied : Bool
  pub path : DecisionPath
  pub approval_required : Bool

abbrev pub read_only_capabilities : List String
read_only_capabilities =
    "file.read" ∷ "file.searchText" ∷ "artifact.external-file.materialize"
    ∷ "artifact.context-pack.materialize" ∷ "artifact.patch-proposal.materialize" ∷ "git.status"
    ∷ "git.diff" ∷ "project.info" ∷ "code.findSymbol" ∷ "code.findReferences" ∷ "process.status"
    ∷ "browser.observe" ∷ "browser.screenshot" ∷ "browser.verify" ∷ []

abbrev pub is_read_only : Request → Bool
is_read_only request =
    let name = capability_name request.scope.capability in
    any (λ (c : String). name == c) read_only_capabilities
    || name == "network.request"
      && (option_eq request.method (some "GET") || option_eq request.method (some "HEAD"))

unfoldable pub default_policy : Request → PolicyDecision
default_policy request =
    if is_read_only request
    then record { verdict = allow; path = deterministic; approval_required = false }
    else record { verdict = review; path = fast; approval_required = false }

-- What the ports of a runtime answer during one call; without a port there is no answer.
pub record Ports : Type 0 where
  pub identity : Option (Result Bool)
  pub policy : Option (Result PolicyDecision)
  pub model : Option (Result ModelDecision)
  pub approval : Option (ValidateInput → Result Bool)

-- The admission of a request: how it was decided, and what `validateApproval` closes over.
pub record Admission : Type 0 where
  pub path : DecisionPath
  pub approval_required : Bool

abbrev pub answer : {A : Type 0} → Result A → Act A
answer r s = (r, s)

abbrev pub owner_of : Tables → Owner
owner_of s = record {
  approvals = s.approvals;
  executions =
      map
        (λ (row : Row). record {
          execution_ref = row.execution_ref;
          request = row.request.scope;
          input_fingerprint = row.input_fingerprint;
        })
        s.executions;
  artifacts = map (λ (a : Stored). a.artifact) s.artifacts;
}

abbrev pub from_owner : {A : Type 0} → Approvals.Result A → Result A
from_owner (Approvals.Result.ok a) = ok a
from_owner (Approvals.Result.err e) = err foreign

-- A call of the owner of approvals, which shares the database; its error codes are its own.
abbrev pub with_owner : {A : Type 0} → Approvals.Act A → Act A
with_owner m s =
    let (r, owner) = m (owner_of s) in (from_owner r, record s { approvals = owner.approvals })

abbrev pub check_identity : Ports → Act Unit
check_identity ports = elim ports.identity [
  | none ↦ pure tt
  | some r ↦ answer r >>= λ granted. if granted then pure tt else throw (failure identity_invalid)
]

abbrev pub policy_decision : Ports → Request → Act PolicyDecision
policy_decision ports request = elim ports.policy [
  | none ↦ pure (default_policy request)
  | some r ↦ answer r
]

abbrev pub reviewed : PolicyDecision → ModelDecision → Act Admission
reviewed p m =
    let required = p.approval_required || m.approval_required in
    if m.is_denied
    then throw (failure policy_denied)
    else pure (record { path = if required then human else m.path; approval_required = required })

abbrev pub judge : Ports → PolicyDecision → Act Admission
judge ports p = elim p.verdict [
  | deny ↦ throw (failure policy_denied)
  | allow ↦ pure (record { path = p.path; approval_required = p.approval_required })
  | review ↦ elim ports.model [
    | none ↦ throw (failure decision_unresolved)
    | some r ↦ answer r >>= reviewed p
  ]
]

-- A call as `validateApproval` sees it.
pub record Intent : Type 0 where
  pub request : Request
  pub execution_ref : String
  pub input_fingerprint : String

module _ (approvals : Approvals.Runtime) (ports : Ports) where
  abbrev pub validation : Moment → Intent → Option String → String → ValidateInput
  validation now intent precondition ref = record {
    approval_ref = ref;
    execution_ref = intent.execution_ref;
    caller_ref = intent.request.scope.caller_ref;
    task_id = present intent.request.scope.task_id;
    capability = capability_name intent.request.scope.capability;
    input_fingerprint = intent.input_fingerprint;
    request = intent.request.scope;
    precondition = precondition;
    now = now.stamp;
  }

  abbrev pub ask_approval : Moment → ValidateInput → Act Bool
  ask_approval now input = elim ports.approval [
    | some port ↦ answer (port input)
    | none ↦ with_owner (Operations.validate approvals now input)
  ]

  abbrev pub demand_valid : Bool → Act Unit
  demand_valid true = pure tt
  demand_valid false = throw (failure approval_invalid)

  unfoldable pub check_approval : Moment → Intent → Option String → String → Act Unit
  check_approval now intent precondition ref =
      ask_approval now (validation now intent precondition ref) >>= demand_valid

  -- `validateApproval`
  unfoldable pub validate_approval : Moment → Intent → Bool → Option String → Act Unit
  validate_approval now intent required precondition =
      if not required then pure tt else elim (present intent.request.approval_ref) [
        | none ↦ throw (failure approval_required)
        | some ref ↦ check_approval now intent precondition ref
      ]

  unfoldable pub admit : Moment → Intent → Act Admission
  admit now intent =
      check_identity ports >> policy_decision ports intent.request >>= judge ports >>= λ admission.
      validate_approval now intent admission.approval_required none >> pure admission
