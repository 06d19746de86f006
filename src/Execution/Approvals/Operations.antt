-- ===== src/Execution/Approvals/Operations.antt =====
-- packages/execution-runtime/src/approval-owner.ts: the operations of the owner.
use proflow.Base.{
  String, ℕ, ◌+◌, Bool, true, false, not, ◌&&◌, ◌||◌, List, [], ◌∷◌, ◌++◌, Option, none, some,
  if◌then◌else◌, ltb, leb, nat_eq, ◌==◌, option_eq, find, keep, text_lt, sort_by,
}
use Prim.Native.String
use proflow.Execution.Approvals.{
  Status, pending, approved, denied, revoked, consumed, expired, Capability, patch_apply, other,
  capability_name, ExecuteRequest, Execution, Artifact, ApprovalRecord, artifact_not_found,
  artifact_kind_invalid, approval_not_found, execution_not_found, approval_expiry_invalid,
  approval_version_conflict, approval_state_invalid, internal, Scope, Effect, of_effect, of_scope,
  of_precondition, Runtime, Moment, Owner, find_approval, find_execution, find_artifact, ok, Act,
  ◌>>=◌, pure, throw, save,
}

abbrev pub is_pending : Status → Bool
is_pending pending = true
is_pending _ = false

abbrev pub is_approved : Status → Bool
is_approved approved = true
is_approved _ = false

abbrev pub status_eq : Status → Status → Bool
status_eq pending pending = true
status_eq approved approved = true
status_eq denied denied = true
status_eq revoked revoked = true
status_eq consumed consumed = true
status_eq expired expired = true
status_eq _ _ = false

-- `...(value ? { value } : {})`, where the empty text is left out.
abbrev pub present : Option String → Option String
present none = none
present (some s) = if s == "" then none else some s

abbrev pub or_else : Option String → Option String → Option String
or_else none b = b
or_else (some a) b = some a

pub record RequestInput : Type 0 where
  pub execution_ref : String
  pub actor_ref : String
  pub expires_at : String
  pub precondition_fingerprint : Option String

pub record EnsureInput : Type 0 where
  pub execution_ref : String
  pub actor_ref : String
  pub expires_at : String
  pub precondition : Option String

pub data Decision : Type 0 where
  allow deny : Decision

pub record DecideInput : Type 0 where
  pub approval_ref : String
  pub actor_ref : String
  pub expected_version : ℕ
  pub decision : Decision
  pub reason : Option String

pub record RevokeInput : Type 0 where
  pub approval_ref : String
  pub actor_ref : String
  pub expected_version : ℕ
  pub reason : String

pub record ValidateInput : Type 0 where
  pub approval_ref : String
  pub execution_ref : String
  pub caller_ref : String
  pub task_id : Option String
  pub capability : String
  pub input_fingerprint : String
  pub request : ExecuteRequest
  pub precondition : Option String
  pub now : String

pub record Filter : Type 0 where
  pub execution_ref : Option String
  pub status : Option Status

module _ (runtime : Runtime) where
  -- `patchArtifactBinding`: nothing but for `patch.apply`.
  unfoldable pub patch_artifact_binding : Capability → Act (Option Artifact)
  patch_artifact_binding (other name) s = pure none s
  patch_artifact_binding (patch_apply ref) s = elim (find_artifact ref s) [
    | none ↦ throw artifact_not_found s
    | some artifact ↦
        (if artifact.kind == "patch-proposal"
            then pure (some artifact)
            else throw artifact_kind_invalid)
          s
  ]

  abbrev pub effect_of : ExecuteRequest → String → Option Artifact → Effect
  effect_of request input_fingerprint artifact = record {
    capability = capability_name request.capability;
    input_fingerprint = input_fingerprint;
    project_root = request.project_root;
    patch_artifact = artifact;
  }

  unfoldable pub approval_effect_fingerprint : ExecuteRequest → String → Act String
  approval_effect_fingerprint request input_fingerprint =
      patch_artifact_binding request.capability >>= λ artifact.
      pure (runtime.sha (of_effect (effect_of request input_fingerprint artifact)))

  abbrev pub scope_of : ExecuteRequest → Scope
  scope_of request = record {
    caller_ref = request.caller_ref;
    task_id = request.task_id;
    node_id = request.node_id;
    role_ref = request.role_ref;
    worker_ref = request.worker_ref;
    project_root = request.project_root;
  }

  abbrev pub has_expired : ℕ → ApprovalRecord → Bool
  has_expired time a = leb (runtime.parse_date a.expires_at) time

  -- `{ ...record, status, version: record.version + 1 }`
  abbrev pub moved : Status → ApprovalRecord → ApprovalRecord
  moved status a = record a { status = status; version = a.version + 1 }

  abbrev pub expire_if_due : Moment → ApprovalRecord → Act ApprovalRecord
  expire_if_due now a =
      if is_approved a.status && has_expired now.time a then save (moved expired a) else pure a

  -- `get`
  unfoldable pub get_approval : Moment → String → Act ApprovalRecord
  get_approval now ref s = elim (find_approval ref s) [
    | none ↦ throw approval_not_found s
    | some a ↦ expire_if_due now a s
  ]

  -- The record of a request, PENDING at version 1.
  abbrev pub new_approval : Moment → RequestInput → Execution → String → ApprovalRecord
  new_approval now input execution effect = record {
    approval_ref = String.◌++◌ "approval:" now.id;
    execution_ref = input.execution_ref;
    caller_ref = execution.request.caller_ref;
    task_id = present execution.request.task_id;
    node_id = present execution.request.node_id;
    role_ref = present execution.request.role_ref;
    worker_ref = present execution.request.worker_ref;
    capability = capability_name execution.request.capability;
    input_fingerprint = execution.input_fingerprint;
    effect_fingerprint = effect;
    scope_fingerprint = runtime.sha (of_scope (scope_of execution.request));
    precondition_fingerprint = present input.precondition_fingerprint;
    status = pending;
    requested_by_actor_ref = input.actor_ref;
    decided_by_actor_ref = none;
    reason = none;
    requested_at = now.stamp;
    expires_at = input.expires_at;
    decided_at = none;
    revoked_at = none;
    consumed_at = none;
    version = 1;
  }

  -- `INSERT INTO execution_approvals`
  unfoldable pub insert_approval : ApprovalRecord → Act ApprovalRecord
  insert_approval a s = elim (find_approval a.approval_ref s) [
    | some _ ↦ throw internal s
    | none ↦ (ok a, record s { approvals = s.approvals ++ a ∷ [] })
  ]

  abbrev pub request_for : Moment → RequestInput → Execution → Act ApprovalRecord
  request_for now input execution =
      approval_effect_fingerprint execution.request execution.input_fingerprint >>= λ effect.
      insert_approval (new_approval now input execution effect)

  unfoldable pub request_approval : Moment → RequestInput → Act ApprovalRecord
  request_approval now input s =
      if leb (runtime.parse_date input.expires_at) now.time
      then throw approval_expiry_invalid s
      else elim (find_execution input.execution_ref s) [
        | none ↦ throw execution_not_found s
        | some execution ↦ request_for now input execution s
      ]

  -- Rows of one `created_at` stand in no order that the query names; here it is that of the table.
  abbrev pub newest_first : String → Owner → List ApprovalRecord
  newest_first ref s =
      sort_by (λ (a b : ApprovalRecord). text_lt b.requested_at a.requested_at)
        (keep (λ (a : ApprovalRecord). a.execution_ref == ref) s.approvals)

  abbrev pub is_open_for : Moment → Execution → ApprovalRecord → Bool
  is_open_for now execution a =
      is_pending a.status
      && a.input_fingerprint == execution.input_fingerprint
      && not (has_expired now.time a)

  abbrev pub hashed : Option String → Option String
  hashed none = none
  hashed (some precondition) = some (runtime.sha (of_precondition precondition))

  abbrev pub ensured : EnsureInput → RequestInput
  ensured input = record {
    execution_ref = input.execution_ref;
    actor_ref = input.actor_ref;
    expires_at = input.expires_at;
    precondition_fingerprint = hashed (present input.precondition);
  }

  abbrev pub ensure_for : Moment → EnsureInput → Execution → Act ApprovalRecord
  ensure_for now input execution s =
      elim (find (is_open_for now execution) (newest_first input.execution_ref s)) [
        | some a ↦ pure a s
        | none ↦ request_approval now (ensured input) s
      ]

  unfoldable pub ensure_pending_approval : Moment → EnsureInput → Act ApprovalRecord
  ensure_pending_approval now input s = elim (find_execution input.execution_ref s) [
    | none ↦ throw execution_not_found s
    | some execution ↦ ensure_for now input execution s
  ]

  abbrev pub decided_status : Decision → Status
  decided_status allow = approved
  decided_status deny = denied

  abbrev pub decided : Moment → DecideInput → ApprovalRecord → ApprovalRecord
  decided now input a = record (moved (decided_status input.decision) a) {
    decided_by_actor_ref = some input.actor_ref;
    reason = or_else (present input.reason) a.reason;
    decided_at = some now.stamp;
  }

  unfoldable pub decide_current : Moment → DecideInput → ApprovalRecord → Act ApprovalRecord
  decide_current now input a =
      if not (nat_eq a.version input.expected_version)
      then throw approval_version_conflict
      else if not (is_pending a.status)
      then throw approval_state_invalid
      else save (decided now input a)

  unfoldable pub decide_approval : Moment → DecideInput → Act ApprovalRecord
  decide_approval now input = get_approval now input.approval_ref >>= decide_current now input

  abbrev pub revoked_record : Moment → RevokeInput → ApprovalRecord → ApprovalRecord
  revoked_record now input a = record (moved revoked a) {
    decided_by_actor_ref = some input.actor_ref;
    reason = some input.reason;
    revoked_at = some now.stamp;
  }

  unfoldable pub revoke_current : Moment → RevokeInput → ApprovalRecord → Act ApprovalRecord
  revoke_current now input a =
      if not (nat_eq a.version input.expected_version)
      then throw approval_version_conflict
      else if not (is_pending a.status) && not (is_approved a.status)
      then throw approval_state_invalid
      else save (revoked_record now input a)

  unfoldable pub revoke_approval : Moment → RevokeInput → Act ApprovalRecord
  revoke_approval now input = get_approval now input.approval_ref >>= revoke_current now input

  unfoldable pub consume_current : Moment → ApprovalRecord → Act ApprovalRecord
  consume_current now a =
      if not (is_approved a.status)
      then throw approval_state_invalid
      else save (record (moved consumed a) { consumed_at = some now.stamp })

  unfoldable pub consume : Moment → String → Act ApprovalRecord
  consume now ref = get_approval now ref >>= consume_current now

  -- `if (value.precondition && record.preconditionFingerprint)`
  abbrev pub precondition_holds : Option String → Option String → Bool
  precondition_holds none _ = true
  precondition_holds (some _) none = true
  precondition_holds (some precondition) (some fingerprint) =
      fingerprint == runtime.sha (of_precondition precondition)

  unfoldable pub is_for : ValidateInput → ApprovalRecord → Bool
  is_for input a =
      a.execution_ref == input.execution_ref
      && a.caller_ref == input.caller_ref
      && a.capability == input.capability
      && a.input_fingerprint == input.input_fingerprint
      && option_eq a.task_id input.task_id

  unfoldable pub fits : ValidateInput → ApprovalRecord → String → Bool
  fits input a effect =
      a.effect_fingerprint == effect
      && a.scope_fingerprint == runtime.sha (of_scope (scope_of input.request))
      && precondition_holds (present input.precondition) (present a.precondition_fingerprint)
      && ltb (runtime.parse_date input.now) (runtime.parse_date a.expires_at)

  unfoldable pub validate_current : ValidateInput → ApprovalRecord → Act Bool
  validate_current input a =
      if not (is_approved a.status)
      then pure false
      else if not (is_for input a)
      then pure false
      else approval_effect_fingerprint input.request input.input_fingerprint >>= λ effect.
          pure (fits input a effect)

  unfoldable pub validate : Moment → ValidateInput → Act Bool
  validate now input = get_approval now input.approval_ref >>= validate_current input

  -- `rows.map((row) => get(row.approval_ref))`
  unfoldable pub get_all : Moment → List ApprovalRecord → Act (List ApprovalRecord)
  get_all now [] = pure []
  get_all now (a ∷ rows) =
      get_approval now a.approval_ref >>= λ b. get_all now rows >>= λ bs. pure (b ∷ bs)

  abbrev pub oldest_first : List ApprovalRecord → List ApprovalRecord
  oldest_first = sort_by (λ (a b : ApprovalRecord).
      text_lt a.requested_at b.requested_at
      || a.requested_at == b.requested_at && text_lt a.approval_ref b.approval_ref)

  abbrev pub of_execution : Option String → ApprovalRecord → Bool
  of_execution none a = true
  of_execution (some ref) a = a.execution_ref == ref

  abbrev pub has_status : Option Status → ApprovalRecord → Bool
  has_status none a = true
  has_status (some status) a = status_eq a.status status

  unfoldable pub list_approvals : Moment → Filter → Act (List ApprovalRecord)
  list_approvals now filter s =
      (get_all now (oldest_first (keep (of_execution (present filter.execution_ref)) s.approvals))
          >>= λ found. pure (keep (has_status filter.status) found))
        s
