-- ===== src/Execution/Runtime/Effects.antt =====
-- packages/execution-runtime/src/index.ts: the body of `executeCapability` that holds a slot.
use proflow.Base.{
  String, ◌+◌, Bool, true, false, not, ◌&&◌, List, Option, none, some, map, if◌then◌else◌,
}
use proflow.Execution.Approvals.{Moment}
use proflow.Execution.Approvals.Operations
use proflow.Execution.Approvals.Operations.{present}
use proflow.Execution.Runtime.{
  Status, pending, running, succeeded, failed, SideEffectState, not_started, started,
  CapabilityResult, Evidence, ExecutionRecord, Failure, Thrown, Result, ok, err, Act, ◌>>=◌, ◌>>◌,
  pure, throw, failure, runtime_error, parse_record, find_row, save, fail_record, lose_record,
  or_else, timeout, cancelled, execution_failed, executor_unavailable,
}
use proflow.Execution.Runtime.Artifacts.{ExecutorArtifact, register_all}
use proflow.Execution.Runtime.Admission.{
  Ports, Admission, Intent, answer, with_owner, validate_approval,
}
use proflow.Execution.Runtime.Intents.{Env}

-- The abort signal when it is read: `timedOut` tells the two reasons apart.
pub data Stop : Type 0 where
  going stopped timed_out : Stop

abbrev pub check_stop : Stop → Act Unit
check_stop going = pure tt
check_stop stopped = throw (failure cancelled)
check_stop timed_out = throw (failure timeout)

pub record ExecutorResult : Type 0 where
  pub result : CapabilityResult
  pub evidence : List Evidence
  pub artifacts : List ExecutorArtifact
  pub effect_applied : Bool
  pub successful : Bool

pub data Reality : Type 0 where
  applied not_applied unknown : Reality

pub record Reconciliation : Type 0 where
  pub state : Reality
  pub evidence : List Evidence
  pub result : Option CapabilityResult

-- An execution by an executor: it calls `onEffectStarted` with a precondition, any number of times,
-- and goes on as that returns or throws; or it returns or throws itself.
pub data Work : Type 0 where
  start : Moment → Stop → Stop → String → (Option Thrown → Work) → Work
  finish : Result ExecutorResult → Work

-- What comes from outside while a call holds its slot. Without an executor there is no work, and
-- nothing to reconcile with.
pub record Run : Type 0 where
  pub ports : Ports
  pub begun : Moment
  pub stop_begun : Stop
  pub work : Option Work
  pub ended : Moment
  pub stop_ended : Stop
  pub timed_out : Bool
  pub reconciled : Result Reconciliation

abbrev pub refs_of : List Evidence → List String
refs_of = map (λ (e : Evidence). e.evidence_ref)

abbrev pub running_record : Moment → Intent → Admission → ExecutionRecord → ExecutionRecord
running_record now intent admission r = record r {
  status = running;
  side_effect_state = not_started;
  decision_path = some admission.path;
  approval_ref = or_else (present intent.request.approval_ref) r.approval_ref;
  attempt_count = r.attempt_count + 1;
  started_at = some now.stamp;
  updated_at = now.stamp;
}

abbrev pub started_record : Moment → ExecutionRecord → ExecutionRecord
started_record now r = record r {
  status = running;
  side_effect_state = started;
  effect_started_at = some now.stamp;
  updated_at = now.stamp;
}

abbrev pub succeeded_record :
    Moment → SideEffectState → CapabilityResult → List Evidence → ExecutionRecord → ExecutionRecord
succeeded_record now side result evidence r = record r {
  status = succeeded;
  side_effect_state = side;
  retryable = false;
  result = some result;
  evidence = evidence;
  evidence_refs = some (refs_of evidence);
  finished_at = some now.stamp;
  updated_at = now.stamp;
}

abbrev pub with_artifacts : List ExecutorArtifact → ExecutionRecord → ExecutionRecord
with_artifacts artifacts r = record r {
  artifact_refs = some (map (λ (a : ExecutorArtifact). a.ref) artifacts);
}

-- A result that is known to be unsuccessful and to have had no effect.
abbrev pub unsuccessful_record : Moment → ExecutorResult → ExecutionRecord → ExecutionRecord
unsuccessful_record now x r = record (with_artifacts x.artifacts r) {
  status = failed;
  side_effect_state = SideEffectState.not_applied;
  retryable = false;
  evidence = x.evidence;
  evidence_refs = some (refs_of x.evidence);
  error = some (record { code = execution_failed; retryable = false });
  finished_at = some now.stamp;
  updated_at = now.stamp;
}

abbrev pub is_pending : Status → Bool
is_pending pending = true
is_pending _ = false

abbrev pub is_started : SideEffectState → Bool
is_started started = true
is_started _ = false

abbrev pub try_catch : {A : Type 0} → Act A → (Thrown → Act A) → Act A
try_catch m handler s = let (r, s') = m s in elim r [ ok a ↦ (ok a, s') | err e ↦ handler e s' ]

-- The variables of the call: its record, and the precondition of the effect.
pub record Locals : Type 0 where
  pub execution : ExecutionRecord
  pub precondition : Option String

-- The record is RUNNING only if it was still PENDING.
unfoldable pub still_pending : ExecutionRecord → Act ExecutionRecord → Act ExecutionRecord
still_pending r next s = elim (find_row r.execution_ref s) [
  | none ↦ next s
  | some row ↦ (if is_pending row.execution.status then next else pure row.execution) s
]

module _ (env : Env) where
  abbrev pub consume_given : Moment → Ports → Option String → Act Unit
  consume_given now ports none = pure tt
  consume_given now ports (some ref) = elim ports.approval [
    | some _ ↦ pure tt
    | none ↦ with_owner (Operations.consume env.approvals now ref) >> pure tt
  ]

  abbrev pub protected : Option String → Option String
  protected none = none
  protected (some precondition) = some (env.protect_precondition precondition)

  -- `parseExecutionRecord` and `save`
  unfoldable pub store : ExecutionRecord → Option String → Act ExecutionRecord
  store r precondition = parse_record r >>= λ parsed. save parsed (protected precondition)

  module _ (run : Run) (intent : Intent) (admission : Admission) where
    abbrev pub approve : Moment → Option String → Act Unit
    approve now precondition =
        validate_approval env.approvals run.ports now intent admission.approval_required
          precondition

    -- `onEffectStarted`
    unfoldable pub on_effect_started :
        Moment → Stop → Stop → String → ExecutionRecord → Act ExecutionRecord
    on_effect_started now before after value r =
        check_stop before
        >> approve now (some value)
        >> check_stop after
        >> consume_given now run.ports (present intent.request.approval_ref)
        >> store (started_record now r) (some value)

    -- `executor.execute`
    unfoldable pub perform_work : Work → Locals → Act (ExecutorResult × Locals)
    perform_work (finish r) locals s = (answer r >>= λ x. pure (x, locals)) s
    perform_work (start now before after value next) locals s =
        let (r, s') = on_effect_started now before after value locals.execution s in
        elim r [
          | ok begun ↦
              perform_work (next none) (record { execution = begun; precondition = some value }) s'
          | err e ↦ perform_work (next (some e)) locals s'
        ]

    unfoldable pub record_result : ExecutorResult → Locals → Act ExecutionRecord
    record_result x locals =
        let side =
          if x.effect_applied then SideEffectState.applied else SideEffectState.not_applied in
        if x.successful
        then store
            (with_artifacts x.artifacts
              (succeeded_record run.ended side x.result x.evidence locals.execution))
            locals.precondition
        else store (unsuccessful_record run.ended x locals.execution) none

    abbrev pub check_effect : ExecutorResult → Act Unit
    check_effect x =
        if not x.successful && x.effect_applied then throw (failure execution_failed) else pure tt

    unfoldable pub finish_work : ExecutorResult × Locals → Act ExecutionRecord
    finish_work (x, locals) =
        check_stop run.stop_ended
        >> check_effect x
        >> register_all env.texts run.ended intent.request locals.execution.execution_ref
            x.artifacts
        >> record_result x locals

    abbrev pub work_on : ExecutionRecord → Act ExecutionRecord
    work_on r = elim run.work [
      | none ↦ throw (failure executor_unavailable)
      | some work ↦
          perform_work work (record { execution = r; precondition = none }) >>= finish_work
    ]

    unfoldable pub start_running : ExecutionRecord → Act ExecutionRecord
    start_running r = store (running_record run.begun intent admission r) none >>= work_on

    unfoldable pub attempt : ExecutionRecord → Act ExecutionRecord
    attempt r =
        approve run.begun none >> check_stop run.stop_begun >> still_pending r (start_running r)

    unfoldable pub settle_effect : Failure → ExecutionRecord → Reconciliation → Act ExecutionRecord
    settle_effect e r found = elim found.state [
      | not_applied ↦ fail_record run.ended e r
      | unknown ↦ lose_record run.ended r
      | applied ↦ elim found.result [
        | none ↦ lose_record run.ended r
        | some result ↦
            parse_record
              (succeeded_record run.ended SideEffectState.applied result found.evidence r)
      ]
    ]

    abbrev pub reconcile_effect : Failure → ExecutionRecord → Option String → Act ExecutionRecord
    reconcile_effect e r none = lose_record run.ended r
    reconcile_effect e r (some _) = elim run.work [
      | none ↦ lose_record run.ended r
      | some _ ↦
          try_catch (answer run.reconciled >>= settle_effect e r) (λ _. lose_record run.ended r)
    ]

    unfoldable pub conclude : Failure → ExecutionRecord → Option String → Act ExecutionRecord
    conclude e r precondition =
        if is_started r.side_effect_state
        then reconcile_effect e r precondition
        else fail_record run.ended e r

    abbrev pub failure_of : Thrown → Failure
    failure_of e = if run.timed_out then runtime_error (failure timeout) else runtime_error e

    -- The `catch`, which reads the record as it is stored.
    unfoldable pub terminate : ExecutionRecord → Thrown → Act ExecutionRecord
    terminate r e s = elim (find_row r.execution_ref s) [
      | none ↦ (conclude (failure_of e) r none >>= λ x. save x none) s
      | some row ↦ (conclude (failure_of e) row.execution row.precondition >>= λ x. save x none) s
    ]

    unfoldable pub execute_admitted : ExecutionRecord → Act ExecutionRecord
    execute_admitted r = try_catch (attempt r) (terminate r)
