-- ===== src/Execution/Runtime/Execute.antt =====
-- packages/execution-runtime/src/index.ts: `executeCapability`, `cancelExecution` and the recovery.
use proflow.Base.{
  String, Bool, true, false, not, ◌&&◌, List, [], ◌∷◌, Option, none, some, if◌then◌else◌,
}
use proflow.Execution.Approvals.{Moment, ApprovalRecord}
use proflow.Execution.Approvals.Operations
use proflow.Execution.Approvals.Operations.{present}
use proflow.Execution.Runtime.{
  Status, pending, running, unknown, SideEffectState, not_started, ErrorCode, approval_required,
  executor_unavailable, cancelled, execution_failed, Failure, Request, ExecutionRecord, Row, Thrown,
  coded, foreign, Result, ok, err, Act, ◌>>=◌, ◌>>◌, pure, throw, failure, runtime_error,
  parse_record, save, fail_record, lose_record, is_some, recovery_resume, unknown_reality,
  SignalKind,
}
use proflow.Execution.Runtime.Admission.{Admission, Intent, answer, with_owner, admit}
use proflow.Execution.Runtime.Intents.{
  Env, Opened, settled, opened, open_execution, get_execution_for_caller,
}
use proflow.Execution.Runtime.Effects.{
  Run, Reality, Reconciliation, succeeded_record, still_pending, is_pending, is_started,
  execute_admitted, try_catch,
}
use proflow.Execution.Runtime.Signals.{emit_signal}

pub record CancelInput : Type 0 where
  pub execution_ref : String
  pub caller_ref : String

-- What comes from outside during a call. `observed` is what the executor observes of a precondition,
-- `has_slot` is false where the queue of the semaphore is full, and while the call waits for its slot
-- another may be cancelled, or this one.
pub record World : Type 0 where
  pub now : Moment
  pub closed : Bool
  pub observed : Result (Option String)
  pub expires_at : String
  pub has_slot : Bool
  pub meanwhile : Option CancelInput
  pub run : Run

abbrev pub is_approval_required : ErrorCode → Bool
is_approval_required approval_required = true
is_approval_required _ = false

abbrev pub queue_full : Thrown
queue_full = coded (record { code = executor_unavailable; retryable = true })

unfoldable pub fail_and_save : Moment → Failure → ExecutionRecord → Act ExecutionRecord
fail_and_save now e r = fail_record now e r >>= λ x. save x none

-- A record that is PENDING becomes FAILED; of a running one, the call is told to stop.
abbrev pub cancel_record : Moment → ExecutionRecord → Act ExecutionRecord
cancel_record now r =
    if is_pending r.status then fail_and_save now (runtime_error (failure cancelled)) r else pure r

unfoldable pub cancel_execution : Moment → CancelInput → Act ExecutionRecord
cancel_execution now input =
    get_execution_for_caller input.execution_ref input.caller_ref >>= cancel_record now

-- Another call's result or error is its own.
abbrev pub aside : Moment → Option CancelInput → Act Unit
aside now none s = pure tt s
aside now (some input) s = (ok tt, (cancel_execution now input s).1)

module _ (env : Env) where
  abbrev pub approval_input : World → ExecutionRecord → Option String → Operations.EnsureInput
  approval_input world r precondition = record {
    execution_ref = r.execution_ref;
    actor_ref = "execution-runtime:policy";
    expires_at = world.expires_at;
    precondition = precondition;
  }

  abbrev pub with_approval : World → ExecutionRecord → ApprovalRecord → Act ExecutionRecord
  with_approval world r a =
      parse_record (record r { approval_ref = some a.approval_ref; updated_at = world.now.stamp })

  unfoldable pub draft_approval :
      World → Failure → ExecutionRecord → Option String → Act ExecutionRecord
  draft_approval world e r precondition =
      with_owner (
        Operations.ensure_pending_approval env.approvals world.now
          (approval_input world r precondition))
      >>= with_approval world r
      >>= fail_and_save world.now e

  -- With an approval of the owner's to ask for, and none in the request.
  abbrev pub wants_approval : World → Request → Failure → Bool
  wants_approval world request e =
      is_approval_required e.code
      && not (is_some (present request.approval_ref))
      && not (is_some world.run.ports.approval)

  abbrev pub reject_observed :
      World → Failure → ExecutionRecord → Result (Option String) → Act ExecutionRecord
  reject_observed world e r (ok precondition) = draft_approval world e r precondition
  reject_observed world e r (err thrown) = fail_and_save world.now (runtime_error thrown) r

  -- The `catch` of the admission. It does not read the stored record again.
  unfoldable pub reject_admission : World → Request → ExecutionRecord → Thrown → Act ExecutionRecord
  reject_admission world request r thrown =
      let e = runtime_error thrown in
      if wants_approval world request e
      then reject_observed world e r world.observed
      else fail_and_save world.now e r

  unfoldable pub take_slot : World → Intent → ExecutionRecord → Admission → Act ExecutionRecord
  take_slot world intent r admission =
      if not world.has_slot
      then fail_and_save world.now (runtime_error queue_full) r
      else aside world.now world.meanwhile
        >> still_pending r (execute_admitted env world.run intent admission r)

  unfoldable pub admit_and_run : World → Intent → ExecutionRecord → Act ExecutionRecord
  admit_and_run world intent r s =
      let (admission, s') = admit env.approvals world.run.ports world.now intent s in
      elim admission [
        | ok a ↦ take_slot world intent r a s'
        | err e ↦ reject_admission world intent.request r e s'
      ]

  abbrev pub carry_on : World → Opened → Act ExecutionRecord
  carry_on world (settled r) = pure r
  carry_on world (opened intent r) = admit_and_run world intent r

  unfoldable pub execute_capability : World → Request → Act ExecutionRecord
  execute_capability world request =
      if world.closed
      then throw (failure executor_unavailable)
      else open_execution env world.now request >>= carry_on world

  -- The recovery at the start of a runtime; `verify` is the executor of a row and what it finds.
  abbrev pub save_and_signal : Moment → SignalKind → ExecutionRecord → Act Unit
  save_and_signal now kind r = save r none >> emit_signal env now kind r

  abbrev pub recovered_kind : ExecutionRecord → SignalKind
  recovered_kind r = elim r.status [ unknown ↦ unknown_reality | _ ↦ recovery_resume ]

  unfoldable pub settle_recovery : Moment → ExecutionRecord → Reconciliation → Act ExecutionRecord
  settle_recovery now r found = elim found.state [
    | Reality.not_applied ↦ fail_record now (runtime_error (failure execution_failed)) r
    | Reality.unknown ↦ lose_record now r
    | Reality.applied ↦ elim found.result [
      | none ↦ lose_record now r
      | some result ↦
          parse_record
            (record (succeeded_record now SideEffectState.applied result found.evidence r) {
              error = none;
            })
    ]
  ]

  abbrev pub verify_with : Moment → Row → Option (Result Reconciliation) → Act Unit
  verify_with now row none = lose_record now row.execution >>= save_and_signal now unknown_reality
  verify_with now row (some found) = elim row.precondition [
    | none ↦ lose_record now row.execution >>= save_and_signal now unknown_reality
    | some _ ↦
        try_catch (answer found >>= settle_recovery now row.execution)
          (λ _. lose_record now row.execution)
        >>= λ r. save_and_signal now (recovered_kind r) r
  ]

  unfoldable pub verify_row : Moment → Row → Option (Result Reconciliation) → Act Unit
  verify_row now row found =
      if env.reads_back row.request then verify_with now row found else throw foreign

  abbrev pub settle_running : Moment → Row → Option (Result Reconciliation) → Act Unit
  settle_running now row found =
      if is_started row.execution.side_effect_state
      then verify_row now row found
      else fail_record now (runtime_error (failure cancelled)) row.execution
        >>= save_and_signal now recovery_resume

  abbrev pub recover_pending :
      Moment → Option (Result Reconciliation) → Row → SideEffectState → Act Unit
  recover_pending now found row not_started = emit_signal env now recovery_resume row.execution
  recover_pending now found row _ = settle_running now row found

  abbrev pub recover_status : Moment → Option (Result Reconciliation) → Row → Status → Act Unit
  recover_status now found row pending =
      recover_pending now found row row.execution.side_effect_state
  recover_status now found row running = settle_running now row found
  recover_status now found row unknown = verify_row now row found
  recover_status now found row _ = pure tt

  unfoldable pub recover_row : Moment → Option (Result Reconciliation) → Row → Act Unit
  recover_row now found row = recover_status now found row row.execution.status

  unfoldable pub recover_each :
      Moment → (Row → Option (Result Reconciliation)) → List Row → Act Unit
  recover_each now verify [] = pure tt
  recover_each now verify (row ∷ rows) =
      recover_row now (verify row) row >> recover_each now verify rows

  unfoldable pub recover_incomplete : Moment → (Row → Option (Result Reconciliation)) → Act Unit
  recover_incomplete now verify s = recover_each now verify s.executions s
