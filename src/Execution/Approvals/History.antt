-- ===== src/Execution/Approvals/History.antt =====
-- packages/execution-runtime/src/approval-owner.ts over any sequence of calls.
use proflow.Base.{String, List, [], ◌∷◌, keep}
use proflow.Execution.Approvals.{ApprovalRecord, Runtime, Moment, Owner, ◌>>=◌, pure}
use proflow.Execution.Approvals.Operations
use proflow.Execution.Approvals.Operations.{
  DecideInput, RevokeInput, ValidateInput, RequestInput, EnsureInput, Filter,
  approval_effect_fingerprint, get_approval, request_approval, ensure_pending_approval,
  decide_approval, revoke_approval, is_approved, is_for, fits, validate_current, validate, get_all,
  list_approvals,
}
use proflow.Execution.Approvals.Trail.{
  Evolves, Evolves-refl, Evolves-trans, Runs, Runs-bind, Runs-pure,
}
use proflow.Execution.Approvals.Calls.{
  Current, get-Runs, decide_approval-Runs, revoke_approval-Runs, consume-Runs,
}
use proflow.Execution.Approvals.Validity.{validate-Runs}
use proflow.Execution.Approvals.Requests.{Done, request_approval-Runs, ensure_pending_approval-Runs}

pub data Call : Type 0 where
  request : RequestInput → Call
  ensure : EnsureInput → Call
  decide : DecideInput → Call
  revoke : RevokeInput → Call
  get consume : String → Call
  list : Filter → Call
  validate_one : ValidateInput → Call

module _ (runtime : Runtime) where
  -- What a call leaves in the tables, whether it returns or throws.
  unfoldable pub perform : Moment → Call → Owner → Owner
  perform now (request input) s = (request_approval runtime now input s).1
  perform now (ensure input) s = (ensure_pending_approval runtime now input s).1
  perform now (decide input) s = (decide_approval runtime now input s).1
  perform now (revoke input) s = (revoke_approval runtime now input s).1
  perform now (get ref) s = (get_approval runtime now ref s).1
  perform now (consume ref) s = (Operations.consume runtime now ref s).1
  perform now (list filter) s = (list_approvals runtime now filter s).1
  perform now (validate_one input) s = (validate runtime now input s).1

  unfoldable pub run : List (Moment × Call) → Owner → Owner
  run [] s = s
  run ((now, call) ∷ calls) s = run calls (perform now call s)

  get_all-Runs :
      (now : Moment) (rows : List ApprovalRecord) (s : Owner)
      → Runs Done s (get_all runtime now rows s)
  unfolding get_all
  get_all-Runs now [] s = Runs-pure Done [] s tt
  get_all-Runs now (a ∷ rows) s =
      Runs-bind (Current runtime now a.approval_ref) Done
        (λ b. get_all runtime now rows >>= λ bs. pure (b ∷ bs))
        (get_approval runtime now a.approval_ref) s (get-Runs runtime now a.approval_ref s)
        (λ b t _.
          Runs-bind Done Done (λ bs. pure (b ∷ bs)) (get_all runtime now rows) t
            (get_all-Runs now rows t) (λ bs u _. Runs-pure Done (b ∷ bs) u tt))

  list_approvals-Runs :
      (now : Moment) (filter : Filter) (s : Owner)
      → Runs Done s (list_approvals runtime now filter s)
  unfolding list_approvals
  list_approvals-Runs now filter s =
      let rows = Operations.oldest_first runtime (
        keep (Operations.of_execution runtime (Operations.present filter.execution_ref))
          s.approvals) in
      let shown = keep (Operations.has_status runtime filter.status) in
      Runs-bind Done Done (λ found. pure (shown found)) (get_all runtime now rows) s
        (get_all-Runs now rows s) (λ found t _. Runs-pure Done (shown found) t tt)

  pub perform-Evolves : (now : Moment) (call : Call) (s : Owner) → Evolves s (perform now call s)
  unfolding perform
  perform-Evolves now (request input) s = (request_approval-Runs runtime now input s).evolves
  perform-Evolves now (ensure input) s = (ensure_pending_approval-Runs runtime now input s).evolves
  perform-Evolves now (decide input) s = (decide_approval-Runs runtime now input s).evolves
  perform-Evolves now (revoke input) s = (revoke_approval-Runs runtime now input s).evolves
  perform-Evolves now (get ref) s = (get-Runs runtime now ref s).evolves
  perform-Evolves now (consume ref) s = (consume-Runs runtime now ref s).evolves
  perform-Evolves now (list filter) s = (list_approvals-Runs now filter s).evolves
  perform-Evolves now (validate_one input) s = (validate-Runs runtime now input s).evolves

  pub run-Evolves : (calls : List (Moment × Call)) (s : Owner) → Evolves s (run calls s)
  unfolding run
  run-Evolves [] s = Evolves-refl s
  run-Evolves ((now, call) ∷ calls) s =
      Evolves-trans (perform-Evolves now call s) (run-Evolves calls (perform now call s))
