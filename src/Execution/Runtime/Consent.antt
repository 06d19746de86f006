-- ===== src/Execution/Runtime/Consent.antt =====
-- packages/execution-runtime/src/index.ts: an effect that needs an approval of the owner's.
use proflow.Base.{String, ◌≡◌, some, text_key}
use proflow.Execution.Approvals
use proflow.Execution.Approvals.{ApprovalRecord, Moment, Owner, find_approval, consumed}
use proflow.Execution.Approvals.Operations
use proflow.Execution.Approvals.Operations.{ValidateInput}
use proflow.Execution.Approvals.Validity.{IsValid}
use proflow.Execution.Runtime.{Tables}
use proflow.Execution.Runtime.Admission.{Admission, owner_of}
use proflow.Execution.Runtime.Intents.{Env}

-- The approval that a request names was valid when the owner was asked, and has been consumed.
pub record Consented (env : Env) (now : Moment) (ref : String) (input : ValidateInput) (t : Tables)
    : Type 0 where
  pub asked : Owner
  pub answered : ApprovalRecord
  pub valid : IsValid env.approvals now input answered asked
  pub after : ApprovalRecord
  pub stored : find_approval ref (owner_of t) ≡ some after
  pub spent : after.status ≡ consumed
