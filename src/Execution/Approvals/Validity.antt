-- ===== src/Execution/Approvals/Validity.antt =====
-- packages/execution-runtime/src/approval-owner.ts: `validate`.
use proflow.Base.{
  String, ◌<◌, ◌≡◌, ◌≢◌, refl, sym, ap, subst, Bool, true, false, not, Option, none, some, arith,
  ==_iff, ◌∙◌, option_eq,
}
use proflow.Execution.Approvals.{
  approved, ApprovalRecord, Artifact, of_scope, of_effect, of_precondition, capability_name,
  Runtime, Moment, Owner, find_approval, ok, pure,
}
use proflow.Execution.Approvals.Operations.{
  ValidateInput, approval_effect_fingerprint, get_approval, is_approved, has_expired, scope_of,
  present, precondition_holds, is_for, fits, validate_current, validate,
}
use proflow.Execution.Approvals.Trail.{Runs, Runs-bind, Runs-pure, returned_of}
use proflow.Execution.Approvals.Calls.{Current, Runs-if, get-Runs, is_approved-status}
use proflow.Execution.Approvals.Requests.{
  IsBound, Fingerprints, approval_effect_fingerprint-Fingerprints,
}

option_eq-≡ : (a b : Option String) → option_eq a b ≡ true → a ≡ b
option_eq-≡ none none h = refl
option_eq-≡ none (some t) h = cc
option_eq-≡ (some s) none h = cc
option_eq-≡ (some s) (some t) h = ap some ((==_iff s t).0 h)

module _ (runtime : Runtime) where
  -- An APPROVED record in time, for the execution, caller, Task, capability and input, with the
  -- fingerprints of the scope of the request, of its effect with the patch artifact that it binds,
  -- and, where both are given, of the precondition.
  pub record IsValid (now : Moment) (input : ValidateInput) (a : ApprovalRecord) (s : Owner)
      : Type 0 where
    pub stored : find_approval input.approval_ref s ≡ some a
    pub status : a.status ≡ approved
    pub in_time : has_expired runtime now.time a ≡ false
    pub until : runtime.parse_date input.now < runtime.parse_date a.expires_at
    pub execution_ref : a.execution_ref ≡ input.execution_ref
    pub caller_ref : a.caller_ref ≡ input.caller_ref
    pub capability : a.capability ≡ input.capability
    pub input_fingerprint : a.input_fingerprint ≡ input.input_fingerprint
    pub task_id : a.task_id ≡ input.task_id
    pub artifact : Option Artifact
    pub bound : IsBound input.request.capability artifact s
    pub effect :
        a.effect_fingerprint
        ≡ runtime.sha (
            of_effect (record {
              capability = capability_name input.request.capability;
              input_fingerprint = input.input_fingerprint;
              project_root = input.request.project_root;
              patch_artifact = artifact;
            }))
    pub precondition :
        (given fingerprint : String)
        → present input.precondition ≡ some given
        → present a.precondition_fingerprint ≡ some fingerprint
        → fingerprint ≡ runtime.sha (of_precondition given)
    pub scope : a.scope_fingerprint ≡ runtime.sha (of_scope (scope_of runtime input.request))

  abbrev Answers : Moment → ValidateInput → Bool → Owner → Type 0
  Answers now input b s = b ≡ true → (a : ApprovalRecord) × IsValid now input a s

  false≢true : false ≢ true
  false≢true h = cc

  held :
      (o p : Option String)
      → precondition_holds runtime o p ≡ true
      → (given fingerprint : String) → o ≡ some given
      → p ≡ some fingerprint
      → fingerprint ≡ runtime.sha (of_precondition given)
  held none p h given fingerprint e f = cc
  held (some x) none h given fingerprint e f = cc
  held (some x) (some y) h given fingerprint e f =
      grind (arith, ==_iff, e, f, (==_iff y (runtime.sha (of_precondition x))).0 h)

  fits-IsValid :
      (now : Moment) (input : ValidateInput) (a : ApprovalRecord) (s : Owner) (effect : String)
      → Current runtime now input.approval_ref a s
      → is_approved a.status ≡ true
      → is_for runtime input a ≡ true
      → fits runtime input a effect ≡ true
      → Fingerprints runtime input.request input.input_fingerprint s effect s
      → IsValid now input a s
  unfolding is_for fits
  fits-IsValid now input a s effect c is for_it fit (_, (artifact, bound, of_it)) = record {
    stored = subst (λ r. find_approval r s ≡ some a) c.same_ref c.stored;
    status = is_approved-status a.status is;
    in_time = c.fresh (is_approved-status a.status is);
    until = ground (arith, fit);
    execution_ref = (==_iff a.execution_ref input.execution_ref).0 (ground (arith, for_it));
    caller_ref = (==_iff a.caller_ref input.caller_ref).0 (ground (arith, for_it));
    capability = (==_iff a.capability input.capability).0 (ground (arith, for_it));
    input_fingerprint =
        (==_iff a.input_fingerprint input.input_fingerprint).0 (ground (arith, for_it));
    task_id = option_eq-≡ a.task_id input.task_id (ground (arith, for_it));
    artifact = artifact;
    bound = bound;
    effect = (==_iff a.effect_fingerprint effect).0 (ground (arith, fit)) ∙ of_it;
    precondition =
        held (present input.precondition) (present a.precondition_fingerprint)
          (ground (arith, fit));
    scope =
        (==_iff a.scope_fingerprint (runtime.sha (of_scope (scope_of runtime input.request)))).0
          (ground (arith, fit));
  }

  validate_current-Runs :
      (now : Moment) (input : ValidateInput) (a : ApprovalRecord) (s : Owner)
      → Current runtime now input.approval_ref a s
      → Runs (Answers now input) s (validate_current runtime input a s)
  unfolding validate_current
  validate_current-Runs now input a s c =
      Runs-if (Answers now input) s (not (is_approved a.status)) (pure false) _
        (λ _. Runs-pure (Answers now input) false s (λ h. absurd (false≢true h)))
        (λ e.
          Runs-if (Answers now input) s (not (is_for runtime input a)) (pure false) _
            (λ _. Runs-pure (Answers now input) false s (λ h. absurd (false≢true h)))
            (λ g.
              Runs-bind (Fingerprints runtime input.request input.input_fingerprint s)
                (Answers now input) (λ effect. pure (fits runtime input a effect))
                (approval_effect_fingerprint runtime input.request input.input_fingerprint) s
                (approval_effect_fingerprint-Fingerprints runtime input.request
                  input.input_fingerprint s)
                (λ effect t q. Runs-pure (Answers now input) (fits runtime input a effect) t (λ fit.
                  (
                    a,
                    subst (IsValid now input a) (sym q.0) (
                        fits-IsValid now input a s effect c (ground (arith, e)) (ground (arith, g))
                          fit (refl, q.1)),
                  )))))

  pub validate-Runs :
      (now : Moment) (input : ValidateInput) (s : Owner)
      → Runs (Answers now input) s (validate runtime now input s)
  unfolding validate
  validate-Runs now input s =
      Runs-bind (Current runtime now input.approval_ref) (Answers now input)
        (validate_current runtime input) (get_approval runtime now input.approval_ref) s
        (get-Runs runtime now input.approval_ref s) (λ a t c. validate_current-Runs now input a t c)

  -- Where `validate` returns true, the approval is stored, APPROVED and not expired, neither at the
  -- owner's clock nor at the caller's, and it was given for the execution, caller, Task, capability and
  -- input of the call, for a request with the same fingerprint of its scope and of its effect, with the
  -- stored patch proposal that `patch.apply` names, and, where both are given, for the precondition.
  pub validate-IsValid :
      (now : Moment) (input : ValidateInput) (s : Owner)
      → (validate runtime now input s).0 ≡ ok true
      → (a : ApprovalRecord) × IsValid now input a (validate runtime now input s).1
  validate-IsValid now input s h =
      returned_of (Answers now input) s (validate runtime now input s) true
        (validate-Runs now input s) h refl
