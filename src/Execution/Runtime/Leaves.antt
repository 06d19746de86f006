-- ===== src/Execution/Runtime/Leaves.antt =====
-- packages/execution-runtime/src/index.ts: the parts of a call that write no execution.
use proflow.Base.{
  arith, String, ◌≡◌, refl, ◌∙◌, Bool, true, false, List, [], ◌∷◌, Option, none, some,
  if◌then◌else◌,
}
use proflow.Execution.Approvals
use proflow.Execution.Approvals.{Moment, Capability, patch_apply, other, ExecuteRequest}
use proflow.Execution.Approvals.Operations
use proflow.Execution.Approvals.Operations.{present}
use proflow.Execution.Runtime.{
  Request, Stored, Relation, Tables, Result, ok, err, Act, ◌>>=◌, ◌>>◌, pure, throw, failure,
  approval_required,
}
use proflow.Execution.Runtime.Artifacts.{
  Texts, ExecutorArtifact, get_artifact_storage, assert_patch_scope, register_artifact, relate,
  stored_of, relation_of, register_each, register_all,
}
use proflow.Execution.Runtime.Admission.{
  Ports, PolicyDecision, Verdict, allow, deny, review, ModelDecision, Admission, Intent, answer,
  with_owner, check_identity, policy_decision, judge, reviewed, ask_approval, demand_valid,
  check_approval, validation, validate_approval, admit,
}
use proflow.Execution.Runtime.Intents.{Env}
use proflow.Execution.Runtime.Effects.{Stop, going, stopped, timed_out, check_stop, consume_given}

abbrev pub Left : {A : Type 0} → Tables → Result A × Tables → Type 0
Left s r = r.1.executions ≡ s.executions

abbrev pub Leaves : {A : Type 0} → Act A → Type 0
Leaves m = (s : Tables) → Left s (m s)

module _ {A B : Type 0} (f : A → Act B) where
  Left-step :
      (s : Tables) (r : Result A × Tables)
      → Left s r
      → ((a : A) → Leaves (f a))
      → Left {A = B} s (elim r.0 [ ok a ↦ f a r.1 | err e ↦ (err e, r.1) ])
  Left-step s (ok a, t) h k = k a t ∙ h
  Left-step s (err e, t) h k = h

  pub Leaves-bind : (m : Act A) → Leaves m → ((a : A) → Leaves (f a)) → Leaves (m >>= f)
  Leaves-bind m h k s = Left-step s (m s) (h s) k

pub Leaves-then : {A B : Type 0} (m : Act A) (k : Act B) → Leaves m → Leaves k → Leaves (m >> k)
Leaves-then m k h g = Leaves-bind (λ _. k) m h (λ _. g)

module _ {A : Type 0} where
  pub Left-if :
      (s : Tables) (b : Bool) (m k : Act A)
      → Left s (m s)
      → Left s (k s)
      → Left s ((if b then m else k) s)
  Left-if s true m k h g = h
  Left-if s false m k h g = g

  pub Left-either :
      {X : Type 0} (s : Tables) (o : Option X) (k : Act A) (f : X → Act A)
      → Left s (k s)
      → ((x : X) → Left s (f x s))
      → Left s ((elim o as (λ _. Act A) [ none ↦ k | some x ↦ f x ]) s)
  Left-either s none k f h g = h
  Left-either s (some x) k f h g = g x

pub Leaves-owner : {A : Type 0} (m : Approvals.Act A) → Leaves (with_owner m)
Leaves-owner m s = refl

module _ (approvals : Approvals.Runtime) (ports : Ports) where
  identity-Leaves :
      (o : Option (Result Bool)) → Leaves (check_identity (record ports { identity = o }))
  identity-Leaves none s = refl
  identity-Leaves (some (ok true)) s = refl
  identity-Leaves (some (ok false)) s = refl
  identity-Leaves (some (err e)) s = refl

  policy-Leaves :
      (o : Option (Result PolicyDecision)) (request : Request)
      → Leaves (policy_decision (record ports { policy = o }) request)
  policy-Leaves none request s = refl
  policy-Leaves (some r) request s = refl

  reviewed-Leaves : (p : PolicyDecision) (m : ModelDecision) → Leaves (reviewed p m)
  reviewed-Leaves p m s = Left-if s m.is_denied (throw (failure _)) (pure _) refl refl

  model-Leaves :
      (v : Verdict) (o : Option (Result ModelDecision)) (p : PolicyDecision)
      → Leaves (judge (record ports { model = o }) (record p { verdict = v }))
  model-Leaves allow o p s = refl
  model-Leaves deny o p s = refl
  model-Leaves review none p s = refl
  model-Leaves review (some r) p s =
      Leaves-bind (reviewed (record p { verdict = review })) (answer r) (λ s. refl)
        (λ m. reviewed-Leaves (record p { verdict = review }) m) s

  ask-Leaves :
      (o : Option (Operations.ValidateInput → Result Bool)) (now : Moment)
      (input : Operations.ValidateInput)
      → Leaves (ask_approval approvals (record ports { approval = o }) now input)
  ask-Leaves none now input s = refl
  ask-Leaves (some port) now input s = refl

  demand-Leaves : (b : Bool) → Leaves (demand_valid approvals ports b)
  demand-Leaves true s = refl
  demand-Leaves false s = refl

  check_approval-Leaves :
      (now : Moment) (intent : Intent) (precondition : Option String) (ref : String)
      → Leaves (check_approval approvals ports now intent precondition ref)
  unfolding check_approval
  check_approval-Leaves now intent precondition ref =
      Leaves-bind (demand_valid approvals ports)
        (ask_approval approvals ports now (validation approvals ports now intent precondition ref))
        (ask-Leaves ports.approval now (validation approvals ports now intent precondition ref))
        demand-Leaves

  pub validate_approval-Leaves :
      (now : Moment) (intent : Intent) (required : Bool) (precondition : Option String)
      → Leaves (validate_approval approvals ports now intent required precondition)
  unfolding validate_approval
  validate_approval-Leaves now intent false precondition s = refl
  validate_approval-Leaves now intent true precondition s =
      Left-either s (present intent.request.approval_ref) (throw (failure approval_required))
        (check_approval approvals ports now intent precondition) refl
        (λ ref. check_approval-Leaves now intent precondition ref s)

  pub admit-Leaves : (now : Moment) (intent : Intent) → Leaves (admit approvals ports now intent)
  unfolding admit
  admit-Leaves now intent =
      Leaves-bind
        (λ (a : Admission).
          validate_approval approvals ports now intent a.approval_required none >> pure a)
        (check_identity ports >> policy_decision ports intent.request >>= judge ports)
        (Leaves-bind (judge ports) (check_identity ports >> policy_decision ports intent.request)
          (Leaves-bind (λ _. policy_decision ports intent.request) (check_identity ports)
            (identity-Leaves ports.identity) (λ _. policy-Leaves ports.policy intent.request))
          (λ (p : PolicyDecision). model-Leaves p.verdict ports.model p))
        (λ (a : Admission).
          Leaves-bind (λ _. pure a)
            (validate_approval approvals ports now intent a.approval_required none)
            (validate_approval-Leaves now intent a.approval_required none) (λ _ s. refl))

pub check_stop-Leaves : (t : Stop) → Leaves (check_stop t)
check_stop-Leaves going s = refl
check_stop-Leaves stopped s = refl
check_stop-Leaves timed_out s = refl

module _ (env : Env) (now : Moment) where
  pub consume_given-Leaves :
      (ports : Ports) (ref : Option String) → Leaves (consume_given env now ports ref)
  consume_given-Leaves ports none s = refl
  consume_given-Leaves ports (some ref) s =
      Left-either s ports.approval
        (with_owner (Operations.consume env.approvals now ref) >> pure tt) (λ _. pure tt)
        (Leaves-bind (λ _. pure tt) (with_owner (Operations.consume env.approvals now ref))
          (Leaves-owner (Operations.consume env.approvals now ref)) (λ _ t. refl) s)
        (λ _. refl)

pub assert_patch_scope-Leaves : (request : ExecuteRequest) → Leaves (assert_patch_scope request)
unfolding assert_patch_scope get_artifact_storage
assert_patch_scope-Leaves request s = ground (arith)

module _ (texts : Texts) where
  pub register_artifact-Leaves : (a : Stored) → Leaves (register_artifact texts a)
  unfolding register_artifact
  register_artifact-Leaves a s = ground (arith)

  relate-Leaves : (r : Relation) → Leaves (relate texts r)
  unfolding relate
  relate-Leaves r s = ground (arith)

  register_each-Leaves :
      (now : Moment) (request : Request) (execution : String) (artifacts : List ExecutorArtifact)
      → Leaves (register_each texts now request execution artifacts)
  unfolding register_each
  register_each-Leaves now request execution [] s = refl
  register_each-Leaves now request execution (a ∷ rest) s =
      Leaves-bind (λ _. register_each texts now request execution rest)
        (register_artifact texts (stored_of texts now request execution a)
          >> relate texts (relation_of texts execution a))
        (Leaves-bind (λ _. relate texts (relation_of texts execution a))
          (register_artifact texts (stored_of texts now request execution a))
          (register_artifact-Leaves (stored_of texts now request execution a))
          (λ _. relate-Leaves (relation_of texts execution a)))
        (λ _. register_each-Leaves now request execution rest) s

  Left-all :
      (s : Tables) (r : Result Unit × Tables)
      → Left s r
      → Left {A = Unit} s (elim r.0 [ ok _ ↦ (ok tt, r.1) | err e ↦ (err e, s) ])
  Left-all s (ok _, t) h = h
  Left-all s (err e, t) h = refl

  pub register_all-Leaves :
      (now : Moment) (request : Request) (execution : String) (artifacts : List ExecutorArtifact)
      → Leaves (register_all texts now request execution artifacts)
  unfolding register_all
  register_all-Leaves now request execution artifacts s =
      Left-all s (register_each texts now request execution artifacts s)
        (register_each-Leaves now request execution artifacts s)
