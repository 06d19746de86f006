-- ===== src/Task/Errors.antt =====
-- The errors of the task services (`DomainError` and `failure` in
-- packages/task-orchestration/src/services.ts), and a transaction's steps: a handler reads and
-- writes the database and either returns or throws. The texts of messages are left out.
use proflow.Base.{ℕ, Bool, true, false, Option, none, some, ◌≡◌, refl, arith}

pub data Code : Type 0 where
  task_group_not_found task_group_already_exists task_group_invalid_state : Code
  task_group_version_conflict : Code
  task_not_found task_already_exists task_invalid_state task_version_conflict : Code
  task_blocked task_plan_empty task_blocker_unresolved : Code
  node_not_found node_invalid_state node_not_current node_version_conflict : Code
  node_output_missing : Code
  agent_package_not_eligible role_binding_mismatch task_role_binding_conflict : Code
  task_role_binding_required worker_mismatch : Code
  message_not_found document_index_mismatch document_not_found document_type_not_allowed : Code
  document_write_failed document_recovery_required : Code
  idempotency_conflict invalid_request internal_error : Code

-- `readinessBlockedReason`, and `blockedReason` of the queries.
pub data BlockedReason : Type 0 where
  task_requirement_required task_document_index_mismatch : BlockedReason
  task_role_binding_required task_node_agent_package_invalid : BlockedReason
  task_role_binding_incomplete : BlockedReason
  task_group_not_active predecessor_not_succeeded task_group_busy : BlockedReason
  task_not_ready : BlockedReason

pub data Details : Type 0 where
  no_details : Details
  versions : (expected actual : ℕ) → Details
  blocked : BlockedReason → Details

pub record DomainError : Type 0 where
  pub code : Code
  pub retryable : Bool
  pub details : Details

-- A `DomainError` that is not retryable and has no details.
abbrev pub domain : Code → DomainError
domain c = record { code = c; retryable = false; details = no_details }

-- What a plain `Error` of the store becomes in `failure`.
abbrev pub internal : DomainError
internal = domain internal_error

pub data Result {ℓ} (A : Type ℓ) : Type ℓ where
  ok : A → Result A
  err : DomainError → Result A

abbrev pub Tx : Type 0 → Type 0 → Type 0
Tx S A = S → Result (A × S)

infixl 5 ◌>>=◌ ◌>>◌
abbrev pub ◌>>=◌ : {S A B : Type 0} → Tx S A → (A → Tx S B) → Tx S B
◌>>=◌ m f s = elim (m s) [ ok (a, s') ↦ f a s' | err e ↦ err e ]

abbrev pub ◌>>◌ : {S A B : Type 0} → Tx S A → Tx S B → Tx S B
◌>>◌ m k s = elim (m s) [ ok (a, s') ↦ k s' | err e ↦ err e ]

abbrev pub pure : {S A : Type 0} → A → Tx S A
pure a s = ok (a, s)

abbrev pub gets : {S A : Type 0} → (S → A) → Tx S A
gets f s = ok (f s, s)

abbrev pub throw_if : {S : Type 0} → Bool → DomainError → Tx S (Unit {0})
throw_if true e s = err e
throw_if false e s = ok (tt, s)

abbrev pub some_or_throw : {S A : Type 0} → Option A → DomainError → Tx S A
some_or_throw none e s = err e
some_or_throw (some a) e s = ok (a, s)

-- Inversion of a successful step, for proofs where the parts stay shut.
module _ {S A B : Type 0} where
  bind_cases :
      (x : Result (A × S)) (f : A → Tx S B) (r : B × S)
      → elim x [ ok (a, s') ↦ f a s' | err e ↦ err e ] ≡ ok r
      → (a : A) × (s' : S) × (x ≡ ok (a, s')) × (f a s' ≡ ok r)
  bind_cases (ok (a, s')) f r h = (a, s', refl, h)
  bind_cases (err e) f r h = cc

  pure_cases :
      (x : Result (A × S)) (f : A → B) (r : B × S)
      → elim x [ ok (a, s1) ↦ pure (f a) s1 | err e ↦ err e ] ≡ ok r
      → (a : A) × (x ≡ ok (a, r.1))
  pure_cases (ok (a, s1)) f r h = (a, ground (arith, h))
  pure_cases (err e) f r h = cc

  pub >>=-eq-ok :
      (m : Tx S A) (f : A → Tx S B) (s : S) (r : B × S)
      → (m >>= f) s ≡ ok r
      → (a : A) × (s' : S) × (m s ≡ ok (a, s')) × (f a s' ≡ ok r)
  >>=-eq-ok m f s r h = bind_cases (m s) f r h

  -- A step followed by a change of its result alone.
  pub >>=-pure :
      (m : Tx S A) (f : A → B) (s : S) (b : B) (s' : S)
      → (m >>= λ a. pure (f a)) s ≡ ok (b, s')
      → (a : A) × (m s ≡ ok (a, s'))
  >>=-pure m f s b s' h = pure_cases (m s) f (b, s') h
