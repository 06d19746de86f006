-- ===== src/Execution/Approvals/Final.antt =====
-- packages/execution-runtime/src/approval-owner.ts: what no later call undoes.
use proflow.Base.{String, ◌≡◌, ◌≢◌, refl, sym, ◌∙◌, ap, subst, Bool, true, false, List, some, arith}
use proflow.Execution.Approvals.{
  Status, pending, approved, denied, revoked, consumed, expired, ApprovalRecord,
  approval_state_invalid, Runtime, Moment, Owner, find_approval, ok, err,
}
use proflow.Execution.Approvals.Operations
use proflow.Execution.Approvals.Operations.{
  ValidateInput, get_approval, consume_current, is_approved, has_expired, is_for, fits, scope_of,
  validate_current, validate, approval_effect_fingerprint,
}
use proflow.Execution.Approvals.Trail.{
  Trail, here, next, Moves, approve, deny, withdraw, revoke, consume, expire, returned_of,
}
use proflow.Execution.Approvals.Calls.{IsConsumed, consume-Runs}
use proflow.Execution.Approvals.History.{Call, run, run-Evolves}

-- DENIED, REVOKED, CONSUMED and EXPIRED.
abbrev pub is_final : Status → Bool
is_final pending = false
is_final approved = false
is_final _ = true

Moves-is_final : {t u : Status} → Moves t u → is_final t ≡ false
Moves-is_final approve = refl
Moves-is_final deny = refl
Moves-is_final withdraw = refl
Moves-is_final revoke = refl
Moves-is_final consume = refl
Moves-is_final expire = refl

true≢false : true ≢ false
true≢false h = cc

not_approved : (t : Status) → is_final t ≡ true → is_approved t ≡ false
not_approved approved h = absurd (ground (arith, h))
not_approved pending h = refl
not_approved denied h = refl
not_approved revoked h = refl
not_approved consumed h = refl
not_approved expired h = refl

Trail-is_final : {a b : ApprovalRecord} → Trail a b → is_final a.status ≡ true → a ≡ b
Trail-is_final here h = refl
Trail-is_final {a} (next {b = b} t adv) h =
    let same : a ≡ b = Trail-is_final t h in
    let open_one : is_final b.status ≡ false = Moves-is_final adv.move in
    absurd (true≢false (sym (subst (λ x. is_final x.status ≡ true) same h) ∙ open_one))

module _ (runtime : Runtime) where
  -- Over any sequence of calls, whatever they return or throw, no record is lost, and each changes
  -- only by moves of the table (PENDING to APPROVED, DENIED or REVOKED, APPROVED to REVOKED, CONSUMED
  -- or EXPIRED), each to the next version, while what was asked for stays as it was.
  pub run-Trail :
      (calls : List (Moment × Call)) (s : Owner) (ref : String) (a : ApprovalRecord)
      → find_approval ref s ≡ some a
      → (b : ApprovalRecord) × (find_approval ref (run runtime calls s) ≡ some b) × Trail a b
  run-Trail calls s ref a h = (run-Evolves runtime calls s).rows ref a h

  -- A record that is DENIED, REVOKED, CONSUMED or EXPIRED stays as it is over any sequence of calls.
  pub run-is_final :
      (calls : List (Moment × Call)) (s : Owner) (ref : String) (a : ApprovalRecord)
      → find_approval ref s ≡ some a
      → is_final a.status ≡ true
      → find_approval ref (run runtime calls s) ≡ some a
  run-is_final calls s ref a h f =
      let (b, k, t) = run-Trail calls s ref a h in k ∙ ap some (sym (Trail-is_final t f))

  final_status : (a : ApprovalRecord) → is_final a.status ≡ true → is_approved a.status ≡ false
  final_status a h = not_approved a.status h

  consume-final :
      (now : Moment) (ref : String) (s : Owner) (a : ApprovalRecord)
      → find_approval ref s ≡ some a
      → is_final a.status ≡ true
      → (Operations.consume runtime now ref s).0 ≡ err approval_state_invalid
  unfolding Operations.consume get_approval consume_current
  consume-final now ref s a h f = ground (arith, h, final_status a f)

  -- An approval is consumed at most once: after a `consume` that returned, and any calls after it, a
  -- `consume` of the same reference throws APPROVAL_STATE_INVALID.
  pub consume-again :
      (now later : Moment) (ref : String) (s : Owner) (a : ApprovalRecord)
      (calls : List (Moment × Call))
      → (Operations.consume runtime now ref s).0 ≡ ok a
      → (Operations.consume runtime later ref
          (run runtime calls (Operations.consume runtime now ref s).1)).0
        ≡ err approval_state_invalid
  consume-again now later ref s a calls h =
      let done = consume-Runs runtime now ref s in
      let left : IsConsumed runtime now ref a (Operations.consume runtime now ref s).1 =
        returned_of (IsConsumed runtime now ref) s (Operations.consume runtime now ref s) a done
          h in
      let final : is_final a.status ≡ true =
        subst (λ t. is_final t ≡ true) (sym left.consumed) refl in
      consume-final later ref (run runtime calls (Operations.consume runtime now ref s).1) a
        (run-is_final calls (Operations.consume runtime now ref s).1 ref a left.stored final) final

  -- Once a record is DENIED, REVOKED, CONSUMED or EXPIRED, `validate` of its reference returns false
  -- after any calls.
  pub validate-is_final :
      (calls : List (Moment × Call)) (now : Moment) (input : ValidateInput) (s : Owner)
      (a : ApprovalRecord)
      → find_approval input.approval_ref s ≡ some a
      → is_final a.status ≡ true
      → (validate runtime now input (run runtime calls s)).0 ≡ ok false
  unfolding validate validate_current get_approval
  validate-is_final calls now input s a h f =
      ground (arith, run-is_final calls s input.approval_ref a h f, final_status a f)
