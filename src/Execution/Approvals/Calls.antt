-- ===== src/Execution/Approvals/Calls.antt =====
-- packages/execution-runtime/src/approval-owner.ts: each operation changes records by the moves of the
-- table alone, and where it returns a record, that record is stored.
use proflow.Base.{
  String, ◌≡◌, ◌≢◌, refl, sym, subst, Bool, true, false, not, ◌&&◌, Option, none, some, arith,
  if◌then◌else◌, nat_eq, get_row-key, text_key,
}
use proflow.Execution.Approvals.{
  Status, pending, approved, denied, revoked, consumed, expired, ApprovalRecord, Code,
  approval_not_found, approval_version_conflict, approval_state_invalid, approval_key, Runtime,
  Moment, Owner, find_approval, Result, Act, pure, throw, save,
}
use proflow.Execution.Approvals.Operations
use proflow.Execution.Approvals.Operations.{
  is_pending, is_approved, has_expired, moved, Decision, allow, deny, DecideInput, RevokeInput,
  ValidateInput, RequestInput, EnsureInput, Filter, expire_if_due, get_approval, decided,
  decide_current, decide_approval, revoked_record, revoke_current, revoke_approval, consume_current,
}
use proflow.Execution.Approvals.Trail.{
  Moves, approve, deny as deny_move, withdraw, revoke, consume as consume_move, expire, Advance,
  Runs, Runs-bind, Runs-pure, Runs-throw, Runs-mono, Stored, save-Runs,
}

module _ {A : Type 0} (Q : A → Owner → Type 0) (s : Owner) where
  pub Runs-if :
      (b : Bool) (m k : Act A)
      → (b ≡ true → Runs Q s (m s))
      → (b ≡ false → Runs Q s (k s))
      → Runs Q s ((if b then m else k) s)
  Runs-if true m k f g = f refl
  Runs-if false m k f g = g refl

  pub Runs-choice :
      (b : Bool) (x y : Result A × Owner)
      → (b ≡ true → Runs Q s x)
      → (b ≡ false → Runs Q s y)
      → Runs Q s (if b then x else y)
  Runs-choice true x y f g = f refl
  Runs-choice false x y f g = g refl

  pub Runs-either :
      {X : Type 0} (o : Option X) (f : X → Act A) (k : Act A)
      → ((x : X) → o ≡ some x → Runs Q s (f x s))
      → (o ≡ none → Runs Q s (k s))
      → Runs Q s (elim o [ none ↦ k s | some x ↦ f x s ])
  Runs-either none f k g h = h refl
  Runs-either (some x) f k g h = g x refl

  pub Runs-found :
      {X : Type 0} (o : Option X) (e : Code) (f : X → Act A)
      → ((x : X) → o ≡ some x → Runs Q s (f x s))
      → Runs Q s (elim o [ none ↦ throw e s | some x ↦ f x s ])
  Runs-found none e f h = Runs-throw Q e s
  Runs-found (some x) e f h = h x refl

pub is_pending-status : (t : Status) → is_pending t ≡ true → t ≡ pending
is_pending-status pending h = refl
is_pending-status approved h = absurd (ground (arith, h))
is_pending-status denied h = absurd (ground (arith, h))
is_pending-status revoked h = absurd (ground (arith, h))
is_pending-status consumed h = absurd (ground (arith, h))
is_pending-status expired h = absurd (ground (arith, h))

pub is_approved-status : (t : Status) → is_approved t ≡ true → t ≡ approved
is_approved-status approved h = refl
is_approved-status pending h = absurd (ground (arith, h))
is_approved-status denied h = absurd (ground (arith, h))
is_approved-status revoked h = absurd (ground (arith, h))
is_approved-status consumed h = absurd (ground (arith, h))
is_approved-status expired h = absurd (ground (arith, h))

from_status : {t u v : Status} → t ≡ u → Moves u v → Moves t v
from_status {v = v} e m = subst (λ x. Moves x v) (sym e) m

decision_move :
    (runtime : Runtime) (d : Decision) {t : Status}
    → pending ≡ t
    → Moves t (Operations.decided_status runtime d)
decision_move runtime allow e = from_status (sym e) approve
decision_move runtime deny e = from_status (sym e) deny_move

revoke_move : (t : Status) → not (is_pending t) && not (is_approved t) ≡ false → Moves t revoked
revoke_move pending h = withdraw
revoke_move approved h = revoke
revoke_move denied h = absurd (ground (arith, h))
revoke_move revoked h = absurd (ground (arith, h))
revoke_move consumed h = absurd (ground (arith, h))
revoke_move expired h = absurd (ground (arith, h))

expired≢approved : expired ≢ approved
expired≢approved h = cc

moved-Advance :
    (runtime : Runtime) (status : Status) (a : ApprovalRecord)
    → Moves a.status status
    → Advance a (moved runtime status a)
moved-Advance runtime status a m = record { version = refl; move = m; subject = refl }

module _ (runtime : Runtime) (now : Moment) where
  -- What `get` hands on: the stored row of the reference, and an APPROVED one has not expired.
  pub record Current (ref : String) (a : ApprovalRecord) (s : Owner) : Type 0 where
    pub stored : Stored a s
    pub same_ref : a.approval_ref ≡ ref
    pub fresh : a.status ≡ approved → has_expired runtime now.time a ≡ false

  expire_if_due-Runs :
      (a : ApprovalRecord) (s : Owner)
      → Stored a s
      → Runs (Current a.approval_ref) s (expire_if_due runtime now a s)
  expire_if_due-Runs a s h =
      Runs-if (Current a.approval_ref) s (is_approved a.status && has_expired runtime now.time a)
        (save (moved runtime expired a)) (pure a)
        (λ e.
          Runs-mono (λ c t. (c ≡ moved runtime expired a) × Stored c t) (Current a.approval_ref) s
            (save (moved runtime expired a) s)
            (save-Runs a (moved runtime expired a) s h (
              moved-Advance runtime expired a
                (from_status (is_approved-status a.status (ground (arith, e))) expire)))
            (λ c t (q, k).
              subst (λ x. Current a.approval_ref x t) (sym q)
                (record {
                  stored = subst (λ x. Stored x t) q k;
                  same_ref = refl;
                  fresh = λ w. absurd (expired≢approved w);
                })))
        (λ e.
          Runs-pure (Current a.approval_ref) a s
            (record { stored = h; same_ref = refl; fresh = λ q. ground (arith, e, q) }))

  pub get-Runs : (ref : String) (s : Owner) → Runs (Current ref) s (get_approval runtime now ref s)
  unfolding get_approval
  get-Runs ref s =
      Runs-found (Current ref) s (find_approval ref s) approval_not_found
        (expire_if_due runtime now)
        (λ a e.
          let q : a.approval_ref ≡ ref = get_row-key approval_key ref s.approvals a e in
          subst (λ r. Runs (Current r) s (expire_if_due runtime now a s)) q
            (expire_if_due-Runs a s (subst (λ r. find_approval r s ≡ some a) (sym q) e)))

  decided-Advance :
      (input : DecideInput) (a : ApprovalRecord)
      → a.status ≡ pending
      → Advance a (decided runtime now input a)
  decided-Advance input a e = record {
    version = refl;
    move = decision_move runtime input.decision (sym e);
    subject = refl;
  }

  revoked-Advance :
      (input : RevokeInput) (a : ApprovalRecord)
      → not (is_pending a.status) && not (is_approved a.status) ≡ false
      → Advance a (revoked_record runtime now input a)
  revoked-Advance input a e = record {
    version = refl;
    move = revoke_move a.status e;
    subject = refl;
  }

  consumed-Advance :
      (a : ApprovalRecord)
      → a.status ≡ approved
      → Advance a (record (moved runtime consumed a) { consumed_at = some now.stamp })
  consumed-Advance a e = record {
    version = refl;
    move = from_status e consume_move;
    subject = refl;
  }

  -- What a call that writes hands on.
  abbrev pub Written : ApprovalRecord → Owner → Type 0
  Written a s = Stored a s

  save-Written :
      (a b : ApprovalRecord) (s : Owner) → Stored a s → Advance a b → Runs Written s (save b s)
  save-Written a b s h adv =
      Runs-mono (λ c t. (c ≡ b) × Stored c t) Written s (save b s) (save-Runs a b s h adv)
        (λ c t k. k.1)

  decide_current-Runs :
      (input : DecideInput) (a : ApprovalRecord) (s : Owner)
      → Stored a s
      → Runs Written s (decide_current runtime now input a s)
  unfolding decide_current
  decide_current-Runs input a s h =
      Runs-if Written s (not (nat_eq a.version input.expected_version))
        (throw approval_version_conflict) _ (λ _. Runs-throw Written approval_version_conflict s)
        (λ _.
          Runs-if Written s (not (is_pending a.status)) (throw approval_state_invalid)
            (save (decided runtime now input a)) (λ _. Runs-throw Written approval_state_invalid s)
            (λ e.
              save-Written a (decided runtime now input a) s h
                (decided-Advance input a (is_pending-status a.status (ground (arith, e))))))

  pub decide_approval-Runs :
      (input : DecideInput) (s : Owner) → Runs Written s (decide_approval runtime now input s)
  unfolding decide_approval
  decide_approval-Runs input s =
      Runs-bind (Current input.approval_ref) Written (decide_current runtime now input)
        (get_approval runtime now input.approval_ref) s (get-Runs input.approval_ref s)
        (λ a t c. decide_current-Runs input a t c.stored)

  revoke_current-Runs :
      (input : RevokeInput) (a : ApprovalRecord) (s : Owner)
      → Stored a s
      → Runs Written s (revoke_current runtime now input a s)
  unfolding revoke_current
  revoke_current-Runs input a s h =
      Runs-if Written s (not (nat_eq a.version input.expected_version))
        (throw approval_version_conflict) _ (λ _. Runs-throw Written approval_version_conflict s)
        (λ _.
          Runs-if Written s (not (is_pending a.status) && not (is_approved a.status))
            (throw approval_state_invalid) (save (revoked_record runtime now input a))
            (λ _. Runs-throw Written approval_state_invalid s)
            (λ e.
              save-Written a (revoked_record runtime now input a) s h (revoked-Advance input a e)))

  pub revoke_approval-Runs :
      (input : RevokeInput) (s : Owner) → Runs Written s (revoke_approval runtime now input s)
  unfolding revoke_approval
  revoke_approval-Runs input s =
      Runs-bind (Current input.approval_ref) Written (revoke_current runtime now input)
        (get_approval runtime now input.approval_ref) s (get-Runs input.approval_ref s)
        (λ a t c. revoke_current-Runs input a t c.stored)

  -- What `consume` leaves: the record is CONSUMED, and it was APPROVED and in time.
  pub record IsConsumed (ref : String) (a : ApprovalRecord) (s : Owner) : Type 0 where
    pub stored : find_approval ref s ≡ some a
    pub consumed : a.status ≡ consumed
    pub in_time : has_expired runtime now.time a ≡ false

  consume_current-Runs :
      (ref : String) (a : ApprovalRecord) (s : Owner)
      → Current ref a s
      → Runs (IsConsumed ref) s (consume_current runtime now a s)
  unfolding consume_current
  consume_current-Runs ref a s c =
      let b = record (moved runtime consumed a) { consumed_at = some now.stamp } in
      Runs-if (IsConsumed ref) s (not (is_approved a.status)) (throw approval_state_invalid)
        (save b) (λ _. Runs-throw (IsConsumed ref) approval_state_invalid s)
        (λ e.
          let yes_approved : a.status ≡ approved =
            is_approved-status a.status (ground (arith, e)) in
          Runs-mono (λ d t. (d ≡ b) × Stored d t) (IsConsumed ref) s (save b s)
            (save-Runs a b s c.stored (consumed-Advance a yes_approved))
            (λ d t (q, k).
              subst (λ x. IsConsumed ref x t) (sym q)
                (record {
                  stored =
                      subst (λ r. find_approval r t ≡ some b) c.same_ref
                        (subst (λ x. Stored x t) q k);
                  consumed = refl;
                  in_time = c.fresh yes_approved;
                })))

  pub consume-Runs :
      (ref : String) (s : Owner) → Runs (IsConsumed ref) s (Operations.consume runtime now ref s)
  unfolding Operations.consume
  consume-Runs ref s =
      Runs-bind (Current ref) (IsConsumed ref) (consume_current runtime now)
        (get_approval runtime now ref) s (get-Runs ref s) (consume_current-Runs ref)
