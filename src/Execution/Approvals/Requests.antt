-- ===== src/Execution/Approvals/Requests.antt =====
-- packages/execution-runtime/src/approval-owner.ts: `requestApproval` and `ensurePendingApproval`.
use proflow.Base.{
  String, ◌≡◌, refl, sym, subst, true, false, List, [], ◌∷◌, Option, none, some, arith,
  if◌then◌else◌, leb, ◌==◌, ==_iff, All, All-find, All-sort_by, All-kept, text_lt, find, keep, ◌++◌,
}
use proflow.Execution.Approvals.{
  pending, Capability, ExecuteRequest, patch_apply, other, ApprovalRecord, Artifact, Execution,
  artifact_not_found, artifact_kind_invalid, execution_not_found, approval_expiry_invalid, internal,
  of_effect, Runtime, Moment, Owner, find_approval, find_execution, find_artifact, ok, pure, throw,
}
use proflow.Execution.Approvals.Operations
use proflow.Execution.Approvals.Operations.{
  DecideInput, RevokeInput, ValidateInput, RequestInput, EnsureInput, Filter,
  patch_artifact_binding, approval_effect_fingerprint, effect_of, get_approval, new_approval,
  insert_approval, request_for, request_approval, ensure_for, ensure_pending_approval,
  decide_approval, revoke_approval, has_expired, is_approved, is_for, fits, validate_current,
  validate, get_all, list_approvals,
}
use proflow.Execution.Approvals.Trail.{
  Runs, Runs-bind, Runs-pure, Runs-throw, Runs-mono, append-Runs, returned_of, Stored,
}
use proflow.Execution.Approvals.Calls.{
  is_pending-status, Runs-if, Runs-choice, Runs-either, Runs-found,
}

all_Unit : {A : Type 0} (xs : List A) → All (λ _. Unit {0}) xs
all_Unit [] = tt
all_Unit (x ∷ xs) = (tt, all_Unit xs)

abbrev pub Done : {A : Type 0} → A → Owner → Type 0
Done a s = Unit

-- The tables are left as they are.
abbrev pub Still : {A : Type 0} → Owner → A → Owner → Type 0
Still s a t = t ≡ s

-- The stored patch proposal that `patch.apply` names; no artifact for another capability.
abbrev pub IsBound : Capability → Option Artifact → Owner → Type 0
IsBound (other _) artifact s = artifact ≡ none
IsBound (patch_apply ref) artifact s =
    (patch : Artifact) × (artifact ≡ some patch)
    × (find_artifact ref s ≡ some patch)
    × (patch.kind ≡ "patch-proposal")

module _ (runtime : Runtime) where
  -- The tables are left as they are, with the patch artifact that a capability binds.
  abbrev pub Binds : Capability → Owner → Option Artifact → Owner → Type 0
  Binds c s artifact t = (t ≡ s) × IsBound c artifact s

  -- The fingerprint of the effect of a request, with the patch artifact it binds.
  abbrev pub Fingerprints : ExecuteRequest → String → Owner → String → Owner → Type 0
  Fingerprints r fingerprint s effect t =
      (t ≡ s)
      × ((artifact : Option Artifact) × IsBound r.capability artifact s
          × (effect ≡ runtime.sha (of_effect (effect_of runtime r fingerprint artifact))))

  patch_artifact_binding-Runs :
      (c : Capability) (s : Owner) → Runs (Binds c s) s (patch_artifact_binding runtime c s)
  unfolding patch_artifact_binding
  patch_artifact_binding-Runs (other name) s = Runs-pure (Binds (other name) s) none s (refl, refl)
  patch_artifact_binding-Runs (patch_apply ref) s =
      Runs-found (Binds (patch_apply ref) s) s (find_artifact ref s) artifact_not_found
        (λ (artifact : Artifact).
          if artifact.kind == "patch-proposal"
          then pure (some artifact)
          else throw artifact_kind_invalid)
        (λ artifact found.
          Runs-if (Binds (patch_apply ref) s) s (artifact.kind == "patch-proposal")
            (pure (some artifact)) (throw artifact_kind_invalid)
            (λ kind.
              Runs-pure (Binds (patch_apply ref) s) (some artifact) s
                (refl, (artifact, refl, found, (==_iff artifact.kind "patch-proposal").0 kind)))
            (λ _. Runs-throw (Binds (patch_apply ref) s) artifact_kind_invalid s))

  pub approval_effect_fingerprint-Fingerprints :
      (r : ExecuteRequest) (fingerprint : String) (s : Owner)
      → Runs (Fingerprints r fingerprint s) s (approval_effect_fingerprint runtime r fingerprint s)
  unfolding approval_effect_fingerprint
  approval_effect_fingerprint-Fingerprints r fingerprint s =
      Runs-bind (Binds r.capability s) (Fingerprints r fingerprint s)
        (λ artifact. pure (runtime.sha (of_effect (effect_of runtime r fingerprint artifact))))
        (patch_artifact_binding runtime r.capability) s (patch_artifact_binding-Runs r.capability s)
        (λ artifact t (e, bound).
          Runs-pure (Fingerprints r fingerprint s)
            (runtime.sha (of_effect (effect_of runtime r fingerprint artifact))) t
            (e, (artifact, bound, refl)))

  pub approval_effect_fingerprint-Runs :
      (r : ExecuteRequest) (fingerprint : String) (s : Owner)
      → Runs (Still s) s (approval_effect_fingerprint runtime r fingerprint s)
  approval_effect_fingerprint-Runs r fingerprint s =
      Runs-mono (Fingerprints r fingerprint s) (Still s) s
        (approval_effect_fingerprint runtime r fingerprint s)
        (approval_effect_fingerprint-Fingerprints r fingerprint s) (λ effect t p. p.0)

  insert_approval-Runs :
      (a : ApprovalRecord) (s : Owner)
      → Runs (λ c t. (c ≡ a) × Stored c t) s (insert_approval runtime a s)
  unfolding insert_approval
  insert_approval-Runs a s =
      Runs-either (λ c t. (c ≡ a) × Stored c t) s (find_approval a.approval_ref s)
        (λ _. throw internal) (λ t. (ok a, record t { approvals = t.approvals ++ a ∷ [] }))
        (λ _ _. Runs-throw (λ c t. (c ≡ a) × Stored c t) internal s) (append-Runs a s)

  module _ (now : Moment) where
    -- A PENDING record for the execution and its input, which has not expired.
    pub record IsOpen (ref : String) (s : Owner) (a : ApprovalRecord) : Type 0 where
      pub execution : Execution
      pub found : find_execution ref s ≡ some execution
      pub status : a.status ≡ pending
      pub execution_ref : a.execution_ref ≡ ref
      pub input : a.input_fingerprint ≡ execution.input_fingerprint
      pub in_time : has_expired runtime now.time a ≡ false

    request_for-Runs :
        (input : RequestInput) (e : Execution) (s t : Owner)
        → find_execution input.execution_ref s ≡ some e
        → leb (runtime.parse_date input.expires_at) now.time ≡ false
        → Runs (λ a _. IsOpen input.execution_ref s a) t (request_for runtime now input e t)
    request_for-Runs input e s t h k =
        Runs-bind (Still t) (λ a _. IsOpen input.execution_ref s a)
          (λ effect. insert_approval runtime (new_approval runtime now input e effect))
          (approval_effect_fingerprint runtime e.request e.input_fingerprint) t
          (approval_effect_fingerprint-Runs e.request e.input_fingerprint t)
          (λ effect u _.
            let a = new_approval runtime now input e effect in
            Runs-mono (λ c v. (c ≡ a) × Stored c v) (λ a _. IsOpen input.execution_ref s a) u
              (insert_approval runtime a u) (insert_approval-Runs a u)
              (λ c v (q, _). subst (IsOpen input.execution_ref s) (sym q) (record {
                execution = e;
                found = h;
                status = refl;
                execution_ref = refl;
                input = refl;
                in_time = k;
              })))

    pub request_approval-Runs :
        (input : RequestInput) (s : Owner)
        → Runs (λ a _. IsOpen input.execution_ref s a) s (request_approval runtime now input s)
    unfolding request_approval
    request_approval-Runs input s =
        Runs-choice (λ a _. IsOpen input.execution_ref s a) s
          (leb (runtime.parse_date input.expires_at) now.time) (throw approval_expiry_invalid s) _
          (λ _. Runs-throw (λ a _. IsOpen input.execution_ref s a) approval_expiry_invalid s)
          (λ k.
            Runs-found (λ a _. IsOpen input.execution_ref s a) s
              (find_execution input.execution_ref s) execution_not_found
              (request_for runtime now input) (λ e h. request_for-Runs input e s s h k))

    existing_one :
        (ref : String) (e : Execution) (s : Owner) (a : ApprovalRecord)
        → find_execution ref s ≡ some e
        → find (Operations.is_open_for runtime now e) (Operations.newest_first runtime ref s)
          ≡ some a
        → IsOpen ref s a
    existing_one ref e s a h k =
        let (of_ref, is_open) =
          All-find (λ (x : ApprovalRecord). Unit {0} × ((x.execution_ref == ref) ≡ true))
            (Operations.is_open_for runtime now e) (Operations.newest_first runtime ref s) a
            (All-sort_by (λ (x : ApprovalRecord). Unit {0} × ((x.execution_ref == ref) ≡ true))
              (λ (x y : ApprovalRecord). text_lt y.requested_at x.requested_at)
              (keep (λ (x : ApprovalRecord). x.execution_ref == ref) s.approvals)
              (All-kept (λ _. Unit {0}) (λ (x : ApprovalRecord). x.execution_ref == ref) s.approvals
                (all_Unit s.approvals)))
            k in
        record {
          execution = e;
          found = h;
          status = is_pending-status a.status (ground (arith, is_open));
          execution_ref = (==_iff a.execution_ref ref).0 of_ref.1;
          input = (==_iff a.input_fingerprint e.input_fingerprint).0 (ground (arith, is_open));
          in_time = ground (arith, is_open);
        }

    pub ensure_pending_approval-Runs :
        (input : EnsureInput) (s : Owner)
        → Runs
            (λ a _. IsOpen input.execution_ref s a)
            s
            (ensure_pending_approval runtime now input s)
    unfolding ensure_pending_approval
    ensure_pending_approval-Runs input s =
        Runs-found (λ a _. IsOpen input.execution_ref s a) s (find_execution input.execution_ref s)
          execution_not_found (ensure_for runtime now input)
          (λ e h.
            Runs-either (λ a _. IsOpen input.execution_ref s a) s
              (find (Operations.is_open_for runtime now e)
                (Operations.newest_first runtime input.execution_ref s))
              pure (request_approval runtime now (Operations.ensured runtime input))
              (λ a k.
                Runs-pure (λ a _. IsOpen input.execution_ref s a) a s
                  (existing_one input.execution_ref e s a h k))
              (λ _. request_approval-Runs (Operations.ensured runtime input) s))

    -- Where `ensurePendingApproval` returns, the record is PENDING, for the execution named and its
    -- input, and has not expired; the execution is in the table.
    pub ensure-IsOpen :
        (input : EnsureInput) (s : Owner) (a : ApprovalRecord)
        → (ensure_pending_approval runtime now input s).0 ≡ ok a
        → IsOpen input.execution_ref s a
    ensure-IsOpen input s a h =
        returned_of (λ b _. IsOpen input.execution_ref s b) s
          (ensure_pending_approval runtime now input s) a (ensure_pending_approval-Runs input s) h
