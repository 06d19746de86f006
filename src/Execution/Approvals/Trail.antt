-- ===== src/Execution/Approvals/Trail.antt =====
-- packages/execution-runtime/src/approval-owner.ts: how a record may change, one write at a time, and
-- what a call does to the table.
use proflow.Base.{
  String, ◌+◌, ◌≡◌, refl, sym, ap, ◌∙◌, subst, List, [], ◌∷◌, ◌++◌, Option, none, some, arith,
  text_dec, text_key, get_row, put_row, get_row-put_row, get_row-append,
}
use proflow.Execution.Approvals.{
  Status, pending, approved, denied, revoked, consumed, expired, ApprovalRecord, Owner,
  approval_key, find_approval, Code, Result, ok, err, Act, ◌>>=◌, save,
}

pub data Moves : Status → Status → Type 0 where
  approve : Moves pending approved
  deny : Moves pending denied
  withdraw : Moves pending revoked
  revoke : Moves approved revoked
  consume : Moves approved consumed
  expire : Moves approved expired

-- What a record was requested for, which no write changes.
pub record Subject : Type 0 where
  pub approval_ref : String
  pub execution_ref : String
  pub caller_ref : String
  pub task_id : Option String
  pub capability : String
  pub input_fingerprint : String
  pub effect_fingerprint : String
  pub scope_fingerprint : String
  pub precondition_fingerprint : Option String
  pub expires_at : String

abbrev pub subject_of : ApprovalRecord → Subject
subject_of a = record {
  approval_ref = a.approval_ref;
  execution_ref = a.execution_ref;
  caller_ref = a.caller_ref;
  task_id = a.task_id;
  capability = a.capability;
  input_fingerprint = a.input_fingerprint;
  effect_fingerprint = a.effect_fingerprint;
  scope_fingerprint = a.scope_fingerprint;
  precondition_fingerprint = a.precondition_fingerprint;
  expires_at = a.expires_at;
}

-- One write: the next version, a move of the table, and the same subject.
pub record Advance (a b : ApprovalRecord) : Type 0 where
  pub version : b.version ≡ a.version + 1
  pub move : Moves a.status b.status
  pub subject : subject_of b ≡ subject_of a

Advance-ref : {a b : ApprovalRecord} → Advance a b → b.approval_ref ≡ a.approval_ref
Advance-ref adv = ap (λ (t : Subject). t.approval_ref) adv.subject

pub data Trail (a : ApprovalRecord) : ApprovalRecord → Type 0 where
  here : Trail a a
  next : {b c : ApprovalRecord} → Trail a b → Advance b c → Trail a c

pub Trail-trans : {a b c : ApprovalRecord} → Trail a b → Trail b c → Trail a c
Trail-trans t here = t
Trail-trans t (next u v) = next (Trail-trans t u) v

-- No row is lost, and what becomes of it is a trail; the other tables stay as they are.
pub record Evolves (s s' : Owner) : Type 0 where
  pub rows :
      (ref : String) (a : ApprovalRecord)
      → find_approval ref s ≡ some a
      → (b : ApprovalRecord) × (find_approval ref s' ≡ some b) × Trail a b
  pub executions : s'.executions ≡ s.executions
  pub artifacts : s'.artifacts ≡ s.artifacts

pub Evolves-refl : (s : Owner) → Evolves s s
Evolves-refl s = record { rows = λ ref a h. (a, h, here); executions = refl; artifacts = refl }

pub Evolves-trans : {s t u : Owner} → Evolves s t → Evolves t u → Evolves s u
Evolves-trans h k = record {
  rows = λ ref a e.
      let (b, f, t) = h.rows ref a e in let (c, g, u) = k.rows ref b f in (c, g, Trail-trans t u);
  executions = k.executions ∙ h.executions;
  artifacts = k.artifacts ∙ h.artifacts;
}

module _ {A : Type 0} where
  abbrev pub OkThen : (A → Owner → Type 0) → Result A → Owner → Type 0
  OkThen Q (ok a) s = Q a s
  OkThen Q (err e) s = Unit

  -- A call on `s` evolves the tables, and where it returns, `Q` holds.
  pub record Runs (Q : A → Owner → Type 0) (s : Owner) (r : Result A × Owner) : Type 0 where
    pub evolves : Evolves s r.1
    pub returned : OkThen Q r.0 r.1

module _ {A B : Type 0} (Q : A → Owner → Type 0) (R : B → Owner → Type 0) (f : A → Act B) where
  Runs-step :
      (s s' : Owner) (r : Result A)
      → Evolves s s'
      → OkThen Q r s'
      → ((a : A) (t : Owner) → Q a t → Runs R t (f a t))
      → Runs R s (elim r [ ok a ↦ f a s' | err e ↦ (err e, s') ])
  Runs-step s s' (ok a) h q k =
      let after = k a s' q in
      record { evolves = Evolves-trans h after.evolves; returned = after.returned }
  Runs-step s s' (err e) h q k = record { evolves = h; returned = tt }

  pub Runs-bind :
      (m : Act A) (s : Owner)
      → Runs Q s (m s)
      → ((a : A) (t : Owner) → Q a t → Runs R t (f a t))
      → Runs R s ((m >>= f) s)
  Runs-bind m s h k = Runs-step s (m s).1 (m s).0 h.evolves h.returned k

-- The row that a call hands on is the one in the table.
abbrev pub Stored : ApprovalRecord → Owner → Type 0
Stored a s = find_approval a.approval_ref s ≡ some a

some-eq : {a b : ApprovalRecord} → ◌≡◌ {A = Option ApprovalRecord} (some a) (some b) → a ≡ b
some-eq h = cc

save-rows :
    (a b : ApprovalRecord) (s : Owner)
    → Stored a s
    → Advance a b
    → (ref : String) (c : ApprovalRecord) → find_approval ref s ≡ some c
    → (d : ApprovalRecord) × (get_row approval_key ref (put_row approval_key b s.approvals)
        ≡ some d)
      × Trail c d
save-rows a b s h adv ref c e = elim (text_dec b.approval_ref ref) [
  | yes q ↦ (
    b,
    get_row-put_row approval_key ref b s.approvals ∙ ground (arith, q, e),
    subst (λ x. Trail x b)
        (some-eq (sym h ∙ ap (λ r. find_approval r s) (sym (Advance-ref adv) ∙ q) ∙ e))
        (next here adv),
  )
  | no q ↦ (c, get_row-put_row approval_key ref b s.approvals ∙ ground (arith, q, e), here)
]

row_of_next :
    (a b : ApprovalRecord) (s : Owner)
    → Stored a s
    → Advance a b
    → find_approval b.approval_ref s ≡ some a
row_of_next a b s h adv = ap (λ r. find_approval r s) (Advance-ref adv) ∙ h

pub save-Runs :
    (a b : ApprovalRecord) (s : Owner)
    → Stored a s
    → Advance a b
    → Runs (λ c t. (c ≡ b) × Stored c t) s (save b s)
save-Runs a b s h adv = record {
  evolves = record { rows = save-rows a b s h adv; executions = refl; artifacts = refl };
  returned = (
    refl,
    get_row-put_row approval_key b.approval_ref b s.approvals
        ∙ ground (arith, row_of_next a b s h adv),
  );
}

append-rows :
    (a : ApprovalRecord) (rows : List ApprovalRecord) (ref : String) (c : ApprovalRecord)
    → get_row approval_key ref rows ≡ some c
    → get_row approval_key ref (rows ++ a ∷ []) ≡ some c
append-rows a rows ref c e = get_row-append approval_key ref a rows ∙ ground (arith, e)

pub append-Runs :
    (a : ApprovalRecord) (s : Owner)
    → find_approval a.approval_ref s ≡ none
    → Runs (λ c t. (c ≡ a) × Stored c t) s (ok a, record s { approvals = s.approvals ++ a ∷ [] })
append-Runs a s h = record {
  evolves = record {
    rows = λ ref c e. (c, append-rows a s.approvals ref c e, here);
    executions = refl;
    artifacts = refl;
  };
  returned = (refl, get_row-append approval_key a.approval_ref a s.approvals ∙ ground (arith, h));
}

pub Runs-pure :
    {A : Type 0} (Q : A → Owner → Type 0) (a : A) (s : Owner) → Q a s → Runs Q s (ok a, s)
Runs-pure Q a s q = record { evolves = Evolves-refl s; returned = q }

pub Runs-throw : {A : Type 0} (Q : A → Owner → Type 0) (e : Code) (s : Owner) → Runs Q s (err e, s)
Runs-throw Q e s = record { evolves = Evolves-refl s; returned = tt }

pub Runs-mono :
    {A : Type 0} (Q R : A → Owner → Type 0) (s : Owner) (r : Result A × Owner)
    → Runs Q s r
    → ((a : A) (t : Owner) → Q a t → R a t)
    → Runs R s r
Runs-mono Q R s (ok a, t) h f = record { evolves = h.evolves; returned = f a t h.returned }
Runs-mono Q R s (err e, t) h f = record { evolves = h.evolves; returned = tt }

pub returned_of :
    {A : Type 0} (Q : A → Owner → Type 0) (s : Owner) (r : Result A × Owner) (a : A)
    → Runs Q s r
    → r.0 ≡ ok a
    → Q a r.1
returned_of Q s (x, t) a h e = subst (λ y. OkThen Q y t) e h.returned
