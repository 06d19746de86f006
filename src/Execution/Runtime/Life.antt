-- ===== src/Execution/Runtime/Life.antt =====
-- packages/execution-runtime/src/index.ts: the life of an execution, and what one write of its record
-- may do.
use proflow.Base.{
  String, ℕ, ◌≡◌, refl, sym, ap, ◌∙◌, subst, true, List, [], ◌∷◌, Option, some, arith, Bool-cases,
  inl, inr, text_key, text_dec, ◌==◌, get_row, put_row, get_row-put_row, All, find, none≢some,
  IsUnique, IsUnique-put_row, get_row-All,
}
use proflow.Execution.Runtime.Intents.{is_intent, find_intent}
use proflow.Execution.Runtime.{
  Request, Status, pending, running, succeeded, failed, unknown, SideEffectState, not_started,
  started, not_applied, ExecutionRecord, Row, Tables, is_legal, row_key, find_row,
}

pub data Phase : Type 0 where
  waiting working affecting done refused lost corrupt : Phase

abbrev pub phase : Status → SideEffectState → Phase
phase pending not_started = waiting
phase running not_started = working
phase running started = affecting
phase succeeded _ = done
phase failed not_applied = refused
phase unknown SideEffectState.unknown = lost
phase _ _ = corrupt

abbrev pub phase_of : ExecutionRecord → Phase
phase_of r = phase r.status r.side_effect_state

-- The steps of an execution. None leaves `done`, and `lost` is left by a verification alone.
pub data Step : Phase → Phase → Type 0 where
  ask : Step waiting waiting
  refuse : Step waiting refused
  begin : Step waiting working
  fail : Step working refused
  complete : Step working done
  affect : Step working affecting
  affect_again : Step affecting affecting
  confirm : Step affecting done
  deny : Step affecting refused
  lose : Step affecting lost
  still_lost : Step lost lost
  find_done : Step lost done
  find_refused : Step lost refused
  retry : Step refused waiting

-- What identifies an execution.
pub record Subject : Type 0 where
  pub execution_ref : String
  pub capability : String
  pub caller_ref : String
  pub correlation_id : Option String
  pub task_id : Option String
  pub node_id : Option String
  pub run_no : Option ℕ
  pub role_ref : Option String
  pub worker_ref : Option String
  pub idempotency_key : String
  pub input_fingerprint : String
  pub created_at : String

abbrev pub subject_of : ExecutionRecord → Subject
subject_of r = record {
  execution_ref = r.execution_ref;
  capability = r.capability;
  caller_ref = r.caller_ref;
  correlation_id = r.correlation_id;
  task_id = r.task_id;
  node_id = r.node_id;
  run_no = r.run_no;
  role_ref = r.role_ref;
  worker_ref = r.worker_ref;
  idempotency_key = r.idempotency_key;
  input_fingerprint = r.input_fingerprint;
  created_at = r.created_at;
}

pub record Advance (a b : ExecutionRecord) : Type 0 where
  pub step : Step (phase_of a) (phase_of b)
  pub subject : subject_of b ≡ subject_of a

pub data Trail (a : ExecutionRecord) : ExecutionRecord → Type 0 where
  here : Trail a a
  next : {b c : ExecutionRecord} → Trail a b → Advance b c → Trail a c

pub Trail-trans : {a b c : ExecutionRecord} → Trail a b → Trail b c → Trail a c
Trail-trans t here = t
Trail-trans t (next u v) = next (Trail-trans t u) v

pub Advance-ref : {a b : ExecutionRecord} → Advance a b → b.execution_ref ≡ a.execution_ref
Advance-ref adv = ap (λ (t : Subject). t.execution_ref) adv.subject

pub Trail-subject : {a b : ExecutionRecord} → Trail a b → subject_of b ≡ subject_of a
Trail-subject here = refl
Trail-subject (next t adv) = adv.subject ∙ Trail-subject t

-- The columns of a row are the fields of its record, which the schema admits.
pub record IsSound (row : Row) : Type 0 where
  pub execution_ref : row.execution.execution_ref ≡ row.execution_ref
  pub caller_ref : row.execution.caller_ref ≡ row.caller_ref
  pub capability : row.execution.capability ≡ row.capability
  pub idempotency_key : row.execution.idempotency_key ≡ row.idempotency_key
  pub input_fingerprint : row.execution.input_fingerprint ≡ row.input_fingerprint
  pub legal : is_legal row.execution ≡ true

pub record Sound (s : Tables) : Type 0 where
  pub unique : IsUnique row_key s.executions
  pub rows : All IsSound s.executions

pub found-IsSound :
    (ref : String) (s : Tables) (row : Row) → Sound s → find_row ref s ≡ some row → IsSound row
found-IsSound ref s row h e = get_row-All row_key IsSound ref s.executions row h.rows e

-- No execution is lost, under its reference or under its intent.
pub record Evolves (s t : Tables) : Type 0 where
  pub rows :
      (ref : String) (row : Row)
      → find_row ref s ≡ some row
      → (after : Row) × (find_row ref t ≡ some after) × Trail row.execution after.execution
  pub intents :
      (request : Request) (row : Row)
      → find_intent request s ≡ some row
      → (after : Row) × (find_intent request t ≡ some after) × Trail row.execution after.execution

pub Evolves-same : (s t : Tables) → t.executions ≡ s.executions → Evolves s t
unfolding find_intent
Evolves-same s t h = record {
  rows = λ ref row e. (row, ap (get_row row_key ref) h ∙ e, here);
  intents = λ request row e. (row, ap (find (is_intent request)) h ∙ e, here);
}

pub Evolves-trans : {s t u : Tables} → Evolves s t → Evolves t u → Evolves s u
Evolves-trans h k = record {
  rows = λ ref row e.
      let (b, f, t) = h.rows ref row e in let (c, g, u) = k.rows ref b f in (c, g, Trail-trans t u);
  intents = λ request row e.
      let (b, f, t) = h.intents request row e in
      let (c, g, u) = k.intents request b f in (c, g, Trail-trans t u);
}

pub Sound-same : (s t : Tables) → t.executions ≡ s.executions → Sound s → Sound t
Sound-same s t h k = record {
  unique = subst (IsUnique row_key) (sym h) k.unique;
  rows = subst (All IsSound) (sym h) k.rows;
}

-- The row of the record's reference has the record.
pub record Holds (r : ExecutionRecord) (s : Tables) : Type 0 where
  pub row : Row
  pub found : find_row r.execution_ref s ≡ some row
  pub same : row.execution ≡ r

pub Holds-same :
    (r : ExecutionRecord) (s t : Tables) → t.executions ≡ s.executions → Holds r s → Holds r t
Holds-same r s t h k = record {
  row = k.row;
  found = ap (get_row row_key r.execution_ref) h ∙ k.found;
  same = k.same;
}

pub some-eq : {a b : Row} → ◌≡◌ {A = Option Row} (some a) (some b) → a ≡ b
some-eq h = cc

All-put_row :
    (v : Row) (xs : List Row) → IsSound v → All IsSound xs → All IsSound (put_row row_key v xs)
unfolding put_row
All-put_row v [] p h = tt
All-put_row v (x ∷ xs) p h = elim (Bool-cases (x.execution_ref == v.execution_ref)) [
  | inl q ↦ rw q (p, h.1)
  | inr q ↦ rw q (h.0, All-put_row v xs p h.1)
]

-- The columns that `find_intent` reads.
pub record SameIntent (old new : Row) : Type 0 where
  pub execution_ref : new.execution_ref ≡ old.execution_ref
  pub caller_ref : new.caller_ref ≡ old.caller_ref
  pub capability : new.capability ≡ old.capability
  pub idempotency_key : new.idempotency_key ≡ old.idempotency_key

same-is_intent :
    (request : Request) (old new : Row)
    → SameIntent old new
    → is_intent request new ≡ is_intent request old
same-is_intent request old new h = rw (h.caller_ref, h.capability, h.idempotency_key) refl

Trail-one : {a b : ExecutionRecord} → Advance a b → Trail a b
Trail-one adv = next here adv

module _ (request : Request) (old new : Row) (same : SameIntent old new)
    (adv : Advance old.execution new.execution) where
  find-put_row :
      (rows : List Row) (row : Row)
      → get_row row_key old.execution_ref rows ≡ some old
      → find (is_intent request) rows ≡ some row
      → (after : Row) × (find (is_intent request) (put_row row_key new rows) ≡ some after)
        × Trail row.execution after.execution
  unfolding put_row get_row
  find-put_row [] row g e = absurd (none≢some e)
  find-put_row (x ∷ rows) row g e = elim (Bool-cases (x.execution_ref == new.execution_ref)) [
    | inl q ↦
        let here_old : x ≡ old = some-eq (ground (arith, q, g, same.execution_ref)) in
        elim (Bool-cases (is_intent request x)) [
          | inl i ↦
              let row_old : row ≡ old = some-eq (ground (arith, e, i)) ∙ here_old in
              (
                new,
                rw q (ground (arith, i, here_old, same-is_intent request old new same)),
                subst (λ (z : Row). Trail z.execution new.execution) (sym row_old) (Trail-one adv),
              )
          | inr i ↦ (
            row,
            rw q (ground (arith, e, i, here_old, same-is_intent request old new same)),
            here,
          )
        ]
    | inr q ↦ elim (Bool-cases (is_intent request x)) [
      | inl i ↦ (row, rw q (ground (arith, e, i)), here)
      | inr i ↦
          let (after, f, t) =
            find-put_row rows row (ground (arith, g, q, same.execution_ref))
              (ground (arith, e, i)) in
          (after, rw q (ground (arith, f, i)), t)
    ]
  ]

-- A write of a row in the place of the one with its reference.
module _ (old new : Row) (s : Tables) where
  abbrev pub put : Tables
  put = record s { executions = put_row row_key new s.executions }

  pub put-Evolves :
      find_row old.execution_ref s ≡ some old
      → SameIntent old new
      → Advance old.execution new.execution
      → Evolves s put
  unfolding find_intent
  put-Evolves h q adv = record {
    rows = λ ref row e. elim (text_dec new.execution_ref ref) [
      | yes p ↦ (
        new,
        get_row-put_row row_key ref new s.executions ∙ ground (arith, p, e),
        subst (λ (x : Row). Trail x.execution new.execution)
            (some-eq (sym h ∙ ap (λ r. find_row r s) (sym q.execution_ref ∙ p) ∙ e))
            (next here adv),
      )
      | no p ↦ (row, get_row-put_row row_key ref new s.executions ∙ ground (arith, p, e), here)
    ];
    intents = λ request row e. find-put_row request old new q adv s.executions row h e;
  }

  pub put-Sound : Sound s → IsSound new → Sound put
  put-Sound h k = record {
    unique = IsUnique-put_row row_key new s.executions h.unique;
    rows = All-put_row new s.executions k h.rows;
  }

  pub put-found :
      find_row old.execution_ref s ≡ some old
      → new.execution_ref ≡ old.execution_ref
      → find_row new.execution_ref put ≡ some new
  put-found h q =
      get_row-put_row row_key new.execution_ref new s.executions ∙ ground (arith, rw (← q) at h)
