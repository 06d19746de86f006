-- ===== src/Execution/Runtime/Opening.antt =====
-- packages/execution-runtime/src/index.ts: the start of a call leaves a record that is PENDING, or the
-- one that was stored.
use proflow.Base.{
  sym, String, ◌≡◌, refl, ap, ◌∙◌, Bool, true, not, List, [], ◌∷◌, ◌++◌, none, some, arith, ◌==◌,
  get_row-append, get_row-key, text_key, find, All-append, All-find, All-get_row, IsUnique-append,
}
use proflow.Execution.Approvals.{Moment}
use proflow.Execution.Runtime.{
  Status, pending, failed, ExecutionRecord, SideEffectState, not_started, not_applied, Request, Row,
  Tables, ok, pure, throw, failure, is_legal, row_key, find_row, idempotency_conflict,
}
use proflow.Execution.Runtime.Artifacts.{assert_patch_scope}
use proflow.Execution.Runtime.Intents.{
  Env, Opened, settled, opened, is_intent, find_intent, is_resumable, is_compatible,
  input_fingerprint, new_row, intent_of, insert_row, pending_record, create_execution,
  resumed_record, resumed_row, rewrite_row, resume_execution, find_or_create, open_execution,
  get_execution, check_caller, get_execution_for_caller,
}
use proflow.Execution.Runtime.Life.{
  subject_of, Trail-subject, waiting, phase, here, Step, ask, retry, Advance, IsSound, Sound,
  Evolves, Holds, found-IsSound, put, put-Evolves, put-Sound, put-found,
}
use proflow.Execution.Runtime.Tracks.{is_waiting, Tracks, Tracks-held}
use proflow.Execution.Runtime.Runs.{
  Always, Runs, Runs-same, Runs-pure, Runs-throw, Runs-if, Runs-either, Runs-bind, Runs-parse,
  with-IsSound,
}
use proflow.Execution.Runtime.Leaves.{assert_patch_scope-Leaves}

-- The row that a lookup of the request's intent finds is one of the record's execution.
pub record Bound (request : Request) (r : ExecutionRecord) (s : Tables) : Type 0 where
  pub row : Row
  pub found : find_intent request s ≡ some row
  pub subject : subject_of row.execution ≡ subject_of r

pub Bound-Evolves :
    (request : Request) (r x : ExecutionRecord) (s t : Tables)
    → Evolves s t
    → subject_of x ≡ subject_of r
    → Bound request r s
    → Bound request x t
Bound-Evolves request r x s t h same k =
    let (after, found, trail) = h.intents request k.row k.found in
    record { row = after; found = found; subject = Trail-subject trail ∙ k.subject ∙ sym same }

abbrev pub Ready : Request → Opened → Tables → Type 0
Ready request (settled r) s = Holds r s × Bound request r s
Ready request (opened intent r) s = Tracks is_waiting r s × Bound request r s

-- The record of a row that is found is held.
pub row-Holds :
    (ref : String) (s : Tables) (row : Row)
    → Sound s
    → find_row ref s ≡ some row
    → Holds row.execution s
row-Holds ref s row h e = record {
  row = row;
  found =
      ap (λ r. find_row r s)
        ((found-IsSound ref s row h e).execution_ref ∙ get_row-key row_key ref s.executions row e)
      ∙ e;
  same = refl;
}

resumable-Step :
    (st : Status) (side : SideEffectState)
    → is_resumable st side ≡ true
    → Step (phase st side) waiting
resumable-Step pending not_started h = ask
resumable-Step failed not_applied h = retry
resumable-Step pending _ h = cc
resumable-Step failed _ h = cc
resumable-Step _ _ h = cc

find-append :
    (p : Row → Bool) (rows : List Row) (new row : Row)
    → find p rows ≡ some row
    → find p (rows ++ new ∷ []) ≡ some row
find-append p [] new row e = cc
find-append p (x ∷ rows) new row e = ground (arith, e, find-append p rows new row)

find-new :
    (p : Row → Bool) (rows : List Row) (new : Row)
    → find p rows ≡ none
    → p new ≡ true
    → find p (rows ++ new ∷ []) ≡ some new
find-new p [] new e t = ground (arith, t)
find-new p (x ∷ rows) new e t = ground (arith, e, t, find-new p rows new)

module _ (new : Row) (s : Tables) where
  abbrev added : Tables
  added = record s { executions = s.executions ++ new ∷ [] }

  added-Evolves : Evolves s added
  unfolding find_intent
  added-Evolves = record {
    rows = λ ref row e.
        let same : find_row ref added ≡ some row =
          get_row-append row_key ref new s.executions ∙ ground (arith, e) in
        (row, same, here);
    intents = λ request row e. (row, find-append (is_intent request) s.executions new row e, here);
  }

  added-Sound : find_row new.execution_ref s ≡ none → Sound s → IsSound new → Sound added
  added-Sound e h k = record {
    unique = IsUnique-append row_key new s.executions e h.unique;
    rows = All-append IsSound s.executions (new ∷ []) h.rows (k, tt);
  }

  added-found : find_row new.execution_ref s ≡ none → find_row new.execution_ref added ≡ some new
  added-found e = get_row-append row_key new.execution_ref new s.executions ∙ ground (arith, e)

module _ (env : Env) where
  insert_row-Runs :
      (now : Moment) (request : Request) (s : Tables)
      → Sound s
      → find_intent request s ≡ none
      → is_legal (pending_record env now request) ≡ true
      → Runs (Ready request) Always s (insert_row env request (pending_record env now request) s)
  unfolding insert_row find_intent
  insert_row-Runs now request s h gone legal =
      let r = pending_record env now request in
      let row = new_row env request r in
      let sound : IsSound row = record {
        execution_ref = refl;
        caller_ref = refl;
        capability = refl;
        idempotency_key = refl;
        input_fingerprint = refl;
        legal = legal;
      } in
      Runs-either (Ready request) Always (find_row r.execution_ref s)
        (λ t. (
          ok (opened (intent_of env request (input_fingerprint env request) r) r),
          record t { executions = t.executions ++ new_row env request r ∷ [] },
        ))
        (λ _. throw (failure idempotency_conflict)) s
        (λ e. record {
          evolves = added-Evolves row s;
          sound = added-Sound row s e h sound;
          ended = (
            Tracks-held is_waiting r (added row s)
                (record { row = row; found = added-found row s e; same = refl }) refl,
            record {
              row = row;
              found = find-new (is_intent request) s.executions row gone (ground arith);
              subject = refl;
            },
          );
        })
        (λ _ _. Runs-throw (Ready request) Always (failure idempotency_conflict) s h tt)

  create_execution-Runs :
      (now : Moment) (request : Request) (s : Tables)
      → Sound s
      → find_intent request s ≡ none
      → Runs (Ready request) Always s (create_execution env now request s)
  unfolding create_execution
  create_execution-Runs now request s h gone =
      Runs-parse (Ready request) Always (insert_row env request) (pending_record env now request) s
        h tt (λ legal. insert_row-Runs now request s h gone legal)

  resume_execution-Runs :
      (now : Moment) (request : Request) (row : Row) (s : Tables)
      → Sound s
      → find_row row.execution_ref s ≡ some row
      → find_intent request s ≡ some row
      → Runs (Ready request) Always s (resume_execution env now request row s)
  unfolding resume_execution rewrite_row
  resume_execution-Runs now request row s h e q =
      let r = resumed_record env now row.execution in
      let new = resumed_row env request r row in
      let status = row.execution.status in
      let side = row.execution.side_effect_state in
      Runs-if (Ready request) Always (not (is_compatible env row request))
        (throw (failure idempotency_conflict)) _ s
        (λ _. Runs-throw (Ready request) Always (failure idempotency_conflict) s h tt)
        (λ _.
          Runs-if (Ready request) Always (not (is_resumable status side))
            (pure (settled row.execution)) _ s
            (λ _. Runs-pure (Ready request) Always (settled row.execution) s h (
              row-Holds row.execution_ref s row h e,
              record { row = row; found = q; subject = refl },
            ))
            (λ resumes.
              Runs-parse (Ready request) Always (rewrite_row env request row) r s h tt (λ legal.
                let adv : Advance row.execution r = record {
                  step = resumable-Step status side (ground (arith, resumes));
                  subject = refl;
                } in
                let old = found-IsSound row.execution_ref s row h e in
                let moved : Evolves s (put row new s) =
                  put-Evolves row new s e
                    (record {
                      execution_ref = refl;
                      caller_ref = refl;
                      capability = refl;
                      idempotency_key = refl;
                    })
                    adv in
                record {
                  evolves = moved;
                  sound =
                      put-Sound row new s h
                        (with-IsSound row new old adv refl refl refl refl refl legal);
                  ended = (
                    Tracks-held is_waiting r (put row new s)
                        (record {
                          row = new;
                          found =
                              ap (λ x. find_row x (put row new s)) old.execution_ref
                              ∙ put-found row new s e refl;
                          same = refl;
                        })
                        refl,
                    Bound-Evolves request row.execution r s (put row new s) moved refl
                        (record { row = row; found = q; subject = refl }),
                  );
                })))

  find_or_create-Runs :
      (now : Moment) (request : Request) (s : Tables)
      → Sound s
      → Runs (Ready request) Always s (find_or_create env now request s)
  unfolding find_or_create find_intent
  find_or_create-Runs now request s h =
      Runs-either (Ready request) Always (find_intent request s) (create_execution env now request)
        (resume_execution env now request) s (λ e. create_execution-Runs now request s h e)
        (λ row e.
          resume_execution-Runs now request row s h
            (All-find (λ x. find_row x.execution_ref s ≡ some x) (is_intent request) s.executions
              row (All-get_row row_key s.executions h.unique) e).0
            e)

  pub open_execution-Runs :
      (now : Moment) (request : Request) (s : Tables)
      → Sound s
      → Runs (Ready request) Always s (open_execution env now request s)
  unfolding open_execution
  open_execution-Runs now request s h =
      Runs-bind (λ _ _. Unit) (Ready request) Always (λ _. find_or_create env now request)
        (assert_patch_scope request.scope) s
        (Runs-same (λ _ _. Unit) Always (assert_patch_scope request.scope) s
          (assert_patch_scope-Leaves request.scope s) h (λ _ _. tt) tt)
        (λ _ t sound _. find_or_create-Runs now request t sound)

pub get_execution_for_caller-Runs :
    (ref caller : String) (s : Tables)
    → Sound s
    → Runs Holds Always s (get_execution_for_caller ref caller s)
unfolding get_execution_for_caller get_execution
get_execution_for_caller-Runs ref caller s h =
    Runs-bind Holds Holds Always (check_caller caller) (get_execution ref) s
      (Runs-either Holds Always (find_row ref s) (throw (failure _)) (λ row. pure row.execution) s
        (λ _. Runs-throw Holds Always (failure _) s h tt)
        (λ row e. Runs-pure Holds Always row.execution s h (row-Holds ref s row h e)))
      (λ r t sound holds.
        Runs-if Holds Always (not (r.caller_ref == caller)) (throw (failure _)) (pure r) t
          (λ _. Runs-throw Holds Always (failure _) t sound tt)
          (λ _. Runs-pure Holds Always r t sound holds))
