-- ===== src/Execution/Runtime/Lookup.antt =====
-- packages/execution-runtime/src/index.ts: `executeCapability`, and then `lookupExecutionIntent`.
use proflow.Base.{◌≡◌, sym, ap, ◌∙◌, subst, true, some, arith, All-find, All-get_row, text_key}
use proflow.Execution.Runtime.{
  Request, ExecutionRecord, Row, Tables, Result, ok, err, find_row, row_key, is_legal,
}
use proflow.Execution.Runtime.Intents.{
  Env, find_intent, is_intent, is_compatible, input_fingerprint, lookup_intent,
}
use proflow.Execution.Runtime.Execute.{World, execute_capability}
use proflow.Execution.Runtime.Life.{Sound, Holds, Subject, some-eq}
use proflow.Execution.Runtime.Runs.{Runs, Always}
use proflow.Execution.Runtime.Attempts.{held_legal}
use proflow.Execution.Runtime.Opening.{Bound}
use proflow.Execution.Runtime.Calls.{Answered, execute_capability-Runs}
use proflow.Execution.Runtime.Repeats.{intent-IsSound, current-is_compatible}

ok-eq : {A : Type 0} {a b : A} → ◌≡◌ {A = Result A} (ok a) (ok b) → a ≡ b
ok-eq h = cc

module _ (env : Env) (request : Request) where
  returned :
      (r : Result ExecutionRecord × Tables) (s : Tables) (x : ExecutionRecord)
      → Runs (Answered env request) Always s r
      → r.0 ≡ ok x
      → Answered env request x r.1
  returned (ok y, t) s x h e = subst (λ z. Answered env request z t) (ok-eq e) h.ended
  returned (err y, t) s x h e = cc

  intent-found :
      (s : Tables) (row : Row)
      → Sound s
      → find_intent request s ≡ some row
      → find_row row.execution_ref s ≡ some row
  unfolding find_intent
  intent-found s row h e =
      (All-find (λ x. find_row x.execution_ref s ≡ some x) (is_intent request) s.executions row
        (All-get_row row_key s.executions h.unique) e).0

  -- The row of the intent is the row of the record.
  bound-held :
      (x : ExecutionRecord) (s : Tables)
      → Sound s
      → Holds x s
      → (b : Bound request x s) → b.row.execution ≡ x
  bound-held x s h k b =
      let sound = intent-IsSound env request s b.row h b.found in
      let ref : b.row.execution_ref ≡ x.execution_ref =
        sym sound.execution_ref ∙ ap (λ (t : Subject). t.execution_ref) b.subject in
      let here : find_row x.execution_ref s ≡ some b.row =
        ap (λ r. find_row r s) (sym ref) ∙ intent-found s b.row h b.found in
      ap (λ (row : Row). row.execution) (some-eq (sym here ∙ k.found)) ∙ k.same

  lookup_intent-found :
      (s : Tables) (row : Row)
      → find_intent request s ≡ some row
      → is_compatible env row request ≡ true
      → lookup_intent env request s ≡ (ok row.execution, s)
  unfolding lookup_intent
  lookup_intent-found s row e c = ground (arith, e, c)

  -- Where `executeCapability` returns a record with the fingerprint of the request, the record meets the
  -- schema's conditions on its status, and `lookupExecutionIntent` of the request then returns it, and
  -- writes nothing. The tables are sound before.
  pub execute-lookup :
      (world : World) (s : Tables) (x : ExecutionRecord)
      → Sound s
      → (execute_capability env world request s).0 ≡ ok x
      → x.input_fingerprint ≡ input_fingerprint env request
      → (is_legal x ≡ true)
        × (lookup_intent env request (execute_capability env world request s).1
            ≡ (ok x, (execute_capability env world request s).1))
  execute-lookup world s x h e print =
      let ran = execute_capability-Runs env world request s h in
      let t = (execute_capability env world request s).1 in
      let (held, bound) = returned (execute_capability env world request s) s x ran e in
      let same : bound.row.execution ≡ x = bound-held x t ran.sound held bound in
      let sound = intent-IsSound env request t bound.row ran.sound bound.found in
      let fits = current-is_compatible env request bound.row (
        sym sound.input_fingerprint
        ∙ ap (λ (r : ExecutionRecord). r.input_fingerprint) same
        ∙ print) in
      (
        held_legal x t ran.sound held,
        lookup_intent-found t bound.row bound.found fits ∙ ap (λ r. (ok r, t)) same,
      )
