-- ===== src/Execution/Runtime/History.antt =====
-- packages/execution-runtime/src/index.ts over any sequence of calls.
use proflow.Base.{
  String, ◌≡◌, ◌≢◌, refl, sym, subst, true, false, List, [], ◌∷◌, Option, some, arith, text_key,
}
use proflow.Execution.Approvals.{Moment, ExecuteRequest}
use proflow.Execution.Approvals.History as Approvals
use proflow.Execution.Runtime.{
  Request, ExecutionRecord, Row, Stored, Tables, Result, ok, err, failure, idempotency_conflict,
  find_row, succeeded,
}
use proflow.Execution.Runtime.Artifacts.{
  register_artifact, assert_patch_scope, get_artifact_storage,
}
use proflow.Execution.Runtime.Admission.{owner_of}
use proflow.Execution.Runtime.Intents.{
  Env, find_intent, find_or_create, is_compatible, is_resumable, resume_execution, open_execution,
}
use proflow.Execution.Runtime.Effects.{Reconciliation}
use proflow.Execution.Runtime.Signals.{acknowledge_signal}
use proflow.Execution.Runtime.Execute.{
  CancelInput, World, cancel_execution, execute_capability, recover_incomplete,
}
use proflow.Execution.Runtime.Life.{
  Phase, done, phase_of, Step, ask, refuse, begin, fail, complete, affect, affect_again, confirm,
  deny, lose, still_lost, find_done, find_refused, retry, Trail, here, next, Sound, Evolves,
  Evolves-same, Evolves-trans, Sound-same,
}
use proflow.Execution.Runtime.Runs.{Runs}
use proflow.Execution.Runtime.Leaves.{register_artifact-Leaves}
use proflow.Execution.Runtime.Calls.{execute_capability-Runs, cancel_execution-Runs}
use proflow.Execution.Runtime.Recovery.{recover_incomplete-Runs}

-- The calls that write: those of the runtime, and those that it passes on to the owner of approvals.
pub data Call : Type 0 where
  execute : World → Request → Call
  cancel : Moment → CancelInput → Call
  recover : Moment → (Row → Option (Result Reconciliation)) → Call
  register : Stored → Call
  acknowledge : Moment → String → Call
  approve : Moment → Approvals.Call → Call

module _ (env : Env) where
  -- What a call leaves in the tables, whether it returns or throws.
  unfoldable pub serve_one : Call → Tables → Tables
  serve_one (execute world request) s = (execute_capability env world request s).1
  serve_one (cancel now input) s = (cancel_execution now input s).1
  serve_one (recover now verify) s = (recover_incomplete env now verify s).1
  serve_one (register a) s = (register_artifact env.texts a s).1
  serve_one (acknowledge now ref) s = (acknowledge_signal now ref s).1
  serve_one (approve now call) s = record s {
    approvals = (Approvals.perform env.approvals now call (owner_of s)).approvals;
  }

  unfoldable pub serve : List Call → Tables → Tables
  serve [] s = s
  serve (call ∷ calls) s = serve calls (serve_one call s)

  -- The executions evolve, and stay sound.
  pub record Keeps (s t : Tables) : Type 0 where
    pub evolves : Evolves s t
    pub sound : Sound t

  Keeps-Runs :
      {A : Type 0} {Q : A → Tables → Type 0} {E : Tables → Type 0} (s : Tables)
      (r : Result A × Tables)
      → Runs Q E s r
      → Keeps s r.1
  Keeps-Runs s r h = record { evolves = h.evolves; sound = h.sound }

  Keeps-same : (s t : Tables) → Sound s → t.executions ≡ s.executions → Keeps s t
  Keeps-same s t h e = record { evolves = Evolves-same s t e; sound = Sound-same s t e h }

  acknowledge-same :
      (now : Moment) (ref : String) (s : Tables)
      → (acknowledge_signal now ref s).1.executions ≡ s.executions
  unfolding acknowledge_signal
  acknowledge-same now ref s = ground (arith)

  serve_one-Keeps : (call : Call) (s : Tables) → Sound s → Keeps s (serve_one call s)
  unfolding serve_one
  serve_one-Keeps (execute world request) s h =
      Keeps-Runs s (execute_capability env world request s)
        (execute_capability-Runs env world request s h)
  serve_one-Keeps (cancel now input) s h =
      Keeps-Runs s (cancel_execution now input s) (cancel_execution-Runs now input s h)
  serve_one-Keeps (recover now verify) s h =
      Keeps-Runs s (recover_incomplete env now verify s)
        (recover_incomplete-Runs env now verify s h)
  serve_one-Keeps (register a) s h =
      Keeps-same s (register_artifact env.texts a s).1 h (register_artifact-Leaves env.texts a s)
  serve_one-Keeps (acknowledge now ref) s h =
      Keeps-same s (acknowledge_signal now ref s).1 h (acknowledge-same now ref s)
  serve_one-Keeps (approve now call) s h = Keeps-same s _ h refl

  pub serve-Keeps : (calls : List Call) (s : Tables) → Sound s → Keeps s (serve calls s)
  unfolding serve
  serve-Keeps [] s h = Keeps-same s s h refl
  serve-Keeps (call ∷ calls) s h =
      let one = serve_one-Keeps call s h in
      let rest = serve-Keeps calls (serve_one call s) one.sound in
      record { evolves = Evolves-trans one.evolves rest.evolves; sound = rest.sound }

  pub serve-Trail :
      (calls : List Call) (s : Tables) (ref : String) (row : Row)
      → Sound s
      → find_row ref s ≡ some row
      → (after : Row) × (find_row ref (serve calls s) ≡ some after)
        × Trail row.execution after.execution
  serve-Trail calls s ref row h e = (serve-Keeps calls s h).evolves.rows ref row e

  -- Over any sequence of calls from sound tables, the tables are sound: references are unique, the
  -- columns of a row are the fields of its record, and each record meets the schema's conditions on its
  -- status.
  pub serve-Sound : (calls : List Call) (s : Tables) → Sound s → Sound (serve calls s)
  serve-Sound calls s h = (serve-Keeps calls s h).sound

  no_step : {p q : Phase} → Step p q → p ≢ done
  no_step ask e = cc
  no_step refuse e = cc
  no_step begin e = cc
  no_step fail e = cc
  no_step complete e = cc
  no_step affect e = cc
  no_step affect_again e = cc
  no_step confirm e = cc
  no_step deny e = cc
  no_step lose e = cc
  no_step still_lost e = cc
  no_step find_done e = cc
  no_step find_refused e = cc
  no_step retry e = cc

  Trail-done : {a b : ExecutionRecord} → Trail a b → phase_of a ≡ done → a ≡ b
  Trail-done here h = refl
  Trail-done (next {b = b} t adv) h =
      let same = Trail-done t h in absurd (no_step adv.step (subst (λ x. phase_of x ≡ done) same h))

  done-phase : (r : ExecutionRecord) → r.status ≡ succeeded → phase_of r ≡ done
  done-phase r e = rw e refl

  pub Trail-succeeded : {a b : ExecutionRecord} → Trail a b → a.status ≡ succeeded → b ≡ a
  Trail-succeeded {a} t e = sym (Trail-done t (done-phase a e))

  -- A record that has SUCCEEDED stays as it is over any sequence of calls.
  pub serve-succeeded :
      (calls : List Call) (s : Tables) (ref : String) (row : Row)
      → Sound s
      → find_row ref s ≡ some row
      → row.execution.status ≡ succeeded
      → (after : Row) × (find_row ref (serve calls s) ≡ some after)
        × (after.execution ≡ row.execution)
  serve-succeeded calls s ref row h e d =
      let (after, found, trail) = serve-Trail calls s ref row h e in
      (after, found, Trail-succeeded trail d)

  assert_patch_scope-same :
      (request : ExecuteRequest) (s : Tables) → (assert_patch_scope request s).1 ≡ s
  unfolding assert_patch_scope get_artifact_storage
  assert_patch_scope-same request s = ground (arith)

  -- A request whose execution cannot be resumed gets its record, and nothing is written.
  pub execute-settled :
      (world : World) (request : Request) (row : Row) (s : Tables)
      → world.closed ≡ false
      → (assert_patch_scope request.scope s).0 ≡ ok tt
      → find_intent request s ≡ some row
      → is_compatible env row request ≡ true
      → is_resumable row.execution.status row.execution.side_effect_state ≡ false
      → execute_capability env world request s ≡ (ok row.execution, s)
  unfolding execute_capability open_execution find_or_create resume_execution
  execute-settled world request row s open_one scope e c r =
      ground (arith, open_one, scope, assert_patch_scope-same request.scope s, e, c, r)

  -- An open intent with a row that is not compatible.
  pub execute-incompatible :
      (world : World) (request : Request) (row : Row) (s : Tables)
      → world.closed ≡ false
      → (assert_patch_scope request.scope s).0 ≡ ok tt
      → find_intent request s ≡ some row
      → is_compatible env row request ≡ false
      → execute_capability env world request s ≡ (err (failure idempotency_conflict), s)
  unfolding execute_capability open_execution find_or_create resume_execution
  execute-incompatible world request row s open_one scope e c =
      ground (arith, open_one, scope, assert_patch_scope-same request.scope s, e, c)
