-- ===== src/Execution/Runtime/Working.antt =====
-- packages/execution-runtime/src/index.ts: a call that holds its slot moves its record by the steps of
-- its life.
use proflow.Base.{String, ◌≡◌, refl, subst, true, Option, none, some}
use proflow.Execution.Approvals.{Moment}
use proflow.Execution.Approvals.Operations.{present}
use proflow.Execution.Runtime.{ExecutionRecord, Tables, Thrown, Result, ok, err, Act, ◌>>◌, save}
use proflow.Execution.Runtime.Admission.{Admission, Intent}
use proflow.Execution.Runtime.Intents.{Env}
use proflow.Execution.Runtime.Effects.{
  Stop, check_stop, ExecutorResult, Work, start, finish, Run, Locals, started_record, consume_given,
  protected, store, approve, on_effect_started, perform_work,
}
use proflow.Execution.Runtime.Life.{phase_of, subject_of, Advance, Sound, Holds, Holds-same}
use proflow.Execution.Runtime.Tracks.{is_live, is_busy, Tracks, affect-Step, busy-is_live}
use proflow.Execution.Runtime.Runs.{
  Runs, Runs-leaves, Runs-pure, Runs-throw, Runs-after, Runs-bind, save-Runs, Runs-parse, Saved,
}
use proflow.Execution.Runtime.Leaves.{
  Leaves, Leaves-then, check_stop-Leaves, consume_given-Leaves, validate_approval-Leaves,
}

module _ (env : Env) where
  -- A record that may follow the one that is stored.
  pub store-Runs :
      (E : Tables → Type 0) (old new : ExecutionRecord) (precondition : Option String) (s : Tables)
      → Sound s
      → Holds old s
      → Advance old new
      → E s
      → Runs (Saved new) E s (store env new precondition s)
  unfolding store
  store-Runs E old new precondition s h k adv e =
      Runs-parse (Saved new) E (λ r. save r (protected env precondition)) new s h e
        (λ legal. save-Runs E old new (protected env precondition) s h k adv legal)

  module _ (run : Run) (intent : Intent) (admission : Admission) where
    pub approve-Leaves :
        (now : Moment) (precondition : Option String)
        → Leaves (approve env run intent admission now precondition)
    approve-Leaves now precondition =
        validate_approval-Leaves env.approvals run.ports now intent admission.approval_required
          precondition

    -- What comes before the effect is saved: the record stays, or the call throws.
    before_effect : Moment → Stop → Stop → String → Act Unit
    before_effect now before after value =
        check_stop before
        >> approve env run intent admission now (some value)
        >> check_stop after
        >> consume_given env now run.ports (present intent.request.approval_ref)

    before_effect-Leaves :
        (now : Moment) (before after : Stop) (value : String)
        → Leaves (before_effect now before after value)
    unfolding before_effect
    before_effect-Leaves now before after value =
        let first = check_stop before in
        let approved = approve env run intent admission now (some value) in
        let consumed = consume_given env now run.ports (present intent.request.approval_ref) in
        Leaves-then (first >> approved >> check_stop after) consumed
          (Leaves-then (first >> approved) (check_stop after)
            (Leaves-then first approved (check_stop-Leaves before)
              (approve-Leaves now (some value)))
            (check_stop-Leaves after))
          (consume_given-Leaves env now run.ports (present intent.request.approval_ref))

    on_effect_started-Runs :
        (now : Moment) (before after : Stop) (value : String) (r : ExecutionRecord) (s : Tables)
        → Sound s
        → Holds r s
        → is_busy (phase_of r) ≡ true
        → Runs
            (Saved (started_record now r))
            (Holds r)
            s
            (on_effect_started env run intent admission now before after value r s)
    unfolding on_effect_started before_effect
    on_effect_started-Runs now before after value r s h k busy =
        Runs-bind (λ _ t. Holds r t) (Saved (started_record now r)) (Holds r)
          (λ _. store env (started_record now r) (some value))
          (before_effect now before after value) s
          (Runs-leaves (Holds r) (Holds-same r) (before_effect now before after value) s
            (before_effect-Leaves now before after value s) h k)
          (λ _ t sound holds.
            store-Runs (Holds r) r (started_record now r) (some value) t sound holds
              (record { step = affect-Step (phase_of r) busy; subject = refl }) holds)

    -- What the executor leaves: a record that has been begun, of the same execution.
    pub record Busy (r : ExecutionRecord) (x : ExecutorResult × Locals) (s : Tables) : Type 0 where
      pub holds : Holds x.1.execution s
      pub subject : subject_of x.1.execution ≡ subject_of r
      pub busy : is_busy (phase_of x.1.execution) ≡ true

    abbrev pub Live : ExecutionRecord → Tables → Type 0
    Live = Tracks is_live

    pub busy_lives :
        (r x : ExecutionRecord) (s : Tables)
        → Holds x s
        → subject_of x ≡ subject_of r
        → is_busy (phase_of x) ≡ true
        → Live r s
    busy_lives r x s h k busy = record {
      held = x;
      holds = h;
      subject = k;
      phase = busy-is_live (phase_of x) busy;
    }

    Runs-started :
        (r x : ExecutionRecord) (new : ExecutionRecord) (q : Result ExecutionRecord × Tables)
        (go : ExecutionRecord → Act (ExecutorResult × Locals))
        (stay : Thrown → Act (ExecutorResult × Locals)) (s : Tables)
        → Runs (Saved new) (Holds x) s q
        → ((t : Tables) → Sound t → Holds new t → Runs (Busy r) (Live r) t (go new t))
        → ((e : Thrown) (t : Tables) → Sound t → Holds x t → Runs (Busy r) (Live r) t (stay e t))
        → Runs (Busy r) (Live r) s (elim q.0 [ ok y ↦ go y q.1 | err e ↦ stay e q.1 ])
    Runs-started r x new (ok y, t) go stay s h f g = rw h.ended.0 (
        Runs-after (Busy r) (Live r) s t (go new t) h.evolves
          (f t h.sound (subst (λ z. Holds z t) h.ended.0 h.ended.1)))
    Runs-started r x new (err e, t) go stay s h f g =
        Runs-after (Busy r) (Live r) s t (stay e t) h.evolves (g e t h.sound h.ended)

    pub perform_work-Runs :
        (work : Work) (r : ExecutionRecord) (locals : Locals) (s : Tables)
        → Sound s
        → Holds locals.execution s
        → subject_of locals.execution ≡ subject_of r
        → is_busy (phase_of locals.execution) ≡ true
        → Runs (Busy r) (Live r) s (perform_work env run intent admission work locals s)
    unfolding perform_work
    perform_work-Runs (finish (ok x)) r locals s h k same busy =
        Runs-pure (Busy r) (Live r) (x, locals) s h
          (record { holds = k; subject = same; busy = busy })
    perform_work-Runs (finish (err e)) r locals s h k same busy =
        Runs-throw (Busy r) (Live r) e s h (busy_lives r locals.execution s k same busy)
    perform_work-Runs (start now before after value next) r locals s h k same busy =
        Runs-started r locals.execution (started_record now locals.execution)
          (on_effect_started env run intent admission now before after value locals.execution s)
          (λ y.
            perform_work env run intent admission (next none)
              (record { execution = y; precondition = some value }))
          (λ e. perform_work env run intent admission (next (some e)) locals) s
          (on_effect_started-Runs now before after value locals.execution s h k busy)
          (λ t sound holds.
            perform_work-Runs (next none) r
              (record {
                execution = started_record now locals.execution;
                precondition = some value;
              })
              t sound holds same refl)
          (λ e t sound holds. perform_work-Runs (next (some e)) r locals t sound holds same busy)
