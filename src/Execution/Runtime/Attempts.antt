-- ===== src/Execution/Runtime/Attempts.antt =====
-- packages/execution-runtime/src/index.ts: a call with a slot, from the admission to the record that it
-- returns.
use proflow.Base.{
  String, ◌≡◌, refl, sym, ap, ◌∙◌, subst, Bool, true, not, ◌&&◌, Option, none, some, arith,
  if◌then◌else◌, none≢some,
}
use proflow.Execution.Runtime.{
  Status, pending, SideEffectState, not_started, is_legal_pair, ExecutionRecord, Row, Tables, Act,
  ◌>>=◌, ◌>>◌, pure, throw, failure, find_row, is_legal, executor_unavailable, execution_failed,
}
use proflow.Execution.Runtime.Artifacts.{register_all}
use proflow.Execution.Runtime.Admission.{Admission, Intent}
use proflow.Execution.Runtime.Intents.{Env}
use proflow.Execution.Runtime.Effects.{
  check_stop, ExecutorResult, Run, Locals, running_record, succeeded_record, with_artifacts,
  unsuccessful_record, is_pending, still_pending, store, approve, perform_work, record_result,
  check_effect, finish_work, work_on, start_running, attempt,
}
use proflow.Execution.Runtime.Life.{
  Phase, phase_of, phase, Subject, subject_of, Advance, Sound, Holds, Holds-same, found-IsSound,
  some-eq,
}
use proflow.Execution.Runtime.Tracks.{
  is_busy, is_waiting, Tracks, Tracks-same, refuse-Step, complete-Step, busy-is_live,
  waiting-is_live, begin-Step,
}
use proflow.Execution.Runtime.Working.{
  store-Runs, approve-Leaves, Busy, Live, busy_lives, perform_work-Runs,
}
use proflow.Execution.Runtime.Runs.{
  Runs, Runs-leaves, Runs-pure, Runs-throw, Runs-if, Runs-either, Runs-choose, Runs-mono, Runs-bind,
  Saved,
}
use proflow.Execution.Runtime.Leaves.{
  Leaves, Leaves-then, Left-if, check_stop-Leaves, register_all-Leaves,
}

-- The record returned is the stored one, of the same execution.
pub record Returned (r x : ExecutionRecord) (s : Tables) : Type 0 where
  pub holds : Holds x s
  pub subject : subject_of x ≡ subject_of r

pub Returned-Saved :
    (r new x : ExecutionRecord) (s : Tables)
    → subject_of new ≡ subject_of r
    → Saved new x s
    → Returned r x s
Returned-Saved r new x s h k = record { holds = k.1; subject = ap subject_of k.0 ∙ h }

pub held_legal : (x : ExecutionRecord) (s : Tables) → Sound s → Holds x s → is_legal x ≡ true
held_legal x s h k =
    subst (λ y. is_legal y ≡ true) k.same (found-IsSound x.execution_ref s k.row h k.found).legal

pair-waiting :
    (st : Status) (side : SideEffectState)
    → is_legal_pair st side ≡ true
    → is_pending st ≡ true
    → is_waiting (phase st side) ≡ true
pair-waiting pending not_started h k = refl
pair-waiting pending _ h k = cc
pair-waiting _ _ h k = cc

pub legal-waiting :
    (x : ExecutionRecord)
    → is_legal x ≡ true
    → is_pending x.status ≡ true
    → is_waiting (phase_of x) ≡ true
unfolding is_legal
legal-waiting x h k = pair-waiting x.status x.side_effect_state (ground (arith, h)) k

-- The row that is read is the one of the record that is held.
pub still_pending-Runs :
    (E : Tables → Type 0) (p : Phase → Bool) (r : ExecutionRecord) (next : Act ExecutionRecord)
    (s : Tables)
    → Sound s
    → (k : Tracks p r s) → (is_waiting (phase_of k.held) ≡ true → Runs (Returned r) E s (next s))
    → Runs (Returned r) E s (still_pending r next s)
unfolding still_pending
still_pending-Runs E p r next s h k f =
    let found : find_row r.execution_ref s ≡ some k.holds.row =
      ap (λ (t : Subject). find_row t.execution_ref s) (sym k.subject) ∙ k.holds.found in
    let held : (row : Row) → find_row r.execution_ref s ≡ some row → row.execution ≡ k.held =
      λ row e. ap (λ (x : Row). x.execution) (some-eq (sym e ∙ found)) ∙ k.holds.same in
    Runs-either (Returned r) E (find_row r.execution_ref s) next
      (λ row. if is_pending row.execution.status then next else pure row.execution) s
      (λ e. absurd (none≢some (sym e ∙ found)))
      (λ row e.
        Runs-if (Returned r) E (is_pending row.execution.status) next (pure row.execution) s
          (λ b. f (
            legal-waiting k.held (held_legal k.held s h k.holds)
              (subst (λ (x : ExecutionRecord). is_pending x.status ≡ true) (held row e) b)))
          (λ _. Runs-pure (Returned r) E row.execution s h (
            subst (λ x. Returned r x s) (sym (held row e))
              (record { holds = k.holds; subject = k.subject }))))

module _ (env : Env) (run : Run) (intent : Intent) (admission : Admission) where
  waiting_lives :
      (r : ExecutionRecord) (s : Tables) → Tracks is_waiting r s → Live env run intent admission r s
  waiting_lives r s k = record {
    held = k.held;
    holds = k.holds;
    subject = k.subject;
    phase = waiting-is_live (phase_of k.held) k.phase;
  }

  -- A result that follows a record which has been begun.
  result-Runs :
      (r old new : ExecutionRecord) (precondition : Option String) (s : Tables)
      → Sound s
      → Holds old s
      → subject_of old ≡ subject_of r
      → is_busy (phase_of old) ≡ true
      → Advance old new
      → Runs (Returned r) (Live env run intent admission r) s (store env new precondition s)
  result-Runs r old new precondition s h k same busy adv =
      let live = busy_lives env run intent admission r old s k same busy in
      Runs-mono (Returned r) (Live env run intent admission r) (Saved new)
        (Live env run intent admission r) s (store env new precondition s)
        (λ x t saved. Returned-Saved r new x t (adv.subject ∙ same) saved) (λ t e. e)
        (store-Runs env (Live env run intent admission r) old new precondition s h k adv live)

  record_result-Runs :
      (r : ExecutionRecord) (x : ExecutorResult) (locals : Locals) (s : Tables)
      → Sound s
      → Holds locals.execution s
      → subject_of locals.execution ≡ subject_of r
      → is_busy (phase_of locals.execution) ≡ true
      → Runs
          (Returned r)
          (Live env run intent admission r)
          s
          (record_result env run intent admission x locals s)
  unfolding record_result
  record_result-Runs r x locals s h k same busy =
      let side =
        if x.effect_applied then SideEffectState.applied else SideEffectState.not_applied in
      let success =
        with_artifacts x.artifacts
          (succeeded_record run.ended side x.result x.evidence locals.execution) in
      let failure = unsuccessful_record run.ended x locals.execution in
      Runs-if (Returned r) (Live env run intent admission r) x.successful
        (store env success locals.precondition) (store env failure none) s
        (λ _.
          result-Runs r locals.execution success locals.precondition s h k same busy
            (record { step = complete-Step (phase_of locals.execution) busy; subject = refl }))
        (λ _. result-Runs r locals.execution failure none s h k same busy (record {
          step =
              refuse-Step (phase_of locals.execution)
                (busy-is_live (phase_of locals.execution) busy);
          subject = refl;
        }))

  check_effect-Leaves : (x : ExecutorResult) → Leaves (check_effect env run intent admission x)
  check_effect-Leaves x s =
      Left-if s (not x.successful && x.effect_applied) (throw (failure execution_failed)) (pure tt)
        refl refl

  finish_work-Runs :
      (r : ExecutionRecord) (x : ExecutorResult × Locals) (s : Tables)
      → Sound s
      → Busy env run intent admission r x s
      → Runs
          (Returned r)
          (Live env run intent admission r)
          s
          (finish_work env run intent admission x s)
  unfolding finish_work
  finish_work-Runs r (x, locals) s h k =
      let register =
        register_all env.texts run.ended intent.request locals.execution.execution_ref
          x.artifacts in
      let checks = check_stop run.stop_ended >> check_effect env run intent admission x in
      let leaves =
        Leaves-then checks register
          (Leaves-then (check_stop run.stop_ended) (check_effect env run intent admission x)
            (check_stop-Leaves run.stop_ended) (check_effect-Leaves x))
          (register_all-Leaves env.texts run.ended intent.request locals.execution.execution_ref
            x.artifacts) in
      Runs-bind (λ _ t. Holds locals.execution t) (Returned r) (Live env run intent admission r)
        (λ _. record_result env run intent admission x locals) (checks >> register) s
        (Runs-mono (λ _ t. Holds locals.execution t) (Live env run intent admission r)
          (λ _ t. Holds locals.execution t) (Holds locals.execution) s ((checks >> register) s)
          (λ _ t e. e)
          (λ t e. busy_lives env run intent admission r locals.execution t e k.subject k.busy)
          (Runs-leaves (Holds locals.execution) (Holds-same locals.execution) (checks >> register) s
            (leaves s) h k.holds))
        (λ _ t sound holds. record_result-Runs r x locals t sound holds k.subject k.busy)

  work_on-Runs :
      (r x : ExecutionRecord) (s : Tables)
      → Sound s
      → Holds x s
      → subject_of x ≡ subject_of r
      → is_busy (phase_of x) ≡ true
      → Runs (Returned r) (Live env run intent admission r) s (work_on env run intent admission x s)
  work_on-Runs r x s h k same busy =
      let locals : Locals = record { execution = x; precondition = none } in
      Runs-choose (Returned r) (Live env run intent admission r) run.work
        (throw (failure executor_unavailable))
        (λ work.
          perform_work env run intent admission work locals
          >>= finish_work env run intent admission)
        s
        (λ _.
          Runs-throw (Returned r) (Live env run intent admission r) (failure executor_unavailable) s
            h (busy_lives env run intent admission r x s k same busy))
        (λ work _.
          Runs-bind (Busy env run intent admission r) (Returned r) (Live env run intent admission r)
            (finish_work env run intent admission)
            (perform_work env run intent admission work locals) s
            (perform_work-Runs env run intent admission work r locals s h k same busy)
            (λ y t sound done. finish_work-Runs r y t sound done))

  start_running-Runs :
      (r old : ExecutionRecord) (s : Tables)
      → Sound s
      → Holds old s
      → subject_of old ≡ subject_of r
      → is_waiting (phase_of old) ≡ true
      → Live env run intent admission r s
      → Runs
          (Returned r)
          (Live env run intent admission r)
          s
          (start_running env run intent admission r s)
  unfolding start_running
  start_running-Runs r old s h k same waits live =
      let new = running_record run.begun intent admission r in
      Runs-bind (Saved new) (Returned r) (Live env run intent admission r)
        (work_on env run intent admission) (store env new none) s
        (store-Runs env (Live env run intent admission r) old new none s h k
          (record { step = begin-Step (phase_of old) waits; subject = sym same }) live)
        (λ x t sound saved.
          work_on-Runs r x t sound saved.1 (ap subject_of saved.0)
            (subst (λ y. is_busy (phase_of y) ≡ true) (sym saved.0) refl))

  pub attempt-Runs :
      (r : ExecutionRecord) (s : Tables)
      → Sound s
      → Tracks is_waiting r s
      → Runs (Returned r) (Live env run intent admission r) s (attempt env run intent admission r s)
  unfolding attempt
  attempt-Runs r s h k =
      let first = approve env run intent admission run.begun none in
      let stop = check_stop run.stop_begun in
      let leaves =
        Leaves-then first stop (approve-Leaves env run intent admission run.begun none)
          (check_stop-Leaves run.stop_begun) in
      let E = Live env run intent admission r in
      Runs-bind (λ _ t. Tracks is_waiting r t) (Returned r) E
        (λ _. still_pending r (start_running env run intent admission r)) (first >> stop) s
        (Runs-mono (λ _ t. Tracks is_waiting r t) E (λ _ t. Tracks is_waiting r t)
          (Tracks is_waiting r) s ((first >> stop) s) (λ _ t x. x) (λ t x. waiting_lives r t x)
          (Runs-leaves (Tracks is_waiting r) (Tracks-same is_waiting r) (first >> stop) s (leaves s)
            h k))
        (λ _ t sound tracks.
          still_pending-Runs E is_waiting r (start_running env run intent admission r) t sound
            tracks
            (λ w.
              start_running-Runs r tracks.held t sound tracks.holds tracks.subject w
                (waiting_lives r t tracks)))
