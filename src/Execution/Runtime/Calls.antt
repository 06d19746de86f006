-- ===== src/Execution/Runtime/Calls.antt =====
-- packages/execution-runtime/src/index.ts: `executeCapability` and `cancelExecution` move records by the
-- steps of their life, and return the record that is stored.
use proflow.Base.{String, ◌≡◌, refl, sym, ap, ◌∙◌, Bool, true, not, Option, none, some}
use proflow.Execution.Approvals.{Moment}
use proflow.Execution.Approvals.Operations
use proflow.Execution.Approvals.Operations.{present}
use proflow.Execution.Runtime.{
  Failure, Request, ExecutionRecord, Tables, Thrown, Result, ok, err, ◌>>=◌, ◌>>◌, pure, throw,
  failure, runtime_error, save, failed_record, is_legal, cancelled, executor_unavailable, foreign,
}
use proflow.Execution.Runtime.Admission.{Admission, Intent, with_owner, admit}
use proflow.Execution.Runtime.Intents.{
  Env, Opened, settled, opened, open_execution, get_execution_for_caller,
}
use proflow.Execution.Runtime.Effects.{is_pending, still_pending, execute_admitted}
use proflow.Execution.Runtime.Execute.{
  CancelInput, World, queue_full, fail_and_save, cancel_record, cancel_execution, aside,
  approval_input, with_approval, draft_approval, wants_approval, reject_observed, reject_admission,
  take_slot, admit_and_run, carry_on, execute_capability,
}
use proflow.Execution.Runtime.Life.{
  Phase, phase_of, subject_of, Sound, Evolves, Evolves-same, Holds, Trail-subject,
}
use proflow.Execution.Runtime.Tracks.{
  is_waiting, Tracks, Tracks-same, Tracks-held, refuse-Step, waiting-is_live,
}
use proflow.Execution.Runtime.Runs.{
  Always, Runs, Runs-leaves, Runs-pure, Runs-throw, Runs-if, Runs-mono, Runs-evolved, Runs-bind,
  Runs-elim, Runs-parse, Saved, save-Runs,
}
use proflow.Execution.Runtime.Leaves.{Leaves-owner, admit-Leaves}
use proflow.Execution.Runtime.Attempts.{
  Returned, Returned-Saved, still_pending-Runs, held_legal, legal-waiting,
}
use proflow.Execution.Runtime.Endings.{execute_admitted-Runs}
use proflow.Execution.Runtime.Opening.{
  Ready, Bound, Bound-Evolves, row-Holds, open_execution-Runs, get_execution_for_caller-Runs,
}

-- The record of a PENDING execution, or of a draft of it, becomes FAILED.
fail_and_save-Runs :
    (now : Moment) (e : Failure) (r x : ExecutionRecord) (s : Tables)
    → Sound s
    → Tracks is_waiting r s
    → subject_of x ≡ subject_of r
    → Runs (Returned r) Always s (fail_and_save now e x s)
unfolding fail_and_save
fail_and_save-Runs now e r x s h k same =
    let new = failed_record now e x in
    Runs-parse (Returned r) Always (λ y. save y none) new s h tt
      (λ legal.
        Runs-mono (Returned r) Always (Saved new) Always s (save new none s)
          (λ y t saved. Returned-Saved r new y t same saved) (λ _ _. tt)
          (save-Runs Always k.held new none s h k.holds
            (record {
              step = refuse-Step (phase_of k.held) (waiting-is_live (phase_of k.held) k.phase);
              subject = same ∙ sym k.subject;
            })
            legal))

pub cancel_execution-Runs :
    (now : Moment) (input : CancelInput) (s : Tables)
    → Sound s
    → Runs Holds Always s (cancel_execution now input s)
unfolding cancel_execution
cancel_execution-Runs now input s h =
    Runs-bind Holds Holds Always (cancel_record now)
      (get_execution_for_caller input.execution_ref input.caller_ref) s
      (get_execution_for_caller-Runs input.execution_ref input.caller_ref s h)
      (λ r t sound k.
        Runs-if Holds Always (is_pending r.status)
          (fail_and_save now (runtime_error (failure cancelled)) r) (pure r) t
          (λ e.
            Runs-mono Holds Always (Returned r) Always t
              (fail_and_save now (runtime_error (failure cancelled)) r t) (λ x u y. y.holds)
              (λ _ _. tt)
              (fail_and_save-Runs now (runtime_error (failure cancelled)) r r t sound
                (Tracks-held is_waiting r t k (legal-waiting r (held_legal r t sound k) e)) refl))
          (λ _. Runs-pure Holds Always r t sound k))

abbrev anything : Phase → Bool
anything _ = true

-- Whatever happens beside a call, its execution keeps what identifies it.
evolved-Tracks :
    (r : ExecutionRecord) (s t : Tables)
    → Sound t
    → Evolves s t
    → Tracks is_waiting r s
    → Tracks anything r t
evolved-Tracks r s t h e k =
    let (after, found, trail) = e.rows k.held.execution_ref k.holds.row k.holds.found in
    record {
      held = after.execution;
      holds = row-Holds k.held.execution_ref t after h found;
      subject = Trail-subject trail ∙ ap subject_of k.holds.same ∙ k.subject;
      phase = refl;
    }

aside-Runs :
    (now : Moment) (input : Option CancelInput) (r : ExecutionRecord) (s : Tables)
    → Sound s
    → Tracks is_waiting r s
    → Runs (λ _ t. Tracks anything r t) Always s (aside now input s)
aside-Runs now none r s h k = record {
  evolves = Evolves-same s s refl;
  sound = h;
  ended = evolved-Tracks r s s h (Evolves-same s s refl) k;
}
aside-Runs now (some input) r s h k =
    let run = cancel_execution-Runs now input s h in
    record {
      evolves = run.evolves;
      sound = run.sound;
      ended = evolved-Tracks r s (cancel_execution now input s).1 run.sound run.evolves k;
    }

module _ (env : Env) where
  draft_approval-Runs :
      (world : World) (e : Failure) (r : ExecutionRecord) (precondition : Option String)
      (s : Tables)
      → Sound s
      → Tracks is_waiting r s
      → Runs (Returned r) Always s (draft_approval env world e r precondition s)
  unfolding draft_approval
  draft_approval-Runs world e r precondition s h k =
      let ensure =
        Operations.ensure_pending_approval env.approvals world.now
          (approval_input env world r precondition) in
      let Draft : ExecutionRecord → Tables → Type 0 =
        λ x t. Tracks is_waiting r t × (subject_of x ≡ subject_of r) in
      Runs-bind Draft (Returned r) Always (fail_and_save world.now e)
        (with_owner ensure >>= with_approval env world r) s
        (Runs-bind (λ _ t. Tracks is_waiting r t) Draft Always (with_approval env world r)
          (with_owner ensure) s
          (Runs-mono (λ _ t. Tracks is_waiting r t) Always (λ _ t. Tracks is_waiting r t)
            (Tracks is_waiting r) s (with_owner ensure s) (λ _ _ x. x) (λ _ _. tt)
            (Runs-leaves (Tracks is_waiting r) (Tracks-same is_waiting r) (with_owner ensure) s
              (Leaves-owner ensure s) h k))
          (λ a t sound tracks.
            let draft = record r {
              approval_ref = some a.approval_ref;
              updated_at = world.now.stamp;
            } in
            Runs-if Draft Always (is_legal draft) (pure draft) (throw foreign) t
              (λ _. Runs-pure Draft Always draft t sound (tracks, refl))
              (λ _. Runs-throw Draft Always foreign t sound tt)))
        (λ x t sound draft. fail_and_save-Runs world.now e r x t sound draft.0 draft.1)

  reject_admission-Runs :
      (world : World) (request : Request) (r : ExecutionRecord) (thrown : Thrown) (s : Tables)
      → Sound s
      → Tracks is_waiting r s
      → Runs (Returned r) Always s (reject_admission env world request r thrown s)
  unfolding reject_admission
  reject_admission-Runs world request r thrown s h k =
      let e = runtime_error thrown in
      Runs-if (Returned r) Always (wants_approval env world request e)
        (reject_observed env world e r world.observed) (fail_and_save world.now e r) s
        (λ _. observed world.observed) (λ _. fail_and_save-Runs world.now e r r s h k refl)
    where
      observed :
          (o : Result (Option String))
          → Runs (Returned r) Always s (reject_observed env world (runtime_error thrown) r o s)
      observed (ok precondition) =
          draft_approval-Runs world (runtime_error thrown) r precondition s h k
      observed (err e) = fail_and_save-Runs world.now (runtime_error e) r r s h k refl

  take_slot-Runs :
      (world : World) (intent : Intent) (r : ExecutionRecord) (admission : Admission) (s : Tables)
      → Sound s
      → Tracks is_waiting r s
      → Runs (Returned r) Always s (take_slot env world intent r admission s)
  unfolding take_slot
  take_slot-Runs world intent r admission s h k =
      let go = execute_admitted env world.run intent admission r in
      Runs-if (Returned r) Always (not world.has_slot)
        (fail_and_save world.now (runtime_error queue_full) r)
        (aside world.now world.meanwhile >> still_pending r go) s
        (λ _. fail_and_save-Runs world.now (runtime_error queue_full) r r s h k refl)
        (λ _.
          Runs-bind (λ _ t. Tracks anything r t) (Returned r) Always (λ _. still_pending r go)
            (aside world.now world.meanwhile) s (aside-Runs world.now world.meanwhile r s h k)
            (λ _ t sound tracks. still_pending-Runs Always anything r go t sound tracks (λ waits.
              execute_admitted-Runs env world.run intent admission r t sound (record {
                held = tracks.held;
                holds = tracks.holds;
                subject = tracks.subject;
                phase = waits;
              }))))

  admit_and_run-Runs :
      (world : World) (intent : Intent) (r : ExecutionRecord) (s : Tables)
      → Sound s
      → Tracks is_waiting r s
      → Runs (Returned r) Always s (admit_and_run env world intent r s)
  unfolding admit_and_run
  admit_and_run-Runs world intent r s h k =
      let admitted = admit env.approvals world.run.ports world.now intent in
      Runs-elim (λ _ t. Tracks is_waiting r t) (Tracks is_waiting r) (Returned r) Always
        (take_slot env world intent r) (reject_admission env world intent.request r) s (admitted s)
        (Runs-leaves (Tracks is_waiting r) (Tracks-same is_waiting r) admitted s
          (admit-Leaves env.approvals world.run.ports world.now intent s) h k)
        (λ a t sound tracks. take_slot-Runs world intent r a t sound tracks)
        (λ e t sound tracks. reject_admission-Runs world intent.request r e t sound tracks)

  -- The record that is returned is stored, under the intent of the request.
  abbrev pub Answered : Request → ExecutionRecord → Tables → Type 0
  Answered request x s = Holds x s × Bound request x s

  carry_on-Runs :
      (world : World) (request : Request) (o : Opened) (s : Tables)
      → Sound s
      → Ready request o s
      → Runs (Answered request) Always s (carry_on env world o s)
  carry_on-Runs world request (settled r) s h k = Runs-pure (Answered request) Always r s h k
  carry_on-Runs world request (opened intent r) s h k =
      Runs-mono (Answered request) Always (λ x t. Returned r x t × Evolves s t) Always s
        (admit_and_run env world intent r s)
        (λ x t y. ((y.0).holds, Bound-Evolves request r x s t y.1 (y.0).subject k.1)) (λ _ _. tt)
        (Runs-evolved (Returned r) Always s (admit_and_run env world intent r s)
          (admit_and_run-Runs world intent r s h k.0))

  pub execute_capability-Runs :
      (world : World) (request : Request) (s : Tables)
      → Sound s
      → Runs (Answered request) Always s (execute_capability env world request s)
  unfolding execute_capability
  execute_capability-Runs world request s h =
      Runs-if (Answered request) Always world.closed (throw (failure executor_unavailable))
        (open_execution env world.now request >>= carry_on env world) s
        (λ _. Runs-throw (Answered request) Always (failure executor_unavailable) s h tt)
        (λ _.
          Runs-bind (Ready request) (Answered request) Always (carry_on env world)
            (open_execution env world.now request) s (open_execution-Runs env world.now request s h)
            (λ o t sound ready. carry_on-Runs world request o t sound ready))
