-- ===== src/Execution/Runtime/Endings.antt =====
-- packages/execution-runtime/src/index.ts: the `catch` of a call with a slot.
use proflow.Base.{String, ◌≡◌, refl, sym, ap, ◌∙◌, subst, true, List, Option, none, some, none≢some}
use proflow.Execution.Approvals.{Moment}
use proflow.Execution.Runtime.{
  Status, pending, running, succeeded, failed, unknown, SideEffectState, started, CapabilityResult,
  Evidence, foreign, ExecutionRecord, Row, Tables, Failure, Thrown, Result, ok, err, ◌>>=◌, pure,
  throw, parse_record, find_row, save, fail_record, lose_record, failed_record, unknown_record,
  is_legal,
}
use proflow.Execution.Runtime.Admission.{Admission, Intent, answer}
use proflow.Execution.Runtime.Intents.{Env}
use proflow.Execution.Runtime.Effects.{
  Reality, Reconciliation, Run, succeeded_record, is_started, try_catch, attempt, settle_effect,
  reconcile_effect, conclude, failure_of, terminate, execute_admitted,
}
use proflow.Execution.Runtime.Life.{
  Phase, affecting, phase_of, phase, Subject, subject_of, Advance, Sound, Holds, some-eq,
}
use proflow.Execution.Runtime.Tracks.{
  is_live, is_busy, is_waiting, is_affecting, Tracks, refuse-Step, complete-Step, busy-is_live,
  lose-Step,
}
use proflow.Execution.Runtime.Working.{Live}
use proflow.Execution.Runtime.Attempts.{Returned, Returned-Saved, attempt-Runs}
use proflow.Execution.Runtime.Runs.{
  Runs, Runs-pure, Runs-throw, Runs-if, Runs-either, Runs-choose, Runs-mono, Runs-bind,
  Runs-try_catch, save-Runs, Saved,
}

affecting-busy : (p : Phase) → is_affecting p ≡ true → is_busy p ≡ true
affecting-busy affecting h = refl
affecting-busy _ h = cc

started-affecting :
    (st : Status) (side : SideEffectState)
    → is_started side ≡ true
    → is_live (phase st side) ≡ true
    → is_affecting (phase st side) ≡ true
started-affecting running started h k = refl
started-affecting pending started h k = cc
started-affecting succeeded started h k = cc
started-affecting failed started h k = cc
started-affecting unknown started h k = cc
started-affecting _ _ h k = cc

module _ (env : Env) (run : Run) (intent : Intent) (admission : Admission) where
  -- The three ways out of an effect that has started.
  affecting_fails :
      (now : Moment) (e : Failure) (r : ExecutionRecord)
      → is_affecting (phase_of r) ≡ true
      → Advance r (failed_record now e r)
  affecting_fails now e r a = record {
    step = refuse-Step (phase_of r) (busy-is_live (phase_of r) (affecting-busy (phase_of r) a));
    subject = refl;
  }

  affecting_lost :
      (now : Moment) (r : ExecutionRecord)
      → is_affecting (phase_of r) ≡ true
      → Advance r (unknown_record now r)
  affecting_lost now r a = record { step = lose-Step (phase_of r) a; subject = refl }

  affecting_done :
      (now : Moment) (side : SideEffectState) (result : CapabilityResult) (evidence : List Evidence)
      (r : ExecutionRecord)
      → is_affecting (phase_of r) ≡ true
      → Advance r (succeeded_record now side result evidence r)
  affecting_done now side result evidence r a = record {
    step = complete-Step (phase_of r) (affecting-busy (phase_of r) a);
    subject = refl;
  }

  -- What the `catch` makes of a record that is live.
  abbrev Concluded : ExecutionRecord → Tables → ExecutionRecord → Tables → Type 0
  Concluded old s x t = Advance old x × (is_legal x ≡ true) × (t ≡ s)

  parsed-Runs :
      (old new : ExecutionRecord) (s : Tables)
      → Sound s
      → Advance old new
      → Runs (Concluded old s) (λ t. t ≡ s) s (parse_record new s)
  parsed-Runs old new s h adv =
      Runs-if (Concluded old s) (λ t. t ≡ s) (is_legal new) (pure new) (throw foreign) s
        (λ l. Runs-pure (Concluded old s) (λ t. t ≡ s) new s h (adv, l, refl))
        (λ _. Runs-throw (Concluded old s) (λ t. t ≡ s) foreign s h refl)

  settle_effect-Runs :
      (e : Failure) (r : ExecutionRecord) (found : Reconciliation) (s : Tables)
      → Sound s
      → is_affecting (phase_of r) ≡ true
      → Runs (Concluded r s) (λ t. t ≡ s) s (settle_effect env run intent admission e r found s)
  unfolding settle_effect
  settle_effect-Runs e r found s h a = settled found.state found.result
    where
      settled :
          (state : Reality) (result : Option CapabilityResult)
          → Runs
              (Concluded r s)
              (λ t. t ≡ s)
              s
              (settle_effect env run intent admission e r
                (record found { state = state; result = result })
                s)
      settled Reality.not_applied result =
          parsed-Runs r (failed_record run.ended e r) s h (affecting_fails run.ended e r a)
      settled Reality.unknown result =
          parsed-Runs r (unknown_record run.ended r) s h (affecting_lost run.ended r a)
      settled Reality.applied none =
          parsed-Runs r (unknown_record run.ended r) s h (affecting_lost run.ended r a)
      settled Reality.applied (some result) =
          parsed-Runs r (succeeded_record run.ended SideEffectState.applied result found.evidence r)
            s h (affecting_done run.ended SideEffectState.applied result found.evidence r a)

  reconciled-Runs :
      (e : Failure) (r : ExecutionRecord) (found : Result Reconciliation) (s : Tables)
      → Sound s
      → is_affecting (phase_of r) ≡ true
      → Runs
          (Concluded r s)
          (λ t. t ≡ s)
          s
          (try_catch
            (answer found >>= settle_effect env run intent admission e r)
            (λ _. lose_record run.ended r)
            s)
  reconciled-Runs e r found s h a =
      Runs-try_catch (Concluded r s) (λ t. t ≡ s) (λ t. t ≡ s) (λ _. lose_record run.ended r)
        (answer found >>= settle_effect env run intent admission e r) s (answered found)
        (λ _ t sound q.
          subst (λ u. Runs (Concluded r s) (λ t. t ≡ s) u (lose_record run.ended r u)) (sym q)
            (parsed-Runs r (unknown_record run.ended r) s h (affecting_lost run.ended r a)))
    where
      answered :
          (q : Result Reconciliation)
          → Runs
              (Concluded r s)
              (λ t. t ≡ s)
              s
              ((answer q >>= settle_effect env run intent admission e r) s)
      answered (ok x) = settle_effect-Runs e r x s h a
      answered (err thrown) = Runs-throw (Concluded r s) (λ t. t ≡ s) thrown s h refl

  conclude-Runs :
      (e : Failure) (r : ExecutionRecord) (precondition : Option String) (s : Tables)
      → Sound s
      → is_live (phase_of r) ≡ true
      → Runs (Concluded r s) (λ t. t ≡ s) s (conclude env run intent admission e r precondition s)
  unfolding conclude
  conclude-Runs e r precondition s h live =
      Runs-if (Concluded r s) (λ t. t ≡ s) (is_started r.side_effect_state)
        (reconcile_effect env run intent admission e r precondition) (fail_record run.ended e r) s
        (λ b. started_case precondition (started-affecting r.status r.side_effect_state b live))
        (λ _.
          parsed-Runs r (failed_record run.ended e r) s h
            (record { step = refuse-Step (phase_of r) live; subject = refl }))
    where
      started_case :
          (p : Option String)
          → is_affecting (phase_of r) ≡ true
          → Runs (Concluded r s) (λ t. t ≡ s) s (reconcile_effect env run intent admission e r p s)
      started_case none a =
          parsed-Runs r (unknown_record run.ended r) s h (affecting_lost run.ended r a)
      started_case (some p) a =
          Runs-choose (Concluded r s) (λ t. t ≡ s) run.work (lose_record run.ended r)
            (λ _.
              try_catch (answer run.reconciled >>= settle_effect env run intent admission e r)
                (λ _. lose_record run.ended r))
            s (λ _. parsed-Runs r (unknown_record run.ended r) s h (affecting_lost run.ended r a))
            (λ _ _. reconciled-Runs e r run.reconciled s h a)

  concluded-Runs :
      (e : Failure) (r old : ExecutionRecord) (precondition : Option String) (s : Tables)
      → Sound s
      → Holds old s
      → subject_of old ≡ subject_of r
      → is_live (phase_of old) ≡ true
      → Runs
          (Returned r)
          (λ _. Unit)
          s
          ((conclude env run intent admission e old precondition >>= λ x. save x none) s)
  concluded-Runs e r old precondition s h k same live =
      Runs-bind (Concluded old s) (Returned r) (λ _. Unit) (λ x. save x none)
        (conclude env run intent admission e old precondition) s
        (Runs-mono (Concluded old s) (λ _. Unit) (Concluded old s) (λ t. t ≡ s) s
          (conclude env run intent admission e old precondition s) (λ _ _ c. c) (λ _ _. tt)
          (conclude-Runs e old precondition s h live))
        (λ x t sound c.
          Runs-mono (Returned r) (λ _. Unit) (Saved x) (λ _. Unit) t (save x none t)
            (λ y u saved. Returned-Saved r x y u ((c.0).subject ∙ same) saved) (λ _ _. tt)
            (save-Runs (λ _. Unit) old x none t sound (subst (Holds old) (sym c.2) k) c.0 c.1))

  terminate-Runs :
      (r : ExecutionRecord) (e : Thrown) (s : Tables)
      → Sound s
      → Live env run intent admission r s
      → Runs (Returned r) (λ _. Unit) s (terminate env run intent admission r e s)
  unfolding terminate
  terminate-Runs r e s h k =
      let why = failure_of env run intent admission e in
      let found : find_row r.execution_ref s ≡ some k.holds.row =
        ap (λ (t : Subject). find_row t.execution_ref s) (sym k.subject) ∙ k.holds.found in
      let held : (row : Row) → find_row r.execution_ref s ≡ some row → k.held ≡ row.execution =
        λ row q. sym k.holds.same ∙ ap (λ (x : Row). x.execution) (some-eq (sym found ∙ q)) in
      Runs-either (Returned r) (λ _. Unit) (find_row r.execution_ref s)
        (conclude env run intent admission why r none >>= λ x. save x none)
        (λ row.
          conclude env run intent admission why row.execution row.precondition >>= λ x. save x none)
        s (λ q. absurd (none≢some (sym q ∙ found)))
        (λ row q.
          concluded-Runs why r row.execution row.precondition s h
            (subst (λ x. Holds x s) (held row q) k.holds)
            (ap subject_of (sym (held row q)) ∙ k.subject)
            (subst (λ x. is_live (phase_of x) ≡ true) (held row q) k.phase))

  pub execute_admitted-Runs :
      (r : ExecutionRecord) (s : Tables)
      → Sound s
      → Tracks is_waiting r s
      → Runs (Returned r) (λ _. Unit) s (execute_admitted env run intent admission r s)
  unfolding execute_admitted
  execute_admitted-Runs r s h k =
      Runs-try_catch (Returned r) (Live env run intent admission r) (λ _. Unit)
        (terminate env run intent admission r) (attempt env run intent admission r) s
        (attempt-Runs env run intent admission r s h k)
        (λ e t sound live. terminate-Runs r e t sound live)
