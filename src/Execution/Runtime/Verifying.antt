-- ===== src/Execution/Runtime/Verifying.antt =====
-- packages/execution-runtime/src/index.ts: what the recovery does with one row.
use proflow.Base.{
  ◌≡◌, ◌≢◌, refl, sym, ap, ◌∙◌, subst, true, false, Option, none, some, arith, get_row, text_key,
}
use proflow.Execution.Approvals.{Moment}
use proflow.Execution.Runtime.{
  Status, pending, running, succeeded, failed, unknown, SideEffectState, not_started, started,
  CapabilityResult, ExecutionRecord, Row, SignalKind, recovery_resume, unknown_reality, Tables,
  foreign, Result, ok, err, Act, ◌>>=◌, pure, throw, failure, runtime_error, row_key, find_row,
  save, failed_record, unknown_record, fail_record, lose_record, is_legal, is_legal_pair, cancelled,
  execution_failed,
}
use proflow.Execution.Runtime.Admission.{answer}
use proflow.Execution.Runtime.Intents.{Env}
use proflow.Execution.Runtime.Effects.{
  Reality, Reconciliation, succeeded_record, is_started, try_catch,
}
use proflow.Execution.Runtime.Signals.{emit_signal}
use proflow.Execution.Runtime.Execute.{
  save_and_signal, recovered_kind, settle_recovery, verify_with, verify_row, settle_running,
  recover_pending, recover_status, recover_row,
}
use proflow.Execution.Runtime.Life.{
  phase, phase_of, refused, Step, fail, Advance, Sound, found-IsSound,
}
use proflow.Execution.Runtime.Runs.{
  Runs, Runs-ok, Runs-pure, Runs-throw, Runs-if, Runs-choose, Runs-bind, Runs-try_catch,
}
use proflow.Execution.Runtime.Leaves.{Leaves}
use proflow.Execution.Runtime.Recovering.{
  is_running, is_unsettled, Settles, Settles-same, save-Settles, emit_signal-Leaves, emit_signal-ok,
  unsettled-Status, lost-Step, refused-Step, done-Step, failed-is_legal, unknown-is_legal,
}

pair-unsettled :
    (st : Status) (side : SideEffectState)
    → is_legal_pair st side ≡ true
    → is_started side ≡ true
    → is_unsettled (phase st side) ≡ true
pair-unsettled running started h k = refl
pair-unsettled pending started h k = cc
pair-unsettled succeeded started h k = cc
pair-unsettled failed started h k = cc
pair-unsettled unknown started h k = cc
pair-unsettled _ _ h k = cc

pair-unknown :
    (side : SideEffectState)
    → is_legal_pair unknown side ≡ true
    → is_unsettled (phase unknown side) ≡ true
pair-unknown SideEffectState.unknown h = refl
pair-unknown _ h = cc

pair-working :
    (side : SideEffectState)
    → is_legal_pair running side ≡ true
    → is_started side ≡ false
    → Step (phase running side) refused
pair-working not_started h k = fail
pair-working started h k = cc
pair-working _ h k = cc

module _ (env : Env) (now : Moment) (row : Row) where
  abbrev pub Unread : Tables → Type 0
  Unread _ = env.reads_back row.request ≡ false

  module _ (s : Tables) (h : Sound s) (e : find_row row.execution_ref s ≡ some row) where
    abbrev pub Settled : Unit {0} → Tables → Type 0
    Settled _ t = Settles row s t

    save_and_signal-Runs :
        (kind : SignalKind) (new : ExecutionRecord)
        → Advance row.execution new
        → is_legal new ≡ true
        → is_running new.status ≡ false
        → Runs Settled Unread s (save_and_signal env now kind new s)
    save_and_signal-Runs kind new adv legal quiet =
        Runs-bind (λ _ t. Settles row s t) Settled Unread (λ _. emit_signal env now kind new)
          (save new none) s (save-Settles Unread row new s h e adv legal quiet)
          (λ x t sound settles.
            let leaves = emit_signal-Leaves env now kind new t in
            let u = (emit_signal env now kind new t).1 in
            Runs-ok Settled Unread (emit_signal env now kind new) tt t
              (emit_signal-ok env now kind new t) leaves sound
              (Settles-same row s t u leaves settles))

    -- What an effect that may have been applied turns out to be.
    abbrev Verified : ExecutionRecord → Tables → Type 0
    Verified x t =
        Advance row.execution x × (is_legal x ≡ true) × (is_running x.status ≡ false) × (t ≡ s)

    old-is_legal : is_legal row.execution ≡ true
    old-is_legal = (found-IsSound row.execution_ref s row h e).legal

    module _ (unsettled : is_unsettled (phase_of row.execution) ≡ true) where
      unsettled-status : row.execution.status ≢ succeeded
      unsettled-status =
          unsettled-Status row.execution.status row.execution.side_effect_state unsettled

      lost-Verified : (E : Tables → Type 0) → Runs Verified E s (lose_record now row.execution s)
      lost-Verified E =
          let legal = unknown-is_legal now row.execution old-is_legal unsettled-status in
          rw legal (
            Runs-pure Verified E (unknown_record now row.execution) s h (
              record { step = lost-Step (phase_of row.execution) unsettled; subject = refl },
              legal,
              refl,
              refl,
            ))

      abbrev Same : Tables → Type 0
      Same t = t ≡ s

      settle_recovery-Runs :
          (found : Reconciliation)
          → Runs Verified Same s (settle_recovery env now row.execution found s)
      unfolding settle_recovery
      settle_recovery-Runs found = settled found.state found.result
        where
          settled :
              (state : Reality) (result : Option CapabilityResult)
              → Runs Verified Same s (
                  settle_recovery env now row.execution
                    (record found { state = state; result = result })
                    s)
          settled Reality.not_applied result =
              let why = runtime_error (failure execution_failed) in
              let legal = failed-is_legal now why row.execution old-is_legal unsettled-status in
              rw legal (
                Runs-pure Verified Same (failed_record now why row.execution) s h (
                  record { step = refused-Step (phase_of row.execution) unsettled; subject = refl },
                  legal,
                  refl,
                  refl,
                ))
          settled Reality.unknown result = lost-Verified Same
          settled Reality.applied none = lost-Verified Same
          settled Reality.applied (some result) =
              let done_record =
                succeeded_record now SideEffectState.applied result found.evidence row.execution in
              let new = record done_record { error = none } in
              Runs-if Verified Same (is_legal new) (pure new) (throw foreign) s
                (λ legal. Runs-pure Verified Same new s h (
                  record { step = done-Step (phase_of row.execution) unsettled; subject = refl },
                  legal,
                  refl,
                  refl,
                ))
                (λ _. Runs-throw Verified Same foreign s h refl)

    -- The record that a verification found is saved, and its signal emitted.
    found-Runs :
        (kind : ExecutionRecord → SignalKind) (m : Act ExecutionRecord)
        → Runs Verified Unread s (m s)
        → Runs Settled Unread s ((m >>= λ r. save_and_signal env now (kind r) r) s)
    found-Runs kind m run =
        Runs-bind Verified Settled Unread (λ r. save_and_signal env now (kind r) r) m s run
          (λ x t sound v.
            subst (λ u. Runs Settled Unread u (save_and_signal env now (kind x) x u)) (sym v.3)
              (save_and_signal-Runs (kind x) x v.0 v.1 v.2))

    module _ (unsettled : is_unsettled (phase_of row.execution) ≡ true) where
      reconciled-Runs :
          (found : Result Reconciliation)
          → Runs Verified Unread s (
              try_catch
                (answer found >>= settle_recovery env now row.execution)
                (λ _. lose_record now row.execution)
                s)
      reconciled-Runs found =
          Runs-try_catch Verified (Same unsettled) Unread (λ _. lose_record now row.execution)
            (answer found >>= settle_recovery env now row.execution) s (answered found)
            (λ _ t sound q.
              subst (λ u. Runs Verified Unread u (lose_record now row.execution u)) (sym q)
                (lost-Verified unsettled Unread))
        where
          answered :
              (q : Result Reconciliation)
              → Runs Verified
                  (Same unsettled)
                  s
                  ((answer q >>= settle_recovery env now row.execution) s)
          answered (ok x) = settle_recovery-Runs unsettled x
          answered (err thrown) = Runs-throw Verified (Same unsettled) thrown s h refl

      verify_with-Runs :
          (found : Option (Result Reconciliation))
          → Runs Settled Unread s (verify_with env now row found s)
      verify_with-Runs none =
          found-Runs (λ _. unknown_reality) (lose_record now row.execution)
            (lost-Verified unsettled Unread)
      verify_with-Runs (some found) =
          let verify =
            try_catch (answer found >>= settle_recovery env now row.execution)
              (λ _. lose_record now row.execution) in
          Runs-choose Settled Unread row.precondition
            (lose_record now row.execution >>= save_and_signal env now unknown_reality)
            (λ _. verify >>= λ r. save_and_signal env now (recovered_kind env r) r) s
            (λ _.
              found-Runs (λ _. unknown_reality) (lose_record now row.execution)
                (lost-Verified unsettled Unread))
            (λ _ _. found-Runs (recovered_kind env) verify (reconciled-Runs found))

      verify_row-Runs :
          (found : Option (Result Reconciliation))
          → Runs Settled Unread s (verify_row env now row found s)
      unfolding verify_row
      verify_row-Runs found =
          Runs-if Settled Unread (env.reads_back row.request) (verify_with env now row found)
            (throw foreign) s (λ _. verify_with-Runs found)
            (λ b. Runs-throw Settled Unread foreign s h b)

    old_pair : is_legal_pair row.execution.status row.execution.side_effect_state ≡ true
    unfolding is_legal
    old_pair = ground (arith, old-is_legal)

    running≢succeeded : running ≢ succeeded
    running≢succeeded q = cc

    settle_running-Runs :
        (found : Option (Result Reconciliation))
        → row.execution.status ≡ running
        → Runs Settled Unread s (settle_running env now row found s)
    settle_running-Runs found q =
        let side = row.execution.side_effect_state in
        let why = runtime_error (failure cancelled) in
        Runs-if Settled Unread (is_started side) (verify_row env now row found)
          (fail_record now why row.execution >>= save_and_signal env now recovery_resume) s
          (λ b. verify_row-Runs (pair-unsettled row.execution.status side old_pair b) found)
          (λ b.
            let legal =
              failed-is_legal now why row.execution old-is_legal
                (subst (λ st. st ≢ succeeded) (sym q) running≢succeeded) in
            let step : Step (phase row.execution.status side) refused =
              subst (λ st. Step (phase st side) refused) (sym q)
                (pair-working side (subst (λ st. is_legal_pair st side ≡ true) q old_pair) b) in
            found-Runs (λ _. recovery_resume) (fail_record now why row.execution)
              (rw legal (
                Runs-pure Verified Unread (failed_record now why row.execution) s h
                  (record { step = step; subject = refl }, legal, refl, refl))))

    -- The row as it is, which is not running.
    stays-Settles :
        (m : Act Unit)
        → (m s).0 ≡ ok tt
        → Leaves m
        → is_running row.execution.status ≡ false
        → Runs Settled Unread s (m s)
    stays-Settles m r leaves quiet = Runs-ok Settled Unread m tt s r (leaves s) h (record {
      after = row;
      found = ap (get_row row_key row.execution_ref) (leaves s) ∙ e;
      quiet = quiet;
      apart = λ ref _. ap (get_row row_key ref) (leaves s);
    })

    recover_pending-Runs :
        (found : Option (Result Reconciliation)) (side : SideEffectState)
        → row.execution.status ≡ pending
        → is_legal_pair pending side ≡ true
        → Runs Settled Unread s (recover_pending env now found row side s)
    recover_pending-Runs found not_started q l =
        stays-Settles (emit_signal env now recovery_resume row.execution)
          (emit_signal-ok env now recovery_resume row.execution s)
          (emit_signal-Leaves env now recovery_resume row.execution)
          (subst (λ st. is_running st ≡ false) (sym q) refl)
    recover_pending-Runs found _ q l = cc

    recover_status-Runs :
        (found : Option (Result Reconciliation)) (st : Status)
        → row.execution.status ≡ st
        → Runs Settled Unread s (recover_status env now found row st s)
    recover_status-Runs found pending q =
        recover_pending-Runs found row.execution.side_effect_state q
          (subst (λ st. is_legal_pair st row.execution.side_effect_state ≡ true) q old_pair)
    recover_status-Runs found running q = settle_running-Runs found q
    recover_status-Runs found unknown q =
        let side = row.execution.side_effect_state in
        verify_row-Runs
          (subst (λ st. is_unsettled (phase st side) ≡ true) (sym q)
            (pair-unknown side (subst (λ st. is_legal_pair st side ≡ true) q old_pair)))
          found
    recover_status-Runs found succeeded q =
        stays-Settles (pure tt) refl (λ _. refl) (subst (λ st. is_running st ≡ false) (sym q) refl)
    recover_status-Runs found failed q =
        stays-Settles (pure tt) refl (λ _. refl) (subst (λ st. is_running st ≡ false) (sym q) refl)

    pub recover_row-Runs :
        (found : Option (Result Reconciliation))
        → Runs Settled Unread s (recover_row env now found row s)
    unfolding recover_row
    recover_row-Runs found = recover_status-Runs found row.execution.status refl
