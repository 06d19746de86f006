-- ===== src/Execution/Runtime/Recovery.antt =====
-- packages/execution-runtime/src/index.ts: `recoverIncomplete`.
use proflow.Base.{
  String, ◌≡◌, ◌≢◌, refl, sym, ◌∙◌, subst, true, false, List, [], ◌∷◌, Option, none, some, arith,
  Option-cases, inl, inr, get_row, text_key, All, All-get_row, IsUnique, none≢some, get_row-key,
  get_row-All,
}
use proflow.Execution.Approvals.{Moment}
use proflow.Execution.Runtime.{Row, Tables, Result, ok, err, row_key, find_row}
use proflow.Execution.Runtime.Intents.{Env}
use proflow.Execution.Runtime.Effects.{Reconciliation}
use proflow.Execution.Runtime.Execute.{recover_row, recover_each, recover_incomplete}
use proflow.Execution.Runtime.Life.{Sound, some-eq}
use proflow.Execution.Runtime.Runs.{Runs, Runs-pure, Runs-mono, Runs-bind}
use proflow.Execution.Runtime.Recovering.{is_running, Settles}
use proflow.Execution.Runtime.Verifying.{Unread, recover_row-Runs}

abbrev pub Quiet : String → Tables → Type 0
Quiet ref t =
    (after : Row) × (find_row ref t ≡ some after) × (is_running after.execution.status ≡ false)

abbrev IsStored : Tables → Row → Type 0
IsStored s row = find_row row.execution_ref s ≡ some row

-- The rows of a list are settled, and the others as they were.
pub record AllSettled (rows : List Row) (s t : Tables) : Type 0 where
  pub quiet : All (λ row. Quiet row.execution_ref t) rows
  pub apart : (ref : String) → get_row row_key ref rows ≡ none → find_row ref t ≡ find_row ref s

not_first :
    (ref : String) (row : Row) (rows : List Row)
    → get_row row_key ref (row ∷ rows) ≡ none
    → (ref ≢ row.execution_ref) × (get_row row_key ref rows ≡ none)
unfolding get_row
not_first ref row rows h = ground (arith, h)

others :
    (ref : String) (rows : List Row)
    → get_row row_key ref rows ≡ none
    → All (λ (x : Row). x.execution_ref ≢ ref) rows
others ref [] h = tt
others ref (x ∷ rows) h =
    let (a, b) = not_first ref x rows h in ((λ q. a (sym q)), others ref rows b)

module _ (env : Env) (now : Moment) (verify : Row → Option (Result Reconciliation)) where
  abbrev pub Reads : Row → Type 0
  Reads row = env.reads_back row.request ≡ true

  abbrev pub Unreadable : List Row → Tables → Type 0
  Unreadable rows _ = ¬ All Reads rows

  true≢false : true ≢ false
  true≢false h = cc

  recover_each-Runs :
      (rows : List Row) (s : Tables)
      → Sound s
      → All (IsStored s) rows
      → IsUnique row_key rows
      → Runs (λ _ t. AllSettled rows s t) (Unreadable rows) s (recover_each env now verify rows s)
  unfolding recover_each
  recover_each-Runs [] s h k u =
      Runs-pure (λ _ t. AllSettled [] s t) (Unreadable []) tt s h
        (record { quiet = tt; apart = λ ref _. refl })
  recover_each-Runs (row ∷ rows) s h k u =
      Runs-bind (λ _ t. Settles row s t) (λ _ t. AllSettled (row ∷ rows) s t)
        (Unreadable (row ∷ rows)) (λ _. recover_each env now verify rows)
        (recover_row env now (verify row) row) s
        (Runs-mono (λ _ t. Settles row s t) (Unreadable (row ∷ rows)) (λ _ t. Settles row s t)
          (Unread env now row) s (recover_row env now (verify row) row s) (λ _ _ x. x)
          (λ _ unread all. true≢false (sym all.0 ∙ unread))
          (recover_row-Runs env now row s h k.0 (verify row)))
        (λ _ t sound first.
          let away = others row.execution_ref rows u.0 in
          let stored : All (IsStored t) rows = kept s t row rows first away k.1 in
          Runs-mono (λ _ t. AllSettled (row ∷ rows) s t) (Unreadable (row ∷ rows))
            (λ _ v. AllSettled rows t v) (Unreadable rows) t (recover_each env now verify rows t)
            (λ _ v rest. together s t v row rows u.0 first rest) (λ _ f all. f all.1)
            (recover_each-Runs rows t sound stored u.1))
    where
      kept :
          (s t : Tables) (row : Row) (rows : List Row)
          → Settles row s t
          → All (λ (x : Row). x.execution_ref ≢ row.execution_ref) rows
          → All (IsStored s) rows
          → All (IsStored t) rows
      kept s t row [] first away k = tt
      kept s t row (x ∷ rows) first away k =
          (first.apart x.execution_ref away.0 ∙ k.0, kept s t row rows first away.1 k.1)

      together :
          (s t v : Tables) (row : Row) (rows : List Row)
          → get_row row_key row.execution_ref rows ≡ none
          → Settles row s t
          → AllSettled rows t v
          → AllSettled (row ∷ rows) s v
      together s t v row rows gone first rest = record {
        quiet = (
          (first.after, rest.apart row.execution_ref gone ∙ first.found, first.quiet),
          rest.quiet,
        );
        apart =
            λ ref q. let (a, b) = not_first ref row rows q in rest.apart ref b ∙ first.apart ref a;
      }

  pub recover_incomplete-Runs :
      (s : Tables)
      → Sound s
      → Runs
          (λ _ t. AllSettled s.executions s t)
          (Unreadable s.executions)
          s
          (recover_incomplete env now verify s)
  unfolding recover_incomplete
  recover_incomplete-Runs s h =
      recover_each-Runs s.executions s h (All-get_row row_key s.executions h.unique) h.unique

  Quiet-row :
      (rows : List Row) (ref : String) (row : Row) (t : Tables)
      → All (λ (x : Row). Quiet x.execution_ref t) rows
      → get_row row_key ref rows ≡ some row
      → Quiet ref t
  Quiet-row rows ref row t h e =
      subst (λ r. Quiet r t) (get_row-key row_key ref rows row e)
        (get_row-All row_key (λ (x : Row). Quiet x.execution_ref t) ref rows row h e)

  no_running :
      (s t : Tables)
      → AllSettled s.executions s t
      → (ref : String) (after : Row) → find_row ref t ≡ some after
      → is_running after.execution.status ≡ false
  no_running s t all ref after e = elim (Option-cases (find_row ref s)) [
    | inl q ↦ absurd (none≢some (sym q ∙ sym (all.apart ref q) ∙ e))
    | inr found ↦
        let (x, f, quiet) = Quiet-row s.executions ref found.0 t all.quiet found.1 in
        subst (λ (row : Row). is_running row.execution.status ≡ false) (some-eq (sym f ∙ e)) quiet
  ]

  recovered :
      (s : Tables) (r : Result Unit × Tables)
      → All Reads s.executions
      → Runs (λ _ t. AllSettled s.executions s t) (Unreadable s.executions) s r
      → (r.0 ≡ ok tt)
        × ((ref : String) (after : Row)
            → find_row ref r.1 ≡ some after
            → is_running after.execution.status ≡ false)
  recovered s (ok _, t) all run = (refl, no_running s t run.ended)
  recovered s (err e, t) all run = absurd (run.ended all)

  -- Where the tables are sound and every stored request still meets the schema, `recoverIncomplete`
  -- returns, whatever the executors find or throw, and then no execution is RUNNING.
  pub recover-is_running :
      (s : Tables)
      → Sound s
      → All Reads s.executions
      → ((recover_incomplete env now verify s).0 ≡ ok tt)
        × ((ref : String) (after : Row)
            → find_row ref (recover_incomplete env now verify s).1 ≡ some after
            → is_running after.execution.status ≡ false)
  recover-is_running s h all =
      recovered s (recover_incomplete env now verify s) all (recover_incomplete-Runs s h)
