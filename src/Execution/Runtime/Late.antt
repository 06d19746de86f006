-- ===== src/Execution/Runtime/Late.antt =====
-- packages/execution-runtime/src/index.ts: an admission that is refused late.
use proflow.Base.{
  none, ◌≢◌, ◌≡◌, sym, ap, ◌∙◌, true, false, some, arith, text_key, get_row-put_row, get_row-key,
  get_row,
}
use proflow.Execution.Runtime.{
  pending, succeeded, Failure, ExecutionRecord, Request, Row, Tables, Thrown, runtime_error,
  find_row, failed_record, is_legal, row_key, with_record, save,
}
use proflow.Execution.Runtime.Intents.{Env}
use proflow.Execution.Runtime.Execute.{World, wants_approval, reject_admission, fail_and_save}
use proflow.Execution.Runtime.Runs.{rewritten-found}
use proflow.Execution.Runtime.Recovering.{failed-is_legal}

pending≢succeeded : pending ≢ succeeded
pending≢succeeded q = cc

module _ (env : Env) where
  failed-saved :
      (world : World) (e : Failure) (r : ExecutionRecord) (s : Tables) (row : Row)
      → is_legal (failed_record world.now e r) ≡ true
      → find_row r.execution_ref s ≡ some row
      → find_row r.execution_ref (fail_and_save world.now e r s).1
        ≡ some (with_record (failed_record world.now e r) none row)
  unfolding fail_and_save save
  failed-saved world e r s row legal found =
      let new = failed_record world.now e r in
      rw legal (
        ap (get_row row_key r.execution_ref) (rewritten-found new none row s found)
        ∙ get_row-put_row row_key r.execution_ref (with_record new none row) s.executions
        ∙ ground (arith, found, get_row-key row_key r.execution_ref s.executions row found))

  -- When the admission of a call is refused without an approval to draft, and the call's own record is
  -- legal and PENDING, the call writes it as FAILED, whatever the stored record of the execution has
  -- become since the call began, one that has SUCCEEDED included.
  pub reject_admission-overwrites :
      (world : World) (request : Request) (r : ExecutionRecord) (thrown : Thrown) (s : Tables)
      (row : Row)
      → is_legal r ≡ true
      → r.status ≡ pending
      → wants_approval env world request (runtime_error thrown) ≡ false
      → find_row r.execution_ref s ≡ some row
      → find_row r.execution_ref (reject_admission env world request r thrown s).1
        ≡ some (with_record (failed_record world.now (runtime_error thrown) r) none row)
  unfolding reject_admission
  reject_admission-overwrites world request r thrown s row legal status wants found = rw wants (
      failed-saved world (runtime_error thrown) r s row
        (failed-is_legal world.now (runtime_error thrown) r legal
          (λ q. pending≢succeeded (sym status ∙ q)))
        found)
