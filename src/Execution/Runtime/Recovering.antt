-- ===== src/Execution/Runtime/Recovering.antt =====
-- packages/execution-runtime/src/index.ts: the recovery of one row.
use proflow.Base.{
  String, ◌≡◌, ◌≢◌, refl, sym, ap, ◌∙◌, subst, Bool, true, false, none, some, arith, get_row,
  text_key, get_row-put_row, get_row-key,
}
use proflow.Execution.Approvals.{Moment}
use proflow.Execution.Runtime.{
  Status, pending, running, succeeded, failed, unknown, SideEffectState, Failure, ExecutionRecord,
  Row, SignalKind, Tables, ok, row_key, find_row, with_record, rewritten, save, failed_record,
  unknown_record, is_legal, fits_status, is_some,
}
use proflow.Execution.Runtime.Intents.{Env}
use proflow.Execution.Runtime.Signals.{emit_signal}
use proflow.Execution.Runtime.Life.{
  Phase, affecting, lost, phase, done, refused, Step, confirm, deny, lose, still_lost, find_done,
  find_refused, Advance, Advance-ref, Sound, found-IsSound,
}
use proflow.Execution.Runtime.Runs.{Runs, rewritten-found, save-Runs}
use proflow.Execution.Runtime.Leaves.{Leaves}
use proflow.Execution.Runtime.Opening.{row-Holds}

abbrev pub is_running : Status → Bool
is_running running = true
is_running _ = false

-- An effect that may have been applied.
abbrev pub is_unsettled : Phase → Bool
is_unsettled affecting = true
is_unsettled lost = true
is_unsettled _ = false

-- The row is no longer running, and the others are as they were.
pub record Settles (row : Row) (s t : Tables) : Type 0 where
  pub after : Row
  pub found : find_row row.execution_ref t ≡ some after
  pub quiet : is_running after.execution.status ≡ false
  pub apart : (ref : String) → ref ≢ row.execution_ref → find_row ref t ≡ find_row ref s

pub Settles-same :
    (row : Row) (s t u : Tables) → u.executions ≡ t.executions → Settles row s t → Settles row s u
Settles-same row s t u h k = record {
  after = k.after;
  found = ap (get_row row_key row.execution_ref) h ∙ k.found;
  quiet = k.quiet;
  apart = λ ref q. ap (get_row row_key ref) h ∙ k.apart ref q;
}

rewritten-apart :
    (new : ExecutionRecord) (row : Row) (s : Tables) (ref : String)
    → find_row new.execution_ref s ≡ some row
    → ref ≢ new.execution_ref
    → get_row row_key ref (rewritten new none s.executions) ≡ find_row ref s
rewritten-apart new row s ref e q =
    ap (get_row row_key ref) (rewritten-found new none row s e)
    ∙ get_row-put_row row_key ref (with_record new none row) s.executions
    ∙ ground (arith, q, get_row-key row_key new.execution_ref s.executions row e)

pub save-Settles :
    (E : Tables → Type 0) (row : Row) (new : ExecutionRecord) (s : Tables)
    → Sound s
    → find_row row.execution_ref s ≡ some row
    → Advance row.execution new
    → is_legal new ≡ true
    → is_running new.status ≡ false
    → Runs (λ _ t. Settles row s t) E s (save new none s)
unfolding save
save-Settles E row new s h e adv legal quiet =
    let old = row-Holds row.execution_ref s row h e in
    let ref : new.execution_ref ≡ row.execution_ref =
      Advance-ref adv ∙ (found-IsSound row.execution_ref s row h e).execution_ref in
    let run = save-Runs E row.execution new none s h old adv legal in
    let held = run.ended.1 in
    record {
      evolves = run.evolves;
      sound = run.sound;
      ended = record {
        after = held.row;
        found = ap (λ x. find_row x (save new none s).1) (sym ref) ∙ held.found;
        quiet = subst (λ (x : ExecutionRecord). is_running x.status ≡ false) (sym held.same) quiet;
        apart = λ other q.
            rewritten-apart new row s other (ap (λ x. find_row x s) ref ∙ e) (λ p. q (p ∙ ref));
      };
    }

pub emit_signal-Leaves :
    (env : Env) (now : Moment) (kind : SignalKind) (r : ExecutionRecord)
    → Leaves (emit_signal env now kind r)
unfolding emit_signal
emit_signal-Leaves env now kind r s = ground (arith)

pub emit_signal-ok :
    (env : Env) (now : Moment) (kind : SignalKind) (r : ExecutionRecord) (s : Tables)
    → (emit_signal env now kind r s).0 ≡ ok tt
unfolding emit_signal
emit_signal-ok env now kind r s = ground (arith)

pub unsettled-Status :
    (st : Status) (side : SideEffectState) → is_unsettled (phase st side) ≡ true → st ≢ succeeded
unsettled-Status succeeded side h q = cc
unsettled-Status _ side h q = cc

pub lost-Step : (p : Phase) → is_unsettled p ≡ true → Step p lost
lost-Step affecting h = lose
lost-Step lost h = still_lost
lost-Step _ h = cc

pub refused-Step : (p : Phase) → is_unsettled p ≡ true → Step p refused
refused-Step affecting h = deny
refused-Step lost h = find_refused
refused-Step _ h = cc

pub done-Step : (p : Phase) → is_unsettled p ≡ true → Step p done
done-Step affecting h = confirm
done-Step lost h = find_done
done-Step _ h = cc

no_result :
    (st : Status) (r : ExecutionRecord)
    → fits_status st r ≡ true
    → (st ≢ succeeded)
    → is_some r.result ≡ false
no_result pending r h q = ground (arith, h)
no_result running r h q = ground (arith, h)
no_result succeeded r h q = absurd (q refl)
no_result failed r h q = ground (arith, h)
no_result unknown r h q = ground (arith, h)

pub failed-is_legal :
    (now : Moment) (e : Failure) (r : ExecutionRecord)
    → is_legal r ≡ true
    → r.status ≢ succeeded
    → is_legal (failed_record now e r) ≡ true
unfolding is_legal
failed-is_legal now e r h q = ground (arith, no_result r.status r (ground (arith, h)) q)

pub unknown-is_legal :
    (now : Moment) (r : ExecutionRecord)
    → is_legal r ≡ true
    → r.status ≢ succeeded
    → is_legal (unknown_record now r) ≡ true
unfolding is_legal
unknown-is_legal now r h q = ground (arith, no_result r.status r (ground (arith, h)) q)
