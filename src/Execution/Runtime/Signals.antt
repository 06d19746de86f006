-- ===== src/Execution/Runtime/Signals.antt =====
-- packages/execution-runtime/src/index.ts: the signals to the observer.
use proflow.Base.{
  String, ℕ, Bool, true, false, not, ◌&&◌, ◌||◌, List, [], ◌∷◌, ◌++◌, Option, none, some,
  if◌then◌else◌, ltb, ◌==◌, truthy, get_row, put_row, text_key, keep, take, text_lt, sort_by,
}
use proflow.Execution.Approvals.{Moment}
use proflow.Execution.Runtime.{
  ErrorCode, Failure, ExecutionRecord, Signal, SignalKind, SignalKey, Tables, ok, Act, is_some,
}
use proflow.Execution.Runtime.Intents.{Env}

abbrev pub signal_ref_of : Signal → String
signal_ref_of signal = signal.signal_ref

abbrev pub code_of : Option Failure → Option ErrorCode
code_of none = none
code_of (some e) = some e.code

abbrev pub value_of : Option String → String
value_of none = ""
value_of (some s) = s

abbrev pub is_unacknowledged : Signal → Bool
is_unacknowledged signal = not (is_some signal.acknowledged_at)

abbrev pub signal_before : Signal → Signal → Bool
signal_before a b =
    text_lt a.created_at b.created_at
    || a.created_at == b.created_at && text_lt a.signal_ref b.signal_ref

-- `Math.max(1, Math.min(100, Math.trunc(limit)))`
abbrev pub bounded : ℕ → ℕ
bounded limit = if ltb limit 1 then 1 else if ltb 100 limit then 100 else limit

unfoldable pub list_signals : ℕ → Tables → List Signal
list_signals limit s =
    take (bounded limit) (sort_by signal_before (keep is_unacknowledged s.signals))

-- The answer is `acknowledged`.
unfoldable pub acknowledge_signal : Moment → String → Act Bool
acknowledge_signal now ref s = elim (get_row signal_ref_of ref s.signals) [
  | none ↦ (ok false, s)
  | some signal ↦
      if is_unacknowledged signal
      then (
        ok true,
        record s {
          signals =
              put_row signal_ref_of (record signal { acknowledged_at = some now.stamp }) s.signals;
        },
      )
      else (ok false, s)
]

module _ (env : Env) where
  abbrev pub signal_key : SignalKind → ExecutionRecord → SignalKey
  signal_key kind r = record {
    execution_ref = r.execution_ref;
    kind = kind;
    status = r.status;
    side_effect_state = r.side_effect_state;
  }

  abbrev pub signal_of : Moment → SignalKind → ExecutionRecord → Signal
  signal_of now kind r = record {
    signal_ref = env.signal_sha (signal_key kind r);
    key = signal_key kind r;
    task_id = value_of r.task_id;
    node_id = value_of r.node_id;
    run_no = r.run_no;
    role_ref = r.role_ref;
    worker_ref = value_of r.worker_ref;
    error_code = code_of r.error;
    created_at = now.stamp;
    acknowledged_at = none;
  }

  -- `INSERT OR IGNORE`
  abbrev pub insert_signal : Signal → List Signal → List Signal
  insert_signal signal signals = elim (get_row signal_ref_of signal.signal_ref signals) [
    | some _ ↦ signals
    | none ↦ signals ++ signal ∷ []
  ]

  abbrev pub has_observer : ExecutionRecord → Bool
  has_observer r = truthy r.task_id && truthy r.node_id && truthy r.worker_ref

  -- `emitObserverSignal`
  unfoldable pub emit_signal : Moment → SignalKind → ExecutionRecord → Act Unit
  emit_signal now kind r s =
      if has_observer r
      then (ok tt, record s { signals = insert_signal (signal_of now kind r) s.signals })
      else (ok tt, s)
