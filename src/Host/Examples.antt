-- ===== src/Host/Examples.antt =====
-- The theorems on packages/platform-host, at concrete inputs.
use proflow.Base.{String, ℕ, ◌≡◌, refl, none, get_row, text_dec}
use proflow.Task.Model.{TaskStatus}
use proflow.Task.Requests.{NodeResult, RoleBindingView}
use proflow.Task.Errors.{ok}
use proflow.Task.Store.{Db}
use proflow.Task.Queries.{DriveNode, projection, drive_block}
use proflow.Task.Commands.Nodes.{start_node}
use proflow.Task.Samples
use proflow.Base.{some, false, List, [], ◌∷◌, arith}
use proflow.Host.Coordinator.{Limits, State, Step, run}
use proflow.Host.Coordinator.Queues.{Bounded}
use proflow.Host.Coordinator.Bounds.{run-Bounded}
use proflow.Host.Observer.{Trigger, Wake, wake, bound_for, decide_bound, decide_task_progression}
use proflow.Host.Observer.Waking.{
  IsAddressed, start_request, decide-IsAddressed, woken-start_node, paused-decide,
}

abbrev decimal : ℕ → String
decimal n = "7"

abbrev sample_wake : Wake
sample_wake = record {
  task_id = "T1";
  node_id = "N1";
  run_no = 1;
  role_ref = "dev";
  worker_ref = "w1";
  trigger = Trigger.node_ready;
  conversation_locator = "c1";
  underlying_ref = none;
}

decided :
    decide_task_progression decimal (projection Samples.active_task Samples.before_run) none
    ≡ wake sample_wake
unfolding decide_task_progression decide_bound bound_for projection drive_block get_row text_dec
decided = refl

decide-IsAddressed_example :
    (node : DriveNode) × (b : RoleBindingView) × IsAddressed
      (projection Samples.active_task Samples.before_run)
      sample_wake
      node
      b
decide-IsAddressed_example =
    decide-IsAddressed decimal (projection Samples.active_task Samples.before_run) none sample_wake
      decided

woken-start_node_example :
    (r : NodeResult) × (db' : Db) × (start_node Samples.pause_env
        (start_request sample_wake Samples.active_task Samples.ready_node "k1")
        Samples.before_run
      ≡ ok (r, db'))
unfolding get_row text_dec
woken-start_node_example =
    woken-start_node Samples.before_run Samples.active_task sample_wake Samples.pause_env decimal
      none Samples.ready_node "k1" refl refl refl refl refl decided

paused-decide_example :
    decide_task_progression decimal
      (projection (record Samples.active_task { status = TaskStatus.paused }) Samples.before_run)
      none
    ≡ decide_task_progression decimal
        (projection (record Samples.active_task { status = TaskStatus.active }) Samples.before_run)
        none
unfolding get_row text_dec
paused-decide_example =
    paused-decide decimal none Samples.before_run Samples.active_task Samples.ready_node refl refl

abbrev sample_limits : Limits
sample_limits = record { concurrency = 1; max_pending_tasks = 2; max_pending_signals = 2 }

abbrev at_start : State
at_start = record {
  stopped = false;
  active = 0;
  waiters = [];
  admitted = [];
  in_flight = [];
  pending = [];
  pending_count = 0;
  failures = [];
  applied = [];
  retries = [];
}

start-Bounded : Bounded sample_limits at_start
start-Bounded = record {
  counted = refl;
  signals = omega arith;
  tasks = omega arith;
  slots = omega arith;
  intents = tt;
  attempts = tt;
}

abbrev some_steps : List Step
some_steps =
    Step.reconciled "T1" (some "s1")
    ∷ Step.reconciled "T2" (some "s2")
    ∷ Step.reconciled "T3" none
    ∷ Step.failed 7 "T1"
    ∷ Step.released
    ∷ []

run-Bounded_example : Bounded sample_limits (run sample_limits some_steps at_start)
run-Bounded_example = run-Bounded sample_limits some_steps at_start start-Bounded
