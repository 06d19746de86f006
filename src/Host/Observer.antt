-- ===== src/Host/Observer.antt =====
-- packages/platform-host/src/task-observer.ts: what to do for a Task, from its drive projection.
-- `decimal` is the text of a number, with which the runtime fills `task-event:${id}`.
pub mod Waking
use proflow.Base.{
  String, ℕ, Bool, true, false, not, ◌&&◌, Option, none, some, if◌then◌else◌, ltb, nat_eq, ◌==◌,
}
use Prim.Native.String.{◌++◌}
use proflow.Task.Requests.{RoleBindingView}
use proflow.Task.Queries.{DriveNode, DriveProjection}
use proflow.Task.Readiness.{is_active}
use proflow.Task.Steps.{is_node_ready, is_in_progress}

-- The first two are of `decideTaskProgression`, the others of a `TaskResumeSignal`.
pub data Trigger : Type 0 where
  node_ready reopen : Trigger
  execution_result_ready peer_reply_ready recovery_resume task_resumed : Trigger

pub record ResumeSignal : Type 0 where
  pub trigger : Trigger
  pub ref : String
  pub target_worker_ref : String
  pub node_id : String
  pub run_no : ℕ

pub record Wake : Type 0 where
  pub task_id : String
  pub node_id : String
  pub run_no : ℕ
  pub role_ref : String
  pub worker_ref : String
  pub trigger : Trigger
  pub conversation_locator : String
  pub underlying_ref : Option String

pub data Reason : Type 0 where
  no_current_node binding_not_ready no_progress_intent : Reason
  resume_generation_mismatch resume_target_not_current_worker : Reason

pub data Decision : Type 0 where
  wake : Wake → Decision
  stop_driving : String → Decision
  noop : String → Reason → Decision

-- A text in the place of a condition, where null and the empty text are false.
abbrev pub named : Option String → Option String
named none = none
named (some s) = if s == "" then none else some s

-- A binding for the node's package that has a worker and a conversation.
pub record Bound : Type 0 where
  pub role_ref : String
  pub worker : String
  pub locator : String

abbrev bound_by : String → Option String → Option String → Option Bound
bound_by role none locator = none
bound_by role (some worker) none = none
bound_by role (some worker) (some locator) =
    some (record { role_ref = role; worker = worker; locator = locator })

unfoldable pub bound_for : DriveNode → Option RoleBindingView → Option Bound
bound_for node none = none
bound_for node (some b) =
    if b.agent_package_ref == node.required_agent_package_ref
    then bound_by b.role_ref (named b.worker_ref) (named b.conversation_locator)
    else none

abbrev pub woken : DriveProjection → DriveNode → Bound → Trigger → Option String → Decision
woken p node b trigger ref = wake (record {
  task_id = p.task_id;
  node_id = node.node_id;
  run_no = node.run_no;
  role_ref = b.role_ref;
  worker_ref = b.worker;
  trigger = trigger;
  conversation_locator = b.locator;
  underlying_ref = ref;
})

-- The signal of the caller, or one made of the projection's durable event.
unfoldable pub effective :
    (ℕ → String) → DriveProjection → DriveNode → Bound → Option ResumeSignal → Option ResumeSignal
effective decimal p node b (some signal) = some signal
effective decimal p node b none = elim p.resume_signal [
  | none ↦ none
  | some id ↦
      if is_active p.task_status && is_in_progress node.status
      then some (record {
        trigger = Trigger.task_resumed;
        ref = "task-event:" ++ decimal id;
        target_worker_ref = b.worker;
        node_id = node.node_id;
        run_no = node.run_no;
      })
      else none
]

unfoldable pub decide_resume : DriveProjection → DriveNode → Bound → Option ResumeSignal → Decision
decide_resume p node b none = noop p.task_id no_progress_intent
decide_resume p node b (some signal) =
    if not (is_active p.task_status && is_in_progress node.status)
    then noop p.task_id binding_not_ready
    else if not (signal.node_id == node.node_id && nat_eq signal.run_no node.run_no)
    then noop p.task_id resume_generation_mismatch
    else if not (signal.target_worker_ref == b.worker)
    then noop p.task_id resume_target_not_current_worker
    else woken p node b signal.trigger (some signal.ref)

unfoldable pub decide_bound :
    (ℕ → String) → DriveProjection → Option ResumeSignal → DriveNode → Option Bound → Decision
decide_bound decimal p signal node none = noop p.task_id binding_not_ready
decide_bound decimal p signal node (some b) =
    if is_node_ready node.status
    then if p.can_drive
      then woken p node b (if ltb 1 node.run_no then Trigger.reopen else Trigger.node_ready) none
      else noop p.task_id binding_not_ready
    else decide_resume p node b (effective decimal p node b signal)

abbrev decide_at :
    (ℕ → String) → DriveProjection → Option ResumeSignal → Option DriveNode → Decision
decide_at decimal p signal none = noop p.task_id no_current_node
decide_at decimal p signal (some node) =
    decide_bound decimal p signal node (bound_for node p.role_binding)

unfoldable pub decide_task_progression :
    (ℕ → String) → DriveProjection → Option ResumeSignal → Decision
decide_task_progression decimal p signal =
    if p.terminal then stop_driving p.task_id else decide_at decimal p signal p.current_node
