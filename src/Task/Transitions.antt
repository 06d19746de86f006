-- ===== src/Task/Transitions.antt =====
-- packages/task-orchestration/src/transitions.ts: the declared status transitions.
use proflow.Base.{Bool, true, false}
use proflow.Task.Model.{TaskGroupStatus, TaskStatus, NodeStatus}

unfoldable pub task_transition : TaskStatus → TaskStatus → Bool
task_transition TaskStatus.pending TaskStatus.ready = true
task_transition TaskStatus.pending TaskStatus.terminated = true
task_transition TaskStatus.ready TaskStatus.active = true
task_transition TaskStatus.ready TaskStatus.terminated = true
task_transition TaskStatus.active TaskStatus.waiting = true
task_transition TaskStatus.active TaskStatus.paused = true
task_transition TaskStatus.active TaskStatus.failed = true
task_transition TaskStatus.active TaskStatus.succeeded = true
task_transition TaskStatus.active TaskStatus.terminated = true
task_transition TaskStatus.waiting TaskStatus.active = true
task_transition TaskStatus.waiting TaskStatus.paused = true
task_transition TaskStatus.waiting TaskStatus.terminated = true
task_transition TaskStatus.failed TaskStatus.terminated = true
task_transition TaskStatus.paused TaskStatus.active = true
task_transition TaskStatus.paused TaskStatus.terminated = true
task_transition _ _ = false

unfoldable pub group_transition : TaskGroupStatus → TaskGroupStatus → Bool
group_transition TaskGroupStatus.ready TaskGroupStatus.active = true
group_transition TaskGroupStatus.active TaskGroupStatus.succeeded = true
group_transition _ _ = false

unfoldable pub node_transition : NodeStatus → NodeStatus → Bool
node_transition NodeStatus.pending NodeStatus.ready = true
node_transition NodeStatus.pending NodeStatus.terminated = true
node_transition NodeStatus.ready NodeStatus.in_progress = true
node_transition NodeStatus.ready NodeStatus.terminated = true
node_transition NodeStatus.in_progress NodeStatus.waiting = true
node_transition NodeStatus.in_progress NodeStatus.failed = true
node_transition NodeStatus.in_progress NodeStatus.succeeded = true
node_transition NodeStatus.in_progress NodeStatus.terminated = true
node_transition NodeStatus.waiting NodeStatus.in_progress = true
node_transition NodeStatus.waiting NodeStatus.terminated = true
node_transition NodeStatus.failed NodeStatus.ready = true
node_transition NodeStatus.failed NodeStatus.terminated = true
node_transition _ _ = false
