-- ===== src/Task/Guards/Waking.antt =====
-- `resumeTask` and `acknowledgeMessage`: a blocked run goes on once its messages are acknowledged.
use proflow.Base.{
  ◌≡◌, ◌≢◌, ◌⊎◌, false, some, arith, text_key, any, any-none, All, All-mono, keep-All, sort_by-All,
  get_row-key, get_row-put_row,
}
use proflow.Task.Model.{TaskStatus, Task, NodeStatus, TaskNode, MessageStatus, TaskMessage}
use proflow.Task.Errors.{ok}
use proflow.Task.Requests.{Env, TaskControls, AckInput}
use proflow.Task.Store.{Db, find_task, find_message, message_key}
use proflow.Task.Store.Logs.{set_message, update_message, insert_event}
use proflow.Task.Store.Lists.{list_pending}
use proflow.Task.Steps.{require_task, check_version}
use proflow.Task.Steps.Loops.{with_found}
use proflow.Task.Commands.Lifecycle.{current_node, is_blocker, resume_waiting, resume_task}
use proflow.Task.Commands.Messages.{acknowledge_pending, acknowledge_message}

-- No message that is still pending is about the node.
abbrev pub IsUnblocked : Task → TaskNode → Db → Type 0
IsUnblocked task node db =
    All
      (λ (m : TaskMessage).
        m.status ≡ MessageStatus.pending → m.task_id ≡ task.task_id → m.node_id ≢ some node.node_id)
      db.messages

list_pending-IsUnblocked :
    (task : Task) (node : TaskNode) (db : Db)
    → any (is_blocker task node) (list_pending db) ≡ false
    → IsUnblocked task node db
unfolding list_pending
list_pending-IsUnblocked task node db h =
    All-mono _ _ (λ m f pending. f (ground (arith, pending))) db.messages
      (keep-All (λ (m : TaskMessage). m.task_id ≡ task.task_id → m.node_id ≢ some node.node_id) _
        db.messages
        (sort_by-All _ _ _ ((any-none (is_blocker task node) _ (λ m. ground arith) _).0 h)))

module _ (env : Env) (input : TaskControls) (db db' : Db) (r : Task) where
  -- `resumeTask` succeeds only for a WAITING or PAUSED Task, and where the current node is WAITING,
  -- only with no pending message about it.
  pub resume_task-IsUnblocked :
      resume_task env input db ≡ ok (r, db')
      → (task : Task) × (find_task input.task_id db ≡ some task)
        × ((task.status ≡ TaskStatus.waiting) ⊎ (task.status ≡ TaskStatus.paused))
        × ((node : TaskNode)
            → current_node task db ≡ some node
            → node.status ≡ NodeStatus.waiting
            → IsUnblocked task node db)
  unfolding resume_task resume_waiting require_task check_version
  resume_task-IsUnblocked h =
      with_found (find_task input.task_id db) (ground (arith, h)) (λ task found. (
        task,
        found,
        ground (arith, h, found),
        λ node current waiting.
            list_pending-IsUnblocked task node db (ground (arith, h, found, current, waiting)),
      ))

module _ (env later : Env) (input again : AckInput) (db db' : Db) (m : TaskMessage) where
  -- After `acknowledgeMessage`, another request about the same message answers with the message as
  -- it was acknowledged, and changes nothing.
  pub acknowledge_message-again :
      again.message_id ≡ input.message_id
      → acknowledge_message env input db ≡ ok (m, db')
      → acknowledge_message later again db' ≡ ok (m, db')
  unfolding acknowledge_message acknowledge_pending update_message insert_event
  acknowledge_message-again same h =
      with_found (find_message input.message_id db) (ground (arith, h)) (λ message found.
        let key = get_row-key message_key input.message_id db.messages message found in
        let lookup =
          get_row-put_row message_key input.message_id (set_message message m) db.messages in
        ground (arith, h, found, key, lookup, same))
