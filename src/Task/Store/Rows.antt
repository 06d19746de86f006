-- ===== src/Task/Store/Rows.antt =====
-- packages/task-store-sqlite/src/index.ts: INSERT and UPDATE of groups, tasks and nodes. An UPDATE
-- names the row by its id and the version before (`version = v.version - 1`).
use proflow.Base.{
  ℕ, String, ◌+◌, Bool, true, false, not, ◌&&◌, ◌||◌, [], ◌∷◌, ◌++◌, Option, none, some,
  if◌then◌else◌, nat_eq, ◌==◌, option_eq, option_nat_eq, any, put_row, text_key,
}
use proflow.Task.Model.{TaskGroup, Task, TaskNode}
use proflow.Task.Errors.{ok, err, internal}
use proflow.Task.Store.{
  Db, Action, ⊤, group_key, task_key, node_key, find_group, find_task, find_node,
}

abbrev pub is_some {ℓ} : {A : Type ℓ} → Option A → Bool
is_some none = false
is_some (some _) = true

-- A foreign key that may be null.
abbrev has_group : Option String → Db → Bool
has_group none db = true
has_group (some id) db = is_some (find_group id db)

unfoldable pub insert_group : TaskGroup → Action ⊤
insert_group v db =
    if is_some (find_group v.task_group_id db)
    then err internal
    else ok (tt, record db { task_groups = db.task_groups ++ v ∷ [] })

-- The columns that the UPDATE names.
abbrev pub set_group : TaskGroup → TaskGroup → TaskGroup
set_group old v = record old {
  title = v.title;
  objective = v.objective;
  status = v.status;
  max_active_tasks = v.max_active_tasks;
  version = v.version;
  updated_at = v.updated_at;
}

abbrev update_group_from : Option TaskGroup → TaskGroup → Action ⊤
update_group_from none v db = err internal
update_group_from (some old) v db =
    if nat_eq (old.version + 1) v.version
    then ok (tt, record db { task_groups = put_row group_key (set_group old v) db.task_groups })
    else err internal

unfoldable pub update_group : TaskGroup → Action ⊤
update_group v db = update_group_from (find_group v.task_group_id db) v db

-- UNIQUE(task_group_id, sequence_no); SQLite counts nulls as distinct.
abbrev same_place : Option String → Option ℕ → Task → Bool
same_place (some g) (some n) t =
    option_eq t.task_group_id (some g) && option_nat_eq t.sequence_no (some n)
same_place _ _ t = false

unfoldable pub insert_task : Task → Action ⊤
insert_task v db =
    if is_some (find_task v.task_id db)
      || not (has_group v.task_group_id db)
      || any (same_place v.task_group_id v.sequence_no) db.tasks
    then err internal
    else ok (tt, record db { tasks = db.tasks ++ v ∷ [] })

abbrev pub set_task : Task → Task → Task
set_task old v = record old {
  status = v.status;
  version = v.version;
  current_node_id = v.current_node_id;
  started_at = v.started_at;
  completed_at = v.completed_at;
  updated_at = v.updated_at;
}

abbrev update_task_from : Option Task → Task → Action ⊤
update_task_from none v db = err internal
update_task_from (some old) v db =
    if nat_eq (old.version + 1) v.version
    then ok (tt, record db { tasks = put_row task_key (set_task old v) db.tasks })
    else err internal

unfoldable pub update_task : Task → Action ⊤
update_task v db = update_task_from (find_task v.task_id db) v db

unfoldable pub insert_node : TaskNode → Action ⊤
insert_node v db =
    if is_some (find_node v.node_id db)
      || not (is_some (find_task v.task_id db))
      || any (λ n. n.task_id == v.task_id && nat_eq n.sequence_no v.sequence_no) db.nodes
    then err internal
    else ok (tt, record db { nodes = db.nodes ++ v ∷ [] })

abbrev pub set_node : TaskNode → TaskNode → TaskNode
set_node old v = record old {
  status = v.status;
  version = v.version;
  run_no = v.run_no;
  worker_ref = v.worker_ref;
  result_summary = v.result_summary;
  error_code = v.error_code;
  error_message = v.error_message;
  error_retryable = v.error_retryable;
  started_at = v.started_at;
  completed_at = v.completed_at;
  updated_at = v.updated_at;
}

abbrev update_node_from : Option TaskNode → TaskNode → Action ⊤
update_node_from none v db = err internal
update_node_from (some old) v db =
    if nat_eq (old.version + 1) v.version
    then ok (tt, record db { nodes = put_row node_key (set_node old v) db.nodes })
    else err internal

unfoldable pub update_node : TaskNode → Action ⊤
update_node v db = update_node_from (find_node v.node_id db) v db
