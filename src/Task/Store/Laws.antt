-- ===== src/Task/Store/Laws.antt =====
-- What a successful write has found and what it leaves: one lemma for each repository write.
use proflow.Base.{◌+◌, ◌≡◌, some, arith, put_row, text_key, pair_key}
use proflow.Task.Model.{TaskGroup, Task, TaskNode}
use proflow.Task.Errors.{ok}
use proflow.Task.Store.{Db, ⊤, group_key, task_key, node_key, find_group, find_task, find_node}
use proflow.Task.Store.Rows.{set_group, set_task, set_node, update_group, update_task, update_node}

module _ (db db' : Db) (u : ⊤) where
  pub record TaskWritten (v : Task) : Type 0 where
    pub old : Task
    pub found : find_task v.task_id db ≡ some old
    pub next : old.version + 1 ≡ v.version
    pub written : db' ≡ record db { tasks = put_row task_key (set_task old v) db.tasks }

  pub update_task-TaskWritten : (v : Task) → update_task v db ≡ ok (u, db') → TaskWritten v
  unfolding update_task
  update_task-TaskWritten v h = ground arith

  pub record NodeWritten (v : TaskNode) : Type 0 where
    pub old : TaskNode
    pub found : find_node v.node_id db ≡ some old
    pub next : old.version + 1 ≡ v.version
    pub written : db' ≡ record db { nodes = put_row node_key (set_node old v) db.nodes }

  pub update_node-NodeWritten : (v : TaskNode) → update_node v db ≡ ok (u, db') → NodeWritten v
  unfolding update_node
  update_node-NodeWritten v h = ground arith

  pub record GroupWritten (v : TaskGroup) : Type 0 where
    pub old : TaskGroup
    pub found : find_group v.task_group_id db ≡ some old
    pub next : old.version + 1 ≡ v.version
    pub written :
        db' ≡ record db { task_groups = put_row group_key (set_group old v) db.task_groups }

  pub update_group-GroupWritten : (v : TaskGroup) → update_group v db ≡ ok (u, db') → GroupWritten v
  unfolding update_group
  update_group-GroupWritten v h = ground arith
