-- ===== src/Task/Store/Seen.antt =====
-- What the SELECT of a Task's nodes (packages/task-store-sqlite/src/index.ts) shows of the table.
use proflow.Base.{
  String, ◌≡◌, true, some, text_key, IsUnique, All, All-mono, All-kept, All-sort_by, All-get_row,
  keep-All, sort_by-All, get_row-All, ==_iff, ◌==◌,
}
use proflow.Task.Model.{TaskNode}
use proflow.Task.Store.{Db, node_key, find_node}
use proflow.Task.Store.Lists.{list_nodes}

module _ (id : String) (db : Db) (unique : IsUnique node_key db.nodes) where
  -- Each node that the list shows is the row of its id, and belongs to the Task.
  pub list_nodes-found :
      All (λ n. (find_node n.node_id db ≡ some n) × (n.task_id ≡ id)) (list_nodes id db)
  unfolding list_nodes
  list_nodes-found = All-sort_by _ _ _ (
      All-mono _ _ (λ n h. (h.0, (==_iff n.task_id id).0 h.1)) _
        (All-kept _ (λ n. n.task_id == id) db.nodes (All-get_row node_key db.nodes unique)))

  -- What holds of every node that the list shows holds of every row of the Task.
  pub list_nodes-All :
      (P : TaskNode → Type 0)
      → All P (list_nodes id db)
      → (k : String) (n : TaskNode) → find_node k db ≡ some n
      → n.task_id ≡ id
      → P n
  unfolding list_nodes
  list_nodes-All P h k n found e =
      get_row-All node_key (λ n. (n.task_id == id) ≡ true → P n) k db.nodes n
        (keep-All P (λ n. n.task_id == id) db.nodes (sort_by-All P _ _ h)) found
        ((==_iff n.task_id id).1 e)
