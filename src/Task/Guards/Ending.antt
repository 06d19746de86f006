-- ===== src/Task/Guards/Ending.antt =====
-- `terminateTask`: no node of the Task is left open.
use proflow.Base.{
  String, ◌+◌, ◌≡◌, refl, sym, ap, ◌∙◌, ◌⊎◌, inl, inr, true, false, List, [], ◌∷◌, some, arith,
  text_key, get_row-key, put_row, get_row-put_row, text_dec, Bool-cases, All, All-mono, IsUnique,
}
use proflow.Task.Model.{Task, NodeStatus, TaskNode}
use proflow.Task.Errors.{ok, >>=-eq-ok}
use proflow.Task.Requests.{Env, ReasonInput}
use proflow.Task.Store.{Db, ⊤, find_task, find_node, node_key, task_key}
use proflow.Task.Store.Rows.{set_node, update_task, update_node}
use proflow.Task.Store.Logs.{insert_history}
use proflow.Task.Store.Lists.{list_nodes}
use proflow.Task.Store.Laws.{update_node-NodeWritten}
use proflow.Task.Store.Seen.{list_nodes-found, list_nodes-All}
use proflow.Task.Steps.{
  require_task, check_version, for_each, preserve_run_history, is_node_terminal,
}
use proflow.Task.Steps.Loops.{Keeps, with_found, with_result}
use proflow.Task.Commands.Lifecycle.{terminate_node, terminate_task}

-- The node's row has come to an end.
abbrev pub HasEnded : Db → TaskNode → Type 0
HasEnded db n =
    (row : TaskNode) × (find_node n.node_id db ≡ some row) × (is_node_terminal row.status ≡ true)

abbrev IsHeld : Db → TaskNode → Type 0
IsHeld db n = (find_node n.node_id db ≡ some n) ⊎ HasEnded db n

abbrev nodes_of : Db → List TaskNode
nodes_of db = db.nodes

module _ (env : Env) where
  abbrev ended : TaskNode → TaskNode
  ended n = record n {
    status = NodeStatus.terminated;
    version = n.version + 1;
    completed_at = some env.now;
    updated_at = env.now;
  }

  preserve-Keeps :
      (n : TaskNode) (s : NodeStatus) (at : String) → Keeps nodes_of (preserve_run_history n s at)
  unfolding preserve_run_history insert_history
  preserve-Keeps n s at db db' u h = ground arith

  record Written (n : TaskNode) (db db' : Db) : Type 0 where
    old : TaskNode
    found : find_node n.node_id db ≡ some old
    key : old.node_id ≡ n.node_id
    rows : db'.nodes ≡ put_row node_key (set_node old (ended n)) db.nodes

  terminate_node-Written :
      (n : TaskNode) (db db' : Db) (u : ⊤)
      → is_node_terminal n.status ≡ false
      → terminate_node env n db ≡ ok (u, db')
      → Written n db db'
  unfolding terminate_node
  terminate_node-Written n db db' u unended h =
      let (v, db1, first, rest) =
        >>=-eq-ok (preserve_run_history n NodeStatus.terminated env.now)
          (λ _. update_node (ended n)) db (u, db') (rw unended at h) in
      let kept = preserve-Keeps n NodeStatus.terminated env.now db db1 v first in
      let w = update_node-NodeWritten db1 db' u (ended n) rest in
      record {
        old = w.old;
        found = rw (sym kept) w.found;
        key = get_row-key node_key n.node_id db1.nodes w.old w.found;
        rows = ap nodes_of w.written ∙ rw kept refl;
      }

  Written-row :
      (n m : TaskNode) (db db' : Db)
      → Written n db db'
      → HasEnded db' m ⊎ (find_node m.node_id db' ≡ find_node m.node_id db)
  Written-row n m db db' w =
      let lookup = get_row-put_row node_key m.node_id (set_node w.old (ended n)) db.nodes in
      elim (text_dec n.node_id m.node_id) [
        | yes e ↦ inl (
          set_node w.old (ended n),
          rw (w.rows, lookup) (ground (arith, e, w.found, w.key)),
          refl,
        )
        | no e ↦ inr (rw (w.rows, lookup) (ground (arith, e, w.key)))
      ]

  Written-HasEnded : (n : TaskNode) (db db' : Db) → Written n db db' → HasEnded db' n
  Written-HasEnded n db db' w =
      let lookup = get_row-put_row node_key n.node_id (set_node w.old (ended n)) db.nodes in
      (set_node w.old (ended n), rw (w.rows, lookup) (ground (arith, w.found)), refl)

  terminate_node-row :
      (n m : TaskNode) (db db' : Db) (u : ⊤)
      → terminate_node env n db ≡ ok (u, db')
      → HasEnded db' m ⊎ (find_node m.node_id db' ≡ find_node m.node_id db)
  unfolding terminate_node
  terminate_node-row n m db db' u h = elim (Bool-cases (is_node_terminal n.status)) [
    | inl e ↦ let same_db : db' ≡ db = ground (arith, h, e) in inr (rw same_db refl)
    | inr e ↦ Written-row n m db db' (terminate_node-Written n db db' u e h)
  ]

  terminate_node-IsHeld :
      (n m : TaskNode) (db db' : Db) (u : ⊤)
      → terminate_node env n db ≡ ok (u, db')
      → IsHeld db m
      → IsHeld db' m
  terminate_node-IsHeld n m db db' u h held = elim (terminate_node-row n m db db' u h) [
    | inl over ↦ inr over
    | inr e ↦ rw e held
  ]

  terminate_node-HasEnded :
      (n : TaskNode) (db db' : Db) (u : ⊤)
      → terminate_node env n db ≡ ok (u, db')
      → IsHeld db n
      → HasEnded db' n
  unfolding terminate_node
  terminate_node-HasEnded n db db' u h held = elim (Bool-cases (is_node_terminal n.status)) [
    | inl e ↦
        let same_db : db' ≡ db = ground (arith, h, e) in
        rw same_db (elim held [ inl found ↦ (n, found, e) | inr over ↦ over ])
    | inr e ↦ Written-HasEnded n db db' (terminate_node-Written n db db' u e h)
  ]

  HasEnded-for_each :
      (ns : List TaskNode) (m : TaskNode) (db db' : Db) (u : ⊤)
      → for_each ns (terminate_node env) db ≡ ok (u, db')
      → HasEnded db m
      → HasEnded db' m
  unfolding for_each
  HasEnded-for_each [] m db db' u h over =
      let same_db : db' ≡ db = ground (arith, h) in rw same_db over
  HasEnded-for_each (n ∷ ns) m db db' u h over =
      let (v, db1, first, rest) =
        >>=-eq-ok (terminate_node env n) (λ _. for_each ns (terminate_node env)) db (u, db') h in
      HasEnded-for_each ns m db1 db' u rest (elim (terminate_node-row n m db db1 v first) [
        | inl ended_now ↦ ended_now
        | inr e ↦ rw e over
      ])

  for_each-HasEnded :
      (ns : List TaskNode) (db db' : Db) (u : ⊤)
      → for_each ns (terminate_node env) db ≡ ok (u, db')
      → All (IsHeld db) ns
      → All (HasEnded db') ns
  unfolding for_each
  for_each-HasEnded [] db db' u h held = tt
  for_each-HasEnded (n ∷ ns) db db' u h held =
      let (v, db1, first, rest) =
        >>=-eq-ok (terminate_node env n) (λ _. for_each ns (terminate_node env)) db (u, db') h in
      (
        HasEnded-for_each ns n db1 db' u rest (terminate_node-HasEnded n db db1 v first held.0),
        for_each-HasEnded ns db1 db' u rest (
            All-mono (IsHeld db) (IsHeld db1) (λ m. terminate_node-IsHeld n m db db1 v first) ns
              held.1),
      )

  -- After `terminateTask`, every node of the Task that the table had is at its end.
  pub terminate_task-HasEnded :
      (input : ReasonInput) (db db' : Db) (r : Task)
      → IsUnique node_key db.nodes
      → terminate_task env input db ≡ ok (r, db')
      → (k : String) (n : TaskNode) → find_node k db ≡ some n
      → n.task_id ≡ input.task_id
      → HasEnded db' n
  unfolding terminate_task require_task check_version update_task
  terminate_task-HasEnded input db db' r unique h k n found mine =
      with_found (find_task input.task_id db) (ground (arith, h)) (λ task found_task.
        let key = get_row-key task_key input.task_id db.tasks task found_task in
        with_result (for_each (list_nodes task.task_id db) (terminate_node env) db)
          (ground (arith, h, found_task))
          (λ (u, db1) looped.
            let kept : db'.nodes ≡ db1.nodes = ground (arith, h, found_task, looped) in
            let over =
              list_nodes-All task.task_id db unique (HasEnded db1)
                (for_each-HasEnded (list_nodes task.task_id db) db db1 u looped (
                  All-mono _ (IsHeld db) (λ m e. inl e.0) _
                    (list_nodes-found task.task_id db unique)))
                k n found (mine ∙ sym key) in
            (over.0, rw kept over.1, over.2)))
