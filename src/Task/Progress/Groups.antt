-- ===== src/Task/Progress/Groups.antt =====
-- The moves of `bindTaskWorker`, `startTaskGroup`, `completeNode` and `createTask`.
use proflow.Base.{
  String, ◌≡◌, refl, sym, ap, ◌∙◌, subst, ◌⊎◌, inl, inr, Bool, false, Option, none, some, arith,
  put_row, get_row-key, get_row-put_row, text_key, pair_key, find, All-sort_by, All-find, IsUnique,
  Option-cases,
}
use proflow.Task.Model.{
  Task, TaskStatus, TaskGroup, TaskNode, TaskRoleBinding, NodeExecutionHistory,
}
use proflow.Task.Transitions.{task_transition}
use proflow.Task.Errors.{ok, >>=-eq-ok}
use proflow.Task.Requests.{
  Env, BindInput, BindTaskWorkerResult, StartGroupInput, CompleteInput, CompleteNodeResult,
}
use proflow.Task.Store.{Db, ⊤, find_task, find_node, find_group, find_binding, group_key, task_key}
use proflow.Task.Store.Rows.{set_task, update_task, update_node, update_group}
use proflow.Task.Store.Logs.{upsert_binding, insert_history}
use proflow.Task.Store.Laws.{update_task-TaskWritten}
use proflow.Task.Store.Lists.{list_tasks_of, list_nodes}
use proflow.Task.Readiness.{is_terminal, recompute_readiness}
use proflow.Task.Steps.{require_task, require_node, check_version, for_each}
use proflow.Task.Steps.Loops.{
  Keeps, Keeps->>, for_each-Keeps, Yields, Yields->>, with_found, with_result,
}
use proflow.Task.Commands.Groups.{activated, members_of, update_if_readied, start_task_group}
use proflow.Task.Commands.Bind.{bound, touched, bind_anew, bind_task_worker}
use proflow.Task.Commands.Complete.{
  is_next_task, check_output, advance, closed, ready_next_task, close_group, group_of, finish_group,
  completed, completed_run, is_next, complete_run, complete_node,
}
use proflow.Task.Progress.{Moves, Evolves, same, move, Evolves-trans, Evolves-IsUnique}
use proflow.Task.Progress.Loops.{tasks_of, update_node-Keeps}
use proflow.Task.Progress.Readied.{
  IsSeen, list_tasks_of-IsSeen, update_if_readied-Evolves, ready_members-Evolves,
}

-- One row written, and then readiness computed for the row that was written.
pub read_again :
    (id : String) (db : Db) (task : Task)
    → find_task id db ≡ some task
    → find_task task.task_id db ≡ some task
read_again id db task found =
    subst (λ k. find_task k db ≡ some task) (sym (get_row-key task_key id db.tasks task found))
      found

module _ (db db' : Db) (u : ⊤) (task v : Task) (found : find_task task.task_id db ≡ some task) where
  update_task-Evolves :
      {reopens : Bool}
      → Moves reopens task v
      → update_task v db ≡ ok (u, db')
      → Evolves reopens db.tasks db'.tasks
  update_task-Evolves moves written =
      let w = update_task-TaskWritten db db' u v written in
      let same_old : w.old ≡ task = ground (arith, w.found, found, moves.same_id) in
      move task (set_task task v) (same refl) found (ground (arith, moves))
        (ap tasks_of w.written ∙ rw same_old)

  pub update_task-found :
      v.task_id ≡ task.task_id
      → update_task v db ≡ ok (u, db')
      → find_task task.task_id db' ≡ some (set_task task v)
  unfolding update_task
  update_task-found e written =
      ground (arith, get_row-put_row task_key task.task_id (set_task task v) db.tasks)

upsert_binding-Keeps : (b : TaskRoleBinding) → Keeps tasks_of (upsert_binding b)
unfolding upsert_binding
upsert_binding-Keeps b db db' u h = ground arith

update_group-Keeps : (g : TaskGroup) → Keeps tasks_of (update_group g)
unfolding update_group
update_group-Keeps g db db' u h = ground arith

module _ (env : Env) (db db' : Db) where
  pub start_task_group-Evolves :
      (input : StartGroupInput) (r : TaskGroup × Option String)
      → IsUnique task_key db.tasks
      → start_task_group env input db ≡ ok (r, db')
      → Evolves false db.tasks db'.tasks
  unfolding start_task_group check_version update_group members_of list_tasks_of
  start_task_group-Evolves input r unique h =
      with_found (find_group input.task_group_id db) (ground arith) (λ g found.
        let key : g.task_group_id ≡ input.task_group_id =
          get_row-key group_key input.task_group_id db.task_groups g found in
        let db1 = record db { task_groups = put_row group_key (activated env g) db.task_groups } in
        ready_members-Evolves env none (members_of g.task_group_id db1) db1 db' r.1
          (All-sort_by _ _ _ (list_tasks_of-IsSeen g.task_group_id db unique))
          (ground (arith, h, found, key)))

  ready_next_task-Evolves :
      (next : Option Task) (u : ⊤)
      → ((t : Task) → next ≡ some t → IsSeen db.tasks t)
      → ready_next_task env next db ≡ ok (u, db')
      → Evolves false db.tasks db'.tasks
  unfolding ready_next_task
  ready_next_task-Evolves none u seen h = same (ground arith)
  ready_next_task-Evolves (some t) u seen h =
      update_if_readied-Evolves env t db db db' u h (seen t refl)

module _ (env : Env) (db db' : Db) (task v : Task) (u : ⊤) where
  close_group-Evolves :
      (group : Option TaskGroup)
      → IsUnique task_key db.tasks
      → close_group env task group db ≡ ok (u, db')
      → Evolves false db.tasks db'.tasks
  unfolding close_group
  close_group-Evolves none unique h = same (ground arith)
  close_group-Evolves (some g) unique h =
      let (_, db1, first, rest) =
        >>=-eq-ok
          (ready_next_task env (find (is_next_task task) (list_tasks_of g.task_group_id db)))
          (λ _. update_group (closed env task g (list_tasks_of g.task_group_id db))) db (u, db')
          h in
      subst (Evolves false db.tasks) (sym (update_group-Keeps _ db1 db' u rest)) (
        ready_next_task-Evolves env db db1 _ _
          (λ t e.
            (All-find (IsSeen db.tasks) (is_next_task task) (list_tasks_of g.task_group_id db) t
              (list_tasks_of-IsSeen g.task_group_id db unique) e).0)
          first)

  pub finish_group-Evolves :
      IsUnique task_key db.tasks
      → finish_group env task v db ≡ ok (u, db')
      → Evolves false db.tasks db'.tasks
  unfolding finish_group
  finish_group-Evolves unique h = elim (Option-cases (group_of task)) [
    | inl alone ↦ same (ground arith)
    | inr (id, e) ↦ elim (in_group id e) [
      | inl kept ↦ same kept
      | inr done ↦ close_group-Evolves (find_group id db) unique done
    ]
  ]
    where
      in_group :
          (id : String)
          → group_of task ≡ some id
          → (db'.tasks ≡ db.tasks) ⊎ (close_group env task (find_group id db) db ≡ ok (u, db'))
      in_group id e = ground arith

module _ (env : Env) where
  check_output-Keeps : (id type : String) → Keeps (λ d. d) (check_output env id type)
  unfolding check_output
  check_output-Keeps id type db db' u h = ground arith

  insert_history-Keeps : (r : NodeExecutionHistory) → Keeps tasks_of (insert_history r)
  unfolding insert_history
  insert_history-Keeps r db db' u h = ground arith

  advance-Keeps : (task : Task) (next : Option TaskNode) → Keeps tasks_of (advance env task next)
  unfolding advance update_node
  advance-Keeps task none db db' u h = ground arith
  advance-Keeps task (some n) db db' u h = ground arith

  complete_run-Keeps :
      (input : CompleteInput) (task : Task) (node : TaskNode)
      → Keeps tasks_of (complete_run env input task node)
  unfolding complete_run
  complete_run-Keeps input task node =
      Keeps->> tasks_of _ _
        (λ db db' u h. ap tasks_of (
          for_each-Keeps (λ d. d) _ (check_output-Keeps task.task_id) node.output_documents db db' u
            h))
        (Keeps->> tasks_of _ _ (update_node-Keeps env _)
          (Keeps->> tasks_of _ _ (insert_history-Keeps _) (λ db. advance-Keeps task _ db)))

  advance-Moves :
      (task : Task) (next : Option TaskNode)
      → task.status ≡ TaskStatus.active
      → Yields (Moves false task) (advance env task next)
  unfolding advance task_transition update_node
  advance-Moves task none active db db' v h = ground arith
  advance-Moves task (some n) active db db' v h = ground arith

  complete_run-Moves :
      (input : CompleteInput) (task : Task) (node : TaskNode)
      → task.status ≡ TaskStatus.active
      → Yields (Moves false task) (complete_run env input task node)
  unfolding complete_run
  complete_run-Moves input task node active =
      Yields->> _ (for_each node.output_documents (check_output env task.task_id)) _ (
        Yields->> _ (update_node (completed env input node)) _ (
          Yields->> _ (insert_history (completed_run env input node)) _ (λ db.
            advance-Moves task (find (is_next node) (list_nodes task.task_id db)) active db)))

module _ (env : Env) (db db' : Db) where
  -- `completeNode` behind its guards.
  completed-Evolves :
      (input : CompleteInput) (task v : Task) (node : TaskNode) (db1 db2 : Db) (u : ⊤)
      → IsUnique task_key db.tasks
      → find_task task.task_id db ≡ some task
      → task.status ≡ TaskStatus.active
      → complete_run env input task node db ≡ ok (v, db1)
      → update_task v db1 ≡ ok (u, db2)
      → finish_group env task v db2 ≡ ok (tt, db')
      → Evolves false db.tasks db'.tasks
  completed-Evolves input task v node db1 db2 u unique found active run written finished =
      let kept = complete_run-Keeps env input task node db db1 v run in
      let moves = complete_run-Moves env input task node active db db1 v run in
      let first : Evolves false db.tasks db2.tasks =
        subst (λ ts. Evolves false ts db2.tasks) kept
          (update_task-Evolves db1 db2 u task v (rw kept found) moves written) in
      Evolves-trans first
        (finish_group-Evolves env db2 db' task v tt (Evolves-IsUnique first unique) finished)

  pub complete_node-Evolves :
      (input : CompleteInput) (r : CompleteNodeResult)
      → IsUnique task_key db.tasks
      → complete_node env input db ≡ ok (r, db')
      → Evolves false db.tasks db'.tasks
  unfolding complete_node require_task require_node check_version
  complete_node-Evolves input r unique h =
      with_found (find_task input.task_id db) (ground arith) (λ task found.
        with_found (find_node input.node_id db) (ground arith) (λ node found_node.
          with_result (complete_run env input task node db) (ground arith) (λ (v, db1) run.
            with_result (update_task v db1) (ground arith) (λ (u, db2) written.
              completed-Evolves input task v node db1 db2 u unique
                (read_again input.task_id db task found) (ground arith) run written
                (ground arith)))))

  bound-Evolves :
      (input : BindInput) (task : Task) (old : TaskRoleBinding) (db1 db2 : Db) (u w : ⊤)
      → find_task task.task_id db ≡ some task
      → is_terminal task.status ≡ false
      → upsert_binding (bound env input old) db ≡ ok (u, db1)
      → update_task (touched env task) db1 ≡ ok (w, db2)
      → update_if_readied (touched env task) (recompute_readiness env db2 (touched env task)) db2
        ≡ ok (tt, db')
      → Evolves false db.tasks db'.tasks
  bound-Evolves input task old db1 db2 u w found unfinished upserted written readied =
      let kept = upsert_binding-Keeps (bound env input old) db db1 u upserted in
      let found1 : find_task task.task_id db1 ≡ some task = rw kept found in
      let first : Evolves false db.tasks db2.tasks =
        subst (λ ts. Evolves false ts db2.tasks) kept
          (update_task-Evolves db1 db2 w task (touched env task) found1 (ground arith) written) in
      Evolves-trans first (
        update_if_readied-Evolves env (touched env task) db2 db2 db' tt readied (
          touched env task,
          update_task-found db1 db2 w task (touched env task) found1 refl written,
          inl refl,
        ))

  pub bind_anew-Evolves :
      (input : BindInput) (task : Task) (old : TaskRoleBinding) (r : BindTaskWorkerResult)
      → find_task task.task_id db ≡ some task
      → is_terminal task.status ≡ false
      → bind_anew env input task old db ≡ ok (r, db')
      → Evolves false db.tasks db'.tasks
  unfolding bind_anew
  bind_anew-Evolves input task old r found unfinished h =
      with_result (upsert_binding (bound env input old) db) (ground arith) (λ (u, db1) upserted.
        with_result (update_task (touched env task) db1) (ground arith) (λ (w, db2) written.
          bound-Evolves input task old db1 db2 u w found unfinished upserted written
            (ground arith)))

  pub bind_task_worker-Evolves :
      (input : BindInput) (r : BindTaskWorkerResult)
      → bind_task_worker env input db ≡ ok (r, db')
      → Evolves false db.tasks db'.tasks
  unfolding bind_task_worker require_task check_version
  bind_task_worker-Evolves input r h =
      with_found (find_task input.task_id db) (ground arith) (λ task found.
        with_found (find_binding task.task_id input.agent_package_ref db) (ground arith)
          (λ old found_old. elim (split task old found found_old) [
            | inl kept ↦ same kept
            | inr (unfinished, anew) ↦
                bind_anew-Evolves input task old r (read_again input.task_id db task found)
                  unfinished anew
          ]))
    where
      split :
          (task : Task) (old : TaskRoleBinding)
          → find_task input.task_id db ≡ some task
          → find_binding task.task_id input.agent_package_ref db ≡ some old
          → (db'.tasks ≡ db.tasks)
            ⊎ ((is_terminal task.status ≡ false) × (bind_anew env input task old db ≡ ok (r, db')))
      split task old found found_old = ground arith
