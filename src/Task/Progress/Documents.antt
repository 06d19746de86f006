-- ===== src/Task/Progress/Documents.antt =====
-- What `putTaskDocument` does to the task table.
use proflow.Base.{
  String, ◌≡◌, refl, ap, ◌∙◌, subst, inl, false, Option, none, some, arith, text_key,
}
use proflow.Task.Model.{Task, TaskDocument, NewEvent}
use proflow.Task.Errors.{ok}
use proflow.Task.Requests.{Env, PutDocumentInput, DocumentResult}
use proflow.Task.Store.{Db, ⊤, find_task}
use proflow.Task.Store.Rows.{update_task}
use proflow.Task.Store.Logs.{upsert_document, insert_event}
use proflow.Task.Store.Laws.{update_task-TaskWritten}
use proflow.Task.Readiness.{recompute_readiness}
use proflow.Task.Steps.{require_task, require_node, check_version}
use proflow.Task.Steps.Loops.{Keeps, with_found, with_result}
use proflow.Task.Commands.Groups.{update_if_readied}
use proflow.Task.Commands.Bind.{touched}
use proflow.Task.Commands.Documents.{
  put_document, put_event, ensure_type, check_node, write_document, put_task_document,
}
use proflow.Task.Progress.{Evolves, same, touch, Evolves-trans}
use proflow.Task.Progress.Loops.{tasks_of}
use proflow.Task.Progress.Create.{insert_event-Keeps}
use proflow.Task.Progress.Readied.{update_if_readied-Evolves}
use proflow.Task.Progress.Groups.{read_again, update_task-found}

upsert_document-Keeps : (v : TaskDocument) → Keeps tasks_of (upsert_document v)
unfolding upsert_document
upsert_document-Keeps v db db' u h = ground arith

check_node-Keeps : (id : String) (node : Option String) → Keeps (λ d. d) (check_node id node)
unfolding check_node require_node
check_node-Keeps id none db db' u h = ground arith
check_node-Keeps id (some n) db db' u h = ground arith

module _ (env : Env) (db db' : Db) where
  update_task-touched :
      (task : Task) (u : ⊤)
      → find_task task.task_id db ≡ some task
      → update_task (touched env task) db ≡ ok (u, db')
      → Evolves false db.tasks db'.tasks
  update_task-touched task u found written =
      let w = update_task-TaskWritten db db' u (touched env task) written in
      let same_old : w.old ≡ task = ground (arith, w.found, found) in
      touch task (touched env task) (same refl) found (env.now, refl)
        (ap tasks_of w.written ∙ rw same_old refl)

  written-Evolves :
      (task : Task) (db1 db2 db3 : Db) (v : TaskDocument) (e : NewEvent) (u w x : ⊤)
      → find_task task.task_id db ≡ some task
      → Evolves false db.tasks db1.tasks
      → update_task (touched env task) db ≡ ok (u, db1)
      → upsert_document v db1 ≡ ok (w, db2)
      → update_if_readied (touched env task) (recompute_readiness env db2 (touched env task)) db2
        ≡ ok (x, db3)
      → insert_event e db3 ≡ ok (tt, db')
      → Evolves false db.tasks db'.tasks
  written-Evolves task db1 db2 db3 v e u w x found first written upserted readied told =
      let kept = upsert_document-Keeps v db1 db2 w upserted in
      let last = insert_event-Keeps e db3 db' tt told in
      Evolves-trans first (
        subst (λ ts. Evolves false ts db'.tasks) kept
          (Evolves-trans
            (update_if_readied-Evolves env (touched env task) db2 db2 db3 x readied (
              touched env task,
              rw kept (update_task-found db db1 u task (touched env task) found refl written),
              inl refl,
            ))
            (same last)))

module _ (env : Env) (path : String → String → String) (db db' : Db) where
  write_document-Evolves :
      (input : PutDocumentInput) (task r : Task)
      → find_task task.task_id db ≡ some task
      → write_document env path input task db ≡ ok (r, db')
      → Evolves false db.tasks db'.tasks
  unfolding write_document
  write_document-Evolves input task r found h =
      with_result (update_task (touched env task) db) (ground arith) (λ (u, db1) written.
        with_result (upsert_document (put_document env path input task) db1) (ground arith)
          (λ (w, db2) upserted.
            with_result
              (update_if_readied (touched env task) (recompute_readiness env db2 (touched env task))
                db2)
              (ground arith)
              (λ (x, db3) readied.
                written-Evolves env db db' task db1 db2 db3 (put_document env path input task)
                  (put_event env input task (recompute_readiness env db2 (touched env task))) u w x
                  found (update_task-touched env db db1 task u found written) written upserted
                  readied (ground arith))))

  pub put_task_document-Evolves :
      (input : PutDocumentInput) (r : DocumentResult)
      → put_task_document env path input db ≡ ok (r, db')
      → Evolves false db.tasks db'.tasks
  unfolding put_task_document require_task check_version ensure_type
  put_task_document-Evolves input r h =
      with_found (find_task input.task_id db) (ground arith) (λ task found.
        with_result (check_node task.task_id input.node_id db) (ground arith) (λ (u, db1) checked.
          let kept = check_node-Keeps task.task_id input.node_id db db1 u checked in
          with_result (write_document env path input task db) (ground (arith, h, kept, checked))
            (λ (v, db2) wrote.
              let last : db2 ≡ db' = ground (arith, h, kept, checked, wrote) in
              write_document-Evolves input task v (read_again input.task_id db task found)
                (rw last at wrote))))
