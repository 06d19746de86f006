-- ===== src/Task/Progress/Create.antt =====
-- `createTask` adds one row, which is new.
use proflow.Base.{String, ℕ, ◌+◌, ◌≡◌, refl, ◌∙◌, false, List, [], ◌∷◌, ◌++◌, none, arith, text_key}
use proflow.Task.Model.{Task, NewEvent, TaskNode}
use proflow.Task.Errors.{ok}
use proflow.Task.Requests.{
  Env, CreateTaskInput, CreateTaskResult, PlanNodeInput, RoleBindingView, InitialDocument,
}
use proflow.Task.Store.{Db, ⊤, find_task}
use proflow.Task.Store.Rows.{insert_task, insert_node}
use proflow.Task.Store.Logs.{upsert_binding, upsert_document, insert_event}
use proflow.Task.Steps.Loops.{Keeps, Keeps->>, for_each-Keeps, with_result}
use proflow.Task.Commands.Create.{
  insert_plan, insert_role_binding, index_document, new_task, create_rows, create_task,
}
use proflow.Task.Progress.{Evolves, same, add}
use proflow.Task.Progress.Loops.{tasks_of}

insert_node-Keeps : (n : TaskNode) → Keeps tasks_of (insert_node n)
unfolding insert_node
insert_node-Keeps n db db' u h = ground arith

insert_task-added :
    (v : Task) (db db' : Db) (u : ⊤)
    → insert_task v db ≡ ok (u, db')
    → (find_task v.task_id db ≡ none) × (db'.tasks ≡ db.tasks ++ v ∷ [])
unfolding insert_task
insert_task-added v db db' u h = ground arith

pub insert_event-Keeps : (e : NewEvent) → Keeps tasks_of (insert_event e)
unfolding insert_event
insert_event-Keeps e db db' u h = ground arith

module _ (env : Env) where
  insert_plan-Keeps :
      (id : String) (index : ℕ) (plan : List PlanNodeInput)
      → Keeps tasks_of (insert_plan env id index plan)
  unfolding insert_plan
  insert_plan-Keeps id index [] = λ db db' u h. ground arith
  insert_plan-Keeps id index (item ∷ plan) =
      Keeps->> tasks_of _ _ (insert_node-Keeps _) (insert_plan-Keeps id (index + 1) plan)

  insert_role_binding-Keeps :
      (id : String) (b : RoleBindingView) → Keeps tasks_of (insert_role_binding env id b)
  unfolding insert_role_binding upsert_binding
  insert_role_binding-Keeps id b db db' u h = ground arith

  index_document-Keeps :
      (path : String → String → String) (input : CreateTaskInput) (d : InitialDocument)
      → Keeps tasks_of (index_document env path input d)
  unfolding index_document upsert_document
  index_document-Keeps path input d db db' u h = ground arith

  create_rows-Keeps :
      (path : String → String → String) (input : CreateTaskInput)
      → Keeps tasks_of (create_rows env path input)
  unfolding create_rows
  create_rows-Keeps path input =
      Keeps->> tasks_of _ _ (insert_plan-Keeps input.task_id 0 input.plan) (
        Keeps->> tasks_of _ _
          (for_each-Keeps tasks_of _ (insert_role_binding-Keeps input.task_id) _)
          (Keeps->> tasks_of _ _ (for_each-Keeps tasks_of _ (index_document-Keeps path input) _)
            (insert_event-Keeps _)))

  pub create_task-Evolves :
      (path : String → String → String) (input : CreateTaskInput) (db db' : Db)
      (r : CreateTaskResult)
      → create_task env path input db ≡ ok (r, db')
      → Evolves false db.tasks db'.tasks
  unfolding create_task
  create_task-Evolves path input db db' r h =
      with_result (insert_task (new_task env input) db) (ground (arith, h)) (λ (u, db1) inserted.
        let (absent, added) = insert_task-added (new_task env input) db db1 u inserted in
        let kept = create_rows-Keeps path input db1 db' tt (ground (arith, h, inserted)) in
        add (new_task env input) (same refl) absent (kept ∙ added))
