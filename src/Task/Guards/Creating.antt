-- ===== src/Task/Guards/Creating.antt =====
-- `createTask`: the rows of the plan.
use proflow.Base.{
  String, ℕ, ◌+◌, ◌≡◌, refl, sym, ◌∙◌, ap, List, [], ◌∷◌, ◌++◌, none, some, arith, text_key,
}
use proflow.Task.Model.{Task, NodeStatus, TaskNode, NewEvent}
use proflow.Task.Errors.{ok, >>=-eq-ok}
use proflow.Task.Requests.{
  Env, CreateTaskInput, CreateTaskResult, PlanNodeInput, RoleBindingView, InitialDocument,
}
use proflow.Task.Store.{Db, ⊤, find_task}
use proflow.Task.Store.Rows.{insert_task, insert_node}
use proflow.Task.Store.Logs.{upsert_binding, upsert_document, insert_event}
use proflow.Task.Steps.Loops.{Keeps, Keeps->>, for_each-Keeps, with_result}
use proflow.Task.Command.{DocumentPath}
use proflow.Task.Commands.Create.{
  planned_node, insert_plan, insert_role_binding, index_document, new_task, create_rows,
  create_task, created_event,
}

-- The nodes of a plan: each at the place after the node before it, the first one at `first`.
abbrev planned : Env → String → ℕ → List PlanNodeInput → List TaskNode
planned env task_id first [] = []
planned env task_id first (item ∷ items) =
    planned_node env task_id first item ∷ planned env task_id (first + 1) items

abbrev nodes_of : Db → List TaskNode
nodes_of db = db.nodes

append_assoc :
    (xs : List TaskNode) (y : TaskNode) (zs : List TaskNode) → (xs ++ y ∷ []) ++ zs ≡ xs ++ y ∷ zs
append_assoc [] y zs = refl
append_assoc (x ∷ xs) y zs = ap (λ r. x ∷ r) (append_assoc xs y zs)

insert_node-nodes :
    (n : TaskNode) (db db' : Db) (u : ⊤)
    → insert_node n db ≡ ok (u, db')
    → db'.nodes ≡ db.nodes ++ n ∷ []
unfolding insert_node
insert_node-nodes n db db' u h = ground arith

insert_task-nodes :
    (v : Task) (db db' : Db) (u : ⊤)
    → insert_task v db ≡ ok (u, db')
    → (find_task v.task_id db ≡ none) × (db'.nodes ≡ db.nodes)
unfolding insert_task
insert_task-nodes v db db' u h = ground arith

module _ (env : Env) where
  insert_plan-planned :
      (id : String) (index : ℕ) (plan : List PlanNodeInput) (db db' : Db) (u : ⊤)
      → insert_plan env id index plan db ≡ ok (u, db')
      → db'.nodes ≡ db.nodes ++ planned env id (index + 1) plan
  unfolding insert_plan
  insert_plan-planned id index [] db db' u h = append_nil db.nodes db'.nodes (ground (arith, h))
    where
      append_nil : (xs ys : List TaskNode) → ys ≡ xs → ys ≡ xs ++ []
      append_nil xs ys e = rw e (sym (nil_right xs))
        where
          nil_right : (zs : List TaskNode) → zs ++ [] ≡ zs
          nil_right [] = refl
          nil_right (z ∷ zs) = ap (λ r. z ∷ r) (nil_right zs)
  insert_plan-planned id index (item ∷ plan) db db' u h =
      let (v, db1, first, rest) =
        >>=-eq-ok (insert_node (planned_node env id (index + 1) item))
          (λ _. insert_plan env id (index + 1) plan) db (u, db') h in
      insert_plan-planned id (index + 1) plan db1 db' u rest
      ∙ ap (λ xs. xs ++ planned env id (index + 1 + 1) plan)
          (insert_node-nodes (planned_node env id (index + 1) item) db db1 v first)
      ∙ append_assoc db.nodes (planned_node env id (index + 1) item) _

  insert_role_binding-Keeps :
      (id : String) (b : RoleBindingView) → Keeps nodes_of (insert_role_binding env id b)
  unfolding insert_role_binding upsert_binding
  insert_role_binding-Keeps id b db db' u h = ground arith

  index_document-Keeps :
      (path : DocumentPath) (input : CreateTaskInput) (d : InitialDocument)
      → Keeps nodes_of (index_document env path input d)
  unfolding index_document upsert_document
  index_document-Keeps path input d db db' u h = ground arith

  insert_event-Keeps : (e : NewEvent) → Keeps nodes_of (insert_event e)
  unfolding insert_event
  insert_event-Keeps e db db' u h = ground arith

  create_rows-planned :
      (path : DocumentPath) (input : CreateTaskInput) (db db' : Db) (u : ⊤)
      → create_rows env path input db ≡ ok (u, db')
      → db'.nodes ≡ db.nodes ++ planned env input.task_id 1 input.plan
  unfolding create_rows
  create_rows-planned path input db db' u h =
      let (v, db1, first, rest) =
        >>=-eq-ok (insert_plan env input.task_id 0 input.plan) _ db (u, db') h in
      Keeps->> nodes_of _ _
        (for_each-Keeps nodes_of _ (insert_role_binding-Keeps input.task_id) input.role_bindings)
        (Keeps->> nodes_of _ _
          (for_each-Keeps nodes_of _ (index_document-Keeps path input) input.initial_documents)
          (insert_event-Keeps (created_event env input)))
        db1 db' u rest
      ∙ insert_plan-planned input.task_id 0 input.plan db db1 v first

  -- The row of an item of the plan: a PENDING node of the Task at its place, in its first version and
  -- run, with what the item says and nobody at work on it.
  pub record IsPlanned (task_id : String) (place : ℕ) (item : PlanNodeInput) (n : TaskNode)
      : Type 0 where
    pub own_id : (id : String) → item.node_id ≡ some id → n.node_id ≡ id
    pub fresh_id : item.node_id ≡ none → n.node_id ≡ env.create_id "node" place
    pub of_task : n.task_id ≡ task_id
    pub at : n.sequence_no ≡ place
    pub status : n.status ≡ NodeStatus.pending
    pub version : n.version ≡ 1
    pub run_no : n.run_no ≡ 1
    pub title : n.title ≡ item.title
    pub objective : n.objective ≡ item.objective
    pub agent_package : n.required_agent_package_ref ≡ item.required_agent_package_ref
    pub inputs : n.input_documents ≡ item.input_documents
    pub outputs : n.output_documents ≡ item.output_documents
    pub nobody : n.worker_ref ≡ none
    pub not_started : n.started_at ≡ none
    pub not_completed : n.completed_at ≡ none

  -- One row for each item, in the order of the plan, the first one at the place.
  abbrev pub PlannedFrom : String → ℕ → List PlanNodeInput → List TaskNode → Type 0
  PlannedFrom id place [] [] = Unit
  PlannedFrom id place (item ∷ items) (n ∷ ns) =
      IsPlanned id place item n × PlannedFrom id (place + 1) items ns
  PlannedFrom id place _ _ = ⊥

  planned_node-IsPlanned :
      (id : String) (place : ℕ) (item : PlanNodeInput)
      → IsPlanned id place item (planned_node env id place item)
  planned_node-IsPlanned id place item = record {
    own_id = λ own e. rw e refl;
    fresh_id = λ e. rw e refl;
    of_task = refl;
    at = refl;
    status = refl;
    version = refl;
    run_no = refl;
    title = refl;
    objective = refl;
    agent_package = refl;
    inputs = refl;
    outputs = refl;
    nobody = refl;
    not_started = refl;
    not_completed = refl;
  }

  planned-PlannedFrom :
      (id : String) (place : ℕ) (items : List PlanNodeInput)
      → PlannedFrom id place items (planned env id place items)
  planned-PlannedFrom id place [] = tt
  planned-PlannedFrom id place (item ∷ items) =
      (planned_node-IsPlanned id place item, planned-PlannedFrom id (place + 1) items)

  -- `createTask` succeeds only where no Task has the id, and adds behind the other rows one node for
  -- each item of the plan, in its order: PENDING, numbered from 1, in its first version and run, under
  -- the item's id or a fresh one, with the item's title, objective, package and documents.
  pub create_task-planned :
      (path : DocumentPath) (input : CreateTaskInput) (db db' : Db) (r : CreateTaskResult)
      → create_task env path input db ≡ ok (r, db')
      → (find_task input.task_id db ≡ none)
        × ((added : List TaskNode) × (db'.nodes ≡ db.nodes ++ added)
            × PlannedFrom input.task_id 1 input.plan added)
  unfolding create_task
  create_task-planned path input db db' r h =
      with_result (insert_task (new_task env input) db) (ground (arith, h)) (λ (u, db1) inserted.
        let (absent, kept) = insert_task-nodes (new_task env input) db db1 u inserted in
        (
          absent,
          (
            planned env input.task_id 1 input.plan,
            create_rows-planned path input db1 db' tt (ground (arith, h, inserted))
                ∙ ap (λ xs. xs ++ planned env input.task_id 1 input.plan) kept,
            planned-PlannedFrom input.task_id 1 input.plan,
          ),
        ))
