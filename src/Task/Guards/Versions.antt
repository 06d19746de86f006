-- ===== src/Task/Guards/Versions.antt =====
-- Optimistic locking: the version that a request names against the version of the Task's row.
use proflow.Base.{◌<◌, ◌≡◌, ◌≢◌, refl, subst, List, Option, none, some, arith, text_key, IsUnique}
use proflow.Task.Model.{Task}
use proflow.Task.Errors.{Result, ok, err, DomainError, >>=-eq-ok}
use proflow.Task.Requests.{
  Env, TaskControls, Request, create_task_group, start_task_group, create_task, bind_task_worker,
  start_task, pause_task, resume_task, terminate_task, start_node, complete_node, wait_node,
  fail_node, reopen_node, acknowledge_message, put_task_document, Response,
}
use proflow.Task.Store.{Db, task_key, find_task, find_record}
use proflow.Task.Steps.{require_task, require_node, check_version}
use proflow.Task.Commands.Bind
use proflow.Task.Commands.Lifecycle
use proflow.Task.Commands.Nodes
use proflow.Task.Commands.Complete
use proflow.Task.Commands.Reopen
use proflow.Task.Commands.Documents
use proflow.Task.Command.{DocumentPath, perform, perform_first, transact, commit, failure, command}
use proflow.Task.Command.Replay.{key_of}
use proflow.Task.Command.Sequences.{run, run-version}

-- The Task that a request names with `expectedTaskVersion`.
abbrev pub claim_of : Request → Option TaskControls
claim_of (bind_task_worker i) = some i.task_controls
claim_of (start_task i) = some i
claim_of (pause_task i) = some i.task_controls
claim_of (resume_task i) = some i
claim_of (terminate_task i) = some i.task_controls
claim_of (start_node i) = some i.task_controls
claim_of (complete_node i) = some i.node_controls.task_controls
claim_of (wait_node i) = some i.node_controls.task_controls
claim_of (fail_node i) = some i.node_controls.task_controls
claim_of (reopen_node i) = some i.task_controls
claim_of (put_task_document i) = some i.task_controls
claim_of _ = none

-- The row has the version that the request names, if it names one.
abbrev pub IsCurrent : Option TaskControls → Db → Type 0
IsCurrent none db = Unit
IsCurrent (some c) db =
    (t : Task) × (find_task c.task_id db ≡ some t) × (t.version ≡ c.expected_task_version)

module _ (env : Env) (path : DocumentPath) (db : Db) where
  -- A command that names a version of a Task succeeds only where the row has that version.
  pub perform-IsCurrent :
      (request : Request) (r : Response) (db' : Db)
      → perform env path request db ≡ ok (r, db')
      → IsCurrent (claim_of request) db
  unfolding perform Bind.bind_task_worker Lifecycle.start_task Lifecycle.pause_task
      Lifecycle.resume_task Lifecycle.terminate_task Nodes.start_node Complete.complete_node
      Nodes.wait_node Nodes.fail_node Reopen.reopen_node Documents.put_task_document require_task
      require_node check_version
  perform-IsCurrent (create_task_group i) r db' h = tt
  perform-IsCurrent (start_task_group i) r db' h = tt
  perform-IsCurrent (create_task i) r db' h = tt
  perform-IsCurrent (acknowledge_message i) r db' h = tt
  perform-IsCurrent (bind_task_worker i) r db' h = ground (arith, h)
  perform-IsCurrent (start_task i) r db' h = ground (arith, h)
  perform-IsCurrent (pause_task i) r db' h = ground (arith, h)
  perform-IsCurrent (resume_task i) r db' h = ground (arith, h)
  perform-IsCurrent (terminate_task i) r db' h = ground (arith, h)
  perform-IsCurrent (start_node i) r db' h = ground (arith, h)
  perform-IsCurrent (complete_node i) r db' h = ground (arith, h)
  perform-IsCurrent (wait_node i) r db' h = ground (arith, h)
  perform-IsCurrent (fail_node i) r db' h = ground (arith, h)
  perform-IsCurrent (reopen_node i) r db' h = ground (arith, h)
  perform-IsCurrent (put_task_document i) r db' h = ground (arith, h)

  transact-IsCurrent :
      (request : Request) (r : Response) (db' : Db)
      → find_record (key_of request) db ≡ none
      → transact env path request db ≡ ok (r, db')
      → IsCurrent (claim_of request) db
  unfolding transact perform_first
  transact-IsCurrent request r db' fresh h =
      let first : perform_first env path request db ≡ ok (r, db') = ground (arith, h, fresh) in
      let (a, db1, performed, rest) = >>=-eq-ok (perform env path request) _ db (r, db') first in
      perform-IsCurrent request a db1 performed

refused :
    (db : Db) (x : Result (Response × Db))
    → ((r : Response) (db' : Db) → x ≢ ok (r, db'))
    → (e : DomainError) × (commit db x ≡ (failure e, db))
refused db (ok (r, db')) never = absurd (never r db' refl)
refused db (err e) never = (e, refl)

module _ (env : Env) (path : DocumentPath) (request : Request) (c : TaskControls)
    (claims : claim_of request ≡ some c) where
  outdated :
      (db : Db) (t : Task)
      → find_task c.task_id db ≡ some t
      → c.expected_task_version < t.version
      → IsCurrent (claim_of request) db
      → ⊥
  outdated db t found older current =
      ground (arith, found, older, subst (λ o. IsCurrent o db) claims current)

  -- Once the row of a Task has a greater version than a request names, no later commands bring
  -- back the version: the request, under a key not used before, fails and changes nothing.
  pub run-stale :
      (steps : List (Env × Request)) (db : Db) (t : Task)
      → IsUnique task_key db.tasks
      → find_task c.task_id db ≡ some t
      → c.expected_task_version < t.version
      → find_record (key_of request) (run path steps db) ≡ none
      → (e : DomainError) × (command env path request (run path steps db)
          ≡ (failure e, run path steps db))
  unfolding command
  run-stale steps db t unique found older fresh =
      let (t', found', since) = run-version path steps db c.task_id t unique found in
      refused (run path steps db) (transact env path request (run path steps db)) (λ r db' h.
        outdated (run path steps db) t' found' (ground (arith, older, since))
          (transact-IsCurrent env path (run path steps db) request r db' fresh h))
