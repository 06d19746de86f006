-- ===== src/Task/Command/Sequences.antt =====
-- Sequences of commands, each with what it sees of the outside: what holds of the task table
-- between any two of them.
use proflow.Base.{
  String, ◌≡◌, refl, inl, inr, Bool, true, List, [], ◌∷◌, Option, none, some, arith, IsUnique,
  text_key, Option-cases,
}
use proflow.Task.Model.{Task}
use proflow.Task.Errors.{Result, ok, err, ◌>>◌, pure, >>=-eq-ok}
use proflow.Task.Requests.{Env, Request, Response, Controls}
use proflow.Task.Store.{Db, IdempotencyRecord, find_task, find_record, task_key}
use proflow.Task.Store.Logs.{insert_record}
use proflow.Task.Steps.Loops.{Keeps, Keeps->>}
use proflow.Task.Readiness.{is_terminal}
use proflow.Task.Command.{
  DocumentPath, Audit, controls_of, audit_of, new_record, perform, write_audit, replay,
  perform_first, transact, commit, command,
}
use proflow.Task.Progress.{
  Evolves, same, Evolves-trans, Evolves-IsUnique, Evolves-terminal, Evolves-version, Evolves-any,
  Succeeds, Stays,
}
use proflow.Task.Progress.Loops.{tasks_of}
use proflow.Task.Progress.Create.{insert_event-Keeps}
use proflow.Task.Progress.Commands.{is_reopen, perform-Evolves}

write_audit-Keeps :
    (env : Env) (c : Controls) (a : Option Audit) → Keeps tasks_of (write_audit env c a)
unfolding write_audit
write_audit-Keeps env c none = λ db db' u h. ground arith
write_audit-Keeps env c (some (kind, task_id, node_id)) =
    λ db db' u h. insert_event-Keeps _ db db' u h

insert_record-Keeps : (v : IdempotencyRecord) → Keeps tasks_of (insert_record v)
unfolding insert_record
insert_record-Keeps v db db' u h = ground arith

rest-Keeps :
    (env : Env) (c : Controls) (a : Option Audit) (v : IdempotencyRecord) (db db' : Db)
    (r a0 : Response)
    → (write_audit env c a >> (insert_record v >> pure a0)) db ≡ ok (r, db')
    → db'.tasks ≡ db.tasks
rest-Keeps env c a v db db' r a0 h =
    Keeps->> tasks_of _ _ (write_audit-Keeps env c a)
      (Keeps->> tasks_of _ _ (insert_record-Keeps v) (λ db db' u h. ground arith)) db db' r h

pub perform_first-Evolves :
    (env : Env) (path : DocumentPath) (request : Request) (db db' : Db) (r : Response)
    → IsUnique task_key db.tasks
    → perform_first env path request db ≡ ok (r, db')
    → Evolves (is_reopen request) db.tasks db'.tasks
unfolding perform_first
perform_first-Evolves env path request db db' r unique h =
    let (a, db1, performed, rest) = >>=-eq-ok (perform env path request) _ db (r, db') h in
    Evolves-trans (perform-Evolves env path request db db1 a unique performed) (
      same (
        rest-Keeps env (controls_of request) (audit_of request) (new_record env request a) db1 db' r
          a rest))

pub transact-Evolves :
    (env : Env) (path : DocumentPath) (request : Request) (db db' : Db) (r : Response)
    → IsUnique task_key db.tasks
    → transact env path request db ≡ ok (r, db')
    → Evolves (is_reopen request) db.tasks db'.tasks
unfolding transact replay
transact-Evolves env path request db db' r unique h =
    elim (Option-cases (find_record (controls_of request).idempotency_key db)) [
      | inl e ↦ perform_first-Evolves env path request db db' r unique (ground (arith, h, e))
      | inr (prior, e) ↦ same (ground (arith, h, e))
    ]

commit-Evolves :
    (b : Bool) (db : Db) (x : Result (Response × Db))
    → ((r : Response) (db' : Db) → x ≡ ok (r, db') → Evolves b db.tasks db'.tasks)
    → Evolves b db.tasks (commit db x).1.tasks
commit-Evolves b db (ok (r, db')) h = h r db' refl
commit-Evolves b db (err e) h = same refl

-- Where task ids are unique, a command changes the task table only by adding rows of new Tasks, by
-- touching a row, which sets `updated_at` and the next version and keeps the rest, and by moves of a
-- row of an unfinished Task to a greater version, each a transition that the table of transitions.ts
-- declares or no change of status; `reopenNode` alone may also set ACTIVE.
pub command-Evolves :
    (env : Env) (path : DocumentPath) (request : Request) (db : Db)
    → IsUnique task_key db.tasks
    → Evolves (is_reopen request) db.tasks (command env path request db).1.tasks
unfolding command
command-Evolves env path request db unique =
    commit-Evolves (is_reopen request) db (transact env path request db)
      (λ r db' h. transact-Evolves env path request db db' r unique h)

-- A caller's commands, one after another, each with what it sees of the outside.
abbrev pub run : DocumentPath → List (Env × Request) → Db → Db
run path [] db = db
run path ((env, request) ∷ rest) db = run path rest (command env path request db).1

pub run-Evolves :
    (path : DocumentPath) (steps : List (Env × Request)) (db : Db)
    → IsUnique task_key db.tasks
    → Evolves true db.tasks (run path steps db).tasks
run-Evolves path [] db unique = same refl
run-Evolves path ((env, request) ∷ rest) db unique =
    let first = command-Evolves env path request db unique in
    Evolves-trans (Evolves-any first)
      (run-Evolves path rest (command env path request db).1 (Evolves-IsUnique first unique))

-- Where task ids are unique, a Task that has SUCCEEDED or is TERMINATED keeps its row, but for
-- `version`, which does not fall, and `updated_at`, whatever commands come after.
pub run-terminal :
    (path : DocumentPath) (steps : List (Env × Request)) (db : Db) (k : String) (t : Task)
    → IsUnique task_key db.tasks
    → find_task k db ≡ some t
    → is_terminal t.status ≡ true
    → (t' : Task) × (find_task k (run path steps db) ≡ some t') × Stays t t'
run-terminal path steps db k t unique found done =
    Evolves-terminal k t (run-Evolves path steps db unique) done found

-- A Task is never deleted, and after any commands its row is the row it was, or one with a greater
-- version, which is the same Task in the same group at the same place.
pub run-version :
    (path : DocumentPath) (steps : List (Env × Request)) (db : Db) (k : String) (t : Task)
    → IsUnique task_key db.tasks
    → find_task k db ≡ some t
    → (t' : Task) × (find_task k (run path steps db) ≡ some t') × Succeeds t t'
run-version path steps db k t unique found =
    Evolves-version k t (run-Evolves path steps db unique) found
