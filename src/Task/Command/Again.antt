-- ===== src/Task/Command/Again.antt =====
-- Idempotency keys over time: a record that a command has left is found after any later commands.
use proflow.Base.{
  String, ◌≡◌, refl, inl, inr, List, [], ◌∷◌, Option, none, some, arith, Option-cases, text_key,
  get_row-append,
}
use proflow.Task.Environment.{RoundTrips}
use proflow.Task.Errors.{Result, ok, err, >>=-eq-ok}
use proflow.Task.Requests.{Env, Controls, Request, Response}
use proflow.Task.Store.{Db, ⊤, IdempotencyRecord, find_record, idempotency_key_of}
use proflow.Task.Store.Logs.{insert_event, insert_record}
use proflow.Task.Steps.Loops.{Keeps}
use proflow.Task.Command.{
  DocumentPath, Audit, controls_of, audit_of, new_record, perform, write_audit, replay,
  perform_first, transact, success, commit, command,
}
use proflow.Task.Command.Records.{records_of}
use proflow.Task.Command.Records.Handlers.{perform-records}
use proflow.Task.Command.Replay.{key_of, IsRecorded, command-IsRecorded, replayed}
use proflow.Task.Command.Sequences.{run}

write_audit-Keeps :
    (env : Env) (c : Controls) (a : Option Audit) → Keeps records_of (write_audit env c a)
unfolding write_audit insert_event
write_audit-Keeps env c none db db' u h = ground (arith, h)
write_audit-Keeps env c (some (kind, task_id, node_id)) db db' u h = ground (arith, h)

-- The records that were there are found.
abbrev Finds : Db → Db → Type 0
Finds db db' =
    (k : String) (row : IdempotencyRecord)
    → find_record k db ≡ some row
    → find_record k db' ≡ some row

insert_record-Finds :
    (v : IdempotencyRecord) (db db' : Db) (u : ⊤) → insert_record v db ≡ ok (u, db') → Finds db db'
unfolding insert_record
insert_record-Finds v db db' u h k row found =
    ground (arith, h, found, get_row-append idempotency_key_of k v db.idempotency)

module _ (env : Env) (path : DocumentPath) (request : Request) where
  perform_first-Finds :
      (db db' : Db) (r : Response) → perform_first env path request db ≡ ok (r, db') → Finds db db'
  unfolding perform_first
  perform_first-Finds db db' r h k row found =
      let (a, db1, performed, rest) = >>=-eq-ok (perform env path request) _ db (r, db') h in
      let (u, db2, audited, recorded) =
        >>=-eq-ok (write_audit env (controls_of request) (audit_of request)) _ db1 (r, db') rest in
      let (v, db3, inserted, last) =
        >>=-eq-ok (insert_record (new_record env request a)) _ db2 (r, db') recorded in
      let kept1 = perform-records env path request db db1 a performed in
      let kept2 =
        write_audit-Keeps env (controls_of request) (audit_of request) db1 db2 u audited in
      let same_db : db3 ≡ db' = ground (arith, last) in
      let found2 : find_record k db2 ≡ some row = rw (kept2, kept1) found in
      rw same_db at (insert_record-Finds (new_record env request a) db2 db3 v inserted k row found2)

  transact-Finds :
      (db db' : Db) (r : Response) → transact env path request db ≡ ok (r, db') → Finds db db'
  unfolding transact replay
  transact-Finds db db' r h k row found = elim (Option-cases (find_record (key_of request) db)) [
    | inl e ↦ perform_first-Finds db db' r (ground (arith, h, e)) k row found
    | inr (prior, e) ↦ ground (arith, h, e, found)
  ]

commit-Finds :
    (db : Db) (x : Result (Response × Db))
    → ((r : Response) (db' : Db) → x ≡ ok (r, db') → Finds db db')
    → Finds db (commit db x).1
commit-Finds db (ok (r, db')) f k row found = f r db' refl k row found
commit-Finds db (err e) f k row found = found

run-Finds :
    (path : DocumentPath) (steps : List (Env × Request)) (db : Db) → Finds db (run path steps db)
unfolding command
run-Finds path [] db k row found = found
run-Finds path ((env, request) ∷ rest) db k row found =
    run-Finds path rest (command env path request db).1 k row (
      commit-Finds db (transact env path request db)
        (λ r db' h. transact-Finds env path request db db' r h) k row found)

module _ (env later : Env) (path : DocumentPath) (request : Request) (db : Db) (r : Response)
    (round_trips : RoundTrips env r) (done : (command env path request db).0 ≡ success r) where
  -- After a command that succeeded, and any commands after it, the same request under its key does
  -- nothing again: it answers with the recorded response, and the database stays as it is. The JSON
  -- of the response gives it back, and the request has the same fingerprint at both times.
  pub command-again :
      (steps : List (Env × Request))
      → later.fingerprint request ≡ env.fingerprint request
      → ((s : String) → later.parse s ≡ env.parse s)
      → command later path request (run path steps (command env path request db).1)
        ≡ (success r, run path steps (command env path request db).1)
  command-again steps same parses =
      let p = command-IsRecorded env path request r round_trips db done in
      let after = run path steps (command env path request db).1 in
      let still : IsRecorded env request r after = record {
        row = p.row;
        found = run-Finds path steps (command env path request db).1 (key_of request) p.row p.found;
        operation = p.operation;
        hash = p.hash;
        response = p.response;
      } in
      replayed env request after r later path still same parses
