-- ===== src/Task/Command/Replay.antt =====
-- Idempotency keys: the record that a command leaves, and what another request under its key answers.
use proflow.Base.{
  String, ◌≡◌, refl, sym, ◌≢◌, ◌⊎◌, inl, inr, some, Option-cases, arith, ==_iff, ==_refl,
  get_row-append, text_key,
}
use proflow.Task.Environment.{RoundTrips}
use proflow.Task.Errors.{Result, ok, err, domain, idempotency_conflict, >>=-eq-ok}
use proflow.Task.Requests.{Env, Request, Response}
use proflow.Task.Store.{Db, ⊤, IdempotencyRecord, find_record, idempotency_key_of}
use proflow.Task.Store.Logs.{insert_record}
use proflow.Task.Command.{
  DocumentPath, controls_of, audit_of, operation_of, new_record, perform, write_audit, replay,
  perform_first, transact, success, failure, commit, command,
}

abbrev pub key_of : Request → String
key_of request = (controls_of request).idempotency_key

-- The record that a command has left under its key.
pub record IsRecorded (env : Env) (request : Request) (r : Response) (db : Db) : Type 0 where
  pub row : IdempotencyRecord
  pub found : find_record (key_of request) db ≡ some row
  pub operation : row.operation ≡ operation_of request
  pub hash : row.request_hash ≡ env.fingerprint request
  pub response : env.parse row.response_json ≡ r

insert_record-found :
    (v : IdempotencyRecord) (db db' : Db) (u : ⊤)
    → insert_record v db ≡ ok (u, db')
    → find_record v.idempotency_key db' ≡ some v
unfolding insert_record
insert_record-found v db db' u h =
    ground (arith, h, get_row-append idempotency_key_of v.idempotency_key v db.idempotency)

commit-success :
    (db : Db) (x : Result (Response × Db)) (r : Response)
    → (commit db x).0 ≡ success r
    → x ≡ ok (r, (commit db x).1)
commit-success db (ok (a, db')) r h = ground (arith, h)
commit-success db (err e) r h = ground (arith, h)

module _ (env : Env) (path : DocumentPath) (request : Request) (r : Response)
    (round_trips : RoundTrips env r) where
  perform_first-IsRecorded :
      (db db' : Db) → perform_first env path request db ≡ ok (r, db') → IsRecorded env request r db'
  unfolding perform_first controls_of new_record
  perform_first-IsRecorded db db' h =
      let (a, db1, performed, rest) = >>=-eq-ok (perform env path request) _ db (r, db') h in
      let (u, db2, audited, recorded) =
        >>=-eq-ok (write_audit env (controls_of request) (audit_of request)) _ db1 (r, db') rest in
      let (v, db3, inserted, last) =
        >>=-eq-ok (insert_record (new_record env request a)) _ db2 (r, db') recorded in
      let same_db : db3 ≡ db' = ground (arith, last) in
      let same_response : a ≡ r = ground (arith, last) in
      record {
        row = new_record env request a;
        found =
            rw (sym same_db) (insert_record-found (new_record env request a) db2 db3 v inserted);
        operation = refl;
        hash = refl;
        response = rw same_response round_trips;
      }

  transact-IsRecorded :
      (db db' : Db) → transact env path request db ≡ ok (r, db') → IsRecorded env request r db'
  unfolding transact replay
  transact-IsRecorded db db' h = elim (Option-cases (find_record (key_of request) db)) [
    | inl e ↦ perform_first-IsRecorded db db' (ground (arith, h, e))
    | inr (prior, e) ↦ record {
      row = prior;
      found = ground (arith, h, e);
      operation = grind (arith, ==_iff);
      hash = grind (arith, ==_iff);
      response = ground (arith, h, e);
    }
  ]

  pub command-IsRecorded :
      (db : Db)
      → (command env path request db).0 ≡ success r
      → IsRecorded env request r (command env path request db).1
  unfolding command
  command-IsRecorded db h =
      transact-IsRecorded db _ (commit-success db (transact env path request db) r h)

module _ (env : Env) (request : Request) (db : Db) (r : Response) where
  pub replayed :
      (later : Env) (path : DocumentPath)
      → IsRecorded env request r db
      → later.fingerprint request ≡ env.fingerprint request
      → ((s : String) → later.parse s ≡ env.parse s)
      → command later path request db ≡ (success r, db)
  unfolding command transact replay
  replayed later path p same parses = ground (
    arith,
    p.found,
    p.operation,
    p.hash,
    p.response,
    same,
    parses p.row.response_json,
    ==_refl (operation_of request),
    ==_refl (env.fingerprint request),
  )

  conflicting :
      (later : Env) (path : DocumentPath) (other : Request)
      → IsRecorded env request r db
      → key_of other ≡ key_of request
      → (operation_of other ≢ operation_of request)
        ⊎ (later.fingerprint other ≢ env.fingerprint request)
      → command later path other db ≡ (failure (domain idempotency_conflict), db)
  unfolding command transact replay
  conflicting later path other p same differs =
      grind (arith, ==_iff, p.found, p.operation, p.hash, same, differs)

module _ (env later : Env) (path : DocumentPath) (request : Request) (db : Db) (r : Response)
    (round_trips : RoundTrips env r) (done : (command env path request db).0 ≡ success r) where
  -- After a command that succeeded, a request for another operation or with another input, under
  -- the same key, is refused as a conflict, and the database stays as it is.
  pub command-conflict :
      (other : Request)
      → key_of other ≡ key_of request
      → (operation_of other ≢ operation_of request)
        ⊎ (later.fingerprint other ≢ env.fingerprint request)
      → command later path other (command env path request db).1
        ≡ (failure (domain idempotency_conflict), (command env path request db).1)
  command-conflict other =
      conflicting env request _ r later path other
        (command-IsRecorded env path request r round_trips db done)
