-- ===== src/Host/Coordinator.antt =====
-- packages/platform-host/src/reconciliation-coordinator.ts: the state of the coordinator, and the
-- parts of its code that run between two awaits. A signal is queued under `signalKey`, and what has
-- been applied under `intentKey`; both are texts here.
pub mod Queues
pub mod Kept
pub mod Bounds
use proflow.Base.{
  String, ℕ, zero, suc, ◌+◌, ◌-◌, Bool, true, false, not, ◌&&◌, ◌||◌, List, [], ◌∷◌, ◌++◌, Option,
  none, some, if◌then◌else◌, ltb, leb, ◌==◌, length, any, keep,
}
use Prim.Native.Nat.{◌^◌, ◌*◌}

pub record Limits : Type 0 where
  pub concurrency : ℕ
  pub max_pending_tasks : ℕ
  pub max_pending_signals : ℕ

pub record Queue : Type 0 where
  pub task_id : String
  pub keys : List String

pub record Failure : Type 0 where
  pub task_id : String
  pub attempt : ℕ
  pub next_at : ℕ

pub record State : Type 0 where
  pub stopped : Bool
  pub active : ℕ
  pub waiters : List String
  pub admitted : List String
  pub in_flight : List String
  pub pending : List Queue
  pub pending_count : ℕ
  pub failures : List Failure
  pub applied : List Queue
  pub retries : List String

pub data Outcome : Type 0 where
  ok : State → Outcome
  -- TASK_RECONCILIATION_CAPACITY_EXCEEDED and TASK_RECONCILIATION_SIGNAL_CAPACITY_EXCEEDED
  task_capacity_exceeded signal_capacity_exceeded : Outcome

abbrev pub has : String → List String → Bool
has x xs = any (λ y. y == x) xs

-- `Set.prototype.add` and `delete`; a map of queues changes at the first queue of a Task, and it has
-- no other.
abbrev pub add : String → List String → List String
add x xs = if has x xs then xs else xs ++ x ∷ []

abbrev pub remove : String → List String → List String
remove x [] = []
remove x (y ∷ ys) = let rest = remove x ys in if y == x then ys else y ∷ rest

unfoldable pub keys_of : String → List Queue → List String
keys_of task [] = []
keys_of task (q ∷ qs) = if q.task_id == task then q.keys else keys_of task qs

unfoldable pub set_keys : String → List String → List Queue → List Queue
set_keys task keys [] = record { task_id = task; keys = keys } ∷ []
set_keys task keys (q ∷ qs) =
    if q.task_id == task then record q { keys = keys } ∷ qs else q ∷ set_keys task keys qs

unfoldable pub drop_keys : String → List Queue → List Queue
drop_keys task [] = []
drop_keys task (q ∷ qs) = if q.task_id == task then qs else q ∷ drop_keys task qs

abbrev pub is_empty : List String → Bool
is_empty [] = true
is_empty (_ ∷ _) = false

-- A queue with no keys is deleted.
abbrev pub keep_queue : String → List String → List Queue → List Queue
keep_queue task keys qs = if is_empty keys then drop_keys task qs else set_keys task keys qs

unfoldable pub consume_pending : String → Option String → State → State
consume_pending task none s = s
consume_pending task (some key) s =
    if has key (keys_of task s.pending)
    then record s {
      pending = keep_queue task (remove key (keys_of task s.pending)) s.pending;
      pending_count = s.pending_count - 1;
    }
    else s

unfoldable pub clear_pending : String → State → State
clear_pending task s = record s {
  pending = drop_keys task s.pending;
  pending_count = s.pending_count - length (keys_of task s.pending);
}

-- A blocked signal goes behind the others of its Task.
unfoldable pub rotate : String → String → State → State
rotate task key s =
    if has key (keys_of task s.pending)
    then record s {
      pending = set_keys task (remove key (keys_of task s.pending) ++ key ∷ []) s.pending;
    }
    else s

abbrev pub smaller : ℕ → ℕ → ℕ
smaller a b = if ltb b a then b else a

unfoldable pub attempts : String → List Failure → ℕ
attempts task [] = 0
attempts task (f ∷ fs) = if f.task_id == task then f.attempt else attempts task fs

unfoldable pub set_failure : Failure → List Failure → List Failure
set_failure v [] = v ∷ []
set_failure v (f ∷ fs) = if f.task_id == v.task_id then v ∷ fs else f ∷ set_failure v fs

-- The power is of `attempt - 1`, which is 0 at least.
unfoldable pub failure_after : ℕ → String → ℕ → Failure
failure_after now task before =
    let attempt = smaller (before + 1) 8 in
    record {
      task_id = task;
      attempt = attempt;
      next_at = now + smaller 30000 (500 * 2 ^ (attempt - 1));
    }

unfoldable pub mark_failure : ℕ → String → State → State
mark_failure now task s = record s {
  failures = set_failure (failure_after now task (attempts task s.failures)) s.failures;
}

abbrev pub without_oldest : List String → List String
without_oldest [] = []
without_oldest (x ∷ xs) = xs

abbrev pub capped : List String → List String
capped keys = if ltb 128 (length keys) then without_oldest keys else keys

unfoldable pub remember_applied : String → String → State → State
remember_applied task key s = record s {
  applied = set_keys task (capped (add key (keys_of task s.applied))) s.applied;
}

module _ (limits : Limits) where
  unfoldable pub acquire_slot : String → State → State
  acquire_slot task s =
      if s.stopped
      then s
      else if ltb s.active limits.concurrency
      then record s { active = s.active + 1 }
      else record s { waiters = s.waiters ++ task ∷ [] }

  -- The next waiter takes the slot over.
  unfoldable pub release_slot : State → State
  release_slot s = elim (if s.stopped then [] else s.waiters) [
    | [] ↦ record s { active = s.active - 1 }
    | _ ∷ rest ↦ record s { waiters = rest }
  ]

  abbrev pub enqueue : String → Option String → State → State
  enqueue task none s = s
  enqueue task (some key) s = if has key (keys_of task s.pending) then s else record s {
    pending = set_keys task (keys_of task s.pending ++ key ∷ []) s.pending;
    pending_count = s.pending_count + 1;
  }

  abbrev pub start_run : String → State → State
  start_run task s =
      if has task s.in_flight
      then s
      else acquire_slot task (record s { in_flight = add task s.in_flight })

  abbrev pub is_new : String → Option String → List Queue → Bool
  is_new task none pending = false
  is_new task (some key) pending = not (has key (keys_of task pending))

  abbrev pub admit : String → Option String → State → State
  admit task signal s = start_run task (
      enqueue task signal
        (record s { admitted = add task s.admitted; retries = remove task s.retries }))

  -- The part of `reconcile` before its first await.
  unfoldable pub reconcile : String → Option String → State → Outcome
  reconcile task signal s =
      if s.stopped
      then ok s
      else if not (has task s.admitted) && leb limits.max_pending_tasks (length s.admitted)
      then task_capacity_exceeded
      else if is_new task signal s.pending && leb limits.max_pending_signals s.pending_count
      then signal_capacity_exceeded
      else ok (admit task signal s)

abbrev pub drop_failure : String → List Failure → List Failure
drop_failure task [] = []
drop_failure task (f ∷ fs) =
    let rest = drop_failure task fs in if f.task_id == task then fs else f ∷ rest

abbrev pub failed_before : String → List Failure → Bool
failed_before task [] = false
failed_before task (f ∷ fs) = f.task_id == task || failed_before task fs

-- A Task that is over: its signals, intents and failures go.
unfoldable pub forget : String → State → State
forget task s =
    let cleared = clear_pending task s in
    record cleared {
      applied = drop_keys task cleared.applied;
      failures = drop_failure task cleared.failures;
    }

-- A signal that is done with, be it applied or of no use.
unfoldable pub progressed : String → Option String → State → State
progressed task signal s =
    let consumed = consume_pending task signal s in
    record consumed { failures = drop_failure task consumed.failures }

-- The end of a run: a retry is set where something is left to do.
unfoldable pub settle : String → State → State
settle task s =
    if not s.stopped && (not (is_empty (keys_of task s.pending)) || failed_before task s.failures)
    then record s { in_flight = remove task s.in_flight; retries = add task s.retries }
    else record s { in_flight = remove task s.in_flight; admitted = remove task s.admitted }

unfoldable pub stop : State → State
stop s = if s.stopped then s else record s {
  stopped = true;
  waiters = [];
  admitted = [];
  pending = [];
  pending_count = 0;
  failures = [];
  applied = [];
  retries = [];
}

abbrev pub after : State → Outcome → State
after s (ok s') = s'
after s _ = s

-- What runs between two awaits; a run that finds the coordinator stopped after an await returns.
pub data Step : Type 0 where
  reconciled : String → Option String → Step
  task_over : String → Step
  blocked : ℕ → String → String → Step
  failed : ℕ → String → Step
  woken : String → String → Step
  done_with : String → Option String → Step
  released stopped : Step
  settled : String → Step

module _ (limits : Limits) where
  unfoldable pub step : Step → State → State
  step (reconciled task signal) s = after s (reconcile limits task signal s)
  step (task_over task) s = if s.stopped then s else forget task s
  step (blocked now task key) s = if s.stopped then s else mark_failure now task (rotate task key s)
  step (failed now task) s = if s.stopped then s else mark_failure now task s
  step (woken task key) s = if s.stopped then s else remember_applied task key s
  step (done_with task signal) s = if s.stopped then s else progressed task signal s
  step released s = release_slot limits s
  step stopped s = stop s
  step (settled task) s = settle task s

  unfoldable pub run : List Step → State → State
  run [] s = s
  run (e ∷ es) s = run es (step e s)
