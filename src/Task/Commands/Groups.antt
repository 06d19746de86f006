-- ===== src/Task/Commands/Groups.antt =====
-- `createTaskGroup` and `startTaskGroup`.
use proflow.Base.{
  String, ◌+◌, Bool, true, false, not, List, [], ◌∷◌, Option, none, some, if◌then◌else◌, ltb,
  sort_by,
}
use proflow.Task.Model.{TaskGroupStatus, TaskGroup, TaskStatus, Task}
use proflow.Task.Errors.{
  ok, ◌>>=◌, ◌>>◌, pure, gets, some_or_throw, throw_if, domain, task_group_already_exists,
  task_group_not_found, task_group_version_conflict, task_group_invalid_state,
}
use proflow.Task.Requests.{Env, CreateGroupInput, StartGroupInput}
use proflow.Task.Store.{Db, Action, ⊤, find_group}
use proflow.Task.Store.Rows.{is_some, insert_group, update_group, update_task}
use proflow.Task.Store.Lists.{list_tasks_of}
use proflow.Task.Readiness.{place, is_ready, recompute_readiness}
use proflow.Task.Steps.{check_version}

abbrev given : Option String → String → String
given none fresh = fresh
given (some id) fresh = id

abbrev pub id_for : Env → CreateGroupInput → String
id_for env input = given input.task_group_id (env.create_id "task-group" 0)

abbrev pub new_group : Env → CreateGroupInput → TaskGroup
new_group env input = record {
  task_group_id = id_for env input;
  title = input.title;
  objective = input.objective;
  status = TaskGroupStatus.ready;
  max_active_tasks = 1;
  version = 1;
  created_by_ref = input.actor_ref;
  created_at = env.now;
  updated_at = env.now;
}

unfoldable pub create_task_group : Env → CreateGroupInput → Action TaskGroup
create_task_group env input = do
  throw_if (is_some (← gets (find_group (id_for env input)))) (domain task_group_already_exists)
  insert_group (new_group env input)
  pure (new_group env input)

abbrev is_group_ready : TaskGroupStatus → Bool
is_group_ready TaskGroupStatus.ready = true
is_group_ready _ = false

abbrev pub same_status : TaskStatus → TaskStatus → Bool
same_status TaskStatus.pending TaskStatus.pending = true
same_status TaskStatus.ready TaskStatus.ready = true
same_status TaskStatus.active TaskStatus.active = true
same_status TaskStatus.waiting TaskStatus.waiting = true
same_status TaskStatus.failed TaskStatus.failed = true
same_status TaskStatus.paused TaskStatus.paused = true
same_status TaskStatus.succeeded TaskStatus.succeeded = true
same_status TaskStatus.terminated TaskStatus.terminated = true
same_status _ _ = false

-- `if (readied.status !== before.status) tx.tasks.update(readied)`
unfoldable pub update_if_readied : Task → Task → Action ⊤
update_if_readied before readied =
    if same_status readied.status before.status then (λ db. ok (tt, db)) else update_task readied

abbrev pub first_ready : Option String → Task → Option String
first_ready (some id) readied = some id
first_ready none readied = if is_ready readied.status then some readied.task_id else none

-- The loop over the members; the accumulator is `firstEligibleTaskId`.
unfoldable pub ready_members : Env → Option String → List Task → Action (Option String)
ready_members env found [] = pure found
ready_members env found (member ∷ members) = do
  readied ← gets (λ db. recompute_readiness env db member)
  update_if_readied member readied
  ready_members env (first_ready found readied) members

abbrev pub activated : Env → TaskGroup → TaskGroup
activated env group = record group {
  status = TaskGroupStatus.active;
  version = group.version + 1;
  updated_at = env.now;
}

-- `[...tx.tasks.list(group.taskGroupId)].sort(...)`
unfoldable pub members_of : String → Db → List Task
members_of id db =
    sort_by (λ (l r : Task). ltb (place l.sequence_no) (place r.sequence_no)) (list_tasks_of id db)

unfoldable pub start_task_group : Env → StartGroupInput → Action (TaskGroup × Option String)
start_task_group env input = do
  group ← some_or_throw (← gets (find_group input.task_group_id)) (domain task_group_not_found)
  check_version group.version input.expected_group_version task_group_version_conflict
  throw_if (not (is_group_ready group.status)) (domain task_group_invalid_state)
  update_group (activated env group)
  members ← gets (members_of group.task_group_id)
  found ← ready_members env none members
  pure (activated env group, found)
