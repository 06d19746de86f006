-- ===== src/Host/Coordinator/Bounds.antt =====
-- packages/platform-host/src/reconciliation-coordinator.ts: its capacities hold at all times.
use proflow.Base.{
  String, ◌+◌, ◌≤◌, ◌≡◌, refl, false, not, ◌&&◌, List, [], ◌∷◌, ◌++◌, Option, none, some, arith,
  ltb, leb, length, Bool-cases, inl, inr,
}
use proflow.Host.Coordinator.{
  Limits, State, ok, task_capacity_exceeded, signal_capacity_exceeded, has, add, remove, keys_of,
  rotate, acquire_slot, enqueue, start_run, is_new, reconcile, stop, after, Step, reconciled,
  task_over, blocked, failed, woken, done_with, released, stopped, settled, step, run,
}
use proflow.Host.Coordinator.Queues.{
  length-append, total-set_keys, Bounded, length-add, length-add_known,
}
use proflow.Host.Coordinator.Kept.{
  Bounded-if, after-Bounded, rotate-Bounded, mark_failure-Bounded, remember_applied-Bounded,
  forget-Bounded, progressed-Bounded, release_slot-Bounded, tasks-Bounded, settle-Bounded,
}

module _ (limits : Limits) where
  stop-Bounded : (s : State) → Bounded limits s → Bounded limits (stop s)
  unfolding stop
  stop-Bounded s b =
      Bounded-if limits s.stopped s _ (λ _. b)
        (λ _. record {
          counted = refl;
          signals = ground arith;
          tasks = ground arith;
          slots = b.slots;
          intents = tt;
          attempts = tt;
        })

  enqueue-Bounded :
      (task : String) (signal : Option String) (s : State)
      → is_new limits task signal s.pending && leb limits.max_pending_signals s.pending_count
        ≡ false
      → Bounded limits s
      → Bounded limits (enqueue limits task signal s)
  enqueue-Bounded task none s g b = b
  enqueue-Bounded task (some key) s g b =
      Bounded-if limits (has key (keys_of task s.pending)) s _ (λ _. b)
        (λ e.
          let keys = keys_of task s.pending in
          let set = total-set_keys task (keys ++ key ∷ []) s.pending in
          let len = length-append keys (key ∷ []) in
          record {
            counted = omega (arith, set, len, b.counted);
            signals = ground (arith, e, g);
            tasks = b.tasks;
            slots = b.slots;
            intents = b.intents;
            attempts = b.attempts;
          })

  acquire_slot-Bounded :
      (task : String) (s : State) → Bounded limits s → Bounded limits (acquire_slot limits task s)
  unfolding acquire_slot
  acquire_slot-Bounded task s b =
      Bounded-if limits s.stopped s _ (λ _. b)
        (λ _.
          Bounded-if limits (ltb s.active limits.concurrency) _ _
            (λ e. record {
              counted = b.counted;
              signals = b.signals;
              tasks = b.tasks;
              slots = ground (arith, e);
              intents = b.intents;
              attempts = b.attempts;
            })
            (λ _. record {
              counted = b.counted;
              signals = b.signals;
              tasks = b.tasks;
              slots = b.slots;
              intents = b.intents;
              attempts = b.attempts;
            }))

  start_run-Bounded :
      (task : String) (s : State) → Bounded limits s → Bounded limits (start_run limits task s)
  start_run-Bounded task s b =
      Bounded-if limits (has task s.in_flight) s _ (λ _. b)
        (λ _.
          acquire_slot-Bounded task (record s { in_flight = add task s.in_flight })
            (tasks-Bounded limits s s.admitted (add task s.in_flight) s.retries b.tasks b))

  add-fits :
      (task : String) (s : State)
      → not (has task s.admitted) && leb limits.max_pending_tasks (length s.admitted) ≡ false
      → Bounded limits s
      → length (add task s.admitted) ≤ limits.max_pending_tasks
  add-fits task s g b = elim (Bool-cases (has task s.admitted)) [
    | inl e ↦ omega (arith, length-add_known task s.admitted e, b.tasks)
    | inr e ↦
        let room : length s.admitted + 1 ≤ limits.max_pending_tasks = ground (arith, e, g) in
        omega (arith, length-add task s.admitted, room)
  ]

  reconcile-Bounded :
      (task : String) (signal : Option String) (s : State)
      → Bounded limits s
      → Bounded limits (after s (reconcile limits task signal s))
  unfolding reconcile
  reconcile-Bounded task signal s b =
      after-Bounded limits s s.stopped (ok s) _ (λ _. b)
        (λ _.
          after-Bounded limits s
            (not (has task s.admitted) && leb limits.max_pending_tasks (length s.admitted))
            task_capacity_exceeded _ (λ _. b)
            (λ g.
              after-Bounded limits s
                (is_new limits task signal s.pending
                  && leb limits.max_pending_signals s.pending_count)
                signal_capacity_exceeded _ (λ _. b)
                (λ f.
                  let s0 = record s {
                    admitted = add task s.admitted;
                    retries = remove task s.retries;
                  } in
                  start_run-Bounded task (enqueue limits task signal s0) (
                    enqueue-Bounded task signal s0 f (
                      tasks-Bounded limits s (add task s.admitted) s.in_flight
                        (remove task s.retries) (add-fits task s g b) b)))))

  step-Bounded : (e : Step) (s : State) → Bounded limits s → Bounded limits (step limits e s)
  unfolding step
  step-Bounded (reconciled task signal) s b = reconcile-Bounded task signal s b
  step-Bounded (task_over task) s b =
      Bounded-if limits s.stopped s _ (λ _. b) (λ _. forget-Bounded limits task s b)
  step-Bounded (blocked now task key) s b =
      Bounded-if limits s.stopped s _ (λ _. b)
        (λ _.
          mark_failure-Bounded limits now task (rotate task key s)
            (rotate-Bounded limits task key s b))
  step-Bounded (failed now task) s b =
      Bounded-if limits s.stopped s _ (λ _. b) (λ _. mark_failure-Bounded limits now task s b)
  step-Bounded (woken task key) s b =
      Bounded-if limits s.stopped s _ (λ _. b) (λ _. remember_applied-Bounded limits task key s b)
  step-Bounded (done_with task signal) s b =
      Bounded-if limits s.stopped s _ (λ _. b) (λ _. progressed-Bounded limits task signal s b)
  step-Bounded released s b = release_slot-Bounded limits s b
  step-Bounded stopped s b = stop-Bounded s b
  step-Bounded (settled task) s b = settle-Bounded limits task s b

  -- Over any sequence of steps, the count of pending signals is the number of them in the queues and
  -- not above its capacity, as are the admitted Tasks and the active slots; no Task has more than 128
  -- applied intents or 8 attempts. It holds of the end where it holds of the start.
  pub run-Bounded :
      (es : List Step) (s : State) → Bounded limits s → Bounded limits (run limits es s)
  unfolding run
  run-Bounded [] s b = b
  run-Bounded (e ∷ es) s b = run-Bounded es (step limits e s) (step-Bounded e s b)
