-- ===== src/Host/Coordinator/Kept.antt =====
-- packages/platform-host/src/reconciliation-coordinator.ts: each change of the state keeps the bounds.
use proflow.Base.{
  String, ℕ, ◌-◌, ◌≤◌, ◌≡◌, refl, Bool, true, false, not, ◌&&◌, ◌||◌, List, [], ◌∷◌, ◌++◌, Option,
  none, some, arith, if◌then◌else◌, length, Bool-cases, inl, inr,
}
use proflow.Host.Coordinator.{
  Limits, State, Outcome, has, add, remove, keys_of, is_empty, consume_pending, clear_pending,
  rotate, attempts, failure_after, mark_failure, capped, remember_applied, release_slot,
  failed_before, forget, progressed, settle, after,
}
use proflow.Host.Coordinator.Queues.{
  length-append, length-remove, remove-shorter, total-set_keys, total-drop_keys, total-keep_queue,
  FewAttempts, Bounded, All-set_keys, All-drop_keys, All-set_failure, All-drop_failure,
  keys_of-FewIntents, capped-short, length-add,
}

module _ (limits : Limits) where
  pub Bounded-if :
      (b : Bool) (x y : State)
      → (b ≡ true → Bounded limits x)
      → (b ≡ false → Bounded limits y)
      → Bounded limits (if b then x else y)
  Bounded-if true x y f g = f refl
  Bounded-if false x y f g = g refl

  pub after-Bounded :
      (s : State) (b : Bool) (x y : Outcome)
      → (b ≡ true → Bounded limits (after s x))
      → (b ≡ false → Bounded limits (after s y))
      → Bounded limits (after s (if b then x else y))
  after-Bounded s true x y f g = f refl
  after-Bounded s false x y f g = g refl

  pub consume_pending-Bounded :
      (task : String) (signal : Option String) (s : State)
      → Bounded limits s
      → Bounded limits (consume_pending task signal s)
  unfolding consume_pending
  consume_pending-Bounded task none s b = b
  consume_pending-Bounded task (some key) s b =
      elim (Bool-cases (has key (keys_of task s.pending))) [
        | inl e ↦
            let kept = total-keep_queue task (remove key (keys_of task s.pending)) s.pending in
            let one = length-remove key (keys_of task s.pending) e in
            rw e (record {
              counted = omega (arith, kept, one, b.counted);
              signals = omega (arith, b.signals);
              tasks = b.tasks;
              slots = b.slots;
              intents = b.intents;
              attempts = b.attempts;
            })
        | inr e ↦ rw e b
      ]

  pub clear_pending-Bounded :
      (task : String) (s : State) → Bounded limits s → Bounded limits (clear_pending task s)
  unfolding clear_pending
  clear_pending-Bounded task s b = record {
    counted = omega (arith, total-drop_keys task s.pending, b.counted);
    signals = omega (arith, b.signals);
    tasks = b.tasks;
    slots = b.slots;
    intents = b.intents;
    attempts = b.attempts;
  }

  pub rotate-Bounded :
      (task key : String) (s : State) → Bounded limits s → Bounded limits (rotate task key s)
  unfolding rotate
  rotate-Bounded task key s b = elim (Bool-cases (has key (keys_of task s.pending))) [
    | inl e ↦
        let keys = keys_of task s.pending in
        let set = total-set_keys task (remove key keys ++ key ∷ []) s.pending in
        let one = length-remove key keys e in
        let len = length-append (remove key keys) (key ∷ []) in
        rw e (record {
          counted = omega (arith, set, one, len, b.counted);
          signals = b.signals;
          tasks = b.tasks;
          slots = b.slots;
          intents = b.intents;
          attempts = b.attempts;
        })
    | inr e ↦ rw e b
  ]

  pub failure_after-FewAttempts :
      (now : ℕ) (task : String) (n : ℕ) → FewAttempts (failure_after now task n)
  unfolding failure_after
  failure_after-FewAttempts now task n = ground arith

  pub mark_failure-Bounded :
      (now : ℕ) (task : String) (s : State)
      → Bounded limits s
      → Bounded limits (mark_failure now task s)
  unfolding mark_failure
  mark_failure-Bounded now task s b = record {
    counted = b.counted;
    signals = b.signals;
    tasks = b.tasks;
    slots = b.slots;
    intents = b.intents;
    attempts =
        All-set_failure (failure_after now task (attempts task s.failures)) s.failures
          (failure_after-FewAttempts now task (attempts task s.failures)) b.attempts;
  }

  pub remember_applied-Bounded :
      (task key : String) (s : State)
      → Bounded limits s
      → Bounded limits (remember_applied task key s)
  unfolding remember_applied
  remember_applied-Bounded task key s b =
      let keys = keys_of task s.applied in
      record {
        counted = b.counted;
        signals = b.signals;
        tasks = b.tasks;
        slots = b.slots;
        intents =
            All-set_keys task (capped (add key keys)) s.applied
              (capped-short (add key keys)
                (omega (arith, length-add key keys, keys_of-FewIntents task s.applied b.intents)))
              b.intents;
        attempts = b.attempts;
      }

  pub forget-Bounded :
      (task : String) (s : State) → Bounded limits s → Bounded limits (forget task s)
  unfolding forget
  forget-Bounded task s b =
      let c = clear_pending-Bounded task s b in
      record {
        counted = c.counted;
        signals = c.signals;
        tasks = c.tasks;
        slots = c.slots;
        intents = All-drop_keys task (clear_pending task s).applied c.intents;
        attempts = All-drop_failure task (clear_pending task s).failures c.attempts;
      }

  pub progressed-Bounded :
      (task : String) (signal : Option String) (s : State)
      → Bounded limits s
      → Bounded limits (progressed task signal s)
  unfolding progressed
  progressed-Bounded task signal s b =
      let c = consume_pending-Bounded task signal s b in
      record {
        counted = c.counted;
        signals = c.signals;
        tasks = c.tasks;
        slots = c.slots;
        intents = c.intents;
        attempts = All-drop_failure task (consume_pending task signal s).failures c.attempts;
      }

  pub next-Bounded :
      (waiters : List String) (s : State)
      → Bounded limits s
      → Bounded limits (elim waiters [
        | [] ↦ record s { active = s.active - 1 }
        | _ ∷ rest ↦ record s { waiters = rest }
      ])
  next-Bounded [] s b = record {
    counted = b.counted;
    signals = b.signals;
    tasks = b.tasks;
    slots = omega (arith, b.slots);
    intents = b.intents;
    attempts = b.attempts;
  }
  next-Bounded (w ∷ ws) s b = record {
    counted = b.counted;
    signals = b.signals;
    tasks = b.tasks;
    slots = b.slots;
    intents = b.intents;
    attempts = b.attempts;
  }

  pub release_slot-Bounded : (s : State) → Bounded limits s → Bounded limits (release_slot limits s)
  unfolding release_slot
  release_slot-Bounded s b = next-Bounded (if s.stopped then [] else s.waiters) s b

  -- Fewer admitted Tasks, or as many, with everything else that is bounded as it was.
  pub tasks-Bounded :
      (s : State) (admitted in_flight retries : List String)
      → length admitted ≤ limits.max_pending_tasks
      → Bounded limits s
      → Bounded limits (record s { admitted = admitted; in_flight = in_flight; retries = retries })
  tasks-Bounded s admitted in_flight retries h b = record {
    counted = b.counted;
    signals = b.signals;
    tasks = h;
    slots = b.slots;
    intents = b.intents;
    attempts = b.attempts;
  }

  pub settle-Bounded :
      (task : String) (s : State) → Bounded limits s → Bounded limits (settle task s)
  unfolding settle
  settle-Bounded task s b =
      Bounded-if
        (not s.stopped
          && (not (is_empty (keys_of task s.pending)) || failed_before task s.failures))
        _ _
        (λ _. tasks-Bounded s s.admitted (remove task s.in_flight) (add task s.retries) b.tasks b)
        (λ _.
          tasks-Bounded s (remove task s.admitted) (remove task s.in_flight) s.retries
            (omega (arith, b.tasks, remove-shorter task s.admitted)) b)
