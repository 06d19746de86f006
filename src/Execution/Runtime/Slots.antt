-- ===== src/Execution/Runtime/Slots.antt =====
-- packages/execution-runtime/src/index.ts: `Semaphore`, and the calls that hold its slots.
use proflow.Base.{
  String, ℕ, ◌+◌, ◌-◌, ◌⊎◌, ◌≤◌, ◌≡◌, refl, true, List, [], ◌∷◌, ◌++◌, Option, none, some, arith,
  if◌then◌else◌, ltb, leb, length, Bool-cases, inl, inr,
}

-- `#available` and `#waiters`; a waiter is named by its call.
pub record Semaphore : Type 0 where
  pub available : ℕ
  pub waiters : List String

pub data Grant : Type 0 where
  granted queued full : Grant

-- A call that gets no slot waits, unless `#maxQueued` calls do.
unfoldable pub acquire : ℕ → String → Semaphore → Grant × Semaphore
acquire max_queued call s =
    if ltb 0 s.available
    then (granted, record s { available = s.available - 1 })
    else if leb max_queued (length s.waiters)
    then (full, s)
    else (queued, record s { waiters = s.waiters ++ call ∷ [] })

abbrev pub hand_on : ℕ → List String → Option String × Semaphore
hand_on available [] = (none, record { available = available + 1; waiters = [] })
hand_on available (call ∷ rest) = (some call, record { available = available; waiters = rest })

-- The slot goes to the first that waits.
unfoldable pub release : Semaphore → Option String × Semaphore
release s = hand_on s.available s.waiters

-- `Math.max(1, maxConcurrent)` slots.
unfoldable pub semaphore : ℕ → Semaphore
semaphore max_concurrent = record {
  available = if ltb max_concurrent 1 then 1 else max_concurrent;
  waiters = [];
}

-- The semaphore, and how many calls hold a slot.
pub record Slots : Type 0 where
  pub semaphore : Semaphore
  pub held : ℕ

-- A call comes for a slot, or one that holds a slot ends.
pub data Event : Type 0 where
  come : String → Event
  end : Event

abbrev pub after_grant : ℕ → Grant × Semaphore → Slots
after_grant held (granted, s) = record { semaphore = s; held = held + 1 }
after_grant held (queued, s) = record { semaphore = s; held = held }
after_grant held (full, s) = record { semaphore = s; held = held }

abbrev pub after_release : ℕ → Option String × Semaphore → Slots
after_release held (none, s) = record { semaphore = s; held = held - 1 }
after_release held (some _, s) = record { semaphore = s; held = held }

length-queue : (xs : List String) (x : String) → length (xs ++ x ∷ []) ≡ length xs + 1
length-queue [] x = refl
length-queue (y ∷ xs) x = omega (arith, length-queue xs x)

module _ (max_queued : ℕ) where
  unfoldable pub happen : Event → Slots → Slots
  happen (come call) s = after_grant s.held (acquire max_queued call s.semaphore)
  happen end s = if ltb 0 s.held then after_release s.held (release s.semaphore) else s

  unfoldable pub go_on : List Event → Slots → Slots
  go_on [] s = s
  go_on (e ∷ events) s = go_on events (happen e s)

  -- No slot is lost or made, none is free while a call waits, and the queue is bounded.
  pub record Balanced (slots : ℕ) (s : Slots) : Type 0 where
    pub total : s.semaphore.available + s.held ≡ slots
    pub busy : s.semaphore.available ≡ 0 ⊎ length s.semaphore.waiters ≡ 0
    pub queue : length s.semaphore.waiters ≤ max_queued

  come-Balanced :
      (slots : ℕ) (call : String) (s : Slots)
      → Balanced slots s
      → Balanced slots (happen (come call) s)
  unfolding happen acquire
  come-Balanced slots call s b = elim (Bool-cases (ltb 0 s.semaphore.available)) [
    | inl e ↦ rw e (record {
      total = ground (arith, b.total, e);
      busy = inr (ground (arith, b.busy, e));
      queue = b.queue;
    })
    | inr e ↦ elim (Bool-cases (leb max_queued (length s.semaphore.waiters))) [
      | inl f ↦ rw (e, f) (record { total = b.total; busy = b.busy; queue = b.queue })
      | inr f ↦
          rw (e, f)
            (record {
              total = b.total;
              busy = inl (ground (arith, e));
              queue = ground (arith, f, length-queue s.semaphore.waiters call);
            })
    ]
  ]

  released-Balanced :
      (slots available held : ℕ) (waiters : List String)
      → Balanced slots
          (record { semaphore = record { available = available; waiters = waiters }; held = held })
      → ltb 0 held ≡ true
      → Balanced slots (after_release held (hand_on available waiters))
  released-Balanced slots available held [] b e = record {
    total = ground (arith, b.total, e);
    busy = inr refl;
    queue = b.queue;
  }
  released-Balanced slots available held (call ∷ rest) b e = record {
    total = b.total;
    busy = inl (ground (arith, b.busy));
    queue = ground (arith, b.queue);
  }

  happen-Balanced :
      (slots : ℕ) (e : Event) (s : Slots) → Balanced slots s → Balanced slots (happen e s)
  unfolding happen release
  happen-Balanced slots (come call) s b = come-Balanced slots call s b
  happen-Balanced slots end s b = elim (Bool-cases (ltb 0 s.held)) [
    | inl e ↦ rw e (released-Balanced slots s.semaphore.available s.held s.semaphore.waiters b e)
    | inr e ↦ rw e b
  ]

  go_on-Balanced :
      (slots : ℕ) (events : List Event) (s : Slots)
      → Balanced slots s
      → Balanced slots (go_on events s)
  unfolding go_on
  go_on-Balanced slots [] s b = b
  go_on-Balanced slots (e ∷ events) s b =
      go_on-Balanced slots events (happen e s) (happen-Balanced slots e s b)

  abbrev pub fresh : ℕ → Slots
  fresh max_concurrent = record { semaphore = semaphore max_concurrent; held = 0 }

  -- From a new semaphore, whatever calls come and end, the free slots and the calls that hold one add up
  -- to a number that is the greater of 1 and `maxConcurrent`: it is at least both, and one of them. No
  -- slot is free while a call waits, and at most `maxQueued` calls wait.
  pub semaphore-Balanced :
      (max_concurrent : ℕ) (events : List Event)
      → (slots : ℕ) × (1 ≤ slots)
        × (max_concurrent ≤ slots)
        × ((slots ≡ 1) ⊎ (slots ≡ max_concurrent))
        × Balanced slots (go_on events (fresh max_concurrent))
  unfolding semaphore
  semaphore-Balanced max_concurrent events =
      let slots = (semaphore max_concurrent).available in
      (
        slots,
        ground arith,
        ground arith,
        ground arith,
        go_on-Balanced slots events (fresh max_concurrent)
            (record { total = omega arith; busy = inr refl; queue = omega arith }),
      )
