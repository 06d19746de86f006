-- ===== src/Host/Coordinator/Queues.antt =====
-- packages/platform-host/src/reconciliation-coordinator.ts: the sizes of the queues, and the bounds.
use proflow.Base.{
  String, ℕ, ◌+◌, ◌≤◌, ◌≡◌, refl, true, List, [], ◌∷◌, ◌++◌, arith, ◌==◌, length, All, Bool-cases,
  inl, inr,
}
use proflow.Host.Coordinator.{
  Limits, Queue, Failure, State, has, add, remove, keys_of, set_keys, drop_keys, is_empty,
  keep_queue, set_failure, capped, drop_failure,
}

-- The signals in all queues.
abbrev pub total : List Queue → ℕ
total [] = 0
total (q ∷ qs) = length q.keys + total qs

pub length-append : (xs ys : List String) → length (xs ++ ys) ≡ length xs + length ys
length-append [] ys = ground arith
length-append (x ∷ xs) ys = ground (arith, length-append xs ys)

pub length-remove :
    (x : String) (xs : List String) → has x xs ≡ true → length (remove x xs) + 1 ≡ length xs
length-remove x [] h = absurd (ground (arith, h))
length-remove x (y ∷ ys) h = ground (arith, h, length-remove x ys)

pub remove-shorter : (x : String) (xs : List String) → length (remove x xs) ≤ length xs
remove-shorter x [] = ground arith
remove-shorter x (y ∷ ys) = ground (arith, remove-shorter x ys)

pub total-set_keys :
    (task : String) (keys : List String) (qs : List Queue)
    → total (set_keys task keys qs) + length (keys_of task qs) ≡ total qs + length keys
unfolding set_keys keys_of
total-set_keys task keys [] = ground arith
total-set_keys task keys (q ∷ qs) = ground (arith, total-set_keys task keys qs)

pub total-drop_keys :
    (task : String) (qs : List Queue)
    → total (drop_keys task qs) + length (keys_of task qs) ≡ total qs
unfolding drop_keys keys_of
total-drop_keys task [] = ground arith
total-drop_keys task (q ∷ qs) = ground (arith, total-drop_keys task qs)

pub length-is_empty : (keys : List String) → is_empty keys ≡ true → length keys ≡ 0
length-is_empty [] h = refl
length-is_empty (k ∷ ks) h = absurd (ground (arith, h))

pub total-keep_queue :
    (task : String) (keys : List String) (qs : List Queue)
    → total (keep_queue task keys qs) + length (keys_of task qs) ≡ total qs + length keys
total-keep_queue task keys qs = elim (Bool-cases (is_empty keys)) [
  | inl e ↦ ground (arith, e, total-drop_keys task qs, length-is_empty keys)
  | inr e ↦ ground (arith, e, total-set_keys task keys qs)
]

abbrev pub FewIntents : Queue → Type 0
FewIntents q = length q.keys ≤ 128

abbrev pub FewAttempts : Failure → Type 0
FewAttempts f = f.attempt ≤ 8

-- The count of pending signals is the number in the queues, and no capacity is passed.
pub record Bounded (limits : Limits) (s : State) : Type 0 where
  pub counted : s.pending_count ≡ total s.pending
  pub signals : s.pending_count ≤ limits.max_pending_signals
  pub tasks : length s.admitted ≤ limits.max_pending_tasks
  pub slots : s.active ≤ limits.concurrency
  pub intents : All FewIntents s.applied
  pub attempts : All FewAttempts s.failures

pub All-set_keys :
    (task : String) (keys : List String) (qs : List Queue)
    → length keys ≤ 128
    → All FewIntents qs
    → All FewIntents (set_keys task keys qs)
unfolding set_keys
All-set_keys task keys [] h k = (h, tt)
All-set_keys task keys (q ∷ qs) h k = elim (Bool-cases (q.task_id == task)) [
  | inl e ↦ rw e (h, k.1)
  | inr e ↦ rw e (k.0, All-set_keys task keys qs h k.1)
]

pub All-drop_keys :
    (task : String) (qs : List Queue) → All FewIntents qs → All FewIntents (drop_keys task qs)
unfolding drop_keys
All-drop_keys task [] k = tt
All-drop_keys task (q ∷ qs) k = elim (Bool-cases (q.task_id == task)) [
  | inl e ↦ rw e k.1
  | inr e ↦ rw e (k.0, All-drop_keys task qs k.1)
]

pub All-set_failure :
    (v : Failure) (fs : List Failure)
    → FewAttempts v
    → All FewAttempts fs
    → All FewAttempts (set_failure v fs)
unfolding set_failure
All-set_failure v [] h k = (h, tt)
All-set_failure v (f ∷ fs) h k = elim (Bool-cases (f.task_id == v.task_id)) [
  | inl e ↦ rw e (h, k.1)
  | inr e ↦ rw e (k.0, All-set_failure v fs h k.1)
]

pub All-drop_failure :
    (task : String) (fs : List Failure)
    → All FewAttempts fs
    → All FewAttempts (drop_failure task fs)
All-drop_failure task [] k = tt
All-drop_failure task (f ∷ fs) k = elim (Bool-cases (f.task_id == task)) [
  | inl e ↦ rw e k.1
  | inr e ↦ rw e (k.0, All-drop_failure task fs k.1)
]

pub keys_of-FewIntents :
    (task : String) (qs : List Queue) → All FewIntents qs → length (keys_of task qs) ≤ 128
unfolding keys_of
keys_of-FewIntents task [] h = ground arith
keys_of-FewIntents task (q ∷ qs) h = ground (arith, h.0, keys_of-FewIntents task qs h.1)

pub capped-short : (keys : List String) → length keys ≤ 129 → length (capped keys) ≤ 128
capped-short [] h = ground arith
capped-short (k ∷ ks) h = ground (arith, h)

pub length-add : (x : String) (xs : List String) → length (add x xs) ≤ length xs + 1
length-add x xs = elim (Bool-cases (has x xs)) [
  | inl e ↦ rw e (ground arith)
  | inr e ↦ rw e (ground (arith, length-append xs (x ∷ [])))
]

pub length-add_known :
    (x : String) (xs : List String) → has x xs ≡ true → length (add x xs) ≡ length xs
length-add_known x xs e = rw e refl
