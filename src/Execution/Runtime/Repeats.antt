-- ===== src/Execution/Runtime/Repeats.antt =====
-- packages/execution-runtime/src/index.ts: a request that is repeated.
use proflow.Base.{
  String, Bool-cases, inl, inr, ==_iff, ◌==◌, ◌≡◌, ◌≢◌, refl, sym, ap, ◌∙◌, true, false, List, some,
  arith, All-find,
}
use proflow.Execution.Runtime.{
  Request, ExecutionRecord, Row, Tables, ok, err, failure, idempotency_conflict, succeeded,
}
use proflow.Execution.Runtime.Artifacts.{assert_patch_scope}
use proflow.Execution.Runtime.Intents.{
  Env, find_intent, is_intent, is_compatible, is_resumable, input_fingerprint, legacy_fingerprint,
}
use proflow.Execution.Runtime.Execute.{World, execute_capability}
use proflow.Execution.Runtime.Life.{IsSound, Sound, Subject, Trail-subject}
use proflow.Execution.Runtime.History.{
  Call, serve, serve-Keeps, Trail-succeeded, execute-settled, execute-incompatible,
}

differs : (a b : String) → a ≢ b → (a == b) ≡ false
differs a b h = elim (Bool-cases (a == b)) [ inl e ↦ absurd (h ((==_iff a b).0 e)) | inr e ↦ e ]

module _ (env : Env) where
  pub intent-IsSound :
      (request : Request) (s : Tables) (row : Row)
      → Sound s
      → find_intent request s ≡ some row
      → IsSound row
  unfolding find_intent
  intent-IsSound request s row h e =
      (All-find IsSound (is_intent request) s.executions row h.rows e).0

  pub current-is_compatible :
      (request : Request) (row : Row)
      → row.input_fingerprint ≡ input_fingerprint env request
      → is_compatible env row request ≡ true
  unfolding is_compatible
  current-is_compatible request row e = ground (arith, e)

  -- Once the execution of a request has SUCCEEDED, the request made again, after any calls and whatever
  -- the policy, the approvals and the executors would say, returns the record as it was and writes
  -- nothing, where the runtime is open and the scope of a patch is in order. The tables are sound and the
  -- row has the fingerprint of the request.
  pub execute-again :
      (calls : List Call) (world : World) (request : Request) (row : Row) (s : Tables)
      → Sound s
      → find_intent request s ≡ some row
      → row.input_fingerprint ≡ input_fingerprint env request
      → row.execution.status ≡ succeeded
      → world.closed ≡ false
      → (assert_patch_scope request.scope (serve env calls s)).0 ≡ ok tt
      → execute_capability env world request (serve env calls s)
        ≡ (ok row.execution, serve env calls s)
  execute-again calls world request row s h e print success open_one scope =
      let kept = serve-Keeps env calls s h in
      let (after, found, trail) = kept.evolves.intents request row e in
      let same : after.execution ≡ row.execution = Trail-succeeded env trail success in
      let print' : after.input_fingerprint ≡ input_fingerprint env request =
        sym (intent-IsSound request (serve env calls s) after kept.sound found).input_fingerprint
        ∙ ap (λ (x : ExecutionRecord). x.input_fingerprint) same
        ∙ (intent-IsSound request s row h e).input_fingerprint
        ∙ print in
      let final : is_resumable after.execution.status after.execution.side_effect_state ≡ false =
        rw (same, success) refl in
      execute-settled env world request after (serve env calls s) open_one scope found
        (current-is_compatible request after print') final
      ∙ ap (λ x. (ok x, serve env calls s)) same

  -- Another fingerprint than the request has, in this form and in that of earlier releases.
  other-is_compatible :
      (request : Request) (row : Row)
      → row.input_fingerprint ≢ input_fingerprint env request
      → row.input_fingerprint ≢ legacy_fingerprint env request
      → is_compatible env row request ≡ false
  unfolding is_compatible
  other-is_compatible request row p q = ground (
    arith,
    differs row.input_fingerprint (input_fingerprint env request) p,
    differs row.input_fingerprint (legacy_fingerprint env request) q,
  )

  -- Once a row stands under the idempotency key and caller of a request with neither of the
  -- fingerprints that the request may have, the request is an IDEMPOTENCY_CONFLICT and writes nothing,
  -- after any calls and whatever has become of the execution, where the runtime is open and the scope
  -- of a patch is in order. The tables are sound.
  pub execute-conflict :
      (calls : List Call) (world : World) (request : Request) (row : Row) (s : Tables)
      → Sound s
      → find_intent request s ≡ some row
      → row.input_fingerprint ≢ input_fingerprint env request
      → row.input_fingerprint ≢ legacy_fingerprint env request
      → world.closed ≡ false
      → (assert_patch_scope request.scope (serve env calls s)).0 ≡ ok tt
      → execute_capability env world request (serve env calls s)
        ≡ (err (failure idempotency_conflict), serve env calls s)
  execute-conflict calls world request row s h e p q open_one scope =
      let kept = serve-Keeps env calls s h in
      let (after, found, trail) = kept.evolves.intents request row e in
      let same : after.input_fingerprint ≡ row.input_fingerprint =
        sym (intent-IsSound request (serve env calls s) after kept.sound found).input_fingerprint
        ∙ ap (λ (t : Subject). t.input_fingerprint) (Trail-subject trail)
        ∙ (intent-IsSound request s row h e).input_fingerprint in
      execute-incompatible env world request after (serve env calls s) open_one scope found
        (other-is_compatible request after (λ x. p (sym same ∙ x)) (λ x. q (sym same ∙ x)))
