-- ===== src/Task/Environment.antt =====
-- What the task services take from outside, as the values that one command sees: the clock
-- (`options.now`), fresh ids (`options.createId`), SHA-256 (node:crypto), JSON (the runtime), and
-- the files under the workspace root (node:fs), by path relative to the root.
use proflow.Base.{String, ℕ, Option, ◌≡◌}
use Prim.Native.String.{◌++◌}

pub record Environment (Request Response : Type 0) : Type 0 where
  pub now : String
  -- `createId(prefix)`, for the calls of one command by number.
  pub create_id : String → ℕ → String
  pub sha256 : String → String
  pub file : String → Option String
  -- `hash(input)`: the SHA-256 of the canonical JSON of the validated input.
  pub fingerprint : Request → String
  pub stringify : Response → String
  pub parse : String → Response

-- JSON.parse gives back the response that JSON.stringify wrote.
abbrev pub RoundTrips :
    {Request Response : Type 0} → Environment Request Response → Response → Type 0
RoundTrips env r = env.parse (env.stringify r) ≡ r

unfoldable pub content_hash :
    {Request Response : Type 0} → Environment Request Response → String → String
content_hash env value = "sha256:" ++ env.sha256 value
