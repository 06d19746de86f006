-- ===== src/Execution/Approvals.antt =====
-- packages/execution-runtime/src/approval-owner.ts: the records of approvals and the tables beside
-- them. A record is stored as its JSON text, which gives the record back. Values that the source does
-- nothing but hash (a precondition, an artifact's metadata) are their JSON texts.
pub mod Operations
pub mod Trail
pub mod Calls
pub mod Requests
pub mod Validity
pub mod History
pub mod Final
use proflow.Base.{
  String, ℕ, ◌≡◌, List, [], ◌∷◌, ◌++◌, Option, none, some, Key, text_key, get_row, put_row,
}

pub data Status : Type 0 where
  pending approved denied revoked consumed expired : Status

-- `patch.apply` with the artifact of its input, or another capability by its name.
pub data Capability : Type 0 where
  patch_apply other : String → Capability

abbrev pub capability_name : Capability → String
capability_name (patch_apply artifact) = "patch.apply"
capability_name (other name) = name

-- What the owner reads of an `ExecuteCapabilityRequest`.
pub record ExecuteRequest : Type 0 where
  pub caller_ref : String
  pub task_id : Option String
  pub node_id : Option String
  pub role_ref : Option String
  pub worker_ref : Option String
  pub capability : Capability
  pub project_root : Option String

-- A row of the table `executions`.
pub record Execution : Type 0 where
  pub execution_ref : String
  pub request : ExecuteRequest
  pub input_fingerprint : String

pub record Artifact : Type 0 where
  pub artifact_ref : String
  pub kind : String
  pub hash : Option String
  pub owner_caller_ref : String
  pub task_id : Option String
  pub node_id : Option String
  pub role_ref : Option String
  pub worker_ref : Option String
  pub base_hash : Option String
  pub base_ref : Option String

pub record ApprovalRecord : Type 0 where
  pub approval_ref : String
  pub execution_ref : String
  pub caller_ref : String
  pub task_id : Option String
  pub node_id : Option String
  pub role_ref : Option String
  pub worker_ref : Option String
  pub capability : String
  pub input_fingerprint : String
  pub effect_fingerprint : String
  pub scope_fingerprint : String
  pub precondition_fingerprint : Option String
  pub status : Status
  pub requested_by_actor_ref : String
  pub decided_by_actor_ref : Option String
  pub reason : Option String
  pub requested_at : String
  pub expires_at : String
  pub decided_at : Option String
  pub revoked_at : Option String
  pub consumed_at : Option String
  pub version : ℕ

pub data Code : Type 0 where
  artifact_not_found artifact_kind_invalid approval_not_found execution_not_found : Code
  approval_expiry_invalid approval_version_conflict approval_state_invalid : Code
  -- `approval_ref` is the primary key.
  internal : Code

-- The values that `sha` is taken of.
pub record Scope : Type 0 where
  pub caller_ref : String
  pub task_id : Option String
  pub node_id : Option String
  pub role_ref : Option String
  pub worker_ref : Option String
  pub project_root : Option String

-- The artifact is of the kind `patch-proposal`.
pub record Effect : Type 0 where
  pub capability : String
  pub input_fingerprint : String
  pub project_root : Option String
  pub patch_artifact : Option Artifact

pub data Hashed : Type 0 where
  of_effect : Effect → Hashed
  of_scope : Scope → Hashed
  of_precondition : String → Hashed

-- The runtime: `Date.parse`, and SHA-256 over the canonical JSON text of a value.
pub record Runtime : Type 0 where
  pub parse_date : String → ℕ
  pub sha : Hashed → String

-- The clock and the id source at a call: `now().getTime()`, `now().toISOString()` and `idFactory()`.
pub record Moment : Type 0 where
  pub time : ℕ
  pub stamp : String
  pub id : String

pub record Owner : Type 0 where
  pub approvals : List ApprovalRecord
  pub executions : List Execution
  pub artifacts : List Artifact

abbrev pub approval_key : ApprovalRecord → String
approval_key a = a.approval_ref

abbrev pub find_approval : String → Owner → Option ApprovalRecord
find_approval ref owner = get_row approval_key ref owner.approvals

abbrev pub find_execution : String → Owner → Option Execution
find_execution ref owner = get_row (λ (e : Execution). e.execution_ref) ref owner.executions

abbrev pub find_artifact : String → Owner → Option Artifact
find_artifact ref owner = get_row (λ (a : Artifact). a.artifact_ref) ref owner.artifacts

-- A call returns or throws, and what it has written stays written: there is no transaction.
pub data Result (A : Type 0) : Type 0 where
  ok : A → Result A
  err : Code → Result A

abbrev pub Act : Type 0 → Type 0
Act A = Owner → Result A × Owner

infixl 5 ◌>>=◌ ◌>>◌
abbrev pub ◌>>=◌ : {A B : Type 0} → Act A → (A → Act B) → Act B
◌>>=◌ m f s = let (r, s') = m s in elim r [ ok a ↦ f a s' | err e ↦ (err e, s') ]

abbrev pub ◌>>◌ : {A B : Type 0} → Act A → Act B → Act B
m >> k = m >>= λ _. k

abbrev pub pure : {A : Type 0} → A → Act A
pure a s = (ok a, s)

abbrev pub throw : {A : Type 0} → Code → Act A
throw e s = (err e, s)

-- `UPDATE execution_approvals SET record_json=? WHERE approval_ref=?`
abbrev pub save : ApprovalRecord → Act ApprovalRecord
save a s = (ok a, record s { approvals = put_row approval_key a s.approvals })
