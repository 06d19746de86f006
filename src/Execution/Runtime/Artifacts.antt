-- ===== src/Execution/Runtime/Artifacts.antt =====
-- packages/execution-runtime/src/index.ts: the registry of artifacts.
use proflow.Base.{
  String, ℕ, Bool, false, not, ◌&&◌, ◌||◌, List, [], ◌∷◌, ◌++◌, Option, none, some, if◌then◌else◌,
  ◌==◌, option_eq, get_row, text_key, keep,
}
use proflow.Execution.Approvals.{Artifact, ExecuteRequest, Moment, patch_apply, other}
use proflow.Execution.Approvals.Operations.{present}
use proflow.Execution.Runtime.{
  Request, Stored, Relation, Tables, ok, err, Act, ◌>>=◌, ◌>>◌, pure, throw, failure,
  invalid_request, identity_invalid, scope_denied, precondition_failed, idempotency_conflict,
}

abbrev pub stored_key : Stored → String
stored_key a = a.artifact.artifact_ref

abbrev pub find_stored : String → Tables → Option Stored
find_stored ref s = get_row stored_key ref s.artifacts

-- `getArtifactStorage`
unfoldable pub get_artifact_storage : String → Act Stored
get_artifact_storage ref s = elim (find_stored ref s) [
  | none ↦ throw (failure invalid_request) s
  | some a ↦ pure a s
]

-- `expected !== undefined && expected !== actual`
abbrev pub is_other_scope : Option String → Option String → Bool
is_other_scope none actual = false
is_other_scope expected actual = not (option_eq expected actual)

abbrev pub out_of_scope :
    Artifact → Option String → Option String → Option String → Option String → Bool
out_of_scope a task node role worker =
    is_other_scope a.task_id task
    || is_other_scope a.node_id node
    || is_other_scope a.role_ref role
    || is_other_scope a.worker_ref worker

pub record ArtifactRead : Type 0 where
  pub artifact_ref : String
  pub caller_ref : String
  pub task_id : Option String
  pub node_id : Option String
  pub role_ref : Option String
  pub worker_ref : Option String

abbrev pub check_read : ArtifactRead → Stored → Act Stored
check_read input a =
    if not (a.artifact.owner_caller_ref == input.caller_ref)
    then throw (failure identity_invalid)
    else if out_of_scope a.artifact input.task_id input.node_id input.role_ref input.worker_ref
    then throw (failure scope_denied)
    else pure a

unfoldable pub get_artifact_record : ArtifactRead → Act Stored
get_artifact_record input = get_artifact_storage input.artifact_ref >>= check_read input

abbrev pub check_patch : ExecuteRequest → Stored → Act Unit
check_patch request a =
    if not (a.artifact.kind == "patch-proposal")
    then throw (failure precondition_failed)
    else if not (a.artifact.owner_caller_ref == request.caller_ref)
    then throw (failure identity_invalid)
    else if out_of_scope a.artifact request.task_id request.node_id request.role_ref
        request.worker_ref
    then throw (failure scope_denied)
    else pure tt

-- `assertPatchArtifactScope`
unfoldable pub assert_patch_scope : ExecuteRequest → Act Unit
assert_patch_scope request = elim request.capability [
  | other _ ↦ pure tt
  | patch_apply ref ↦ get_artifact_storage ref >>= check_patch request
]

-- What an executor made.
pub record ExecutorArtifact : Type 0 where
  pub ref : String
  pub path : String
  pub bytes : ℕ
  pub stream : String
  pub kind : Option String
  pub hash : Option String
  pub mime : Option String
  pub metadata : Option String
  pub base_hash : Option String
  pub base_ref : Option String

-- `JSON.stringify` of an artifact's record, and the metadata with the execution's reference in it.
pub record Texts : Type 0 where
  pub stringify : Stored → String
  pub metadata : String → String → Option String → String

module _ (texts : Texts) where
  abbrev pub same_artifact : Stored → Stored → Bool
  same_artifact a b = texts.stringify a == texts.stringify b && a.path == b.path

  unfoldable pub register_artifact : Stored → Act Stored
  register_artifact a s = elim (find_stored a.artifact.artifact_ref s) [
    | none ↦ (ok a, record s { artifacts = s.artifacts ++ a ∷ [] })
    | some b ↦ (if same_artifact b a then pure b else throw (failure idempotency_conflict)) s
  ]

  abbrev pub kind_of : Option String → String
  kind_of none = "output"
  kind_of (some kind) = kind

  abbrev pub stored_of : Moment → Request → String → ExecutorArtifact → Stored
  stored_of now request execution a = record {
    artifact = record {
      artifact_ref = a.ref;
      kind = kind_of a.kind;
      hash = present a.hash;
      owner_caller_ref = request.scope.caller_ref;
      task_id = present request.scope.task_id;
      node_id = present request.scope.node_id;
      role_ref = present request.scope.role_ref;
      worker_ref = present request.scope.worker_ref;
      base_hash = a.base_hash;
      base_ref = a.base_ref;
    };
    mime = present a.mime;
    bytes = a.bytes;
    metadata = texts.metadata a.stream execution a.metadata;
    created_at = now.stamp;
    path = a.path;
  }

  abbrev pub relation_of : String → ExecutorArtifact → Relation
  relation_of execution a = record {
    execution_ref = execution;
    artifact_ref = a.ref;
    stream = a.stream;
    path = a.path;
  }

  abbrev pub is_relation : String → String → Relation → Bool
  is_relation execution ref r = r.execution_ref == execution && r.artifact_ref == ref

  abbrev pub same_relation : Relation → Relation → Bool
  same_relation a b = a.stream == b.stream && a.path == b.path

  unfoldable pub relate : Relation → Act Unit
  relate r s = elim (keep (is_relation r.execution_ref r.artifact_ref) s.relations) [
    | [] ↦ (ok tt, record s { relations = s.relations ++ r ∷ [] })
    | old ∷ _ ↦ (if same_relation old r then pure tt else throw (failure idempotency_conflict)) s
  ]

  unfoldable pub register_each : Moment → Request → String → List ExecutorArtifact → Act Unit
  register_each now request execution [] = pure tt
  register_each now request execution (a ∷ rest) =
      register_artifact (stored_of now request execution a)
      >> relate (relation_of execution a)
      >> register_each now request execution rest

  -- BEGIN IMMEDIATE, and COMMIT or ROLLBACK.
  unfoldable pub register_all : Moment → Request → String → List ExecutorArtifact → Act Unit
  register_all now request execution artifacts s =
      let (r, s') = register_each now request execution artifacts s in
      elim r [ ok _ ↦ (ok tt, s') | err e ↦ (err e, s) ]
