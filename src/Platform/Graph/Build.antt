-- ===== src/Platform/Graph/Build.antt =====
-- packages/platform-cli/src/graph/graph.ts: `buildDependencyGraph`. The set of keys beside the list of
-- edges is the keys of the edges, since both grow in `addEdge` alone.
pub mod Keys
pub mod Linked
pub mod Built
pub mod Served
pub mod Order
use Prim.Native.String
use proflow.Base.{
  String, Bool, true, false, List, [], ◌∷◌, ◌++◌, Option, none, some, map, if◌then◌else◌, ◌==◌, any,
  keep, text_lt, sort_by,
}
use proflow.Platform.Version.{version_satisfies}
use proflow.Platform.Graph.{
  EdgeKind, module_ref, capability, DependencyEdge, PlatformError, dependency_incompatible,
  dependency_unresolved, Result, ok, err, ◌>>=◌, distinct, concat, compute_order,
}

pub record Provide : Type 0 where
  pub contract_ref : String
  pub version : String

pub record Requirement : Type 0 where
  pub contract_ref : String
  pub version_range : String
  pub optional : Bool

pub record ResolvedModule : Type 0 where
  pub module_ref : String
  pub provides : List Provide
  pub requires : List Requirement

pub record Provider : Type 0 where
  pub module_ref : String
  pub version : String

pub record DependencyGraph : Type 0 where
  pub nodes : List String
  pub edges : List DependencyEdge
  pub order : List String

-- `providersByContract.get(contractRef) ?? []`
unfoldable pub candidates : List ResolvedModule → String → List Provider
candidates [] contract = []
candidates (m ∷ ms) contract =
    map (λ (p : Provide). record { module_ref = m.module_ref; version = p.version })
      (keep (λ p. p.contract_ref == contract) m.provides)
    ++ candidates ms contract

unfoldable pub matching : List ResolvedModule → Requirement → List Provider
matching modules r =
    sort_by (λ a b. text_lt a.module_ref b.module_ref)
      (keep (λ p. version_satisfies p.version r.version_range) (candidates modules r.contract_ref))

abbrev pub kind_text : EdgeKind → String
kind_text module_ref = "moduleRef"
kind_text capability = "capability"

abbrev or_empty : Option String → String
or_empty none = ""
or_empty (some s) = s

infixr 5 ◌then◌
abbrev ◌then◌ : String → String → String
s then t = String.◌++◌ s t

unfoldable pub edge_key : DependencyEdge → String
edge_key e =
    kind_text e.kind then "|" then e.from then "|" then e.to then "|" then or_empty e.contract_ref

unfoldable pub add_edge : DependencyEdge → List DependencyEdge → List DependencyEdge
add_edge e edges = if any (λ x. edge_key x == edge_key e) edges then edges else edges ++ e ∷ []

abbrev pub capability_edge : String → String → Provider → DependencyEdge
capability_edge from contract p = record {
  from = from;
  to = p.module_ref;
  kind = capability;
  contract_ref = some contract;
}

unfoldable pub add_providers :
    String → String → List Provider → List DependencyEdge → List DependencyEdge
add_providers from contract [] edges = edges
add_providers from contract (p ∷ ps) edges =
    add_providers from contract ps (add_edge (capability_edge from contract p) edges)

-- The three ways on from the providers that match, those of the contract at all, and `optional`.
abbrev pub link_found :
    String
    → String
    → List Provider
    → List Provider
    → Bool
    → List DependencyEdge
    → Result (List DependencyEdge)
link_found from contract (p ∷ ps) _ _ edges = ok (add_providers from contract (p ∷ ps) edges)
link_found from contract [] (_ ∷ _) _ edges = err (dependency_incompatible from contract)
link_found from contract [] [] true edges = ok edges
link_found from contract [] [] false edges = err (dependency_unresolved from contract)

module _ (modules : List ResolvedModule) where
  -- One round of the loop over `module.requires`.
  unfoldable pub link_one :
      String → Requirement → List DependencyEdge → Result (List DependencyEdge)
  link_one from r edges =
      link_found from r.contract_ref (matching modules r) (candidates modules r.contract_ref)
        r.optional edges

  unfoldable pub link_requires :
      String → List Requirement → List DependencyEdge → Result (List DependencyEdge)
  link_requires from [] edges = ok edges
  link_requires from (r ∷ rs) edges = link_one from r edges >>= link_requires from rs

  unfoldable pub link_modules :
      List ResolvedModule → List DependencyEdge → Result (List DependencyEdge)
  link_modules [] edges = ok edges
  link_modules (m ∷ ms) edges = link_requires m.module_ref m.requires edges >>= link_modules ms

abbrev pub edge_lt : DependencyEdge → DependencyEdge → Bool
edge_lt a b =
    if text_lt a.from b.from
    then true
    else if text_lt b.from a.from
    then false
    else if text_lt a.to b.to
    then true
    else if text_lt b.to a.to
    then false
    else text_lt (kind_text a.kind) (kind_text b.kind)

abbrev pub ref_lt : ResolvedModule → ResolvedModule → Bool
ref_lt a b = text_lt a.module_ref b.module_ref

abbrev pub by_ref : List ResolvedModule → List ResolvedModule
by_ref modules = sort_by ref_lt modules

unfoldable pub nodes_of : List ResolvedModule → List String
nodes_of modules = sort_by text_lt (distinct (map (λ (m : ResolvedModule). m.module_ref) modules))

unfoldable pub graph_of : List String → List DependencyEdge → Result DependencyGraph
graph_of nodes edges = compute_order nodes edges >>= λ order.
    ok (record { nodes = nodes; edges = edges; order = order })

unfoldable pub build_dependency_graph : List ResolvedModule → Result DependencyGraph
build_dependency_graph modules = link_modules modules (by_ref modules) [] >>= λ edges.
    graph_of (nodes_of modules) (sort_by edge_lt edges)
