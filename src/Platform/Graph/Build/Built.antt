-- ===== src/Platform/Graph/Build/Built.antt =====
-- `buildDependencyGraph` of packages/platform-cli/src/graph/graph.ts: what is known of the graph that it
-- returns, for a property of the references of the modules.
use proflow.Base.{
  String, ◌≡◌, refl, true, List, [], ◌∷◌, map, ◌==◌, text_lt, keep, sort_by, All, All-mono,
  All-append, append-All, keep-All, ==_iff, All-keep, All-sort_by, sort_by-All, map-All, All-map,
  All-constant, number_of-sort_by, Has, all_Has,
}
use proflow.Platform.Version.{version_satisfies}
use proflow.Platform.Graph.{DependencyEdge, Result, ok, err, ◌>>=◌, distinct, compute_order}
use proflow.Platform.Graph.Precedence.{distinct-All}
use proflow.Platform.Graph.Build.{
  Provide, Requirement, ResolvedModule, Provider, DependencyGraph, candidates, matching, edge_key,
  edge_lt, ref_lt, by_ref, link_modules, nodes_of, graph_of, build_dependency_graph,
}
use proflow.Platform.Graph.Build.Keys.{Grows}
use proflow.Platform.Graph.Build.Linked.{
  Succeeds, Succeeds-bind, IsServed, IsServed-Grows, EndsAre, Offers, AllLinked, Sourced,
  link_modules-AllLinked,
}

pub nodes_of-All :
    (modules : List ResolvedModule)
    → All (λ (m : ResolvedModule). Has m.module_ref (nodes_of modules)) modules
unfolding nodes_of
nodes_of-All modules =
    map-All (λ (m : ResolvedModule). m.module_ref) (λ n. Has n (nodes_of modules)) modules
      (distinct-All (λ n. Has n (nodes_of modules))
        (map (λ (m : ResolvedModule). m.module_ref) modules)
        (sort_by-All (λ n. Has n (nodes_of modules)) text_lt
          (distinct (map (λ (m : ResolvedModule). m.module_ref) modules))
          (all_Has (nodes_of modules))))

module _ (P : String → Type 0) where
  candidates-All :
      (modules : List ResolvedModule) (contract : String)
      → All (λ (m : ResolvedModule). P m.module_ref) modules
      → All (λ (p : Provider). P p.module_ref) (candidates modules contract)
  unfolding candidates
  candidates-All [] contract h = tt
  candidates-All (m ∷ ms) contract h =
      let of_this = keep (λ (p : Provide). p.contract_ref == contract) m.provides in
      let provider : Provide → Provider =
        λ p. record { module_ref = m.module_ref; version = p.version } in
      All-append (λ (p : Provider). P p.module_ref) (map provider of_this) (candidates ms contract)
        (All-map provider (λ (p : Provider). P p.module_ref) of_this
          (All-constant (P m.module_ref) of_this h.0))
        (candidates-All ms contract h.1)

  pub matching-Offers :
      (modules : List ResolvedModule) (r : Requirement)
      → All (λ (m : ResolvedModule). P m.module_ref) modules
      → Offers modules P r
  unfolding matching
  matching-Offers modules r h =
      All-sort_by (λ (p : Provider). P p.module_ref)
        (λ (a b : Provider). text_lt a.module_ref b.module_ref)
        (keep (λ (p : Provider). version_satisfies p.version r.version_range)
          (candidates modules r.contract_ref))
        (All-keep (λ (p : Provider). P p.module_ref)
          (λ (p : Provider). version_satisfies p.version r.version_range)
          (candidates modules r.contract_ref) (candidates-All modules r.contract_ref h))

module _ (P : Provider → Type 0) where
  pub candidates-provides :
      (contract : String) (modules : List ResolvedModule)
      → All P (candidates modules contract)
      → All
          (λ (m : ResolvedModule).
            All
              (λ (v : Provide).
                v.contract_ref ≡ contract
                → P (record { module_ref = m.module_ref; version = v.version }))
              m.provides)
          modules
  unfolding candidates
  candidates-provides contract [] h = tt
  candidates-provides contract (m ∷ ms) h =
      let provider : Provide → Provider =
        λ (v : Provide). record { module_ref = m.module_ref; version = v.version } in
      let of_this = keep (λ (v : Provide). v.contract_ref == contract) m.provides in
      let (a, b) = append-All P (map provider of_this) (candidates ms contract) h in
      (
        All-mono (λ (v : Provide). (v.contract_ref == contract) ≡ true → P (provider v))
            (λ (v : Provide). v.contract_ref ≡ contract → P (provider v))
            (λ v f e. f ((==_iff v.contract_ref contract).1 e)) m.provides
            (keep-All (λ v. P (provider v)) (λ (v : Provide). v.contract_ref == contract) m.provides
              (map-All provider P of_this a)),
        candidates-provides contract ms b,
      )

-- `P` holds of every module that provides the contract of a requirement in a version of its range.
abbrev pub Servers : (String → Type 0) → List ResolvedModule → Requirement → Type 0
Servers P modules r =
    All
      (λ (m : ResolvedModule).
        All
          (λ (v : Provide).
            v.contract_ref ≡ r.contract_ref
            → version_satisfies v.version r.version_range ≡ true
            → P m.module_ref)
          m.provides)
      modules

pub matching-provides :
    (Q : Provider → Type 0) (modules : List ResolvedModule) (r : Requirement)
    → All Q (matching modules r)
    → All
        (λ (m : ResolvedModule).
          All
            (λ (v : Provide).
              v.contract_ref ≡ r.contract_ref
              → version_satisfies v.version r.version_range ≡ true
              → Q (record { module_ref = m.module_ref; version = v.version }))
            m.provides)
        modules
unfolding matching
matching-provides Q modules r h =
    candidates-provides (λ (p : Provider). version_satisfies p.version r.version_range ≡ true → Q p)
      r.contract_ref modules
      (keep-All Q (λ (p : Provider). version_satisfies p.version r.version_range)
        (candidates modules r.contract_ref)
        (sort_by-All Q (λ (a c : Provider). text_lt a.module_ref c.module_ref)
          (keep (λ (p : Provider). version_satisfies p.version r.version_range)
            (candidates modules r.contract_ref))
          h))

pub matching-Servers :
    (P : String → Type 0) (modules : List ResolvedModule) (r : Requirement)
    → All (λ (p : Provider). P p.module_ref) (matching modules r)
    → Servers P modules r
matching-Servers P modules r h = matching-provides (λ (p : Provider). P p.module_ref) modules r h

module _ (modules : List ResolvedModule) where
  abbrev pub RequirementsOf : (ResolvedModule → Requirement → Type 0) → Type 0
  RequirementsOf P = All (λ (m : ResolvedModule). All (P m) m.requires) modules

  module _ (P : String → Type 0) where
    pub record Built (g : DependencyGraph) : Type 0 where
      pub nodes : g.nodes ≡ nodes_of modules
      pub ends : All (EndsAre modules P) g.edges
      pub served : RequirementsOf (λ m r. IsServed modules m.module_ref g.edges r)
      pub order : compute_order (nodes_of modules) g.edges ≡ ok g.order

    sort-Grows : (es : List DependencyEdge) → Grows es (sort_by edge_lt es)
    sort-Grows es e h = rw (number_of-sort_by (λ x. edge_key x == edge_key e) edge_lt es) h

    pub RequirementsOf-mono :
        (Q R : ResolvedModule → Requirement → Type 0)
        → ((m : ResolvedModule) (r : Requirement) → Q m r → R m r)
        → RequirementsOf Q
        → RequirementsOf R
    RequirementsOf-mono Q R f h =
        All-mono (λ (m : ResolvedModule). All (Q m) m.requires)
          (λ (m : ResolvedModule). All (R m) m.requires)
          (λ (m : ResolvedModule) k. All-mono (Q m) (R m) (f m) m.requires k) modules h

    order-Built :
        (es : List DependencyEdge) (r : Result (List String))
        → compute_order (nodes_of modules) es ≡ r
        → All (EndsAre modules P) es
        → RequirementsOf (λ m r. IsServed modules m.module_ref es r)
        → Succeeds Built
            (r >>= λ order. ok (record { nodes = nodes_of modules; edges = es; order = order }))
    order-Built es (ok order) e h k = record { nodes = refl; ends = h; served = k; order = e }
    order-Built es (err _) e h k = tt

    graph_of-Built :
        (es : List DependencyEdge)
        → AllLinked modules P (by_ref modules) [] es
        → Succeeds Built (graph_of (nodes_of modules) (sort_by edge_lt es))
    unfolding graph_of
    graph_of-Built es w =
        order-Built (sort_by edge_lt es) (compute_order (nodes_of modules) (sort_by edge_lt es))
          refl (All-sort_by (EndsAre modules P) edge_lt es w.ends)
          (RequirementsOf-mono (λ m r. IsServed modules m.module_ref es r)
            (λ m r. IsServed modules m.module_ref (sort_by edge_lt es) r)
            (λ m. IsServed-Grows modules m.module_ref es (sort_by edge_lt es) (sort-Grows es))
            (sort_by-All (λ (m : ResolvedModule). All (IsServed modules m.module_ref es) m.requires)
              ref_lt modules w.served))

    all_Offers :
        (rs : List Requirement)
        → All (λ (m : ResolvedModule). P m.module_ref) modules
        → All (Offers modules P) rs
    all_Offers [] h = tt
    all_Offers (r ∷ rs) h = (matching-Offers P modules r h, all_Offers rs h)

    pub build-Built :
        All (λ (m : ResolvedModule). P m.module_ref) modules
        → Succeeds Built (build_dependency_graph modules)
    unfolding build_dependency_graph
    build-Built h =
        Succeeds-bind (AllLinked modules P (by_ref modules) []) Built
          (link_modules modules (by_ref modules) [])
          (λ edges. graph_of (nodes_of modules) (sort_by edge_lt edges))
          (link_modules-AllLinked modules P (by_ref modules) []
            (All-sort_by (Sourced modules P) ref_lt modules (
              All-mono (λ (m : ResolvedModule). P m.module_ref) (Sourced modules P)
                (λ m q. (q, all_Offers m.requires h)) modules h))
            tt)
          graph_of-Built
