-- ===== src/Platform/Graph/Build/Order.antt =====
-- `buildDependencyGraph` of packages/platform-cli/src/graph/graph.ts: every requirement is served, and
-- every module stands in the order behind the modules that serve it.
use proflow.Base.{
  String, ◌≡◌, ◌∙◌, subst, true, List, [], ◌∷◌, ==_iff, ◌==◌, All, All-mono, All-pair,
  number_of-All, Has,
}
use proflow.Platform.Graph.{DependencyEdge, ok}
use proflow.Platform.Graph.Precedence.{DepsFirst}
use proflow.Platform.Graph.Order.{order-DepsFirst}
use proflow.Platform.Graph.Build.{
  Requirement, ResolvedModule, Provider, DependencyGraph, matching, edge_key, capability_edge,
  nodes_of, build_dependency_graph,
}
use proflow.Platform.Graph.Build.Keys.{is_clean, edge_key-ends, HasKey}
use proflow.Platform.Graph.Build.Linked.{Succeeds, IsServed, EndsAre}
use proflow.Platform.Graph.Build.Built.{
  RequirementsOf, Built, build-Built, nodes_of-All, matching-Offers, Servers, matching-Servers,
}

module _ (modules : List ResolvedModule) (g : DependencyGraph) where
  -- Where a module stands, the modules that serve its requirements are `seen`.
  abbrev pub ProvidersFirst : List String → List String → Type 0
  ProvidersFirst seen [] = Unit
  ProvidersFirst seen (n ∷ ns) =
      RequirementsOf modules (λ m r. m.module_ref ≡ n → Servers (λ k. Has k seen) modules r)
      × ProvidersFirst (n ∷ seen) ns

  abbrev Known : String → Type 0
  Known n = Has n (nodes_of modules) × (is_clean n ≡ true)

  module _ (clean : All (λ (m : ResolvedModule). is_clean m.module_ref ≡ true) modules) where
    all_Known : All (λ (m : ResolvedModule). Known m.module_ref) modules
    all_Known =
        All-pair (λ (m : ResolvedModule). Has m.module_ref (nodes_of modules))
          (λ (m : ResolvedModule). is_clean m.module_ref ≡ true) modules (nodes_of-All modules)
          clean

    -- The edge to a provider, with the ends that its key has, puts the provider among the `seen`.
    seen_of :
        (seen : List String) (m : ResolvedModule) (r : Requirement)
        → Known m.module_ref
        → All (EndsAre modules Known) g.edges
        → All
            (λ (e : DependencyEdge).
              e.from ≡ m.module_ref → Has e.to (nodes_of modules) → Has e.to seen)
            g.edges
        → IsServed modules m.module_ref g.edges r
        → All (λ (p : Provider). Has p.module_ref seen) (matching modules r)
    seen_of seen m r k ends first served =
        let edge_of : Provider → DependencyEdge = capability_edge m.module_ref r.contract_ref in
        All-mono (λ (p : Provider). HasKey (edge_of p) g.edges × Known p.module_ref)
          (λ (p : Provider). Has p.module_ref seen)
          (λ p (has, known).
            let (x, (ends_x, first_x), same) =
              number_of-All (λ x. edge_key x == edge_key (edge_of p))
                (λ x.
                  EndsAre modules Known x
                  × (x.from ≡ m.module_ref → Has x.to (nodes_of modules) → Has x.to seen))
                g.edges has
                (All-pair (EndsAre modules Known)
                  (λ (e : DependencyEdge).
                    e.from ≡ m.module_ref → Has e.to (nodes_of modules) → Has e.to seen)
                  g.edges ends first) in
            let (from, to) =
              edge_key-ends x (edge_of p) ((ends_x.0).1, (ends_x.1).1) (k.1, known.1)
                ((==_iff (edge_key x) (edge_key (edge_of p))).0 same) in
            subst (λ n. Has n seen) to (first_x from (ends_x.1).0))
          (matching modules r)
          (All-pair (λ (p : Provider). HasKey (edge_of p) g.edges)
            (λ (p : Provider). Known p.module_ref) (matching modules r) served.linked
            (matching-Offers Known modules r all_Known))

    order-ProvidersFirst :
        All (EndsAre modules Known) g.edges
        → RequirementsOf modules (λ m r. IsServed modules m.module_ref g.edges r)
        → (seen order : List String) → DepsFirst (nodes_of modules) g.edges seen order
        → ProvidersFirst seen order
    order-ProvidersFirst ends served seen [] h = tt
    order-ProvidersFirst ends served seen (n ∷ ns) h = (
      All-mono
          (λ (m : ResolvedModule).
            Known m.module_ref × All (IsServed modules m.module_ref g.edges) m.requires)
          (λ (m : ResolvedModule).
            All (λ r. m.module_ref ≡ n → Servers (λ k. Has k seen) modules r) m.requires)
          (λ (m : ResolvedModule) (known, s).
            All-mono (IsServed modules m.module_ref g.edges)
              (λ r. m.module_ref ≡ n → Servers (λ k. Has k seen) modules r)
              (λ r is_served q.
                matching-Servers (λ k. Has k seen) modules r
                  (seen_of seen m r known ends
                    (All-mono
                      (λ (e : DependencyEdge).
                        e.from ≡ n → Has e.to (nodes_of modules) → Has e.to seen)
                      (λ (e : DependencyEdge).
                        e.from ≡ m.module_ref → Has e.to (nodes_of modules) → Has e.to seen)
                      (λ e f a. f (a ∙ q)) g.edges h.0)
                    is_served))
              m.requires s)
          modules
          (All-pair (λ (m : ResolvedModule). Known m.module_ref)
            (λ (m : ResolvedModule). All (IsServed modules m.module_ref g.edges) m.requires) modules
            all_Known served),
      order-ProvidersFirst ends served (n ∷ seen) ns h.1,
    )

    -- When `buildDependencyGraph` returns a graph of modules whose references have no `|`, at each
    -- place of the order where a module stands, every module that provides the contract of one of
    -- its requirements, in a version of the range, stands before.
    pub build-ProvidersFirst : build_dependency_graph modules ≡ ok g → ProvidersFirst [] g.order
    build-ProvidersFirst h =
        let built : Built modules Known g =
          subst (Succeeds (Built modules Known)) h (build-Built modules Known all_Known) in
        order-ProvidersFirst built.ends built.served [] g.order
          (order-DepsFirst (nodes_of modules) g.edges g.order built.order)
