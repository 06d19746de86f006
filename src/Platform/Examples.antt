-- ===== src/Platform/Examples.antt =====
-- The theorems on packages/platform-cli, at concrete inputs.
use proflow.Base.{String, ◌≡◌, ◌⊎◌, refl, true, false, List, [], ◌∷◌, some, text_dec, sort_by}
use proflow.Base.{All, ◌↔◌}
use proflow.Platform.Version.{parse_semver, part_satisfied, parts_of, version_satisfies}
use proflow.Platform.Version.Range.{Sign, Bound, Allows, version_satisfies-Allows}
use proflow.Platform.Graph.{
  DependencyEdge, capability, ok, err, dependency_cycle, visit_all, visit, visit_nodes, distinct,
  distinct_numbers, deps_of, layered, compute_order,
}
use proflow.Platform.Graph.Visit.{Way}
use proflow.Platform.Graph.Precedence.{DepsFirst}
use proflow.Platform.Graph.Order.{order_or_cycle, order-DepsFirst}
use proflow.Platform.Graph.Build.{
  ResolvedModule, DependencyGraph, candidates, matching, edge_key, add_edge, add_providers,
  link_one, link_requires, link_modules, nodes_of, graph_of, build_dependency_graph,
}
use proflow.Platform.Graph.Build.Order.{ProvidersFirst, build-ProvidersFirst}

abbrev sample_edge : String → String → DependencyEdge
sample_edge from to = record {
  from = from;
  to = to;
  kind = capability;
  contract_ref = some "store";
}

abbrev two_nodes : List String
two_nodes = "app" ∷ "base" ∷ []

abbrev one_edge : List DependencyEdge
one_edge = sample_edge "app" "base" ∷ []

abbrev round_trip : List DependencyEdge
round_trip = sample_edge "app" "base" ∷ sample_edge "base" "app" ∷ []

ordered : compute_order two_nodes one_edge ≡ ok ("base" ∷ "app" ∷ [])
unfolding compute_order visit_nodes visit visit_all deps_of distinct layered distinct_numbers
    sort_by text_dec
ordered = refl

refused : compute_order two_nodes round_trip ≡ err (dependency_cycle "app")
unfolding compute_order visit_nodes visit visit_all deps_of distinct sort_by text_dec
refused = refl

order_or_cycle_example :
    ((order : List String) × (compute_order two_nodes round_trip ≡ ok order))
    ⊎ ((n : String) × (compute_order two_nodes round_trip ≡ err (dependency_cycle n))
        × Way (deps_of two_nodes round_trip) n n)
order_or_cycle_example = order_or_cycle two_nodes round_trip

order-DepsFirst_example : DepsFirst two_nodes one_edge [] ("base" ∷ "app" ∷ [])
order-DepsFirst_example = order-DepsFirst two_nodes one_edge ("base" ∷ "app" ∷ []) ordered

abbrev low_bound : Bound
low_bound = record { sign = Sign.from; text = "1.2.0"; version = (1, 2, 0) }

abbrev high_bound : Bound
high_bound = record { sign = Sign.below; text = "2.0.0"; version = (2, 0, 0) }

version_satisfies-Allows_example :
    (version_satisfies "1.4.2" ">=1.2.0 <2.0.0" ≡ true)
    ↔ All (λ (b : Bound). Allows b.sign (1, 4, 2) b.version) (low_bound ∷ high_bound ∷ [])
unfolding parse_semver parts_of text_dec
version_satisfies-Allows_example =
    version_satisfies-Allows "1.4.2" ">=1.2.0 <2.0.0" (1, 4, 2) low_bound (high_bound ∷ []) refl
      refl (refl, (refl, tt))

abbrev store_module : ResolvedModule
store_module = record {
  module_ref = "base";
  provides = record { contract_ref = "store"; version = "1.4.2" } ∷ [];
  requires = [];
}

abbrev app_module : ResolvedModule
app_module = record {
  module_ref = "app";
  provides = [];
  requires = record { contract_ref = "store"; version_range = ">=1.2.0"; optional = false } ∷ [];
}

abbrev two_modules : List ResolvedModule
two_modules = app_module ∷ store_module ∷ []

abbrev sample_graph : DependencyGraph
sample_graph = record { nodes = two_nodes; edges = one_edge; order = "base" ∷ "app" ∷ [] }

built : build_dependency_graph two_modules ≡ ok sample_graph
unfolding build_dependency_graph graph_of nodes_of link_modules link_requires link_one add_providers
    add_edge edge_key matching candidates version_satisfies parse_semver parts_of part_satisfied
    compute_order visit_nodes visit visit_all deps_of distinct layered distinct_numbers sort_by
    text_dec
built = refl

build-ProvidersFirst_example : ProvidersFirst two_modules sample_graph [] sample_graph.order
build-ProvidersFirst_example =
    build-ProvidersFirst two_modules sample_graph (refl, (refl, tt)) built
