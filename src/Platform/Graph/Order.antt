-- ===== src/Platform/Graph/Order.antt =====
-- `computeOrder` of packages/platform-cli/src/graph/graph.ts: it ends, it fails on cycles alone, and
-- its order has every node behind the nodes it depends on.
use proflow.Base.{String, suc, ◌≡◌, ◌⊎◌, inl, inr, refl, subst, List, [], ◌==◌, number_of}
use proflow.Platform.Graph.{
  Result, ok, err, dependency_cycle, dependency_incompatible, dependency_unresolved, out_of_fuel,
  Marks, visit_nodes, DependencyEdge, deps_of, layered, blank, count, compute_order,
}
use proflow.Platform.Graph.Visit.{Way, Outcome, Outcome-bind, Settled}
use proflow.Platform.Graph.Layers.{times-layered, layered-Ascending}
use proflow.Platform.Graph.Precedence.{
  DepsFirst, visited-Outcome, Has-number_of, number_of-Has, order-Known, tail-DepsFirst, acyclic,
}

module _ (nodes : List String) (edges : List DependencyEdge) where
  record IsOrder (order : List String) : Type 0 where
    same_nodes : (x : String) → number_of (λ m. m == x) order ≡ number_of (λ m. m == x) nodes
    deps_first : DepsFirst nodes edges [] order
    acyclic : (n : String) → ¬ Way (deps_of nodes edges) n n

  layered-IsOrder :
      (s : Marks) → Settled (deps_of nodes edges) nodes blank s → IsOrder (layered s nodes)
  layered-IsOrder s w = record {
    same_nodes = times-layered s nodes;
    deps_first =
        tail-DepsFirst nodes edges s w [] (layered s nodes) (order-Known nodes edges s w)
          (layered-Ascending s nodes)
          (λ k m. inr (
            number_of-Has nodes edges k (layered s nodes)
              (rw (times-layered s nodes k) (Has-number_of nodes edges k nodes m))));
    acyclic = acyclic nodes edges s w;
  }

  compute_layered-IsOrder : Outcome (deps_of nodes edges) IsOrder (compute_order nodes edges)
  unfolding compute_order
  compute_layered-IsOrder =
      Outcome-bind (deps_of nodes edges) (Settled (deps_of nodes edges) nodes blank) IsOrder
        (visit_nodes (deps_of nodes edges) (suc (count nodes)) nodes blank)
        (λ s. ok (layered s nodes)) (visited-Outcome nodes edges) layered-IsOrder

  Outcome-cases :
      (r : Result (List String))
      → Outcome (deps_of nodes edges) IsOrder r
      → ((order : List String) × (r ≡ ok order))
        ⊎ ((n : String) × (r ≡ err (dependency_cycle n)) × Way (deps_of nodes edges) n n)
  Outcome-cases (ok order) h = inl (order, refl)
  Outcome-cases (err (dependency_cycle n)) h = inr (n, refl, h)
  Outcome-cases (err (dependency_incompatible a b)) h = absurd h
  Outcome-cases (err (dependency_unresolved a b)) h = absurd h
  Outcome-cases (err out_of_fuel) h = absurd h

  -- `computeOrder` ends on every graph: it returns an order, or the error DEPENDENCY_CYCLE, and then
  -- the node that the error names lies on a cycle of dependencies.
  pub order_or_cycle :
      ((order : List String) × (compute_order nodes edges ≡ ok order))
      ⊎ ((n : String) × (compute_order nodes edges ≡ err (dependency_cycle n))
          × Way (deps_of nodes edges) n n)
  order_or_cycle = Outcome-cases (compute_order nodes edges) compute_layered-IsOrder

  module _ (order : List String) (h : compute_order nodes edges ≡ ok order) where
    found-IsOrder : IsOrder order
    found-IsOrder = subst (Outcome (deps_of nodes edges) IsOrder) h compute_layered-IsOrder

    -- When `computeOrder` returns an order, no node depends on itself along any way of dependencies.
    pub order_of_acyclic : (n : String) → ¬ Way (deps_of nodes edges) n n
    order_of_acyclic = found-IsOrder.acyclic

    -- The order that `computeOrder` returns has the same nodes as the list it was given, each as
    -- often as there.
    pub order_of_same_nodes :
        (x : String) → number_of (λ m. m == x) order ≡ number_of (λ m. m == x) nodes
    order_of_same_nodes = found-IsOrder.same_nodes

    -- In the order that `computeOrder` returns, at each place where a node stands, every node of the
    -- list that it has an edge to stands before.
    pub order-DepsFirst : DepsFirst nodes edges [] order
    order-DepsFirst = found-IsOrder.deps_first
