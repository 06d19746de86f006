-- ===== src/Platform/Graph.antt =====
-- packages/platform-cli/src/graph/graph.ts: `computeOrder`. The maps `state` and `depth` are one
-- function, since `depth` is written where `state` becomes "done". The recursion of `visit` takes
-- fuel; `order_of` gives one more than the number of nodes, and running out of it is an error that
-- no graph meets.
pub mod Marks
pub mod Visit
pub mod Layers
pub mod Precedence
pub mod Order
pub mod Build
use proflow.Base.{
  String, ℕ, zero, suc, ◌+◌, Bool, true, false, ◌&&◌, List, [], ◌∷◌, ◌++◌, Option, none, some, map,
  if◌then◌else◌, ltb, nat_eq, ◌==◌, any, keep, text_lt, sort_by,
}

pub data EdgeKind : Type 0 where
  module_ref capability : EdgeKind

pub record DependencyEdge : Type 0 where
  pub from : String
  pub to : String
  pub kind : EdgeKind
  pub contract_ref : Option String

pub data PlatformError : Type 0 where
  dependency_cycle : String → PlatformError
  dependency_incompatible dependency_unresolved : String → String → PlatformError
  out_of_fuel : PlatformError

pub data Result (A : Type 0) : Type 0 where
  ok : A → Result A
  err : PlatformError → Result A

infixl 5 ◌>>=◌
abbrev pub ◌>>=◌ : {A B : Type 0} → Result A → (A → Result B) → Result B
ok a >>= f = f a
err e >>= f = err e

pub data Mark : Type 0 where
  unseen visiting : Mark
  done : ℕ → Mark

abbrev pub Marks : Type 0
Marks = String → Mark

abbrev pub set : String → Mark → Marks → Marks
set n m s = λ k. if n == k then m else s k

abbrev pub larger : ℕ → ℕ → ℕ
larger a b = if ltb a b then b else a

-- The loop over the dependencies of a node: the depth above the deepest one.
unfoldable pub visit_all :
    (String → Marks → Result (ℕ × Marks)) → List String → ℕ → Marks → Result (ℕ × Marks)
visit_all go [] deepest s = ok (deepest, s)
visit_all go (d ∷ ds) deepest s = go d s >>= λ (k, s'). visit_all go ds (larger deepest (k + 1)) s'

abbrev pub finish : String → ℕ × Marks → Result (ℕ × Marks)
finish n (deepest, s) = ok (deepest, set n (done deepest) s)

module _ (deps : String → List String) where
  unfoldable pub visit : ℕ → String → Marks → Result (ℕ × Marks)
  visit zero n s = err out_of_fuel
  visit (suc fuel) n s = elim (s n) [
    | done depth ↦ ok (depth, s)
    | visiting ↦ err (dependency_cycle n)
    | unseen ↦ visit_all (visit fuel) (deps n) 0 (set n visiting s) >>= finish n
  ]

  -- `for (const node of nodes) visit(node)`
  unfoldable pub visit_nodes : ℕ → List String → Marks → Result Marks
  visit_nodes fuel [] s = ok s
  visit_nodes fuel (n ∷ ns) s = visit fuel n s >>= λ (_, s'). visit_nodes fuel ns s'

-- The members of `s`, each once, in the order of their first appearance.
unfoldable pub distinct : List String → List String
distinct [] = []
distinct (x ∷ xs) = x ∷ keep (λ y. if x == y then false else true) (distinct xs)

unfoldable pub distinct_numbers : List ℕ → List ℕ
distinct_numbers [] = []
distinct_numbers (x ∷ xs) = x ∷ keep (λ y. if nat_eq x y then false else true) (distinct_numbers xs)

-- `deps.get(node) ?? new Set()`, sorted.
unfoldable pub deps_of : List String → List DependencyEdge → String → List String
deps_of nodes edges n =
    if any (λ m. m == n) nodes
    then sort_by text_lt
        (distinct (map (λ (e : DependencyEdge). e.to) (keep (λ e. e.from == n) edges)))
    else []

-- `depth.get(node) ?? 0`
abbrev pub depth_of : Marks → String → ℕ
depth_of s n = elim (s n) [ done d ↦ d | _ ↦ 0 ]

abbrev pub layer : Marks → List String → ℕ → List String
layer s nodes d = sort_by text_lt (keep (λ n. nat_eq (depth_of s n) d) nodes)

abbrev pub concat : List (List String) → List String
concat [] = []
concat (xs ∷ xss) = xs ++ concat xss

unfoldable pub layered : Marks → List String → List String
layered s nodes =
    concat (map (layer s nodes) (sort_by ltb (distinct_numbers (map (depth_of s) nodes))))

abbrev pub blank : Marks
blank n = unseen

abbrev pub count : List String → ℕ
count [] = 0
count (x ∷ xs) = suc (count xs)

unfoldable pub compute_order : List String → List DependencyEdge → Result (List String)
compute_order nodes edges =
    visit_nodes (deps_of nodes edges) (suc (count nodes)) nodes blank >>= λ s. ok (layered s nodes)
