-- ===== src/Platform/Graph/Precedence.antt =====
-- `computeOrder` of packages/platform-cli/src/graph/graph.ts: what the search has settled, read off the
-- edges and off the order.
use proflow.Base.{
  String, ℕ, suc, ◌≤◌, ◌<◌, ◌≡◌, ◌⊎◌, inl, inr, refl, sym, ◌∙◌, subst, true, false, List, [], ◌∷◌,
  map, arith, ap, ◌≢◌, if◌then◌else◌, ◌==◌, text_dec, Bool-cases, any, keep, text_lt, All, All-mono,
  sort_by-All, map-All, All-pair, keep-All, number_of, Ascending, Has, Has-All, all_Has,
}
use proflow.Platform.Graph.{
  unseen, visiting, done, Marks, visit_nodes, DependencyEdge, distinct, deps_of, depth_of, layered,
  blank, count,
}
use proflow.Platform.Graph.Marks.{fresh, IsBelow, IsDone}
use proflow.Platform.Graph.Visit.{Way, edge, further, Outcome, Settled, visit_nodes-Outcome}
use proflow.Platform.Graph.Layers.{All-layered}

pub distinct-All : (P : String → Type 0) (xs : List String) → All P (distinct xs) → All P xs
unfolding distinct
distinct-All P [] h = tt
distinct-All P (x ∷ xs) h = (
  h.0,
  distinct-All P xs (
      All-mono (λ y. (if x == y then false else true) ≡ true → P y) P
        (λ y k. elim (text_dec x y) [ yes e ↦ subst P e h.0 | no e ↦ k (ground arith) ])
        (distinct xs) (keep-All P (λ y. if x == y then false else true) (distinct xs) h.1)),
)

module _ (nodes : List String) (edges : List DependencyEdge) where
  -- Where a node of the list stands, the nodes of the list that it depends on are `seen`.
  abbrev pub DepsFirst : List String → List String → Type 0
  DepsFirst seen [] = Unit
  DepsFirst seen (n ∷ ns) =
      All (λ (e : DependencyEdge). e.from ≡ n → Has e.to nodes → Has e.to seen) edges
      × DepsFirst (n ∷ seen) ns

  abbrev Below : Marks → DependencyEdge → Type 0
  Below s e = depth_of s e.to < depth_of s e.from

  deps_of-All :
      (P : String → Type 0) (n : String)
      → Has n nodes
      → All P (deps_of nodes edges n)
      → All (λ (e : DependencyEdge). e.from ≡ n → P e.to) edges
  unfolding deps_of
  deps_of-All P n m h =
      All-mono (λ e. (e.from == n) ≡ true → P e.to) (λ e. e.from ≡ n → P e.to)
        (λ e k q. k (ground (arith, q))) edges
        (keep-All (λ e. P e.to) (λ e. e.from == n) edges
          (map-All (λ (e : DependencyEdge). e.to) P (keep (λ e. e.from == n) edges)
            (distinct-All P (map (λ (e : DependencyEdge). e.to) (keep (λ e. e.from == n) edges)) (
              sort_by-All P text_lt
                (distinct (map (λ (e : DependencyEdge). e.to) (keep (λ e. e.from == n) edges)))
                (rw m at h)))))

  pub deps_of-within : (n : String) → (deps_of nodes edges n ≡ []) ⊎ Has n nodes
  unfolding deps_of
  deps_of-within n = elim (Bool-cases (any (λ m. m == n) nodes)) [
    | inl e ↦ inr e
    | inr e ↦ inl (rw e refl)
  ]

  fresh-blank : (ns : List String) → fresh blank ns ≡ count ns
  unfolding fresh
  fresh-blank [] = refl
  fresh-blank (n ∷ ns) = ap suc (fresh-blank ns)

  unseen≢done : {d : ℕ} → unseen ≢ done d
  unseen≢done h = cc

  unseen≢visiting : unseen ≢ visiting
  unseen≢visiting h = cc

  pub visited-Outcome :
      Outcome
        (deps_of nodes edges)
        (Settled (deps_of nodes edges) nodes blank)
        (visit_nodes (deps_of nodes edges) (suc (count nodes)) nodes blank)
  visited-Outcome =
      visit_nodes-Outcome (deps_of nodes edges) nodes deps_of-within (suc (count nodes)) nodes blank
        (λ n d h. absurd (unseen≢done h)) (λ n h. absurd (unseen≢visiting h))
        (omega (arith, fresh-blank nodes))

  pub Has-number_of : (x : String) (xs : List String) → Has x xs → 0 < number_of (λ m. m == x) xs
  Has-number_of x [] h = absurd (ground (arith, h))
  Has-number_of x (y ∷ ys) h = ground (arith, h, Has-number_of x ys)

  pub number_of-Has : (x : String) (xs : List String) → 0 < number_of (λ m. m == x) xs → Has x xs
  number_of-Has x [] h = absurd (ground (arith, h))
  number_of-Has x (y ∷ ys) h = ground (arith, h, number_of-Has x ys)

  less_than_itself : {a : ℕ} → ¬ (a < a)
  less_than_itself h = omega (arith, h)

  step :
      (k n : String) (seen ns : List String)
      → Has k seen ⊎ Has k (n ∷ ns)
      → Has k (n ∷ seen) ⊎ Has k ns
  step k n seen ns (inl h) = inl (ground (arith, h))
  step k n seen ns (inr h) = elim (text_dec n k) [
    | yes e ↦ inl (ground (arith, e))
    | no e ↦ inr (ground (arith, e, h))
  ]

  module _ (s : Marks) (w : Settled (deps_of nodes edges) nodes blank s) where
    abbrev Known : String → Type 0
    Known n = IsDone s n × Has n nodes

    pub order-Known : All Known (layered s nodes)
    order-Known =
        All-layered s nodes Known
          (All-pair (IsDone s) (λ n. Has n nodes) nodes w.all_done (all_Has nodes))

    below_each :
        (n : String)
        → Known n
        → All (λ (e : DependencyEdge). e.from ≡ n → depth_of s e.to < depth_of s n) edges
    below_each n ((d, h), m) =
        deps_of-All (λ k. depth_of s k < depth_of s n) n m
          (All-mono (IsBelow s d) (λ k. depth_of s k < depth_of s n)
            (λ k (e, q, lt). ground (arith, q, h, lt)) (deps_of nodes edges n) (w.layered n d h))

    not_later :
        (n : String) (ns : List String) (k : String)
        → Has k (n ∷ ns)
        → depth_of s k < depth_of s n
        → ¬ All (λ m. depth_of s n ≤ depth_of s m) ns
    not_later n ns k m lt a = elim (text_dec n k) [
      | yes e ↦ less_than_itself (subst (λ x. depth_of s x < depth_of s n) (sym e) lt)
      | no e ↦
          ground
            (arith, lt, Has-All (λ m. depth_of s n ≤ depth_of s m) k ns (ground (arith, e, m)) a)
    ]

    pub tail-DepsFirst :
        (seen order : List String)
        → All Known order
        → Ascending (depth_of s) order
        → ((k : String) → Has k nodes → Has k seen ⊎ Has k order)
        → DepsFirst seen order
    tail-DepsFirst seen [] a h c = tt
    tail-DepsFirst seen (n ∷ ns) a h c = (
      All-mono (λ (e : DependencyEdge). e.from ≡ n → depth_of s e.to < depth_of s n)
          (λ (e : DependencyEdge). e.from ≡ n → Has e.to nodes → Has e.to seen)
          (λ e b q m. elim (c e.to m) [
            | inl k ↦ k
            | inr k ↦ absurd (not_later n ns e.to (ground (arith, k)) (b q) h.0)
          ])
          edges (below_each n a.0),
      tail-DepsFirst (n ∷ seen) ns a.1 h.1 (λ k m. step k n seen ns (c k m)),
    )

    lower : {d : ℕ} (k : String) → IsBelow s d k → All (IsBelow s d) (deps_of nodes edges k)
    lower {d} k (e, h, lt) =
        All-mono (IsBelow s e) (IsBelow s d) (λ m (c, q, l). (c, q, omega (arith, l, lt)))
          (deps_of nodes edges k) (w.layered k e h)

    pub Way-IsBelow :
        {a b : String} (d : ℕ) → s a ≡ done d → Way (deps_of nodes edges) a b → IsBelow s d b
    Way-IsBelow {a} {b} d h (edge m) =
        Has-All (IsBelow s d) b (deps_of nodes edges a) m (w.layered a d h)
    Way-IsBelow {a} {b} d h (further {b = c} p m) =
        Has-All (IsBelow s d) b (deps_of nodes edges c) m (lower c (Way-IsBelow d h p))

    has_deps : {a b : String} → Way (deps_of nodes edges) a b → deps_of nodes edges a ≢ []
    has_deps {a} {b} (edge m) e = absurd (ground (arith, m, e))
    has_deps {a} {b} (further p m) e = has_deps p e

    done-injective : {a b : ℕ} → done a ≡ done b → a ≡ b
    done-injective h = cc

    not-IsBelow : (n : String) (d : ℕ) → s n ≡ done d → ¬ IsBelow s d n
    not-IsBelow n d h (e, k, lt) = omega (arith, lt, done-injective (sym k ∙ h))

    pub acyclic : (n : String) → ¬ Way (deps_of nodes edges) n n
    acyclic n p = elim (deps_of-within n) [
      | inl e ↦ has_deps p e
      | inr m ↦
          let (d, h) = Has-All (IsDone s) n nodes m w.all_done in
          not-IsBelow n d h (Way-IsBelow d h p)
    ]
