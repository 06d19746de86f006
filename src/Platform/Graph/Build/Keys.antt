-- ===== src/Platform/Graph/Build/Keys.antt =====
-- `addEdge` in packages/platform-cli/src/graph/graph.ts: the key of an edge, and what adding keeps.
use Prim.Native.Char.{code}
use Prim.Native.String
use Prim.Native.String.{String, [], ◌∷◌}
use text.Mathlib.TextLemmas.{nil-append, cons-append}
use proflow.Base.{
  ◌<◌, ◌≡◌, refl, sym, ap, ◌∙◌, Bool, true, not, ◌&&◌, List, [], ◌∷◌, arith, inl, inr,
  if◌then◌else◌, nat_eq, ◌==◌, Bool-cases, any, All, All-append, number_of, number_of-append,
}
use proflow.Platform.Graph.{DependencyEdge, EdgeKind, module_ref, capability}
use proflow.Platform.Graph.Build.{
  Provider, kind_text, edge_key, add_edge, capability_edge, add_providers,
}

-- A text with no `|`.
abbrev pub is_clean : String → Bool
is_clean [] = true
is_clean (c ∷ s) = not (nat_eq (code c) b'|') && is_clean s

-- The text before the first `|`, and the text behind it.
abbrev cut : String → String × String
cut [] = ("", "")
cut (c ∷ s) = let rest = cut s in if nat_eq (code c) b'|' then ("", s) else (c ∷ rest.0, rest.1)

cut-append : (a x : String) → is_clean a ≡ true → cut (String.◌++◌ a (String.◌++◌ "|" x)) ≡ (a, x)
cut-append [] x h = rw (nil-append, cons-append) (rw nil-append refl)
cut-append (c ∷ a) x h = rw cons-append (ground (arith, h, cut-append a x (ground (arith, h))))

at_bar :
    (a b x y : String)
    → is_clean a ≡ true
    → is_clean b ≡ true
    → String.◌++◌ a (String.◌++◌ "|" x) ≡ String.◌++◌ b (String.◌++◌ "|" y)
    → (a ≡ b) × (x ≡ y)
at_bar a b x y h k e =
    let cuts : (a, x) ≡ (b, y) = sym (cut-append a x h) ∙ ap cut e ∙ cut-append b y k in
    (ap (λ (p : String × String). p.0) cuts, ap (λ (p : String × String). p.1) cuts)

kind_text-clean : (k : EdgeKind) → is_clean (kind_text k) ≡ true
kind_text-clean module_ref = refl
kind_text-clean capability = refl

abbrev pub CleanEnds : DependencyEdge → Type 0
CleanEnds e = (is_clean e.from ≡ true) × (is_clean e.to ≡ true)

-- Keys of edges between clean references are equal for equal ends alone.
pub edge_key-ends :
    (e v : DependencyEdge)
    → CleanEnds e
    → CleanEnds v
    → edge_key e ≡ edge_key v
    → (e.from ≡ v.from) × (e.to ≡ v.to)
unfolding edge_key
edge_key-ends e v a b h =
    let (_, h1) = at_bar _ _ _ _ (kind_text-clean e.kind) (kind_text-clean v.kind) h in
    let (from, h2) = at_bar _ _ _ _ a.0 b.0 h1 in
    let (to, _) = at_bar _ _ _ _ a.1 b.1 h2 in (from, to)

module _ (e : DependencyEdge) where
  -- An edge with the key of `e` is in the list.
  abbrev pub HasKey : List DependencyEdge → Type 0
  HasKey edges = 0 < number_of (λ x. edge_key x == edge_key e) edges

  any-HasKey :
      (edges : List DependencyEdge)
      → any (λ x. edge_key x == edge_key e) edges ≡ true
      → HasKey edges
  any-HasKey [] h = absurd (ground (arith, h))
  any-HasKey (x ∷ xs) h = ground (arith, h, any-HasKey xs)

  pub add_edge-HasKey : (edges : List DependencyEdge) → HasKey (add_edge e edges)
  unfolding add_edge
  add_edge-HasKey edges = elim (Bool-cases (any (λ x. edge_key x == edge_key e) edges)) [
    | inl h ↦ rw h (any-HasKey edges h)
    | inr h ↦ rw h (ground (arith, number_of-append (λ x. edge_key x == edge_key e) edges (e ∷ [])))
  ]

abbrev pub Grows : List DependencyEdge → List DependencyEdge → Type 0
Grows edges longer = (e : DependencyEdge) → HasKey e edges → HasKey e longer

add_edge-Grows : (v : DependencyEdge) (edges : List DependencyEdge) → Grows edges (add_edge v edges)
unfolding add_edge
add_edge-Grows v edges e k = elim (Bool-cases (any (λ x. edge_key x == edge_key v) edges)) [
  | inl h ↦ rw h k
  | inr h ↦
      rw h (ground (arith, k, number_of-append (λ x. edge_key x == edge_key e) edges (v ∷ [])))
]

add_edge-All :
    (P : DependencyEdge → Type 0) (v : DependencyEdge) (edges : List DependencyEdge)
    → P v
    → All P edges
    → All P (add_edge v edges)
unfolding add_edge
add_edge-All P v edges h k = elim (Bool-cases (any (λ x. edge_key x == edge_key v) edges)) [
  | inl e ↦ rw e k
  | inr e ↦ rw e (All-append P edges (v ∷ []) k (h, tt))
]

module _ (from contract : String) where
  pub add_providers-Grows :
      (ps : List Provider) (edges : List DependencyEdge)
      → Grows edges (add_providers from contract ps edges)
  unfolding add_providers
  add_providers-Grows [] edges e h = h
  add_providers-Grows (p ∷ ps) edges e h =
      add_providers-Grows ps (add_edge (capability_edge from contract p) edges) e
        (add_edge-Grows (capability_edge from contract p) edges e h)

  pub all_HasKey :
      (ps : List Provider) (edges : List DependencyEdge)
      → All
          (λ p. HasKey (capability_edge from contract p) (add_providers from contract ps edges))
          ps
  unfolding add_providers
  all_HasKey [] edges = tt
  all_HasKey (p ∷ ps) edges = (
    add_providers-Grows ps (add_edge (capability_edge from contract p) edges)
        (capability_edge from contract p) (add_edge-HasKey (capability_edge from contract p) edges),
    all_HasKey ps (add_edge (capability_edge from contract p) edges),
  )

  pub add_providers-All :
      (P : DependencyEdge → Type 0) (ps : List Provider) (edges : List DependencyEdge)
      → All (λ p. P (capability_edge from contract p)) ps
      → All P edges
      → All P (add_providers from contract ps edges)
  unfolding add_providers
  add_providers-All P [] edges h k = k
  add_providers-All P (p ∷ ps) edges h k =
      add_providers-All P ps (add_edge (capability_edge from contract p) edges) h.1
        (add_edge-All P (capability_edge from contract p) edges h.0 k)
