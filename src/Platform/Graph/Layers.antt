-- ===== src/Platform/Graph/Layers.antt =====
-- The layers of `computeOrder` in packages/platform-cli/src/graph/graph.ts: the nodes of one depth, the
-- smaller depths first.
use proflow.Base.{
  String, ℕ, ◌≤◌, ◌≡◌, inl, inr, refl, sym, ◌∙◌, Bool, true, false, List, [], ◌∷◌, map, arith,
  if◌then◌else◌, ltb, nat_eq, ◌==◌, Bool-cases, any, keep, text_lt, sort_by, All, All-append,
  All-mono, All-keep, All-kept, All-sort_by, number_of, number_of-append, number_of-sort_by,
  Ascending, Ascending-append, Ascending-level, IsSorted, sort_by-IsSorted, Has, all_Has,
}
use proflow.Platform.Graph.{Marks, distinct_numbers, depth_of, layer, concat, layered}

-- Each number of `xs` stands once in `distinct_numbers xs`.
number_of-keep :
    (d x : ℕ) (ys : List ℕ)
    → number_of (nat_eq d) (keep (λ y. if nat_eq x y then false else true) ys)
      ≡ (if nat_eq x d then 0 else number_of (nat_eq d) ys)
number_of-keep d x [] = ground arith
number_of-keep d x (y ∷ ys) = ground (arith, number_of-keep d x ys)

number_of-distinct_numbers :
    (d : ℕ) (xs : List ℕ)
    → number_of (nat_eq d) (distinct_numbers xs) ≡ (if any (nat_eq d) xs then 1 else 0)
unfolding distinct_numbers
number_of-distinct_numbers d [] = refl
number_of-distinct_numbers d (x ∷ xs) =
    ground (arith, number_of-keep d x (distinct_numbers xs), number_of-distinct_numbers d xs)

module _ (s : Marks) (nodes : List String) where
  abbrev times : String → List String → ℕ
  times x = number_of (λ m. m == x)

  times-keep :
      (q : String → Bool) (x : String) (xs : List String)
      → times x (keep q xs) ≡ (if q x then times x xs else 0)
  times-keep q x [] = ground arith
  times-keep q x (y ∷ ys) = ground (arith, times-keep q x ys)

  times-layer :
      (x : String) (d : ℕ)
      → times x (layer s nodes d) ≡ (if nat_eq (depth_of s x) d then times x nodes else 0)
  times-layer x d =
      number_of-sort_by (λ m. m == x) text_lt (keep (λ n. nat_eq (depth_of s n) d) nodes)
      ∙ times-keep (λ n. nat_eq (depth_of s n) d) x nodes

  times_none :
      (x : String) (ds : List ℕ)
      → number_of (nat_eq (depth_of s x)) ds ≡ 0
      → times x (concat (map (layer s nodes) ds)) ≡ 0
  times_none x [] h = refl
  times_none x (d ∷ ds) h = ground (
    arith,
    number_of-append (λ m. m == x) (layer s nodes d) (concat (map (layer s nodes) ds)),
    times-layer x d,
    h,
    times_none x ds,
  )

  times_once :
      (x : String) (ds : List ℕ)
      → number_of (nat_eq (depth_of s x)) ds ≡ 1
      → times x (concat (map (layer s nodes) ds)) ≡ times x nodes
  times_once x [] h = absurd (ground (arith, h))
  times_once x (d ∷ ds) h = ground (
    arith,
    number_of-append (λ m. m == x) (layer s nodes d) (concat (map (layer s nodes) ds)),
    times-layer x d,
    h,
    times_none x ds,
    times_once x ds,
  )

  times_of_depths :
      (x : String) (ms : List String)
      → any (nat_eq (depth_of s x)) (map (depth_of s) ms) ≡ false
      → times x ms ≡ 0
  times_of_depths x [] h = refl
  times_of_depths x (m ∷ ms) h = ground (arith, h, times_of_depths x ms)

  abbrev depths : List ℕ
  depths = sort_by ltb (distinct_numbers (map (depth_of s) nodes))

  number_of-depths :
      (d : ℕ)
      → number_of (nat_eq d) depths ≡ (if any (nat_eq d) (map (depth_of s) nodes) then 1 else 0)
  number_of-depths d =
      number_of-sort_by (nat_eq d) ltb (distinct_numbers (map (depth_of s) nodes))
      ∙ number_of-distinct_numbers d (map (depth_of s) nodes)

  pub times-layered : (x : String) → times x (layered s nodes) ≡ times x nodes
  unfolding layered
  times-layered x = elim (Bool-cases (any (nat_eq (depth_of s x)) (map (depth_of s) nodes))) [
    | inl e ↦ times_once x depths (number_of-depths (depth_of s x) ∙ rw e refl)
    | inr e ↦
        times_none x depths (number_of-depths (depth_of s x) ∙ rw e refl)
        ∙ sym (times_of_depths x nodes e)
  ]

  layer-level : (d : ℕ) → All (λ n. depth_of s n ≡ d) (layer s nodes d)
  layer-level d =
      All-sort_by (λ n. depth_of s n ≡ d) text_lt (keep (λ n. nat_eq (depth_of s n) d) nodes)
        (All-mono (λ n. Has n nodes × (nat_eq (depth_of s n) d ≡ true)) (λ n. depth_of s n ≡ d)
          (λ n h. ground (arith, h.1)) (keep (λ n. nat_eq (depth_of s n) d) nodes)
          (All-kept (λ n. Has n nodes) (λ n. nat_eq (depth_of s n) d) nodes (all_Has nodes)))

  above_all :
      (d : ℕ) (ds : List ℕ)
      → All (λ c. d ≤ c) ds
      → All (λ n. d ≤ depth_of s n) (concat (map (layer s nodes) ds))
  above_all d [] h = tt
  above_all d (c ∷ ds) h =
      All-append (λ n. d ≤ depth_of s n) (layer s nodes c) (concat (map (layer s nodes) ds))
        (All-mono (λ n. depth_of s n ≡ c) (λ n. d ≤ depth_of s n) (λ n e. rw e h.0)
          (layer s nodes c) (layer-level c))
        (above_all d ds h.1)

  module _ (P : String → Type 0) where
    pub All-concat : (ds : List ℕ) → All P nodes → All P (concat (map (layer s nodes) ds))
    All-concat [] h = tt
    All-concat (d ∷ ds) h =
        All-append P (layer s nodes d) (concat (map (layer s nodes) ds))
          (All-sort_by P text_lt (keep (λ n. nat_eq (depth_of s n) d) nodes)
            (All-keep P (λ n. nat_eq (depth_of s n) d) nodes h))
          (All-concat ds h)

    pub All-layered : All P nodes → All P (layered s nodes)
    unfolding layered
    All-layered h = All-concat (sort_by ltb (distinct_numbers (map (depth_of s) nodes))) h

  Ascending-concat :
      (ds : List ℕ) → IsSorted ds → Ascending (depth_of s) (concat (map (layer s nodes) ds))
  Ascending-concat [] h = tt
  Ascending-concat (d ∷ ds) h =
      Ascending-append (depth_of s) (layer s nodes d) (concat (map (layer s nodes) ds))
        (Ascending-level (depth_of s) d (layer s nodes d) (layer-level d)) (Ascending-concat ds h.1)
        (All-mono (λ n. depth_of s n ≡ d)
          (λ n. All (λ m. depth_of s n ≤ depth_of s m) (concat (map (layer s nodes) ds)))
          (λ n e. rw e (above_all d ds h.0)) (layer s nodes d) (layer-level d))

  pub layered-Ascending : Ascending (depth_of s) (layered s nodes)
  unfolding layered
  layered-Ascending =
      Ascending-concat (sort_by ltb (distinct_numbers (map (depth_of s) nodes)))
        (sort_by-IsSorted (distinct_numbers (map (depth_of s) nodes)))
