-- ===== src/Platform/Graph/Visit.antt =====
-- `visit` of packages/platform-cli/src/graph/graph.ts: what a call of it leaves, and when it fails.
use proflow.Base.{
  String, ℕ, zero, suc, ◌+◌, ◌≤◌, ◌<◌, ◌≡◌, ◌≢◌, ◌⊎◌, inl, inr, sym, subst, text_dec, List, [], ◌∷◌,
  arith, All, All-mono, Has, all_Has,
}
use proflow.Platform.Graph.{
  Result, ok, err, ◌>>=◌, dependency_cycle, Mark, unseen, visiting, done, Marks, set, larger,
  visit_all, finish, visit, visit_nodes,
}
use proflow.Platform.Graph.Marks.{
  fresh, Extends, IsBelow, IsDone, Mark-cases, Extends-refl, Extends-trans, fresh-Extends,
  fresh-opened, visiting_before, Extends-finished,
}

module _ (deps : String → List String) where
  -- A way along one dependency or more.
  pub data Way : String → String → Type 0 where
    edge : {a b : String} → Has b (deps a) → Way a b
    further : {a b c : String} → Way a b → Has c (deps b) → Way a c

  -- The nodes that are open lead to `n`.
  abbrev pub Leads : Marks → String → Type 0
  Leads s n = (m : String) → s m ≡ visiting → Way m n

  -- A dependency of a done node is done, at a smaller depth.
  abbrev pub IsLayered : Marks → Type 0
  IsLayered s = (n : String) (d : ℕ) → s n ≡ done d → All (IsBelow s d) (deps n)

  -- The only failure is a cycle, and the node that is named lies on it.
  abbrev pub Outcome : {A : Type 0} → (A → Type 0) → Result A → Type 0
  Outcome P (ok a) = P a
  Outcome P (err (dependency_cycle n)) = Way n n
  Outcome P (err _) = ⊥

  pub Outcome-bind :
      {A B : Type 0} (P : A → Type 0) (Q : B → Type 0) (r : Result A) (f : A → Result B)
      → Outcome P r
      → ((a : A) → P a → Outcome Q (f a))
      → Outcome Q (r >>= f)
  Outcome-bind P Q (ok a) f h k = k a h
  Outcome-bind P Q (err (dependency_cycle n)) f h k = h
  Outcome-bind P Q (err _) f h k = h

  pub Outcome-mono :
      {A : Type 0} (P Q : A → Type 0)
      → ((a : A) → P a → Q a)
      → (r : Result A) → Outcome P r
      → Outcome Q r
  Outcome-mono P Q f (ok a) h = f a h
  Outcome-mono P Q f (err (dependency_cycle n)) h = h
  Outcome-mono P Q f (err _) h = h

  pub record Visited (s : Marks) (n : String) (r : ℕ × Marks) : Type 0 where
    pub extends : Extends s r.1
    pub layered : IsLayered r.1
    pub reached : r.1 n ≡ done r.0

  pub record Passed (s : Marks) (ds : List String) (deepest : ℕ) (r : ℕ × Marks) : Type 0 where
    pub extends : Extends s r.1
    pub layered : IsLayered r.1
    pub below : All (IsBelow r.1 r.0) ds
    pub deeper : deepest ≤ r.0

  IsBelow-set :
      (s : Marks) (n : String) (m : Mark) (d : ℕ)
      → ((e : ℕ) → s n ≢ done e)
      → (k : String) → IsBelow s d k
      → IsBelow (set n m s) d k
  IsBelow-set s n m d u k (e, h, lt) = (e, ground (arith, u e, h), lt)

  IsLayered-set :
      (s : Marks) (n : String) → s n ≡ unseen → IsLayered s → IsLayered (set n visiting s)
  IsLayered-set s n u h m d e =
      All-mono (IsBelow s d) (IsBelow (set n visiting s) d)
        (IsBelow-set s n visiting d (λ c k. ground (arith, u, k))) (deps m)
        (h m d (ground (arith, e)))

  done-injective : {a b : ℕ} → done a ≡ done b → a ≡ b
  done-injective h = cc

  IsLayered-finished :
      (s : Marks) (n : String) (d : ℕ)
      → s n ≡ visiting
      → IsLayered s
      → All (IsBelow s d) (deps n)
      → IsLayered (set n (done d) s)
  IsLayered-finished s n d u h k m c e =
      All-mono (IsBelow s c) (IsBelow (set n (done d) s) c)
        (IsBelow-set s n (done d) c (λ b q. ground (arith, u, q))) (deps m)
        (elim (text_dec n m) [
          | yes q ↦
              let at_n : set n (done d) s n ≡ done c =
                subst (λ x. set n (done d) s x ≡ done c) (sym q) e in
              let same : d ≡ c = done-injective (ground (arith, at_n)) in
              subst (λ x. All (IsBelow s x) (deps m)) same
                (subst (λ x. All (IsBelow s d) (deps x)) q k)
          | no q ↦ h m c (ground (arith, q, e))
        ])

  IsBelow-mono :
      (s t : Marks) (d e : ℕ) → Extends s t → d ≤ e → (k : String) → IsBelow s d k → IsBelow t e k
  IsBelow-mono s t d e x le k (a, h, lt) = (a, x.keeps_done k a h, omega (arith, le, lt))

  abbrev Sound : List String → ℕ → (String → Marks → Result (ℕ × Marks)) → Type 0
  Sound ns bound go =
      (n : String) (s : Marks)
      → IsLayered s
      → Leads s n
      → fresh s ns < bound
      → Outcome (Visited s n) (go n s)

  abbrev Opens : Marks → String → Type 0
  Opens s p = (m : String) → s m ≡ visiting → Way m p ⊎ (m ≡ p)

  Opens-Leads : (s : Marks) (p n : String) → Opens s p → Has n (deps p) → Leads s n
  Opens-Leads s p n o h m v = elim (o m v) [
    | inl w ↦ further w h
    | inr q ↦ edge (subst (λ x. Has n (deps x)) (sym q) h)
  ]

  Passed-after :
      (s : Marks) (d : String) (ds : List String) (deepest : ℕ) (r : ℕ × Marks)
      → Visited s d r
      → (q : ℕ × Marks) → Passed r.1 ds (larger deepest (r.0 + 1)) q
      → Passed s (d ∷ ds) deepest q
  Passed-after s d ds deepest r v q w = record {
    extends = Extends-trans v.extends w.extends;
    layered = w.layered;
    below = ((r.0, w.extends.keeps_done d r.0 v.reached, ground (arith, w.deeper)), w.below);
    deeper = ground (arith, w.deeper);
  }

  visit_all-Outcome :
      (ns : List String) (bound : ℕ) (go : String → Marks → Result (ℕ × Marks))
      → Sound ns bound go
      → (p : String) (ds : List String) (deepest : ℕ) (s : Marks) → All (λ d. Has d (deps p)) ds
      → IsLayered s
      → Opens s p
      → fresh s ns < bound
      → Outcome (Passed s ds deepest) (visit_all go ds deepest s)
  unfolding visit_all
  visit_all-Outcome ns bound go sound p [] deepest s a h o f = record {
    extends = Extends-refl s;
    layered = h;
    below = tt;
    deeper = ground arith;
  }
  visit_all-Outcome ns bound go sound p (d ∷ ds) deepest s a h o f =
      Outcome-bind (Visited s d) (Passed s (d ∷ ds) deepest) (go d s)
        (λ r. visit_all go ds (larger deepest (r.0 + 1)) r.1)
        (sound d s h (Opens-Leads s p d o a.0) f)
        (λ r v.
          Outcome-mono (Passed r.1 ds (larger deepest (r.0 + 1))) (Passed s (d ∷ ds) deepest)
            (Passed-after s d ds deepest r v) (visit_all go ds (larger deepest (r.0 + 1)) r.1)
            (visit_all-Outcome ns bound go sound p ds (larger deepest (r.0 + 1)) r.1 a.1 v.layered
              (λ m k. o m (visiting_before m v.extends k))
              (omega (arith, fresh-Extends s r.1 ns v.extends, f))))

  visit-done :
      (fuel : ℕ) (n : String) (s : Marks) (d : ℕ)
      → s n ≡ done d
      → visit deps (suc fuel) n s ≡ ok (d, s)
  unfolding visit
  visit-done fuel n s d e = ground (arith, e)

  visit-open :
      (fuel : ℕ) (n : String) (s : Marks)
      → s n ≡ visiting
      → visit deps (suc fuel) n s ≡ err (dependency_cycle n)
  unfolding visit
  visit-open fuel n s e = ground (arith, e)

  visit-unseen :
      (fuel : ℕ) (n : String) (s : Marks)
      → s n ≡ unseen
      → visit deps (suc fuel) n s
        ≡ (visit_all (visit deps fuel) (deps n) 0 (set n visiting s) >>= finish n)
  unfolding visit
  visit-unseen fuel n s e = ground (arith, e)

  Visited-finish :
      (s : Marks) (n : String) (r : ℕ × Marks)
      → s n ≡ unseen
      → Passed (set n visiting s) (deps n) 0 r
      → Outcome (Visited s n) (finish n r)
  Visited-finish s n r u w =
      let v : r.1 n ≡ visiting = w.extends.keeps_open n (ground arith) in
      record {
        extends = Extends-finished s r.1 n r.0 u w.extends;
        layered = IsLayered-finished r.1 n r.0 v w.layered w.below;
        reached = ground arith;
      }

  pass_none :
      (n : String) (s : Marks) (go : String → Marks → Result (ℕ × Marks))
      → deps n ≡ []
      → IsLayered (set n visiting s)
      → Outcome (Passed (set n visiting s) (deps n) 0) (visit_all go (deps n) 0 (set n visiting s))
  unfolding visit_all
  pass_none n s go e h =
      subst (λ ds. Outcome (Passed (set n visiting s) ds 0) (visit_all go ds 0 (set n visiting s)))
        (sym e)
        record {
          extends = Extends-refl (set n visiting s);
          layered = h;
          below = tt;
          deeper = ground arith;
        }

  Opens-set : (s : Marks) (n : String) → Leads s n → Opens (set n visiting s) n
  Opens-set s n l m v = elim (text_dec n m) [
    | yes e ↦ inr (sym e)
    | no e ↦ inl (l m (ground (arith, e, v)))
  ]

  -- What `visit` does with the dependencies, where there is fuel for them or none of them.
  pass-Outcome :
      (ns : List String)
      → ((n : String) → (deps n ≡ []) ⊎ Has n ns)
      → (fuel : ℕ) → Sound ns fuel (visit deps fuel)
      → (n : String) (s : Marks) → s n ≡ unseen
      → IsLayered s
      → Leads s n
      → fresh s ns < suc fuel
      → Outcome
          (Passed (set n visiting s) (deps n) 0)
          (visit_all (visit deps fuel) (deps n) 0 (set n visiting s))
  pass-Outcome ns within fuel sound n s u h l f = elim (within n) [
    | inl e ↦ pass_none n s (visit deps fuel) e (IsLayered-set s n u h)
    | inr m ↦
        visit_all-Outcome ns fuel (visit deps fuel) sound n (deps n) 0 (set n visiting s)
          (all_Has (deps n)) (IsLayered-set s n u h) (Opens-set s n l)
          (omega (arith, f, fresh-opened s n ns u m))
  ]

  visit-Outcome :
      (ns : List String)
      → ((n : String) → (deps n ≡ []) ⊎ Has n ns)
      → (fuel : ℕ) → Sound ns fuel (visit deps fuel)
  visit-Outcome ns within zero n s h l f = absurd (omega (arith, f))
  visit-Outcome ns within (suc fuel) n s h l f = elim (Mark-cases (s n)) [
    | inl e ↦ rw (visit-unseen fuel n s e) (
        Outcome-bind (Passed (set n visiting s) (deps n) 0) (Visited s n)
          (visit_all (visit deps fuel) (deps n) 0 (set n visiting s)) (finish n)
          (pass-Outcome ns within fuel (visit-Outcome ns within fuel) n s e h l f)
          (λ r w. Visited-finish s n r e w))
    | inr (inl e) ↦ rw (visit-open fuel n s e) (l n e)
    | inr (inr (d, e)) ↦
        rw (visit-done fuel n s d e) record { extends = Extends-refl s; layered = h; reached = e }
  ]

  pub record Settled (ns : List String) (s s' : Marks) : Type 0 where
    pub extends : Extends s s'
    pub layered : IsLayered s'
    pub all_done : All (IsDone s') ns

  abbrev NoneOpen : Marks → Type 0
  NoneOpen s = (n : String) → s n ≢ visiting

  pub visit_nodes-Outcome :
      (ns : List String)
      → ((n : String) → (deps n ≡ []) ⊎ Has n ns)
      → (fuel : ℕ) (ms : List String) (s : Marks) → IsLayered s
      → NoneOpen s
      → fresh s ns < fuel
      → Outcome (Settled ms s) (visit_nodes deps fuel ms s)
  unfolding visit_nodes
  visit_nodes-Outcome ns within fuel [] s h o f = record {
    extends = Extends-refl s;
    layered = h;
    all_done = tt;
  }
  visit_nodes-Outcome ns within fuel (m ∷ ms) s h o f =
      Outcome-bind (Visited s m) (Settled (m ∷ ms) s) (visit deps fuel m s)
        (λ r. visit_nodes deps fuel ms r.1)
        (visit-Outcome ns within fuel m s h (λ k v. absurd (o k v)) f)
        (λ r v.
          Outcome-mono (Settled ms r.1) (Settled (m ∷ ms) s)
            (λ t w. record {
              extends = Extends-trans v.extends w.extends;
              layered = w.layered;
              all_done = ((r.0, w.extends.keeps_done m r.0 v.reached), w.all_done);
            })
            (visit_nodes deps fuel ms r.1)
            (visit_nodes-Outcome ns within fuel ms r.1 v.layered
              (λ k q. o k (visiting_before k v.extends q))
              (omega (arith, fresh-Extends s r.1 ns v.extends, f))))
