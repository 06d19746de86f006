-- ===== src/Platform/Graph/Build/Linked.antt =====
-- `buildDependencyGraph` of packages/platform-cli/src/graph/graph.ts: what its loops leave in the list
-- of edges.
use proflow.Base.{String, ◌≡◌, ◌≢◌, refl, sym, ◌∙◌, Bool, true, false, List, [], ◌∷◌, All, All-mono}
use proflow.Platform.Graph.{DependencyEdge, Result, ok, err, ◌>>=◌}
use proflow.Platform.Graph.Build.{
  Requirement, ResolvedModule, Provider, candidates, matching, capability_edge, link_found,
  link_one, link_requires, link_modules,
}
use proflow.Platform.Graph.Build.Keys.{
  HasKey, Grows, add_providers-Grows, all_HasKey, add_providers-All,
}

abbrev pub Succeeds : {A : Type 0} → (A → Type 0) → Result A → Type 0
Succeeds P (ok a) = P a
Succeeds P (err e) = Unit

pub Succeeds-bind :
    {A B : Type 0} (P : A → Type 0) (Q : B → Type 0) (r : Result A) (f : A → Result B)
    → Succeeds P r
    → ((a : A) → P a → Succeeds Q (f a))
    → Succeeds Q (r >>= f)
Succeeds-bind P Q (ok a) f h k = k a h
Succeeds-bind P Q (err e) f h k = tt

pub Succeeds-mono :
    {A : Type 0} (P Q : A → Type 0)
    → ((a : A) → P a → Q a)
    → (r : Result A) → Succeeds P r
    → Succeeds Q r
Succeeds-mono P Q f (ok a) h = f a h
Succeeds-mono P Q f (err e) h = tt

nil≢cons : {A : Type 0} {x : A} {xs : List A} → ◌≢◌ {A = List A} [] (x ∷ xs)
nil≢cons h = cc

module _ (modules : List ResolvedModule) where
  -- A requirement has an edge to each module that provides what it asks for. Where there is none, it
  -- is optional and nobody provides its contract.
  pub record IsServed (from : String) (edges : List DependencyEdge) (r : Requirement) : Type 0 where
    pub linked :
        All (λ p. HasKey (capability_edge from r.contract_ref p) edges) (matching modules r)
    pub spared :
        matching modules r ≡ [] → (candidates modules r.contract_ref ≡ []) × (r.optional ≡ true)

  pub IsServed-Grows :
      (from : String) (es longer : List DependencyEdge)
      → Grows es longer
      → (r : Requirement) → IsServed from es r
      → IsServed from longer r
  IsServed-Grows from es longer g r s = record {
    linked =
        All-mono (λ p. HasKey (capability_edge from r.contract_ref p) es)
          (λ p. HasKey (capability_edge from r.contract_ref p) longer)
          (λ p. g (capability_edge from r.contract_ref p)) (matching modules r) s.linked;
    spared = s.spared;
  }

  module _ (P : String → Type 0) where
    abbrev pub EndsAre : DependencyEdge → Type 0
    EndsAre e = P e.from × P e.to

    -- `P` holds of the modules that provide what a requirement asks for.
    abbrev pub Offers : Requirement → Type 0
    Offers r = All (λ p. P p.module_ref) (matching modules r)

    pub record Linked (from : String) (rs : List Requirement) (es longer : List DependencyEdge)
        : Type 0 where
      pub grows : Grows es longer
      pub ends : All EndsAre longer
      pub served : All (IsServed from longer) rs

    link_found-Linked :
        (from : String) (r : Requirement) (es : List DependencyEdge) (ps cs : List Provider)
        (optional : Bool)
        → matching modules r ≡ ps
        → candidates modules r.contract_ref ≡ cs
        → r.optional ≡ optional
        → All (λ p. EndsAre (capability_edge from r.contract_ref p)) ps
        → All EndsAre es
        → Succeeds (Linked from (r ∷ []) es) (link_found from r.contract_ref ps cs optional es)
    link_found-Linked from r es (p ∷ ps) cs o e _ _ a h = record {
      grows = add_providers-Grows from r.contract_ref (p ∷ ps) es;
      ends = add_providers-All from r.contract_ref EndsAre (p ∷ ps) es a h;
      served = (
        record {
          linked = rw e (all_HasKey from r.contract_ref (p ∷ ps) es);
          spared = λ n. absurd (nil≢cons (sym n ∙ e));
        },
        tt,
      );
    }
    link_found-Linked from r es [] (c ∷ cs) o e f g a h = tt
    link_found-Linked from r es [] [] true e f g a h = record {
      grows = λ v k. k;
      ends = h;
      served = (record { linked = rw e tt; spared = λ n. (f, g) }, tt);
    }
    link_found-Linked from r es [] [] false e f g a h = tt

    link_one-Linked :
        (from : String) (r : Requirement) (es : List DependencyEdge)
        → P from
        → Offers r
        → All EndsAre es
        → Succeeds (Linked from (r ∷ []) es) (link_one modules from r es)
    unfolding link_one
    link_one-Linked from r es pf po h =
        link_found-Linked from r es (matching modules r) (candidates modules r.contract_ref)
          r.optional refl refl refl
          (All-mono (λ p. P p.module_ref) (λ p. EndsAre (capability_edge from r.contract_ref p))
            (λ p q. (pf, q)) (matching modules r) po)
          h

    link_requires-Linked :
        (from : String) (rs : List Requirement) (es : List DependencyEdge)
        → P from
        → All Offers rs
        → All EndsAre es
        → Succeeds (Linked from rs es) (link_requires modules from rs es)
    unfolding link_requires
    link_requires-Linked from [] es pf po h = record { grows = λ v k. k; ends = h; served = tt }
    link_requires-Linked from (r ∷ rs) es pf po h =
        Succeeds-bind (Linked from (r ∷ []) es) (Linked from (r ∷ rs) es)
          (link_one modules from r es) (link_requires modules from rs)
          (link_one-Linked from r es pf po.0 h)
          (λ mid a.
            Succeeds-mono (Linked from rs mid) (Linked from (r ∷ rs) es)
              (λ longer b. record {
                grows = λ v k. b.grows v (a.grows v k);
                ends = b.ends;
                served = (IsServed-Grows from mid longer b.grows r a.served.0, b.served);
              })
              (link_requires modules from rs mid) (link_requires-Linked from rs mid pf po.1 a.ends))

    pub record AllLinked (ms : List ResolvedModule) (es longer : List DependencyEdge) : Type 0 where
      pub grows : Grows es longer
      pub ends : All EndsAre longer
      pub served : All (λ (m : ResolvedModule). All (IsServed m.module_ref longer) m.requires) ms

    abbrev pub Sourced : ResolvedModule → Type 0
    Sourced m = P m.module_ref × All Offers m.requires

    pub link_modules-AllLinked :
        (ms : List ResolvedModule) (es : List DependencyEdge)
        → All Sourced ms
        → All EndsAre es
        → Succeeds (AllLinked ms es) (link_modules modules ms es)
    unfolding link_modules
    link_modules-AllLinked [] es po h = record { grows = λ v k. k; ends = h; served = tt }
    link_modules-AllLinked (m ∷ ms) es po h =
        Succeeds-bind (Linked m.module_ref m.requires es) (AllLinked (m ∷ ms) es)
          (link_requires modules m.module_ref m.requires es) (link_modules modules ms)
          (link_requires-Linked m.module_ref m.requires es (po.0).0 (po.0).1 h)
          (λ mid a.
            Succeeds-mono (AllLinked ms mid) (AllLinked (m ∷ ms) es)
              (λ longer b. record {
                grows = λ v k. b.grows v (a.grows v k);
                ends = b.ends;
                served = (
                  All-mono (IsServed m.module_ref mid) (IsServed m.module_ref longer)
                      (IsServed-Grows m.module_ref mid longer b.grows) m.requires a.served,
                  b.served,
                );
              })
              (link_modules modules ms mid) (link_modules-AllLinked ms mid po.1 a.ends))
