-- ===== src/Platform/Graph/Build/Served.antt =====
-- `buildDependencyGraph` of packages/platform-cli/src/graph/graph.ts: how a requirement is served, said
-- of the modules and what they provide.
use proflow.Base.{
  String, ◌≡◌, refl, sym, ap, subst, Bool, true, false, List, [], ◌∷◌, some, map, ◌==◌, ==_iff,
  keep, sort_by, text_lt, Bool-cases, inl, inr, All, All-mono, All-map, All-append,
}
use proflow.Platform.Version.{version_satisfies}
use proflow.Platform.Graph.{capability, DependencyEdge}
use proflow.Platform.Graph.Build.{
  Provide, Requirement, ResolvedModule, Provider, candidates, matching, capability_edge,
}
use proflow.Platform.Graph.Build.Keys.{HasKey}
use proflow.Platform.Graph.Build.Linked.{IsServed}
use proflow.Platform.Graph.Build.Built.{candidates-provides, matching-provides}

-- Something holds of each version of a contract that a module provides.
abbrev pub Provided : List ResolvedModule → String → (ResolvedModule → Provide → Type 0) → Type 0
Provided modules contract Q =
    All
      (λ (m : ResolvedModule). All (λ (v : Provide). v.contract_ref ≡ contract → Q m v) m.provides)
      modules

All-keep-if :
    {A : Type 0} (P : A → Type 0) (test : A → Bool) (xs : List A)
    → All (λ x. test x ≡ true → P x) xs
    → All P (keep test xs)
All-keep-if P test [] h = tt
All-keep-if P test (x ∷ xs) h = elim (Bool-cases (test x)) [
  | inl e ↦ rw e (h.0 e, All-keep-if P test xs h.1)
  | inr e ↦ rw e (All-keep-if P test xs h.1)
]

provides-candidates :
    (P : Provider → Type 0) (contract : String) (modules : List ResolvedModule)
    → Provided modules contract
        (λ m v. P (record { module_ref = m.module_ref; version = v.version }))
    → All P (candidates modules contract)
unfolding candidates
provides-candidates P contract [] h = tt
provides-candidates P contract (m ∷ ms) h =
    let provider : Provide → Provider =
      λ (v : Provide). record { module_ref = m.module_ref; version = v.version } in
    let of_this = keep (λ (v : Provide). v.contract_ref == contract) m.provides in
    All-append P (map provider of_this) (candidates ms contract)
      (All-map provider P of_this (
        All-keep-if (λ v. P (provider v)) (λ (v : Provide). v.contract_ref == contract) m.provides
          (All-mono (λ (v : Provide). v.contract_ref ≡ contract → P (provider v))
            (λ (v : Provide). (v.contract_ref == contract) ≡ true → P (provider v))
            (λ v f e. f ((==_iff v.contract_ref contract).0 e)) m.provides h.0)))
      (provides-candidates P contract ms h.1)

module _ (modules : List ResolvedModule) where
  -- An edge goes to each module that provides the contract in a version of the range. Where every
  -- version provided is out of the range, the requirement is optional and nobody provides the contract.
  pub record IsMet (from : String) (edges : List DependencyEdge) (r : Requirement) : Type 0 where
    pub linked : Provided modules r.contract_ref (λ m v.
        version_satisfies v.version r.version_range ≡ true
        → HasKey
            (record {
              from = from;
              to = m.module_ref;
              kind = capability;
              contract_ref = some r.contract_ref;
            })
            edges)
    pub spared :
        Provided modules r.contract_ref (λ m v. version_satisfies v.version r.version_range ≡ false)
        → (r.optional ≡ true) × Provided modules r.contract_ref (λ m v. ⊥)

  none_of :
      {A : Type 0} (test : A → Bool) (xs : List A)
      → All (λ x. test x ≡ false) xs
      → keep test xs ≡ []
  none_of test [] h = refl
  none_of test (x ∷ xs) h = rw h.0 (none_of test xs h.1)

  unmatched :
      (r : Requirement)
      → Provided modules r.contract_ref (λ m v. version_satisfies v.version r.version_range ≡ false)
      → matching modules r ≡ []
  unfolding matching sort_by
  unmatched r h = ap (sort_by (λ (a b : Provider). text_lt a.module_ref b.module_ref)) (
      none_of (λ (p : Provider). version_satisfies p.version r.version_range)
        (candidates modules r.contract_ref)
        (provides-candidates (λ (p : Provider). version_satisfies p.version r.version_range ≡ false)
          r.contract_ref modules h))

  pub IsServed-IsMet :
      (from : String) (edges : List DependencyEdge) (r : Requirement)
      → IsServed modules from edges r
      → IsMet from edges r
  IsServed-IsMet from edges r s = record {
    linked =
        matching-provides (λ (p : Provider). HasKey (capability_edge from r.contract_ref p) edges)
          modules r s.linked;
    spared = λ h.
        let (nobody, optional) = s.spared (unmatched r h) in
        (
          optional,
          candidates-provides (λ p. ⊥) r.contract_ref modules
              (subst (All (λ (p : Provider). ⊥)) (sym nobody) tt),
        );
  }
