-- ===== src/Platform/Graph/Marks.antt =====
-- The map `state` of packages/platform-cli/src/graph/graph.ts: how the calls of `visit` change it.
use proflow.Base.{
  String, ℕ, suc, ◌≤◌, ◌<◌, ◌≡◌, ◌≢◌, ◌⊎◌, inl, inr, refl, sym, ◌∙◌, List, [], ◌∷◌, arith, Has,
}
use proflow.Platform.Graph.{Mark, unseen, visiting, done, Marks, set}

-- The unseen members of a list.
unfoldable pub fresh : Marks → List String → ℕ
fresh s [] = 0
fresh s (n ∷ ns) = elim (s n) [ unseen ↦ suc (fresh s ns) | _ ↦ fresh s ns ]

-- Done nodes stay done, and open ones stay open.
pub record Extends (s s' : Marks) : Type 0 where
  pub keeps_done : (n : String) (d : ℕ) → s n ≡ done d → s' n ≡ done d
  pub keeps_open : (n : String) → s n ≡ visiting → s' n ≡ visiting
  pub closes : (n : String) → s n ≡ unseen → s' n ≢ visiting

abbrev pub IsDone : Marks → String → Type 0
IsDone s n = (d : ℕ) × (s n ≡ done d)

abbrev pub IsBelow : Marks → ℕ → String → Type 0
IsBelow s d k = (e : ℕ) × (s k ≡ done e) × (e < d)

pub Mark-cases : (m : Mark) → (m ≡ unseen) ⊎ (m ≡ visiting) ⊎ ((d : ℕ) × (m ≡ done d))
Mark-cases unseen = inl refl
Mark-cases visiting = inr (inl refl)
Mark-cases (done d) = inr (inr (d, refl))

pub visiting≢done : {d : ℕ} → visiting ≢ done d
visiting≢done h = cc

pub Extends-refl : (s : Marks) → Extends s s
Extends-refl s = record { keeps_done = λ n d h. h; keeps_open = λ n h. h; closes = λ n h k. cc }

pub Extends-trans : {s t u : Marks} → Extends s t → Extends t u → Extends s u
Extends-trans {s} {t} {u} a b = record {
  keeps_done = λ n d h. b.keeps_done n d (a.keeps_done n d h);
  keeps_open = λ n h. b.keeps_open n (a.keeps_open n h);
  closes = λ n h k. elim (Mark-cases (t n)) [
    | inl e ↦ b.closes n e k
    | inr (inl e) ↦ a.closes n h e
    | inr (inr (d, e)) ↦ absurd (visiting≢done (sym k ∙ b.keeps_done n d e))
  ];
}

pub fresh-Extends : (s t : Marks) (ns : List String) → Extends s t → fresh t ns ≤ fresh s ns
unfolding fresh
fresh-Extends s t [] h = ground arith
fresh-Extends s t (n ∷ ns) h = elim (Mark-cases (s n)) [
  | inl e ↦ ground (arith, e, fresh-Extends s t ns h)
  | inr (inl e) ↦ ground (arith, e, h.keeps_open n e, fresh-Extends s t ns h)
  | inr (inr (d, e)) ↦ ground (arith, e, h.keeps_done n d e, fresh-Extends s t ns h)
]

fresh-set : (s : Marks) (n : String) (ns : List String) → fresh (set n visiting s) ns ≤ fresh s ns
unfolding fresh
fresh-set s n [] = ground arith
fresh-set s n (k ∷ ns) = ground (arith, fresh-set s n ns)

pub fresh-opened :
    (s : Marks) (n : String) (ns : List String)
    → s n ≡ unseen
    → Has n ns
    → fresh (set n visiting s) ns < fresh s ns
unfolding fresh
fresh-opened s n [] u h = ground (arith, h)
fresh-opened s n (k ∷ ns) u h = ground (arith, u, h, fresh-set s n ns, fresh-opened s n ns u)

pub visiting_before : {s t : Marks} (n : String) → Extends s t → t n ≡ visiting → s n ≡ visiting
visiting_before {s} {t} n h k = elim (Mark-cases (s n)) [
  | inl e ↦ absurd (h.closes n e k)
  | inr (inl e) ↦ e
  | inr (inr (d, e)) ↦ absurd (visiting≢done (sym k ∙ h.keeps_done n d e))
]

-- A node that is opened, and closed again after what its dependencies do.
pub Extends-finished :
    (s t : Marks) (n : String) (d : ℕ)
    → s n ≡ unseen
    → Extends (set n visiting s) t
    → Extends s (set n (done d) t)
Extends-finished s t n d u h = record {
  keeps_done = λ m e k. ground (arith, u, k, h.keeps_done m e);
  keeps_open = λ m k. ground (arith, u, k, h.keeps_open m);
  closes = λ m k c. ground (arith, u, k, c, h.closes m);
}
