-- ===== src/Base/Tests.antt =====
-- Boolean tests on native numbers and on texts, the conditional, and case splits that keep an
-- equation.
use Prim.Native.Nat.{ℕ, compare, Ordering}
use Prim.Native.String.{String}
use mathlib.Core.Path.{◌≡◌, refl}
use mathlib.Core.Logic.{◌≢◌, ◌↔◌, ◌⊎◌, inl, inr}
use mathlib.Core.Bool.{Bool, true, false}
use mathlib.Core.Option.{Option, none, some}
use native.Mathlib.Omega.{arith}
use text.Mathlib.Text.{◌==◌ as text_eq}
use text.Mathlib.TextEquality.{eq_iff}

-- These compute to `compare`, which `ground` and `grind` read with no lemma listed.
abbrev pub ltb : ℕ → ℕ → Bool
ltb a b = elim (compare a b) [ Ordering.lt ↦ true | _ ↦ false ]

abbrev pub leb : ℕ → ℕ → Bool
leb a b = elim (compare a b) [ Ordering.gt ↦ false | _ ↦ true ]

abbrev pub nat_eq : ℕ → ℕ → Bool
nat_eq a b = elim (compare a b) [ Ordering.eq ↦ true | _ ↦ false ]

infix 1 if◌then◌else◌
abbrev pub if◌then◌else◌ {ℓ} : {A : Type ℓ} → Bool → A → A → A
if true then x else y = x
if false then x else y = y

-- Texts are compared through a decision, which `ground` splits into an equation and its negation.
from_test : {s t : String} (b : Bool) → (b ≡ true) ↔ (s ≡ t) → Dec (s ≡ t)
from_test true h = yes (h.0 refl)
from_test false h = no (λ e. cc (h.1 e))

unfoldable pub text_dec : (s t : String) → Dec (s ≡ t)
unfolding from_test
text_dec s t = from_test (text_eq s t) (eq_iff s t)

infix 50 ◌==◌
abbrev pub ◌==◌ : String → String → Bool
s == t = elim (text_dec s t) [ yes _ ↦ true | no _ ↦ false ]

pub ==_refl : (s : String) → (s == s) ≡ true
==_refl s = ground arith

pub ==_iff : (s t : String) → ((s == t) ≡ true) ↔ (s ≡ t)
==_iff s t = ground arith

-- `x === y` where either side may be null.
abbrev pub option_eq : Option String → Option String → Bool
option_eq none none = true
option_eq (some s) (some t) = s == t
option_eq _ _ = false

-- A text in the place of a condition: null and the empty text are false.
abbrev pub truthy : Option String → Bool
truthy none = false
truthy (some s) = if s == "" then false else true

pub Bool-cases : (b : Bool) → (b ≡ true) ⊎ (b ≡ false)
Bool-cases true = inl refl
Bool-cases false = inr refl

pub Option-cases {ℓ} : {A : Type ℓ} (o : Option A) → (o ≡ none) ⊎ ((a : A) × (o ≡ some a))
Option-cases none = inl refl
Option-cases (some a) = inr (a, refl)

pub ==-≢ : (s t : String) → (s == t) ≡ false → s ≢ t
==-≢ s t h e = ground (arith, h, e)
