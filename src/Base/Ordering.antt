-- ===== src/Base/Ordering.antt =====
-- Sorted lists: their order, and how often each member stands in them.
use Prim.Native.Nat.{ℕ, suc, ◌+◌, ◌≤◌, ◌<◌}
use mathlib.Core.Path.{◌≡◌, refl, subst}
use mathlib.Core.Bool.{Bool, true}
use mathlib.Core.List.{List, [], ◌∷◌, ◌++◌}
use mathlib.Core.Logic.{inl, inr}
use Prim.Native.String.{String}
use native.Mathlib.Omega.{arith}
use proflow.Base.Tests.{◌==◌, text_dec, if◌then◌else◌, ltb, Bool-cases}
use proflow.Base.Lists.{any}
use proflow.Base.Sorting.{insert_sorted, sort_from, sort_by}
use proflow.Base.Members.{All, All-append, All-mono, All-insert_sorted}

module _ {ℓ} {A : Type ℓ} where
  -- How many members pass a test.
  abbrev pub number_of : (A → Bool) → List A → ℕ
  number_of p [] = 0
  number_of p (x ∷ xs) = let rest = number_of p xs in if p x then suc rest else rest

  pub number_of-append :
      (p : A → Bool) (xs ys : List A) → number_of p (xs ++ ys) ≡ number_of p xs + number_of p ys
  number_of-append p [] ys = ground arith
  number_of-append p (x ∷ xs) ys = ground (arith, number_of-append p xs ys)

  number_of-insert_sorted :
      (p : A → Bool) (lt : A → A → Bool) (v : A) (xs : List A)
      → number_of p (insert_sorted lt v xs) ≡ number_of p (v ∷ xs)
  unfolding insert_sorted
  number_of-insert_sorted p lt v [] = refl
  number_of-insert_sorted p lt v (x ∷ xs) = ground (arith, number_of-insert_sorted p lt v xs)

  number_of-sort_from :
      (p : A → Bool) (lt : A → A → Bool) (sorted xs : List A)
      → number_of p (sort_from lt sorted xs) ≡ number_of p sorted + number_of p xs
  unfolding sort_from
  number_of-sort_from p lt sorted [] = ground arith
  number_of-sort_from p lt sorted (x ∷ xs) = ground (
    arith,
    number_of-sort_from p lt (insert_sorted lt x sorted) xs,
    number_of-insert_sorted p lt x sorted,
  )

  pub number_of-sort_by :
      (p : A → Bool) (lt : A → A → Bool) (xs : List A)
      → number_of p (sort_by lt xs) ≡ number_of p xs
  unfolding sort_by
  number_of-sort_by p lt xs = ground (arith, number_of-sort_from p lt [] xs)

  module _ (rank : A → ℕ) where
    -- No member has a higher rank than one that stands behind it.
    abbrev pub Ascending : List A → Type ℓ
    Ascending [] = Unit
    Ascending (x ∷ xs) = All (λ y. rank x ≤ rank y) xs × Ascending xs

    pub Ascending-append :
        (xs ys : List A)
        → Ascending xs
        → Ascending ys
        → All (λ x. All (λ y. rank x ≤ rank y) ys) xs
        → Ascending (xs ++ ys)
    Ascending-append [] ys h k m = k
    Ascending-append (x ∷ xs) ys h k m =
        (All-append (λ y. rank x ≤ rank y) xs ys h.0 m.0, Ascending-append xs ys h.1 k m.1)

    pub Ascending-level : (d : ℕ) (xs : List A) → All (λ x. rank x ≡ d) xs → Ascending xs
    Ascending-level d [] h = tt
    Ascending-level d (x ∷ xs) h = (
      All-mono (λ y. rank y ≡ d) (λ y. rank x ≤ rank y) (λ y e. ground (arith, e, h.0)) xs h.1,
      Ascending-level d xs h.1,
    )

-- `Array.prototype.includes`.
abbrev pub Has : String → List String → Type 0
Has x xs = any (λ m. m == x) xs ≡ true

pub Has-All {κ} : (P : String → Type κ) (x : String) (xs : List String) → Has x xs → All P xs → P x
Has-All P x [] h a = absurd (ground (arith, h))
Has-All P x (y ∷ ys) h a = elim (text_dec y x) [
  | yes e ↦ subst P e a.0
  | no e ↦ Has-All P x ys (ground (arith, e, h)) a.1
]

pub all_Has : (xs : List String) → All (λ x. Has x xs) xs
all_Has [] = tt
all_Has (x ∷ xs) = (
  ground arith,
  All-mono (λ y. Has y xs) (λ y. Has y (x ∷ xs)) (λ y h. ground (arith, h)) xs (all_Has xs),
)

abbrev pub IsSorted : List ℕ → Type 0
IsSorted = Ascending (λ n. n)

IsSorted-insert_sorted : (v : ℕ) (xs : List ℕ) → IsSorted xs → IsSorted (insert_sorted ltb v xs)
unfolding insert_sorted
IsSorted-insert_sorted v [] h = (tt, tt)
IsSorted-insert_sorted v (x ∷ xs) h = elim (Bool-cases (ltb v x)) [
  | inl e ↦ rw e (
    (ground (arith, e), All-mono (λ y. x ≤ y) (λ y. v ≤ y) (λ y k. ground (arith, e, k)) xs h.0),
    h,
  )
  | inr e ↦ rw e (
    All-insert_sorted (λ y. x ≤ y) ltb v xs (ground (arith, e)) h.0,
    IsSorted-insert_sorted v xs h.1,
  )
]

IsSorted-sort_from : (sorted xs : List ℕ) → IsSorted sorted → IsSorted (sort_from ltb sorted xs)
unfolding sort_from
IsSorted-sort_from sorted [] h = h
IsSorted-sort_from sorted (x ∷ xs) h =
    IsSorted-sort_from (insert_sorted ltb x sorted) xs (IsSorted-insert_sorted x sorted h)

pub sort_by-IsSorted : (xs : List ℕ) → IsSorted (sort_by ltb xs)
unfolding sort_by
sort_by-IsSorted xs = IsSorted-sort_from [] xs tt

pub number_of-All :
    {A : Type 0} (p : A → Bool) (Q : A → Type 0) (xs : List A)
    → 0 < number_of p xs
    → All Q xs
    → (x : A) × Q x × (p x ≡ true)
number_of-All p Q [] h a = absurd (omega (arith, h))
number_of-All p Q (x ∷ xs) h a = elim (Bool-cases (p x)) [
  | inl e ↦ (x, a.0, e)
  | inr e ↦ number_of-All p Q xs (rw e at h) a.1
]
