-- ===== src/Base/Members.antt =====
-- A property of every member, and tables whose keys are distinct.
use mathlib.Core.Path.{◌≡◌, refl, sym, ◌∙◌, subst}
use mathlib.Core.Logic.{◌≢◌, ◌↔◌, inl, inr}
use mathlib.Core.Bool.{Bool, true, false}
use mathlib.Core.Option.{Option, none, some, some-injective}
use mathlib.Core.List.{List, [], ◌∷◌, ◌++◌, map}
use native.Mathlib.Omega.{arith}
use proflow.Base.Tests.{Bool-cases}
use proflow.Base.Lists.{keep, find, any}
use proflow.Base.Sorting.{insert_sorted, sort_from, sort_by}
use proflow.Base.Keys.{Key, get_row, put_row, get_row-put_row, get_row-append}

abbrev pub All {ℓ κ} : {A : Type ℓ} → (A → Type κ) → List A → Type κ
All P [] = Unit
All P (x ∷ xs) = P x × All P xs

-- `!items.some(p)`, where `Q` says of one item that `p` fails on it.
pub any-none {ℓ κ} :
    {A : Type ℓ} (p : A → Bool) (Q : A → Type κ)
    → ((x : A) → (p x ≡ false) ↔ Q x)
    → (xs : List A) → (any p xs ≡ false) ↔ All Q xs
any-none p Q each [] = (λ h. tt, λ h. refl)
any-none p Q each (x ∷ xs) = elim (Bool-cases (p x)) [
  | inl e ↦ (λ h. ground (arith, h, e), λ h. ground (arith, e, (each x).1 h.0))
  | inr e ↦ (
    λ h. ((each x).0 e, (any-none p Q each xs).0 (ground (arith, h, e))),
    λ h. ground (arith, e, (any-none p Q each xs).1 h.1),
  )
]

module _ {ℓ κ} {A : Type ℓ} (P : A → Type κ) where
  pub All-append : (xs ys : List A) → All P xs → All P ys → All P (xs ++ ys)
  All-append [] ys h k = k
  All-append (x ∷ xs) ys h k = (h.0, All-append xs ys h.1 k)

  pub append-All : (xs ys : List A) → All P (xs ++ ys) → All P xs × All P ys
  append-All [] ys h = (tt, h)
  append-All (x ∷ xs) ys h = let (a, b) = append-All xs ys h.1 in ((h.0, a), b)

  pub All-mono {μ} : (Q : A → Type μ) → ((x : A) → P x → Q x) → (xs : List A) → All P xs → All Q xs
  All-mono Q f [] h = tt
  All-mono Q f (x ∷ xs) h = (f x h.0, All-mono Q f xs h.1)

  pub All-keep : (p : A → Bool) (xs : List A) → All P xs → All P (keep p xs)
  All-keep p [] h = h
  All-keep p (x ∷ xs) h = elim (Bool-cases (p x)) [
    | inl e ↦ rw e (h.0, All-keep p xs h.1)
    | inr e ↦ rw e (All-keep p xs h.1)
  ]

  pub All-insert_sorted :
      (lt : A → A → Bool) (v : A) (xs : List A) → P v → All P xs → All P (insert_sorted lt v xs)
  unfolding insert_sorted
  All-insert_sorted lt v [] p h = (p, h)
  All-insert_sorted lt v (x ∷ xs) p h = elim (Bool-cases (lt v x)) [
    | inl e ↦ rw e (p, h)
    | inr e ↦ rw e (h.0, All-insert_sorted lt v xs p h.1)
  ]

  All-sort_from :
      (lt : A → A → Bool) (sorted xs : List A)
      → All P sorted
      → All P xs
      → All P (sort_from lt sorted xs)
  unfolding sort_from
  All-sort_from lt sorted [] h k = h
  All-sort_from lt sorted (x ∷ xs) h k =
      All-sort_from lt (insert_sorted lt x sorted) xs (All-insert_sorted lt x sorted k.0 h) k.1

  pub All-sort_by : (lt : A → A → Bool) (xs : List A) → All P xs → All P (sort_by lt xs)
  unfolding sort_by
  All-sort_by lt xs h = All-sort_from lt [] xs tt h

  pub All-kept : (p : A → Bool) (xs : List A) → All P xs → All (λ x. P x × (p x ≡ true)) (keep p xs)
  All-kept p [] h = h
  All-kept p (x ∷ xs) h = elim (Bool-cases (p x)) [
    | inl e ↦ rw e ((h.0, e), All-kept p xs h.1)
    | inr e ↦ rw e (All-kept p xs h.1)
  ]

  -- Back from the rows that a list shows to the rows of the table.
  pub keep-All : (p : A → Bool) (xs : List A) → All P (keep p xs) → All (λ x. p x ≡ true → P x) xs
  keep-All p [] h = h
  keep-All p (x ∷ xs) h = elim (Bool-cases (p x)) [
    | inl e ↦ let (a, b) = rw e at h in (λ _. a, keep-All p xs b)
    | inr e ↦ (λ t. absurd (ground (arith, e, t)), keep-All p xs (rw e at h))
  ]

  insert_sorted-All :
      (lt : A → A → Bool) (v : A) (xs : List A) → All P (insert_sorted lt v xs) → P v × All P xs
  unfolding insert_sorted
  insert_sorted-All lt v [] h = h
  insert_sorted-All lt v (x ∷ xs) h = elim (Bool-cases (lt v x)) [
    | inl e ↦ rw e at h
    | inr e ↦ let (a, b) = rw e at h in let (c, d) = insert_sorted-All lt v xs b in (c, (a, d))
  ]

  sort_from-All :
      (lt : A → A → Bool) (sorted xs : List A)
      → All P (sort_from lt sorted xs)
      → All P sorted × All P xs
  unfolding sort_from
  sort_from-All lt sorted [] h = (h, tt)
  sort_from-All lt sorted (x ∷ xs) h =
      let (a, b) = sort_from-All lt (insert_sorted lt x sorted) xs h in
      let (c, d) = insert_sorted-All lt x sorted a in (d, (c, b))

  pub sort_by-All : (lt : A → A → Bool) (xs : List A) → All P (sort_by lt xs) → All P xs
  unfolding sort_by
  sort_by-All lt xs h = (sort_from-All lt [] xs h).1

  -- What is found is a member, and passes the test.
  pub All-find :
      (p : A → Bool) (xs : List A) (x : A) → All P xs → find p xs ≡ some x → P x × (p x ≡ true)
  All-find p [] x h e = cc
  All-find p (y ∷ xs) x h e = elim (Bool-cases (p y)) [
    | inl t ↦ subst (λ z. P z × (p z ≡ true)) (some-injective y x (rw t at e)) (h.0, t)
    | inr f ↦ All-find p xs x h.1 (rw f at e)
  ]

pub map-All :
    {A B : Type 0} (f : A → B) (P : B → Type 0) (xs : List A)
    → All P (map f xs)
    → All (λ x. P (f x)) xs
map-All f P [] h = tt
map-All f P (x ∷ xs) h = (h.0, map-All f P xs h.1)

pub All-map :
    {A B : Type 0} (f : A → B) (P : B → Type 0) (xs : List A)
    → All (λ x. P (f x)) xs
    → All P (map f xs)
All-map f P [] h = tt
All-map f P (x ∷ xs) h = (h.0, All-map f P xs h.1)

pub All-constant : {A : Type 0} (P : Type 0) (xs : List A) → P → All (λ _. P) xs
All-constant P [] h = tt
All-constant P (x ∷ xs) h = (h, All-constant P xs h)

pub All-pair :
    {A : Type 0} (P Q : A → Type 0) (xs : List A) → All P xs → All Q xs → All (λ x. P x × Q x) xs
All-pair P Q [] h k = tt
All-pair P Q (x ∷ xs) h k = ((h.0, k.0), All-pair P Q xs h.1 k.1)

pub none≢some {ℓ} : {A : Type ℓ} {x : A} → ◌≢◌ {A = Option A} none (some x)
none≢some h = cc

-- PRIMARY KEY: no two rows have one key.
module _ {ℓ κ} {A : Type ℓ} {K : Type κ} ⦃e : Key K⦄ (key : A → K) where
  abbrev pub IsUnique : List A → Type (ℓ ⊔ κ)
  IsUnique [] = Unit
  IsUnique (x ∷ xs) = (get_row key (key x) xs ≡ none) × IsUnique xs

  pub IsUnique-put_row : (v : A) (xs : List A) → IsUnique xs → IsUnique (put_row key v xs)
  unfolding put_row
  IsUnique-put_row v [] h = tt
  IsUnique-put_row v (x ∷ xs) h = elim (Bool-cases (e.beq (key x) (key v))) [
    | inl t ↦ rw t (rw (← (e.beq_iff _ _).0 t) h.0, h.1)
    | inr f ↦
        rw f (get_row-put_row key (key x) v xs ∙ ground (arith, h.0), IsUnique-put_row v xs h.1)
  ]

  pub IsUnique-append :
      (v : A) (xs : List A) → get_row key (key v) xs ≡ none → IsUnique xs → IsUnique (xs ++ v ∷ [])
  unfolding get_row
  IsUnique-append v [] n h = (refl, tt)
  IsUnique-append v (x ∷ xs) n h = (
    get_row-append key (key x) v xs
        ∙ ground (arith, h.0, e.beq_iff (key x) (key v), e.beq_iff (key v) (key x)),
    IsUnique-append v xs (ground arith) h.1,
  )

  -- Every row of such a table is the one that a lookup of its key finds.
  pub All-get_row : (xs : List A) → IsUnique xs → All (λ x. get_row key (key x) xs ≡ some x) xs
  unfolding get_row
  All-get_row [] h = tt
  All-get_row (x ∷ xs) h = (
    ground (arith, e.beq_iff (key x) (key x)),
    All-mono (λ y. get_row key (key y) xs ≡ some y) (λ y. get_row key (key y) (x ∷ xs) ≡ some y)
        (λ y q. elim (Bool-cases (e.beq (key x) (key y))) [
          | inl t ↦ absurd (none≢some (sym h.0 ∙ rw (← (e.beq_iff _ _).0 t) at q))
          | inr f ↦ rw f q
        ])
        xs (All-get_row xs h.1),
  )

  -- What holds of every row holds of the row that a lookup finds.
  pub get_row-All {μ} :
      (P : A → Type μ) (k : K) (xs : List A) (x : A) → All P xs → get_row key k xs ≡ some x → P x
  unfolding get_row
  get_row-All P k [] x h q = absurd (none≢some q)
  get_row-All P k (y ∷ xs) x h q = elim (Bool-cases (e.beq (key y) k)) [
    | inl t ↦ subst P (some-injective y x (rw t at q)) h.0
    | inr f ↦ get_row-All P k xs x h.1 (rw f at q)
  ]
