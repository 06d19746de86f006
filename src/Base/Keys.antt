-- ===== src/Base/Keys.antt =====
-- Tables: rows in a list, found by a key. `put` writes the row that has the key.
use mathlib.Core.Path.{◌≡◌}
use mathlib.Core.Logic.{◌↔◌}
use mathlib.Core.Bool.{Bool, true, ◌&&◌}
use mathlib.Core.Option.{Option, none, some}
use mathlib.Core.List.{List, [], ◌∷◌, ◌++◌}
use Prim.Native.String.{String}
use native.Mathlib.Omega.{arith}
use proflow.Base.Tests.{◌==◌, ==_iff, if◌then◌else◌}

pub record Key {ℓ} (K : Type ℓ) : Type ℓ where
  pub beq : K → K → Bool
  pub beq_iff : (a b : K) → (beq a b ≡ true) ↔ (a ≡ b)

abbrev pub pair_beq : String × String → String × String → Bool
pair_beq a b = a.0 == b.0 && a.1 == b.1

pub pair_beq_iff : (a b : String × String) → (pair_beq a b ≡ true) ↔ (a ≡ b)
pair_beq_iff a b = ground arith

instance abbrev pub text_key : Key String
text_key = record { beq = ◌==◌; beq_iff = ==_iff }

instance abbrev pub pair_key : Key (String × String)
pair_key = record { beq = pair_beq; beq_iff = pair_beq_iff }

abbrev pub instead {ℓ} : {A : Type ℓ} → A → Option A → Option A
instead v none = none
instead v (some _) = some v

module _ {ℓ κ} {A : Type ℓ} {K : Type κ} ⦃e : Key K⦄ (key : A → K) where
  unfoldable pub get_row : K → List A → Option A
  get_row k [] = none
  get_row k (x ∷ xs) = if e.beq (key x) k then some x else get_row k xs

  unfoldable pub put_row : A → List A → List A
  put_row v [] = []
  put_row v (x ∷ xs) = if e.beq (key x) (key v) then v ∷ xs else x ∷ put_row v xs

  -- `ON CONFLICT DO UPDATE` by the caller's `merge`, else a new row at the end.
  unfoldable pub upsert_row : (A → A → A) → A → List A → List A
  upsert_row merge v [] = v ∷ []
  upsert_row merge v (x ∷ xs) =
      if e.beq (key x) (key v) then merge x v ∷ xs else x ∷ upsert_row merge v xs

  pub get_row-key : (k : K) (xs : List A) (x : A) → get_row k xs ≡ some x → key x ≡ k
  unfolding get_row
  get_row-key k [] x h = cc
  get_row-key k (y ∷ xs) x h = ground (arith, e.beq_iff (key y) k, get_row-key k xs x)

  -- A lookup after a write: the row written, if there was one to replace.
  pub get_row-put_row :
      (k : K) (v : A) (xs : List A)
      → get_row k (put_row v xs)
        ≡ (if e.beq (key v) k then instead v (get_row k xs) else get_row k xs)
  unfolding get_row put_row
  get_row-put_row k v [] = ground arith
  get_row-put_row k v (x ∷ xs) = ground (
    arith,
    e.beq_iff (key x) (key v),
    e.beq_iff (key v) k,
    e.beq_iff (key x) k,
    get_row-put_row k v xs,
  )

  pub get_row-append :
      (k : K) (v : A) (xs : List A)
      → get_row k (xs ++ v ∷ [])
        ≡ elim (get_row k xs) [ some x ↦ some x | none ↦ if e.beq (key v) k then some v else none ]
  unfolding get_row
  get_row-append k v [] = ground arith
  get_row-append k v (x ∷ xs) = ground (arith, get_row-append k v xs)
