-- ===== src/Base/Sorting.antt =====
-- Insertion sort for `ORDER BY`: rows with equal keys keep their order.
use Prim.Native.Nat.{ℕ}
use Prim.Native.String
use Prim.Native.String.{String}
use mathlib.Core.Bool.{Bool, true, false}
use mathlib.Core.Option.{Option, none, some}
use mathlib.Core.List.{List, [], ◌∷◌}
use text.Mathlib.Text.{is_lt}
use proflow.Base.Tests.{if◌then◌else◌, ltb, nat_eq}

-- The BINARY collation of SQLite orders texts by their UTF-8 bytes, as the native comparison does.
abbrev pub text_lt : String → String → Bool
text_lt s t = is_lt (String.compare s t)

-- Null sorts first.
abbrev pub option_lt : Option ℕ → Option ℕ → Bool
option_lt none none = false
option_lt none (some _) = true
option_lt (some _) none = false
option_lt (some a) (some b) = ltb a b

abbrev pub option_nat_eq : Option ℕ → Option ℕ → Bool
option_nat_eq none none = true
option_nat_eq (some a) (some b) = nat_eq a b
option_nat_eq _ _ = false

module _ {ℓ} {A : Type ℓ} (lt : A → A → Bool) where
  -- Behind the rows that are not greater.
  unfoldable pub insert_sorted : A → List A → List A
  insert_sorted v [] = v ∷ []
  insert_sorted v (x ∷ xs) =
      let later = insert_sorted v xs in if lt v x then v ∷ x ∷ xs else x ∷ later

  unfoldable pub sort_from : List A → List A → List A
  unfolding insert_sorted
  sort_from sorted [] = sorted
  sort_from sorted (x ∷ xs) = sort_from (insert_sorted x sorted) xs

  unfoldable pub sort_by : List A → List A
  unfolding sort_from
  sort_by xs = sort_from [] xs
