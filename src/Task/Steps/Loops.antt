-- ===== src/Task/Steps/Loops.antt =====
-- Steps that leave a part of the database alone: `Keeps part m`, by the shape of `m`.
use proflow.Base.{◌≡◌, refl, ◌∙◌, List, [], ◌∷◌, Option, some, arith}
use proflow.Task.Errors.{Result, ok, err, ◌>>=◌, ◌>>◌, >>=-eq-ok}
use proflow.Task.Store.{Db, Action, ⊤}
use proflow.Task.Steps.{for_each}

module _ {B : Type 0} (part : Db → B) where
  abbrev pub Keeps : {A : Type 0} → Action A → Type 0
  Keeps {A} m = (db db' : Db) (a : A) → m db ≡ ok (a, db') → part db' ≡ part db

  pub Keeps->>= :
      {A C : Type 0} (m : Action A) (f : A → Action C)
      → Keeps m
      → ((a : A) → Keeps (f a))
      → Keeps (m >>= f)
  Keeps->>= m f keep keeps db db' c h =
      let (a, db1, first, rest) = >>=-eq-ok m f db (c, db') h in
      keeps a db1 db' c rest ∙ keep db db1 a first

  pub Keeps->> : {A C : Type 0} (m : Action A) (k : Action C) → Keeps m → Keeps k → Keeps (m >> k)
  Keeps->> m k keep keeps = Keeps->>= m (λ _. k) keep (λ _. keeps)

  pub for_each-Keeps :
      {X : Type 0} (body : X → Action ⊤)
      → ((x : X) → Keeps (body x))
      → (xs : List X) → Keeps (for_each xs body)
  unfolding for_each
  for_each-Keeps body keep [] = λ db db' u h. ground arith
  for_each-Keeps body keep (x ∷ xs) =
      Keeps->> (body x) (for_each xs body) (keep x) (for_each-Keeps body keep xs)

  -- The same of the step's outcome, which tactics read once they have split on it.
  abbrev pub Kept : {A : Type 0} → Db → Result (A × Db) → Type 0
  Kept db (ok (_, db')) = part db' ≡ part db
  Kept db (err _) = Unit

  Kept-intro :
      {A : Type 0} (db : Db) (x : Result (A × Db))
      → ((db' : Db) (a : A) → x ≡ ok (a, db') → part db' ≡ part db)
      → Kept db x
  Kept-intro db (ok (a, db')) f = f db' a refl
  Kept-intro db (err e) f = tt

  pub Keeps-Kept : {A : Type 0} (m : Action A) → Keeps m → (db : Db) → Kept db (m db)
  Keeps-Kept m keep db = Kept-intro db (m db) (keep db)

-- What holds of every result of a step: it is decided by the step's last part.
module _ {A : Type 0} (P : A → Type 0) where
  abbrev pub Yields : Action A → Type 0
  Yields m = (db db' : Db) (a : A) → m db ≡ ok (a, db') → P a

  pub Yields->> : {B : Type 0} (m : Action B) (k : Action A) → Yields k → Yields (m >> k)
  Yields->> m k yields db db' a h =
      let (_, db1, _, rest) = >>=-eq-ok m (λ _. k) db (a, db') h in yields db1 db' a rest

pub with_result {ℓ} :
    {A : Type 0} {C : Type ℓ} (x : Result A) → (a : A) × (x ≡ ok a) → ((a : A) → x ≡ ok a → C) → C
with_result x (a, e) f = f a e

-- A row that a handler has read, as a variable of the rest of the proof.
pub with_found {ℓ} :
    {A : Type 0} {C : Type ℓ} (o : Option A)
    → (a : A) × (o ≡ some a)
    → ((a : A) → o ≡ some a → C)
    → C
with_found o (a, e) f = f a e
