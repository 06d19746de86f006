-- ===== src/Execution/Runtime/Runs.antt =====
-- packages/execution-runtime/src/index.ts: what a part of a call does to the executions, by its parts.
use proflow.Base.{
  String, ◌≡◌, refl, sym, ap, ◌∙◌, subst, Bool, true, false, Option, none, some, arith,
  if◌then◌else◌, text_key, get_row, put_row,
}
use proflow.Execution.Runtime.{
  ExecutionRecord, Row, Tables, Thrown, foreign, Result, ok, err, Act, ◌>>=◌, pure, throw, is_legal,
  parse_record, row_key, find_row, with_record, rewritten, save,
}
use proflow.Execution.Runtime.Effects.{try_catch}
use proflow.Execution.Runtime.Life.{
  IsSound, Sound, Evolves, Evolves-same, Evolves-trans, Sound-same, Holds, Advance, Advance-ref,
  Subject, put, put-Evolves, put-Sound, put-found, found-IsSound,
}

abbrev pub Always : Tables → Type 0
Always _ = Unit

module _ {A : Type 0} where
  abbrev pub Ends : (A → Tables → Type 0) → (Tables → Type 0) → Result A → Tables → Type 0
  Ends Q E (ok a) s = Q a s
  Ends Q E (err e) s = E s

  -- The executions evolve and stay sound; then `Q` holds where the call returns, `E` where it throws.
  pub record Runs (Q : A → Tables → Type 0) (E : Tables → Type 0) (s : Tables)
      (r : Result A × Tables) : Type 0 where
    pub evolves : Evolves s r.1
    pub sound : Sound r.1
    pub ended : Ends Q E r.0 r.1

  module _ (Q : A → Tables → Type 0) (E : Tables → Type 0) where
    Ends-both : (r : Result A) (s : Tables) → ((a : A) → r ≡ ok a → Q a s) → E s → Ends Q E r s
    Ends-both (ok a) s f g = f a refl
    Ends-both (err e) s f g = g

    -- A part that writes other tables alone.
    pub Runs-same :
        (m : Act A) (s : Tables)
        → (m s).1.executions ≡ s.executions
        → Sound s
        → ((a : A) → (m s).0 ≡ ok a → Q a (m s).1)
        → E (m s).1
        → Runs Q E s (m s)
    Runs-same m s h k f g = record {
      evolves = Evolves-same s (m s).1 h;
      sound = Sound-same s (m s).1 h k;
      ended = Ends-both (m s).0 (m s).1 f g;
    }

    -- A part that returns, and writes other tables alone.
    pub Runs-ok :
        (m : Act A) (a : A) (s : Tables)
        → (m s).0 ≡ ok a
        → (m s).1.executions ≡ s.executions
        → Sound s
        → Q a (m s).1
        → Runs Q E s (m s)
    Runs-ok m a s e h k q = record {
      evolves = Evolves-same s (m s).1 h;
      sound = Sound-same s (m s).1 h k;
      ended = subst (λ r. Ends Q E r (m s).1) (sym e) q;
    }

    pub Runs-pure : (a : A) (s : Tables) → Sound s → Q a s → Runs Q E s (pure a s)
    Runs-pure a s h q = record { evolves = Evolves-same s s refl; sound = h; ended = q }

    pub Runs-throw : (e : Thrown) (s : Tables) → Sound s → E s → Runs Q E s (throw e s)
    Runs-throw e s h q = record { evolves = Evolves-same s s refl; sound = h; ended = q }

    pub Runs-if :
        (b : Bool) (m k : Act A) (s : Tables)
        → (b ≡ true → Runs Q E s (m s))
        → (b ≡ false → Runs Q E s (k s))
        → Runs Q E s ((if b then m else k) s)
    Runs-if true m k s f g = f refl
    Runs-if false m k s f g = g refl

    pub Runs-either :
        {X : Type 0} (o : Option X) (k : Act A) (f : X → Act A) (s : Tables)
        → (o ≡ none → Runs Q E s (k s))
        → ((x : X) → o ≡ some x → Runs Q E s (f x s))
        → Runs Q E s (elim o [ none ↦ k s | some x ↦ f x s ])
    Runs-either none k f s g h = g refl
    Runs-either (some x) k f s g h = h x refl

    pub Runs-choose :
        {X : Type 0} (o : Option X) (k : Act A) (f : X → Act A) (s : Tables)
        → (o ≡ none → Runs Q E s (k s))
        → ((x : X) → o ≡ some x → Runs Q E s (f x s))
        → Runs Q E s ((elim o as (λ _. Act A) [ none ↦ k | some x ↦ f x ]) s)
    Runs-choose none k f s g h = g refl
    Runs-choose (some x) k f s g h = h x refl

    -- What holds at the end of a run may also say how the executions came there.
    pub Runs-evolved :
        (s : Tables) (r : Result A × Tables)
        → Runs Q E s r
        → Runs (λ a t. Q a t × Evolves s t) E s r
    Runs-evolved s (ok a, t) h = record {
      evolves = h.evolves;
      sound = h.sound;
      ended = (h.ended, h.evolves);
    }
    Runs-evolved s (err e, t) h = record { evolves = h.evolves; sound = h.sound; ended = h.ended }

    pub Runs-after :
        (s t : Tables) (r : Result A × Tables) → Evolves s t → Runs Q E t r → Runs Q E s r
    Runs-after s t r h k = record {
      evolves = Evolves-trans h k.evolves;
      sound = k.sound;
      ended = k.ended;
    }

    pub Runs-mono :
        (P : A → Tables → Type 0) (F : Tables → Type 0) (s : Tables) (r : Result A × Tables)
        → ((a : A) (t : Tables) → P a t → Q a t)
        → ((t : Tables) → F t → E t)
        → Runs P F s r
        → Runs Q E s r
    Runs-mono P F s (ok a, t) f g h = record {
      evolves = h.evolves;
      sound = h.sound;
      ended = f a t h.ended;
    }
    Runs-mono P F s (err e, t) f g h = record {
      evolves = h.evolves;
      sound = h.sound;
      ended = g t h.ended;
    }

pub Runs-leaves :
    {A : Type 0} (P : Tables → Type 0)
    → ((s t : Tables) → t.executions ≡ s.executions → P s → P t)
    → (m : Act A) (s : Tables) → (m s).1.executions ≡ s.executions
    → Sound s
    → P s
    → Runs (λ _ t. P t) P s (m s)
Runs-leaves P same m s h k p =
    Runs-same (λ _ t. P t) P m s h k (λ _ _. same s (m s).1 h p) (same s (m s).1 h p)

module _ {A B : Type 0} (Q : A → Tables → Type 0) (R : B → Tables → Type 0) (E : Tables → Type 0)
    (f : A → Act B) where
  Runs-step :
      (s : Tables) (r : Result A × Tables)
      → Runs Q E s r
      → ((a : A) (t : Tables) → Sound t → Q a t → Runs R E t (f a t))
      → Runs R E s (elim r.0 [ ok a ↦ f a r.1 | err e ↦ (err e, r.1) ])
  Runs-step s (ok a, t) h k = Runs-after R E s t (f a t) h.evolves (k a t h.sound h.ended)
  Runs-step s (err e, t) h k = record { evolves = h.evolves; sound = h.sound; ended = h.ended }

  pub Runs-bind :
      (m : Act A) (s : Tables)
      → Runs Q E s (m s)
      → ((a : A) (t : Tables) → Sound t → Q a t → Runs R E t (f a t))
      → Runs R E s ((m >>= f) s)
  Runs-bind m s h k = Runs-step s (m s) h k

-- Both ways out of a part, each with what follows.
pub Runs-elim :
    {A B : Type 0} (Q : A → Tables → Type 0) (E : Tables → Type 0) (R : B → Tables → Type 0)
    (F : Tables → Type 0) (f : A → Act B) (g : Thrown → Act B) (s : Tables) (r : Result A × Tables)
    → Runs Q E s r
    → ((a : A) (t : Tables) → Sound t → Q a t → Runs R F t (f a t))
    → ((e : Thrown) (t : Tables) → Sound t → E t → Runs R F t (g e t))
    → Runs R F s (elim r.0 [ ok a ↦ f a r.1 | err e ↦ g e r.1 ])
Runs-elim Q E R F f g s (ok a, t) h k l =
    Runs-after R F s t (f a t) h.evolves (k a t h.sound h.ended)
Runs-elim Q E R F f g s (err e, t) h k l =
    Runs-after R F s t (g e t) h.evolves (l e t h.sound h.ended)

module _ {A : Type 0} (Q : A → Tables → Type 0) (E F : Tables → Type 0) (f : Thrown → Act A) where
  Runs-handle :
      (s : Tables) (r : Result A × Tables)
      → Runs Q E s r
      → ((e : Thrown) (t : Tables) → Sound t → E t → Runs Q F t (f e t))
      → Runs Q F s (elim r.0 [ ok a ↦ (ok a, r.1) | err e ↦ f e r.1 ])
  Runs-handle s (ok a, t) h k = record { evolves = h.evolves; sound = h.sound; ended = h.ended }
  Runs-handle s (err e, t) h k = Runs-after Q F s t (f e t) h.evolves (k e t h.sound h.ended)

  pub Runs-try_catch :
      (m : Act A) (s : Tables)
      → Runs Q E s (m s)
      → ((e : Thrown) (t : Tables) → Sound t → E t → Runs Q F t (f e t))
      → Runs Q F s (try_catch m f s)
  Runs-try_catch m s h k = Runs-handle s (m s) h k

-- A sound row with a record that may follow its own.
abbrev pub with-IsSound :
    (row new : Row)
    → IsSound row
    → Advance row.execution new.execution
    → new.execution_ref ≡ row.execution_ref
    → new.caller_ref ≡ row.caller_ref
    → new.capability ≡ row.capability
    → new.idempotency_key ≡ row.idempotency_key
    → new.input_fingerprint ≡ row.input_fingerprint
    → is_legal new.execution ≡ true
    → IsSound new
with-IsSound row new h adv a b c d e legal = record {
  execution_ref = ap (λ (t : Subject). t.execution_ref) adv.subject ∙ h.execution_ref ∙ sym a;
  caller_ref = ap (λ (t : Subject). t.caller_ref) adv.subject ∙ h.caller_ref ∙ sym b;
  capability = ap (λ (t : Subject). t.capability) adv.subject ∙ h.capability ∙ sym c;
  idempotency_key = ap (λ (t : Subject). t.idempotency_key) adv.subject ∙ h.idempotency_key ∙ sym d;
  input_fingerprint =
      ap (λ (t : Subject). t.input_fingerprint) adv.subject ∙ h.input_fingerprint ∙ sym e;
  legal = legal;
}

module _ (r : ExecutionRecord) (precondition : Option String) (row : Row) (s : Tables) where
  pub rewritten-found :
      get_row row_key r.execution_ref s.executions ≡ some row
      → rewritten r precondition s.executions
        ≡ put_row row_key (with_record r precondition row) s.executions
  rewritten-found h = ground (arith, h)

abbrev pub Saved : ExecutionRecord → ExecutionRecord → Tables → Type 0
Saved new r s = (r ≡ new) × Holds r s

-- `save` of a record that may follow the one that the row has.
pub save-Runs :
    (E : Tables → Type 0) (old new : ExecutionRecord) (precondition : Option String) (s : Tables)
    → Sound s
    → Holds old s
    → Advance old new
    → is_legal new ≡ true
    → Runs (Saved new) E s (save new precondition s)
unfolding save
save-Runs E old new precondition s h k adv legal =
    let same_ref = Advance-ref adv in
    let found : find_row new.execution_ref s ≡ some k.row =
      ap (λ r. find_row r s) same_ref ∙ k.found in
    let row = with_record new precondition k.row in
    let sound = found-IsSound old.execution_ref s k.row h k.found in
    let named : k.row.execution_ref ≡ old.execution_ref =
      sym sound.execution_ref ∙ ap (λ (x : ExecutionRecord). x.execution_ref) k.same in
    let here : find_row k.row.execution_ref s ≡ some k.row =
      ap (λ r. find_row r s) named ∙ k.found in
    let adv' : Advance k.row.execution new = subst (λ x. Advance x new) (sym k.same) adv in
    rw (rewritten-found new precondition k.row s found) (record {
      evolves =
          put-Evolves k.row row s here
            (record {
              execution_ref = refl;
              caller_ref = refl;
              capability = refl;
              idempotency_key = refl;
            })
            adv';
      sound =
          put-Sound k.row row s h
            (with-IsSound k.row row sound adv' refl refl refl refl refl legal);
      ended = (
        refl,
        record {
          row = row;
          found =
              ap (λ r. find_row r (put k.row row s)) (same_ref ∙ sym named)
              ∙ put-found k.row row s here refl;
          same = refl;
        },
      );
    })

module _ {A : Type 0} (Q : A → Tables → Type 0) (E : Tables → Type 0)
    (f : ExecutionRecord → Act A) where
  Runs-parsed :
      (b : Bool) (r : ExecutionRecord) (s : Tables)
      → Sound s
      → E s
      → (b ≡ true → Runs Q E s (f r s))
      → Runs Q E s (((if b then pure r else throw foreign) >>= f) s)
  Runs-parsed true r s h e k = k refl
  Runs-parsed false r s h e k = Runs-throw Q E foreign s h e

  -- `parseExecutionRecord`, and what follows on a record that it admits.
  pub Runs-parse :
      (r : ExecutionRecord) (s : Tables)
      → Sound s
      → E s
      → (is_legal r ≡ true → Runs Q E s (f r s))
      → Runs Q E s ((parse_record r >>= f) s)
  Runs-parse r s h e k = Runs-parsed (is_legal r) r s h e k
