-- ===== src/Session/Ensures.antt =====
-- What holds of the value that an action of backend/app/db/session.py returns, whatever the session: one
-- rule for each way to build an action.
use sentinelai_splunk.Prelude.{◌≡◌, Option, none, some, refl}
use sentinelai_splunk.Session.{
  Failure, Result, ok, err, Session, Exec, pure, raise, or_raise, ◌>>=◌, continue,
}
use sentinelai_splunk.Prelude.{subst}

pub record Ensures {A : Type 0} (Q : A → Type 0) (action : Exec A) : Type 0 where
  pub value : (s : Session) (a : A) → (action s).0 ≡ ok a → Q a

module _ {A : Type 0} (Q : A → Type 0) where
  pub Ensures-pure : (a : A) → Q a → Ensures Q (pure a)
  unfolding pure
  Ensures-pure a q = record { value = λ s b e. subst Q (same b e) q }
    where
      same : (b : A) → ok a ≡ ok b → a ≡ b
      same b e = cc

  pub Ensures-raise : (failure : Failure) → Ensures Q (raise failure)
  unfolding raise
  Ensures-raise failure = record { value = λ s a e. cc e }

  pub Ensures-or_raise :
      (o : Option A) (failure : Failure)
      → ((a : A) → o ≡ some a → Q a)
      → Ensures Q (or_raise o failure)
  unfolding or_raise
  Ensures-or_raise none failure h = record { value = λ s a e. cc e }
  Ensures-or_raise (some x) failure h = record { value = λ s a e. h a (cc e) }

-- Of a value that nothing is known of.
abbrev pub Anything : {A : Type 0} → A → Type 0
Anything a = Unit {0}

pub Ensures-Anything : {A : Type 0} (action : Exec A) → Ensures Anything action
Ensures-Anything action = record { value = λ s a e. tt }

module _ {A B : Type 0} (R : A → Type 0) (Q : B → Type 0) where
  continued :
      (outcome : Result A) (rest : A → Exec B) (s : Session) (b : B)
      → ((a : A) → outcome ≡ ok a → Ensures Q (rest a))
      → (continue outcome rest s).0 ≡ ok b
      → Q b
  continued (ok a) rest s b each e = (each a refl).value s b e
  continued (err failure) rest s b each e = cc e

  pub Ensures-bind :
      (first : Exec A) (rest : A → Exec B)
      → Ensures R first
      → ((a : A) → R a → Ensures Q (rest a))
      → Ensures Q (first >>= rest)
  unfolding ◌>>=◌
  Ensures-bind first rest begins each = record {
    value = λ s b e.
        continued (first s).0 rest (first s).1 b (λ a same. each a (begins.value s a same)) e;
  }
