-- ===== src/Session/Preserves.antt =====
-- Invariants of the session's actions: one rule for each way to build an action, all proved from the
-- two below, on an action that leaves the session alone and on two in a row.
use sentinelai_splunk.Prelude.{
  ◌≡◌, refl, sym, subst, Bool, true, false, Option, none, some, List, [], ◌∷◌, if◌then◌else◌,
}
use sentinelai_splunk.Session.{
  Failure, Result, ok, err, Session, Exec, pure, raise, gets, or_raise, raise_if, if_some, ◌>>=◌,
  continue, scalar_one_or_none,
}

-- Where the property holds before the action it holds after it, also when the action raised.
pub record Preserves {A : Type 0} (P : Session → Type 0) (action : Exec A) : Type 0 where
  pub after : (s : Session) → P s → P (action s).1

module _ {A : Type 0} where
  scalar-idle : (rows : List A) (s : Session) → (scalar_one_or_none rows s).1 ≡ s
  unfolding scalar_one_or_none
  scalar-idle (a ∷ b ∷ rows) s = refl
  scalar-idle (a ∷ []) s = refl
  scalar-idle [] s = refl

  or_raise-idle : (o : Option A) (failure : Failure) (s : Session) → (or_raise o failure s).1 ≡ s
  unfolding or_raise
  or_raise-idle (some a) failure s = refl
  or_raise-idle none failure s = refl

module _ {P : Session → Type 0} where
  idle : {A : Type 0} (action : Exec A) → ((s : Session) → (action s).1 ≡ s) → Preserves P action
  idle action same = record { after = λ s holds. subst P (sym (same s)) holds }

  module _ {A B : Type 0} where
    continue-after :
        (outcome : Result A) (rest : A → Exec B) (s : Session)
        → ((a : A) → Preserves P (rest a))
        → P s
        → P (continue outcome rest s).1
    continue-after (err failure) rest s each holds = holds
    continue-after (ok a) rest s each holds = (each a).after s holds

    pub Preserves-bind :
        (first : Exec A) (rest : A → Exec B)
        → Preserves P first
        → ((a : A) → Preserves P (rest a))
        → Preserves P (first >>= rest)
    unfolding ◌>>=◌
    Preserves-bind first rest begins each = record {
      after = λ s holds.
          let (outcome, mid) = first s in
          continue-after outcome rest mid each (begins.after s holds);
    }

    -- What holds after the first action holds after both, where the second keeps it.
    pub bind-after :
        (first : Exec A) (rest : A → Exec B) (s : Session)
        → P (first s).1
        → ((a : A) → Preserves P (rest a))
        → P ((first >>= rest) s).1
    unfolding ◌>>=◌
    bind-after first rest s holds each = continue-after (first s).0 rest (first s).1 each holds

    pub Preserves-if_some :
        (o : Option A) (absent : Exec B) (present : A → Exec B)
        → Preserves P absent
        → ((a : A) → Preserves P (present a))
        → Preserves P (if_some o absent present)
    unfolding if_some
    Preserves-if_some (some a) absent present otherwise each = each a
    Preserves-if_some none absent present otherwise each = otherwise

  module _ {A : Type 0} where
    pub Preserves-if :
        (test : Bool) (first second : Exec A)
        → Preserves P first
        → Preserves P second
        → Preserves P (if test then first else second)
    Preserves-if false first second one two = two
    Preserves-if true first second one two = one

    pub Preserves-scalar : (rows : List A) → Preserves P (scalar_one_or_none rows)
    Preserves-scalar rows = idle (scalar_one_or_none rows) (scalar-idle rows)

    pub Preserves-or_raise : (o : Option A) (failure : Failure) → Preserves P (or_raise o failure)
    Preserves-or_raise o failure = idle (or_raise o failure) (or_raise-idle o failure)

    pub Preserves-raise : (failure : Failure) → Preserves P (raise {A = A} failure)
    unfolding raise
    Preserves-raise failure = idle (raise failure) (λ s. refl)

    pub Preserves-gets : (read : Session → A) → Preserves P (gets read)
    unfolding gets
    Preserves-gets read = idle (gets read) (λ s. refl)

    pub Preserves-pure : (a : A) → Preserves P (pure a)
    unfolding pure
    Preserves-pure a = idle (pure a) (λ s. refl)

  pub Preserves-raise_if : (test : Bool) (failure : Failure) → Preserves P (raise_if test failure)
  unfolding raise_if
  Preserves-raise_if test failure = idle (raise_if test failure) (λ s. refl)

pub ruleset preserves_rules = (
  Preserves-bind, Preserves-if_some, Preserves-if, Preserves-scalar, Preserves-or_raise,
  Preserves-raise_if, Preserves-raise, Preserves-gets, Preserves-pure,
)
