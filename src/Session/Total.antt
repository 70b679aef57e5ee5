-- ===== src/Session/Total.antt =====
-- Actions of backend/app/db/session.py that return from every session.
use sentinelai_splunk.Prelude.{ℕ, String, ◌≡◌, refl, ap, ◌∙◌, Bool, true, false, if◌then◌else◌}
use sentinelai_splunk.Session.{Result, ok, Session, Exec, pure, gets, uuid4_hex, ◌>>=◌, continue}

-- The action raises nothing.
pub record Total {A : Type 0} (action : Exec A) : Type 0 where
  pub returns : (s : Session) → (a : A) × (s' : Session) × (action s ≡ (ok a, s'))

module _ {A : Type 0} where
  pub Total-pure : (a : A) → Total (pure a)
  unfolding pure
  Total-pure a = record { returns = λ s. (a, s, refl) }

  pub Total-gets : (f : Session → A) → Total (gets f)
  unfolding gets
  Total-gets f = record { returns = λ s. (f s, s, refl) }

  pub Total-if :
      (test : Bool) (first second : Exec A)
      → Total first
      → Total second
      → Total (if test then first else second)
  Total-if true first second one two = one
  Total-if false first second one two = two

pub Total-uuid4_hex : (uuid_hex : ℕ → String) → Total (uuid4_hex uuid_hex)
unfolding uuid4_hex
Total-uuid4_hex uuid_hex = record { returns = λ s. (uuid_hex s.uuids, _, refl) }

module _ {A B : Type 0} where
  pub Total-bind :
      (first : Exec A) (rest : A → Exec B)
      → Total first
      → ((a : A) → Total (rest a))
      → Total (first >>= rest)
  unfolding ◌>>=◌
  Total-bind first rest begins each = record {
    returns = λ s.
        let (a, mid, e) = begins.returns s in
        let (b, s', f) = (each a).returns mid in
        (b, s', ap (λ (p : Result A × Session). continue p.0 rest p.1) e ∙ f);
  }

pub ruleset total_rules = (Total-bind, Total-pure, Total-gets, Total-if, Total-uuid4_hex)
