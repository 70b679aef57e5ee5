-- ===== src/Session/Returns.antt =====
-- What is known of an action of backend/app/db/session.py that returned: its parts returned too.
use sentinelai_splunk.Prelude.{◌≡◌, refl, Bool, true, false, Option, none, some}
use sentinelai_splunk.Session.{
  Failure, Result, ok, err, Session, Exec, or_raise, raise_if, ◌>>=◌, continue,
}

-- The outcome is the value, with the session left so.
abbrev pub Returns : {A : Type 0} → Result A × Session → A → Session → Type 0
Returns (r, s) a s' = (r ≡ ok a) × (s ≡ s')

module _ {A B : Type 0} where
  -- What came before the continuation.
  abbrev pub Through : (m : Exec A) (f : A → Exec B) (s : Session) (b : B) (s' : Session) → Type 0
  Through m f s b s' = (a : A) × ((m s).0 ≡ ok a) × Returns (f a (m s).1) b s'

  through :
      (m : Exec A) (f : A → Exec B) (s : Session) (b : B) (s' : Session) (r : Result A)
      → (m s).0 ≡ r
      → Returns (continue r f (m s).1) b s'
      → Through m f s b s'
  through m f s b s' (ok a) e h = (a, e, h)
  through m f s b s' (err e') e h = absurd (cc (h.0))

  pub bind-Returns :
      (m : Exec A) (f : A → Exec B) (s : Session) (b : B) (s' : Session)
      → Returns ((m >>= f) s) b s'
      → Through m f s b s'
  unfolding ◌>>=◌
  bind-Returns m f s b s' h = through m f s b s' (m s).0 refl h

module _ {A : Type 0} where
  pub or_raise-Returns :
      (o : Option A) (e : Failure) (s s' : Session) (a : A)
      → Returns (or_raise o e s) a s'
      → (o ≡ some a) × (s ≡ s')
  unfolding or_raise
  or_raise-Returns none e s s' a h = cc (h.0)
  or_raise-Returns (some x) e s s' a h = (cc (h.0), h.1)

pub raise_if-Returns :
    (b : Bool) (e : Failure) (s s' : Session) (u : Unit {0})
    → Returns (raise_if b e s) u s'
    → (b ≡ false) × (s ≡ s')
unfolding raise_if
raise_if-Returns true e s s' u h = cc (h.0)
raise_if-Returns false e s s' u h = (refl, h.1)
