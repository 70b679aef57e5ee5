-- ===== src/RateLimit/Counts.antt =====
-- Counting the hits of backend/app/core/middleware.py that fall in a window, and what the operations do
-- to the counts.
use sentinelai_splunk.Prelude.{
  ℕ, ◌+◌, ◌≤◌, String, ◌≡◌, refl, ap, ◌∙◌, false, ◌&&◌, List, [], ◌∷◌, ◌++◌, ◌==◌, leb, length,
  arith, Bool-cases, inl, inr, ==→eq, if◌then◌else◌, eq_refl,
}
use sentinelai_splunk.RateLimit.{window_us, Hits, window_of, put_window, evict}

-- the hits of a window that are at most sixty seconds before a time, and not after it
abbrev pub recent : ℕ → List ℕ → ℕ
recent time [] = 0
recent time (t ∷ window) =
    if leb t time && leb time (t + window_us) then 1 + recent time window else recent time window

-- The requests of a client that went on in the sixty seconds up to a time.
abbrev pub within_window : ℕ → String → List (ℕ × String) → ℕ
within_window time client [] = 0
within_window time client ((t, c) ∷ log) =
    if c == client && leb t time && leb time (t + window_us)
    then 1 + within_window time client log
    else within_window time client log

pub within_window-append :
    (time : ℕ) (client : String) (xs ys : List (ℕ × String))
    → within_window time client (xs ++ ys)
      ≡ within_window time client xs + within_window time client ys
within_window-append time client [] ys = omega arith
within_window-append time client ((t, c) ∷ xs) ys =
    ground (arith, within_window-append time client xs ys)

pub recent-append :
    (time : ℕ) (xs ys : List ℕ) → recent time (xs ++ ys) ≡ recent time xs + recent time ys
recent-append time [] ys = omega arith
recent-append time (t ∷ xs) ys = ground (arith, recent-append time xs ys)

pub recent-le : (time : ℕ) (window : List ℕ) → recent time window ≤ length window
recent-le time [] = omega arith
recent-le time (t ∷ window) = ground (arith, recent-le time window)

-- What is evicted is out of every window that ends now or later.
pub recent-evict :
    (time now : ℕ) (window : List ℕ)
    → now ≤ time
    → recent time (evict now window) ≡ recent time window
unfolding evict
recent-evict time now [] h = refl
recent-evict time now (t ∷ window) h = ground (arith, recent-evict time now window h)

pub window_of-put_same :
    (client : String) (window : List ℕ) (hits : Hits)
    → window_of client (put_window client window hits) ≡ window
unfolding window_of put_window
window_of-put_same client window [] = rw (eq_refl client) refl
window_of-put_same client window ((c, w) ∷ hits) =
    ground (arith, window_of-put_same client window hits)

pub window_of-put_other :
    (client other : String) (window : List ℕ) (hits : Hits)
    → (client == other) ≡ false
    → window_of other (put_window client window hits) ≡ window_of other hits
unfolding window_of put_window
window_of-put_other client other window [] apart = rw apart refl
window_of-put_other client other window ((c, w) ∷ hits) apart = elim (Bool-cases (c == client)) [
  | inl own ↦
      let miss : (c == other) ≡ false = ap (λ x. x == other) (==→eq c client own) ∙ apart in
      rw own (rw miss refl)
  | inr not_own ↦ rw not_own (ground (arith, window_of-put_other client other window hits apart))
]
