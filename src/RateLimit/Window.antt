-- ===== src/RateLimit/Window.antt =====
-- The limit of backend/app/core/middleware.py holds in every window of sixty seconds.
use sentinelai_splunk.Prelude.{
  ℕ, ◌≤◌, ◌<◌, String, ◌≡◌, refl, subst, true, false, List, [], ◌∷◌, ◌++◌, ◌==◌, leb, length, arith,
  Bool-cases, inl, inr, ==→eq,
}
use mathlib.Core.List.{append-nil, append_assoc}
use sentinelai_splunk.RateLimit.{Hits, window_of, put_window, evict, admit, dispatch, admitted}
use sentinelai_splunk.RateLimit.Counts.{
  within_window-append, recent-append, recent-le, recent-evict, window_of-put_same,
  window_of-put_other, recent, within_window,
}

-- What holds of a client between two requests, the later of which comes at `now` or after.
record Holds (limit : ℕ) (client : String) (now : ℕ) (log : List (ℕ × String)) (hits : Hits)
    : Type 0 where
  limited : (time : ℕ) → within_window time client log ≤ limit
  tracked :
      (time : ℕ) → now ≤ time → within_window time client log ≤ recent time (window_of client hits)

single-other :
    (time later : ℕ) (client other : String)
    → (other == client) ≡ false
    → within_window time client ((later, other) ∷ []) ≡ 0
single-other time later client other apart = rw apart refl

single-own :
    (time later : ℕ) (client own : String)
    → (own == client) ≡ true
    → within_window time client ((later, own) ∷ []) ≡ recent time (later ∷ [])
single-own time later client own same = rw same refl

recent-later : (time later : ℕ) → time < later → recent time (later ∷ []) ≡ 0
recent-later time later h = ground arith

module _ (limit now later : ℕ) (client : String) (log : List (ℕ × String)) (hits : Hits)
    (holds : Holds limit client now log hits) (order : now ≤ later) where
  evicted-tracked :
      (time : ℕ)
      → later ≤ time
      → within_window time client log ≤ recent time (evict later (window_of client hits))
  evicted-tracked time h =
      let past : now ≤ time = omega (arith, order, h) in
      omega (arith, holds.tracked time past, recent-evict time later (window_of client hits) h)

  kept-Holds :
      (hits' : Hits)
      → window_of client hits' ≡ evict later (window_of client hits)
      → Holds limit client later log hits'
  kept-Holds hits' e = record {
    limited = holds.limited;
    tracked = λ time h. rw e (evicted-tracked time h);
  }

  idle-Holds :
      (hits' : Hits)
      → window_of client hits' ≡ window_of client hits
      → Holds limit client later log hits'
  idle-Holds hits' e = record {
    limited = holds.limited;
    tracked = λ time h. rw e (holds.tracked time (omega (arith, order, h)));
  }

  spared-Holds :
      (other : String) (hits' : Hits)
      → (other == client) ≡ false
      → window_of client hits' ≡ window_of client hits
      → Holds limit client later (log ++ (later, other) ∷ []) hits'
  spared-Holds other hits' apart e = record {
    limited = λ time. omega (
      arith,
      within_window-append time client log ((later, other) ∷ []),
      single-other time later client other apart,
      holds.limited time,
    );
    tracked = λ time h. rw e (
        omega (
          arith,
          within_window-append time client log ((later, other) ∷ []),
          single-other time later client other apart,
          holds.tracked time (omega (arith, order, h)),
        ));
  }

  admitted-limited :
      (own : String) (time : ℕ)
      → (own == client) ≡ true
      → length (evict later (window_of client hits)) < limit
      → within_window time client (log ++ (later, own) ∷ []) ≤ limit
  admitted-limited own time same room = elim (Bool-cases (leb later time)) [
    | inl reached ↦
        let h : later ≤ time = ground arith in
        omega (
          arith,
          within_window-append time client log ((later, own) ∷ []),
          single-own time later client own same,
          evicted-tracked time h,
          room,
          recent-le time (evict later (window_of client hits)),
          recent-le time (later ∷ []),
        )
    | inr before ↦
        let h : time < later = ground arith in
        omega (
          arith,
          within_window-append time client log ((later, own) ∷ []),
          single-own time later client own same,
          recent-later time later h,
          holds.limited time,
        )
  ]

  admitted-Holds :
      (own : String) (hits' : Hits)
      → (own == client) ≡ true
      → length (evict later (window_of client hits)) < limit
      → window_of client hits' ≡ evict later (window_of client hits) ++ later ∷ []
      → Holds limit client later (log ++ (later, own) ∷ []) hits'
  admitted-Holds own hits' same room e = record {
    limited = λ time. admitted-limited own time same room;
    tracked = λ time h. rw e (
        omega (
          arith,
          within_window-append time client log ((later, own) ∷ []),
          single-own time later client own same,
          evicted-tracked time h,
          recent-append time (evict later (window_of client hits)) (later ∷ []),
        ));
  }

-- The arrivals come in the order of their times, the first no earlier than `now`.
abbrev pub IsOrdered : ℕ → List (ℕ × String) → Type 0
IsOrdered now [] = Unit
IsOrdered now ((later, client) ∷ arrivals) = (now ≤ later) × IsOrdered later arrivals

admitted-refused :
    (limit later : ℕ) (c : String) (arrivals : List (ℕ × String)) (hits : Hits)
    → leb limit (length (evict later (window_of c hits))) ≡ true
    → admitted limit ((later, c) ∷ arrivals) hits
      ≡ admitted limit arrivals (put_window c (evict later (window_of c hits)) hits)
unfolding admitted dispatch admit
admitted-refused limit later c arrivals hits full = rw full refl

admitted-passed :
    (limit later : ℕ) (c : String) (arrivals : List (ℕ × String)) (hits : Hits)
    → leb limit (length (evict later (window_of c hits))) ≡ false
    → admitted limit ((later, c) ∷ arrivals) hits
      ≡ (later, c)
        ∷ admitted limit arrivals (put_window c (evict later (window_of c hits) ++ later ∷ []) hits)
unfolding admitted dispatch admit
admitted-passed limit later c arrivals hits room = rw room refl

module _ (limit now later : ℕ) (client c : String) (log : List (ℕ × String)) (hits : Hits)
    (holds : Holds limit client now log hits) (order : now ≤ later) where
  -- the client's own window after it is written
  own_window :
      (write : List ℕ → List ℕ)
      → (c == client) ≡ true
      → window_of client (put_window c (write (window_of c hits)) hits)
        ≡ write (window_of client hits)
  own_window write own =
      subst
        (λ x. window_of x (put_window c (write (window_of c hits)) hits) ≡ write (window_of x hits))
        (==→eq c client own) (window_of-put_same c _ hits)

  refused-Holds : Holds limit client later log (put_window c (evict later (window_of c hits)) hits)
  refused-Holds = elim (Bool-cases (c == client)) [
    | inl own ↦
        kept-Holds limit now later client log hits holds order _ (own_window (evict later) own)
    | inr other ↦
        idle-Holds limit now later client log hits holds order _
          (window_of-put_other c client _ hits other)
  ]

  passed-Holds :
      leb limit (length (evict later (window_of c hits))) ≡ false
      → Holds limit client later
          (log ++ (later, c) ∷ [])
          (put_window c (evict later (window_of c hits) ++ later ∷ []) hits)
  passed-Holds room = elim (Bool-cases (c == client)) [
    | inl own ↦
        admitted-Holds limit now later client log hits holds order c _ own
          (subst (λ x. length (evict later (window_of x hits)) < limit) (==→eq c client own)
            (ground arith))
          (own_window (λ w. evict later w ++ later ∷ []) own)
    | inr other ↦
        spared-Holds limit now later client log hits holds order c _ other
          (window_of-put_other c client _ hits other)
  ]

Holds-admitted :
    (limit now : ℕ) (client : String) (arrivals log : List (ℕ × String)) (hits : Hits)
    → Holds limit client now log hits
    → IsOrdered now arrivals
    → (time : ℕ) → within_window time client (log ++ admitted limit arrivals hits) ≤ limit
unfolding admitted
Holds-admitted limit now client [] log hits holds ordered time = rw append-nil (holds.limited time)
Holds-admitted limit now client ((later, c) ∷ arrivals) log hits holds (order, ordered) time =
    let kept = evict later (window_of c hits) in
    elim (Bool-cases (leb limit (length kept))) [
      | inl full ↦ rw (admitted-refused limit later c arrivals hits full) (
          Holds-admitted limit later client arrivals log (put_window c kept hits)
            (refused-Holds limit now later client c log hits holds order) ordered time)
      | inr room ↦ rw (admitted-passed limit later c arrivals hits room) (
          rw (← append_assoc log ((later, c) ∷ []) _) (
            Holds-admitted limit later client arrivals (log ++ (later, c) ∷ [])
              (put_window c (kept ++ later ∷ []) hits)
              (passed-Holds limit now later client c log hits holds order room) ordered time))
    ]

-- From an empty start, whatever requests arrive in the order of their times, no client gets more
-- than the limit through in any window of sixty seconds, its two ends included.
pub within_window-admitted :
    (limit : ℕ) (arrivals : List (ℕ × String)) (client : String) (time : ℕ)
    → IsOrdered 0 arrivals
    → within_window time client (admitted limit arrivals []) ≤ limit
unfolding window_of
within_window-admitted limit arrivals client time ordered =
    Holds-admitted limit 0 client arrivals [] []
      (record { limited = λ time. omega arith; tracked = λ time h. omega arith }) ordered time
