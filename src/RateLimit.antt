-- ===== src/RateLimit.antt =====
-- `RateLimitMiddleware` of backend/app/core/middleware.py: a sliding window of the hits of each client.
-- A reading of `time.time` is a number of microseconds.
pub mod Counts
pub mod Window
use sentinelai_splunk.Prelude.{
  ℕ, ◌+◌, ◌-◌, String, Bool, true, false, List, [], ◌∷◌, ◌++◌, ◌==◌, ltb, leb, length,
  if◌then◌else◌,
}

-- 60.0 seconds
abbrev pub window_us : ℕ
window_us = 60000000

-- `self._hits`, a `defaultdict(deque)`
abbrev pub Hits : Type 0
Hits = List (String × List ℕ)

unfoldable pub window_of : String → Hits → List ℕ
window_of client [] = []
window_of client ((c, window) ∷ hits) = if c == client then window else window_of client hits

pub put_window : String → List ℕ → Hits → Hits
put_window client window [] = (client, window) ∷ []
put_window client window ((c, w) ∷ hits) =
    if c == client then (c, window) ∷ hits else (c, w) ∷ put_window client window hits

-- the `while` loop: `now - window[0] > 60.0`
pub evict : ℕ → List ℕ → List ℕ
evict now [] = []
evict now (t ∷ window) = if ltb window_us (now - t) then evict now window else t ∷ window

admit : ℕ → ℕ → String → List ℕ → Hits → Bool × Hits
unfolding put_window
admit limit now client window hits =
    if leb limit (length window)
    then (false, put_window client window hits)
    else (true, put_window client (window ++ now ∷ []) hits)

-- `dispatch`: whether the request goes on, and the windows after it
pub dispatch : ℕ → ℕ → String → Hits → Bool × Hits
unfolding admit evict window_of
dispatch limit now client hits = admit limit now client (evict now (window_of client hits)) hits

-- The requests that go on, of those that arrive at these times from these clients.
pub admitted : ℕ → List (ℕ × String) → Hits → List (ℕ × String)
unfolding dispatch
admitted limit [] hits = []
admitted limit ((now, client) ∷ arrivals) hits =
    let (goes_on, hits') = dispatch limit now client hits in
    let rest = admitted limit arrivals hits' in if goes_on then (now, client) ∷ rest else rest
