-- ===== src/Api/Bearer.antt =====
-- The header of `get_principal` in backend/app/api/deps.py: a scheme in any case, a space, a token.
use Prim.Native.Char.{code}
use sentinelai_splunk.Prelude.{
  ℕ, ◌+◌, String, ◌≡◌, refl, Bool, ◌&&◌, ◌||◌, Option, none, some, List, [], ◌∷◌, leb, eqb,
  if◌then◌else◌,
}

-- `str.lower` of one character of ASCII
lower_code : ℕ → ℕ
lower_code c = if leb b'A' c && leb c b'Z' then c + 32 else c

-- what follows a prefix that matches in any case
drop_prefix : List ℕ → String → Option String
unfolding lower_code
drop_prefix [] s = some s
drop_prefix (p ∷ ps) String.[] = none
drop_prefix (p ∷ ps) (String.◌∷◌ c s) =
    let rest = drop_prefix ps s in if eqb (lower_code (code c)) p then rest else none

-- `str.isspace` within Latin-1, which a header is decoded by
is_space : ℕ → Bool
is_space c = leb 9 c && leb c 13 || leb 28 c && leb c 32 || eqb c 0x85 || eqb c 0xA0

strip_left : String → String
unfolding is_space
strip_left String.[] = String.[]
strip_left (String.◌∷◌ c s) =
    let rest = strip_left s in if is_space (code c) then rest else String.◌∷◌ c s

-- one more character in front of a text that is stripped on the right
strip_cons : ℕ → String → String → String
unfolding is_space
strip_cons c whole String.[] = if is_space c then String.[] else whole
strip_cons c whole (String.◌∷◌ d s) = whole

strip_right : String → String
unfolding strip_cons
strip_right String.[] = String.[]
strip_right (String.◌∷◌ c s) =
    let rest = strip_right s in strip_cons (code c) (String.◌∷◌ c rest) rest

-- The scheme has no space, so that `split(" ", 1)[1]` is what follows it.
unfoldable pub bearer_token : String → Option String
unfolding drop_prefix strip_left strip_right
bearer_token authorization = elim (drop_prefix scheme authorization) [
  | none ↦ none
  | some rest ↦ some (strip_right (strip_left rest))
]
  where
    scheme : List ℕ
    scheme = b'b' ∷ b'e' ∷ b'a' ∷ b'r' ∷ b'e' ∷ b'r' ∷ b' ' ∷ []

bearer_token_examples :
    (bearer_token "BEARER  abc " ≡ some "abc")
    × (bearer_token "Basic abc" ≡ none)
    × (bearer_token "Bearer" ≡ none)
unfolding bearer_token
bearer_token_examples = (refl, refl, refl)
