-- ===== src/Splunk.antt =====
-- backend/app/splunk: what a search through each client comes to. An HTTP call is a parameter: a function
-- from the request to the response or the exception.
pub mod Live
pub mod Mcp
pub mod Mock
pub mod Factory
pub mod Counted
pub mod Transports
use Prim.Native.Char.{code}
use mathlib.Core.Option
use text.Mathlib.Text.{starts_with}
use sentinelai_splunk.Prelude.{
  ℕ, String, Bool, not, ◌&&◌, ◌||◌, Option, none, some, List, [], ◌∷◌, ◌==◌, concat, leb, ltb, eqb,
  if◌then◌else◌,
}
use sentinelai_splunk.Domain.{SearchResult, SplunkEvent}
use sentinelai_splunk.Resilience.{Call, returns, raises_deterministic, raises}
use sentinelai_splunk.Agents.Answer.{Python, Value, Entries, text_of}

-- The `SplunkError`s of client.py, and any other exception.
pub data SplunkError : Type 0 where
  auth_error : String → SplunkError
  query_error : String → SplunkError
  connection_error : String → SplunkError
  other_error : String → SplunkError

-- What a search does.
pub data Outcome : Type 0 where
  found : SearchResult → Outcome
  raised : SplunkError → Outcome

-- The same as a call of the detection agent, which does not retry a `SplunkQueryError`.
unfoldable pub call_of : Outcome → Call SearchResult
call_of (found result) = returns result
call_of (raised (query_error text)) = raises_deterministic
call_of (raised (auth_error text)) = raises
call_of (raised (connection_error text)) = raises
call_of (raised (other_error text)) = raises

-- What an HTTP request does: a response with its status, its text and its JSON (`none` where the body is
-- none), a `ConnectError`, or another `HTTPError`.
pub data Response : Type 0 where
  response : ℕ → String → Option Value → Response
  connect_error : String → Response
  transport_error : String → Response

-- `raise_for_status`
unfoldable pub is_success : ℕ → Bool
is_success code = leb 200 code && ltb code 300

-- `not spl or not spl.strip()`
unfoldable pub is_blank : Python → String → Bool
is_blank py spl = spl == "" || py.strip spl == ""

-- `spl if spl.strip().lower().startswith("search") else f"search {spl}"`
unfoldable pub with_command : Python → String → String
with_command py spl =
    if starts_with (py.lower (py.strip spl)) "search" then spl else concat ("search " ∷ spl ∷ [])

-- `{k: str(v) for k, v in row.items() if not k.startswith("_")}`
unfoldable pub fields_of : Python → Entries → List (String × String)
unfolding text_of
fields_of py Entries.end = []
fields_of py (Entries.entry k v rest) =
    let later = fields_of py rest in if starts_with k "_" then later else (k, text_of py v) ∷ later

-- `value.replace("Z", "+00:00")`
unfoldable pub replace_z : String → String
replace_z String.[] = String.[]
replace_z (String.◌∷◌ c s) =
    let rest = replace_z s in
    if eqb (code c) b'Z' then concat ("+00:00" ∷ rest ∷ []) else String.◌∷◌ c rest

-- `_parse_time`, where `parse` is `datetime.fromisoformat` with its `ValueError` as `none`
unfoldable pub parse_time : (String → Option ℕ) → ℕ → Option Value → ℕ
unfolding replace_z
parse_time parse now (some (Value.str text)) = elim (parse (replace_z text)) [
  | none ↦ now
  | some time ↦ time
]
parse_time parse now _ = now
