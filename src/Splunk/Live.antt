-- ===== src/Splunk/Live.antt =====
-- `LiveSplunkClient` of backend/app/splunk/live_client.py.
use mathlib.Core.Option
use sentinelai_splunk.Prelude.{
  ℕ, String, Bool, Option, none, some, List, [], ◌∷◌, ◌==◌, length, eqb, if◌then◌else◌,
}
use sentinelai_splunk.Domain.{SplunkEvent}
use sentinelai_splunk.Agents.Answer.{Python, Value, Values, Entries, get, as_dict}
use sentinelai_splunk.Splunk.{
  Outcome, found, raised, SplunkError, auth_error, query_error, connection_error, other_error,
  Response, response, connect_error, transport_error, is_success, is_blank, with_command, fields_of,
  parse_time,
}

-- the body of the form that is posted
pub record Payload : Type 0 where
  pub search : String
  pub earliest_time : String
  pub latest_time : String
  pub output_mode : String

-- What `_post_search` does: the JSON of the answer, or the exception.
pub data Posted : Type 0 where
  answered : Value → Posted
  failed : SplunkError → Posted

-- `raise_for_status` and `resp.json()`
read_body : ℕ → Option Value → Posted
read_body code body =
    if is_success code
    then elim body [ none ↦ failed (other_error "JSONDecodeError") | some value ↦ answered value ]
    else failed (other_error "HTTPStatusError")

-- `_post_search`
unfoldable pub post_search : Response → Posted
unfolding read_body
post_search (connect_error text) = failed (connection_error text)
post_search (transport_error text) = failed (other_error text)
post_search (response code text body) =
    if eqb code 401
    then failed (auth_error "Splunk rejected the token")
    else if eqb code 400
    then failed (query_error text)
    else read_body code body

-- `row.get(key, "")`, which has to be a text for the event to validate
unfoldable pub text_at : String → Entries → Option String
text_at key row = elim (get key row) [
  | none ↦ some ""
  | some (Value.str s) ↦ some s
  | some _ ↦ none
]

-- the event of the texts that validate
unfoldable pub event_with :
    Python
    → (String → Option ℕ)
    → ℕ
    → Entries
    → Option String
    → Option String
    → Option String
    → Option String
    → Option SplunkEvent
event_with py parse now row (some raw) (some source) (some sourcetype) (some host) = some (record {
  raw = raw;
  source = source;
  sourcetype = sourcetype;
  host = host;
  timestamp = parse_time parse now (get "_time" row);
  fields = fields_of py row;
})
event_with py parse now row _ _ _ _ = none

-- an event; `none` is the `ValidationError`
unfoldable pub event_of : Python → (String → Option ℕ) → ℕ → Entries → Option SplunkEvent
event_of py parse now row =
    event_with py parse now row (text_at "_raw" row) (text_at "source" row)
      (text_at "sourcetype" row) (text_at "host" row)

-- the comprehension over the rows; `none` where a row is no dict or does not validate
unfoldable pub events_of : Python → (String → Option ℕ) → ℕ → Values → Option (List SplunkEvent)
events_of py parse now Values.nil = some []
events_of py parse now (Values.cons row rows) = elim (as_dict row) [
  | none ↦ none
  | some es ↦ elim (event_of py parse now es) [
    | none ↦ none
    | some e ↦ Option.map (λ rest. e ∷ rest) (events_of py parse now rows)
  ]
]

-- What the comprehension iterates over; `none` is an exception. An empty text or dict has no rows, and the
-- characters or keys of another one are no dicts.
unfoldable pub rows_of : Value → Option Values
rows_of (Value.list vs) = some vs
rows_of (Value.str text) = if text == "" then some Values.nil else none
rows_of (Value.dict Entries.end) = some Values.nil
rows_of value = none

-- `data.get("results", [])`
unfoldable pub rows_in : Entries → Option Values
unfolding rows_of
rows_in es = elim (get "results" es) [ none ↦ some Values.nil | some value ↦ rows_of value ]

-- `data.get("sid", "live")`, a text
unfoldable pub sid_in : Entries → Option String
sid_in es = elim (get "sid" es) [ none ↦ some "live" | some (Value.str s) ↦ some s | some _ ↦ none ]

unfoldable pub result_with : String → Option String → Option (List SplunkEvent) → Outcome
result_with spl (some sid) (some events) =
    found (record { sid = sid; query = spl; event_count = length events; events = events })
result_with spl _ _ = raised (other_error "ValidationError")

-- the search result in the JSON of the answer
unfoldable pub read_results : Python → (String → Option ℕ) → ℕ → String → Value → Outcome
unfolding result_with rows_in sid_in
read_results py parse now spl (Value.dict es) = elim (rows_in es) [
  | none ↦ raised (other_error "TypeError or AttributeError")
  | some rows ↦ result_with spl (sid_in es) (events_of py parse now rows)
]
read_results py parse now spl value = raised (other_error "AttributeError")

-- what follows `_post_search`
unfoldable pub read_posted : Python → (String → Option ℕ) → ℕ → String → Posted → Outcome
read_posted py parse now spl (failed error) = raised error
read_posted py parse now spl (answered value) = read_results py parse now spl value

-- `search`, on what the request does
unfoldable pub search :
    Python → (String → Option ℕ) → ℕ → (Payload → Response) → String → String → String → Outcome
search py parse now post spl earliest latest =
    if is_blank py spl
    then raised (query_error "Empty SPL query")
    else read_posted py parse now spl (
        post_search (
          post (record {
            search = with_command py spl;
            earliest_time = earliest;
            latest_time = latest;
            output_mode = "json";
          })))

-- `health`, on what the request does
unfoldable pub health : Response → Bool
health (response code text body) = eqb code 200
health (connect_error text) = Bool.false
health (transport_error text) = Bool.false
