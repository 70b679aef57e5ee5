-- ===== src/Splunk/Mcp.antt =====
-- `McpSplunkClient` of backend/app/splunk/mcp_client.py. The client's state is the id of its last request.
use mathlib.Core.Option
use sentinelai_splunk.Prelude.{
  ℕ, suc, String, Bool, Option, none, some, List, [], ◌∷◌, ◌==◌, length, eqb, if◌then◌else◌,
}
use sentinelai_splunk.Prelude.Int.{pos}
use sentinelai_splunk.Domain.{SplunkEvent}
use sentinelai_splunk.Agents.Answer.{
  Python, Value, Values, Entries, get, truthy, text_of, as_dict, as_list,
}
use sentinelai_splunk.Splunk.{
  Outcome, found, raised, SplunkError, auth_error, query_error, connection_error, other_error,
  Response, response, connect_error, transport_error, is_success, is_blank, with_command, fields_of,
  parse_time,
}

-- a JSON-RPC request with its id
unfoldable pub request_of : ℕ → String → Value → Value
request_of id method params = Value.dict (
    Entries.entry "jsonrpc" (Value.str "2.0") (
      Entries.entry "id" (Value.int (pos id))
        (Entries.entry "method" (Value.str method) (Entries.entry "params" params Entries.end))))

-- What `_call_tool` does: the result of the tool, or the exception.
pub data Called : Type 0 where
  answered : Value → Called
  failed : SplunkError → Called

-- `str(error.get("message", error))`
message_of : Python → Value → Called
message_of py (Value.dict es) = elim (get "message" es) [
  | none ↦ failed (query_error (text_of py (Value.dict es)))
  | some message ↦ failed (query_error (text_of py message))
]
message_of py value = failed (other_error "AttributeError")

-- `data.get("result", {})`
result_in : Entries → Called
result_in es = elim (get "result" es) [
  | none ↦ answered (Value.dict Entries.end)
  | some result ↦ answered result
]

-- the JSON-RPC answer: an error of the server, or the result
read_rpc : Python → Value → Called
unfolding message_of result_in
read_rpc py (Value.dict es) = elim (get "error" es) [
  | none ↦ result_in es
  | some error ↦ if truthy error then message_of py error else result_in es
]
read_rpc py value = failed (other_error "AttributeError or TypeError")

read_body : Python → ℕ → Option Value → Called
unfolding read_rpc
read_body py code body =
    if is_success code
    then elim body [
      | none ↦ failed (other_error "JSONDecodeError")
      | some value ↦ read_rpc py value
    ]
    else failed (other_error "HTTPStatusError")

-- `_call_tool`, on what the request does
unfoldable pub call_tool : Python → Response → Called
unfolding read_body
call_tool py (connect_error text) = failed (connection_error text)
call_tool py (transport_error text) = failed (other_error text)
call_tool py (response code text body) =
    if eqb code 401
    then failed (auth_error "Splunk MCP Server rejected the token")
    else if eqb code 400
    then failed (query_error text)
    else read_body py code body

-- `[r for r in rows if isinstance(r, dict)]`
unfoldable pub dicts_of : Values → List Entries
dicts_of Values.nil = []
dicts_of (Values.cons row rows) = elim (as_dict row) [
  | none ↦ dicts_of rows
  | some es ↦ es ∷ dicts_of rows
]

-- the list under `results` of a value that is a dict
unfoldable pub results_of : Value → Option Values
results_of value = elim (as_dict value) [
  | none ↦ none
  | some es ↦ elim (get "results" es) [ none ↦ none | some rows ↦ as_list rows ]
]

-- the rows in a parsed text block: a list, or a dict with one under `results`
rows_in_text : Option Value → Option Values
rows_in_text none = none
rows_in_text (some (Value.list rows)) = some rows
rows_in_text (some value) = results_of value

-- `json.loads(block.get("text", ""))` of a block whose type is `text`
loads_text : Python → Option Value → Option Value
loads_text py none = py.loads ""
loads_text py (some (Value.str text)) = py.loads text
loads_text py (some value) = none

rows_in_block : Python → Value → Option Values
unfolding rows_in_text loads_text
rows_in_block py (Value.dict es) = elim (get "type" es) [
  | none ↦ none
  | some (Value.str kind) ↦
      if kind == "text" then rows_in_text (loads_text py (get "text" es)) else none
  | some _ ↦ none
]
rows_in_block py value = none

-- the loop over the blocks: the rows of the first that has some
unfoldable pub rows_in_blocks : Python → Values → List Entries
unfolding rows_in_block
rows_in_blocks py Values.nil = []
rows_in_blocks py (Values.cons block blocks) = elim (rows_in_block py block) [
  | none ↦ rows_in_blocks py blocks
  | some rows ↦ dicts_of rows
]

-- `result.get("content", [])`, whose items are blocks where they are dicts; `none` is the `TypeError`
blocks_of : Option Value → Option Values
blocks_of none = some Values.nil
blocks_of (some (Value.list vs)) = some vs
blocks_of (some (Value.str text)) = some Values.nil
blocks_of (some (Value.dict es)) = some Values.nil
blocks_of (some value) = none

unfoldable pub structured_rows : Entries → Option Values
structured_rows es = elim (get "structuredContent" es) [
  | none ↦ none
  | some structured ↦ results_of structured
]

-- `_extract_rows`, of a dict
unfoldable pub extract_rows : Python → Entries → Option (List Entries)
unfolding blocks_of structured_rows
extract_rows py result = elim (structured_rows result) [
  | some rows ↦ some (dicts_of rows)
  | none ↦ Option.map (rows_in_blocks py) (blocks_of (get "content" result))
]

-- `str(row.get(key, ""))`
unfoldable pub text_at : Python → String → Entries → String
text_at py key row = elim (get key row) [ none ↦ "" | some value ↦ text_of py value ]

-- an event
unfoldable pub event_of : Python → (String → Option ℕ) → ℕ → Entries → SplunkEvent
event_of py parse now row = record {
  raw = text_at py "_raw" row;
  source = text_at py "source" row;
  sourcetype = text_at py "sourcetype" row;
  host = text_at py "host" row;
  timestamp = parse_time parse now (get "_time" row);
  fields = fields_of py row;
}

-- the comprehension over the rows
unfoldable pub events_of : Python → (String → Option ℕ) → ℕ → List Entries → List SplunkEvent
events_of py parse now [] = []
events_of py parse now (row ∷ rows) = event_of py parse now row ∷ events_of py parse now rows

unfoldable pub sid_in : Python → Entries → String
sid_in py result = elim (get "sid" result) [ none ↦ "mcp" | some sid ↦ text_of py sid ]

unfoldable pub result_with :
    Python → (String → Option ℕ) → ℕ → String → Entries → Option (List Entries) → Outcome
unfolding sid_in
result_with py parse now spl result none = raised (other_error "TypeError")
result_with py parse now spl result (some rows) =
    let events = events_of py parse now rows in
    found
      (record { sid = sid_in py result; query = spl; event_count = length events; events = events })

-- the search result in the result of the tool
unfoldable pub read_result : Python → (String → Option ℕ) → ℕ → String → Value → Outcome
read_result py parse now spl (Value.dict es) = result_with py parse now spl es (extract_rows py es)
read_result py parse now spl value = raised (other_error "AttributeError")

-- the arguments of the search tool
unfoldable pub arguments_of : Python → String → String → String → Value
arguments_of py spl earliest latest = Value.dict (
    Entries.entry "query" (Value.str (with_command py spl)) (
      Entries.entry "earliest_time" (Value.str earliest)
        (Entries.entry "latest_time" (Value.str latest) Entries.end)))

-- `{"name": name, "arguments": arguments}`
tool_params : String → Value → Value
tool_params name arguments =
    Value.dict
      (Entries.entry "name" (Value.str name) (Entries.entry "arguments" arguments Entries.end))

-- what follows `_call_tool`
unfoldable pub read_called : Python → (String → Option ℕ) → ℕ → String → Called → Outcome
read_called py parse now spl (failed error) = raised error
read_called py parse now spl (answered value) = read_result py parse now spl value

-- `search`, on what the request does, and the id of the last request after it
unfoldable pub search :
    Python
    → (String → Option ℕ)
    → ℕ
    → (Value → Response)
    → String
    → ℕ
    → String
    → String
    → String
    → Outcome × ℕ
unfolding tool_params
search py parse now post tool id spl earliest latest =
    if is_blank py spl then (raised (query_error "Empty SPL query"), id) else (
      read_called py parse now spl (
          call_tool py (
            post (
              request_of (suc id) "tools/call"
                (tool_params tool (arguments_of py spl earliest latest))))),
      suc id,
    )

-- `health`, on what the request for the list of tools does, and the id after it
unfoldable pub health : (Value → Response) → ℕ → Bool × ℕ
health post id = elim (post (request_of (suc id) "tools/list" (Value.dict Entries.end))) [
  | response code text body ↦ (eqb code 200, suc id)
  | connect_error text ↦ (Bool.false, suc id)
  | transport_error text ↦ (Bool.false, suc id)
]
