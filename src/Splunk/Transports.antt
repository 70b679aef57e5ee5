-- ===== src/Splunk/Transports.antt =====
-- The REST client and the MCP client of backend/app/splunk read the same events in the same answer.
use mathlib.Core.Option
use sentinelai_splunk.Prelude.{ℕ, String, ◌≡◌, refl, ap, sym, ◌∙◌, Option, none, some, List, ◌∷◌}
use sentinelai_splunk.Domain.{SearchResult, SplunkEvent}
use sentinelai_splunk.Agents.Answer.{Python, Value, Values, Entries, get, text_of, as_dict, as_list}
use sentinelai_splunk.Splunk.{Outcome, found, raised}
use sentinelai_splunk.Splunk.Live
use sentinelai_splunk.Splunk.Mcp

-- the same result under the id that the tool gives
abbrev pub renamed : String → SearchResult → SearchResult
renamed sid r = record {
  sid = sid;
  query = r.query;
  event_count = r.event_count;
  events = r.events;
}

module _ (py : Python) (parse : String → Option ℕ) (now : ℕ) where
  text-agrees :
      (o : Option Value) (s : String)
      → elim o as (λ _. Option String) [
        | none ↦ some ""
        | some (Value.str s) ↦ some s
        | some _ ↦ none
      ]
        ≡ some s
      → elim o as (λ _. String) [ none ↦ "" | some value ↦ text_of py value ] ≡ s
  unfolding text_of
  text-agrees none s e = cc e
  text-agrees (some (Value.str t)) s e = cc e
  text-agrees (some Value.null) s e = cc e
  text-agrees (some _) s e = cc e

  text_at-text_at :
      (key : String) (row : Entries) (s : String)
      → Live.text_at key row ≡ some s
      → Mcp.text_at py key row ≡ s
  unfolding Live.text_at Mcp.text_at
  text_at-text_at key row s = text-agrees (get key row) s

  event_with-event_of :
      (row : Entries) (a b c d : Option String) (e : SplunkEvent)
      → Live.text_at "_raw" row ≡ a
      → Live.text_at "source" row ≡ b
      → Live.text_at "sourcetype" row ≡ c
      → Live.text_at "host" row ≡ d
      → Live.event_with py parse now row a b c d ≡ some e
      → Mcp.event_of py parse now row ≡ e
  unfolding Live.event_with Mcp.event_of
  event_with-event_of row (some a) (some b) (some c) (some d) e qa qb qc qd h =
      rw
        (
          text_at-text_at _ _ _ qa,
          text_at-text_at _ _ _ qb,
          text_at-text_at _ _ _ qc,
          text_at-text_at _ _ _ qd,
        )
        (cc h)
  event_with-event_of row none b c d e qa qb qc qd h = cc h
  event_with-event_of row (some a) none c d e qa qb qc qd h = cc h
  event_with-event_of row (some a) (some b) none d e qa qb qc qd h = cc h
  event_with-event_of row (some a) (some b) (some c) none e qa qb qc qd h = cc h

  event_of-event_of :
      (row : Entries) (e : SplunkEvent)
      → Live.event_of py parse now row ≡ some e
      → Mcp.event_of py parse now row ≡ e
  unfolding Live.event_of
  event_of-event_of row e h = event_with-event_of row _ _ _ _ e refl refl refl refl h

  events_of-events_of :
      (rows : Values) (es : List SplunkEvent)
      → Live.events_of py parse now rows ≡ some es
      → Mcp.events_of py parse now (Mcp.dicts_of rows) ≡ es
  unfolding Live.events_of Mcp.events_of Mcp.dicts_of
  events_of-events_of Values.nil es h = cc h
  events_of-events_of (Values.cons row rows) es h =
      step (as_dict row) es h (events_of-events_of rows)
    where
      later :
          (row : Entries) (o : Option SplunkEvent) (os : Option (List SplunkEvent))
          (es : List SplunkEvent)
          → Live.event_of py parse now row ≡ o
          → elim o as (λ _. Option (List SplunkEvent)) [
            | none ↦ none
            | some e ↦ Option.map (λ rest. e ∷ rest) os
          ]
            ≡ some es
          → ((es : List SplunkEvent)
              → os ≡ some es
              → Mcp.events_of py parse now (Mcp.dicts_of rows) ≡ es)
          → Mcp.event_of py parse now row ∷ Mcp.events_of py parse now (Mcp.dicts_of rows) ≡ es
      later row none os es q h ih = cc h
      later row (some e) none es q h ih = cc h
      later row (some e) (some rest) es q h ih = rw (event_of-event_of row e q, ih rest refl) (cc h)

      step :
          (o : Option Entries) (es : List SplunkEvent)
          → elim o as (λ _. Option (List SplunkEvent)) [
            | none ↦ none
            | some row ↦ elim (Live.event_of py parse now row) [
              | none ↦ none
              | some e ↦ Option.map (λ rest. e ∷ rest) (Live.events_of py parse now rows)
            ]
          ]
            ≡ some es
          → ((es : List SplunkEvent)
              → Live.events_of py parse now rows ≡ some es
              → Mcp.events_of py parse now (Mcp.dicts_of rows) ≡ es)
          → Mcp.events_of py parse now (elim o as (λ _. List Entries) [
            | none ↦ Mcp.dicts_of rows
            | some es ↦ es ∷ Mcp.dicts_of rows
          ])
            ≡ es
      step none es h ih = cc h
      step (some row) es h ih = later row _ _ es refl h ih

rename : String → Outcome → Outcome
rename sid (found r) = found (renamed sid r)
rename sid (raised error) = raised error

module _ (py : Python) (parse : String → Option ℕ) (now : ℕ) (spl : String) (rows : Values) where
  read_results-result_with :
      (answer : Entries)
      → get "results" answer ≡ some (Value.list rows)
      → Live.read_results py parse now spl (Value.dict answer)
        ≡ Live.result_with spl (Live.sid_in answer) (Live.events_of py parse now rows)
  unfolding Live.read_results Live.rows_in Live.rows_of
  read_results-result_with answer qs = rw (qs, Live.read_results, Live.rows_in) refl

  read_result-result_with :
      (answer result : Entries)
      → get "results" answer ≡ some (Value.list rows)
      → get "structuredContent" result ≡ some (Value.dict answer)
      → Mcp.read_result py parse now spl (Value.dict result)
        ≡ Mcp.result_with py parse now spl result (some (Mcp.dicts_of rows))
  unfolding Mcp.read_result Mcp.extract_rows Mcp.structured_rows Mcp.results_of as_dict as_list
  read_result-result_with answer result qs qc =
      rw (qc, qs, Mcp.read_result, Mcp.extract_rows, Mcp.structured_rows, Mcp.results_of) refl

  result_with-result_with :
      (result : Entries) (r : SearchResult) (sid : Option String) (os : Option (List SplunkEvent))
      → Live.events_of py parse now rows ≡ os
      → Live.result_with spl sid os ≡ found r
      → Mcp.result_with py parse now spl result (some (Mcp.dicts_of rows))
        ≡ found (renamed (Mcp.sid_in py result) r)
  unfolding Live.result_with Mcp.result_with rename
  result_with-result_with result r (some sid) (some es) q e =
      rw (events_of-events_of py parse now rows es q) (ap (rename (Mcp.sid_in py result)) e)
  result_with-result_with result r (some sid) none q e = cc e
  result_with-result_with result r none os q e = cc e

-- An MCP server that attaches the REST server's answer as `structuredContent`: where the REST client finds a
-- result in that answer, whose `results` are a list, the MCP client finds the same events, in the same
-- order and number, for the same query, and only the id of the search is the tool's.
pub read_results-read_result :
    (py : Python) (parse : String → Option ℕ) (now : ℕ) (spl : String) (answer result : Entries)
    (rows : Values) (r : SearchResult)
    → get "results" answer ≡ some (Value.list rows)
    → get "structuredContent" result ≡ some (Value.dict answer)
    → Live.read_results py parse now spl (Value.dict answer) ≡ found r
    → Mcp.read_result py parse now spl (Value.dict result)
      ≡ found (renamed (Mcp.sid_in py result) r)
read_results-read_result py parse now spl answer result rows r qs qc h =
    read_result-result_with py parse now spl rows answer result qs qc
    ∙ result_with-result_with py parse now spl rows result r _ _ refl
        (sym (read_results-result_with py parse now spl rows answer qs) ∙ h)
