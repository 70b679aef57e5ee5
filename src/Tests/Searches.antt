-- ===== src/Tests/Searches.antt =====
-- What the clients of backend/app/splunk find in a concrete answer.

use sentinelai_splunk.Prelude.{ℕ, String, true, ◌≡◌, refl, Option, none, some, [], ◌∷◌, concat}
use sentinelai_splunk.Domain.{SearchResult, SplunkEvent}
use sentinelai_splunk.Agents.Answer.{Value, Values, Entries, get, as_dict}
use sentinelai_splunk.Splunk.{found, Response, response, is_blank, replace_z, parse_time, fields_of}
use sentinelai_splunk.Splunk.Live
use sentinelai_splunk.Splunk.Mcp
use sentinelai_splunk.Splunk.Mock
use sentinelai_splunk.Splunk.Counted.{Answers, search-Answers}
use sentinelai_splunk.Splunk.Transports.{renamed, read_results-read_result}
use sentinelai_splunk.Tests.Demo.{demo_python}

abbrev row : String → Entries
row host =
    Entries.entry "_raw" (Value.str "login failed")
      (Entries.entry "host" (Value.str host) (Entries.entry "user" (Value.str "admin") Entries.end))

abbrev rows : Values
rows = Values.cons (Value.dict (row "web-1")) (Values.cons (Value.dict (row "web-2")) Values.nil)

abbrev answer : Entries
answer = Entries.entry "results" (Value.list rows) Entries.end

abbrev result : Entries
result = Entries.entry "structuredContent" (Value.dict answer) Entries.end

abbrev event : String → SplunkEvent
event host = record {
  raw = "login failed";
  source = "";
  sourcetype = "";
  host = host;
  timestamp = 7;
  fields = ("host", host) ∷ ("user", "admin") ∷ [];
}

abbrev two_events : SearchResult
two_events = record {
  sid = "live";
  query = "index=main";
  event_count = 2;
  events = event "web-1" ∷ event "web-2" ∷ [];
}

abbrev no_time : String → Option ℕ
no_time text = none

live_two :
    Live.read_results demo_python no_time 7 "index=main" (Value.dict answer) ≡ found two_events
unfolding Live.read_results get Live.events_of as_dict Live.event_of Live.event_with Live.text_at
    parse_time fields_of
live_two = refl

replaced : replace_z "10:00Z" ≡ "10:00+00:00"
unfolding replace_z concat
replaced = refl

read_results-read_result_example :
    Mcp.read_result demo_python no_time 7 "index=main" (Value.dict result)
    ≡ found (renamed (Mcp.sid_in demo_python result) two_events)
unfolding get
read_results-read_result_example =
    read_results-read_result demo_python no_time 7 "index=main" answer result rows two_events refl
      refl live_two

abbrev answering : Live.Payload → Response
answering payload = response 200 "" (some (Value.dict answer))

abbrev calling : Value → Response
calling request = response 400 "bad query" none

search-Answers_example :
    Answers demo_python "index=main"
      (Live.search demo_python no_time 7 answering "index=main" "-24h" "now")
    × Answers demo_python "index=main"
        (Mcp.search demo_python no_time 7 calling "splunk_run_query" 4 "index=main" "-24h" "now").0
    × Answers demo_python "index=main"
        (Mock.search demo_python (λ spl. true) (λ text. text) 7 Mock.fresh_client "index=main")
    × (is_blank demo_python "index=main" ≡ true
        → (Mcp.search demo_python no_time 7 calling "splunk_run_query" 4 "index=main" "-24h"
            "now").1
          ≡ 4)
search-Answers_example =
    search-Answers demo_python no_time 7 "index=main" "-24h" "now" "splunk_run_query" 4 answering
      calling (λ spl. true) (λ text. text) Mock.fresh_client
