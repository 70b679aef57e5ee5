-- ===== src/Splunk/Mock.antt =====
-- `MockSplunkClient` of backend/app/splunk/mock_client.py. The check of the query by a regular expression is a
-- parameter, and so is SHA-256, in hexadecimal digits.
use text.Mathlib.Text.{find?}
use sentinelai_splunk.Prelude.{
  ℕ, zero, suc, ◌+◌, ◌-◌, ◌*◌, String, Bool, not, ◌||◌, none, some, List, [], ◌∷◌, concat, decimal,
  length, if◌then◌else◌,
}
use sentinelai_splunk.Domain.{SplunkEvent}
use sentinelai_splunk.Agents.Answer.{Python}
use sentinelai_splunk.Splunk.{Outcome, found, raised, query_error, is_blank}

abbrev minute_us : ℕ
minute_us = 60000000

-- `text in s`
unfoldable pub has_text : String → String → Bool
has_text text s = elim (find? s text) [ none ↦ Bool.false | some i ↦ Bool.true ]

-- `[event(i) for i in range(first, first + n)]`
unfoldable pub each_from : ℕ → ℕ → (ℕ → SplunkEvent) → List SplunkEvent
each_from first zero event = []
each_from first (suc n) event = event first ∷ each_from (first + 1) n event

failed_login : ℕ → ℕ → SplunkEvent
failed_login base i = record {
  raw = concat ("Failed password for user admin from 203.0.113." ∷ decimal i ∷ []);
  source = "/var/log/auth.log";
  sourcetype = "linux_secure";
  host = "web-prod-01";
  timestamp = base - i * minute_us;
  fields =
      ("user", "admin")
      ∷ ("src_ip", concat ("203.0.113." ∷ decimal i ∷ []))
      ∷ ("action", "failure")
      ∷ [];
}

outbound : ℕ → ℕ → SplunkEvent
outbound base i = record {
  raw = concat ("Outbound connection to 198.51.100." ∷ decimal i ∷ ":4444 bytes=540000" ∷ []);
  source = "firewall";
  sourcetype = "cisco:asa";
  host = "db-prod-02";
  timestamp = base - i * 2 * minute_us;
  fields =
      ("dest_ip", concat ("198.51.100." ∷ decimal i ∷ []))
      ∷ ("dest_port", "4444")
      ∷ ("bytes", "540000")
      ∷ [];
}

encoded_command : ℕ → ℕ → SplunkEvent
encoded_command base i = record {
  raw = "powershell.exe -enc SQBFAFgA... (encoded command)";
  source = "WinEventLog:Security";
  sourcetype = "WinEventLog";
  host = "ws-finance-07";
  timestamp = base - i * 3 * minute_us;
  fields = ("process", "powershell.exe") ∷ ("parent", "winword.exe") ∷ [];
}

-- `_generate_events`, of the query in lower case
unfoldable pub generate_events : ℕ → String → List SplunkEvent
unfolding failed_login outbound encoded_command has_text each_from
generate_events base lowered =
    if has_text "failed" lowered || has_text "authentication" lowered
    then each_from 1 12 (failed_login base)
    else if has_text "network" lowered || has_text "firewall" lowered || has_text "bytes" lowered
    then each_from 1 5 (outbound base)
    else if has_text "process" lowered
        || has_text "endpoint" lowered
        || has_text "powershell" lowered
    then each_from 1 3 (encoded_command base)
    else []

-- the client, whose query time is the only other thing a search depends on
pub record MockSplunkClient : Type 0 where
  pub seed : ℕ
  pub healthy : Bool

-- `MockSplunkClient()`
abbrev pub fresh_client : MockSplunkClient
fresh_client = record { seed = 1337; healthy = Bool.true }

-- `text[:n]`
unfoldable pub take_text : ℕ → String → String
take_text zero s = ""
take_text (suc n) String.[] = ""
take_text (suc n) (String.◌∷◌ c s) = String.◌∷◌ c (take_text n s)

-- `_make_sid`
unfoldable pub make_sid : (String → String) → MockSplunkClient → String → String
unfolding take_text
make_sid sha256 client spl =
    concat ("mock-" ∷ take_text 12 (sha256 (concat (decimal client.seed ∷ ":" ∷ spl ∷ []))) ∷ [])

-- `set_healthy`
unfoldable pub set_healthy : Bool → MockSplunkClient → MockSplunkClient
set_healthy value client = record { seed = client.seed; healthy = value }

-- `health`
unfoldable pub health : MockSplunkClient → Bool
health client = client.healthy

-- `search`
unfoldable pub search :
    Python → (String → Bool) → (String → String) → ℕ → MockSplunkClient → String → Outcome
search py valid_spl sha256 now client spl =
    let events = generate_events now (py.lower spl) in
    if is_blank py spl
    then raised (query_error "Empty SPL query")
    else if not (valid_spl spl)
    then raised (query_error (concat ("Malformed SPL: " ∷ py.repr_text spl ∷ [])))
    else found (record {
      sid = make_sid sha256 client spl;
      query = spl;
      event_count = length events;
      events = events;
    })
