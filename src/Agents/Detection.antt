-- ===== src/Agents/Detection.antt =====
-- `DetectionAgent` of backend/app/agents/detection_agent.py. Splunk is a function from the number of
-- searches already sent and the query to what that search does.
pub mod Enabled
pub mod Flaky
pub mod Breaker
use mathlib.Core.Option
use sentinelai_splunk.Prelude.{
  ℕ, ◌+◌, String, Bool, true, false, Option, none, some, List, [], ◌∷◌, ◌++◌, ◌==◌, contains,
  concat, find, length, ltb, map, prefix, if◌then◌else◌,
}
use sentinelai_splunk.Prelude.Sets.{union, sorted}
use sentinelai_splunk.Env.{Env}
use sentinelai_splunk.Domain.{Severity, high, critical, new, SplunkEvent, SearchResult, Detection}
use sentinelai_splunk.Session.{Exec, uncaught, pure, raise, uuid4_hex, ◌>>=◌}
use sentinelai_splunk.Resilience.{
  CircuitBreaker, closed, Call, Outcome, returned, deterministic, failed, short_circuited,
  never_called, with_retry,
}

pub record DetectionRule : Type 0 where
  pub rule_id : String
  pub title : String
  pub description : String
  pub spl : String
  pub base_severity : Severity
  pub mitre_tactics : List String
  pub min_events : ℕ

-- `DEFAULT_RULES`
unfoldable pub default_rules : List DetectionRule
default_rules =
    record {
      rule_id = "R001";
      title = "Brute-force authentication";
      description = "High volume of failed authentication attempts against a host.";
      spl = "search index=auth action=failure failed authentication";
      base_severity = high;
      mitre_tactics = "TA0006" ∷ [];
      min_events = 10;
    }
    ∷ record {
      rule_id = "R002";
      title = "Suspicious outbound network traffic";
      description = "Outbound connections on uncommon ports with large transfer volume.";
      spl = "search index=network firewall bytes > 500000";
      base_severity = high;
      mitre_tactics = "TA0010" ∷ [];
      min_events = 1;
    }
    ∷ record {
      rule_id = "R003";
      title = "Encoded PowerShell execution";
      description = "PowerShell launched with an encoded command from an Office parent process.";
      spl = "search index=endpoint process powershell encoded";
      base_severity = critical;
      mitre_tactics = "TA0002" ∷ "TA0005" ∷ [];
      min_events = 1;
    }
    ∷ record {
      rule_id = "R004";
      title = "Successful login after brute force";
      description = "Successful authentication following a burst of failures (likely compromise).";
      spl = "search index=auth failed authentication action=success";
      base_severity = critical;
      mitre_tactics = "TA0006" ∷ "TA0001" ∷ [];
      min_events = 10;
    }
    ∷ record {
      rule_id = "R005";
      title = "Privilege escalation attempt";
      description = "Unexpected addition of an account to a privileged group.";
      spl = "search index=endpoint process privilege escalation";
      base_severity = high;
      mitre_tactics = "TA0004" ∷ [];
      min_events = 1;
    }
    ∷ []

-- What the n-th search of a run does, on a query.
abbrev pub Search : Type 0
Search = ℕ → String → Call SearchResult

-- `e.fields[key]` for the keys that are there
fields_at : List String → SplunkEvent → List String
fields_at [] e = []
fields_at (key ∷ keys) e = elim (find (λ p. p.0 == key) e.fields) [
  | none ↦ fields_at keys e
  | some p ↦ p.1 ∷ fields_at keys e
]

-- the comprehension over the events and the keys
values_at : List String → List SplunkEvent → List String
unfolding fields_at
values_at keys [] = []
values_at keys (e ∷ events) = fields_at keys e ++ values_at keys events

-- `result.events[0].host if result.events else "unknown"`
entity_of : List SplunkEvent → String
entity_of [] = "unknown"
entity_of (e ∷ events) = e.host

-- the detection of a rule's hits, with the hex digits of its `uuid4`
unfoldable pub detection_of : ℕ → String → DetectionRule → SearchResult → Detection
unfolding values_at entity_of
detection_of now hex rule result = record {
  id = concat ("DET-" ∷ prefix 8 hex ∷ []);
  title = rule.title;
  description = rule.description;
  severity = rule.base_severity;
  status = new;
  spl_query = rule.spl;
  entity = entity_of result.events;
  event_count = result.event_count;
  created_at = now;
  mitre_tactics = rule.mitre_tactics;
  src_ips = sorted (union [] (values_at ("src_ip" ∷ "dest_ip" ∷ []) result.events));
  users = sorted (union [] (values_at ("user" ∷ []) result.events));
  enrichment = none;
}

-- what a rule's hits come to: nothing below the rule's threshold
unfoldable pub detections_of : Env → DetectionRule → SearchResult → Exec (List Detection)
unfolding detection_of
detections_of env rule result =
    if ltb result.event_count rule.min_events
    then pure []
    else (do hex ← uuid4_hex env.uuid_hex; pure (detection_of env.now hex rule result ∷ []))

-- what the caller of `with_retry` sees
unfoldable pub result_of : Outcome SearchResult → Exec SearchResult
result_of (returned result) = pure result
result_of deterministic = raise (uncaught "SplunkQueryError")
result_of failed = raise (uncaught "the exception of the last attempt")
result_of short_circuited = raise (uncaught "CircuitOpenError")
result_of never_called = raise (uncaught "AssertionError")

-- the search of a rule after n searches, in three attempts
unfoldable pub search_rule :
    Env → Search → DetectionRule → CircuitBreaker → ℕ → Outcome SearchResult × CircuitBreaker × ℕ
search_rule env search rule b n = with_retry env.now (λ i. search (n + i) rule.spl) 3 b

-- the loop over the rules, with the agent's breaker, after n searches
unfoldable pub run_rules :
    Env → Search → List String → List DetectionRule → CircuitBreaker → ℕ → Exec (List Detection)
unfolding detections_of result_of search_rule
run_rules env search disabled [] b n = pure []
run_rules env search disabled (rule ∷ rules) b n =
    let (outcome, b', made) = search_rule env search rule b n in
    elim (contains disabled rule.rule_id) [
      | true ↦ run_rules env search disabled rules b n
      | false ↦ do
        result ← result_of outcome
        found ← detections_of env rule result
        rest ← run_rules env search disabled rules b' (n + made)
        pure (found ++ rest)
    ]

-- `CircuitBreaker()`: five failures open it, for 30 seconds
unfoldable pub fresh_breaker : CircuitBreaker
unfolding closed
fresh_breaker = closed 5 30000000

-- `run` of an agent that was just made, as `get_tenant_orchestrator` makes one for each request
unfoldable pub run : Env → Search → List String → List DetectionRule → Exec (List Detection)
unfolding run_rules fresh_breaker
run env search disabled rules = run_rules env search disabled rules fresh_breaker 0
