-- ===== src/Domain.antt =====
-- backend/app/models/domain.py: the objects that the pipeline, the repositories and the API share.
-- A float is a finite double, counted in units of 2^-1074, or one of the three values that are not
-- finite, so that comparisons are exact; arithmetic, which rounds, is a parameter where it is used.
-- A datetime is its number of microseconds since the epoch, in UTC.
use sentinelai_splunk.Prelude.{ℕ, String, Bool, Option, none, some, List, ◌==◌, if◌then◌else◌}
use sentinelai_splunk.Prelude.Int.{ℤ}

pub data Severity : Type 0 where
  info low medium high critical : Severity

unfoldable pub severity_value : Severity → String
severity_value info = "info"
severity_value low = "low"
severity_value medium = "medium"
severity_value high = "high"
severity_value critical = "critical"

-- `Severity(text)`; `none` is the `ValueError`
unfoldable pub parse_severity : String → Option Severity
parse_severity text =
    if text == "info"
    then some info
    else if text == "low"
    then some low
    else if text == "medium"
    then some medium
    else if text == "high"
    then some high
    else if text == "critical"
    then some critical
    else none

pub data DetectionStatus : Type 0 where
  new triaged investigating contained resolved false_positive : DetectionStatus

unfoldable pub status_value : DetectionStatus → String
status_value new = "new"
status_value triaged = "triaged"
status_value investigating = "investigating"
status_value contained = "contained"
status_value resolved = "resolved"
status_value false_positive = "false_positive"

-- `DetectionStatus(text)`; `none` is the `ValueError`
unfoldable pub parse_status : String → Option DetectionStatus
parse_status text =
    if text == "new"
    then some new
    else if text == "triaged"
    then some triaged
    else if text == "investigating"
    then some investigating
    else if text == "contained"
    then some contained
    else if text == "resolved"
    then some resolved
    else if text == "false_positive"
    then some false_positive
    else none

pub data Float : Type 0 where
  nan minus_inf plus_inf : Float
  finite : ℤ → Float

pub record SplunkEvent : Type 0 where
  pub raw : String
  pub source : String
  pub sourcetype : String
  pub host : String
  pub timestamp : ℕ
  pub fields : List (String × String)

pub record SearchResult : Type 0 where
  pub sid : String
  pub query : String
  pub event_count : ℕ
  pub events : List SplunkEvent

-- the entries that the orchestrator writes into `Detection.enrichment`
pub record EnrichmentInfo : Type 0 where
  pub threat_intel : List (String × String)
  pub asset_criticality : String
  pub identity_context : List (String × String)
  pub indicators : List String
  pub risk_boost : Float

-- `enrichment` is `none` while the dict is empty
pub record Detection : Type 0 where
  pub id : String
  pub title : String
  pub description : String
  pub severity : Severity
  pub status : DetectionStatus
  pub spl_query : String
  pub entity : String
  pub event_count : ℕ
  pub created_at : ℕ
  pub mitre_tactics : List String
  pub src_ips : List String
  pub users : List String
  pub enrichment : Option EnrichmentInfo

pub record TriageVerdict : Type 0 where
  pub detection_id : String
  pub is_true_positive : Bool
  pub confidence : Float
  pub rationale : String
  pub recommended_severity : Severity
  pub suggested_actions : List String

pub record IncidentAction : Type 0 where
  pub action_type : String
  pub target : String
  pub rationale : String
  pub requires_approval : Bool
  pub executed : Bool
  pub execution_status : Option String
  pub execution_detail : Option String
  pub rollback_token : Option String

pub record Investigation : Type 0 where
  pub id : String
  pub detection : Detection
  pub verdict : Option TriageVerdict
  pub timeline : List String
  pub actions : List IncidentAction
  pub summary : String
  pub assignee : Option String
  pub created_at : ℕ

pub record Incident : Type 0 where
  pub id : String
  pub title : String
  pub entity : String
  pub severity : Severity
  pub risk_score : ℤ
  pub investigation_ids : List String
  pub indicators : List String
  pub mitre_tactics : List String
  pub created_at : ℕ
