-- ===== src/Repositories/Incidents.antt =====
-- `IncidentRepository` of backend/app/db/repositories.py.
use sentinelai_splunk.Prelude.{
  String, Bool, not, ◌&&◌, ◌||◌, Option, none, some, List, [], ◌∷◌, ◌++◌, ◌==◌, any, filter, find,
  leb, map, sort_by,
}
use sentinelai_splunk.Prelude.Int.{leb_ℤ, ltb_ℤ}
use sentinelai_splunk.Env.{Env}
use sentinelai_splunk.Domain.{Incident, severity_value}
use sentinelai_splunk.Db.{IncidentRow}
use sentinelai_splunk.Session.{Exec, gets, integrity_error, raise_if, put_incidents, ◌>>=◌, ◌>>◌}

incident_row : Env → String → Incident → IncidentRow
incident_row env tenant_id inc = record {
  id = inc.id;
  tenant_id = tenant_id;
  title = inc.title;
  entity = inc.entity;
  severity = severity_value inc.severity;
  risk_score = inc.risk_score;
  payload = inc;
  created_at = env.now;
}

-- the table after the deletions and the insertions
pub replaced : Env → String → List Incident → List IncidentRow → List IncidentRow
unfolding incident_row
replaced env tenant_id incidents rows =
    filter (λ r. not (r.tenant_id == tenant_id)) rows ++ map (incident_row env tenant_id) incidents

-- some id of the new incidents is taken, in what is left of the table or among the incidents before it
unfoldable pub clashes : List IncidentRow → List Incident → Bool
clashes rows [] = Bool.false
clashes rows (inc ∷ rest) =
    any (λ r. r.id == inc.id) rows || any (λ i. i.id == inc.id) rest || clashes rows rest

unfoldable pub replace_all : Env → String → List Incident → Exec (Unit {0})
replace_all env tenant_id incidents = do
  taken ← gets (λ s. clashes (filter (λ r. not (r.tenant_id == tenant_id)) s.incidents) incidents)
  raise_if taken integrity_error
  put_incidents (replaced env tenant_id incidents)

-- `ORDER BY risk_score DESC, created_at DESC`
before : IncidentRow → IncidentRow → Bool
before a b =
    ltb_ℤ b.risk_score a.risk_score
    || leb_ℤ b.risk_score a.risk_score && leb b.created_at a.created_at

unfoldable pub list : String → Exec (List Incident)
unfolding before
list tenant_id =
    gets λ s.
      map (λ r. r.payload) (sort_by before (filter (λ r. r.tenant_id == tenant_id) s.incidents))

payload_of : Option IncidentRow → Option Incident
payload_of none = none
payload_of (some row) = some row.payload

unfoldable pub get : String → String → Exec (Option Incident)
unfolding payload_of
get tenant_id incident_id =
    gets λ s. payload_of (find (λ r. r.tenant_id == tenant_id && r.id == incident_id) s.incidents)
