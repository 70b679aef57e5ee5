-- ===== src/Repositories/Investigations.antt =====
-- `InvestigationRepository`, and `CaseWorkflowMixin` on the same table, of
-- backend/app/db/repositories.py. The id is the primary key of the table over all tenants.
pub mod Isolation
use sentinelai_splunk.Prelude.{
  ℕ, ◌+◌, String, Bool, true, false, not, ◌&&◌, ◌||◌, Option, none, some, List, [], ◌∷◌, ◌++◌, ◌==◌,
  any, filter, find, take, drop, length, leb, map, update_where, sort_by, if◌then◌else◌,
}
use sentinelai_splunk.Prelude.Int.{ℤ, leb_ℤ, ltb_ℤ}
use sentinelai_splunk.Env.{Env}
use sentinelai_splunk.Domain.{Investigation}
use sentinelai_splunk.Db.{InvestigationRow, CaseNoteRow}
use sentinelai_splunk.Executor.{Connector}
use sentinelai_splunk.Risk.{risk_from}
use sentinelai_splunk.Workflow.Sla.{Sla, compute_sla}
use sentinelai_splunk.Session.{
  if_some, Exec, pure, gets, integrity_error, uncaught, or_raise, raise_if, put_investigations,
  put_case_notes, uuid4_hex, ◌>>=◌, ◌>>◌,
}
use sentinelai_splunk.Repositories.Cases.{
  CaseError, not_found, Attempt, rejected, done, new_row, resave_row, assign_row, approve_row,
  execute_row, transition_row,
}

-- `_get_row`
abbrev pub row_of : String → String → List InvestigationRow → Option InvestigationRow
row_of tenant_id inv_id = find (λ r. r.tenant_id == tenant_id && r.id == inv_id)

unfoldable pub get_row : String → String → Exec (Option InvestigationRow)
get_row tenant_id inv_id = gets (λ s. row_of tenant_id inv_id s.investigations)

-- the flush of a changed row, by its primary key
unfoldable pub write_row : InvestigationRow → Exec (Unit {0})
write_row row = put_investigations (update_where (λ r. r.id == row.id) (λ r. row))

-- The flush of a new row fails where the primary key is taken, by whichever tenant.
unfoldable pub insert_row : InvestigationRow → Exec (Unit {0})
insert_row row = do
  taken ← gets (λ s. any (λ r. r.id == row.id) s.investigations)
  raise_if taken integrity_error
  put_investigations (λ rows. rows ++ row ∷ [])

unfoldable pub save : Env → String → Investigation → Exec (Unit {0})
save env tenant_id inv = do
  existing ← get_row tenant_id inv.id
  risk_score ← or_raise (risk_from env inv) (uncaught "int() of a float that is not finite")
  if_some existing (insert_row (new_row env.now tenant_id risk_score inv))
      λ row. write_row (resave_row risk_score inv row)

unfoldable pub payload_of : Option InvestigationRow → Option Investigation
payload_of none = none
payload_of (some row) = some row.payload

unfoldable pub get : String → String → Exec (Option Investigation)
get tenant_id inv_id = do row ← get_row tenant_id inv_id; pure (payload_of row)

-- `if status: base = base.where(column == status)`: the empty text filters nothing
wanted : Option String → Option String → Bool
wanted none value = true
wanted (some w) none = w == ""
wanted (some w) (some value) = w == "" || value == w

-- the `WHERE` clauses of `list`
pub selects : String → Option String → Option String → Option String → InvestigationRow → Bool
unfolding wanted
selects tenant_id status severity assignee r =
    r.tenant_id == tenant_id
    && wanted status (some r.status)
    && wanted severity (some r.severity)
    && wanted assignee r.assignee

-- `ORDER BY risk_score DESC, created_at DESC`
before : InvestigationRow → InvestigationRow → Bool
before a b =
    ltb_ℤ b.risk_score a.risk_score
    || leb_ℤ b.risk_score a.risk_score && leb b.created_at a.created_at

-- a page of the selected investigations, and how many there are
pub page : List InvestigationRow → ℕ → ℕ → List Investigation × ℕ
unfolding before
page rows limit offset =
    (map (λ r. r.payload) (take limit (drop offset (sort_by before rows))), length rows)

unfoldable pub list :
    String → Option String → Option String → Option String → ℕ → ℕ → Exec (List Investigation × ℕ)
unfolding page selects
list tenant_id status severity assignee limit offset =
    gets (λ s.
      page (filter (selects tenant_id status severity assignee) s.investigations) limit offset)

-- the flush of a changed row, and the investigation that is returned
unfoldable pub write_payload : InvestigationRow → Exec Investigation
write_payload row = do write_row row; pure row.payload

unfoldable pub set_assignee : String → String → Option String → Exec (Option Investigation)
set_assignee tenant_id inv_id assignee = do
  found ← get_row tenant_id inv_id
  if_some found (pure none) λ row. do inv ← write_payload (assign_row assignee row); pure (some inv)

unfoldable pub approve_action : String → String → ℤ → Exec (Option Investigation)
approve_action tenant_id inv_id action_index = do
  found ← get_row tenant_id inv_id
  if_some found (pure none) λ row.
      if_some (approve_row action_index row) (pure none)
        λ row'. do inv ← write_payload row'; pure (some inv)

-- what comes of a change that may be rejected
unfoldable pub write_attempt : Attempt InvestigationRow → Exec (Attempt Investigation)
write_attempt (rejected e) = pure (rejected e)
write_attempt (done row) = do inv ← write_payload row; pure (done inv)

unfoldable pub execute_action :
    Env → List Connector → String → String → ℤ → Exec (Attempt Investigation)
execute_action env connectors tenant_id inv_id action_index = do
  found ← get_row tenant_id inv_id
  if_some found (pure (rejected not_found))
      λ row. write_attempt (execute_row connectors env.now action_index row)

unfoldable pub transition_status : Env → String → String → String → Exec (Attempt Investigation)
transition_status env tenant_id inv_id target = do
  found ← get_row tenant_id inv_id
  if_some found (pure (rejected not_found)) λ row. write_attempt (transition_row env.now target row)

sla_of : Env → Option InvestigationRow → Option Sla
sla_of env none = none
sla_of env (some row) = some (compute_sla env row.created_at row.acknowledged_at row.contained_at)

unfoldable pub sla : Env → String → String → Exec (Option Sla)
unfolding sla_of
sla env tenant_id inv_id = do row ← get_row tenant_id inv_id; pure (sla_of env row)

unfoldable pub add_note : Env → String → String → String → String → Exec (Option CaseNoteRow)
add_note env tenant_id inv_id author body = do
  found ← get_row tenant_id inv_id
  if_some found (pure none) λ row. do
    id ← uuid4_hex env.uuid_hex
    let note : CaseNoteRow = record {
      id = id;
      investigation_id = inv_id;
      tenant_id = tenant_id;
      author = author;
      body = body;
      created_at = env.now;
    }
    put_case_notes (λ rows. rows ++ note ∷ [])
    pure (some note)

unfoldable pub list_notes : String → String → Exec (List CaseNoteRow)
list_notes tenant_id inv_id = gets λ s.
    sort_by (λ a b. leb a.created_at b.created_at)
      (filter (λ n. n.tenant_id == tenant_id && n.investigation_id == inv_id) s.case_notes)
