-- ===== src/Api/Cases.antt =====
-- The handlers of backend/app/api/routes.py on investigations, notes and incidents. A case's status
-- and actions change in the repositories; here are the gates, the metering, the audit and the alert.
use sentinelai_splunk.Prelude.{
  ℕ, String, Option, none, some, List, [], ◌∷◌, ◌==◌, concat, if◌then◌else◌,
}
use sentinelai_splunk.Prelude.Int.{ℤ}
use sentinelai_splunk.Prelude.Json.{Json, null, int, str, obj, field, end}
use sentinelai_splunk.Env.{Env}
use sentinelai_splunk.Domain.{Incident, IncidentAction, Investigation}
use sentinelai_splunk.Db.{CaseNoteRow}
use sentinelai_splunk.Rbac.{Permission}
use sentinelai_splunk.Notifications.{Channel, alert_action_executed}
use sentinelai_splunk.Executor.{Connector}
use sentinelai_splunk.Workflow.Sla.{Sla}
use sentinelai_splunk.Session.{
  Exec, Failure, uncaught, pure, raise, or_raise, http_text, put_sent, ◌>>=◌, ◌>>◌,
}
use sentinelai_splunk.Audit.{audit}
use sentinelai_splunk.Metering.{meter, kind_action}
use sentinelai_splunk.Repositories.Cases.{
  not_approved, invalid_status, illegal_transition, Attempt, rejected, done, action_at,
}
use sentinelai_splunk.Repositories.Investigations
use sentinelai_splunk.Repositories.Incidents
use sentinelai_splunk.Api.Auth.{require}

abbrev missing : Failure
missing = http_text 404 "Investigation not found"

abbrev missing_action : Failure
missing_action = http_text 404 "Investigation or action not found"

-- GET /investigations
unfoldable pub list_investigations :
    Env
    → String
    → Option String
    → Option String
    → Option String
    → ℕ
    → ℕ
    → Exec (List Investigation × ℕ)
list_investigations env authorization status severity assignee limit offset = do
  principal ← require env authorization Permission.investigation_read
  Investigations.list principal.tenant_id status severity assignee limit offset

-- GET /investigations/{investigation_id}
unfoldable pub get_investigation : Env → String → String → Exec Investigation
get_investigation env authorization inv_id = do
  principal ← require env authorization Permission.investigation_read
  inv ← Investigations.get principal.tenant_id inv_id
  or_raise inv missing

-- POST /investigations/{investigation_id}/approve
unfoldable pub approve_action : Env → String → String → ℤ → Exec Investigation
approve_action env authorization inv_id action_index = do
  principal ← require env authorization Permission.action_approve
  changed ← Investigations.approve_action principal.tenant_id inv_id action_index
  inv ← or_raise changed missing_action
  audit env principal.tenant_id principal.username "action.approved" "investigation" inv_id
      (some (obj (field "action_index" (int action_index) end)))
  pure inv

-- the errors of `execute_action` as the handler maps them
unfoldable pub executed_or_raise : Attempt Investigation → Exec Investigation
executed_or_raise (done inv) = pure inv
executed_or_raise (rejected not_approved) =
    raise (http_text 409 "Action must be approved before execution")
executed_or_raise (rejected _) = raise missing_action

text_or_null : Option String → Json
text_or_null none = null
text_or_null (some text) = str text

-- `executed.execution_status or "unknown"`
status_or_unknown : Option String → String
status_or_unknown none = "unknown"
status_or_unknown (some text) = if text == "" then "unknown" else text

-- `inv.actions[body.action_index]`
action_of : Investigation → ℤ → Option IncidentAction
action_of inv action_index = elim (action_at inv.actions action_index) [
  | none ↦ none
  | some (i, action) ↦ some action
]

-- POST /investigations/{investigation_id}/execute
unfoldable pub execute_action :
    Env → List Connector → List Channel → String → String → ℤ → Exec Investigation
unfolding text_or_null status_or_unknown action_of
execute_action env connectors channels authorization inv_id action_index = do
  principal ← require env authorization Permission.action_approve
  attempt ← Investigations.execute_action env connectors principal.tenant_id inv_id action_index
  inv ← executed_or_raise attempt
  executed ← or_raise (action_of inv action_index) (uncaught "IndexError")
  meter env principal.tenant_id kind_action 1 executed.action_type
  audit env principal.tenant_id principal.username "action.executed" "investigation" inv_id (
      some (
        obj (
          field "action_index" (int action_index) (
            field "action_type" (str executed.action_type)
              (field "status" (text_or_null executed.execution_status) end)))))
  put_sent λ sent.
      (alert_action_executed channels env.now principal.tenant_id executed.action_type
        executed.target (status_or_unknown executed.execution_status) sent).1
  pure inv

-- the errors of `transition_status` as the handler maps them
unfoldable pub moved_or_raise : String → Attempt Investigation → Exec Investigation
moved_or_raise status (done inv) = pure inv
moved_or_raise status (rejected illegal_transition) =
    raise (http_text 409 (concat ("Illegal status transition to '" ∷ status ∷ "'" ∷ [])))
moved_or_raise status (rejected invalid_status) =
    raise (http_text 422 (concat ("Unknown status '" ∷ status ∷ "'" ∷ [])))
moved_or_raise status (rejected _) = raise missing

-- POST /investigations/{investigation_id}/status
unfoldable pub transition_status : Env → String → String → String → Exec Investigation
transition_status env authorization inv_id status = do
  principal ← require env authorization Permission.case_write
  attempt ← Investigations.transition_status env principal.tenant_id inv_id status
  inv ← moved_or_raise status attempt
  audit env principal.tenant_id principal.username "case.status_changed" "investigation" inv_id
      (some (obj (field "status" (str status) end)))
  pure inv

-- GET /investigations/{investigation_id}/sla
unfoldable pub get_sla : Env → String → String → Exec Sla
get_sla env authorization inv_id = do
  principal ← require env authorization Permission.investigation_read
  sla ← Investigations.sla env principal.tenant_id inv_id
  or_raise sla missing

-- POST /investigations/{investigation_id}/assign
unfoldable pub assign_investigation : Env → String → String → Option String → Exec Investigation
unfolding text_or_null
assign_investigation env authorization inv_id assignee = do
  principal ← require env authorization Permission.case_write
  changed ← Investigations.set_assignee principal.tenant_id inv_id assignee
  inv ← or_raise changed missing
  audit env principal.tenant_id principal.username "case.assigned" "investigation" inv_id
      (some (obj (field "assignee" (text_or_null assignee) end)))
  pure inv

-- POST /investigations/{investigation_id}/notes
unfoldable pub add_note : Env → String → String → String → Exec CaseNoteRow
add_note env authorization inv_id body = do
  principal ← require env authorization Permission.case_write
  added ← Investigations.add_note env principal.tenant_id inv_id principal.username body
  note ← or_raise added missing
  audit env principal.tenant_id principal.username "case.note_added" "investigation" inv_id none
  pure note

-- GET /investigations/{investigation_id}/notes
unfoldable pub list_notes : Env → String → String → Exec (List CaseNoteRow)
list_notes env authorization inv_id = do
  principal ← require env authorization Permission.investigation_read
  Investigations.list_notes principal.tenant_id inv_id

-- GET /incidents
unfoldable pub list_incidents : Env → String → Exec (List Incident)
list_incidents env authorization = do
  principal ← require env authorization Permission.investigation_read
  Incidents.list principal.tenant_id

-- GET /incidents/{incident_id}
unfoldable pub get_incident : Env → String → String → Exec Incident
get_incident env authorization incident_id = do
  principal ← require env authorization Permission.investigation_read
  inc ← Incidents.get principal.tenant_id incident_id
  or_raise inc (http_text 404 "Incident not found")
