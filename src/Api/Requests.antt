-- ===== src/Api/Requests.antt =====
-- The requests that the application of backend/app/main.py serves, over the state that outlives them:
-- each one runs in a session of its own, at its own time, on what the requests before it committed.
pub mod Trail
use sentinelai_splunk.Prelude.{ℕ, String, Bool, Option, List, [], ◌∷◌}
use sentinelai_splunk.Prelude.Int.{ℤ}
use sentinelai_splunk.Env.{Env}
use sentinelai_splunk.Executor.{Connector}
use sentinelai_splunk.Notifications.{Channel}
use sentinelai_splunk.Session.{Session, Exec, pure, request, ◌>>=◌, ◌>>◌}
use sentinelai_splunk.Api.Auth
use sentinelai_splunk.Api.Auth.{LoginRequest}
use sentinelai_splunk.Api.Admin
use sentinelai_splunk.Api.Provider
use sentinelai_splunk.Api.Provider.{CreateTenantRequest}
use sentinelai_splunk.Api.Tenant
use sentinelai_splunk.Credentials.{UpdateCredentialsRequest}
use sentinelai_splunk.Prelude.Json.{Json}
use sentinelai_splunk.Api.Cases
use sentinelai_splunk.Api.World.{World}
use sentinelai_splunk.Api.Pipeline
use sentinelai_splunk.Api.Rules
use sentinelai_splunk.Api.System

-- A routed request, with the text of its `Authorization` header where the route reads one.
pub data Request : Type 0 where
  login : LoginRequest → Request
  logout : String → Request
  list_users : String → Request
  create_user : String → String → String → String → Request
  update_role : String → String → String → Request
  link_identity : String → String → String → Request
  delete_user : String → String → Request
  list_tenants : String → Request
  create_tenant : String → CreateTenantRequest → Request
  set_tenant_status : String → String → String → Request
  set_tenant_plan : String → String → String → Request
  list_all_users : String → Request
  impersonate : String → String → Request
  provider_usage : String → Request
  get_settings : String → Request
  get_credentials : String → Request
  get_usage : String → Request
  get_quota : String → Request
  update_settings : String → List (String × Json) → Request
  update_credentials : String → UpdateCredentialsRequest → Request
  approve_action : String → String → ℤ → Request
  execute_action : String → String → ℤ → Request
  transition_status : String → String → String → Request
  assign_investigation : String → String → Option String → Request
  add_note : String → String → String → Request
  run_detections : String → Request
  run_investigations : String → Request
  search_route : String → String → String → String → Request
  list_rules : String → Request
  toggle_rule : String → String → Bool → Request
  mitre_coverage : String → Request
  list_investigations : String → Option String → Option String → Option String → ℕ → ℕ → Request
  get_investigation : String → String → Request
  get_sla : String → String → Request
  list_notes : String → String → Request
  list_incidents : String → Request
  get_incident : String → String → Request
  list_notifications : String → Request
  list_audit : String → ℕ → ℕ → Request

-- The route's handler, its answer left out.
unfoldable pub handle : Env → World → List Connector → List Channel → Request → Exec (Unit {0})
handle env world cs ns (login body) = Auth.login env body >> pure tt
handle env world cs ns (logout a) = Auth.logout env a
handle env world cs ns (list_users a) = Admin.list_users env a >> pure tt
handle env world cs ns (create_user a name password role) =
    Admin.create_user env a name password role >> pure tt
handle env world cs ns (update_role a id role) = Admin.update_role env a id role >> pure tt
handle env world cs ns (link_identity a id e) = Admin.link_identity env a id e >> pure tt
handle env world cs ns (delete_user a id) = Admin.delete_user env a id
handle env world cs ns (list_tenants a) = Provider.list_tenants env a >> pure tt
handle env world cs ns (create_tenant a body) = Provider.create_tenant env a body >> pure tt
handle env world cs ns (set_tenant_status a id status) =
    Provider.set_tenant_status env a id status >> pure tt
handle env world cs ns (set_tenant_plan a id plan) =
    Provider.set_tenant_plan env a id plan >> pure tt
handle env world cs ns (list_all_users a) = Provider.list_all_users env a >> pure tt
handle env world cs ns (impersonate a id) = Provider.impersonate env a id >> pure tt
handle env world cs ns (provider_usage a) = Provider.provider_usage env a >> pure tt
handle env world cs ns (get_settings a) = Tenant.get_settings env a >> pure tt
handle env world cs ns (get_credentials a) = Tenant.get_credentials env a >> pure tt
handle env world cs ns (get_usage a) = Tenant.get_usage env a >> pure tt
handle env world cs ns (get_quota a) = Tenant.get_quota env a >> pure tt
handle env world cs ns (update_settings a settings) =
    Tenant.update_settings env a settings >> pure tt
handle env world cs ns (update_credentials a body) = Tenant.update_credentials env a body >> pure tt
handle env world cs ns (approve_action a id i) = Cases.approve_action env a id i >> pure tt
handle env world cs ns (execute_action a id i) = Cases.execute_action env cs ns a id i >> pure tt
handle env world cs ns (transition_status a id status) =
    Cases.transition_status env a id status >> pure tt
handle env world cs ns (assign_investigation a id assignee) =
    Cases.assign_investigation env a id assignee >> pure tt
handle env world cs ns (add_note a id body) = Cases.add_note env a id body >> pure tt
handle env world cs ns (run_detections a) = Pipeline.run_detections env world a >> pure tt
handle env world cs ns (run_investigations a) =
    Pipeline.run_investigations env world ns a >> pure tt
handle env world cs ns (search_route a spl earliest latest) =
    System.search_route env world a spl earliest latest >> pure tt
handle env world cs ns (list_rules a) = Rules.list_rules env a >> pure tt
handle env world cs ns (toggle_rule a id enabled) = Rules.toggle_rule env a id enabled >> pure tt
handle env world cs ns (mitre_coverage a) = Rules.mitre_coverage env a >> pure tt
handle env world cs ns (list_investigations a status severity assignee limit offset) =
    Cases.list_investigations env a status severity assignee limit offset >> pure tt
handle env world cs ns (get_investigation a id) = Cases.get_investigation env a id >> pure tt
handle env world cs ns (get_sla a id) = Cases.get_sla env a id >> pure tt
handle env world cs ns (list_notes a id) = Cases.list_notes env a id >> pure tt
handle env world cs ns (list_incidents a) = Cases.list_incidents env a >> pure tt
handle env world cs ns (get_incident a id) = Cases.get_incident env a id >> pure tt
handle env world cs ns (list_notifications a) = System.list_notifications env ns a >> pure tt
handle env world cs ns (list_audit a limit offset) = System.list_audit env a limit offset >> pure tt

-- The requests in the order in which they are served, each with the time on the clock.
unfoldable pub serve :
    Env → World → List Connector → List Channel → List (ℕ × Request) → Session → Session
serve env world cs ns [] s = s
serve env world cs ns ((now, r) ∷ rs) s =
    serve env world cs ns rs (request (handle (record env { now = now }) world cs ns r) s).1
