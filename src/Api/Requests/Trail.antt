-- ===== src/Api/Requests/Trail.antt =====
-- What the served requests do to the audit trail of backend/app/services/audit.py.
use sentinelai_splunk.Prelude.{ℕ, String, ◌≡◌, ◌∙◌, sym, true, Option, List, [], ◌∷◌, ◌++◌}
use mathlib.Core.List.{append-nil, append_assoc}
use sentinelai_splunk.Prelude.Json.{Json}
use sentinelai_splunk.Env.{Env}
use sentinelai_splunk.Db.{AuditLogRow}
use sentinelai_splunk.Executor.{Connector}
use sentinelai_splunk.Notifications.{Channel}
use sentinelai_splunk.Session.{
  Exec, pure, ◌>>◌, Session, Result, ok, err, request, finish, put_tenants, put_users,
  put_investigations, put_case_notes, put_rule_states, put_incidents, put_audit_log,
  put_usage_events, put_tenant_credentials, put_revoked_tokens, put_sent, commit, uuid4_hex,
}
use sentinelai_splunk.Session.Preserves.{Preserves, preserves_rules}
use sentinelai_splunk.Session.Tolerates.{Tolerates}
use sentinelai_splunk.Audit.{audit, append_entry, verify_chain}
use sentinelai_splunk.Audit.Chain.{verify_chain-append_entry_now, append_entry-append}
use sentinelai_splunk.Api.Kept
use sentinelai_splunk.Api.World.{World}
use sentinelai_splunk.Api.Requests.{Request, handle, serve}

-- A property of the audit table, of the session's view and of what is committed.
abbrev OnTrail : (List AuditLogRow → Type 0) → Session → Type 0
OnTrail Q s = Q s.audit_log × Q s.committed.audit_log

-- An entry that is recorded keeps the property.
abbrev Extends : Env → (List AuditLogRow → Type 0) → Type 0
Extends env Q =
    (tenant_id actor action target_type target_id : String) (detail : Option Json)
    (rows : List AuditLogRow)
    → Q rows
    → Q (append_entry env tenant_id actor action target_type target_id detail rows)

-- No other write touches the table.
tolerated : (env : Env) (Q : List AuditLogRow → Type 0) → Extends env Q → Tolerates env (OnTrail Q)
unfolding put_tenants put_users put_investigations put_case_notes put_rule_states put_incidents
    put_audit_log put_usage_events put_tenant_credentials put_revoked_tokens put_sent commit
    uuid4_hex audit
tolerated env Q extends = record {
  tenants = λ f. record { after = λ s h. h };
  users = λ f. record { after = λ s h. h };
  investigations = λ f. record { after = λ s h. h };
  case_notes = λ f. record { after = λ s h. h };
  rule_states = λ f. record { after = λ s h. h };
  incidents = λ f. record { after = λ s h. h };
  usage_events = λ f. record { after = λ s h. h };
  tenant_credentials = λ f. record { after = λ s h. h };
  revoked_tokens = λ f. record { after = λ s h. h };
  sent = λ f. record { after = λ s h. h };
  commits = record { after = λ s h. (h.0, h.0) };
  uuids = λ f. record { after = λ s h. h };
  audits = λ t a c y i d. record { after = λ s h. (extends t a c y i d s.audit_log h.0, h.1) };
}

done-Preserves :
    {P : Session → Type 0} {A : Type 0} (m : Exec A) → Preserves P m → Preserves P (m >> pure tt)
done-Preserves m km = search (preserves_rules, km) depth 20

module _ {env : Env} {P : Session → Type 0} (k : Tolerates env P) (world : World)
    (cs : List Connector) (ns : List Channel) where
  handle-Preserves : (r : Request) → Preserves P (handle env world cs ns r)
  unfolding handle
  handle-Preserves (Request.login body) = done-Preserves _ (Kept.login-Preserves k body)
  handle-Preserves (Request.logout a) = Kept.logout-Preserves k a
  handle-Preserves (Request.list_users a) = done-Preserves _ (Kept.list_users-Preserves k a)
  handle-Preserves (Request.create_user a name password role) =
      done-Preserves _ (Kept.create_user-Preserves k a name password role)
  handle-Preserves (Request.update_role a id role) =
      done-Preserves _ (Kept.update_role-Preserves k a id role)
  handle-Preserves (Request.link_identity a id e) =
      done-Preserves _ (Kept.link_identity-Preserves k a id e)
  handle-Preserves (Request.delete_user a id) = Kept.delete_user-Preserves k a id
  handle-Preserves (Request.list_tenants a) = done-Preserves _ (Kept.list_tenants-Preserves k a)
  handle-Preserves (Request.create_tenant a body) =
      done-Preserves _ (Kept.create_tenant-Preserves k a body)
  handle-Preserves (Request.set_tenant_status a id status) =
      done-Preserves _ (Kept.set_tenant_status-Preserves k a id status)
  handle-Preserves (Request.set_tenant_plan a id plan) =
      done-Preserves _ (Kept.set_tenant_plan-Preserves k a id plan)
  handle-Preserves (Request.list_all_users a) = done-Preserves _ (Kept.list_all_users-Preserves k a)
  handle-Preserves (Request.impersonate a id) = done-Preserves _ (Kept.impersonate-Preserves k a id)
  handle-Preserves (Request.provider_usage a) = done-Preserves _ (Kept.provider_usage-Preserves k a)
  handle-Preserves (Request.get_settings a) = done-Preserves _ (Kept.get_settings-Preserves k a)
  handle-Preserves (Request.get_credentials a) =
      done-Preserves _ (Kept.get_credentials-Preserves k a)
  handle-Preserves (Request.get_usage a) = done-Preserves _ (Kept.get_usage-Preserves k a)
  handle-Preserves (Request.get_quota a) = done-Preserves _ (Kept.get_quota-Preserves k a)
  handle-Preserves (Request.update_settings a settings) =
      done-Preserves _ (Kept.update_settings-Preserves k a settings)
  handle-Preserves (Request.update_credentials a body) =
      done-Preserves _ (Kept.update_credentials-Preserves k a body)
  handle-Preserves (Request.approve_action a id i) =
      done-Preserves _ (Kept.approve_action-Preserves k a id i)
  handle-Preserves (Request.execute_action a id i) =
      done-Preserves _ (Kept.execute_action-Preserves k cs ns a id i)
  handle-Preserves (Request.transition_status a id status) =
      done-Preserves _ (Kept.transition_status-Preserves k a id status)
  handle-Preserves (Request.assign_investigation a id assignee) =
      done-Preserves _ (Kept.assign-Preserves k a id assignee)
  handle-Preserves (Request.add_note a id body) =
      done-Preserves _ (Kept.add_note-Preserves k a id body)
  handle-Preserves (Request.run_detections a) =
      done-Preserves _ (Kept.run_detections-Preserves k world a)
  handle-Preserves (Request.run_investigations a) =
      done-Preserves _ (Kept.run_investigations-Preserves k world ns a)
  handle-Preserves (Request.search_route a spl earliest latest) =
      done-Preserves _ (Kept.search_route-Preserves k world a spl earliest latest)
  handle-Preserves (Request.list_rules a) = done-Preserves _ (Kept.list_rules-Preserves k a)
  handle-Preserves (Request.toggle_rule a id enabled) =
      done-Preserves _ (Kept.toggle_rule-Preserves k a id enabled)
  handle-Preserves (Request.mitre_coverage a) = done-Preserves _ (Kept.mitre_coverage-Preserves k a)
  handle-Preserves (Request.list_investigations a status severity assignee limit offset) =
      done-Preserves _
        (Kept.list_investigations-Preserves k a status severity assignee limit offset)
  handle-Preserves (Request.get_investigation a id) =
      done-Preserves _ (Kept.get_investigation-Preserves k a id)
  handle-Preserves (Request.get_sla a id) = done-Preserves _ (Kept.get_sla-Preserves k a id)
  handle-Preserves (Request.list_notes a id) = done-Preserves _ (Kept.list_notes-Preserves k a id)
  handle-Preserves (Request.list_incidents a) = done-Preserves _ (Kept.list_incidents-Preserves k a)
  handle-Preserves (Request.get_incident a id) =
      done-Preserves _ (Kept.get_incident-Preserves k a id)
  handle-Preserves (Request.list_notifications a) =
      done-Preserves _ (Kept.list_notifications-Preserves k ns a)
  handle-Preserves (Request.list_audit a limit offset) =
      done-Preserves _ (Kept.list_audit-Preserves k a limit offset)

module _ (Q : List AuditLogRow → Type 0) where
  finish-OnTrail :
      {A : Type 0} (r : Result A × Session) → OnTrail Q r.1 → Q (finish r).1.committed.audit_log
  finish-OnTrail (ok a, s) h = h.0
  finish-OnTrail (err e, s) h = h.1

  -- A request that fails leaves what was committed, and one that returns commits its view.
  request-OnTrail :
      {A : Type 0} (m : Exec A) (s : Session)
      → Preserves (OnTrail Q) m
      → Q s.committed.audit_log
      → Q (request m s).1.committed.audit_log
  unfolding request
  request-OnTrail m s km q =
      finish-OnTrail (m (record s { db = s.committed }))
        (km.after (record s { db = s.committed }) (q, q))

  serve-OnTrail :
      (env : Env) (world : World) (cs : List Connector) (ns : List Channel)
      (rs : List (ℕ × Request)) (s : Session)
      → ((now : ℕ) → Extends (record env { now = now }) Q)
      → Q s.committed.audit_log
      → Q (serve env world cs ns rs s).committed.audit_log
  unfolding serve
  serve-OnTrail env world cs ns [] s extends q = q
  serve-OnTrail env world cs ns ((now, r) ∷ rs) s extends q =
      serve-OnTrail env world cs ns rs
        (request (handle (record env { now = now }) world cs ns r) s).1 extends
        (request-OnTrail (handle (record env { now = now }) world cs ns r) s
          (handle-Preserves (tolerated (record env { now = now }) Q (extends now)) world cs ns r) q)

-- Whatever modelled requests are served one after another, at whatever times and with whatever
-- outcomes, a tenant whose committed trail verified before them has a committed trail that verifies
-- after them.
pub verify_chain-serve :
    (env : Env) (world : World) (cs : List Connector) (ns : List Channel) (rs : List (ℕ × Request))
    (s : Session) (t : String)
    → verify_chain env t s.committed.audit_log ≡ true
    → verify_chain env t (serve env world cs ns rs s).committed.audit_log ≡ true
verify_chain-serve env world cs ns rs s t =
    serve-OnTrail (λ rows. verify_chain env t rows ≡ true) env world cs ns rs s
      (λ now tenant actor action y i d rows.
        verify_chain-append_entry_now env t now tenant actor action y i d rows)

abbrev StartsWith : List AuditLogRow → List AuditLogRow → Type 0
StartsWith old rows = (added : List AuditLogRow) × (rows ≡ old ++ added)

StartsWith-append_entry : (env : Env) (old : List AuditLogRow) → Extends env (StartsWith old)
StartsWith-append_entry env old t actor action y i d rows (added, e) =
    let (entry, grown) = append_entry-append env t actor action y i d rows in
    (added ++ entry ∷ [], grown ∙ rw e (append_assoc old added _))

-- The committed trail only grows at its end: serving modelled requests keeps every row that was
-- committed before them, unchanged and in its place.
pub serve-append_only :
    (env : Env) (world : World) (cs : List Connector) (ns : List Channel) (rs : List (ℕ × Request))
    (s : Session)
    → (added : List AuditLogRow) × ((serve env world cs ns rs s).committed.audit_log
        ≡ s.committed.audit_log ++ added)
serve-append_only env world cs ns rs s =
    serve-OnTrail (StartsWith s.committed.audit_log) env world cs ns rs s
      (λ now. StartsWith-append_entry (record env { now = now }) s.committed.audit_log)
      ([], sym (append-nil _))
