-- ===== src/Api/Kept/Cases.antt =====
-- What the case handlers of backend/app/api/routes.py keep.
use sentinelai_splunk.Prelude.{ℕ, String, Option, List}
use sentinelai_splunk.Prelude.Int.{ℤ}
use sentinelai_splunk.Env.{Env}
use sentinelai_splunk.Db.{InvestigationRow}
use sentinelai_splunk.Domain.{Investigation}
use sentinelai_splunk.Executor.{Connector}
use sentinelai_splunk.Notifications.{Channel}
use sentinelai_splunk.Session.{Session}
use sentinelai_splunk.Session.Preserves.{Preserves, preserves_rules}
use sentinelai_splunk.Session.Tolerates.{Tolerates}
use sentinelai_splunk.Metering.{meter}
use sentinelai_splunk.Repositories.Cases.{
  not_approved, invalid_status, illegal_transition, Attempt, rejected, done,
}
use sentinelai_splunk.Repositories.Investigations
use sentinelai_splunk.Api.Cases
use sentinelai_splunk.Api.Kept.Gate.{require-Preserves}

module _ {env : Env} {P : Session → Type 0} (k : Tolerates env P) where
  pub meter-Preserves :
      (t kind : String) (n : ℕ) (detail : String) → Preserves P (meter env t kind n detail)
  unfolding meter
  meter-Preserves t kind n detail = k.usage_events _

  pub write_payload-Preserves :
      (row : InvestigationRow) → Preserves P (Investigations.write_payload row)
  unfolding Investigations.write_payload Investigations.write_row
  write_payload-Preserves row = search (preserves_rules, k.investigations) depth 20

  pub write_attempt-Preserves :
      (r : Attempt InvestigationRow) → Preserves P (Investigations.write_attempt r)
  unfolding Investigations.write_attempt
  write_attempt-Preserves (rejected e) = search preserves_rules
  write_attempt-Preserves (done row) = search (preserves_rules, write_payload-Preserves) depth 20

  pub executed_or_raise-Preserves :
      (r : Attempt Investigation) → Preserves P (Cases.executed_or_raise r)
  unfolding Cases.executed_or_raise
  executed_or_raise-Preserves (done inv) = search preserves_rules
  executed_or_raise-Preserves (rejected not_approved) = search preserves_rules
  executed_or_raise-Preserves (rejected _) = search preserves_rules

  pub moved_or_raise-Preserves :
      (status : String) (r : Attempt Investigation) → Preserves P (Cases.moved_or_raise status r)
  unfolding Cases.moved_or_raise
  moved_or_raise-Preserves status (done inv) = search preserves_rules
  moved_or_raise-Preserves status (rejected illegal_transition) = search preserves_rules
  moved_or_raise-Preserves status (rejected invalid_status) = search preserves_rules
  moved_or_raise-Preserves status (rejected _) = search preserves_rules

  pub approve_action-Preserves :
      (a id : String) (i : ℤ) → Preserves P (Cases.approve_action env a id i)
  unfolding Cases.approve_action Investigations.approve_action Investigations.get_row
  approve_action-Preserves a id i =
      search (preserves_rules, require-Preserves k, write_payload-Preserves, k.audits) depth 30

  pub execute_action-Preserves :
      (connectors : List Connector) (channels : List Channel) (a id : String) (i : ℤ)
      → Preserves P (Cases.execute_action env connectors channels a id i)
  unfolding Cases.execute_action Investigations.execute_action Investigations.get_row
  execute_action-Preserves connectors channels a id i =
      search
        (
          preserves_rules,
          require-Preserves k,
          write_attempt-Preserves,
          executed_or_raise-Preserves,
          meter-Preserves,
          k.audits,
          k.sent,
        )
        depth 30

  pub transition_status-Preserves :
      (a id status : String) → Preserves P (Cases.transition_status env a id status)
  unfolding Cases.transition_status Investigations.transition_status Investigations.get_row
  transition_status-Preserves a id status =
      search
        (
          preserves_rules,
          require-Preserves k,
          write_attempt-Preserves,
          moved_or_raise-Preserves,
          k.audits,
        )
        depth 30

  pub assign-Preserves :
      (a id : String) (assignee : Option String)
      → Preserves P (Cases.assign_investigation env a id assignee)
  unfolding Cases.assign_investigation Investigations.set_assignee Investigations.get_row
  assign-Preserves a id assignee =
      search (preserves_rules, require-Preserves k, write_payload-Preserves, k.audits) depth 30

  pub add_note-Preserves : (a id body : String) → Preserves P (Cases.add_note env a id body)
  unfolding Cases.add_note Investigations.add_note Investigations.get_row
  add_note-Preserves a id body =
      search (preserves_rules, require-Preserves k, k.uuids, k.case_notes, k.audits) depth 30
