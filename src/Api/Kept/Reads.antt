-- ===== src/Api/Kept/Reads.antt =====
-- What the reading handlers of backend/app/api/routes.py keep, and the switch of a rule.
use sentinelai_splunk.Prelude.{ℕ, String, Bool, Option, List}
use sentinelai_splunk.Env.{Env}
use sentinelai_splunk.Notifications.{Channel}
use sentinelai_splunk.Session.{Session}
use sentinelai_splunk.Session.Preserves.{Preserves, preserves_rules}
use sentinelai_splunk.Session.Tolerates.{Tolerates}
use sentinelai_splunk.Repositories.Rules as RuleStates
use sentinelai_splunk.Repositories.Investigations
use sentinelai_splunk.Repositories.Incidents
use sentinelai_splunk.Api.World.{World, Searched, found, splunk_error, search_crashed}
use sentinelai_splunk.Api.Cases
use sentinelai_splunk.Api.Rules
use sentinelai_splunk.Api.System
use sentinelai_splunk.Api.Kept.Gate.{require-Preserves}

module _ {env : Env} {P : Session → Type 0} (k : Tolerates env P) where
  found_or_raise-Preserves : (r : Searched) → Preserves P (System.found_or_raise r)
  unfolding System.found_or_raise
  found_or_raise-Preserves (found result) = search preserves_rules
  found_or_raise-Preserves (splunk_error text) = search preserves_rules
  found_or_raise-Preserves search_crashed = search preserves_rules

  pub search_route-Preserves :
      (world : World) (a spl earliest latest : String)
      → Preserves P (System.search_route env world a spl earliest latest)
  unfolding System.search_route
  search_route-Preserves world a spl earliest latest =
      search (preserves_rules, require-Preserves k, found_or_raise-Preserves) depth 20

  pub list_rules-Preserves : (a : String) → Preserves P (Rules.list_rules env a)
  unfolding Rules.list_rules RuleStates.disabled_rule_ids
  list_rules-Preserves a = search (preserves_rules, require-Preserves k) depth 20

  pub mitre_coverage-Preserves : (a : String) → Preserves P (Rules.mitre_coverage env a)
  unfolding Rules.mitre_coverage RuleStates.disabled_rule_ids
  mitre_coverage-Preserves a = search (preserves_rules, require-Preserves k) depth 20

  pub toggle_rule-Preserves :
      (a id : String) (enabled : Bool) → Preserves P (Rules.toggle_rule env a id enabled)
  unfolding Rules.toggle_rule RuleStates.set_enabled
  toggle_rule-Preserves a id enabled =
      search (preserves_rules, require-Preserves k, k.uuids, k.rule_states, k.audits) depth 30

  pub list_investigations-Preserves :
      (a : String) (status severity assignee : Option String) (limit offset : ℕ)
      → Preserves P (Cases.list_investigations env a status severity assignee limit offset)
  unfolding Cases.list_investigations Investigations.list
  list_investigations-Preserves a status severity assignee limit offset =
      search (preserves_rules, require-Preserves k) depth 20

  pub get_investigation-Preserves : (a id : String) → Preserves P (Cases.get_investigation env a id)
  unfolding Cases.get_investigation Investigations.get Investigations.get_row
  get_investigation-Preserves a id = search (preserves_rules, require-Preserves k) depth 20

  pub get_sla-Preserves : (a id : String) → Preserves P (Cases.get_sla env a id)
  unfolding Cases.get_sla Investigations.sla Investigations.get_row
  get_sla-Preserves a id = search (preserves_rules, require-Preserves k) depth 20

  pub list_notes-Preserves : (a id : String) → Preserves P (Cases.list_notes env a id)
  unfolding Cases.list_notes Investigations.list_notes
  list_notes-Preserves a id = search (preserves_rules, require-Preserves k) depth 20

  pub list_incidents-Preserves : (a : String) → Preserves P (Cases.list_incidents env a)
  unfolding Cases.list_incidents Incidents.list
  list_incidents-Preserves a = search (preserves_rules, require-Preserves k) depth 20

  pub get_incident-Preserves : (a id : String) → Preserves P (Cases.get_incident env a id)
  unfolding Cases.get_incident Incidents.get
  get_incident-Preserves a id = search (preserves_rules, require-Preserves k) depth 20

  pub list_notifications-Preserves :
      (channels : List Channel) (a : String)
      → Preserves P (System.list_notifications env channels a)
  unfolding System.list_notifications
  list_notifications-Preserves channels a = search (preserves_rules, require-Preserves k) depth 20

  pub list_audit-Preserves :
      (a : String) (limit offset : ℕ) → Preserves P (System.list_audit env a limit offset)
  unfolding System.list_audit
  list_audit-Preserves a limit offset = search (preserves_rules, require-Preserves k) depth 20
