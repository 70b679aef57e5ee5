-- ===== src/Repositories/Rules.antt =====
-- `RuleStateRepository` of backend/app/db/repositories.py: which detection rules a tenant has
-- switched off. The schema does not keep the pairs of tenant and rule apart.
use sentinelai_splunk.Prelude.{
  String, Bool, not, ◌&&◌, List, [], ◌∷◌, ◌++◌, ◌==◌, filter, map, update_where,
}
use sentinelai_splunk.Env.{Env}
use sentinelai_splunk.Db.{RuleStateRow}
use sentinelai_splunk.Session.{
  if_some, Exec, gets, put_rule_states, scalar_one_or_none, uuid4_hex, ◌>>=◌,
}

-- the set of ids, as the list of them
unfoldable pub disabled_of : String → List RuleStateRow → List String
disabled_of tenant_id rows =
    map (λ r. r.rule_id) (filter (λ r. r.tenant_id == tenant_id && not r.enabled) rows)

unfoldable pub disabled_rule_ids : String → Exec (List String)
disabled_rule_ids tenant_id = gets (λ s. disabled_of tenant_id s.rule_states)

unfoldable pub set_enabled : Env → String → String → Bool → Exec (Unit {0})
set_enabled env tenant_id rule_id enabled = do
  rows ← gets (λ s. filter (λ r. r.tenant_id == tenant_id && r.rule_id == rule_id) s.rule_states)
  found ← scalar_one_or_none rows
  if_some found
      (do
        id ← uuid4_hex env.uuid_hex
        put_rule_states λ rows.
            rows
            ++ record { id = id; tenant_id = tenant_id; rule_id = rule_id; enabled = enabled } ∷ [])
      λ row.
        put_rule_states (update_where (λ r. r.id == row.id) (λ r. record r { enabled = enabled }))
