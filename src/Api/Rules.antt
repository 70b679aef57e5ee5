-- ===== src/Api/Rules.antt =====
-- The routes of detection rules in backend/app/api/routes.py.
pub mod Coverage
use sentinelai_splunk.Prelude.{
  ℕ, suc, ◌+◌, String, Bool, not, Option, some, List, [], ◌∷◌, ◌==◌, contains, find, length, map,
  if◌then◌else◌,
}
use sentinelai_splunk.Prelude.Json.{bool, obj, field, end}
use sentinelai_splunk.Env.{Env}
use sentinelai_splunk.Domain.{severity_value}
use sentinelai_splunk.Rbac.{Permission}
use sentinelai_splunk.Session.{Exec, pure, or_raise, http_text, ◌>>=◌, ◌>>◌}
use sentinelai_splunk.Audit.{audit}
use sentinelai_splunk.Repositories.Rules
use sentinelai_splunk.Agents.Detection.{DetectionRule, default_rules}
use sentinelai_splunk.Api.Auth.{require}

pub record RuleResponse : Type 0 where
  pub rule_id : String
  pub title : String
  pub description : String
  pub base_severity : String
  pub mitre_tactics : List String
  pub enabled : Bool

unfoldable pub rule_response : DetectionRule → Bool → RuleResponse
rule_response r enabled = record {
  rule_id = r.rule_id;
  title = r.title;
  description = r.description;
  base_severity = severity_value r.base_severity;
  mitre_tactics = r.mitre_tactics;
  enabled = enabled;
}

-- GET /rules
unfoldable pub list_rules : Env → String → Exec (List RuleResponse)
list_rules env authorization = do
  principal ← require env authorization Permission.investigation_read
  disabled ← Rules.disabled_rule_ids principal.tenant_id
  pure (map (λ r. rule_response r (not (contains disabled r.rule_id))) default_rules)

-- PUT /rules/{rule_id}
unfoldable pub toggle_rule : Env → String → String → Bool → Exec RuleResponse
toggle_rule env authorization rule_id enabled = do
  principal ← require env authorization Permission.admin
  rule ← or_raise (find (λ r. r.rule_id == rule_id) default_rules) (http_text 404 "Rule not found")
  Rules.set_enabled env principal.tenant_id rule_id enabled
  audit env principal.tenant_id principal.username "rule.toggled" "rule" rule_id
      (some (obj (field "enabled" (bool enabled) end)))
  pure (rule_response rule enabled)

-- `coverage[tactic] = coverage.get(tactic, 0) + 1`
unfoldable pub bump : String → List (String × ℕ) → List (String × ℕ)
bump tactic [] = (tactic, 1) ∷ []
bump tactic ((t, n) ∷ rest) = if t == tactic then (t, n + 1) ∷ rest else (t, n) ∷ bump tactic rest

-- the inner loop, over a rule's tactics
unfoldable pub bump_all : List String → List (String × ℕ) → List (String × ℕ)
bump_all [] coverage = coverage
bump_all (t ∷ ts) coverage = bump_all ts (bump t coverage)

-- the outer loop: the coverage and the count of enabled rules
unfoldable pub coverage_of :
    List String → List DetectionRule → List (String × ℕ) → ℕ → List (String × ℕ) × ℕ
coverage_of disabled [] coverage n = (coverage, n)
coverage_of disabled (r ∷ rs) coverage n =
    let off = contains disabled r.rule_id in
    coverage_of disabled rs (if off then coverage else bump_all r.mitre_tactics coverage)
      (if off then n else n + 1)

pub record MitreCoverageResponse : Type 0 where
  pub coverage : List (String × ℕ)
  pub total_rules : ℕ
  pub enabled_rules : ℕ

-- GET /rules/mitre-coverage
unfoldable pub mitre_coverage : Env → String → Exec MitreCoverageResponse
mitre_coverage env authorization = do
  principal ← require env authorization Permission.investigation_read
  disabled ← Rules.disabled_rule_ids principal.tenant_id
  let found = coverage_of disabled default_rules [] 0
  pure (record { coverage = found.0; total_rules = length default_rules; enabled_rules = found.1 })
