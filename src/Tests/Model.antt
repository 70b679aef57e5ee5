-- ===== src/Tests/Model.antt =====
-- The verdict of `MockAIModel` on a concrete detection.

use sentinelai_splunk.Prelude.{
  String, ◌≡◌, refl, ◌==◌, none, some, [], ◌∷◌, true, if◌then◌else◌, concat, decimal,
}
use sentinelai_splunk.Domain.{Detection, high, new}
use sentinelai_splunk.Agents.Answer.{Python, Value}
use sentinelai_splunk.Agents.Triage.{triage_prompt}
use sentinelai_splunk.Splunk.Mock.{has_text}
use sentinelai_splunk.AiModel.{verdict_entries, is_suspicious}
use sentinelai_splunk.Tests.Demo.{demo_python}

abbrev brute_force : Detection
brute_force = record {
  id = "d-1";
  title = "Brute-force authentication";
  description = "many failed logins";
  severity = high;
  status = new;
  spl_query = "search failed";
  entity = "web-1";
  event_count = 12;
  created_at = 7;
  mitre_tactics = "T1110" ∷ [];
  src_ips = [];
  users = [];
  enrichment = none;
}

-- a model whose answers are one text
abbrev python : Python
python = record demo_python {
  loads = λ text.
      if text == "dumped"
      then some (Value.dict (verdict_entries (triage_prompt brute_force)))
      else none;
  lower = λ text. if has_text "senior SOC" text then "return a json verdict" else text;
}

abbrev dump : Value → String
dump value = "dumped"

shown : is_suspicious (triage_prompt brute_force) ≡ true
unfolding is_suspicious has_text triage_prompt concat decimal
shown = refl
