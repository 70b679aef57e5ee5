-- ===== src/Api/Kept/Agents.antt =====
-- What a run of the pipeline of backend/app/agents keeps.
use sentinelai_splunk.Prelude.{ℕ, ◌+◌, String, List, [], ◌∷◌, Bool-cases, inl, inr, contains}
use sentinelai_splunk.Env.{Env}
use sentinelai_splunk.Domain.{SearchResult, Detection}
use sentinelai_splunk.Resilience.{
  CircuitBreaker, Outcome, returned, deterministic, failed, short_circuited, never_called,
}
use sentinelai_splunk.Session.{Session}
use sentinelai_splunk.Session.Preserves.{Preserves, Preserves-bind, Preserves-pure, preserves_rules}
use sentinelai_splunk.Session.Tolerates.{ToleratesRun}
use sentinelai_splunk.Agents.Answer.{
  Value, Python, AiModel, Reply, answered, unavailable, crashed, Completion, text, model_error,
  other_error,
}
use sentinelai_splunk.Agents.Detection
use sentinelai_splunk.Agents.Detection.{DetectionRule, Search}
use sentinelai_splunk.Agents.Triage
use sentinelai_splunk.Agents.Orchestrator
use sentinelai_splunk.Agents.Orchestrator.{Backends}

module _ {env : Env} {P : Session → Type 0} (k : ToleratesRun env P) where
  result_of-Preserves : (o : Outcome SearchResult) → Preserves P (Detection.result_of o)
  unfolding Detection.result_of
  result_of-Preserves (returned r) = search preserves_rules
  result_of-Preserves deterministic = search preserves_rules
  result_of-Preserves failed = search preserves_rules
  result_of-Preserves short_circuited = search preserves_rules
  result_of-Preserves never_called = search preserves_rules

  detections_of-Preserves :
      (rule : DetectionRule) (result : SearchResult)
      → Preserves P (Detection.detections_of env rule result)
  unfolding Detection.detections_of
  detections_of-Preserves rule result = search (preserves_rules, k.uuids) depth 20

  run_rules-Preserves :
      (splunk : Search) (disabled : List String) (rules : List DetectionRule) (b : CircuitBreaker)
      (n : ℕ)
      → Preserves P (Detection.run_rules env splunk disabled rules b n)
  unfolding Detection.run_rules
  run_rules-Preserves splunk disabled [] b n = search preserves_rules
  run_rules-Preserves splunk disabled (rule ∷ rules) b n =
      elim (Bool-cases (contains disabled rule.rule_id)) [
        | inl off ↦ rw (off, Detection.run_rules) (run_rules-Preserves splunk disabled rules b n)
        | inr on ↦
            rw (on, Detection.run_rules)
              (search
                (
                  preserves_rules,
                  result_of-Preserves,
                  detections_of-Preserves,
                  run_rules-Preserves splunk disabled rules,
                )
                depth 20)
      ]

  pub agent_run-Preserves :
      (splunk : Search) (disabled : List String) (rules : List DetectionRule)
      → Preserves P (Detection.run env splunk disabled rules)
  unfolding Detection.run
  agent_run-Preserves splunk disabled rules = run_rules-Preserves splunk disabled rules _ 0

  verdict_of-Preserves :
      (py : Python) (d : Detection) (reply : Reply) → Preserves P (Triage.verdict_of py d reply)
  unfolding Triage.verdict_of Triage.verdict_in
  verdict_of-Preserves py d unavailable = search preserves_rules
  verdict_of-Preserves py d crashed = search preserves_rules
  verdict_of-Preserves py d (answered (Value.dict es)) = search preserves_rules depth 20
  verdict_of-Preserves py d (answered Value.null) = search preserves_rules
  verdict_of-Preserves py d (answered _) = search preserves_rules

  triage-Preserves :
      (py : Python) (complete : String → String → Completion) (d : Detection)
      → Preserves P (Triage.triage py complete d)
  unfolding Triage.triage
  triage-Preserves py complete d = verdict_of-Preserves py d _

  text_or_raise-Preserves : (c : Completion) → Preserves P (Orchestrator.text_or_raise c)
  unfolding Orchestrator.text_or_raise
  text_or_raise-Preserves (text t) = search preserves_rules
  text_or_raise-Preserves model_error = search preserves_rules
  text_or_raise-Preserves other_error = search preserves_rules

  investigate-Preserves :
      (py : Python) (model : AiModel) (calls : ℕ) (d : Detection)
      → Preserves P (Orchestrator.investigate env py model calls d)
  unfolding Orchestrator.investigate
  investigate-Preserves py model calls d =
      search (preserves_rules, triage-Preserves, text_or_raise-Preserves, k.uuids) depth 20

  investigate_all-Preserves :
      (py : Python) (model : AiModel) (calls : ℕ) (ds : List Detection)
      → Preserves P (Orchestrator.investigate_all env py model calls ds)
  unfolding Orchestrator.investigate_all
  investigate_all-Preserves py model calls [] = search preserves_rules
  investigate_all-Preserves py model calls (d ∷ ds) =
      Preserves-bind _ _ (investigate-Preserves py model calls d) λ inv.
        Preserves-bind _ _ (investigate_all-Preserves py model (calls + 2) ds)
          λ rest. Preserves-pure (inv ∷ rest)

  pub run_full_pipeline-Preserves :
      (py : Python) (backends : Backends) (disabled : List String)
      → Preserves P (Orchestrator.run_full_pipeline env py backends disabled)
  unfolding Orchestrator.run_full_pipeline Orchestrator.run_detections
  run_full_pipeline-Preserves py backends disabled =
      search (preserves_rules, agent_run-Preserves, investigate_all-Preserves) depth 20
