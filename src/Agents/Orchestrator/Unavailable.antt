-- ===== src/Agents/Orchestrator/Unavailable.antt =====
-- An investigation of backend/app/agents/orchestrator.py while the model gives no verdict.
use sentinelai_splunk.Prelude.{ℕ, ◌+◌, String, ◌≡◌, refl, some, []}
use sentinelai_splunk.Env.{Env}
use sentinelai_splunk.Domain.{Float, Detection, investigating, Investigation}
use sentinelai_splunk.Session.{Session, ok, err, uncaught, pure, raise, uuid4_hex, ◌>>=◌}
use sentinelai_splunk.Agents.Answer.{Python, AiModel, unavailable, text, model_error, complete_json}
use sentinelai_splunk.Agents.Triage.{triage, system_prompt, triage_prompt, verdict_of, fallback}
use sentinelai_splunk.Agents.Response.{plan, plan_actions, is_advice}
use sentinelai_splunk.Agents.Orchestrator.{
  enriched, judged, investigation_of, investigate, text_or_raise, summary_system,
}

-- The triage call of the model raises an `AIModelError` or answers no JSON.
abbrev pub NoVerdict : Env → Python → AiModel → ℕ → Detection → Type 0
NoVerdict env py model calls detection =
    complete_json py (model calls system_prompt (triage_prompt (enriched env py detection)))
    ≡ unavailable

-- The action planned nothing, and left the detection as severe as it was, for an analyst.
pub record ForReview (detection : Detection) (inv : Investigation) : Type 0 where
  pub verdict : inv.verdict ≡ some (fallback detection)
  pub actions : inv.actions ≡ []
  pub severity : inv.detection.severity ≡ detection.severity
  pub status : inv.detection.status ≡ investigating

plan-fallback : (format : Float → String) (d e : Detection) → plan format d (fallback e) ≡ []
unfolding plan plan_actions is_advice fallback
plan-fallback format d e = refl

module _ (env : Env) (py : Python) (model : AiModel) (calls : ℕ) (detection : Detection)
    (silent : NoVerdict env py model calls detection) where
  triage-fallback :
      (s : Session)
      → triage py (model calls) (enriched env py detection) s ≡ (ok (fallback detection), s)
  unfolding triage verdict_of enriched fallback pure
  triage-fallback s = rw silent refl

  reviewed : (summary hex : String) → Investigation
  reviewed = investigation_of env py detection (fallback detection)

  reviewed-ForReview : (summary hex : String) → ForReview detection (reviewed summary hex)
  unfolding reviewed investigation_of judged enriched fallback
  reviewed-ForReview summary hex = record {
    verdict = refl;
    actions = plan-fallback py.format_2 (enriched env py detection) detection;
    severity = refl;
    status = refl;
  }

-- Where the model gives no verdict, an investigation goes to an analyst: if the second call of the model
-- gives a summary, it is returned with the fallback verdict, with no planned action, under
-- investigation and as severe as the rule has it. If that call raises an `AIModelError` too, nothing
-- catches it, and the run fails.
pub investigate-unavailable :
    (env : Env) (py : Python) (model : AiModel) (calls : ℕ) (detection : Detection) (s : Session)
    → NoVerdict env py model calls detection
    → ((summary : String)
        → ((prompt : String) → model (calls + 1) summary_system prompt ≡ text summary)
        → (inv : Investigation) × (s' : Session) × (investigate env py model calls detection s
            ≡ (ok inv, s'))
          × ForReview detection inv)
      × (((prompt : String) → model (calls + 1) summary_system prompt ≡ model_error)
          → investigate env py model calls detection s ≡ (err (uncaught "AIModelError"), s))
unfolding investigate ◌>>=◌ text_or_raise uuid4_hex pure raise reviewed
investigate-unavailable env py model calls detection s silent =
    let verdict = triage-fallback env py model calls detection silent s in
    (
      λ summary given. (
        reviewed env py model calls detection silent summary (env.uuid_hex s.uuids),
        record s { uuids = ℕ.suc s.uuids },
        rw verdict (rw (given _) refl),
        reviewed-ForReview env py model calls detection silent summary (env.uuid_hex s.uuids),
      ),
      λ down. rw verdict (rw (down _) refl),
    )
