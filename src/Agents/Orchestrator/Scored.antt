-- ===== src/Agents/Orchestrator/Scored.antt =====
-- What the pipeline of backend/app/agents/orchestrator.py makes can be scored by `_risk_from` of
-- backend/app/db/repositories.py, whatever Splunk and the model answer.
use sentinelai_splunk.Prelude.{ℕ, ◌+◌, String, ◌≡◌, subst, some, List, [], ◌∷◌, All, arith}
use sentinelai_splunk.Env.{Env}
use sentinelai_splunk.Domain.{Float, Detection, TriageVerdict, Investigation}
use sentinelai_splunk.Risk.{unit, boost_of, risk_from}
use sentinelai_splunk.Risk.Bounds.{IsBounded, Rounds, IsScored, IsPercent, risk_from-IsPercent}
use sentinelai_splunk.Enrichment.Bounds.{boost-IsBounded}
use sentinelai_splunk.Session.{Session, ok}
use sentinelai_splunk.Session.Ensures.{
  Ensures, Ensures-pure, Ensures-raise, Ensures-Anything, Ensures-bind, Anything,
}
use sentinelai_splunk.Agents.Answer.{
  Value, Entries, Python, AiModel, Reply, answered, unavailable, crashed,
}
use sentinelai_splunk.Agents.Triage.{triage, verdict_of, verdict_in, fallback, float_0_5}
use sentinelai_splunk.Agents.Triage.Clamp.{clamp-IsBounded}
use sentinelai_splunk.Agents.Orchestrator.{
  Backends, enriched, enrichment_of, judged, investigation_of, investigate, investigate_all,
  run_full_pipeline, info_of,
}

-- `round(x, 3)` keeps a float between 0 and a small whole number there.
abbrev pub RoundsThousandths : Python → Type 0
RoundsThousandths py = (x : Float) → IsBounded 8 x → IsBounded 8 (py.round_3 x)

abbrev IsConfident : TriageVerdict → Type 0
IsConfident verdict = IsBounded 1 verdict.confidence

fallback-IsConfident : (detection : Detection) → IsConfident (fallback detection)
unfolding fallback float_0_5 unit
fallback-IsConfident detection = omega arith

verdict_in-IsConfident :
    (py : Python) (detection : Detection) (entries : Entries)
    → Ensures IsConfident (verdict_in py detection entries)
unfolding verdict_in
verdict_in-IsConfident py detection entries =
    Ensures-bind Anything _ _ _ (Ensures-Anything _) λ confidence _.
      Ensures-bind Anything _ _ _ (Ensures-Anything _)
        λ actions _. Ensures-pure IsConfident _ (clamp-IsBounded confidence).0

verdict_of-IsConfident :
    (py : Python) (detection : Detection) (reply : Reply)
    → Ensures IsConfident (verdict_of py detection reply)
unfolding verdict_of
verdict_of-IsConfident py detection unavailable =
    Ensures-pure IsConfident _ (fallback-IsConfident detection)
verdict_of-IsConfident py detection crashed = Ensures-raise IsConfident _
verdict_of-IsConfident py detection (answered (Value.dict es)) =
    verdict_in-IsConfident py detection es
verdict_of-IsConfident py detection (answered Value.null) = Ensures-raise IsConfident _
verdict_of-IsConfident py detection (answered _) = Ensures-raise IsConfident _

module _ {env : Env} (py : Python) (rounds : Rounds env) (thousandths : RoundsThousandths py) where
  investigation_of-IsScored :
      (detection : Detection) (verdict : TriageVerdict) (summary hex : String)
      → IsConfident verdict
      → IsScored (investigation_of env py detection verdict summary hex)
  unfolding investigation_of judged enriched info_of boost_of
  investigation_of-IsScored detection verdict summary hex confident = record {
    boost = thousandths _ (boost-IsBounded env (enrichment_of detection) rounds);
    confidence = λ v e. subst IsConfident (same v e) confident;
  }
    where
      same : (v : TriageVerdict) → some verdict ≡ some v → verdict ≡ v
      same v e = cc

  investigate-IsScored :
      (model : AiModel) (calls : ℕ) (detection : Detection)
      → Ensures IsScored (investigate env py model calls detection)
  unfolding investigate triage
  investigate-IsScored model calls detection =
      Ensures-bind IsConfident _ _ _ (verdict_of-IsConfident py (enriched env py detection) _)
        λ verdict confident. Ensures-bind Anything _ _ _ (Ensures-Anything _) λ summary _.
          Ensures-bind Anything _ _ _ (Ensures-Anything _) λ hex _.
            Ensures-pure IsScored _
              (investigation_of-IsScored detection verdict summary hex confident)

  investigate_all-IsScored :
      (model : AiModel) (calls : ℕ) (detections : List Detection)
      → Ensures (All IsScored) (investigate_all env py model calls detections)
  unfolding investigate_all
  investigate_all-IsScored model calls [] = Ensures-pure (All IsScored) [] tt
  investigate_all-IsScored model calls (d ∷ ds) =
      Ensures-bind IsScored _ _ _ (investigate-IsScored model calls d) λ inv scored.
        Ensures-bind (All IsScored) _ _ _ (investigate_all-IsScored model (calls + 2) ds)
          λ rest all. Ensures-pure (All IsScored) (inv ∷ rest) (scored, all)

  pub run_full_pipeline-IsScored :
      (backends : Backends) (disabled : List String)
      → Ensures (All IsScored) (run_full_pipeline env py backends disabled)
  unfolding run_full_pipeline
  run_full_pipeline-IsScored backends disabled =
      Ensures-bind Anything _ _ _ (Ensures-Anything _)
        λ detections _. investigate_all-IsScored backends.model 0 detections

All-IsPercent :
    (env : Env) (invs : List Investigation)
    → Rounds env
    → All IsScored invs
    → All (λ inv. IsPercent (risk_from env inv)) invs
All-IsPercent env [] rounds all = tt
All-IsPercent env (inv ∷ invs) rounds (scored, all) =
    (risk_from-IsPercent env inv rounds scored, All-IsPercent env invs rounds all)

-- Where float products and sums round as IEEE's do and rounding to thousandths keeps bounds, every
-- investigation that a run of the pipeline returns has a risk score, from 0 to 100, whatever Splunk's
-- searches and the model's calls answered.
pub run_full_pipeline-IsPercent :
    (env : Env) (py : Python) (backends : Backends) (disabled : List String) (s : Session)
    (invs : List Investigation)
    → Rounds env
    → RoundsThousandths py
    → (run_full_pipeline env py backends disabled s).0 ≡ ok invs
    → All (λ inv. IsPercent (risk_from env inv)) invs
run_full_pipeline-IsPercent env py backends disabled s invs rounds thousandths returned =
    All-IsPercent env invs rounds
      ((run_full_pipeline-IsScored py rounds thousandths backends disabled).value s invs returned)
