-- ===== src/HostedModels.antt =====
-- backend/app/services/hosted_models.py: the catalogue of hosted models, and the model of each task.
use sentinelai_splunk.Prelude.{String, Bool, true, false, List, [], ◌∷◌, map}

pub data ModelTask : Type 0 where
  security_triage : ModelTask
  summarization : ModelTask
  time_series : ModelTask

unfoldable pub task_value : ModelTask → String
task_value security_triage = "security_triage"
task_value summarization = "summarization"
task_value time_series = "time_series"

pub record HostedModel : Type 0 where
  pub model_id : String
  pub provider : String
  pub task : ModelTask
  pub purpose : String
  pub is_chat : Bool

-- `HOSTED_MODELS`
unfoldable pub hosted_models : List HostedModel
hosted_models =
    record {
      model_id = "Foundation-Sec-1.1-8B-Instruct";
      provider = "Cisco Foundation AI (Splunk-hosted)";
      task = security_triage;
      purpose = "Security-specialized triage: TP/FP verdict, confidence, severity, rationale.";
      is_chat = true;
    }
    ∷ record {
      model_id = "gpt-oss-120b";
      provider = "Splunk-hosted (OpenAI gpt-oss)";
      task = summarization;
      purpose = "Natural-language incident summaries for stakeholders.";
      is_chat = true;
    }
    ∷ record {
      model_id = "gpt-oss-20b";
      provider = "Splunk-hosted (OpenAI gpt-oss)";
      task = summarization;
      purpose = "Lighter-weight summarization fallback where latency/cost matters.";
      is_chat = true;
    }
    ∷ record {
      model_id = "Cisco-DeepTimeSeries";
      provider = "Cisco Deep Time Series (Splunk-hosted)";
      task = time_series;
      purpose = "Anomaly scoring of event-volume against per-host baselines.";
      is_chat = false;
    }
    ∷ []

-- `model_for_task`, which looks up `DEFAULT_MODEL_FOR_TASK`
unfoldable pub model_for_task : ModelTask → String
model_for_task security_triage = "Foundation-Sec-1.1-8B-Instruct"
model_for_task summarization = "gpt-oss-120b"
model_for_task time_series = "Cisco-DeepTimeSeries"

-- an entry of `catalog()`
pub record CatalogEntry : Type 0 where
  pub model_id : String
  pub provider : String
  pub task : String
  pub purpose : String
  pub is_chat : Bool

-- `catalog`
unfoldable pub catalog : List CatalogEntry
unfolding hosted_models task_value
catalog =
    map
      (λ (m : HostedModel). record {
        model_id = m.model_id;
        provider = m.provider;
        task = task_value m.task;
        purpose = m.purpose;
        is_chat = m.is_chat;
      })
      hosted_models
