-- ===== src/Config.antt =====
-- backend/app/core/config.py: the settings that the modelled code reads, and their defaults.
use sentinelai_splunk.Prelude.{ℕ, String}

pub record Settings : Type 0 where
  pub jwt_expire_minutes : ℕ
  pub rate_limit_per_minute : ℕ
  pub notify_high_risk_threshold : ℕ
  pub splunk_backend : String
  pub splunk_host : String
  pub splunk_token : String
  pub splunk_mcp_url : String
  pub splunk_mcp_search_tool : String
  pub ai_model : String
  pub ai_backend : String
  pub price_search_cents : ℕ
  pub price_model_call_cents : ℕ
  pub price_tokens_cents_per_1k : ℕ
  pub price_action_cents : ℕ

abbrev pub default_settings : Settings
default_settings = record {
  jwt_expire_minutes = 60;
  rate_limit_per_minute = 120;
  notify_high_risk_threshold = 80;
  splunk_backend = "mock";
  splunk_host = "https://localhost:8089";
  splunk_token = "";
  splunk_mcp_url = "";
  splunk_mcp_search_tool = "run_oneshot_search";
  ai_model = "Foundation-Sec-1.1-8B-Instruct";
  ai_backend = "mock";
  price_search_cents = 2;
  price_model_call_cents = 5;
  price_tokens_cents_per_1k = 1;
  price_action_cents = 10;
}
