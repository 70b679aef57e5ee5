-- ===== src/Tests/Demo.antt =====
-- The data of the tests: a platform that answers like the packages it stands for on this data, and a
-- database of two tenants.
use sentinelai_splunk.Prelude.{
  zero, suc, ◌+◌, ◌*◌, ◌/◌, ◌%◌, eqb, String, true, false, none, some, [], ◌∷◌, ◌==◌, concat,
  decimal, decimal_ℤ, if◌then◌else◌,
}
use sentinelai_splunk.Prelude.Int.{ℤ, pos, negsuc}
use sentinelai_splunk.Prelude.Json.{
  Json, Items, Fields, null, bool, int, str, arr, obj, nil, cons, end, field,
}
use sentinelai_splunk.Config.{default_settings}
use sentinelai_splunk.Env.{Env, Claims}
use sentinelai_splunk.Db.{Db, TenantRow, UserRow, InvestigationRow, empty_db}
use sentinelai_splunk.Domain.{
  Float, SplunkEvent, SearchResult, finite, nan, high, investigating, IncidentAction, Investigation,
  TriageVerdict,
}
use sentinelai_splunk.Risk.{unit}
use sentinelai_splunk.Session.{Session}
use sentinelai_splunk.Resilience.{Call}
use sentinelai_splunk.Agents.Answer.{Python, Value, Values, Entries, Completion}
use sentinelai_splunk.Api.World.{World, Searched}

abbrev mutual
  dump : Json → String
  dump null = "null"
  dump (bool b) = if b then "true" else "false"
  dump (int i) = decimal_ℤ i
  dump (str s) = concat ("\"" ∷ s ∷ "\"" ∷ [])
  dump (arr items) = concat ("[" ∷ dump_items items ∷ "]" ∷ [])
  dump (obj fields) = concat ("{" ∷ dump_fields fields ∷ "}" ∷ [])

  dump_items : Items → String
  dump_items nil = ""
  dump_items (cons j js) = concat (dump j ∷ "," ∷ dump_items js ∷ [])

  dump_fields : Fields → String
  dump_fields end = ""
  dump_fields (field k j fs) = concat (k ∷ ":" ∷ dump j ∷ "," ∷ dump_fields fs ∷ [])

-- the product of two doubles, cut to the grid
abbrev pub product : Float → Float → Float
product (finite (pos u)) (finite (pos v)) = finite (pos (u * v / unit))
product _ _ = nan

abbrev pub total : Float → Float → Float
total (finite (pos u)) (finite (pos v)) = finite (pos (u + v))
total _ _ = nan

abbrev pub nearest_tenth : ℤ → ℤ
nearest_tenth (pos us) = pos ((us + 3000000) / 6000000)
nearest_tenth (negsuc us) = negsuc (us / 6000000)

abbrev pub claims_of : String → String → String → Claims
claims_of user uid role = record {
  sub = some user;
  uid = some uid;
  tenant_id = some "acme";
  role = some role;
  jti = some "j1";
  exp = 2000000000000000;
}

abbrev pub demo_env : Env
demo_env = record {
  settings = default_settings;
  now = 1795690800000000;
  uuid_hex = λ n. elim n [ zero ↦ "uuid0" | suc m ↦ concat ("uuid" ∷ decimal (suc m) ∷ []) ];
  float_mul = product;
  float_add = total;
  minutes_tenths = nearest_tenth;
  sha256_hex = λ text. concat ("sha256 of " ∷ text ∷ []);
  dumps = dump;
  hashpw = λ bytes. "hash";
  checkpw = λ bytes hash. some (hash == "hash");
  jwt_encode = λ c. "fresh";
  jwt_decode = λ token.
      if token == "admin"
      then some (claims_of "ada" "id of ada" "admin")
      else if token == "responder"
      then some (claims_of "rob" "id of rob" "responder")
      else if token == "fresh"
      then some (record (claims_of "ada" "id of ada" "admin") {
        jti = some "uuid0";
        exp = 1795694400000000;
      })
      else none;
  fernet_encrypt = λ text. concat ("sealed " ∷ text ∷ []);
  fernet_decrypt = λ text. none;
}

abbrev pub acme : TenantRow
acme = record {
  id = "acme";
  name = "Acme";
  status = "active";
  plan = "pro";
  trial_ends_at = none;
  settings = [];
  created_at = 1795000000000000;
}

abbrev pub ada : UserRow
ada = record {
  id = "id of ada";
  tenant_id = "acme";
  username = "ada";
  password_hash = "hash";
  role = "admin";
  external_id = none;
  created_at = 1795000000000000;
}

abbrev pub isolate : IncidentAction
isolate = record {
  action_type = "isolate_host";
  target = "web-1";
  rationale = "beaconing";
  requires_approval = true;
  executed = false;
  execution_status = none;
  execution_detail = none;
  rollback_token = none;
}

abbrev pub demo_verdict : TriageVerdict
demo_verdict = record {
  detection_id = "d1";
  is_true_positive = true;
  confidence = finite (pos (unit / 2));
  rationale = "many failures";
  recommended_severity = high;
  suggested_actions = [];
}

abbrev pub demo_investigation : Investigation
demo_investigation = record {
  id = "i1";
  detection = record {
    id = "d1";
    title = "Brute force";
    description = "";
    severity = high;
    status = investigating;
    spl_query = "index=auth";
    entity = "web-1";
    event_count = 12;
    created_at = 1795000000000000;
    mitre_tactics = [];
    src_ips = [];
    users = [];
    enrichment = none;
  };
  verdict = some demo_verdict;
  timeline = [];
  actions =
      isolate
      ∷ record isolate { requires_approval = false; action_type = "collect_forensics" }
      ∷ [];
  summary = "";
  assignee = none;
  created_at = 1795000000000000;
}

abbrev pub demo_row : InvestigationRow
demo_row = record {
  id = "i1";
  tenant_id = "acme";
  title = "Brute force";
  severity = "high";
  status = "investigating";
  entity = "web-1";
  risk_score = pos 63;
  is_true_positive = some true;
  payload = demo_investigation;
  assignee = none;
  acknowledged_at = none;
  contained_at = none;
  created_at = 1795000000000000;
}

abbrev pub demo_db : Db
demo_db = record empty_db {
  tenants = acme ∷ record acme { id = "zeta"; name = "Zeta" } ∷ [];
  users = ada ∷ [];
  investigations =
      demo_row
      ∷ record demo_row {
        id = "i2";
        tenant_id = "zeta";
        payload = record demo_investigation { id = "i2" };
      }
      ∷ [];
}

abbrev pub demo_session : Session
demo_session = record { db = demo_db; committed = demo_db; sent = []; uuids = 0 }

abbrev pub demo_event : SplunkEvent
demo_event = record {
  raw = "Failed password for user admin from 203.0.113.1";
  source = "/var/log/auth.log";
  sourcetype = "linux_secure";
  host = "web-prod-01";
  timestamp = 1795690740000000;
  fields = ("user", "admin") ∷ ("src_ip", "203.0.113.1") ∷ [];
}

-- every query finds the twelve failures
abbrev pub demo_result : SearchResult
demo_result = record {
  sid = "mock-1";
  query = "search index=auth";
  event_count = 12;
  events = demo_event ∷ [];
}

abbrev pub demo_python : Python
demo_python = record {
  loads = λ text.
      if text == "verdict"
      then some (
          Value.dict (
            Entries.entry "is_true_positive" (Value.bool true) (
              Entries.entry "confidence" (Value.int (pos 3)) (
                Entries.entry "recommended_severity" (Value.str "critical") (
                  Entries.entry "suggested_actions"
                    (Value.list (Values.cons (Value.str "isolate_host") Values.nil))
                    Entries.end)))))
      else none;
  repr = λ value. "value";
  repr_text = λ text. text;
  repr_texts = λ texts. "texts";
  lower = λ text. text;
  strip = λ text. text;
  float_of_text = λ text. none;
  float_of_int = λ n. elim n [ pos k ↦ some (finite (pos (k * unit))) | negsuc k ↦ none ];
  format_2 = λ x. "1.00";
  round_3 = λ x. x;
}

-- every search finds the failures, and the model gives a verdict and a summary in turn
abbrev pub demo_world : World
demo_world = record {
  python = demo_python;
  search_with = λ client n spl. Call.returns demo_result;
  model_with = λ client n system prompt.
      if eqb (n % 2) 0 then Completion.text "verdict" else Completion.text "summary";
  search_range = λ spl earliest latest. Searched.found demo_result;
  splunk_healthy = true;
  database_reachable = true;
}
