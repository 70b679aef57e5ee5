-- ===== src/Enrichment.antt =====
-- backend/app/services/enrichment.py: what is known of a detection's host, user and addresses, and the
-- risk multiplier from it. A dict of texts is an association list.
pub mod Bounds
use text.Mathlib.Text.{starts_with}
use sentinelai_splunk.Prelude.{
  String, Bool, true, false, ◌&&◌, ◌||◌, Option, none, some, List, [], ◌∷◌, ◌++◌, ◌==◌, contains,
  find, ◌*◌, ◌^◌, if◌then◌else◌,
}
use mathlib.Core.Option
use sentinelai_splunk.Prelude.Int.{pos}
use sentinelai_splunk.Env.{Env}
use sentinelai_splunk.Domain.{Float, finite}
use sentinelai_splunk.Risk.{float_of}

-- `d.get(key)`
unfoldable pub entry : String → List (String × String) → Option String
entry key pairs = Option.map (λ p. p.1) (find (λ p. p.0 == key) pairs)

-- `d.get(key) == text`
unfoldable pub has_entry : String → String → List (String × String) → Bool
unfolding entry
has_entry key text pairs = elim (entry key pairs) [ none ↦ false | some found ↦ found == text ]

pub record Enrichment : Type 0 where
  pub threat_intel : List (String × String)
  pub asset_criticality : String
  pub identity_context : List (String × String)
  pub indicators : List String

-- the doubles that the literals 0.95, 1.05, 1.15, 1.25 and 1.3 are read as
float_0_95 : Float
float_0_95 = finite (pos (4278419646001971 * 2 ^ 1022))

float_1_05 : Float
float_1_05 = finite (pos (4728779608739021 * 2 ^ 1022))

float_1_15 : Float
float_1_15 = finite (pos (2589569785738035 * 2 ^ 1023))

float_1_25 : Float
float_1_25 = finite (pos (5 * 2 ^ 1072))

float_1_3 : Float
float_1_3 = finite (pos (5854679515581645 * 2 ^ 1022))

-- `crit.get(self.asset_criticality, 1.0)`
pub criticality_factor : String → Float
unfolding float_of float_0_95 float_1_05 float_1_15 float_1_3
criticality_factor asset =
    if asset == "low"
    then float_0_95
    else if asset == "medium"
    then float_1_05
    else if asset == "high"
    then float_1_15
    else if asset == "crown_jewel"
    then float_1_3
    else float_of 1

-- `if test: mult *= factor`
times_if : Env → Bool → Float → Float → Float
times_if env test factor mult = if test then env.float_mul mult factor else mult

-- `boost`
unfoldable pub boost : Env → Enrichment → Float
unfolding criticality_factor times_if float_of float_1_25 float_1_15
boost env e = times_if env (has_entry "privileged" "true" e.identity_context) float_1_15 (
    times_if env (has_entry "verdict" "malicious" e.threat_intel) float_1_25
      (env.float_mul (float_of 1) (criticality_factor e.asset_criticality)))

-- An `EnrichmentProvider`.
pub record EnrichmentProvider : Type 0 where
  pub enrich_ip : String → List (String × String)
  pub enrich_host : String → String
  pub enrich_user : String → List (String × String)

-- `MockEnrichmentProvider.enrich_ip`
mock_ip : String → List (String × String)
mock_ip ip =
    let malicious = starts_with ip "203.0.113." || starts_with ip "198.51.100." in
    ("verdict", if malicious then "malicious" else "benign")
    ∷ ("source", "mock-ti")
    ∷ ("categories", if malicious then "c2,scanner" else "none")
    ∷ []

-- `MockEnrichmentProvider.enrich_host`
mock_host : String → String
mock_host host =
    if contains ("db-prod-02" ∷ "dc-01" ∷ "vault-01" ∷ []) host
    then "crown_jewel"
    else if contains ("web-prod-01" ∷ "ws-finance-07" ∷ []) host
    then "high"
    else "medium"

-- `MockEnrichmentProvider.enrich_user`
mock_user : String → List (String × String)
mock_user user =
    ("privileged", if contains ("admin" ∷ "root" ∷ "svc_backup" ∷ []) user then "true" else "false")
    ∷ ("department", if starts_with user "fin" then "finance" else "general")
    ∷ []

unfoldable pub mock_provider : EnrichmentProvider
unfolding mock_ip mock_host mock_user
mock_provider = record { enrich_ip = mock_ip; enrich_host = mock_host; enrich_user = mock_user }

-- `if user: …`: neither `None` nor the empty text
identity_of : EnrichmentProvider → Option String → List (String × String)
identity_of provider none = []
identity_of provider (some user) = if user == "" then [] else provider.enrich_user user

-- the loop over the addresses: the intelligence on the last malicious one, and all of these
pub flag_ips :
    EnrichmentProvider
    → List String
    → List (String × String)
    → List String
    → List (String × String) × List String
flag_ips provider [] intel indicators = (intel, indicators)
flag_ips provider (ip ∷ ips) intel indicators =
    let malicious = has_entry "verdict" "malicious" (provider.enrich_ip ip) in
    flag_ips provider ips (if malicious then provider.enrich_ip ip else intel)
      (if malicious then indicators ++ ip ∷ [] else indicators)

-- `if not enrichment.threat_intel and ips: …`
intel_or_first : EnrichmentProvider → List String → List (String × String) → List (String × String)
intel_or_first provider ips (p ∷ intel) = p ∷ intel
intel_or_first provider [] [] = []
intel_or_first provider (ip ∷ ips) [] = provider.enrich_ip ip

-- `enrich`
pub enrich : EnrichmentProvider → String → Option String → List String → Enrichment
unfolding identity_of flag_ips intel_or_first
enrich provider host user ips =
    let (intel, indicators) = flag_ips provider ips [] [] in
    record {
      threat_intel = intel_or_first provider ips intel;
      asset_criticality = provider.enrich_host host;
      identity_context = identity_of provider user;
      indicators = indicators;
    }
