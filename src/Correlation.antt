-- ===== src/Correlation.antt =====
-- backend/app/services/correlation.py: investigations are grouped by entity or shared indicators. A set
-- of texts is the list of its elements, each once; `uuid4` gives the ids in turn.
pub mod Partition
pub mod Worst
use sentinelai_splunk.Prelude.{
  ℕ, suc, ◌+◌, ◌-◌, String, Bool, true, false, ◌||◌, Option, none, some, List, [], ◌∷◌, ◌++◌, ◌==◌,
  any, contains, concat, decimal, eqb, length, ltb, map, sort_by, if◌then◌else◌,
}
use sentinelai_splunk.Prelude.Int.{pos}
use sentinelai_splunk.Prelude.Sets.{union, meets, sorted}
use sentinelai_splunk.Domain.{
  Severity, info, low, medium, high, critical, EnrichmentInfo, Incident, Investigation,
}

-- `_SEV_ORDER`
pub severity_order : Severity → ℕ
severity_order info = 0
severity_order low = 1
severity_order medium = 2
severity_order high = 3
severity_order critical = 4

-- `detection.enrichment.get("indicators", [])`
raw_indicators : Option EnrichmentInfo → List String
raw_indicators none = []
raw_indicators (some e) = e.indicators

-- `_indicators_of`
pub indicators_of : Investigation → List String
unfolding union raw_indicators
indicators_of inv = union (union [] (raw_indicators inv.detection.enrichment)) inv.detection.src_ips

-- a list of `groups` with its entry of `group_keys`; the first member is kept apart, as there is one
pub record Group : Type 0 where
  pub first : Investigation
  pub others : List Investigation
  pub entities : List String
  pub indicators : List String

unfoldable pub members : Group → List Investigation
members g = g.first ∷ g.others

-- `entity & g_entities or (indicators and indicators & g_indicators)`
pub belongs : Investigation → Group → Bool
unfolding indicators_of meets
belongs inv g = contains g.entities inv.detection.entity || meets (indicators_of inv) g.indicators

join : Investigation → Group → Group
unfolding indicators_of union
join inv g = record g {
  others = g.others ++ inv ∷ [];
  entities = union g.entities (inv.detection.entity ∷ []);
  indicators = union g.indicators (indicators_of inv);
}

start : Investigation → Group
unfolding indicators_of
start inv = record {
  first = inv;
  others = [];
  entities = inv.detection.entity ∷ [];
  indicators = indicators_of inv;
}

-- the inner loop: into the first group that it belongs to, or a group of its own at the end
pub place : Investigation → List Group → List Group
unfolding belongs join start
place inv [] = start inv ∷ []
place inv (g ∷ groups) = if belongs inv g then join inv g ∷ groups else g ∷ place inv groups

-- the outer loop, over what is left
pub group : List Investigation → List Group → List Group
unfolding place
group [] groups = groups
group (inv ∷ rest) groups = group rest (place inv groups)

-- `max(members, key=…)`: the first that no other exceeds
pub top : Investigation → List Investigation → Investigation
unfolding severity_order
top best [] = best
top best (inv ∷ rest) =
    if ltb (severity_order best.detection.severity) (severity_order inv.detection.severity)
    then top inv rest
    else top best rest

all_indicators : List Investigation → List String
unfolding union indicators_of
all_indicators [] = []
all_indicators (inv ∷ rest) = union (indicators_of inv) (all_indicators rest)

all_tactics : List Investigation → List String
unfolding union
all_tactics [] = []
all_tactics (inv ∷ rest) = union (union [] inv.detection.mitre_tactics) (all_tactics rest)

title_of : String → ℕ → String
title_of title others =
    if eqb others 0 then title else concat (title ∷ " (+" ∷ decimal others ∷ " related)" ∷ [])

-- the incident of a group, with the first eight digits of a `uuid4` and the time of creation
pub to_incident : String → ℕ → Group → Incident
unfolding top all_indicators all_tactics sorted title_of members
to_incident digits now g =
    let worst = top g.first g.others in
    record {
      id = concat ("INC-" ∷ digits ∷ []);
      title = title_of worst.detection.title (length g.others);
      entity = worst.detection.entity;
      severity = worst.detection.severity;
      risk_score = pos 0;
      investigation_ids = map (λ m. m.id) (members g);
      indicators = sorted (all_indicators (members g));
      mitre_tactics = sorted (all_tactics (members g));
      created_at = now;
    }

-- the second loop, where the n-th `uuid4` begins with `digits n`
pub to_incidents : (ℕ → String) → ℕ → ℕ → List Group → List Incident
unfolding to_incident
to_incidents digits n now [] = []
to_incidents digits n now (g ∷ groups) =
    to_incident (digits n) now g ∷ to_incidents digits (n + 1) now groups

-- `correlate`
unfoldable pub correlate : (ℕ → String) → ℕ → ℕ → List Investigation → List Incident
unfolding group to_incidents
correlate digits n now investigations = to_incidents digits n now (group investigations [])
