-- ===== src/AiModel.antt =====
-- `MockAIModel` and `LiveAIModel` of backend/app/services/ai_model.py: what a completion comes to. The HTTP
-- call is a parameter, as in the Splunk clients, and so is `json.dumps`.
pub mod Verdicts
use mathlib.Core.Option
use sentinelai_splunk.Prelude.{
  String, Bool, ◌&&◌, ◌||◌, Option, none, some, ◌*◌, ◌^◌, concat, [], ◌∷◌, any, List, eqb,
  if◌then◌else◌,
}
use sentinelai_splunk.Prelude.Int.{pos}
use sentinelai_splunk.Domain.{Float, finite}
use sentinelai_splunk.Agents.Answer.{
  Value, Values, Entries, Python, Completion, model_error, other_error, get, as_dict, as_list,
}
use sentinelai_splunk.Splunk.{Response, response, connect_error, transport_error}
use sentinelai_splunk.Splunk.Mock.{has_text}

-- the doubles 0.92 and 0.34
unfoldable pub float_0_92 : Float
float_0_92 = finite (pos (8286623314361713 * 2 ^ 1021))

unfoldable pub float_0_34 : Float
float_0_34 = finite (pos (6124895493223875 * 2 ^ 1020))

-- `"return a json" in sys_l and "verdict" in sys_l`
unfoldable pub asks_verdict : String → Bool
asks_verdict lowered = has_text "return a json" lowered && has_text "verdict" lowered

abbrev pub indicators : List String
indicators = "failed" ∷ "powershell" ∷ "4444" ∷ "encoded" ∷ "exfil" ∷ "bytes" ∷ "500000" ∷ []

-- `any(k in u for k in …)`
unfoldable pub is_suspicious : String → Bool
is_suspicious lowered = any (λ k. has_text k lowered) indicators

-- the recommended severity
unfoldable pub severity_of : String → String
unfolding is_suspicious
severity_of u =
    if has_text "4444" u || has_text "encoded" u || has_text "exfil" u || has_text "bytes" u
    then "critical"
    else if is_suspicious u
    then "high"
    else "low"

unfoldable pub rationale_of : Bool → String
rationale_of tp =
    if tp
    then concat (
        "Multiple indicators consistent with an active attack: "
        ∷ "anomalous volume and known-bad patterns." ∷ [])
    else "Activity is within normal baseline; likely benign."

unfoldable pub actions_of : Bool → Values
actions_of tp =
    if tp
    then Values.cons (Value.str "isolate_host") (
        Values.cons (Value.str "disable_user")
          (Values.cons (Value.str "collect_forensics") Values.nil))
    else Values.cons (Value.str "monitor") (Values.cons (Value.str "close_as_fp") Values.nil)

-- the dict that is dumped, of the user prompt in lower case
unfoldable pub verdict_entries : String → Entries
unfolding is_suspicious severity_of rationale_of actions_of float_0_92 float_0_34
verdict_entries u =
    let tp = is_suspicious u in
    Entries.entry "is_true_positive" (Value.bool tp) (
      Entries.entry "confidence" (Value.float (if tp then float_0_92 else float_0_34)) (
        Entries.entry "rationale" (Value.str (rationale_of tp)) (
          Entries.entry "recommended_severity" (Value.str (severity_of u))
            (Entries.entry "suggested_actions" (Value.list (actions_of tp)) Entries.end))))

unfoldable pub summary : String
summary = concat (
    "Investigation summary: correlated events indicate a coordinated "
    ∷ "intrusion attempt. Recommended containment actions have been queued "
    ∷ "for analyst approval." ∷ [])

-- `MockAIModel.complete`
unfoldable pub complete_mock : Python → (Value → String) → String → String → Completion
unfolding asks_verdict verdict_entries summary
complete_mock py dumps system user =
    if asks_verdict (py.lower system)
    then Completion.text (dumps (Value.dict (verdict_entries (py.lower user))))
    else Completion.text summary

-- the first value of a list; `none` is the `IndexError`
first_of : Values → Option Value
first_of Values.nil = none
first_of (Values.cons v vs) = some v

-- `value[key]`; `none` is an exception
at : String → Option Value → Option Value
at key none = none
at key (some value) = elim (as_dict value) [ none ↦ none | some es ↦ get key es ]

-- `value[0]`, of a list
at_0 : Option Value → Option Value
unfolding first_of
at_0 none = none
at_0 (some value) = elim (as_list value) [ none ↦ none | some vs ↦ first_of vs ]

-- `data["choices"][0]["message"]["content"]`, which fails where it is used if it is no text
content_of : Option Value → Completion
unfolding at at_0
content_of body = elim (at "content" (at "message" (at_0 (at "choices" body)))) [
  | some (Value.str s) ↦ Completion.text s
  | some _ ↦ other_error
  | none ↦ other_error
]

-- `LiveAIModel.complete`, on what the request does
unfoldable pub complete_live : Response → Completion
unfolding content_of
complete_live (response code text body) = if eqb code 200 then content_of body else model_error
complete_live (connect_error text) = other_error
complete_live (transport_error text) = other_error
