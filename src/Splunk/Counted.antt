-- ===== src/Splunk/Counted.antt =====
-- What every client of backend/app/splunk finds.
use sentinelai_splunk.Prelude.{
  ℕ, String, ◌≡◌, refl, Bool, true, false, not, Option, none, some, List, [], ◌∷◌, length, concat,
  if◌then◌else◌, Bool-cases, inl, inr,
}
use sentinelai_splunk.Domain.{SplunkEvent}
use sentinelai_splunk.Agents.Answer.{Python, Value, Values, Entries}
use sentinelai_splunk.Splunk.{Outcome, found, raised, query_error, other_error, Response, is_blank}
use sentinelai_splunk.Splunk.Live
use sentinelai_splunk.Splunk.Mcp
use sentinelai_splunk.Splunk.Mock

-- A result of a query says how many events it holds, and which query it answers; a query that is blank has
-- no result.
abbrev pub Answers : Python → String → Outcome → Type 0
Answers py spl (found r) =
    (r.event_count ≡ length r.events) × (r.query ≡ spl) × (is_blank py spl ≡ false)
Answers py spl (raised error) = Unit

module _ (py : Python) (parse : String → Option ℕ) (now : ℕ) (spl : String)
    (asked : is_blank py spl ≡ false) where
  result_with-Answers :
      (sid : Option String) (events : Option (List SplunkEvent))
      → Answers py spl (Live.result_with spl sid events)
  unfolding Live.result_with
  result_with-Answers (some sid) (some events) = (refl, refl, asked)
  result_with-Answers (some sid) none = tt
  result_with-Answers none events = tt

  results-Answers : (value : Value) → Answers py spl (Live.read_results py parse now spl value)
  unfolding Live.read_results
  results-Answers (Value.dict es) = go (Live.rows_in es)
    where
      go :
          (rows : Option Values)
          → Answers py spl (elim rows as (λ _. Outcome) [
            | none ↦ raised (other_error "TypeError or AttributeError")
            | some rows ↦ Live.result_with spl (Live.sid_in es) (Live.events_of py parse now rows)
          ])
      go none = tt
      go (some rows) = result_with-Answers _ _
  results-Answers Value.null = tt
  results-Answers _ = tt

  posted-Answers : (p : Live.Posted) → Answers py spl (Live.read_posted py parse now spl p)
  unfolding Live.read_posted
  posted-Answers (Live.failed error) = tt
  posted-Answers (Live.answered value) = results-Answers value

  tool-Answers :
      (result : Entries) (rows : Option (List Entries))
      → Answers py spl (Mcp.result_with py parse now spl result rows)
  unfolding Mcp.result_with
  tool-Answers result none = tt
  tool-Answers result (some rows) = (refl, refl, asked)

  called-Answers : (c : Mcp.Called) → Answers py spl (Mcp.read_called py parse now spl c)
  unfolding Mcp.read_called Mcp.read_result
  called-Answers (Mcp.failed error) = tt
  called-Answers (Mcp.answered (Value.dict es)) = tool-Answers es _
  called-Answers (Mcp.answered Value.null) = tt
  called-Answers (Mcp.answered _) = tt

-- Whatever the servers answer, a search through the REST client, the MCP client or the mock either
-- raises, or gives a result of that query that counts exactly the events it holds; a blank query has no
-- result, and the MCP client sends no request for it.
pub search-Answers :
    (py : Python) (parse : String → Option ℕ) (now : ℕ) (spl earliest latest tool : String) (id : ℕ)
    (post : Live.Payload → Response) (rpc : Value → Response) (valid_spl : String → Bool)
    (sha256 : String → String) (client : Mock.MockSplunkClient)
    → Answers py spl (Live.search py parse now post spl earliest latest)
      × Answers py spl (Mcp.search py parse now rpc tool id spl earliest latest).0
      × Answers py spl (Mock.search py valid_spl sha256 now client spl)
      × (is_blank py spl ≡ true → (Mcp.search py parse now rpc tool id spl earliest latest).1 ≡ id)
unfolding Live.search Mcp.search Mock.search
search-Answers py parse now spl earliest latest tool id post rpc valid_spl sha256 client =
    elim (Bool-cases (is_blank py spl)) [
      | inl blank ↦ rw blank (tt, tt, tt, λ _. refl)
      | inr asked ↦
          let live = posted-Answers py parse now spl asked _ in
          let mcp = called-Answers py parse now spl asked _ in
          rw asked (live, mcp, mock asked, λ b. cc b)
    ]
  where
    mock :
        is_blank py spl ≡ false
        → Answers py spl (
            if not (valid_spl spl)
            then raised (query_error (concat ("Malformed SPL: " ∷ py.repr_text spl ∷ [])))
            else found (record {
              sid = Mock.make_sid sha256 client spl;
              query = spl;
              event_count = length (Mock.generate_events now (py.lower spl));
              events = Mock.generate_events now (py.lower spl);
            }))
    mock asked = elim (Bool-cases (valid_spl spl)) [
      | inl valid ↦ rw valid (refl, refl, asked)
      | inr invalid ↦ rw invalid tt
    ]
