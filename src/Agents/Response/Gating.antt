-- ===== src/Agents/Response/Gating.antt =====
-- The actions that backend/app/agents/response_agent.py plans, and the gate of
-- backend/app/db/repositories.py.
use sentinelai_splunk.Prelude.{
  ℕ, zero, suc, String, ◌≡◌, refl, ◌∙◌, subst, true, false, some, List, [], ◌∷◌, get_elem?,
  Bool-cases, inl, inr,
}
use sentinelai_splunk.Prelude.Int.{ℤ, pos}
use sentinelai_splunk.Domain.{Float, Detection, Investigation, IncidentAction, TriageVerdict}
use sentinelai_splunk.Executor.{Connector}
use sentinelai_splunk.Repositories.Cases.{rejected, not_approved, action_at, execute_row, new_row}
use sentinelai_splunk.Agents.Response.{is_gated, is_advice, planned, plan_actions, plan}

-- What a planned action asks for: approval exactly where its type is gated; and it has not run.
abbrev pub IsPlanned : IncidentAction → Type 0
IsPlanned action =
    (action.requires_approval ≡ is_gated action.action_type) × (action.executed ≡ false)

first :
    (format : Float → String) (detection : Detection) (verdict : TriageVerdict) (t : String)
    (rest : List IncidentAction) (k : ℕ) (action : IncidentAction)
    → ((j : ℕ) → get_elem? rest j ≡ some action → IsPlanned action)
    → get_elem? (planned format detection verdict t ∷ rest) k ≡ some action
    → IsPlanned action
unfolding planned
first format detection verdict t rest zero action later e = subst IsPlanned same (refl, refl)
  where
    same : planned format detection verdict t ≡ action
    same = cc e
first format detection verdict t rest (suc k) action later e = later k e

plan_actions-IsPlanned :
    (format : Float → String) (detection : Detection) (verdict : TriageVerdict)
    (suggested : List String) (k : ℕ) (action : IncidentAction)
    → get_elem? (plan_actions format detection verdict suggested) k ≡ some action
    → IsPlanned action
unfolding plan_actions planned
plan_actions-IsPlanned format detection verdict [] k action h = cc
plan_actions-IsPlanned format detection verdict (t ∷ suggested) k action h =
    elim (Bool-cases (is_advice t)) [
      | inl advice ↦
          plan_actions-IsPlanned format detection verdict suggested k action
            (rw (advice, plan_actions) at h)
      | inr asked ↦
          first format detection verdict t _ k action
            (λ j. plan_actions-IsPlanned format detection verdict suggested j action)
            (rw (asked, plan_actions) at h)
    ]

-- Every action of a plan asks for approval exactly where its type is one of the destructive ones,
-- and none has run; a verdict that is no true positive plans nothing.
pub plan-IsPlanned :
    (format : Float → String) (detection : Detection) (verdict : TriageVerdict)
    → ((k : ℕ) (action : IncidentAction)
        → get_elem? (plan format detection verdict) k ≡ some action
        → IsPlanned action)
      × (verdict.is_true_positive ≡ false → plan format detection verdict ≡ [])
unfolding plan
plan-IsPlanned format detection verdict = (
  λ k action h. elim (Bool-cases verdict.is_true_positive) [
    | inl positive ↦
        plan_actions-IsPlanned format detection verdict verdict.suggested_actions k action
          (rw (positive, plan) at h)
    | inr negative ↦ cc (rw (negative, plan) at h)
  ],
  λ negative. rw negative refl,
)

-- A destructive action of a plan is not executed before it is approved: on the row that an
-- investigation with the planned actions is saved in, every connector and time, the execution is
-- refused.
pub execute_row-plan :
    (format : Float → String) (detection : Detection) (verdict : TriageVerdict)
    (inv : Investigation) (connectors : List Connector) (saved now k : ℕ) (tenant_id : String)
    (risk : ℤ) (action : IncidentAction)
    → inv.actions ≡ plan format detection verdict
    → get_elem? inv.actions k ≡ some action
    → is_gated action.action_type ≡ true
    → execute_row connectors now (pos k) (new_row saved tenant_id risk inv) ≡ rejected not_approved
unfolding execute_row new_row action_at
execute_row-plan format detection verdict inv connectors saved now k tenant_id risk action from
      found gated =
    let (asks, _) = (plan-IsPlanned format detection verdict).0 k action (rw from at found) in
    rw (found, execute_row, new_row, action_at) (rw (asks ∙ gated) refl)
