-- ===== src/Repositories/Cases/Execution.antt =====
-- Approval and execution of response actions in backend/app/db/repositories.py.
use sentinelai_splunk.Prelude.{
  ℕ, ◌≡◌, refl, ap, ◌∙◌, ◌≢◌, ◌≤◌, subst, Bool, ◌↔◌, true, length, Option, none, some, List, false,
  arith, get_elem?, length, length-set, Bool-cases, inl, inr,
}
use sentinelai_splunk.Prelude.Int.{ℤ, pos, negsuc}
use sentinelai_splunk.Env.{Env}
use sentinelai_splunk.Domain.{IncidentAction}
use sentinelai_splunk.Db.{InvestigationRow}
use sentinelai_splunk.Executor.{Connector, execute}
use sentinelai_splunk.Workflow.Sla.{compute_sla}
use sentinelai_splunk.Repositories.Cases.{
  rejected, not_approved, out_of_range, done, action_at, write_action, approve_row, executed_action,
  contain, run_action, execute_row,
}
use sentinelai_splunk.Repositories.Cases.Lookup.{
  get_elem?-set_same, get_elem?-set_other, get_elem?-none, get_elem?-some,
}

contain-actions : (row : InvestigationRow) → (contain row).payload.actions ≡ row.payload.actions
unfolding contain
contain-actions row = ground arith

executable :
    (connectors : List Connector) (now : ℕ) (action_index : ℤ) (row row' : InvestigationRow)
    (o : Option (ℕ × IncidentAction))
    → action_at row.payload.actions action_index ≡ o
    → execute_row connectors now action_index row ≡ done row'
    → (i : ℕ) × (action : IncidentAction) × (o ≡ some (i, action))
      × (action.requires_approval ≡ false)
      × (row' ≡ run_action connectors now row i action)
unfolding execute_row
executable connectors now action_index row row' none e h = cc (rw (e, execute_row) at h)
executable connectors now action_index row row' (some (i, action)) e h =
    elim (Bool-cases action.requires_approval) [
      | inl needed ↦ cc (rw needed at (rw (e, execute_row) at h))
      | inr free ↦ (i, action, refl, free, cc (rw free at (rw (e, execute_row) at h)))
    ]

execute_row-eq :
    (connectors : List Connector) (now : ℕ) (action_index : ℤ) (row : InvestigationRow) (i : ℕ)
    (action : IncidentAction)
    → action_at row.payload.actions action_index ≡ some (i, action)
    → action.requires_approval ≡ false
    → execute_row connectors now action_index row ≡ done (run_action connectors now row i action)
unfolding execute_row
execute_row-eq connectors now action_index row i action e free = rw (e, execute_row) (rw free refl)

module _ (row : InvestigationRow) (action_index : ℤ) where
  -- The index names an action, which needs approval or does not.
  abbrev pub Names : Bool → Type 0
  Names needed =
      (k : ℕ) × (action : IncidentAction) × (action_index ≡ pos k)
      × (get_elem? row.payload.actions k ≡ some action)
      × (action.requires_approval ≡ needed)

  -- The index is negative, or not below the number of actions.
  abbrev pub IsOut : Type 0
  IsOut = (k : ℕ) → action_index ≡ pos k → length row.payload.actions ≤ k

named-not-IsOut :
    (row : InvestigationRow) (action_index : ℤ) (needed : Bool)
    → Names row action_index needed
    → IsOut row action_index
    → ⊥
named-not-IsOut row action_index needed (k, action, same, there, _) out =
    omega (arith, get_elem?-some row.payload.actions k action there, out k same)

named-not-named :
    (row : InvestigationRow) (action_index : ℤ)
    → Names row action_index false
    → Names row action_index true
    → ⊥
named-not-named row action_index (k, a, s, t, f) (j, b, s', t', f') = cc (s, s', t, t', f, f')

-- Which of the three it is, and what the execution then does.
data Situation (connectors : List Connector) (now : ℕ) (row : InvestigationRow) (action_index : ℤ)
    : Type 0 where
  free :
      (row' : InvestigationRow)
      → Names row action_index false
      → execute_row connectors now action_index row ≡ done row'
      → Situation connectors now row action_index
  gated :
      Names row action_index true
      → execute_row connectors now action_index row ≡ rejected not_approved
      → Situation connectors now row action_index
  missing :
      IsOut row action_index
      → execute_row connectors now action_index row ≡ rejected out_of_range
      → Situation connectors now row action_index

module _ (connectors : List Connector) (now : ℕ) (row : InvestigationRow) where
  at_index :
      (k : ℕ) (o : Option IncidentAction)
      → get_elem? row.payload.actions k ≡ o
      → Situation connectors now row (pos k)
  unfolding execute_row action_at
  at_index k none e =
      missing
        (λ j same.
          subst (λ i. length row.payload.actions ≤ i) (cc same)
            (get_elem?-none row.payload.actions k e))
        (rw (e, execute_row, action_at) refl)
  at_index k (some action) e = elim (Bool-cases action.requires_approval) [
    | inl needed ↦
        gated (k, action, refl, e, needed) (rw (e, execute_row, action_at) (rw needed refl))
    | inr ready ↦
        free (run_action connectors now row k action) (k, action, refl, e, ready)
          (execute_row-eq connectors now (pos k) row k action (rw (e, action_at) refl) ready)
  ]

  situation : (action_index : ℤ) → Situation connectors now row action_index
  unfolding execute_row action_at
  situation (pos k) = at_index k _ refl
  situation (negsuc n) = missing (λ k same. cc same) refl

-- An execution is carried out exactly when the index names an action that needs no approval any more; it is
-- refused as not approved exactly when the index names one that does; and as out of range exactly when
-- the index is negative or not below the number of actions.
pub execute_row_iff :
    (connectors : List Connector) (now : ℕ) (action_index : ℤ) (row : InvestigationRow)
    → (((row' : InvestigationRow) × (execute_row connectors now action_index row ≡ done row'))
        ↔ Names row action_index false)
      × ((execute_row connectors now action_index row ≡ rejected not_approved)
          ↔ Names row action_index true)
      × ((execute_row connectors now action_index row ≡ rejected out_of_range)
          ↔ IsOut row action_index)
execute_row_iff connectors now action_index row = by (situation connectors now row action_index)
  where
    by :
        Situation connectors now row action_index
        → (((row' : InvestigationRow) × (execute_row connectors now action_index row ≡ done row'))
            ↔ Names row action_index false)
          × ((execute_row connectors now action_index row ≡ rejected not_approved)
              ↔ Names row action_index true)
          × ((execute_row connectors now action_index row ≡ rejected out_of_range)
              ↔ IsOut row action_index)
    by (free row' named e) = (
      (λ h. named, λ h. (row', e)),
      (λ h. cc (e, h), λ h. absurd (named-not-named row action_index named h)),
      (λ h. cc (e, h), λ out. absurd (named-not-IsOut row action_index false named out)),
    )
    by (gated named e) = (
      (λ (row', h). cc (e, h), λ h. absurd (named-not-named row action_index h named)),
      (λ h. named, λ h. e),
      (λ h. cc (e, h), λ out. absurd (named-not-IsOut row action_index true named out)),
    )
    by (missing out e) = (
      (λ (row', h). cc (e, h), λ named. absurd (named-not-IsOut row action_index false named out)),
      (λ h. cc (e, h), λ named. absurd (named-not-IsOut row action_index true named out)),
      (λ h. out, λ h. e),
    )

-- Approving the action at an index makes it executable, at any later time and by any connectors: the
-- action there is then what the connectors made of it, every other action is as it was, and there
-- are as many as before.
pub execute_row-approve_row :
    (connectors : List Connector) (now k : ℕ) (row : InvestigationRow) (action : IncidentAction)
    → get_elem? row.payload.actions k ≡ some action
    → (approved executed : InvestigationRow) × (approve_row (pos k) row ≡ some approved)
      × (execute_row connectors now (pos k) approved ≡ done executed)
      × (get_elem? executed.payload.actions k
          ≡ some (
              executed_action
                (record action { requires_approval = false })
                (execute connectors now action.action_type action.target)))
      × ((j : ℕ) → k ≢ j → get_elem? executed.payload.actions j ≡ get_elem? row.payload.actions j)
      × (length executed.payload.actions ≡ length row.payload.actions)
unfolding approve_row action_at write_action run_action
execute_row-approve_row connectors now k row action h =
    let free : IncidentAction = record action { requires_approval = false } in
    let approved = write_action row k free in
    let there : get_elem? approved.payload.actions k ≡ some free =
      get_elem?-set_same row.payload.actions k action free h in
    let result = executed_action free (execute connectors now action.action_type action.target) in
    let kept = contain-actions (write_action approved k result) in
    (
      approved,
      run_action connectors now approved k free,
      rw (h, approve_row, action_at) refl,
      execute_row-eq connectors now (pos k) approved k free (rw (there, action_at) refl) refl,
      ap (λ xs. get_elem? xs k) kept
          ∙ get_elem?-set_same approved.payload.actions k free result there,
      λ j other.
          ap (λ xs. get_elem? xs j) kept
          ∙ get_elem?-set_other approved.payload.actions k j result other
          ∙ get_elem?-set_other row.payload.actions k j free other,
      ap length kept
          ∙ length-set approved.payload.actions k result
          ∙ length-set row.payload.actions k free,
    )

contain-status :
    (row : InvestigationRow) → row.status ≡ "investigating" → (contain row).status ≡ "contained"
unfolding contain
contain-status row h = rw h refl

contain-times :
    (row : InvestigationRow)
    → ((contain row).created_at ≡ row.created_at)
      × ((contain row).acknowledged_at ≡ row.acknowledged_at)
      × ((contain row).contained_at ≡ row.contained_at)
unfolding contain
contain-times row = ground arith

-- An execution that contains a case under investigation records no time of containment: the clock of
-- the service level, asked at any time, answers for the contained case what it answered before.
pub compute_sla-execute_row :
    (env : Env) (connectors : List Connector) (now : ℕ) (action_index : ℤ)
    (row row' : InvestigationRow)
    → row.status ≡ "investigating"
    → execute_row connectors now action_index row ≡ done row'
    → (row'.status ≡ "contained")
      × (compute_sla env row'.created_at row'.acknowledged_at row'.contained_at
          ≡ compute_sla env row.created_at row.acknowledged_at row.contained_at)
unfolding run_action write_action
compute_sla-execute_row env connectors now action_index row row' status h =
    let (i, action, _, _, e) = executable connectors now action_index row row' _ refl h in
    let written =
      write_action row i
        (executed_action action (execute connectors now action.action_type action.target)) in
    let (created, acknowledged, contained) = contain-times written in
    (
      rw e (contain-status written status),
      rw e (λ t. compute_sla env (created t) (acknowledged t) (contained t)),
    )
