-- ===== src/Repositories/Investigations/Isolation.antt =====
-- What one tenant's operations of backend/app/db/repositories.py leave of the others' investigations.
use sentinelai_splunk.Prelude.{
  String, ◌≡◌, ◌≢◌, refl, ap, ◌∙◌, sym, Option, none, some, List, [], ◌∷◌, true, arith, Bool-cases,
  inl, inr, ◌==◌, ==→eq, eq_iff, ne→==_false, ◌&&◌, All, filter, find-some, find-All, update_where,
  if◌then◌else◌,
}
use sentinelai_splunk.Prelude.Int.{ℤ}
use sentinelai_splunk.Env.{Env}
use sentinelai_splunk.Db.{InvestigationRow}
use sentinelai_splunk.Executor.{Connector}
use sentinelai_splunk.Session.{Session, Exec, pure, gets, if_some, put_investigations, ◌>>=◌}
use sentinelai_splunk.Repositories.Cases.{
  Attempt, rejected, done, approve_row, execute_row, transition_row, assign_row,
}
use sentinelai_splunk.Repositories.Cases.Outcomes.{
  OnDone, OnSome, IsCaseOf, assign_row-IsCaseOf, approve_row-IsCaseOf, execute_row-IsCaseOf,
  transition_row-IsCaseOf,
}
use sentinelai_splunk.Repositories.Investigations.{
  row_of, write_row, write_payload, write_attempt, set_assignee, approve_action, execute_action,
  transition_status, get_row,
}

-- the primary key: rows of one id are one tenant's
abbrev pub IsKeyed : List InvestigationRow → Type 0
IsKeyed rows = All (λ a. All (λ b. a.id ≡ b.id → a.tenant_id ≡ b.tenant_id) rows) rows

abbrev pub of_tenant : String → List InvestigationRow → List InvestigationRow
of_tenant tenant_id = filter (λ r. r.tenant_id == tenant_id)

both :
    (row : InvestigationRow) (tenant_id inv_id : String)
    → (row.tenant_id == tenant_id && row.id == inv_id) ≡ true
    → (row.tenant_id ≡ tenant_id) × (row.id ≡ inv_id)
both row tenant_id inv_id h = ground (arith, eq_iff row.tenant_id tenant_id, eq_iff row.id inv_id)

row_of-some :
    (tenant_id inv_id : String) (rows : List InvestigationRow) (row : InvestigationRow)
    → row_of tenant_id inv_id rows ≡ some row
    → (row.tenant_id ≡ tenant_id) × (row.id ≡ inv_id)
row_of-some tenant_id inv_id rows row h =
    both row tenant_id inv_id
      (find-some (λ r. r.tenant_id == tenant_id && r.id == inv_id) rows row h)

skip :
    (tenant_id : String) (r : InvestigationRow) (rs : List InvestigationRow)
    → r.tenant_id ≢ tenant_id
    → of_tenant tenant_id (r ∷ rs) ≡ of_tenant tenant_id rs
skip tenant_id r rs h = rw (ne→==_false r.tenant_id tenant_id h) refl

-- Writing a tenant's row changes no other tenant's rows.
update-other :
    (other id tenant : String) (row : InvestigationRow) (rows : List InvestigationRow)
    → row.id ≡ id
    → row.tenant_id ≡ tenant
    → tenant ≢ other
    → All (λ b. id ≡ b.id → tenant ≡ b.tenant_id) rows
    → of_tenant other (update_where (λ r. r.id == row.id) (λ r. row) rows) ≡ of_tenant other rows
update-other other id tenant row [] same own apart keyed = refl
update-other other id tenant row (r ∷ rows) same own apart (k, keyed) =
    let rest = update-other other id tenant row rows same own apart keyed in
    elim (Bool-cases (r.id == row.id)) [
      | inl hit ↦ rw hit (
          skip other row _ (λ e. apart (sym own ∙ e))
          ∙ rest
          ∙ sym (skip other r rows λ e. apart (k (sym same ∙ sym (==→eq r.id row.id hit)) ∙ e)))
      | inr miss ↦ rw miss (ap (λ xs. if r.tenant_id == other then r ∷ xs else xs) rest)
    ]

module _ (tenant_id other inv_id : String) (s : Session) (apart : tenant_id ≢ other)
    (keyed : IsKeyed s.investigations) where
  abbrev Spares : Session → Type 0
  Spares s' = of_tenant other s'.investigations ≡ of_tenant other s.investigations

  write-Spares :
      (row row' : InvestigationRow)
      → row_of tenant_id inv_id s.investigations ≡ some row
      → IsCaseOf row row'
      → Spares (write_payload row' s).1
  unfolding write_payload write_row put_investigations ◌>>=◌ pure
  write-Spares row row' h (id, tenant) =
      let (own, _) = row_of-some tenant_id inv_id s.investigations row h in
      let key : All (λ b. row.id ≡ b.id → row.tenant_id ≡ b.tenant_id) s.investigations =
        find-All (λ a. All (λ b. a.id ≡ b.id → a.tenant_id ≡ b.tenant_id) s.investigations) _
          s.investigations row h keyed in
      update-other other row.id row.tenant_id row' s.investigations id tenant
        (λ e. apart (sym own ∙ e)) key

  attempt-Spares :
      (row : InvestigationRow) (r : Attempt InvestigationRow)
      → row_of tenant_id inv_id s.investigations ≡ some row
      → OnDone (IsCaseOf row) r
      → Spares (write_attempt r s).1
  unfolding write_attempt ◌>>=◌ pure write_payload write_row put_investigations
  attempt-Spares row (rejected e) h version = refl
  attempt-Spares row (done row') h version = write-Spares row row' h version

  change-Spares :
      (row : InvestigationRow) (o : Option InvestigationRow)
      → row_of tenant_id inv_id s.investigations ≡ some row
      → OnSome (IsCaseOf row) o
      → Spares (if_some o (pure none) (λ row'. write_payload row' >>= λ inv. pure (some inv)) s).1
  unfolding if_some ◌>>=◌ pure write_payload write_row put_investigations
  change-Spares row none h version = refl
  change-Spares row (some row') h version = write-Spares row row' h version

  found-Spares :
      {A : Type 0} (f : InvestigationRow → Exec A) (missing : Exec A) (o : Option InvestigationRow)
      → row_of tenant_id inv_id s.investigations ≡ o
      → Spares (missing s).1
      → ((row : InvestigationRow)
          → row_of tenant_id inv_id s.investigations ≡ some row
          → Spares (f row s).1)
      → Spares (if_some o missing f s).1
  unfolding if_some
  found-Spares f missing none e m h = m
  found-Spares f missing (some row) e m h = h row e

  -- One tenant's assignments, approvals, executions and moves leave every other tenant's
  -- investigations as they were, row by row and in order, in a table whose ids are each one tenant's.
  pub operations-spare :
      (env : Env) (connectors : List Connector) (action_index : ℤ) (assignee : Option String)
      (target : String)
      → Spares (set_assignee tenant_id inv_id assignee s).1
        × Spares (approve_action tenant_id inv_id action_index s).1
        × Spares (execute_action env connectors tenant_id inv_id action_index s).1
        × Spares (transition_status env tenant_id inv_id target s).1
  unfolding set_assignee approve_action execute_action transition_status get_row gets if_some ◌>>=◌
      pure
  operations-spare env connectors action_index assignee target = (
    found-Spares _ _ _ refl refl (λ row h.
        change-Spares row (some (assign_row assignee row)) h (assign_row-IsCaseOf row assignee)),
    found-Spares _ _ _ refl refl (λ row h.
        change-Spares row (approve_row action_index row) h (approve_row-IsCaseOf row action_index)),
    found-Spares _ _ _ refl refl (λ row h.
        attempt-Spares row (execute_row connectors env.now action_index row) h
          (execute_row-IsCaseOf row connectors env.now action_index)),
    found-Spares _ _ _ refl refl (λ row h.
        attempt-Spares row (transition_row env.now target row) h
          (transition_row-IsCaseOf row env.now target)),
  )
