-- ===== src/Executor.antt =====
-- backend/app/services/executor.py: response actions are dispatched to the first connector that
-- supports them.
use sentinelai_splunk.Prelude.{
  ℕ, String, Bool, true, false, Option, none, some, List, [], ◌∷◌, ◌==◌, concat, if◌then◌else◌,
}

pub record ExecutionResult : Type 0 where
  pub action_type : String
  pub target : String
  pub status : String
  pub detail : String
  pub executed_at : ℕ
  pub rollback_token : Option String

-- An `ActionConnector`: `supports`, and `execute` at a time.
pub record Connector : Type 0 where
  pub supports : String → Bool
  pub execute : ℕ → String → String → ExecutionResult

-- `_SUPPORTED`
supported : String → Option String
supported action_type =
    if action_type == "isolate_host"
    then some "EDR"
    else if action_type == "kill_process"
    then some "EDR"
    else if action_type == "disable_user"
    then some "IdP"
    else if action_type == "block_ip"
    then some "Firewall"
    else if action_type == "collect_forensics"
    then some "EDR"
    else none

is_supported : String → Bool
unfolding supported
is_supported action_type = elim (supported action_type) [ none ↦ false | some system ↦ true ]

-- `self._SUPPORTED[action_type]`, which the executor reads only where the key is there
system_of : String → String
unfolding supported
system_of action_type = elim (supported action_type) [ none ↦ "" | some system ↦ system ]

mock_execute : ℕ → String → String → ExecutionResult
unfolding system_of
mock_execute now action_type target = record {
  action_type = action_type;
  target = target;
  status = "success";
  detail = concat (system_of action_type ∷ ": " ∷ action_type ∷ " applied to " ∷ target ∷ []);
  executed_at = now;
  rollback_token = some (concat ("rb-" ∷ action_type ∷ "-" ∷ target ∷ []));
}

-- `MockConnector`
unfoldable pub mock_connector : Connector
unfolding is_supported mock_execute
mock_connector = record { supports = is_supported; execute = mock_execute }

-- `ActionExecutor.execute`
unfoldable pub execute : List Connector → ℕ → String → String → ExecutionResult
execute [] now action_type target = record {
  action_type = action_type;
  target = target;
  status = "unsupported";
  detail = concat ("No connector supports '" ∷ action_type ∷ "'" ∷ []);
  executed_at = now;
  rollback_token = none;
}
execute (c ∷ cs) now action_type target =
    if c.supports action_type
    then c.execute now action_type target
    else execute cs now action_type target
