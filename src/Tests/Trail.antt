-- ===== src/Tests/Trail.antt =====
-- The audit trail of backend/app/services/audit.py on concrete entries and requests.
use sentinelai_splunk.Prelude.{
  ℕ, ◌≡◌, ◌==◌, false, refl, none, List, [], ◌∷◌, ◌++◌, true, ◌⊎◌, concat,
}
use sentinelai_splunk.Prelude.Json.{obj, end}
use sentinelai_splunk.Env.{Env}
use sentinelai_splunk.Db.{AuditLogRow}
use sentinelai_splunk.Audit.{
  append_entry, verify_chain, verify_entries, compute_hash, canonical, new_entry, last_hash,
  last_or, detail_or_empty,
}
use sentinelai_splunk.Audit.Chain.{verify_chain-append_entry}
use sentinelai_splunk.Audit.Tampering.{
  verify_chain-altered, verify_chain-deleted, hashed_text, Collision,
}
use sentinelai_splunk.Audit.Race.{overlapped, verify_chain-overlapped}
use sentinelai_splunk.Notifications.{capture}
use sentinelai_splunk.Executor.{mock_connector}
use sentinelai_splunk.Api.Requests.{Request, serve}
use sentinelai_splunk.Api.Requests.Trail.{verify_chain-serve, serve-append_only}
use sentinelai_splunk.Tests.Demo.{demo_env, demo_world, demo_session}

abbrev requests : List (ℕ × Request)
requests =
    (1795690900000000, Request.transition_status "Bearer responder" "i1" "contained")
    ∷ (1795691000000000, Request.logout "Bearer responder")
    ∷ []

verify_chain-serve_example :
    verify_chain demo_env "acme"
      (serve demo_env demo_world
        (mock_connector ∷ [])
        (capture ∷ [])
        requests
        demo_session).committed.audit_log
    ≡ true
unfolding verify_chain verify_entries
verify_chain-serve_example =
    verify_chain-serve demo_env demo_world (mock_connector ∷ []) (capture ∷ []) requests
      demo_session "acme" refl

serve-append_only_example :
    (added : List AuditLogRow) × ((serve demo_env demo_world
        (mock_connector ∷ [])
        (capture ∷ [])
        requests
        demo_session).committed.audit_log
      ≡ [] ++ added)
serve-append_only_example =
    serve-append_only demo_env demo_world (mock_connector ∷ []) (capture ∷ []) requests demo_session

abbrev first_entry : AuditLogRow
first_entry =
    new_entry demo_env [] "acme" "ada" "auth.login.success" "user" "u1" (detail_or_empty none)

abbrev second_entry : AuditLogRow
second_entry =
    new_entry demo_env (first_entry ∷ []) "acme" "ada" "auth.logout" "user" "u1"
      (detail_or_empty none)

verify_chain-append_entry_example :
    verify_chain demo_env "acme"
      (append_entry demo_env "acme" "rob" "auth.logout" "user" "u2" none (first_entry ∷ []))
    ≡ verify_chain demo_env "acme" (first_entry ∷ [])
verify_chain-append_entry_example =
    verify_chain-append_entry demo_env "acme" "acme" "rob" "auth.logout" "user" "u2" none
      (first_entry ∷ [])

abbrev backdated : AuditLogRow
backdated = record first_entry { created_at = 1 }

verify_chain-altered_example :
    (hashed_text demo_env backdated ≡ hashed_text demo_env first_entry) ⊎ Collision demo_env
unfolding verify_chain verify_entries new_entry last_hash last_or compute_hash canonical
    detail_or_empty concat
verify_chain-altered_example =
    verify_chain-altered demo_env "acme" [] first_entry backdated (second_entry ∷ []) refl refl refl
      refl refl

abbrev blank_env : Env
blank_env = record demo_env { sha256_hex = λ text. "" }

abbrev blank_entry : AuditLogRow
blank_entry = new_entry blank_env [] "acme" "ada" "auth.logout" "user" "u1" (detail_or_empty none)

verify_chain-deleted_example : blank_entry.entry_hash ≡ blank_entry.prev_hash
unfolding verify_chain verify_entries new_entry last_hash last_or compute_hash canonical
    detail_or_empty concat
verify_chain-deleted_example =
    verify_chain-deleted blank_env "acme" [] blank_entry (blank_entry ∷ []) refl refl refl refl

apart_hashes :
    ((new_entry demo_env [] "acme" "ana" "login" "user" "ana" (obj end)).entry_hash
      == last_hash "acme" [])
    ≡ false
unfolding new_entry compute_hash canonical last_hash concat
apart_hashes = refl

verify_chain-overlapped_example :
    verify_chain demo_env "acme" (
      overlapped []
        (new_entry demo_env [] "acme" "ana" "login" "user" "ana" (obj end))
        (new_entry demo_env [] "acme" "bob" "login" "user" "bob" (obj end)))
    ≡ false
verify_chain-overlapped_example =
    verify_chain-overlapped demo_env demo_env "acme" [] "ana" "login" "user" "ana" "bob" "login"
      "user" "bob" (obj end) (obj end) apart_hashes
