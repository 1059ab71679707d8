-- ===== src/AlertRegistry/Tests/Histories.antt =====
-- Calls and histories of the alert registry beside their descriptions, at concrete inputs.
use stellar_txwatch_contract.Prelude.{◌≡◌, ◌++◌, ◌==◌}
use stellar_txwatch_contract.Soroban.{Env}
use stellar_txwatch_contract.Soroban.MapHost.{map_host}
use stellar_txwatch_contract.AlertRegistry.Calls.{Call, run, execute}
use stellar_txwatch_contract.AlertRegistry.Spec.{view, perform, perform_all}
use stellar_txwatch_contract.Soroban.Matching.{on_ok}
use stellar_txwatch_contract.AlertRegistry.Spec.Refinement.{execute-perform, run-perform_all}
use stellar_txwatch_contract.AlertRegistry.Tests.{
  env, deployed, deployed-IsFresh, registered, registered-IsValid, story, handover,
}

execute-perform_example :
    on_ok (view map_host) (execute map_host env (Call.transfer_alert_ownership 1 0 2) registered)
    ≡ perform env (Call.transfer_alert_ownership 1 0 2) (view map_host registered)
execute-perform_example =
    execute-perform map_host env (Call.transfer_alert_ownership 1 0 2) registered registered-IsValid

run-perform_all_example :
    view map_host (run map_host (story ++ handover) deployed)
    ≡ perform_all (story ++ handover) (view map_host deployed)
run-perform_all_example = run-perform_all map_host (story ++ handover) deployed deployed-IsFresh

-- The owner 1 alone has signed.
abbrev owner_signed : Env
owner_signed = record { authorized = λ a. a == 1; timestamp = 6 }
