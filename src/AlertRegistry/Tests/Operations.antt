-- ===== src/AlertRegistry/Tests/Operations.antt =====
-- The whole operations of the alert registry at concrete inputs.
use stellar_txwatch_contract.Prelude.{
  ℕ, ◌+◌, ◌≡◌, refl, ◌≢◌, ◌≤◌, ◌<◌, inl, true, false, none, some, List, [], ◌∷◌, arith,
}
use stellar_txwatch_contract.Soroban.{ok}
use stellar_txwatch_contract.Soroban.MapHost.{map_host}
use stellar_txwatch_contract.AlertRegistry.Types.{State, AlertConfig, AlertInput, max_batch_size}
use stellar_txwatch_contract.AlertRegistry.Validate.{rule_mint, rule_transfer}
use stellar_txwatch_contract.AlertRegistry.Store.{get_alert_count}
use stellar_txwatch_contract.AlertRegistry.Admin.{set_paused}
use stellar_txwatch_contract.AlertRegistry.Register.{
  register_alert, batch_register_alerts, check_inputs, check_input, store_inputs, config_of,
}
use stellar_txwatch_contract.AlertRegistry.Update.{remove_alert, remove_alert_by_admin}
use stellar_txwatch_contract.AlertRegistry.Ttl.{deactivate_all_alerts, bulk_renew_ttl}
use stellar_txwatch_contract.AlertRegistry.Queries.{
  get_active_alert_count, get_alerts_for_contract, configs_for_ids, assert_watcher_if_configured,
}
use stellar_txwatch_contract.AlertRegistry.Calls.{Call, Tick, run}
use stellar_txwatch_contract.AlertRegistry.Deactivation.{deactivate_all_alerts_stops}
use stellar_txwatch_contract.AlertRegistry.Admission.{
  register_alert_succeeds, batch_register_alerts_stores, ids_from, AllStored,
}
use stellar_txwatch_contract.AlertRegistry.Gating.{IsAdmitted, gated_queries-IsAdmitted}
use stellar_txwatch_contract.AlertRegistry.Removal.{
  IsRemoved, remove_alert-IsRemoved, remove_alert_by_admin-IsRemoved,
}
use stellar_txwatch_contract.AlertRegistry.Renewal.Bulk.{Renewed, bulk_renew_ttl-Renewed}
use stellar_txwatch_contract.AlertRegistry.Tests.{
  program, env, hash, registered, registered-IsValid, watched, watched_is_stored, not_paused,
}

abbrev halted : State map_host
halted = run map_host (Tick.call env (Call.set_paused 9 true) ∷ []) registered

deactivate_all_alerts_stops_example :
    (n : ℕ) × (s' : State map_host) × (deactivate_all_alerts map_host env 1 registered ≡ ok (n, s'))
    × ((id : ℕ) (c : AlertConfig)
        → map_host.get id s'.alerts ≡ some c
        → c.owner ≡ 1
        → c.active ≡ false)
    × ((id : ℕ) (c : AlertConfig)
        → map_host.get id registered.alerts ≡ some c
        → c.owner ≢ 1
        → map_host.get id s'.alerts ≡ some c)
deactivate_all_alerts_stops_example =
    deactivate_all_alerts_stops map_host env 1 registered registered-IsValid not_paused refl

-- The owner has one alert of the two that the limit allows.
register_alert_succeeds_example :
    (s' : State map_host) × (register_alert map_host env 1 8 [] hash
        (rule_mint ∷ [])
        none
        registered
      ≡ ok (get_alert_count map_host registered, s'))
unfolding program get_active_alert_count
register_alert_succeeds_example =
    register_alert_succeeds map_host env 1 8 [] hash (rule_mint ∷ []) none registered
      registered-IsValid not_paused (omega arith) refl refl (omega arith) refl refl
      (λ limited. omega arith)

abbrev input : AlertInput
input = record { target_contract = 8; label = []; webhook_hash = hash; rules = rule_transfer ∷ [] }

abbrev inputs : List AlertInput
inputs = input ∷ input ∷ []

abbrev batched : State map_host
batched = run map_host (Tick.call env (Call.batch_register_alerts 3 inputs) ∷ []) registered

batch_register_alerts_stores_example :
    (2 ≤ max_batch_size)
    × (1 ∷ 2 ∷ [] ≡ ids_from (get_alert_count map_host registered) 2)
    × (get_alert_count map_host batched ≡ get_alert_count map_host registered + 2)
    × AllStored map_host env 3 (get_alert_count map_host registered) inputs batched
    × ((j : ℕ)
        → j < get_alert_count map_host registered
        → map_host.get j batched.alerts ≡ map_host.get j registered.alerts)
unfolding program batch_register_alerts check_inputs check_input store_inputs config_of
batch_register_alerts_stores_example =
    batch_register_alerts_stores map_host env 3 inputs registered registered-IsValid refl

gated_queries-IsAdmitted_example : IsAdmitted map_host (λ registry a. none) 5 registered
unfolding program get_alerts_for_contract configs_for_ids assert_watcher_if_configured
gated_queries-IsAdmitted_example =
    gated_queries-IsAdmitted map_host (λ registry a. none) 5 registered 7 0 10 (watched ∷ [])
      (inl refl)

remove_alert-IsRemoved_example :
    (s' : State map_host) × (remove_alert map_host env watched.owner 0 registered ≡ ok s')
    × IsRemoved map_host 0 watched registered s'
remove_alert-IsRemoved_example =
    remove_alert-IsRemoved map_host env 0 watched registered not_paused watched_is_stored refl

remove_alert_by_admin-IsRemoved_example :
    (s' : State map_host) × (remove_alert_by_admin map_host env 9 0 registered ≡ ok s')
    × IsRemoved map_host 0 watched registered s'
unfolding program
remove_alert_by_admin-IsRemoved_example =
    remove_alert_by_admin-IsRemoved map_host env 9 0 watched registered not_paused watched_is_stored
      refl refl

bulk_renew_ttl-Renewed_example :
    (r : ℕ × State map_host) × (bulk_renew_ttl map_host (0 ∷ 4 ∷ []) registered ≡ ok r)
    × Renewed map_host (0 ∷ 4 ∷ []) registered r
bulk_renew_ttl-Renewed_example =
    bulk_renew_ttl-Renewed map_host (0 ∷ 4 ∷ []) registered registered-IsValid (omega arith)
