-- ===== src/AlertRegistry/Pausing.antt =====
-- Which calls a paused registry refuses.
use stellar_txwatch_contract.Prelude.{◌≡◌, Bool, true, false, arith}
use stellar_txwatch_contract.Soroban.{Host, Env, err, ◌>>=◌}
use stellar_txwatch_contract.AlertRegistry.Types.{State, contract_paused}
use stellar_txwatch_contract.AlertRegistry.Store.{is_paused, assert_not_paused}
use stellar_txwatch_contract.AlertRegistry.Register.{register_alert, batch_register_alerts}
use stellar_txwatch_contract.AlertRegistry.Update.{
  update_alert, update_webhook, update_label, remove_alert, remove_alert_by_admin,
  update_target_contract, update_tags, transfer_alert_ownership,
}
use stellar_txwatch_contract.AlertRegistry.Ttl.{bump_alert, deactivate_all_alerts}
use stellar_txwatch_contract.AlertRegistry.Calls.{Call, execute}

-- The calls that a pause stops.
unfoldable pub is_gated : Call → Bool
is_gated (Call.initialize a) = false
is_gated (Call.transfer_admin a b) = false
is_gated (Call.add_admin a b) = false
is_gated (Call.remove_admin a b) = false
is_gated (Call.set_watcher_registry a b) = false
is_gated (Call.set_per_owner_alert_limit a n) = false
is_gated (Call.set_paused a b) = false
is_gated (Call.register_alert a b l w rs ts) = true
is_gated (Call.batch_register_alerts a is) = true
is_gated (Call.pause_alert a id) = false
is_gated (Call.unpause_alert a id) = false
is_gated (Call.update_alert a id rs b) = true
is_gated (Call.update_webhook a id w) = true
is_gated (Call.propose_webhook a id w) = false
is_gated (Call.update_label a id l) = true
is_gated (Call.confirm_webhook a id) = false
is_gated (Call.remove_alert a id) = true
is_gated (Call.remove_alert_by_admin a id) = true
is_gated (Call.bump_alert id t) = true
is_gated (Call.bulk_renew_ttl ids) = false
is_gated (Call.get_alert id) = false
is_gated (Call.deactivate_all_alerts a) = true
is_gated (Call.update_target_contract a id b) = true
is_gated (Call.transfer_alert_ownership a id b) = true
is_gated (Call.update_tags a id ts) = true

module _ (h : Host) (env : Env) where
  pub execute_paused :
      (call : Call) (s : State h)
      → is_paused h s ≡ true
      → is_gated call ≡ true
      → execute h env call s ≡ err contract_paused
  unfolding ◌>>=◌ execute is_gated assert_not_paused register_alert batch_register_alerts
      update_alert update_webhook update_label remove_alert remove_alert_by_admin
      update_target_contract update_tags transfer_alert_ownership bump_alert deactivate_all_alerts
  execute_paused (Call.initialize a) s p g = ground arith
  execute_paused (Call.transfer_admin a b) s p g = ground arith
  execute_paused (Call.add_admin a b) s p g = ground arith
  execute_paused (Call.remove_admin a b) s p g = ground arith
  execute_paused (Call.set_watcher_registry a b) s p g = ground arith
  execute_paused (Call.set_per_owner_alert_limit a n) s p g = ground arith
  execute_paused (Call.set_paused a b) s p g = ground arith
  execute_paused (Call.register_alert a b l w rs ts) s p g = rw p
  execute_paused (Call.batch_register_alerts a is) s p g = rw p
  execute_paused (Call.pause_alert a id) s p g = ground arith
  execute_paused (Call.unpause_alert a id) s p g = ground arith
  execute_paused (Call.update_alert a id rs b) s p g = rw p
  execute_paused (Call.update_webhook a id w) s p g = rw p
  execute_paused (Call.propose_webhook a id w) s p g = ground arith
  execute_paused (Call.update_label a id l) s p g = rw p
  execute_paused (Call.confirm_webhook a id) s p g = ground arith
  execute_paused (Call.remove_alert a id) s p g = rw p
  execute_paused (Call.remove_alert_by_admin a id) s p g = rw p
  execute_paused (Call.bump_alert id t) s p g = rw p
  execute_paused (Call.bulk_renew_ttl ids) s p g = ground arith
  execute_paused (Call.get_alert id) s p g = ground arith
  execute_paused (Call.deactivate_all_alerts a) s p g = rw p
  execute_paused (Call.update_target_contract a id b) s p g = rw p
  execute_paused (Call.transfer_alert_ownership a id b) s p g = rw p
  execute_paused (Call.update_tags a id ts) s p g = rw p
