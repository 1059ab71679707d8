-- ===== src/Modular/Contract.antt =====
-- The entry points of the second implementation that write
-- (contracts/alert-registry/src/contract.rs).
use stellar_txwatch_contract.Prelude.{
  ℕ, ◌+◌, Bool, true, false, none, some, List, [], ◌∷◌, ltb, length, if◌then◌else◌,
}
use stellar_txwatch_contract.Soroban.{
  Host, Address, Bytes, Env, Outcome, ok, ◌>>=◌, ◌>>◌, reject_if, ok_or,
}
use stellar_txwatch_contract.Soroban.Access.{require_auth}
use stellar_txwatch_contract.Modular.Types.{
  ContractError, AlertConfig, Event, State, max_batch_size, alert_not_found, already_initialized,
  no_pending_webhook,
}
use stellar_txwatch_contract.Modular.Storage
use stellar_txwatch_contract.Modular.Checks.{
  assert_owner, validate_label, validate_rules, publish, assert_not_paused, assert_admin,
  assert_per_owner_limit, remove_alert_record,
}

-- The record of a new alert, at ledger time `now`.
unfoldable pub new_config : ℕ → Address → Address → Bytes → Bytes → List Bytes → AlertConfig
new_config now owner target_contract label webhook_hash rules = record {
  label = label;
  webhook_hash = webhook_hash;
  rules = rules;
  owner = owner;
  target_contract = target_contract;
  created_at = now;
  updated_at = now;
  active = true;
  pending_webhook_hash = none;
}

module _ (h : Host) where
  -- What `register_alert` does with a record that passed the checks.
  unfoldable pub store_new : AlertConfig → State h → Outcome ContractError (ℕ × State h)
  store_new config s = do
    (id, s₁) ← Storage.next_id h s
    s₂ ← Storage.push_owner_index h config.owner id (Storage.set_alert h id config s₁)
    s₃ ← Storage.push_contract_index h config.target_contract id s₂
    ok (id, publish h (Event.alert_register id config.owner config.target_contract) s₃)

  -- `storage::get_alert(id).ok_or(AlertNotFound)?`
  unfoldable pub load_alert : ℕ → State h → Outcome ContractError AlertConfig
  load_alert id s = ok_or (Storage.get_alert h id s) alert_not_found

  -- One round of the loop of `bulk_renew_ttl`: was the alert there, and the new state.
  unfoldable pub renew_one : ℕ → State h → Outcome ContractError (Bool × State h)
  renew_one id s = elim (Storage.get_alert h id s) [
    | none ↦ ok (false, s)
    | some config ↦ do
      s₁ ← Storage.extend_alert_ttl h id s
      s₂ ← Storage.extend_owner_index_ttl h config.owner s₁
      s₃ ← Storage.extend_contract_index_ttl h config.target_contract s₂
      ok (true, publish h (Event.alert_bump id) s₃)
  ]

  unfoldable pub renew_loop : ℕ → List ℕ → State h → Outcome ContractError (ℕ × State h)
  renew_loop renewed [] s = ok (renewed, s)
  renew_loop renewed (id ∷ ids) s = do
    (was_there, s₁) ← renew_one id s
    renew_loop (if was_there then renewed + 1 else renewed) ids s₁

  unfoldable pub bulk_renew_ttl : List ℕ → State h → Outcome ContractError (ℕ × State h)
  bulk_renew_ttl config_ids s =
      if ltb max_batch_size (length config_ids) then ok (0, s) else renew_loop 0 config_ids s

  unfoldable pub initialize : Address → State h → Outcome ContractError (State h)
  initialize admin s = do
    reject_if (Storage.has_admin h s) already_initialized
    ok (Storage.set_admin h admin s)

module _ (h : Host) (env : Env) where
  open env use {timestamp}

  unfoldable pub register_alert :
      Address → Address → Bytes → Bytes → List Bytes → State h → Outcome ContractError (ℕ × State h)
  register_alert owner target_contract label webhook_hash rules s = do
    require_auth env owner
    assert_not_paused h s
    validate_label label
    validate_rules rules
    assert_per_owner_limit h owner s
    store_new h (new_config timestamp owner target_contract label webhook_hash rules) s

  unfoldable pub update_alert :
      Address → ℕ → List Bytes → Bool → State h → Outcome ContractError (State h)
  update_alert owner config_id rules active s = do
    require_auth env owner
    assert_not_paused h s
    config ← load_alert h config_id s
    assert_owner config owner
    validate_rules rules
    let config' = record config { rules = rules; active = active; updated_at = timestamp }
    let s' = Storage.set_alert h config_id config' s
    ok (publish h (Event.alert_update config_id owner active) s')

  -- The event names two variables that the function does not declare: they are the arguments
  -- `event_owner` and `event_active`.
  unfoldable pub update_webhook :
      Address → Bool → Address → ℕ → Bytes → State h → Outcome ContractError (State h)
  update_webhook event_owner event_active caller config_id webhook_hash s = do
    require_auth env caller
    assert_not_paused h s
    config ← load_alert h config_id s
    assert_owner config caller
    let config' = record config { webhook_hash = webhook_hash; updated_at = timestamp }
    let s' = Storage.set_alert h config_id config' s
    ok (publish h (Event.alert_update config_id event_owner event_active) s')

  unfoldable pub propose_webhook : Address → ℕ → Bytes → State h → Outcome ContractError (State h)
  propose_webhook caller config_id new_webhook_hash s = do
    require_auth env caller
    assert_not_paused h s
    config ← load_alert h config_id s
    assert_owner config caller
    let config' = record config {
      pending_webhook_hash = some new_webhook_hash;
      updated_at = timestamp;
    }
    let s' = Storage.set_alert h config_id config' s
    ok (publish h (Event.alert_wh_prop config_id caller) s')

  unfoldable pub confirm_webhook : Address → ℕ → State h → Outcome ContractError (State h)
  confirm_webhook caller config_id s = do
    require_auth env caller
    assert_not_paused h s
    config ← load_alert h config_id s
    assert_owner config caller
    pending ← ok_or config.pending_webhook_hash no_pending_webhook
    let config' = record config {
      pending_webhook_hash = none;
      webhook_hash = pending;
      updated_at = timestamp;
    }
    let s' = Storage.set_alert h config_id config' s
    ok (publish h (Event.alert_wh_conf config_id caller) s')

  unfoldable pub renew_alert_ttl : Address → ℕ → State h → Outcome ContractError (State h)
  renew_alert_ttl caller config_id s = do
    require_auth env caller
    assert_not_paused h s
    config ← load_alert h config_id s
    assert_owner config caller
    s₁ ← Storage.extend_alert_ttl h config_id s
    s₂ ← Storage.extend_owner_index_ttl h config.owner s₁
    s₃ ← Storage.extend_contract_index_ttl h config.target_contract s₂
    Storage.extend_next_id_ttl h s₃

  unfoldable pub remove_alert : Address → ℕ → State h → Outcome ContractError (State h)
  remove_alert caller config_id s = do
    require_auth env caller
    assert_not_paused h s
    config ← load_alert h config_id s
    assert_owner config caller
    ok (remove_alert_record h config config_id caller s)

  unfoldable pub transfer_admin : Address → Address → State h → Outcome ContractError (State h)
  transfer_admin admin new_admin s = do
    require_auth env admin
    assert_not_paused h s
    assert_admin h admin s
    ok (Storage.set_admin h new_admin s)

  unfoldable pub set_per_owner_alert_limit : Address → ℕ → State h → Outcome ContractError (State h)
  set_per_owner_alert_limit admin limit s = do
    require_auth env admin
    assert_not_paused h s
    assert_admin h admin s
    ok (Storage.set_limit h limit s)

  unfoldable pub remove_alert_by_admin : Address → ℕ → State h → Outcome ContractError (State h)
  remove_alert_by_admin admin config_id s = do
    require_auth env admin
    assert_not_paused h s
    assert_admin h admin s
    config ← load_alert h config_id s
    ok (remove_alert_record h config config_id admin s)

  unfoldable pub set_paused : Address → Bool → State h → Outcome ContractError (State h)
  set_paused admin paused s = do
    require_auth env admin
    assert_admin h admin s
    let topic = if paused then Event.admin_pause admin else Event.admin_unpause admin
    ok (publish h topic (record s { paused = h.set 0 paused s.paused }))
