-- ===== src/AlertRegistry/Update.antt =====
-- The entry points that change or remove one alert: `pause_alert` to `remove_alert_by_admin`,
-- `update_target_contract`, `update_tags`, `transfer_alert_ownership`
-- (contracts/alert-registry/src/lib.rs).
use stellar_txwatch_contract.Prelude.{
  ℕ, Bool, true, false, Option, none, some, List, ◌==◌, if◌then◌else◌,
}
use stellar_txwatch_contract.Soroban.{Host, Address, Bytes, Env, Outcome, ok, ◌>>=◌, ◌>>◌, ok_or}
use stellar_txwatch_contract.Soroban.Access.{require_auth, extend}
use stellar_txwatch_contract.AlertRegistry.Types.{
  ContractError, AlertConfig, Event, State, default_ttl, no_pending_webhook,
}
use stellar_txwatch_contract.AlertRegistry.Validate.{validate_label, validate_rules, validate_tags}
use stellar_txwatch_contract.AlertRegistry.Register.{check_webhook_hash}
use stellar_txwatch_contract.AlertRegistry.Store.{
  publish, assert_not_paused, assert_admin, assert_owner, assert_per_owner_limit, load_alert,
  save_alert, save_active, push_owner_index, push_contract_index, remove_from_owner_index,
  remove_from_contract_index, remove_alert_record, remove_alert_record_by_admin,
}

module _ (h : Host) where
  -- `extend_ttl` on the index entries of an alert's owner and target.
  unfoldable pub extend_indexes : ℕ → AlertConfig → State h → Outcome ContractError (State h)
  extend_indexes t config s = do
    owners ← extend h t config.owner s.owner_indexes
    targets ← extend h t config.target_contract s.contract_indexes
    ok (record s { owner_indexes = owners; contract_indexes = targets })

module _ (h : Host) (env : Env) where
  open env use {timestamp}

  unfoldable pub set_alert_active_by_admin :
      Address → ℕ → Bool → State h → Outcome ContractError (State h)
  set_alert_active_by_admin admin config_id active s = do
    require_auth env admin
    assert_admin h admin s
    config ← load_alert h config_id s
    let config' = record config { active = active; updated_at = timestamp }
    let s' = save_active h config_id active (save_alert h config_id config' s)
    ok (publish h (Event.alert_update config_id admin active) s')

  unfoldable pub pause_alert : Address → ℕ → State h → Outcome ContractError (State h)
  pause_alert admin config_id s = set_alert_active_by_admin admin config_id false s

  unfoldable pub unpause_alert : Address → ℕ → State h → Outcome ContractError (State h)
  unpause_alert admin config_id s = set_alert_active_by_admin admin config_id true s

  unfoldable pub update_alert :
      Address → ℕ → List Bytes → Bool → State h → Outcome ContractError (State h)
  update_alert caller config_id rules active s = do
    assert_not_paused h s
    require_auth env caller
    config ← load_alert h config_id s
    assert_owner config caller
    validate_rules rules
    let config' = record config { rules = rules; active = active; updated_at = timestamp }
    let s₁ = save_active h config_id active (save_alert h config_id config' s)
    s₂ ← extend_indexes h default_ttl config' s₁
    ok (publish h (Event.alert_update config_id caller active) s₂)

  unfoldable pub update_webhook : Address → ℕ → Bytes → State h → Outcome ContractError (State h)
  update_webhook caller config_id webhook_hash s = do
    assert_not_paused h s
    require_auth env caller
    config ← load_alert h config_id s
    assert_owner config caller
    check_webhook_hash webhook_hash
    let config' = record config { webhook_hash = webhook_hash; updated_at = timestamp }
    s' ← extend_indexes h default_ttl config' (save_alert h config_id config' s)
    ok (publish h (Event.alert_webhook config_id caller) s')

  unfoldable pub propose_webhook : Address → ℕ → Bytes → State h → Outcome ContractError (State h)
  propose_webhook caller config_id new_webhook_hash s = do
    require_auth env caller
    config ← load_alert h config_id s
    assert_owner config caller
    let config' = record config {
      pending_webhook_hash = some new_webhook_hash;
      updated_at = timestamp;
    }
    ok (publish h (Event.alert_wh_prop config_id caller) (save_alert h config_id config' s))

  unfoldable pub confirm_webhook : Address → ℕ → State h → Outcome ContractError (State h)
  confirm_webhook caller config_id s = do
    require_auth env caller
    config ← load_alert h config_id s
    assert_owner config caller
    pending ← ok_or config.pending_webhook_hash no_pending_webhook
    let config' = record config {
      pending_webhook_hash = none;
      webhook_hash = pending;
      updated_at = timestamp;
    }
    ok (publish h (Event.alert_webhook config_id caller) (save_alert h config_id config' s))

  unfoldable pub update_label : Address → ℕ → Bytes → State h → Outcome ContractError (State h)
  update_label caller config_id label s = do
    assert_not_paused h s
    require_auth env caller
    validate_label label
    config ← load_alert h config_id s
    assert_owner config caller
    let config' = record config { label = label; updated_at = timestamp }
    s' ← extend_indexes h default_ttl config' (save_alert h config_id config' s)
    ok (publish h (Event.alert_update config_id caller config'.active) s')

  unfoldable pub remove_alert : Address → ℕ → State h → Outcome ContractError (State h)
  remove_alert caller config_id s = do
    assert_not_paused h s
    require_auth env caller
    config ← load_alert h config_id s
    assert_owner config caller
    ok (remove_alert_record h config config_id caller s)

  unfoldable pub remove_alert_by_admin : Address → ℕ → State h → Outcome ContractError (State h)
  remove_alert_by_admin admin config_id s = do
    assert_not_paused h s
    require_auth env admin
    assert_admin h admin s
    config ← load_alert h config_id s
    ok (remove_alert_record_by_admin h config config_id admin config.owner s)

  unfoldable pub update_target_contract :
      Address → ℕ → Address → State h → Outcome ContractError (State h)
  update_target_contract caller config_id new_target s = do
    assert_not_paused h s
    require_auth env caller
    config ← load_alert h config_id s
    assert_owner config caller
    let config' = record config { target_contract = new_target; updated_at = timestamp }
    let s₁ = save_alert h config_id config' s
    let s₂ = remove_from_contract_index h config.target_contract config_id s₁
    push_contract_index h new_target config_id s₂

  unfoldable pub update_tags :
      Address → ℕ → Option (List Bytes) → State h → Outcome ContractError (State h)
  update_tags caller config_id tags s = do
    assert_not_paused h s
    require_auth env caller
    config ← load_alert h config_id s
    assert_owner config caller
    validate_tags tags
    let config' = record config { tags = tags; updated_at = timestamp }
    ok (publish h (Event.alert_tags config_id caller) (save_alert h config_id config' s))

  unfoldable pub transfer_alert_ownership :
      Address → ℕ → Address → State h → Outcome ContractError (State h)
  transfer_alert_ownership owner config_id new_owner s = do
    assert_not_paused h s
    require_auth env owner
    config ← load_alert h config_id s
    assert_owner config owner
    if new_owner == owner then ok s else (do
      s₁ ← assert_per_owner_limit h new_owner s
      s₂ ← push_owner_index h new_owner config_id (remove_from_owner_index h owner config_id s₁)
      let config' = record config { owner = new_owner; updated_at = timestamp }
      let s₃ = save_alert h config_id config' s₂
      ok (publish h (Event.alert_transfer config_id owner new_owner) s₃))
