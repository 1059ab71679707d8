-- ===== src/AlertRegistry/Register.antt =====
-- `register_alert` and `batch_register_alerts` (contracts/alert-registry/src/lib.rs).
use stellar_txwatch_contract.Prelude.{ℕ, true, Option, none, List, [], ◌∷◌, ltb, ◌==◌, not, length}
use stellar_txwatch_contract.Soroban.{
  Host, Address, Bytes, Env, Outcome, ok, ◌>>=◌, ◌>>◌, reject_if,
}
use stellar_txwatch_contract.Soroban.Access.{require_auth}
use stellar_txwatch_contract.AlertRegistry.Types.{
  ContractError, AlertConfig, AlertInput, Event, State, invalid_webhook_hash, batch_too_large,
  max_batch_size,
}
use stellar_txwatch_contract.AlertRegistry.Validate.{validate_label, validate_rules, validate_tags}
use stellar_txwatch_contract.AlertRegistry.Store.{
  publish, assert_not_paused, assert_per_owner_limit, assert_per_owner_limit_for, next_id,
  save_alert, save_active, push_owner_index, push_contract_index,
}

-- The record of a new alert, at ledger time `now`.
unfoldable pub new_config :
    ℕ → Address → Address → Bytes → Bytes → List Bytes → Option (List Bytes) → AlertConfig
new_config now owner target_contract label webhook_hash rules tags = record {
  label = label;
  webhook_hash = webhook_hash;
  rules = rules;
  owner = owner;
  target_contract = target_contract;
  created_at = now;
  updated_at = now;
  active = true;
  pending_webhook_hash = none;
  tags = tags;
}

-- `webhook_hash.len() != 64`
unfoldable pub check_webhook_hash : Bytes → Outcome ContractError (Unit {0})
check_webhook_hash webhook_hash = reject_if (not (length webhook_hash == 64)) invalid_webhook_hash

unfoldable pub check_input : AlertInput → Outcome ContractError (Unit {0})
check_input input = do
  check_webhook_hash input.webhook_hash
  validate_label input.label
  validate_rules input.rules

-- The first loop of `batch_register_alerts`.
unfoldable pub check_inputs : List AlertInput → Outcome ContractError (Unit {0})
check_inputs [] = ok tt
check_inputs (input ∷ inputs) = do check_input input; check_inputs inputs

-- The record for an input of a batch of `caller`.
unfoldable pub config_of : Env → Address → AlertInput → AlertConfig
config_of env caller i =
    new_config env.timestamp caller i.target_contract i.label i.webhook_hash i.rules none

module _ (h : Host) where
  -- What both entry points do with a record that passed the checks: take the next ID, store the
  -- record and its flag, enter the ID in both indexes, publish.
  unfoldable pub store_new : AlertConfig → State h → Outcome ContractError (ℕ × State h)
  store_new config s = do
    (id, s₁) ← next_id h s
    let s₂ = save_active h id true (save_alert h id config s₁)
    s₃ ← push_owner_index h config.owner id s₂
    s₄ ← push_contract_index h config.target_contract id s₃
    ok (id, publish h (Event.alert_register id config.owner config.target_contract) s₄)

module _ (h : Host) (env : Env) where
  unfoldable pub register_alert :
      Address
      → Address
      → Bytes
      → Bytes
      → List Bytes
      → Option (List Bytes)
      → State h
      → Outcome ContractError (ℕ × State h)
  register_alert owner target_contract label webhook_hash rules tags s = do
    assert_not_paused h s
    check_webhook_hash webhook_hash
    require_auth env owner
    validate_label label
    validate_rules rules
    validate_tags tags
    s' ← assert_per_owner_limit h owner s
    store_new h (new_config env.timestamp owner target_contract label webhook_hash rules tags) s'

  -- The second loop of `batch_register_alerts`: the IDs in order.
  unfoldable pub store_inputs :
      Address → List AlertInput → State h → Outcome ContractError (List ℕ × State h)
  store_inputs caller [] s = ok ([], s)
  store_inputs caller (input ∷ inputs) s = do
    (id, s₁) ← store_new h (config_of env caller input) s
    (ids, s₂) ← store_inputs caller inputs s₁
    ok (id ∷ ids, s₂)

  unfoldable pub batch_register_alerts :
      Address → List AlertInput → State h → Outcome ContractError (List ℕ × State h)
  batch_register_alerts caller inputs s = do
    assert_not_paused h s
    reject_if (ltb max_batch_size (length inputs)) batch_too_large
    require_auth env caller
    check_inputs inputs
    s' ← assert_per_owner_limit_for h caller (length inputs) s
    store_inputs caller inputs s'
