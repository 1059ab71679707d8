-- ===== src/Modular/Checks.antt =====
-- The private helpers of the second implementation
-- (contracts/alert-registry/src/contract.rs, from `assert_owner` on).
use stellar_txwatch_contract.Prelude.{
  ℕ, ◌+◌, false, none, some, List, [], ◌∷◌, ltb, leb, ◌==◌, ◌&&◌, not, length, unwrap_or,
  if◌then◌else◌,
}
use stellar_txwatch_contract.Soroban.{Host, Address, Bytes, Outcome, ok, err, ◌>>◌, reject_if}
use stellar_txwatch_contract.AlertRegistry.Validate.{bytes_eq, rule_transfer, rule_mint}
use stellar_txwatch_contract.Modular.Types.{
  ContractError, AlertConfig, Event, State, unauthorized, not_initialized, contract_paused,
  owner_alert_limit_exceeded, label_too_long, too_many_rules, invalid_rule_descriptor,
}
use stellar_txwatch_contract.Modular.Storage

unfoldable pub assert_owner : AlertConfig → Address → Outcome ContractError (Unit {0})
assert_owner config caller = if config.owner == caller then ok tt else err unauthorized

unfoldable pub validate_label : Bytes → Outcome ContractError (Unit {0})
validate_label label = do reject_if (ltb 128 (length label)) label_too_long; ok tt

-- The loop of `validate_rules`.
unfoldable pub validate_rules_loop : List Bytes → Outcome ContractError (Unit {0})
validate_rules_loop [] = ok tt
validate_rules_loop (rule ∷ rules) = do
  reject_if (not (bytes_eq rule rule_transfer) && not (bytes_eq rule rule_mint))
      invalid_rule_descriptor
  validate_rules_loop rules

unfoldable pub validate_rules : List Bytes → Outcome ContractError (Unit {0})
validate_rules rules = do
  reject_if (ltb 50 (length rules)) too_many_rules
  validate_rules_loop rules

module _ (h : Host) where
  -- `env.events().publish(e)`
  abbrev pub publish : Event → State h → State h
  publish e s = record s { events = e ∷ s.events }

  unfoldable pub assert_not_paused : State h → Outcome ContractError (Unit {0})
  assert_not_paused s = do reject_if (unwrap_or (h.get 0 s.paused) false) contract_paused; ok tt

  unfoldable pub assert_admin : Address → State h → Outcome ContractError (Unit {0})
  assert_admin caller s = elim (Storage.get_admin h s) [
    | none ↦ err not_initialized
    | some admin ↦ if admin == caller then ok tt else err unauthorized
  ]

  -- The loops that count the IDs whose alert is stored, from `count` on.
  unfoldable pub count_live : ℕ → List ℕ → State h → ℕ
  count_live count [] s = count
  count_live count (id ∷ ids) s =
      count_live (if Storage.has_alert h id s then count + 1 else count) ids s

  unfoldable pub assert_per_owner_limit : Address → State h → Outcome ContractError (Unit {0})
  assert_per_owner_limit owner s =
      let limit = unwrap_or (Storage.get_limit h s) 0 in
      let count = count_live 0 (Storage.owner_index h owner s) s in
      if ltb 0 limit then reject_if (leb limit count) owner_alert_limit_exceeded else ok tt

  unfoldable pub remove_alert_record : AlertConfig → ℕ → Address → State h → State h
  remove_alert_record config config_id caller s =
      let s = Storage.remove_alert h config_id s in
      let s = Storage.remove_from_owner_index h config.owner config_id s in
      let s = Storage.remove_from_contract_index h config.target_contract config_id s in
      publish (Event.alert_remove config_id caller) s
