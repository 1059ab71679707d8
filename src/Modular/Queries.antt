-- ===== src/Modular/Queries.antt =====
-- The entry points of the second implementation that only read
-- (contracts/alert-registry/src/contract.rs).
use stellar_txwatch_contract.Prelude.{ℕ, Bool, false, Option, List, unwrap_or}
use stellar_txwatch_contract.Soroban.{Host, Address, Outcome, ok_or}
use stellar_txwatch_contract.Modular.Types.{ContractError, AlertConfig, State, not_initialized}
use stellar_txwatch_contract.Modular.Storage
use stellar_txwatch_contract.Modular.Checks.{count_live}

module _ (h : Host) where
  unfoldable pub get_alert : ℕ → State h → Option AlertConfig
  get_alert config_id s = Storage.get_alert h config_id s

  unfoldable pub get_admin : State h → Outcome ContractError Address
  get_admin s = ok_or (Storage.get_admin h s) not_initialized

  unfoldable pub get_per_owner_alert_limit : State h → Option ℕ
  get_per_owner_alert_limit s = Storage.get_limit h s

  unfoldable pub get_alerts_for_contract : Address → State h → List AlertConfig
  get_alerts_for_contract target_contract s =
      Storage.configs_for_ids h (Storage.contract_index h target_contract s) s

  unfoldable pub get_alerts_by_owner : Address → State h → List AlertConfig
  get_alerts_by_owner owner s = Storage.configs_for_ids h (Storage.owner_index h owner s) s

  unfoldable pub get_contract_alerts_paginated :
      Address → ℕ → ℕ → State h → Outcome ContractError (List AlertConfig)
  get_contract_alerts_paginated target_contract offset limit s =
      Storage.configs_paginated h (Storage.contract_index h target_contract s) offset limit s

  unfoldable pub get_alerts_by_owner_paginated :
      Address → ℕ → ℕ → State h → Outcome ContractError (List AlertConfig)
  get_alerts_by_owner_paginated owner offset limit s =
      Storage.configs_paginated h (Storage.owner_index h owner s) offset limit s

  unfoldable pub get_alert_count : State h → ℕ
  get_alert_count s = unwrap_or (h.get 0 s.next_ids) 0

  unfoldable pub get_active_alert_count : Address → State h → ℕ
  get_active_alert_count owner s = count_live h 0 (Storage.owner_index h owner s) s

  unfoldable pub get_alert_count_for_contract : Address → State h → ℕ
  get_alert_count_for_contract target_contract s =
      count_live h 0 (Storage.contract_index h target_contract s) s

  -- The flag under the key `Paused`.
  unfoldable pub is_paused : State h → Bool
  is_paused s = unwrap_or (h.get 0 s.paused) false
