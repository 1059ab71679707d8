-- ===== src/AlertRegistry/Tests/Queries.antt =====
-- The queries of the alert registry at concrete inputs.
use stellar_txwatch_contract.Prelude.{
  ℕ, ◌≡◌, ◌↔◌, true, some, [], ◌∷◌, arith, length, take, drop, contains, distinct, keep_if, ◌≤◌,
}
use stellar_txwatch_contract.Soroban.MapHost.{map_host}
use stellar_txwatch_contract.AlertRegistry.Types.{AlertConfig, max_batch_size}
use stellar_txwatch_contract.AlertRegistry.Queries.{
  configs_for_ids, configs_paginated, get_alert_ids_for_contract, get_alert_ids_by_owner,
  get_alerts_modified_since, get_alerts_updated_since,
}
use stellar_txwatch_contract.AlertRegistry.Lookup.{
  get_alert_ids_for_contract_iff, get_alert_ids_by_owner_iff,
}
use stellar_txwatch_contract.AlertRegistry.Queries.Pages.{
  pages, pages-configs_for_ids, length-configs_paginated-le,
}
use stellar_txwatch_contract.AlertRegistry.Queries.Sync.{
  is_recent, In, get_alerts_updated_since_lem, get_alerts_modified_since_iff,
}
use stellar_txwatch_contract.AlertRegistry.Tests.{registered, registered-IsValid, watched}

get_alert_ids_for_contract_iff_example :
    (distinct (get_alert_ids_for_contract map_host 7 registered) ≡ true)
    × ((id : ℕ)
        → (contains (get_alert_ids_for_contract map_host 7 registered) id ≡ true) ↔ (
            (c : AlertConfig) × (map_host.get id registered.alerts ≡ some c)
            × (c.target_contract ≡ 7)))
get_alert_ids_for_contract_iff_example =
    get_alert_ids_for_contract_iff map_host registered 7 registered-IsValid

get_alert_ids_by_owner_iff_example :
    (distinct (get_alert_ids_by_owner map_host 1 registered) ≡ true)
    × ((id : ℕ)
        → (contains (get_alert_ids_by_owner map_host 1 registered) id ≡ true)
          ↔ ((c : AlertConfig) × (map_host.get id registered.alerts ≡ some c) × (c.owner ≡ 1)))
get_alert_ids_by_owner_iff_example =
    get_alert_ids_by_owner_iff map_host registered 1 registered-IsValid

pages-configs_for_ids_example :
    pages map_host registered (0 ∷ 3 ∷ 1 ∷ []) 2 2
    ≡ configs_for_ids map_host (0 ∷ 3 ∷ 1 ∷ []) registered
pages-configs_for_ids_example =
    pages-configs_for_ids map_host registered (0 ∷ 3 ∷ 1 ∷ []) 2 2 (omega arith) (omega arith)
      (omega arith)

length-configs_paginated-le_example :
    length (configs_paginated map_host (0 ∷ 1 ∷ []) 0 99 registered) ≤ max_batch_size
length-configs_paginated-le_example =
    length-configs_paginated-le map_host registered (0 ∷ 1 ∷ []) 0 99 (omega arith)

get_alerts_updated_since_example :
    (distinct (get_alert_ids_for_contract map_host 7 registered) ≡ true)
    × ((id : ℕ)
        → (contains (get_alert_ids_for_contract map_host 7 registered) id ≡ true) ↔ (
            (c : AlertConfig) × (map_host.get id registered.alerts ≡ some c)
            × (c.target_contract ≡ 7)))
    × (get_alerts_updated_since map_host 7 5 0 10 registered
        ≡ take 10 (
            drop 0 (
              keep_if (is_recent 5) (
                configs_for_ids map_host
                  (get_alert_ids_for_contract map_host 7 registered)
                  registered))))
get_alerts_updated_since_example =
    get_alerts_updated_since_lem map_host registered 7 5 0 10 registered-IsValid

get_alerts_modified_since_iff_example :
    In map_host registered watched (get_alerts_modified_since map_host 5 registered)
    ↔ ((id : ℕ) × (map_host.get id registered.alerts ≡ some watched) × (5 ≤ watched.updated_at))
get_alerts_modified_since_iff_example =
    get_alerts_modified_since_iff map_host registered 5 watched registered-IsValid
