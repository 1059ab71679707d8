-- ===== src/AlertRegistry/Queries.antt =====
-- The queries of the alert registry, with the optional watcher gating
-- (contracts/alert-registry/src/lib.rs).
pub mod Pages
pub mod Sync
use stellar_txwatch_contract.Prelude.{
  ℕ, zero, suc, ◌+◌, ◌-◌, Bool, true, false, not, Option, none, some, List, [], ◌∷◌, ltb, leb,
  length, min, take, drop, keep_if, if◌then◌else◌,
}
use stellar_txwatch_contract.Soroban.{Host, Address, Outcome, ok, err, trap, ◌>>=◌, ◌>>◌, reject_if}
use stellar_txwatch_contract.Soroban.Access.{has, put}
use stellar_txwatch_contract.AlertRegistry.Types.{
  ContractError, AlertConfig, State, default_ttl, max_batch_size, not_a_watcher,
}
use stellar_txwatch_contract.AlertRegistry.Store.{
  saturating_add, owner_index, contract_index, live_ids, get_alert_count,
}

module _ {A : Type 0} where
  -- `for i in start..end { out.push_back(l.get(i).unwrap()) }`, for `end` within the list.
  abbrev pub slice : ℕ → ℕ → List A → List A
  slice start end l = take (end - start) (drop start l)

module _ (h : Host) where
  unfoldable pub configs_for_ids : List ℕ → State h → List AlertConfig
  configs_for_ids [] s = []
  configs_for_ids (id ∷ ids) s =
      let rest = configs_for_ids ids s in
      elim (h.get id s.alerts) [ none ↦ rest | some cfg ↦ cfg ∷ rest ]

  unfoldable pub active_configs_for_ids : List ℕ → State h → List AlertConfig
  active_configs_for_ids [] s = []
  active_configs_for_ids (id ∷ ids) s =
      let rest = active_configs_for_ids ids s in
      elim (h.get id s.alerts) [ none ↦ rest | some cfg ↦ if cfg.active then cfg ∷ rest else rest ]

  unfoldable pub configs_paginated : List ℕ → ℕ → ℕ → State h → List AlertConfig
  configs_paginated ids offset limit s =
      let effective_limit = min limit max_batch_size in
      let start = min offset (length ids) in
      let end = min (saturating_add offset effective_limit) (length ids) in
      configs_for_ids (slice start end ids) s

  unfoldable pub get_alert_ids_for_contract : Address → State h → List ℕ
  get_alert_ids_for_contract target_contract s = live_ids h (contract_index h target_contract s) s

  unfoldable pub get_alert_ids_by_owner : Address → State h → List ℕ
  get_alert_ids_by_owner owner s = live_ids h (owner_index h owner s) s

  unfoldable pub get_active_alerts_for_contract : Address → State h → List AlertConfig
  get_active_alerts_for_contract target_contract s =
      active_configs_for_ids (contract_index h target_contract s) s

  unfoldable pub get_active_alerts_paginated : Address → ℕ → ℕ → State h → List AlertConfig
  get_active_alerts_paginated target_contract offset limit s =
      let active = active_configs_for_ids (contract_index h target_contract s) s in
      let effective_limit = min limit max_batch_size in
      let start = min offset (length active) in
      let end = min (saturating_add offset effective_limit) (length active) in
      slice start end active

  -- A read renews the alert that it finds (#250).
  unfoldable pub get_alert : ℕ → State h → Option AlertConfig × State h
  get_alert config_id s = elim (h.get config_id s.alerts) [
    | none ↦ (none, s)
    | some cfg ↦
        (some cfg, record s { alerts = h.extended config_id default_ttl default_ttl s.alerts })
  ]

  unfoldable pub get_alert_active : ℕ → State h → Option Bool
  get_alert_active config_id s = h.get config_id s.alert_actives

  -- `for id in 0..total`, as the IDs from `id` on, `n` of them.
  unfoldable pub modified_loop : ℕ → ℕ → ℕ → State h → List AlertConfig
  modified_loop since id zero s = []
  modified_loop since id (suc n) s =
      let rest = modified_loop since (id + 1) n s in
      elim (h.get id s.alerts) [
        | none ↦ rest
        | some cfg ↦ if leb since cfg.updated_at then cfg ∷ rest else rest
      ]

  unfoldable pub get_alerts_modified_since : ℕ → State h → List AlertConfig
  get_alerts_modified_since since s = modified_loop since 0 (get_alert_count h s) s

  -- The loop of `get_alerts_updated_since`, with its variables `skipped` and `out.len()`.
  unfoldable pub updated_loop : ℕ → ℕ → ℕ → List ℕ → ℕ → ℕ → State h → List AlertConfig
  updated_loop since offset limit [] skipped out_len s = []
  updated_loop since offset limit (id ∷ ids) skipped out_len s =
      let skip = updated_loop since offset limit ids (skipped + 1) out_len s in
      let push = updated_loop since offset limit ids skipped (out_len + 1) s in
      let next = updated_loop since offset limit ids skipped out_len s in
      if leb limit out_len then [] else elim (h.get id s.alerts) [
        | none ↦ next
        | some cfg ↦
            if leb since cfg.updated_at
            then if ltb skipped offset then skip else cfg ∷ push
            else next
      ]

  unfoldable pub get_alerts_updated_since : Address → ℕ → ℕ → ℕ → State h → List AlertConfig
  get_alerts_updated_since target_contract since offset limit s =
      updated_loop since offset limit (contract_index h target_contract s) 0 0 s

  unfoldable pub get_active_alert_count : Address → State h → ℕ
  get_active_alert_count owner s = length (live_ids h (owner_index h owner s) s)

-- `client.is_watcher_authorized(querier)` is a call of another contract: the registry's address,
-- the querier, and the answer, or nothing if that call fails.
abbrev pub WatcherClient : Type 0
WatcherClient = Address → Address → Option Bool

module _ (h : Host) (client : WatcherClient) where
  unfoldable pub assert_watcher_if_configured : Address → State h → Outcome ContractError (Unit {0})
  assert_watcher_if_configured querier s = elim (h.get 0 s.watchreg) [
    | none ↦ ok tt
    | some registry_addr ↦ elim (client registry_addr querier) [
      | none ↦ trap
      | some authorized ↦ reject_if (not authorized) not_a_watcher
    ]
  ]

  unfoldable pub get_alerts_for_contract :
      Address → Address → State h → Outcome ContractError (List AlertConfig)
  get_alerts_for_contract querier target_contract s = do
    assert_watcher_if_configured querier s
    ok (configs_for_ids h (contract_index h target_contract s) s)

  unfoldable pub get_alerts_by_owner :
      Address → Address → State h → Outcome ContractError (List AlertConfig)
  get_alerts_by_owner querier owner s = do
    assert_watcher_if_configured querier s
    ok (configs_for_ids h (owner_index h owner s) s)

  unfoldable pub get_contract_alerts_paginated :
      Address → Address → ℕ → ℕ → State h → Outcome ContractError (List AlertConfig)
  get_contract_alerts_paginated querier target_contract offset limit s = do
    assert_watcher_if_configured querier s
    ok (configs_paginated h (contract_index h target_contract s) offset limit s)

  unfoldable pub get_alerts_by_owner_paginated :
      Address → Address → ℕ → ℕ → State h → Outcome ContractError (List AlertConfig)
  get_alerts_by_owner_paginated querier owner offset limit s = do
    assert_watcher_if_configured querier s
    ok (configs_paginated h (owner_index h owner s) offset limit s)
