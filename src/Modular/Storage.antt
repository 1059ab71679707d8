-- ===== src/Modular/Storage.antt =====
-- The storage functions of the second implementation of the alert registry
-- (contracts/alert-registry/src/storage.rs).
use stellar_txwatch_contract.Prelude.{
  ℕ, ◌+◌, ◌-◌, min, Bool, true, false, Option, none, some, List, [], ◌∷◌, ◌++◌, leb, ◌==◌, not,
  length, unwrap_or, keep_if, contains, if◌then◌else◌,
}
use stellar_txwatch_contract.Soroban.{
  Host, Address, Outcome, ok, trap, ◌>>=◌, ◌>>◌, reject_if, ok_or,
}
use stellar_txwatch_contract.Soroban.Access.{has, put, load_list, extend}
use stellar_txwatch_contract.AlertRegistry.Types.{default_ttl}
use stellar_txwatch_contract.AlertRegistry.Store.{u32_max, checked_suc}
use stellar_txwatch_contract.AlertRegistry.Queries.{slice}
use stellar_txwatch_contract.Modular.Types.{
  ContractError, AlertConfig, State, rate_limit_count, rate_limit_window, counter_overflow,
  duplicate_alert_id, rate_limit_exceeded, contract_paused,
}

module _ (h : Host) where
  unfoldable pub next_id : State h → Outcome ContractError (ℕ × State h)
  next_id s = do
    let id = unwrap_or (h.get 0 s.next_ids) 0
    next ← ok_or (checked_suc id) counter_overflow
    ok (id, record s { next_ids = put h default_ttl 0 next s.next_ids })

  -- `if has(key) { extend_ttl(key, t, t) }`
  unfoldable pub extend_if_there :
      {V : Type 0} → ℕ → ℕ → h.Store V → Outcome ContractError (h.Store V)
  extend_if_there t k st = if has h k st then extend h t k st else ok st

  unfoldable pub extend_next_id_ttl : State h → Outcome ContractError (State h)
  extend_next_id_ttl s = do
    next_ids ← extend_if_there default_ttl 0 s.next_ids
    ok (record s { next_ids = next_ids })

  unfoldable pub get_alert : ℕ → State h → Option AlertConfig
  get_alert id s = h.get id s.alerts

  unfoldable pub set_alert : ℕ → AlertConfig → State h → State h
  set_alert id config s = record s { alerts = put h default_ttl id config s.alerts }

  unfoldable pub remove_alert : ℕ → State h → State h
  remove_alert id s = record s { alerts = h.remove id s.alerts }

  unfoldable pub has_alert : ℕ → State h → Bool
  has_alert id s = has h id s.alerts

  unfoldable pub extend_alert_ttl : ℕ → State h → Outcome ContractError (State h)
  extend_alert_ttl id s = do alerts ← extend h 100 id s.alerts; ok (record s { alerts = alerts })

  unfoldable pub owner_index : Address → State h → List ℕ
  owner_index owner s = load_list h owner s.owner_indexes

  unfoldable pub push_owner_index : Address → ℕ → State h → Outcome ContractError (State h)
  push_owner_index owner id s = do
    let ids = owner_index owner s
    reject_if (contains ids id) duplicate_alert_id
    ok (record s { owner_indexes = put h default_ttl owner (ids ++ id ∷ []) s.owner_indexes })

  unfoldable pub remove_from_owner_index : Address → ℕ → State h → State h
  remove_from_owner_index owner id s =
      let updated = keep_if (λ v. not (v == id)) (owner_index owner s) in
      record s { owner_indexes = put h default_ttl owner updated s.owner_indexes }

  unfoldable pub extend_owner_index_ttl : Address → State h → Outcome ContractError (State h)
  extend_owner_index_ttl owner s = do
    owner_indexes ← extend_if_there 100 owner s.owner_indexes
    ok (record s { owner_indexes = owner_indexes })

  unfoldable pub contract_index : Address → State h → List ℕ
  contract_index target s = load_list h target s.contract_indexes

  unfoldable pub push_contract_index : Address → ℕ → State h → Outcome ContractError (State h)
  push_contract_index target id s = do
    let ids = contract_index target s
    reject_if (contains ids id) duplicate_alert_id
    ok (record s {
      contract_indexes = put h default_ttl target (ids ++ id ∷ []) s.contract_indexes;
    })

  unfoldable pub remove_from_contract_index : Address → ℕ → State h → State h
  remove_from_contract_index target id s =
      let updated = keep_if (λ v. not (v == id)) (contract_index target s) in
      record s { contract_indexes = put h default_ttl target updated s.contract_indexes }

  unfoldable pub extend_contract_index_ttl : Address → State h → Outcome ContractError (State h)
  extend_contract_index_ttl target s = do
    contract_indexes ← extend_if_there 100 target s.contract_indexes
    ok (record s { contract_indexes = contract_indexes })

  -- The source reads a field `target` of the record, which it does not declare.
  unfoldable pub bulk_renew_one :
      (AlertConfig → Address) → ℕ → State h → Outcome ContractError (Bool × State h)
  bulk_renew_one target id s = elim (h.get id s.alerts) [
    | none ↦ ok (false, s)
    | some cfg ↦ do
      alerts ← extend h 100 id s.alerts
      s₁ ← extend_owner_index_ttl cfg.owner (record s { alerts = alerts })
      s₂ ← extend_contract_index_ttl (target cfg) s₁
      ok (true, s₂)
  ]

  unfoldable pub configs_for_ids : List ℕ → State h → List AlertConfig
  configs_for_ids [] s = []
  configs_for_ids (id ∷ ids) s =
      let rest = configs_for_ids ids s in
      elim (h.get id s.alerts) [ none ↦ rest | some cfg ↦ cfg ∷ rest ]

  -- The sum `offset + limit` is checked: beyond `u32::MAX` the call panics.
  unfoldable pub configs_paginated :
      List ℕ → ℕ → ℕ → State h → Outcome ContractError (List AlertConfig)
  configs_paginated ids offset limit s =
      let start = min offset (length ids) in
      let end = min (offset + limit) (length ids) in
      if leb (offset + limit) u32_max then ok (configs_for_ids (slice start end ids) s) else trap

  unfoldable pub get_admin : State h → Option Address
  get_admin s = h.get 0 s.admin

  unfoldable pub set_admin : Address → State h → State h
  set_admin admin s = record s { admin = h.set 0 admin s.admin }

  unfoldable pub has_admin : State h → Bool
  has_admin s = has h 0 s.admin

  unfoldable pub get_limit : State h → Option ℕ
  get_limit s = h.get 0 s.limit

  unfoldable pub set_limit : ℕ → State h → State h
  set_limit limit s = record s { limit = h.set 0 limit s.limit }

  -- The flag under the symbol `PAUSED`.
  unfoldable pub is_paused : State h → Bool
  is_paused s = unwrap_or (h.get 0 s.paused_symbol) false

  unfoldable pub set_paused : Bool → State h → State h
  set_paused paused s = record s { paused_symbol = h.set 0 paused s.paused_symbol }

  -- `now` is the sequence number of the ledger.
  unfoldable pub check_rate_limit : ℕ → Address → State h → Outcome ContractError (State h)
  check_rate_limit now owner s = do
    reject_if (is_paused s) contract_paused
    let (window_start, count) = unwrap_or (h.get owner s.rate_limits) (now, 0)
    let set = λ (w : ℕ × ℕ). record s { rate_limits = put h default_ttl owner w s.rate_limits }
    if leb rate_limit_window (now - window_start) then ok (set (now, 1)) else (do
      reject_if (leb rate_limit_count count) rate_limit_exceeded
      ok (set (window_start, count + 1)))
