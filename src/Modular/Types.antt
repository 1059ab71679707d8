-- ===== src/Modular/Types.antt =====
-- Constants, errors, stored data, events and the state of the second implementation of the alert
-- registry (contracts/alert-registry/src/types.rs).
use stellar_txwatch_contract.Prelude.{ℕ, Bool, Option, List}
use stellar_txwatch_contract.Soroban.{Host, Address, Bytes}

-- `MAX_BATCH_SIZE`
abbrev pub max_batch_size : ℕ
max_batch_size = 20

-- `RATE_LIMIT_COUNT`
abbrev pub rate_limit_count : ℕ
rate_limit_count = 10

-- `RATE_LIMIT_WINDOW`, in ledgers
abbrev pub rate_limit_window : ℕ
rate_limit_window = 100

pub data ContractError : Type 0 where
  unauthorized alert_not_found already_initialized not_initialized : ContractError
  no_pending_webhook label_too_long too_many_rules invalid_rule_descriptor : ContractError
  owner_alert_limit_exceeded duplicate_alert_id rate_limit_exceeded : ContractError
  counter_overflow contract_paused : ContractError

pub record AlertConfig : Type 0 where
  pub label : Bytes
  pub webhook_hash : Bytes
  pub rules : List Bytes
  pub owner : Address
  pub target_contract : Address
  pub created_at : ℕ
  pub updated_at : ℕ
  pub active : Bool
  pub pending_webhook_hash : Option Bytes

-- The published events, by their topics, with their data.
pub data Event : Type 0 where
  admin_pause admin_unpause : Address → Event
  alert_register : ℕ → Address → Address → Event
  alert_update : ℕ → Address → Bool → Event
  alert_wh_prop alert_wh_conf alert_remove : ℕ → Address → Event
  alert_bump : ℕ → Event

-- A store for each variant of `DataKey`, and for each symbol that is a key of the instance storage:
-- `ADMIN`, `LIMIT` and `PAUSED`, which is not the key `Paused`.
pub record State (h : Host) : Type 0 where
  pub alerts : h.Store AlertConfig
  pub owner_indexes : h.Store (List ℕ)
  pub contract_indexes : h.Store (List ℕ)
  pub next_ids : h.Store ℕ
  -- The start of the window and the registrations in it.
  pub rate_limits : h.Store (ℕ × ℕ)
  pub paused : h.Store Bool
  pub paused_symbol : h.Store Bool
  pub admin : h.Store Address
  pub limit : h.Store ℕ
  pub events : List Event
