-- ===== src/AlertRegistry/Types.antt =====
-- Constants, errors, stored data, events and the state of the alert registry
-- (contracts/alert-registry/src/lib.rs).
use stellar_txwatch_contract.Prelude.{ℕ, Bool, Option, List}
use stellar_txwatch_contract.Soroban.{Host, Address, Bytes}

-- `DEFAULT_TTL`
abbrev pub default_ttl : ℕ
default_ttl = 120960

-- `MAX_TTL`
abbrev pub max_ttl : ℕ
max_ttl = 535680

-- `MAX_BATCH_SIZE`
abbrev pub max_batch_size : ℕ
max_batch_size = 50

-- `MAX_TAGS`
abbrev pub max_tags : ℕ
max_tags = 10

-- `MAX_TAG_BYTES`
abbrev pub max_tag_bytes : ℕ
max_tag_bytes = 32

pub data ContractError : Type 0 where
  unauthorized alert_not_found already_initialized not_initialized : ContractError
  not_a_watcher invalid_webhook_hash label_too_long too_many_rules : ContractError
  invalid_rule_descriptor owner_alert_limit_exceeded duplicate_alert_id : ContractError
  no_pending_webhook storage_error contract_paused batch_too_large limit_too_low : ContractError
  empty_rules duplicate_rule counter_overflow last_admin already_admin not_admin : ContractError
  too_many_tags tag_too_long : ContractError

pub record AlertConfig : Type 0 where
  pub label : Bytes
  pub webhook_hash : Bytes
  pub rules : List Bytes
  pub owner : Address
  pub target_contract : Address
  pub created_at : ℕ
  pub updated_at : ℕ
  pub active : Bool
  pub pending_webhook_hash : Option Bytes
  pub tags : Option (List Bytes)

pub record AlertInput : Type 0 where
  pub target_contract : Address
  pub label : Bytes
  pub webhook_hash : Bytes
  pub rules : List Bytes

-- What is stored under the key `ADMIN`: the set of admins, or the one address that earlier
-- versions stored.
pub data AdminEntry : Type 0 where
  admin_set : List Address → AdminEntry
  single_admin : Address → AdminEntry

-- The published events, by their topics, with their data.
pub data Event : Type 0 where
  admin_init admin_pause admin_unpause : Address → Event
  admin_transfer admin_add admin_remove : Address → Address → Event
  admin_limit : Address → ℕ → Event
  alert_register : ℕ → Address → Address → Event
  alert_update : ℕ → Address → Bool → Event
  alert_webhook alert_wh_prop alert_remove alert_tags : ℕ → Address → Event
  alert_remove_by_admin alert_transfer : ℕ → Address → Address → Event
  alert_bump : ℕ → ℕ → Event

-- The contract's storage, a store for each storage key. The first five are persistent and are the
-- variants of `DataKey`; the next five are the short symbols of the instance storage, entry 0 of
-- their stores; then the lifetime of the instance storage, and the published events, last first.
pub record State (h : Host) : Type 0 where
  pub alerts : h.Store AlertConfig
  pub alert_actives : h.Store Bool
  pub owner_indexes : h.Store (List ℕ)
  pub contract_indexes : h.Store (List ℕ)
  pub next_ids : h.Store ℕ
  pub admin : h.Store AdminEntry
  pub limit : h.Store ℕ
  pub paused : h.Store Bool
  pub watchreg : h.Store Address
  pub next_id : h.Store ℕ
  pub instance_ttl : ℕ
  pub events : List Event
