-- ===== src/WatcherRegistry/Types.antt =====
-- Constants, errors, stored data and the state of the watcher registry
-- (contracts/watcher-registry/src/lib.rs).
use stellar_txwatch_contract.Prelude.{ℕ, Bool, List, Option}
use stellar_txwatch_contract.Soroban.{Host, Address, Bytes}

-- `DEFAULT_TTL`
abbrev pub default_ttl : ℕ
default_ttl = 518400

-- `MAX_BATCH_SIZE`
abbrev pub max_batch_size : ℕ
max_batch_size = 20

-- `MAX_WATCHERS`
abbrev pub max_watchers : ℕ
max_watchers = 1000

-- The last two are used by the source but not declared in it.
pub data ContractError : Type 0 where
  already_initialized unauthorized not_initialized last_admin watcher_not_found : ContractError
  contract_paused batch_too_large watcher_limit_exceeded : ContractError
  multiple_admins_exist label_too_long : ContractError

-- What `replace_watcher` builds; the source does not declare the type.
pub record WatcherInfo : Type 0 where
  pub address : Address
  pub label : Bytes
  pub registered_at : ℕ
  pub registered_by : Address

-- The published events, by their topics, with their data.
pub data Event : Type 0 where
  admin_init admin_self_remove admin_pause admin_unpause : Address → Event
  admin_add admin_remove admin_transfer : Address → Address → Event
  watcher_register watcher_remove : Address → Event
  watcher_replace : Address → Address → Event
  watcher_renew : Address → Option ℕ → Event

-- The contract's storage: `Admins`, `Watchers`, `Paused`, `Expiries` and `W_CNT` of the instance
-- storage, entry 0 of their stores; `WatcherInfo` of the persistent storage; the lifetime of the
-- instance storage; the published events, last first. A `Map` is its list of entries.
pub record State (h : Host) : Type 0 where
  pub admins : h.Store (List Address)
  pub watchers : h.Store (List Address)
  pub paused : h.Store Bool
  pub expiries : h.Store (List (Address × ℕ))
  pub count : h.Store ℕ
  pub infos : h.Store WatcherInfo
  pub instance_ttl : ℕ
  pub events : List Event
