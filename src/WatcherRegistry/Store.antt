-- ===== src/WatcherRegistry/Store.antt =====
-- The internal helpers of the watcher registry (contracts/watcher-registry/src/lib.rs).
use stellar_txwatch_contract.Prelude.{
  ℕ, ◌+◌, ◌-◌, Bool, false, Option, none, some, List, [], ◌∷◌, ltb, ◌==◌, not, unwrap_or, keep_if,
  contains, if◌then◌else◌,
}
use stellar_txwatch_contract.Soroban.{Host, Address, Outcome, ok, trap, ◌>>◌, reject_if}
use stellar_txwatch_contract.Soroban.Access.{has, put, load_list}
use stellar_txwatch_contract.WatcherRegistry.Types.{
  ContractError, State, Event, WatcherInfo, default_ttl, not_initialized, unauthorized,
  contract_paused,
}

-- `Map::get`, `Map::remove` and `Map::set`.
unfoldable pub map_get : Address → List (Address × ℕ) → Option ℕ
map_get a [] = none
map_get a ((b, e) ∷ m) = let rest = map_get a m in if b == a then some e else rest

unfoldable pub map_remove : Address → List (Address × ℕ) → List (Address × ℕ)
map_remove a m = keep_if (λ p. not (p.0 == a)) m

unfoldable pub map_set : Address → ℕ → List (Address × ℕ) → List (Address × ℕ)
map_set a e m = (a, e) ∷ map_remove a m

module _ (h : Host) where
  -- `env.events().publish(e)`
  abbrev pub publish : Event → State h → State h
  publish e s = record s { events = e ∷ s.events }

  unfoldable pub extend_instance_ttl : State h → State h
  extend_instance_ttl s = record s {
    instance_ttl = if ltb s.instance_ttl default_ttl then default_ttl else s.instance_ttl;
  }

  unfoldable pub save_info : WatcherInfo → State h → State h
  save_info info s = record s { infos = put h default_ttl info.address info s.infos }

  unfoldable pub get_watcher_count : State h → ℕ
  get_watcher_count s = unwrap_or (h.get 0 s.count) 0

  -- `count + 1` traps at `u32::MAX`.
  unfoldable pub increment_watcher_count : State h → Outcome ContractError (State h)
  increment_watcher_count s =
      if ltb (get_watcher_count s) 4294967295
      then ok (record s { count = h.set 0 (get_watcher_count s + 1) s.count })
      else trap

  unfoldable pub decrement_watcher_count : State h → State h
  decrement_watcher_count s =
      if ltb 0 (get_watcher_count s)
      then record s { count = h.set 0 (get_watcher_count s - 1) s.count }
      else s

  unfoldable pub is_paused : State h → Bool
  is_paused s = unwrap_or (h.get 0 s.paused) false

  unfoldable pub assert_not_paused : State h → Outcome ContractError (Unit {0})
  assert_not_paused s = do reject_if (is_paused s) contract_paused; ok tt

  unfoldable pub load_expiries : State h → List (Address × ℕ)
  load_expiries s = load_list h 0 s.expiries

  unfoldable pub set_expiry : Address → Option ℕ → State h → State h
  set_expiry watcher (some exp) s = record s {
    expiries = h.set 0 (map_set watcher exp (load_expiries s)) s.expiries;
  }
  set_expiry watcher none s = record s {
    expiries = h.set 0 (map_remove watcher (load_expiries s)) s.expiries;
  }

  unfoldable pub load_watchers : State h → List Address
  load_watchers s = load_list h 0 s.watchers

  unfoldable pub save_watchers : List Address → State h → State h
  save_watchers watchers s = record s { watchers = h.set 0 watchers s.watchers }

  unfoldable pub load_admins : State h → List Address
  load_admins s = load_list h 0 s.admins

  unfoldable pub save_admins : List Address → State h → State h
  save_admins admins s = record s { admins = h.set 0 admins s.admins }

  unfoldable pub assert_admin : Address → State h → Outcome ContractError (Unit {0})
  assert_admin caller s = do
    reject_if (not (has h 0 s.admins)) not_initialized
    reject_if (not (contains (load_admins s) caller)) unauthorized
