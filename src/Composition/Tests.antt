-- ===== src/Composition/Tests.antt =====
-- The two registries together, at concrete inputs.
use stellar_txwatch_contract.Prelude.{refl, ◌≢◌, true, false, [], ◌∷◌, List, contains, keep_if}
use stellar_txwatch_contract.Soroban.{Env, Address, ◌>>=◌}
use stellar_txwatch_contract.Soroban.MapHost.{map_host, no_entries}
use stellar_txwatch_contract.AlertRegistry.Types as AlertTypes
use stellar_txwatch_contract.WatcherRegistry.Types as WatcherTypes
use stellar_txwatch_contract.WatcherRegistry.Calls.{Call, Tick, run}
use stellar_txwatch_contract.WatcherRegistry.Spec.{view, allows, perform_all}
use stellar_txwatch_contract.WatcherRegistry.Spec.Refinement.{IsFresh}
use stellar_txwatch_contract.WatcherRegistry.Queries.{is_authorized_at}
use stellar_txwatch_contract.WatcherRegistry.Watchers.{remove_watcher}
use stellar_txwatch_contract.WatcherRegistry.Admins.{privileged}
use stellar_txwatch_contract.WatcherRegistry.Store.{
  map_remove, load_expiries, load_watchers, get_watcher_count, assert_admin, load_admins,
  assert_not_paused, is_paused, decrement_watcher_count, save_watchers, set_expiry,
  extend_instance_ttl,
}
use stellar_txwatch_contract.Composition.{
  Answered, deployed_at, gated_queries-allows, removed_watcher-Answered,
}

abbrev signed : Env
signed = record { authorized = λ a. true; timestamp = 5 }

-- An alert registry that asks the contract at 20.
abbrev asking : AlertTypes.State map_host
asking = record {
  alerts = no_entries;
  alert_actives = no_entries;
  owner_indexes = no_entries;
  contract_indexes = no_entries;
  next_ids = no_entries;
  admin = no_entries;
  limit = no_entries;
  paused = no_entries;
  watchreg = map_host.set 0 20 no_entries;
  next_id = no_entries;
  instance_ttl = 0;
  events = [];
}

abbrev unstaffed : WatcherTypes.State map_host
unstaffed = record {
  admins = no_entries;
  watchers = no_entries;
  paused = no_entries;
  expiries = no_entries;
  count = no_entries;
  infos = no_entries;
  instance_ttl = 0;
  events = [];
}

unstaffed-IsFresh : IsFresh map_host unstaffed
unstaffed-IsFresh = record { no_watchers = refl; no_expiries = refl; no_count = refl }

abbrev hiring : List Tick
hiring = (signed, Call.initialize 9) ∷ (signed, Call.batch_register_watchers 9 (1 ∷ 2 ∷ [])) ∷ []

gated_queries-allows_example :
    Answered map_host signed 7 0 10 asking
      (deployed_at map_host signed 20 (run map_host hiring unstaffed))
      1
      (allows 5 1 (perform_all hiring (view map_host unstaffed)).roster)
gated_queries-allows_example =
    gated_queries-allows map_host signed 7 0 10 asking 20 refl hiring unstaffed 1 unstaffed-IsFresh

-- The admin 9 has registered the watchers 1 and 2.
abbrev hired : WatcherTypes.State map_host
hired = record unstaffed {
  admins = map_host.set 0 (9 ∷ []) no_entries;
  watchers = map_host.set 0 (1 ∷ 2 ∷ []) no_entries;
  count = map_host.set 0 2 no_entries;
}

abbrev dismissed : WatcherTypes.State map_host
dismissed = record hired {
  watchers = map_host.set 0 (2 ∷ []) hired.watchers;
  expiries = map_host.set 0 [] hired.expiries;
  count = map_host.set 0 1 hired.count;
  instance_ttl = 518400;
  events = WatcherTypes.Event.watcher_remove 1 ∷ [];
}

removed_watcher-Answered_example :
    Answered map_host signed 7 0 10 asking (deployed_at map_host signed 20 dismissed) 1 false
    × ((other : Address)
        → other ≢ 1
        → Answered map_host signed 7 0 10 asking
            (deployed_at map_host signed 20 hired)
            other
            (is_authorized_at map_host 5 other hired)
          × Answered map_host signed 7 0 10 asking
              (deployed_at map_host signed 20 dismissed)
              other
              (is_authorized_at map_host 5 other hired))
unfolding map_remove load_expiries remove_watcher privileged assert_admin load_admins
    assert_not_paused is_paused load_watchers save_watchers set_expiry extend_instance_ttl
    decrement_watcher_count get_watcher_count ◌>>=◌ keep_if contains
removed_watcher-Answered_example =
    removed_watcher-Answered map_host signed 7 0 10 asking 20 refl signed 9 1 hired refl
