-- ===== src/WatcherRegistry/Tests.antt =====
-- The watcher registry at concrete inputs.
mod Histories
use stellar_txwatch_contract.Prelude.{
  ℕ, ◌≡◌, refl, ◌≢◌, true, false, none, some, [], ◌∷◌, contains, arith, keep_if, distinct,
}
use stellar_txwatch_contract.Soroban.{Env, Address, Ensures, ◌>>=◌}
use stellar_txwatch_contract.Soroban.MapHost.{map_host, no_entries}
use stellar_txwatch_contract.WatcherRegistry.Types.{State, Event}
use stellar_txwatch_contract.WatcherRegistry.Store.{
  map_remove, load_expiries, load_watchers, get_watcher_count, assert_admin, load_admins,
  assert_not_paused, is_paused, decrement_watcher_count, increment_watcher_count, map_set,
  save_watchers, set_expiry, extend_instance_ttl,
}
use stellar_txwatch_contract.WatcherRegistry.Admins.{privileged}
use stellar_txwatch_contract.WatcherRegistry.Watchers.{
  register_watcher, remove_watcher, replace_watcher, batch_register_watchers, renew_watcher,
  clear_all_watchers,
}
use stellar_txwatch_contract.WatcherRegistry.Queries.{is_authorized_at}
use stellar_txwatch_contract.WatcherRegistry.Revocation.{remove_watcher_revokes}
use stellar_txwatch_contract.WatcherRegistry.Registration.{Enrolled, register_watcher-Enrolled}
use stellar_txwatch_contract.WatcherRegistry.Counting.{IsCounted, watcher_calls-IsCounted}

-- The admin 9 has registered the watchers 1 and 2.
abbrev pub staffed : State map_host
staffed = record {
  admins = map_host.set 0 (9 ∷ []) no_entries;
  watchers = map_host.set 0 (1 ∷ 2 ∷ []) no_entries;
  paused = no_entries;
  expiries = no_entries;
  count = map_host.set 0 2 no_entries;
  infos = no_entries;
  instance_ttl = 0;
  events = [];
}

abbrev pub signed_by_all : Env
signed_by_all = record { authorized = λ a. true; timestamp = 5 }

abbrev after_removal : State map_host
after_removal = record staffed {
  watchers = map_host.set 0 (2 ∷ []) staffed.watchers;
  expiries = map_host.set 0 [] staffed.expiries;
  count = map_host.set 0 1 staffed.count;
  instance_ttl = 518400;
  events = Event.watcher_remove 1 ∷ [];
}

remove_watcher_revokes_example :
    (contains (load_watchers map_host staffed) 1 ≡ true)
    × ((now : ℕ) → is_authorized_at map_host now 1 after_removal ≡ false)
    × ((now : ℕ) (w : Address)
        → w ≢ 1
        → is_authorized_at map_host now w after_removal ≡ is_authorized_at map_host now w staffed)
unfolding map_remove load_expiries remove_watcher privileged assert_admin load_admins
    assert_not_paused is_paused load_watchers save_watchers set_expiry extend_instance_ttl
    decrement_watcher_count get_watcher_count ◌>>=◌ keep_if contains
remove_watcher_revokes_example = remove_watcher_revokes map_host signed_by_all 9 1 staffed refl

pub staffed-IsCounted : IsCounted map_host staffed
unfolding load_watchers get_watcher_count distinct contains
staffed-IsCounted = record { unique = refl; bound = omega arith; count = refl }

watcher_calls-IsCounted_example :
    Ensures (IsCounted map_host) (remove_watcher map_host signed_by_all 9 1 staffed)
    × Ensures (IsCounted map_host) (replace_watcher map_host signed_by_all 9 1 2 staffed)
    × Ensures
        (λ r. IsCounted map_host r.1)
        (batch_register_watchers map_host signed_by_all 9 (3 ∷ 1 ∷ 3 ∷ []) staffed)
    × Ensures (IsCounted map_host) (renew_watcher map_host signed_by_all 9 1 (some 7) staffed)
    × Ensures (IsCounted map_host) (clear_all_watchers map_host signed_by_all 9 staffed)
watcher_calls-IsCounted_example =
    watcher_calls-IsCounted map_host signed_by_all 9 staffed staffed-IsCounted 1 2 (some 7)
      (3 ∷ 1 ∷ 3 ∷ [])

-- The watcher 2, who is listed, is registered again, until 7.
abbrev enrolled_twice : State map_host
enrolled_twice = record staffed {
  watchers = map_host.set 0 (1 ∷ 2 ∷ 2 ∷ []) staffed.watchers;
  expiries = map_host.set 0 ((2, 7) ∷ []) staffed.expiries;
  count = map_host.set 0 3 staffed.count;
  instance_ttl = 518400;
  events = Event.watcher_register 2 ∷ [];
}

register_watcher-Enrolled_example : Enrolled map_host 2 (some 7) staffed enrolled_twice
unfolding map_remove map_set load_expiries register_watcher privileged assert_admin load_admins
    assert_not_paused is_paused load_watchers save_watchers set_expiry extend_instance_ttl
    increment_watcher_count get_watcher_count ◌>>=◌ keep_if contains
register_watcher-Enrolled_example =
    register_watcher-Enrolled map_host signed_by_all 64 none 9 2 (some 7) staffed refl refl
