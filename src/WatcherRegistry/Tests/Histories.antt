-- ===== src/WatcherRegistry/Tests/Histories.antt =====
-- Calls and histories of the watcher registry beside their descriptions, at concrete inputs.
use stellar_txwatch_contract.Prelude.{ℕ, ◌≡◌, refl, some, [], ◌∷◌, List}
use stellar_txwatch_contract.Soroban.{Address}
use stellar_txwatch_contract.Soroban.MapHost.{map_host, no_entries}
use stellar_txwatch_contract.Soroban.Matching.{on_ok}
use stellar_txwatch_contract.WatcherRegistry.Types.{State}
use stellar_txwatch_contract.WatcherRegistry.Queries.{is_authorized_at}
use stellar_txwatch_contract.WatcherRegistry.Calls.{Call, Tick, execute, run}
use stellar_txwatch_contract.WatcherRegistry.Spec.{view, allows, perform, perform_all}
use stellar_txwatch_contract.WatcherRegistry.Spec.Consistent.{IsConsistent}
use stellar_txwatch_contract.WatcherRegistry.Spec.Refinement.{
  IsFresh, execute-perform_roster, run-perform_all_roster,
}
use stellar_txwatch_contract.WatcherRegistry.AdminSet.{IsManaged, run-IsManaged}
use stellar_txwatch_contract.WatcherRegistry.Tests.{staffed, staffed-IsCounted, signed_by_all}
use stellar_txwatch_contract.WatcherRegistry.Store.{load_expiries, map_get}

staffed-IsConsistent : IsConsistent map_host staffed
unfolding load_expiries map_get
staffed-IsConsistent = record { counted = staffed-IsCounted; fresh = λ a out. refl }

execute-perform_roster_example :
    on_ok (view map_host) (execute map_host signed_by_all (Call.replace_watcher 9 1 4) staffed)
    ≡ perform signed_by_all (Call.replace_watcher 9 1 4) (view map_host staffed)
execute-perform_roster_example =
    execute-perform_roster map_host signed_by_all (Call.replace_watcher 9 1 4) staffed
      staffed-IsConsistent

abbrev empty : State map_host
empty = record {
  admins = no_entries;
  watchers = no_entries;
  paused = no_entries;
  expiries = no_entries;
  count = no_entries;
  infos = no_entries;
  instance_ttl = 0;
  events = [];
}

empty-IsFresh : IsFresh map_host empty
empty-IsFresh = record { no_watchers = refl; no_expiries = refl; no_count = refl }

-- The address 9 becomes admin, registers 1 and 2, lets 2 in until 7, and removes 1.
abbrev staffing : List Tick
staffing =
    (signed_by_all, Call.initialize 9)
    ∷ (signed_by_all, Call.batch_register_watchers 9 (1 ∷ 2 ∷ []))
    ∷ (signed_by_all, Call.renew_watcher 9 2 (some 7))
    ∷ (signed_by_all, Call.remove_watcher 9 1)
    ∷ []

run-perform_all_roster_example :
    (view map_host (run map_host staffing empty) ≡ perform_all staffing (view map_host empty))
    × ((now : ℕ) (a : Address)
        → is_authorized_at map_host now a (run map_host staffing empty)
          ≡ allows now a (perform_all staffing (view map_host empty)).roster)
run-perform_all_roster_example = run-perform_all_roster map_host staffing empty empty-IsFresh

run-IsManaged_example : IsManaged map_host (run map_host staffing empty)
run-IsManaged_example = run-IsManaged map_host staffing empty empty-IsFresh refl
