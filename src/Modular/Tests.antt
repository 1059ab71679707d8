-- ===== src/Modular/Tests.antt =====
-- The second implementation at concrete inputs.
use stellar_txwatch_contract.Prelude.{
  ℕ, ◌+◌, ◌≡◌, refl, ◌≢◌, ◌⊎◌, ◌≤◌, min, inl, true, none, some, List, [], ◌∷◌, ◌++◌, arith, length,
  ◌==◌, take, drop, ltb, leb, if◌then◌else◌, contains,
}
use stellar_txwatch_contract.Soroban.{Env, ok, err, trap, ◌>>=◌}
use stellar_txwatch_contract.Soroban.MapHost.{map_host, no_entries}
use stellar_txwatch_contract.Soroban.Access.{put}
use stellar_txwatch_contract.AlertRegistry.Validate.{bytes_eq, rule_mint, rule_transfer}
use stellar_txwatch_contract.AlertRegistry.Store.{u32_max}
use stellar_txwatch_contract.Modular.Types.{
  State, AlertConfig, contract_paused, rate_limit_count, max_batch_size,
}
use stellar_txwatch_contract.Modular.Storage
use stellar_txwatch_contract.Modular.Checks.{
  assert_not_paused, assert_admin, assert_per_owner_limit, count_live, validate_label,
  validate_rules, validate_rules_loop,
}
use stellar_txwatch_contract.Modular.Contract.{
  register_alert, store_new, new_config, initialize, set_per_owner_alert_limit, set_paused,
  bulk_renew_ttl,
}
use stellar_txwatch_contract.Modular.Queries.{get_alert_count, get_active_alert_count, is_paused}
use stellar_txwatch_contract.Modular.Calls.{Call, Tick, execute, commit, advance, run}
use stellar_txwatch_contract.Modular.Invariant.{IsValid}
use stellar_txwatch_contract.Modular.Reachable.{IsFresh, run_fresh-IsValid}
use stellar_txwatch_contract.Modular.Renewal.{SameData, live_ids, bulk_renew_ttl_succeeds}
use stellar_txwatch_contract.Modular.RateLimit.{admitted, admitted_lem}
use stellar_txwatch_contract.Modular.Reads.{configs_paginated_lem}
use stellar_txwatch_contract.Modular.Registration.{register_alert_stored, limit_of}
use stellar_txwatch_contract.Modular.Pausing.{set_paused_stops, pausable_by}

-- The definitions that the examples run.
program : Unit {0}
unfolding run advance commit execute initialize set_per_owner_alert_limit register_alert store_new
    new_config assert_not_paused assert_admin assert_per_owner_limit count_live validate_label
    validate_rules validate_rules_loop bytes_eq rule_mint rule_transfer put contains Storage.next_id
    Storage.set_alert Storage.has_alert Storage.owner_index Storage.push_owner_index
    Storage.contract_index Storage.push_contract_index Storage.get_admin Storage.set_admin
    Storage.has_admin Storage.get_limit Storage.set_limit Storage.is_paused ◌>>=◌
program = tt

abbrev deployed : State map_host
deployed = record {
  alerts = no_entries;
  owner_indexes = no_entries;
  contract_indexes = no_entries;
  next_ids = no_entries;
  rate_limits = no_entries;
  paused = no_entries;
  paused_symbol = no_entries;
  admin = no_entries;
  limit = no_entries;
  events = [];
}

deployed-IsFresh : IsFresh map_host deployed
deployed-IsFresh = record {
  no_alert = λ id. refl;
  no_owner_index = λ a. refl;
  no_contract_index = λ a. refl;
}

-- Every address has signed, at time 5.
abbrev env : Env
env = record { authorized = λ a. true; timestamp = 5 }

-- The address 9 becomes admin and sets a limit of two; the address 1 registers an alert on 7.
abbrev story : List Tick
story =
    Tick.call env (Call.initialize 9)
    ∷ Tick.call env (Call.set_per_owner_alert_limit 9 2)
    ∷ Tick.call env (Call.register_alert 1 7 [] [] (rule_mint ∷ []))
    ∷ []

abbrev registered : State map_host
registered = run map_host story deployed

run_fresh-IsValid_example : IsValid map_host (run map_host (story ++ Tick.expire 0 ∷ []) deployed)
run_fresh-IsValid_example =
    run_fresh-IsValid map_host (story ++ Tick.expire 0 ∷ []) deployed deployed-IsFresh

registered-IsValid : IsValid map_host registered
registered-IsValid = run_fresh-IsValid map_host story deployed deployed-IsFresh

abbrev registered_again : State map_host
registered_again =
    run map_host (Tick.call env (Call.register_alert 1 8 [] [] (rule_transfer ∷ [])) ∷ [])
      registered

abbrev watched_again : AlertConfig
watched_again = new_config 5 1 8 [] [] (rule_transfer ∷ [])

register_again :
    register_alert map_host env 1 8 [] [] (rule_transfer ∷ []) registered ≡ ok (1, registered_again)
unfolding program
register_again = refl

register_alert_stored_example :
    (1 ≡ get_alert_count map_host registered)
    × (map_host.get 1 registered.alerts ≡ none)
    × (map_host.get 1 registered_again.alerts ≡ some watched_again)
    × ((j : ℕ) → j ≢ 1 → map_host.get j registered_again.alerts ≡ map_host.get j registered.alerts)
    × (get_alert_count map_host registered_again ≡ 2)
    × (get_active_alert_count map_host 1 registered_again
        ≡ get_active_alert_count map_host 1 registered + 1)
    × ((limit_of map_host registered ≡ 0)
        ⊎ (get_active_alert_count map_host 1 registered_again ≤ limit_of map_host registered))
register_alert_stored_example =
    register_alert_stored map_host env 1 8 [] [] (rule_transfer ∷ []) registered registered-IsValid
      register_again

abbrev ledgers : List ℕ
ledgers = 30 ∷ 30 ∷ 31 ∷ 129 ∷ []

admitted_example : admitted map_host 1 ledgers registered ≡ min (length ledgers) rate_limit_count
unfolding program
admitted_example =
    admitted_lem map_host 1 30 (30 ∷ 31 ∷ 129 ∷ []) registered refl (inl refl)
      (omega arith, (omega arith, (omega arith, tt)))

configs_paginated_example : Storage.configs_paginated map_host (0 ∷ 4 ∷ []) 1 1 registered ≡ (
    if leb (1 + 1) u32_max
    then ok (Storage.configs_for_ids map_host (take 1 (drop 1 (0 ∷ 4 ∷ []))) registered)
    else trap)
configs_paginated_example = configs_paginated_lem map_host registered (0 ∷ 4 ∷ []) 1 1 (omega arith)

abbrev some_ids : List ℕ
some_ids = 0 ∷ 4 ∷ []

bulk_renew_ttl_succeeds_example :
    (s' : State map_host) × SameData map_host registered s'
    × (bulk_renew_ttl map_host some_ids registered
        ≡ ok (
          if ltb max_batch_size (length some_ids)
              then 0
              else length (live_ids map_host some_ids registered),
          s',
        ))
bulk_renew_ttl_succeeds_example = bulk_renew_ttl_succeeds map_host some_ids registered

-- The owner 1 alone has signed, at another time.
abbrev owner_later : Env
owner_later = record { authorized = λ a. a == 1; timestamp = 9 }

set_paused_stops_example :
    (s' : State map_host) × (set_paused map_host env 9 true registered ≡ ok s')
    × (is_paused map_host s' ≡ true)
    × (execute map_host owner_later (Call.remove_alert 1 0) s' ≡ err contract_paused)
    × (Storage.is_paused map_host s' ≡ Storage.is_paused map_host registered)
unfolding program pausable_by
set_paused_stops_example =
    set_paused_stops map_host env owner_later 9 (Call.remove_alert 1 0) 1 registered refl refl refl
      refl
