-- ===== src/AlertRegistry/Tests.antt =====
-- The alert registry at concrete inputs.
mod Operations
mod Histories
mod Queries
use stellar_txwatch_contract.Prelude.{
  ℕ, ◌≡◌, refl, ◌≢◌, ◌↔◌, ◌⊎◌, inl, inr, true, false, none, some, List, [], ◌∷◌, ◌++◌, arith,
  length, take, drop, contains, distinct, keep_if, ◌≤◌,
}
use stellar_txwatch_contract.Soroban.{Env, Bytes, ok, err, ◌>>=◌, Ensures}
use stellar_txwatch_contract.Soroban.MapHost.{map_host, no_entries}
use stellar_txwatch_contract.Soroban.Access.{put, put_list}
use stellar_txwatch_contract.AlertRegistry.Types.{
  State, AlertConfig, no_pending_webhook, max_batch_size, max_ttl,
}
use stellar_txwatch_contract.AlertRegistry.Validate.{
  bytes_eq, contains_bytes, validate_label, validate_rule, validate_rules, validate_rules_loop,
  validate_tags, rule_transfer, rule_mint,
}
use stellar_txwatch_contract.AlertRegistry.Store.{
  is_paused, assert_not_paused, load_admins, decode_admins, set_admins, assert_admin,
  get_per_owner_alert_limit, owner_index, contract_index, live_ids, prune_owner_index,
  assert_per_owner_limit_for, assert_per_owner_limit, get_alert_count, extend_instance_ttl, next_id,
  push_owner_index, push_contract_index, load_alert, assert_owner, save_alert, save_active,
}
use stellar_txwatch_contract.AlertRegistry.Admin.{
  initialize, transfer_admin, add_admin, remove_admin, set_per_owner_alert_limit,
}
use stellar_txwatch_contract.AlertRegistry.Register.{
  new_config, check_webhook_hash, store_new, register_alert,
}
use stellar_txwatch_contract.AlertRegistry.Update.{
  propose_webhook, confirm_webhook, pause_alert, set_alert_active_by_admin,
}
use stellar_txwatch_contract.AlertRegistry.Ttl.{bump_alert}
use stellar_txwatch_contract.AlertRegistry.Queries.{
  configs_for_ids, configs_paginated, get_alert_ids_for_contract, get_alert_ids_by_owner,
  get_alerts_modified_since, get_alerts_updated_since, get_active_alert_count,
}
use stellar_txwatch_contract.AlertRegistry.Calls.{Call, Tick, run, execute, commit, advance}
use stellar_txwatch_contract.AlertRegistry.Invariant.{IsValid}
use stellar_txwatch_contract.AlertRegistry.Reachable.{IsFresh, run_from_fresh-IsValid}
use stellar_txwatch_contract.AlertRegistry.Access.{IsSigned}
use stellar_txwatch_contract.AlertRegistry.Access.Signed.{execute_change-IsSigned}
use stellar_txwatch_contract.AlertRegistry.Spec.{owned, view}
use stellar_txwatch_contract.AlertRegistry.Registration.{
  register_alert_stores, register_alert_within_limit,
}
use stellar_txwatch_contract.AlertRegistry.Lookup.{
  get_alert_ids_for_contract_iff, get_alert_ids_by_owner_iff,
}
use stellar_txwatch_contract.AlertRegistry.Renewal.{bump_alert_extends}
use stellar_txwatch_contract.AlertRegistry.Validate.Rules.{
  validate_rules_iff, validate_rules-Distinct, AllRules, Distinct,
}
use stellar_txwatch_contract.AlertRegistry.Queries.Pages.{
  pages, pages-configs_for_ids, length-configs_paginated-le,
}
use stellar_txwatch_contract.AlertRegistry.Queries.Sync.{
  is_recent, In, get_alerts_updated_since_lem, get_alerts_modified_since_iff,
}
use stellar_txwatch_contract.AlertRegistry.Rotation.{confirm_webhook-propose_webhook}
use stellar_txwatch_contract.AlertRegistry.AdminSet.{HasAdmins, admin_calls-HasAdmins}

-- The definitions that the examples run.
program : Unit {0}
unfolding run advance commit execute initialize register_alert pause_alert set_alert_active_by_admin
    set_per_owner_alert_limit assert_not_paused is_paused set_admins load_admins decode_admins
    assert_admin get_per_owner_alert_limit owner_index contract_index live_ids prune_owner_index
    assert_per_owner_limit_for assert_per_owner_limit get_alert_count extend_instance_ttl next_id
    push_owner_index push_contract_index load_alert assert_owner save_alert save_active new_config
    check_webhook_hash store_new validate_label validate_rule validate_rules validate_rules_loop
    validate_tags contains_bytes bytes_eq rule_transfer rule_mint put put_list ◌>>=◌ keep_if
    contains distinct
program = tt

abbrev pub deployed : State map_host
deployed = record {
  alerts = no_entries;
  alert_actives = no_entries;
  owner_indexes = no_entries;
  contract_indexes = no_entries;
  next_ids = no_entries;
  admin = no_entries;
  limit = no_entries;
  paused = no_entries;
  watchreg = no_entries;
  next_id = no_entries;
  instance_ttl = 0;
  events = [];
}

-- Every address has signed, at time 5.
abbrev env : Env
env = record { authorized = λ a. true; timestamp = 5 }

deployed-IsFresh : IsFresh map_host deployed
deployed-IsFresh = record {
  no_alert = λ id. refl;
  no_active = λ id. refl;
  no_owner_index = λ a. refl;
  no_contract_index = λ a. refl;
}

abbrev replicate_byte : ℕ → Bytes
replicate_byte ℕ.zero = []
replicate_byte (ℕ.suc n) = 97 ∷ replicate_byte n

abbrev hash : Bytes
hash = replicate_byte 64

-- The address 9 becomes admin and sets a limit of two; the address 1 registers an alert on 7.
abbrev story : List Tick
story =
    Tick.call env (Call.initialize 9)
    ∷ Tick.call env (Call.set_per_owner_alert_limit 9 2)
    ∷ Tick.call env (Call.register_alert 1 7 [] hash (rule_mint ∷ []) none)
    ∷ []

abbrev registered : State map_host
registered = run map_host story deployed

-- What the address 1 has registered.
abbrev watched : AlertConfig
watched = new_config 5 1 7 [] hash (rule_mint ∷ []) none

-- It hands the alert over to 2; then the alert expires.
abbrev handover : List Tick
handover = Tick.call env (Call.transfer_alert_ownership 1 0 2) ∷ Tick.expire 0 ∷ []

run_from_fresh-IsValid_example : IsValid map_host (run map_host (story ++ handover) deployed)
run_from_fresh-IsValid_example =
    run_from_fresh-IsValid map_host (story ++ handover) deployed deployed-IsFresh

registered-IsValid : IsValid map_host registered
registered-IsValid = run_from_fresh-IsValid map_host story deployed deployed-IsFresh

watched_is_stored : map_host.get 0 registered.alerts ≡ some watched
unfolding program
watched_is_stored = refl

execute_change-IsSigned_example :
    (map_host.get 0
        (commit map_host (execute map_host env (Call.pause_alert 9 0) registered) registered).alerts
      ≡ some watched)
    ⊎ IsSigned map_host env registered watched
unfolding program
execute_change-IsSigned_example =
    execute_change-IsSigned map_host env (Call.pause_alert 9 0) registered registered-IsValid refl 0
      watched watched_is_stored

abbrev registered_again : State map_host
registered_again =
    run map_host (Tick.call env (Call.register_alert 1 8 [] hash (rule_transfer ∷ []) none) ∷ [])
      registered

abbrev watched_again : AlertConfig
watched_again = new_config 5 1 8 [] hash (rule_transfer ∷ []) none

register_again :
    register_alert map_host env 1 8 [] hash (rule_transfer ∷ []) none registered
    ≡ ok (1, registered_again)
unfolding program
register_again = refl

register_alert_stores_example :
    (1 ≡ get_alert_count map_host registered)
    × (map_host.get 1 registered.alerts ≡ none)
    × (map_host.get 1 registered_again.alerts ≡ some watched_again)
    × ((j : ℕ) → j ≢ 1 → map_host.get j registered_again.alerts ≡ map_host.get j registered.alerts)
    × (get_alert_count map_host registered_again ≡ 2)
register_alert_stores_example =
    register_alert_stores map_host env 1 8 [] hash (rule_transfer ∷ []) none registered
      registered-IsValid register_again

limit_is_two : get_per_owner_alert_limit map_host registered ≡ 2
unfolding program
limit_is_two = refl

register_alert_within_limit_example :
    (owned 1 (view map_host registered_again) ≤ get_per_owner_alert_limit map_host registered)
    × (get_active_alert_count map_host 1 registered_again
        ≡ owned 1 (view map_host registered_again))
register_alert_within_limit_example =
    register_alert_within_limit map_host env 1 8 [] hash (rule_transfer ∷ []) none registered
      registered-IsValid register_again (omega (arith, limit_is_two)) (omega (arith, limit_is_two))

not_paused : is_paused map_host registered ≡ false
unfolding program
not_paused = refl

bump_alert_extends_example :
    (s' : State map_host) × (bump_alert map_host 0 600000 registered ≡ ok s')
    × (max_ttl ≤ map_host.ttl 0 s'.alerts)
    × (max_ttl ≤ map_host.ttl 0 s'.alert_actives)
    × (max_ttl ≤ map_host.ttl 1 s'.owner_indexes)
    × (max_ttl ≤ map_host.ttl 7 s'.contract_indexes)
    × (max_ttl ≤ s'.instance_ttl)
unfolding program
bump_alert_extends_example =
    bump_alert_extends map_host 0 600000 watched registered registered-IsValid not_paused
      watched_is_stored

validate_rules_iff_example : (validate_rules (rule_mint ∷ rule_mint ∷ []) ≡ ok tt) ↔ (
    (rule_mint ∷ rule_mint ∷ [] ≢ [])
    × (2 ≤ 50)
    × AllRules (rule_mint ∷ rule_mint ∷ [])
    × Distinct (rule_mint ∷ rule_mint ∷ []))
validate_rules_iff_example = validate_rules_iff (rule_mint ∷ rule_mint ∷ [])

validate_rules-Distinct_example :
    (2 ≤ 4)
    × ((validate_rules (rule_transfer ∷ rule_mint ∷ []) ≡ ok tt)
        ↔ (rule_transfer ∷ rule_mint ∷ [] ≢ []))
unfolding rule_transfer rule_mint
validate_rules-Distinct_example =
    validate_rules-Distinct (rule_transfer ∷ rule_mint ∷ []) (inl refl, (inr (inl refl), tt))
      (((λ e. cc), tt), (tt, tt))

confirm_webhook-propose_webhook_example :
    (s' : State map_host) × ((propose_webhook map_host env 1 0 [] registered
        >>= confirm_webhook map_host env 1 0)
      ≡ ok s')
    × (map_host.get 0 s'.alerts
        ≡ some (record watched { pending_webhook_hash = none; webhook_hash = []; updated_at = 5 }))
    × (confirm_webhook map_host env 1 0 s' ≡ err no_pending_webhook)
unfolding program
confirm_webhook-propose_webhook_example =
    confirm_webhook-propose_webhook map_host env 1 0 watched [] registered refl watched_is_stored
      refl

registered-HasAdmins : HasAdmins map_host registered
unfolding program
registered-HasAdmins = (refl, omega arith)

admin_calls-HasAdmins_example :
    Ensures (HasAdmins map_host) (initialize map_host 9 registered)
    × Ensures (HasAdmins map_host) (transfer_admin map_host env 9 4 registered)
    × Ensures (HasAdmins map_host) (add_admin map_host env 9 4 registered)
    × Ensures (HasAdmins map_host) (remove_admin map_host env 9 4 registered)
admin_calls-HasAdmins_example =
    admin_calls-HasAdmins map_host env 9 4 registered registered-HasAdmins
