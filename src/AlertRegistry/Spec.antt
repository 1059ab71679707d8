-- ===== src/AlertRegistry/Spec.antt =====
-- What the alert registry promises, with no index, no flag beside the record and no lifetime: a map
-- from IDs to alerts, the next ID, and the configuration. `perform` is each call on that, its
-- errors included.
pub mod Matching
pub mod Edits
pub mod Counting
pub mod Moves
pub mod Creation
pub mod Renewals
pub mod Admins
pub mod Refinement
pub mod Returns
use stellar_txwatch_contract.Prelude.{
  ℕ, zero, suc, ◌+◌, ◌≡◌, Bool, true, false, not, ◌&&◌, Option, none, some, List, [], ◌∷◌, ◌++◌,
  ltb, leb, ◌==◌, length, keep_if, contains, if◌then◌else◌, is_some, unwrap_or,
}
use stellar_txwatch_contract.Soroban.{
  Host, Address, Bytes, Env, Outcome, ok, err, trap, ◌>>=◌, ◌>>◌, reject_if, ok_or,
}
use stellar_txwatch_contract.Soroban.Access.{require_auth}
use stellar_txwatch_contract.AlertRegistry.Types.{
  ContractError, AlertConfig, AlertInput, State, max_batch_size, unauthorized, alert_not_found,
  not_initialized, contract_paused, counter_overflow, owner_alert_limit_exceeded,
  no_pending_webhook, too_many_rules, batch_too_large, already_initialized, already_admin,
  not_admin, last_admin, limit_too_low,
}
use stellar_txwatch_contract.AlertRegistry.Validate.{validate_label, validate_rules, validate_tags}
use stellar_txwatch_contract.AlertRegistry.Store.{
  assert_owner, saturating_add, checked_suc, load_admins, is_paused, get_per_owner_alert_limit,
  get_alert_count,
}
use stellar_txwatch_contract.AlertRegistry.Register.{
  new_config, config_of, check_webhook_hash, check_inputs,
}
use stellar_txwatch_contract.AlertRegistry.Calls.{Call, Tick}

pub record Spec : Type 0 where
  pub alerts : ℕ → Option AlertConfig
  pub next : ℕ
  pub admins : Option (List Address)
  pub paused : Bool
  pub limit : ℕ
  pub watcher_registry : Option Address

-- What a storage stands for.
unfoldable pub view : (h : Host) → State h → Spec
view h s = record {
  alerts = λ id. h.get id s.alerts;
  next = get_alert_count h s;
  admins = load_admins h s;
  paused = is_paused h s;
  limit = get_per_owner_alert_limit h s;
  watcher_registry = h.get 0 s.watchreg;
}

-- The alerts with another entry at an ID.
abbrev pub at_id : ℕ → Option AlertConfig → Spec → Spec
at_id id o v = record v { alerts = λ j. if id == j then o else v.alerts j }

-- How many of the first `n` numbers pass a test.
unfoldable pub count_below : ℕ → (ℕ → Bool) → ℕ
count_below zero p = 0
count_below (suc n) p = let rest = count_below n p in if p n then suc rest else rest

abbrev pub is_owned_by : Address → Option AlertConfig → Bool
is_owned_by a none = false
is_owned_by a (some c) = c.owner == a

-- How many alerts the address owns.
unfoldable pub owned : Address → Spec → ℕ
owned a v = count_below v.next (λ id. is_owned_by a (v.alerts id))

-- `deactivate_all_alerts` on one entry.
abbrev pub switch_off : ℕ → Address → Option AlertConfig → Option AlertConfig
switch_off now caller none = none
switch_off now caller (some c) =
    if c.owner == caller && c.active
    then some (record c { active = false; updated_at = now })
    else some c

unfoldable pub running : Spec → Outcome ContractError (Unit {0})
running v = do reject_if v.paused contract_paused; ok tt

unfoldable pub by_admin : Address → Spec → Outcome ContractError (Unit {0})
by_admin caller v = do
  admins ← ok_or v.admins not_initialized
  reject_if (not (contains admins caller)) unauthorized

unfoldable pub stored : ℕ → Spec → Outcome ContractError AlertConfig
stored id v = ok_or (v.alerts id) alert_not_found

-- There is room for `n` more alerts of the owner.
unfoldable pub room : Address → ℕ → Spec → Outcome ContractError (Unit {0})
room owner n v =
    if ltb 0 v.limit
    then reject_if (ltb v.limit (saturating_add (owned owner v) n)) owner_alert_limit_exceeded
    else ok tt

-- The alert is there under the next ID.
unfoldable pub create : AlertConfig → Spec → Outcome ContractError Spec
create c v = do
  next ← ok_or (checked_suc v.next) counter_overflow
  ok (record (at_id v.next (some c) v) { next = next })

unfoldable pub create_all : Env → Address → List AlertInput → Spec → Outcome ContractError Spec
create_all env caller [] v = ok v
create_all env caller (input ∷ inputs) v = do
  v₁ ← create (config_of env caller input) v
  create_all env caller inputs v₁

module _ (env : Env) where
  open env use {timestamp}

  -- An admin turns an alert on or off.
  unfoldable pub switch : Address → ℕ → Bool → Spec → Outcome ContractError Spec
  switch admin id active v = do
    require_auth env admin
    by_admin admin v
    c ← stored id v
    ok (at_id id (some (record c { active = active; updated_at = timestamp })) v)

  -- A call on the configuration by an admin.
  unfoldable pub configure : Address → Spec → Spec → Outcome ContractError Spec
  configure admin v w = do require_auth env admin; by_admin admin v; ok w

  unfoldable pub perform : Call → Spec → Outcome ContractError Spec
  perform (Call.initialize a) v = do
    reject_if (is_some v.admins) already_initialized
    ok (record v { admins = some (a ∷ []) })
  perform (Call.transfer_admin a b) v = configure a v (record v { admins = some (b ∷ []) })
  perform (Call.add_admin a b) v = do
    require_auth env a
    by_admin a v
    admins ← ok_or v.admins not_initialized
    reject_if (contains admins b) already_admin
    ok (record v { admins = some (admins ++ b ∷ []) })
  perform (Call.remove_admin a b) v = do
    require_auth env a
    by_admin a v
    admins ← ok_or v.admins not_initialized
    reject_if (not (contains admins b)) not_admin
    reject_if (leb (length admins) 1) last_admin
    ok (record v { admins = some (keep_if (λ x. not (x == b)) admins) })
  perform (Call.set_watcher_registry a b) v = configure a v (record v { watcher_registry = some b })
  perform (Call.set_per_owner_alert_limit a n) v = configure a v (record v { limit = n })
  perform (Call.set_paused a b) v = configure a v (record v { paused = b })
  perform (Call.register_alert owner target label hash rules tags) v = do
    running v
    check_webhook_hash hash
    require_auth env owner
    validate_label label
    validate_rules rules
    validate_tags tags
    room owner 1 v
    create (new_config timestamp owner target label hash rules tags) v
  perform (Call.batch_register_alerts a inputs) v = do
    running v
    reject_if (ltb max_batch_size (length inputs)) batch_too_large
    require_auth env a
    check_inputs inputs
    room a (length inputs) v
    create_all env a inputs v
  perform (Call.pause_alert a id) v = switch a id false v
  perform (Call.unpause_alert a id) v = switch a id true v
  perform (Call.update_alert a id rules active) v = do
    running v
    require_auth env a
    c ← stored id v
    assert_owner c a
    validate_rules rules
    ok (at_id id (some (record c { rules = rules; active = active; updated_at = timestamp })) v)
  perform (Call.update_webhook a id hash) v = do
    running v
    require_auth env a
    c ← stored id v
    assert_owner c a
    check_webhook_hash hash
    ok (at_id id (some (record c { webhook_hash = hash; updated_at = timestamp })) v)
  perform (Call.propose_webhook a id hash) v = do
    require_auth env a
    c ← stored id v
    assert_owner c a
    ok (at_id id (some (record c { pending_webhook_hash = some hash; updated_at = timestamp })) v)
  perform (Call.update_label a id label) v = do
    running v
    require_auth env a
    validate_label label
    c ← stored id v
    assert_owner c a
    ok (at_id id (some (record c { label = label; updated_at = timestamp })) v)
  perform (Call.confirm_webhook a id) v = do
    require_auth env a
    c ← stored id v
    assert_owner c a
    hash ← ok_or c.pending_webhook_hash no_pending_webhook
    let c' = record c { pending_webhook_hash = none; webhook_hash = hash; updated_at = timestamp }
    ok (at_id id (some c') v)
  perform (Call.remove_alert a id) v = do
    running v
    require_auth env a
    c ← stored id v
    assert_owner c a
    ok (at_id id none v)
  perform (Call.remove_alert_by_admin a id) v = do
    running v
    require_auth env a
    by_admin a v
    c ← stored id v
    ok (at_id id none v)
  perform (Call.bump_alert id ttl) v = do running v; c ← stored id v; ok v
  perform (Call.bulk_renew_ttl ids) v = do
    reject_if (ltb max_batch_size (length ids)) too_many_rules
    ok v
  perform (Call.get_alert id) v = ok v
  perform (Call.deactivate_all_alerts a) v = do
    running v
    require_auth env a
    ok (record v { alerts = λ id. switch_off timestamp a (v.alerts id) })
  perform (Call.update_target_contract a id target) v = do
    running v
    require_auth env a
    c ← stored id v
    assert_owner c a
    ok (at_id id (some (record c { target_contract = target; updated_at = timestamp })) v)
  perform (Call.transfer_alert_ownership a id b) v = do
    running v
    require_auth env a
    c ← stored id v
    assert_owner c a
    if b == a then ok v else (do
      room b 1 v
      ok (at_id id (some (record c { owner = b; updated_at = timestamp })) v))
  perform (Call.update_tags a id tags) v = do
    running v
    require_auth env a
    c ← stored id v
    assert_owner c a
    validate_tags tags
    ok (at_id id (some (record c { tags = tags; updated_at = timestamp })) v)

-- The result of a call, or the map as it was after an error or a trap.
unfoldable pub settle : Outcome ContractError Spec → Spec → Spec
settle (ok w) v = w
settle (err e) v = v
settle trap v = v

unfoldable pub perform_tick : Tick → Spec → Spec
perform_tick (Tick.call env c) v = settle (perform env c v) v
perform_tick (Tick.expire id) v = at_id id none v

unfoldable pub perform_all : List Tick → Spec → Spec
perform_all [] v = v
perform_all (tick ∷ ticks) v = perform_all ticks (perform_tick tick v)
