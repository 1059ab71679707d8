-- ===== src/AlertRegistry/Store.antt =====
-- The helpers of the alert registry that read and write its storage: the guards, the counter, the
-- two indexes, the alert records (contracts/alert-registry/src/lib.rs, internal helpers).
use stellar_txwatch_contract.Prelude.{
  ℕ, ◌+◌, min, Bool, false, Option, none, some, List, [], ◌∷◌, ◌++◌, ltb, ◌==◌, not, length,
  unwrap_or, keep_if, contains, if◌then◌else◌,
}
use stellar_txwatch_contract.Soroban.{Host, Address, Outcome, ok, ◌>>=◌, ◌>>◌, reject_if, ok_or}
use stellar_txwatch_contract.Soroban.Access.{has, put, put_list, load_list}
use stellar_txwatch_contract.AlertRegistry.Types.{
  ContractError, AlertConfig, AdminEntry, admin_set, single_admin, Event, State, default_ttl,
  unauthorized, alert_not_found, not_initialized, contract_paused, counter_overflow,
  duplicate_alert_id, owner_alert_limit_exceeded,
}

-- `u32::MAX` and `u64::MAX`, and the operations at those bounds.
abbrev pub u32_max : ℕ
u32_max = 4294967295

abbrev pub u64_max : ℕ
u64_max = 18446744073709551615

abbrev pub saturating_add : ℕ → ℕ → ℕ
saturating_add a b = min (a + b) u32_max

-- `u64::checked_add(1)`
abbrev pub checked_suc : ℕ → Option ℕ
checked_suc n = if ltb n u64_max then some (n + 1) else none

-- `Vec::try_from_val`, else `Address::try_from_val`, on what is stored under `ADMIN`.
unfoldable pub decode_admins : AdminEntry → List Address
decode_admins (admin_set v) = v
decode_admins (single_admin a) = a ∷ []

unfoldable pub assert_owner : AlertConfig → Address → Outcome ContractError (Unit {0})
assert_owner config caller = reject_if (not (config.owner == caller)) unauthorized

module _ (h : Host) where
  -- `env.events().publish(e)`
  abbrev pub publish : Event → State h → State h
  publish e s = record s { events = e ∷ s.events }

  unfoldable pub is_paused : State h → Bool
  is_paused s = unwrap_or (h.get 0 s.paused) false

  unfoldable pub assert_not_paused : State h → Outcome ContractError (Unit {0})
  assert_not_paused s = do reject_if (is_paused s) contract_paused; ok tt

  unfoldable pub load_admins : State h → Option (List Address)
  load_admins s = elim (h.get 0 s.admin) [ none ↦ none | some raw ↦ some (decode_admins raw) ]

  unfoldable pub set_admins : List Address → State h → State h
  set_admins admins s = record s { admin = h.set 0 (admin_set admins) s.admin }

  unfoldable pub assert_admin : Address → State h → Outcome ContractError (Unit {0})
  assert_admin caller s = do
    admins ← ok_or (load_admins s) not_initialized
    reject_if (not (contains admins caller)) unauthorized

  unfoldable pub get_per_owner_alert_limit : State h → ℕ
  get_per_owner_alert_limit s = unwrap_or (h.get 0 s.limit) 0

  unfoldable pub owner_index : Address → State h → List ℕ
  owner_index owner s = load_list h owner s.owner_indexes

  unfoldable pub contract_index : Address → State h → List ℕ
  contract_index target s = load_list h target s.contract_indexes

  -- The IDs whose alert is stored.
  unfoldable pub live_ids : List ℕ → State h → List ℕ
  live_ids ids s = keep_if (λ id. has h id s.alerts) ids

  -- The lazy pruning of `assert_per_owner_limit_for` (#205).
  unfoldable pub prune_owner_index : Address → State h → State h
  prune_owner_index owner s =
      let ids = owner_index owner s in
      let live = live_ids ids s in
      if length live == length ids
      then s
      else record s { owner_indexes = put_list h default_ttl owner live s.owner_indexes }

  -- The source prunes before it checks; an error undoes the pruning.
  unfoldable pub assert_per_owner_limit_for :
      Address → ℕ → State h → Outcome ContractError (State h)
  assert_per_owner_limit_for owner additional s =
      let limit = get_per_owner_alert_limit s in
      let live = live_ids (owner_index owner s) s in
      if ltb 0 limit
      then (do
        reject_if (ltb limit (saturating_add (length live) additional)) owner_alert_limit_exceeded
        ok (prune_owner_index owner s))
      else ok s

  unfoldable pub assert_per_owner_limit : Address → State h → Outcome ContractError (State h)
  assert_per_owner_limit owner s = assert_per_owner_limit_for owner 1 s

  unfoldable pub get_alert_count : State h → ℕ
  get_alert_count s = unwrap_or (h.get 0 s.next_id) 0

  -- `instance().extend_ttl(t, t)`
  unfoldable pub extend_instance_ttl : ℕ → State h → State h
  extend_instance_ttl t s = record s {
    instance_ttl = if ltb s.instance_ttl t then t else s.instance_ttl;
  }

  unfoldable pub next_id : State h → Outcome ContractError (ℕ × State h)
  next_id s = do
    let id = get_alert_count s
    next ← ok_or (checked_suc id) counter_overflow
    ok (id, extend_instance_ttl default_ttl (record s { next_id = h.set 0 next s.next_id }))

  unfoldable pub push_owner_index : Address → ℕ → State h → Outcome ContractError (State h)
  push_owner_index owner id s = do
    let ids = owner_index owner s
    reject_if (contains ids id) duplicate_alert_id
    ok (record s { owner_indexes = put h default_ttl owner (ids ++ id ∷ []) s.owner_indexes })

  unfoldable pub push_contract_index : Address → ℕ → State h → Outcome ContractError (State h)
  push_contract_index target id s = do
    let ids = contract_index target s
    reject_if (contains ids id) duplicate_alert_id
    ok (record s {
      contract_indexes = put h default_ttl target (ids ++ id ∷ []) s.contract_indexes;
    })

  unfoldable pub remove_from_owner_index : Address → ℕ → State h → State h
  remove_from_owner_index owner id s =
      let updated = keep_if (λ v. not (v == id)) (owner_index owner s) in
      record s { owner_indexes = put_list h default_ttl owner updated s.owner_indexes }

  unfoldable pub remove_from_contract_index : Address → ℕ → State h → State h
  remove_from_contract_index target id s =
      let updated = keep_if (λ v. not (v == id)) (contract_index target s) in
      record s { contract_indexes = put_list h default_ttl target updated s.contract_indexes }

  -- `get(&DataKey::Alert(id)).ok_or(AlertNotFound)?`
  unfoldable pub load_alert : ℕ → State h → Outcome ContractError AlertConfig
  load_alert id s = ok_or (h.get id s.alerts) alert_not_found

  -- `set(&DataKey::Alert(id), config)`, then `extend_ttl`.
  unfoldable pub save_alert : ℕ → AlertConfig → State h → State h
  save_alert id config s = record s { alerts = put h default_ttl id config s.alerts }

  -- `set(&DataKey::AlertActive(id), active)`, then `extend_ttl`.
  unfoldable pub save_active : ℕ → Bool → State h → State h
  save_active id active s = record s { alert_actives = put h default_ttl id active s.alert_actives }

  -- The removals that `remove_alert_record` and `remove_alert_record_by_admin` share.
  unfoldable pub remove_stored : AlertConfig → ℕ → State h → State h
  remove_stored config id s =
      let s = record s {
        alerts = h.remove id s.alerts;
        alert_actives = h.remove id s.alert_actives;
      } in
      let s = remove_from_owner_index config.owner id s in
      remove_from_contract_index config.target_contract id s

  unfoldable pub remove_alert_record : AlertConfig → ℕ → Address → State h → State h
  remove_alert_record config id caller s =
      publish (Event.alert_remove id caller) (remove_stored config id s)

  unfoldable pub remove_alert_record_by_admin :
      AlertConfig → ℕ → Address → Address → State h → State h
  remove_alert_record_by_admin config id admin owner s =
      publish (Event.alert_remove_by_admin id admin owner) (remove_stored config id s)
