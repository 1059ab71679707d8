-- ===== src/AlertRegistry/Ttl.antt =====
-- The entry points that renew lifetimes: `bump_alert`, `bulk_renew_ttl`; and
-- `deactivate_all_alerts` (contracts/alert-registry/src/lib.rs).
use stellar_txwatch_contract.Prelude.{
  ℕ, ◌+◌, Bool, true, false, none, some, List, [], ◌∷◌, ltb, length, min, if◌then◌else◌,
}
use stellar_txwatch_contract.Soroban.{Host, Address, Env, Outcome, ok, ◌>>=◌, ◌>>◌, reject_if}
use stellar_txwatch_contract.Soroban.Access.{require_auth, has, extend}
use stellar_txwatch_contract.AlertRegistry.Types.{
  ContractError, AlertConfig, Event, State, default_ttl, max_ttl, max_batch_size, too_many_rules,
}
use stellar_txwatch_contract.AlertRegistry.Store.{
  publish, assert_not_paused, load_alert, save_alert, save_active, extend_instance_ttl, owner_index,
}
use stellar_txwatch_contract.AlertRegistry.Update.{extend_indexes}

module _ (h : Host) where
  -- The four `extend_ttl` calls on an alert, its flag and its index entries.
  unfoldable pub extend_entries : ℕ → ℕ → AlertConfig → State h → Outcome ContractError (State h)
  extend_entries t id config s = do
    alerts ← extend h t id s.alerts
    actives ← extend h t id s.alert_actives
    extend_indexes h t config (record s { alerts = alerts; alert_actives = actives })

  -- The persistent key `NextId`, which this contract never writes, is extended if it is there.
  unfoldable pub extend_next_ids : ℕ → State h → Outcome ContractError (State h)
  extend_next_ids t s = do
    if has h 0 s.next_ids
        then (do next_ids ← extend h t 0 s.next_ids; ok (record s { next_ids = next_ids }))
        else ok s

  unfoldable pub bump_alert : ℕ → ℕ → State h → Outcome ContractError (State h)
  bump_alert config_id ttl s = do
    assert_not_paused h s
    let effective_ttl = min ttl max_ttl
    config ← load_alert h config_id s
    s₁ ← extend_entries effective_ttl config_id config s
    s₂ ← extend_next_ids effective_ttl s₁
    let s₃ = extend_instance_ttl h effective_ttl s₂
    ok (publish h (Event.alert_bump config_id effective_ttl) s₃)

  -- One round of the loop of `bulk_renew_ttl`: was the alert there, and the new state.
  unfoldable pub renew_one : ℕ → State h → Outcome ContractError (Bool × State h)
  renew_one id s = elim (h.get id s.alerts) [
    | none ↦ ok (false, s)
    | some config ↦ do
      s' ← extend_entries default_ttl id config s
      ok (true, publish h (Event.alert_bump id default_ttl) s')
  ]

  unfoldable pub renew_loop : List ℕ → State h → Outcome ContractError (ℕ × State h)
  renew_loop [] s = ok (0, s)
  renew_loop (id ∷ ids) s = do
    (was_there, s₁) ← renew_one id s
    (renewed, s₂) ← renew_loop ids s₁
    ok (if was_there then renewed + 1 else renewed, s₂)

  unfoldable pub bulk_renew_ttl : List ℕ → State h → Outcome ContractError (ℕ × State h)
  bulk_renew_ttl config_ids s = do
    reject_if (ltb max_batch_size (length config_ids)) too_many_rules
    renew_loop config_ids s

module _ (h : Host) (env : Env) where
  -- One round of the loop of `deactivate_all_alerts`: how many it turned off, and the new state.
  unfoldable pub deactivate_one : ℕ → State h → ℕ × State h
  deactivate_one id s = elim (h.get id s.alerts) [
    | none ↦ (0, s)
    | some cfg ↦
        if cfg.active
        then (
          1,
          save_active h id false
              (save_alert h id (record cfg { active = false; updated_at = env.timestamp }) s),
        )
        else (0, s)
  ]

  unfoldable pub deactivate_loop : List ℕ → State h → ℕ × State h
  deactivate_loop [] s = (0, s)
  deactivate_loop (id ∷ ids) s =
      let (n, s₁) = deactivate_one id s in let (m, s₂) = deactivate_loop ids s₁ in (n + m, s₂)

  unfoldable pub deactivate_all_alerts : Address → State h → Outcome ContractError (ℕ × State h)
  deactivate_all_alerts caller s = do
    assert_not_paused h s
    require_auth env caller
    ok (deactivate_loop (owner_index h caller s) s)
