-- ===== src/AlertRegistry/Reachable.antt =====
-- The invariant holds in every state that the contract can reach.
use stellar_txwatch_contract.Prelude.{ℕ, ◌≡◌, refl, Bool, true, false, none, List, [], ◌∷◌, arith}
use stellar_txwatch_contract.Soroban.{
  Host, Env, Address, Outcome, ok, err, trap, ◌>>=◌, Ensures, Ensures->>=, Ensures-ok,
  Ensures-eq-ok, Ensures-of,
}
use stellar_txwatch_contract.AlertRegistry.Types.{ContractError, State}
use stellar_txwatch_contract.Indexed.{Indexed-empty, Indexed-expire}
use stellar_txwatch_contract.AlertRegistry.Store.{set_admins}
use stellar_txwatch_contract.AlertRegistry.Admin
use stellar_txwatch_contract.AlertRegistry.Update.{pause_alert, unpause_alert}
use stellar_txwatch_contract.AlertRegistry.Calls.{
  Call, Tick, execute, commit, advance, run, state_of,
}
use stellar_txwatch_contract.AlertRegistry.Invariant.{IsValid}
use stellar_txwatch_contract.AlertRegistry.Invariant.Registrations
use stellar_txwatch_contract.AlertRegistry.Invariant.Updates
use stellar_txwatch_contract.AlertRegistry.Invariant.Renewals

-- The storage of a contract that has just been deployed: no entry at all.
pub record IsFresh (h : Host) (s : State h) : Type 0 where
  pub no_alert : (id : ℕ) → h.get id s.alerts ≡ none
  pub no_active : (id : ℕ) → h.get id s.alert_actives ≡ none
  pub no_owner_index : (a : ℕ) → h.get a s.owner_indexes ≡ none
  pub no_contract_index : (a : ℕ) → h.get a s.contract_indexes ≡ none

module _ (h : Host) where
  pub fresh-IsValid : (s : State h) → IsFresh h s → IsValid h s
  fresh-IsValid s f = record {
    owners = Indexed-empty _ f.no_alert (λ a. rw (f.no_owner_index a));
    targets = Indexed-empty _ f.no_alert (λ a. rw (f.no_contract_index a));
    agree = λ id. ground (arith, f.no_alert id, f.no_active id);
  }

  -- The invariant does not read the configuration.
  same-IsValid :
      {s s' : State h}
      → IsValid h s
      → s'.alerts ≡ s.alerts
      → s'.alert_actives ≡ s.alert_actives
      → s'.owner_indexes ≡ s.owner_indexes
      → s'.contract_indexes ≡ s.contract_indexes
      → s'.next_id ≡ s.next_id
      → IsValid h s'
  same-IsValid {s} {s'} v al ac ow co n = record {
    owners = rw (al, ow, n) v.owners;
    targets = rw (al, co, n) v.targets;
    agree = rw (al, ac) v.agree;
  }

  -- What an entry point of the configuration leaves alone.
  abbrev pub SameAlerts : State h → State h → Type 0
  SameAlerts s s' =
      (s'.alerts ≡ s.alerts)
      × (s'.alert_actives ≡ s.alert_actives)
      × (s'.owner_indexes ≡ s.owner_indexes)
      × (s'.contract_indexes ≡ s.contract_indexes)
      × (s'.next_id ≡ s.next_id)

  config-IsValid :
      {s : State h} (m : Outcome ContractError (State h))
      → IsValid h s
      → Ensures (SameAlerts s) m
      → Ensures (IsValid h) m
  config-IsValid m v k =
      Ensures-of (IsValid h) _
        λ s' e. let (al, ac, ow, co, n) = Ensures-eq-ok _ k e in same-IsValid v al ac ow co n

  state_of-IsValid :
      {A : Type 0} (m : Outcome ContractError (A × State h))
      → Ensures (λ r. IsValid h r.1) m
      → Ensures (IsValid h) (state_of h m)
  state_of-IsValid m k =
      Ensures->>= (IsValid h) _ _ λ r e. Ensures-ok _ (IsValid h) (Ensures-eq-ok _ k e)

  module _ (env : Env) (s : State h) where
    pub initialize-SameAlerts : (a : Address) → Ensures (SameAlerts s) (Admin.initialize h a s)
    unfolding ◌>>=◌ Admin.initialize set_admins
    initialize-SameAlerts a = Ensures-of _ _ λ s' e. ground arith

    pub transfer_admin-SameAlerts :
        (a b : Address) → Ensures (SameAlerts s) (Admin.transfer_admin h env a b s)
    unfolding ◌>>=◌ Admin.transfer_admin set_admins
    transfer_admin-SameAlerts a b = Ensures-of _ _ λ s' e. ground arith

    pub add_admin-SameAlerts :
        (a b : Address) → Ensures (SameAlerts s) (Admin.add_admin h env a b s)
    unfolding ◌>>=◌ Admin.add_admin set_admins
    add_admin-SameAlerts a b = Ensures-of _ _ λ s' e. ground arith

    pub remove_admin-SameAlerts :
        (a b : Address) → Ensures (SameAlerts s) (Admin.remove_admin h env a b s)
    unfolding ◌>>=◌ Admin.remove_admin set_admins
    remove_admin-SameAlerts a b = Ensures-of _ _ λ s' e. ground arith

    pub set_per_owner_alert_limit-SameAlerts :
        (a : Address) (n : ℕ) → Ensures (SameAlerts s) (Admin.set_per_owner_alert_limit h env a n s)
    unfolding ◌>>=◌ Admin.set_per_owner_alert_limit set_admins
    set_per_owner_alert_limit-SameAlerts a n = Ensures-of _ _ λ s' e. ground arith

    pub set_paused-SameAlerts :
        (a : Address) (b : Bool) → Ensures (SameAlerts s) (Admin.set_paused h env a b s)
    unfolding ◌>>=◌ Admin.set_paused set_admins
    set_paused-SameAlerts a b = Ensures-of _ _ λ s' e. ground arith

    pub set_watcher_registry-SameAlerts :
        (a b : Address) → Ensures (SameAlerts s) (Admin.set_watcher_registry h env a b s)
    unfolding ◌>>=◌ Admin.set_watcher_registry set_admins
    set_watcher_registry-SameAlerts a b = Ensures-of _ _ λ s' e. ground arith

  pub execute-IsValid :
      (env : Env) (c : Call) (s : State h) → IsValid h s → Ensures (IsValid h) (execute h env c s)
  unfolding execute pause_alert unpause_alert
  execute-IsValid env (Call.initialize a) s v = config-IsValid _ v (initialize-SameAlerts env s a)
  execute-IsValid env (Call.transfer_admin a b) s v =
      config-IsValid _ v (transfer_admin-SameAlerts env s a b)
  execute-IsValid env (Call.add_admin a b) s v = config-IsValid _ v (add_admin-SameAlerts env s a b)
  execute-IsValid env (Call.remove_admin a b) s v =
      config-IsValid _ v (remove_admin-SameAlerts env s a b)
  execute-IsValid env (Call.set_per_owner_alert_limit a n) s v =
      config-IsValid _ v (set_per_owner_alert_limit-SameAlerts env s a n)
  execute-IsValid env (Call.set_paused a b) s v =
      config-IsValid _ v (set_paused-SameAlerts env s a b)
  execute-IsValid env (Call.set_watcher_registry a b) s v =
      config-IsValid _ v (set_watcher_registry-SameAlerts env s a b)
  execute-IsValid env (Call.register_alert a b l w rs ts) s v =
      state_of-IsValid _ (Registrations.register_alert-IsValid h env a b l w rs ts s v)
  execute-IsValid env (Call.batch_register_alerts a is) s v =
      state_of-IsValid _ (Registrations.batch_register_alerts-IsValid h env a is s v)
  execute-IsValid env (Call.pause_alert a id) s v =
      Updates.set_alert_active_by_admin-IsValid h env a id false s v
  execute-IsValid env (Call.unpause_alert a id) s v =
      Updates.set_alert_active_by_admin-IsValid h env a id true s v
  execute-IsValid env (Call.update_alert a id rs b) s v =
      Updates.update_alert-IsValid h env a id rs b s v
  execute-IsValid env (Call.update_webhook a id w) s v =
      Updates.update_webhook-IsValid h env a id w s v
  execute-IsValid env (Call.propose_webhook a id w) s v =
      Updates.propose_webhook-IsValid h env a id w s v
  execute-IsValid env (Call.update_label a id l) s v = Updates.update_label-IsValid h env a id l s v
  execute-IsValid env (Call.confirm_webhook a id) s v =
      Updates.confirm_webhook-IsValid h env a id s v
  execute-IsValid env (Call.remove_alert a id) s v = Updates.remove_alert-IsValid h env a id s v
  execute-IsValid env (Call.remove_alert_by_admin a id) s v =
      Updates.remove_alert_by_admin-IsValid h env a id s v
  execute-IsValid env (Call.bump_alert id t) s v = Renewals.bump_alert-IsValid h id t s v
  execute-IsValid env (Call.bulk_renew_ttl ids) s v =
      state_of-IsValid _ (Renewals.bulk_renew_ttl-IsValid h ids s v)
  execute-IsValid env (Call.get_alert id) s v =
      Ensures-ok _ (IsValid h) (Renewals.get_alert-IsValid h id s v)
  execute-IsValid env (Call.deactivate_all_alerts a) s v =
      state_of-IsValid _ (Renewals.deactivate_all_alerts-IsValid h env a s v)
  execute-IsValid env (Call.update_target_contract a id b) s v =
      Updates.update_target_contract-IsValid h env a id b s v
  execute-IsValid env (Call.transfer_alert_ownership a id b) s v =
      Updates.transfer_alert_ownership-IsValid h env a id b s v
  execute-IsValid env (Call.update_tags a id ts) s v = Updates.update_tags-IsValid h env a id ts s v

  commit-IsValid :
      (m : Outcome ContractError (State h)) (s : State h)
      → IsValid h s
      → Ensures (IsValid h) m
      → IsValid h (commit h m s)
  unfolding commit Ensures
  commit-IsValid (ok s') s v k = k
  commit-IsValid (err e) s v k = v
  commit-IsValid trap s v k = v

  expire-IsValid : (id : ℕ) (s : State h) → IsValid h s → IsValid h (advance h (Tick.expire id) s)
  unfolding advance
  expire-IsValid id s v = record {
    owners = Indexed-expire _ id v.owners (λ j. h.get-remove j id s.alerts) (λ a. refl);
    targets = Indexed-expire _ id v.targets (λ j. h.get-remove j id s.alerts) (λ a. refl);
    agree = λ j.
        ground (arith, h.get-remove j id s.alerts, h.get-remove j id s.alert_actives, v.agree j);
  }

  pub run-IsValid : (ticks : List Tick) (s : State h) → IsValid h s → IsValid h (run h ticks s)
  unfolding run advance
  run-IsValid [] s v = v
  run-IsValid (Tick.call env c ∷ ticks) s v =
      run-IsValid ticks _ (commit-IsValid _ s v (execute-IsValid env c s v))
  run-IsValid (Tick.expire id ∷ ticks) s v = run-IsValid ticks _ (expire-IsValid id s v)

  -- After any sequence of calls, failed ones among them, and of expiries of alerts, from the empty
  -- storage on: both indexes list every stored alert, under its owner and its target and nowhere
  -- else; every listed ID is below the counter and listed once; and the separate active flags are
  -- those in the records.
  pub run_from_fresh-IsValid :
      (ticks : List Tick) (s : State h) → IsFresh h s → IsValid h (run h ticks s)
  run_from_fresh-IsValid ticks s f = run-IsValid ticks s (fresh-IsValid s f)
