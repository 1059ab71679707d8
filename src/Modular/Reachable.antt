-- ===== src/Modular/Reachable.antt =====
-- The invariant holds in every state that the second implementation can reach.
use stellar_txwatch_contract.Prelude.{ℕ, ◌≡◌, refl, none, List, [], ◌∷◌}
use stellar_txwatch_contract.Soroban.{Host, Env, Outcome, ok, err, trap, Ensures}
use stellar_txwatch_contract.Indexed.{Indexed-empty, Indexed-expire}
use stellar_txwatch_contract.Modular.Types.{ContractError, State}
use stellar_txwatch_contract.Modular.Calls.{Call, Tick, execute, commit, advance, run}
use stellar_txwatch_contract.Modular.Invariant.{IsValid}
use stellar_txwatch_contract.Modular.Invariant.Operations

-- The storage of a contract that has just been deployed: no entry of alerts.
pub record IsFresh (h : Host) (s : State h) : Type 0 where
  pub no_alert : (id : ℕ) → h.get id s.alerts ≡ none
  pub no_owner_index : (a : ℕ) → h.get a s.owner_indexes ≡ none
  pub no_contract_index : (a : ℕ) → h.get a s.contract_indexes ≡ none

module _ (h : Host) where
  fresh-IsValid : (s : State h) → IsFresh h s → IsValid h s
  fresh-IsValid s f = record {
    owners = Indexed-empty _ f.no_alert (λ a. rw (f.no_owner_index a));
    targets = Indexed-empty _ f.no_alert (λ a. rw (f.no_contract_index a));
  }

  execute-IsValid :
      (env : Env) (c : Call) (s : State h) → IsValid h s → Ensures (IsValid h) (execute h env c s)
  unfolding execute
  execute-IsValid env (Call.initialize a) s v =
      Operations.config-IsValid h env s v _ (Operations.initialize-SameAlerts h env s v a)
  execute-IsValid env (Call.transfer_admin a b) s v =
      Operations.config-IsValid h env s v _ (Operations.transfer_admin-SameAlerts h env s v a b)
  execute-IsValid env (Call.set_per_owner_alert_limit a n) s v =
      Operations.config-IsValid h env s v _
        (Operations.set_per_owner_alert_limit-SameAlerts h env s v a n)
  execute-IsValid env (Call.set_paused a b) s v =
      Operations.config-IsValid h env s v _ (Operations.set_paused-SameAlerts h env s v a b)
  execute-IsValid env (Call.register_alert a b l w rs) s v =
      Operations.state_of-IsValid h _ (Operations.register_alert-IsValid h env s v a b l w rs)
  execute-IsValid env (Call.update_alert a id rs b) s v =
      Operations.update_alert-IsValid h env s v a id rs b
  execute-IsValid env (Call.update_webhook o b a id w) s v =
      Operations.update_webhook-IsValid h env s v o b a id w
  execute-IsValid env (Call.propose_webhook a id w) s v =
      Operations.propose_webhook-IsValid h env s v a id w
  execute-IsValid env (Call.confirm_webhook a id) s v =
      Operations.confirm_webhook-IsValid h env s v a id
  execute-IsValid env (Call.renew_alert_ttl a id) s v =
      Operations.renew_alert_ttl-IsValid h env s v a id
  execute-IsValid env (Call.remove_alert a id) s v = Operations.remove_alert-IsValid h env s v a id
  execute-IsValid env (Call.remove_alert_by_admin a id) s v =
      Operations.remove_alert_by_admin-IsValid h env s v a id
  execute-IsValid env (Call.bulk_renew_ttl ids) s v =
      Operations.state_of-IsValid h _ (Operations.bulk_renew_ttl-IsValid h env s v ids)

  commit-IsValid :
      (m : Outcome ContractError (State h)) (s : State h)
      → IsValid h s
      → Ensures (IsValid h) m
      → IsValid h (commit h m s)
  unfolding commit Ensures
  commit-IsValid (ok s') s v k = k
  commit-IsValid (err e) s v k = v
  commit-IsValid trap s v k = v

  run-IsValid : (ticks : List Tick) (s : State h) → IsValid h s → IsValid h (run h ticks s)
  unfolding run advance
  run-IsValid [] s v = v
  run-IsValid (Tick.call env c ∷ ticks) s v =
      run-IsValid ticks _ (commit-IsValid _ s v (execute-IsValid env c s v))
  run-IsValid (Tick.expire id ∷ ticks) s v = run-IsValid ticks _ (record {
    owners = Indexed-expire _ id v.owners (λ j. h.get-remove j id s.alerts) (λ a. refl);
    targets = Indexed-expire _ id v.targets (λ j. h.get-remove j id s.alerts) (λ a. refl);
  })

  -- In the second implementation, after any sequence of calls, failed ones among them, and of expiries
  -- of alerts, from a storage without entries of alerts on: both indexes list every stored alert, under
  -- its owner and its target and nowhere else, and every listed ID is below the counter and listed once.
  pub run_fresh-IsValid :
      (ticks : List Tick) (s : State h) → IsFresh h s → IsValid h (run h ticks s)
  run_fresh-IsValid ticks s f = run-IsValid ticks s (fresh-IsValid s f)
