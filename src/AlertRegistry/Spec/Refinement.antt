-- ===== src/AlertRegistry/Spec/Refinement.antt =====
-- The registry implements its description: every call, and every history.
use stellar_txwatch_contract.Prelude.{◌≡◌, refl, ap, ◌∙◌, true, false, none, List, [], ◌∷◌}
use stellar_txwatch_contract.Soroban.{Host, Env, Outcome, ok, err, trap}
use stellar_txwatch_contract.AlertRegistry.Types.{ContractError, State}
use stellar_txwatch_contract.AlertRegistry.Update.{pause_alert, unpause_alert}
use stellar_txwatch_contract.AlertRegistry.Calls.{Call, Tick, execute, commit, advance, run}
use stellar_txwatch_contract.AlertRegistry.Invariant.{IsValid}
use stellar_txwatch_contract.AlertRegistry.Reachable.{IsFresh, fresh-IsValid, run-IsValid}
use stellar_txwatch_contract.AlertRegistry.Spec.{view, perform, settle, perform_tick, perform_all}
use stellar_txwatch_contract.Soroban.Matching.{on_ok, on_ok-ok, on_ok->>=-ok}
use stellar_txwatch_contract.AlertRegistry.Spec.Matching.{view-at_id}
use stellar_txwatch_contract.AlertRegistry.Spec.Admins
use stellar_txwatch_contract.AlertRegistry.Spec.Creation
use stellar_txwatch_contract.AlertRegistry.Spec.Edits
use stellar_txwatch_contract.AlertRegistry.Spec.Moves
use stellar_txwatch_contract.AlertRegistry.Spec.Renewals

module _ (h : Host) where
  -- In a valid state every call answers what its description answers on the map that the storage
  -- stands for: it traps, or fails with the same error, in the same cases, and where it succeeds the
  -- new storage stands for the new map.
  pub execute-perform :
      (env : Env) (c : Call) (s : State h)
      → IsValid h s
      → on_ok (view h) (execute h env c s) ≡ perform env c (view h s)
  unfolding execute pause_alert unpause_alert perform
  execute-perform env (Call.initialize a) s v = Admins.initialize-perform h env a s
  execute-perform env (Call.transfer_admin a b) s v = Admins.transfer_admin-perform h env s a b
  execute-perform env (Call.add_admin a b) s v = Admins.add_admin-perform h env s a b
  execute-perform env (Call.remove_admin a b) s v = Admins.remove_admin-perform h env s a b
  execute-perform env (Call.set_watcher_registry a b) s v =
      Admins.set_watcher_registry-perform h env s a b
  execute-perform env (Call.set_per_owner_alert_limit a n) s v =
      Admins.set_per_owner_alert_limit-perform h env s a n
  execute-perform env (Call.set_paused a b) s v = Admins.set_paused-perform h env s a b
  execute-perform env (Call.register_alert a b l w rs ts) s v =
      on_ok->>=-ok _ _ _ ∙ Creation.register_alert-perform h env a b l w rs ts s v
  execute-perform env (Call.batch_register_alerts a is) s v =
      on_ok->>=-ok _ _ _ ∙ Creation.batch_register_alerts-perform h env a is s v
  execute-perform env (Call.pause_alert a id) s v =
      Edits.set_alert_active_by_admin-switch h env s a id false
  execute-perform env (Call.unpause_alert a id) s v =
      Edits.set_alert_active_by_admin-switch h env s a id true
  execute-perform env (Call.update_alert a id rs b) s v =
      Edits.update_alert-perform h env s a id rs b v
  execute-perform env (Call.update_webhook a id w) s v =
      Edits.update_webhook-perform h env s a id w v
  execute-perform env (Call.propose_webhook a id w) s v =
      Edits.propose_webhook-perform h env s a id w
  execute-perform env (Call.update_label a id l) s v = Edits.update_label-perform h env s a id l v
  execute-perform env (Call.confirm_webhook a id) s v = Edits.confirm_webhook-perform h env s a id
  execute-perform env (Call.remove_alert a id) s v = Moves.remove_alert-perform h env s a id
  execute-perform env (Call.remove_alert_by_admin a id) s v =
      Moves.remove_alert_by_admin-perform h env s a id
  execute-perform env (Call.bump_alert id t) s v = Renewals.bump_alert-perform h env id t s v
  execute-perform env (Call.bulk_renew_ttl ids) s v =
      on_ok->>=-ok _ _ _ ∙ Renewals.bulk_renew_ttl-perform h env ids s v
  execute-perform env (Call.get_alert id) s v = on_ok-ok (view h) _ (Renewals.view-get_alert h id s)
  execute-perform env (Call.deactivate_all_alerts a) s v =
      on_ok->>=-ok _ _ _ ∙ Renewals.deactivate_all_alerts-perform h env a s v
  execute-perform env (Call.update_target_contract a id b) s v =
      Moves.update_target_contract-perform h env s a id b v
  execute-perform env (Call.transfer_alert_ownership a id b) s v =
      Moves.transfer_alert_ownership-perform h env s a id b v
  execute-perform env (Call.update_tags a id ts) s v = Edits.update_tags-perform h env s a id ts

  view-commit :
      (m : Outcome ContractError (State h)) (s : State h)
      → view h (commit h m s) ≡ settle (on_ok (view h) m) (view h s)
  unfolding commit on_ok settle
  view-commit (ok s') s = refl
  view-commit (err e) s = refl
  view-commit trap s = refl

  view-advance :
      (tick : Tick) (s : State h)
      → IsValid h s
      → view h (advance h tick s) ≡ perform_tick tick (view h s)
  unfolding advance perform_tick
  view-advance (Tick.call env c) s v =
      view-commit _ s ∙ ap (λ m. settle m (view h s)) (execute-perform env c s v)
  view-advance (Tick.expire id) s v =
      view-at_id h s _ id none refl (λ j. h.get-remove j id s.alerts)

  run_valid-perform_all :
      (ticks : List Tick) (s : State h)
      → IsValid h s
      → view h (run h ticks s) ≡ perform_all ticks (view h s)
  unfolding run perform_all
  run_valid-perform_all [] s v = refl
  run_valid-perform_all (tick ∷ ticks) s v =
      run_valid-perform_all ticks (advance h tick s) (run-IsValid h (tick ∷ []) s v)
      ∙ ap (perform_all ticks) (view-advance tick s v)

  -- From a storage without entries of alerts, after any sequence of calls, failed ones among them,
  -- and of expiries of alerts, the storage stands for the map that the description of the same
  -- sequence gives.
  pub run-perform_all :
      (ticks : List Tick) (s : State h)
      → IsFresh h s
      → view h (run h ticks s) ≡ perform_all ticks (view h s)
  run-perform_all ticks s f = run_valid-perform_all ticks s (fresh-IsValid h s f)
