-- ===== src/WatcherRegistry/Spec/Refinement.antt =====
-- The watcher registry implements its description: every call, and every history.
use stellar_txwatch_contract.Prelude.{ℕ, ◌≡◌, refl, ap, ◌∙◌, none, List, [], ◌∷◌, arith, distinct}
use stellar_txwatch_contract.Soroban.{Host, Address, Env, Outcome, ok, err, trap}
use stellar_txwatch_contract.Soroban.Matching.{on_ok, on_ok->>=-ok}
use stellar_txwatch_contract.WatcherRegistry.Types.{ContractError, State}
use stellar_txwatch_contract.WatcherRegistry.Store.{
  map_get, get_watcher_count, load_expiries, load_watchers,
}
use stellar_txwatch_contract.WatcherRegistry.Queries.{is_authorized_at}
use stellar_txwatch_contract.WatcherRegistry.Spec.{allows}
use stellar_txwatch_contract.WatcherRegistry.Spec.Admins as AdminCalls
use stellar_txwatch_contract.WatcherRegistry.Spec.Consistent.{
  IsConsistent, execute-IsConsistent, commit-IsConsistent,
}
use stellar_txwatch_contract.WatcherRegistry.Spec.Enlisting
use stellar_txwatch_contract.WatcherRegistry.Spec.Watchers as WatcherCalls
use stellar_txwatch_contract.WatcherRegistry.Calls.{Call, Tick, execute, commit, run}
use stellar_txwatch_contract.WatcherRegistry.Spec.{view, perform, settle, perform_all}
use stellar_txwatch_contract.WatcherRegistry.Spec.Rosters

module _ (h : Host) where
  -- In a consistent storage every call of the watcher registry but `register_watcher` answers what its
  -- description answers on the roster that the storage stands for: it traps, or fails with the same error, in the same
  -- cases, and where it succeeds the new storage stands for the new roster.
  pub execute-perform_roster :
      (env : Env) (c : Call) (s : State h)
      → IsConsistent h s
      → on_ok (view h) (execute h env c s) ≡ perform env c (view h s)
  unfolding execute
  execute-perform_roster env (Call.initialize a) s v = AdminCalls.initialize-perform h env s a
  execute-perform_roster env (Call.add_admin a b) s v = AdminCalls.add_admin-perform h env s a b
  execute-perform_roster env (Call.remove_admin a b) s v =
      AdminCalls.remove_admin-perform h env s a b
  execute-perform_roster env (Call.transfer_admin a b) s v =
      AdminCalls.transfer_admin-perform h env s a b
  execute-perform_roster env (Call.set_paused a b) s v = AdminCalls.set_paused-perform h env s a b
  execute-perform_roster env (Call.remove_watcher a w) s v =
      WatcherCalls.remove_watcher-perform h env s a w
  execute-perform_roster env (Call.replace_watcher a o n) s v =
      Enlisting.replace_watcher-perform h env s a o n v.fresh
  execute-perform_roster env (Call.batch_register_watchers a ws) s v =
      on_ok->>=-ok _ _ _ ∙ Enlisting.batch_register_watchers-perform h env s a ws v.counted v.fresh
  execute-perform_roster env (Call.renew_watcher a w e) s v =
      WatcherCalls.renew_watcher-perform h env s a w e
  execute-perform_roster env (Call.clear_all_watchers a) s v =
      WatcherCalls.clear_all_watchers-perform h env s a
  execute-perform_roster env (Call.is_watcher_authorized a) s v =
      AdminCalls.is_watcher_authorized-perform h env s a
  execute-perform_roster env (Call.is_authorized a) s v = AdminCalls.is_authorized-perform h env s a

  view-commit :
      (m : Outcome ContractError (State h)) (s : State h)
      → view h (commit h m s) ≡ settle (on_ok (view h) m) (view h s)
  unfolding commit on_ok settle
  view-commit (ok s') s = refl
  view-commit (err e) s = refl
  view-commit trap s = refl

  -- No list, no expiries and no count.
  pub record IsFresh (s : State h) : Type 0 where
    pub no_watchers : h.get 0 s.watchers ≡ none
    pub no_expiries : h.get 0 s.expiries ≡ none
    pub no_count : h.get 0 s.count ≡ none

  fresh-IsConsistent : (s : State h) → IsFresh s → IsConsistent h s
  unfolding load_watchers load_expiries get_watcher_count distinct map_get
  fresh-IsConsistent s f = record {
    counted = record {
      unique = rw f.no_watchers;
      bound = rw f.no_watchers (omega arith);
      count = rw (f.no_watchers, f.no_count);
    };
    fresh = λ a out. rw f.no_expiries;
  }

  run_consistent-perform_all :
      (ticks : List Tick) (s : State h)
      → IsConsistent h s
      → view h (run h ticks s) ≡ perform_all ticks (view h s)
  unfolding run perform_all
  run_consistent-perform_all [] s v = refl
  run_consistent-perform_all ((env, c) ∷ ticks) s v =
      run_consistent-perform_all ticks (commit h (execute h env c s) s)
        (commit-IsConsistent h _ s v (execute-IsConsistent h env c s v))
      ∙ ap (perform_all ticks)
          (view-commit _ s ∙ ap (λ m. settle m (view h s)) (execute-perform_roster env c s v))

  -- From a storage without entries of watchers, after any sequence of calls of the watcher registry but
  -- `register_watcher`, failed ones among them, the storage stands for the roster that the description of the same sequence gives, and an
  -- address is authorized at a time exactly if that roster allows it then.
  pub run-perform_all_roster :
      (ticks : List Tick) (s : State h)
      → IsFresh s
      → (view h (run h ticks s) ≡ perform_all ticks (view h s))
        × ((now : ℕ) (a : Address)
            → is_authorized_at h now a (run h ticks s)
              ≡ allows now a (perform_all ticks (view h s)).roster)
  run-perform_all_roster ticks s f =
      let e = run_consistent-perform_all ticks s (fresh-IsConsistent s f) in
      (
        e,
        λ now a.
            Rosters.is_authorized_at-allows h now a (run h ticks s)
            ∙ ap (λ v. allows now a v.roster) e,
      )
