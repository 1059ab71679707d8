-- ===== src/WatcherRegistry/Spec/Consistent.antt =====
-- The storage of the watcher registry stays consistent.
use stellar_txwatch_contract.Prelude.{
  ℕ, ◌≤◌, refl, ◌∙◌, Option, none, List, [], arith, length, contains, Bool-cases, inl, inr,
}
use stellar_txwatch_contract.Soroban.{
  Host, Address, Env, Outcome, ok, err, trap, Ensures, Ensures-eq-ok, Ensures->>=, Ensures-ok,
  Ensures-of, reject_if-eq-ok,
}
use stellar_txwatch_contract.WatcherRegistry.Types.{ContractError, State, max_watchers}
use stellar_txwatch_contract.WatcherRegistry.Store.{
  map_get, map_remove, load_expiries, load_watchers,
}
use stellar_txwatch_contract.WatcherRegistry.Queries
use stellar_txwatch_contract.WatcherRegistry.Watchers
use stellar_txwatch_contract.WatcherRegistry.Counting.{
  IsCounted, IsCounted-same, watcher_calls-IsCounted,
}
use stellar_txwatch_contract.WatcherRegistry.Revocation.{left_state}
use stellar_txwatch_contract.WatcherRegistry.Spec.Admins as AdminCalls
use stellar_txwatch_contract.WatcherRegistry.Spec.Enlisting
use stellar_txwatch_contract.WatcherRegistry.Spec.Watchers as WatcherCalls
use stellar_txwatch_contract.WatcherRegistry.Calls.{Call, execute, commit, state_of}
use stellar_txwatch_contract.WatcherRegistry.Spec.Rosters

-- The watcher list is counted, and only watchers have an expiry.
pub record IsConsistent (h : Host) (s : State h) : Type 0 where
  pub counted : IsCounted h s
  pub fresh : WatcherCalls.NoStale h s

module _ (h : Host) where
  -- No call leaves an expiry of an address that is not on the list.
  module _ (env : Env) (a : Address) (s : State h) (v : IsConsistent h s) where
    abbrev N : State h → Type 0
    N = WatcherCalls.NoStale h

    remove_watcher-NoStale : (w : Address) → Ensures N (Watchers.remove_watcher h env a w s)
    unfolding Watchers.remove_watcher left_state
    remove_watcher-NoStale w = Ensures->>= N _ _ λ _ _. Ensures->>= N _ _ λ _ _. Ensures-ok _ N (
        WatcherCalls.NoStale-Effect h (WatcherCalls.left_state-Effect h w s)
          (WatcherCalls.NoStale-without h w (load_expiries h s) (load_watchers h s) v.fresh))

    clear_all_watchers-NoStale : Ensures N (Watchers.clear_all_watchers h env a s)
    unfolding Watchers.clear_all_watchers WatcherCalls.cleared_state map_get
    clear_all_watchers-NoStale = Ensures->>= N _ _ λ _ _.
        Ensures-ok _ N
          (WatcherCalls.NoStale-Effect h (WatcherCalls.cleared_state-Effect h s) (λ b out. refl))

    renew_watcher-NoStale :
        (w : Address) (e : Option ℕ) → Ensures N (Watchers.renew_watcher h env a w e s)
    unfolding Watchers.renew_watcher WatcherCalls.renewed_state
    renew_watcher-NoStale w e = Ensures->>= N _ _ λ _ _. Ensures->>= N _ _ λ _ there.
        Ensures-ok _ N (
          WatcherCalls.NoStale-Effect h (WatcherCalls.renewed_state-Effect h w e s) (λ b out.
            Rosters.map_get-set_to w b e (load_expiries h s)
            ∙ ground (arith, v.fresh b, reject_if-eq-ok _ _ there)))

    replace_watcher-NoStale : (o n : Address) → Ensures N (Watchers.replace_watcher h env a o n s)
    unfolding Watchers.replace_watcher Enlisting.replaced_state
    replace_watcher-NoStale o n = Ensures->>= N _ _ λ _ _. Ensures->>= N _ _ λ _ _. Ensures-ok _ N (
        WatcherCalls.NoStale-Effect h (Enlisting.replaced_state-Effect h env a o n s) (
          let m = map_remove o (load_expiries h s) in
          let l = Watchers.without o (load_watchers h s) in
          let fresh =
            WatcherCalls.NoStale-without h o (load_expiries h s) (load_watchers h s) v.fresh in
          elim (Bool-cases (contains l n)) [
            | inl there ↦ rw there fresh
            | inr new ↦ rw new (Rosters.NoStale-snoc m n l fresh)
          ]))

    batch_register_watchers-NoStale :
        (ws : List Address) → Ensures (λ r. N r.1) (Watchers.batch_register_watchers h env a ws s)
    unfolding Watchers.batch_register_watchers Enlisting.merged_state
    batch_register_watchers-NoStale ws =
        let P = λ (r : ℕ × State h). N r.1 in
        Ensures->>= P _ _ λ _ _. Ensures->>= P _ _ λ _ _. Ensures->>= P _ _ λ _ few.
          let small : length (Watchers.merge ws (load_watchers h s) []).0 ≤ max_watchers =
            ground (arith, reject_if-eq-ok _ _ few) in
          let (s', e, q) = Enlisting.batch_counts h ws s v.counted small in
          let fresh : N s' =
            WatcherCalls.NoStale-Effect h q
              (Rosters.NoStale-merge (load_expiries h s) ws (load_watchers h s) [] v.fresh) in
          Ensures->>= P _ _ λ s'' e''.
            Ensures-ok _ P (Ensures-eq-ok N (rw e (Ensures-ok ContractError N fresh)) e'')

  both :
      {A : Type 0} (f : A → State h) (m : Outcome ContractError A)
      → Ensures (λ r. IsCounted h (f r)) m
      → Ensures (λ r. WatcherCalls.NoStale h (f r)) m
      → Ensures (λ r. IsConsistent h (f r)) m
  both f m c n =
      Ensures-of _ m λ r e. record { counted = Ensures-eq-ok _ c e; fresh = Ensures-eq-ok _ n e }

  state_of-IsConsistent :
      (m : Outcome ContractError (ℕ × State h))
      → Ensures (λ r. IsConsistent h r.1) m
      → Ensures (IsConsistent h) (state_of h m)
  state_of-IsConsistent m k =
      Ensures->>= (IsConsistent h) _ _ λ r e. Ensures-ok _ (IsConsistent h) (Ensures-eq-ok _ k e)

  -- The invariant does not read the admins.
  SameWatchers-IsConsistent :
      (s : State h) (m : Outcome ContractError (State h))
      → IsConsistent h s
      → Ensures (AdminCalls.SameWatchers h s) m
      → Ensures (IsConsistent h) m
  unfolding load_watchers load_expiries
  SameWatchers-IsConsistent s m v k = Ensures-of (IsConsistent h) m λ s' e.
      let (w, x, c) = Ensures-eq-ok _ k e in
      record { counted = IsCounted-same h s s' v.counted w c; fresh = rw (w, x) v.fresh }

  pub execute-IsConsistent :
      (env : Env) (c : Call) (s : State h)
      → IsConsistent h s
      → Ensures (IsConsistent h) (execute h env c s)
  unfolding execute Queries.is_authorized
  execute-IsConsistent env (Call.initialize a) s v =
      SameWatchers-IsConsistent s _ v (AdminCalls.initialize-SameWatchers h env s a)
  execute-IsConsistent env (Call.add_admin a b) s v =
      SameWatchers-IsConsistent s _ v (AdminCalls.add_admin-SameWatchers h env s a b)
  execute-IsConsistent env (Call.remove_admin a b) s v =
      SameWatchers-IsConsistent s _ v (AdminCalls.remove_admin-SameWatchers h env s a b)
  execute-IsConsistent env (Call.transfer_admin a b) s v =
      SameWatchers-IsConsistent s _ v (AdminCalls.transfer_admin-SameWatchers h env s a b)
  execute-IsConsistent env (Call.set_paused a b) s v =
      SameWatchers-IsConsistent s _ v (AdminCalls.set_paused-SameWatchers h env s a b)
  execute-IsConsistent env (Call.remove_watcher a w) s v =
      both (λ t. t) _ (watcher_calls-IsCounted h env a s v.counted w w none []).0
        (remove_watcher-NoStale env a s v w)
  execute-IsConsistent env (Call.replace_watcher a o n) s v =
      both (λ t. t) _ (watcher_calls-IsCounted h env a s v.counted o n none []).1
        (replace_watcher-NoStale env a s v o n)
  execute-IsConsistent env (Call.batch_register_watchers a ws) s v = state_of-IsConsistent _ (
      both (λ r. r.1) _ (watcher_calls-IsCounted h env a s v.counted a a none ws).2
        (batch_register_watchers-NoStale env a s v ws))
  execute-IsConsistent env (Call.renew_watcher a w e) s v =
      both (λ t. t) _ (watcher_calls-IsCounted h env a s v.counted w w e []).3
        (renew_watcher-NoStale env a s v w e)
  execute-IsConsistent env (Call.clear_all_watchers a) s v =
      both (λ t. t) _ (watcher_calls-IsCounted h env a s v.counted a a none []).4
        (clear_all_watchers-NoStale env a s v)
  execute-IsConsistent env (Call.is_watcher_authorized a) s v =
      SameWatchers-IsConsistent s _ v (AdminCalls.is_watcher_authorized-SameWatchers h env s a)
  execute-IsConsistent env (Call.is_authorized a) s v =
      SameWatchers-IsConsistent s _ v (AdminCalls.is_watcher_authorized-SameWatchers h env s a)

  pub commit-IsConsistent :
      (m : Outcome ContractError (State h)) (s : State h)
      → IsConsistent h s
      → Ensures (IsConsistent h) m
      → IsConsistent h (commit h m s)
  unfolding commit Ensures
  commit-IsConsistent (ok s') s v k = k
  commit-IsConsistent (err e) s v k = v
  commit-IsConsistent trap s v k = v
