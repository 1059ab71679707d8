-- ===== src/WatcherRegistry/AdminSet.antt =====
-- The admin set of the watcher registry: never empty once it is set, and no admin twice.
use stellar_txwatch_contract.Prelude.{
  ◌≡◌, refl, ap, true, false, not, Option, none, some, List, [], ◌∷◌, arith, ◌==◌, contains,
  distinct, length-keep_if_ne, distinct-keep_if, distinct-snoc, length-append, Bool-cases, inl, inr,
  unwrap_or, ==-refl, ◌⊎◌,
}
use stellar_txwatch_contract.Soroban.{
  Host, Address, Env, Outcome, ok, err, trap, ◌>>=◌, Ensures, Ensures->>=, Ensures-ok,
  reject_if-eq-ok,
}
use stellar_txwatch_contract.WatcherRegistry.Types.{ContractError, State, not_initialized}
use stellar_txwatch_contract.WatcherRegistry.Queries.{
  get_admin, get_admins, first_admin, is_admin, is_initialized,
}
use stellar_txwatch_contract.WatcherRegistry.Calls.{Call, Tick, run}
use stellar_txwatch_contract.WatcherRegistry.Spec.{Registry, view, perform, settle, perform_all}
use stellar_txwatch_contract.WatcherRegistry.Spec.Refinement.{IsFresh, run-perform_all_roster}
use stellar_txwatch_contract.AlertRegistry.AdminSet.{AdminsOk}
use stellar_txwatch_contract.WatcherRegistry.Store.{load_admins}

distinct-admins : (o : Option (List Address)) → AdminsOk o → distinct (unwrap_or o []) ≡ true
unfolding distinct
distinct-admins none v = refl
distinct-admins (some l) v = v.0

-- No description of a call loses the admins.
module _ (env : Env) (v : Registry) (k : AdminsOk v.admins) where
  abbrev P : Registry → Type 0
  P w = AdminsOk w.admins

  add_admin-AdminsOk : (a b : Address) → Ensures P (perform env (Call.add_admin a b) v)
  unfolding perform
  add_admin-AdminsOk a b = Ensures->>= P _ _ λ _ _.
      let l = unwrap_or v.admins [] in
      elim (Bool-cases (contains l b)) [
        | inl there ↦ rw there (Ensures-ok ContractError P k)
        | inr new ↦ rw new (
            Ensures-ok ContractError P (
              distinct-snoc l b (distinct-admins v.admins k) new,
              omega (arith, length-append l (b ∷ [])),
            ))
      ]

  remove_admin-AdminsOk : (a b : Address) → Ensures P (perform env (Call.remove_admin a b) v)
  unfolding perform
  remove_admin-AdminsOk a b = Ensures->>= P _ _ λ _ _. Ensures->>= P _ _ λ _ many.
      let l = unwrap_or v.admins [] in
      let d = distinct-admins v.admins k in
      Ensures-ok ContractError P (
        distinct-keep_if (λ x. not (x == b)) l d,
        ground (arith, length-keep_if_ne b l d, reject_if-eq-ok _ _ many),
      )

  one-AdminsOk : (b : Address) → AdminsOk (some (b ∷ []))
  unfolding distinct contains
  one-AdminsOk b = (refl, omega arith)

  perform-AdminsOk : (c : Call) → Ensures P (perform env c v)
  unfolding perform
  perform-AdminsOk (Call.initialize a) =
      Ensures->>= P _ _ λ _ _. Ensures->>= P _ _ λ _ _. Ensures-ok ContractError P (one-AdminsOk a)
  perform-AdminsOk (Call.add_admin a b) = add_admin-AdminsOk a b
  perform-AdminsOk (Call.remove_admin a b) = remove_admin-AdminsOk a b
  perform-AdminsOk (Call.transfer_admin a b) =
      Ensures->>= P _ _ λ _ _. Ensures->>= P _ _ λ _ _. Ensures-ok ContractError P (one-AdminsOk b)
  perform-AdminsOk (Call.set_paused a b) =
      Ensures->>= P _ _ λ _ _. Ensures->>= P _ _ λ _ _. Ensures-ok ContractError P k
  perform-AdminsOk (Call.remove_watcher a w) =
      Ensures->>= P _ _ λ _ _. Ensures->>= P _ _ λ _ _. Ensures-ok ContractError P k
  perform-AdminsOk (Call.replace_watcher a o n) =
      Ensures->>= P _ _ λ _ _. Ensures->>= P _ _ λ _ _. Ensures-ok ContractError P k
  perform-AdminsOk (Call.batch_register_watchers a ws) =
      Ensures->>= P _ _
        λ _ _. Ensures->>= P _ _ λ _ _. Ensures->>= P _ _ λ _ _. Ensures-ok ContractError P k
  perform-AdminsOk (Call.renew_watcher a w e) =
      Ensures->>= P _ _ λ _ _. Ensures->>= P _ _ λ _ _. Ensures-ok ContractError P k
  perform-AdminsOk (Call.clear_all_watchers a) =
      Ensures->>= P _ _ λ _ _. Ensures-ok ContractError P k
  perform-AdminsOk (Call.is_watcher_authorized a) = Ensures-ok ContractError P k
  perform-AdminsOk (Call.is_authorized a) = Ensures-ok ContractError P k

settle-AdminsOk :
    (m : Outcome ContractError Registry) (v : Registry)
    → AdminsOk v.admins
    → Ensures (λ w. AdminsOk w.admins) m
    → AdminsOk (settle m v).admins
unfolding settle Ensures
settle-AdminsOk (ok w) v k e = e
settle-AdminsOk (err x) v k e = k
settle-AdminsOk trap v k e = k

perform_all-AdminsOk :
    (ticks : List Tick) (v : Registry) → AdminsOk v.admins → AdminsOk (perform_all ticks v).admins
unfolding perform_all
perform_all-AdminsOk [] v k = k
perform_all-AdminsOk ((env, c) ∷ ticks) v k =
    perform_all-AdminsOk ticks _ (settle-AdminsOk _ v k (perform-AdminsOk env v k c))

module _ (h : Host) where
  -- The contract is not initialized, or an admin is in charge.
  abbrev pub IsManaged : State h → Type 0
  IsManaged s =
      ((is_initialized h s ≡ false) × (get_admin h s ≡ err not_initialized))
      ⊎ ((is_initialized h s ≡ true)
          × ((a : Address) × (get_admin h s ≡ ok a) × (is_admin h a s ≡ true)))

  load_admins-IsManaged :
      (o : Option (List Address)) (s : State h) → h.get 0 s.admins ≡ o → AdminsOk o → IsManaged s
  unfolding is_initialized get_admin get_admins first_admin is_admin load_admins contains ◌>>=◌
  load_admins-IsManaged none s e k = inl (rw e, rw e)
  load_admins-IsManaged (some []) s e k = absurd (omega (arith, k.1))
  load_admins-IsManaged (some (a ∷ l)) s e k = inr (rw e, (a, rw e, rw (e, ==-refl a)))

  -- From a storage without entries of admins and watchers, after any sequence of calls of the watcher registry but
  -- `register_watcher`, failed ones among them: the contract is not initialized and `get_admin` says so, or it is,
  -- and `get_admin` returns an address that `is_admin` confirms.
  pub run-IsManaged :
      (ticks : List Tick) (s : State h)
      → IsFresh h s
      → h.get 0 s.admins ≡ none
      → IsManaged (run h ticks s)
  unfolding view
  run-IsManaged ticks s f empty =
      let (e, _) = run-perform_all_roster h ticks s f in
      let start : AdminsOk (view h s).admins = rw empty tt in
      load_admins-IsManaged _ (run h ticks s) (ap (λ v. v.admins) e)
        (perform_all-AdminsOk ticks (view h s) start)
