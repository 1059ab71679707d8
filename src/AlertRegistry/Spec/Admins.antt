-- ===== src/AlertRegistry/Spec/Admins.antt =====
-- The entry points of the configuration do to the map what `perform` says.
use stellar_txwatch_contract.Prelude.{
  ℕ, ◌≡◌, refl, ap, Bool, false, ◌&&◌, ltb, none, some, List, [], ◌∷◌, ◌++◌, ◌==◌, not, keep_if,
  arith, is_some, unwrap_or, Option-cases, inl, inr,
}
use stellar_txwatch_contract.Soroban.{Host, Address, Env, reject_if}
use stellar_txwatch_contract.Soroban.Access.{has}
use stellar_txwatch_contract.AlertRegistry.Types.{State, Event, admin_set, limit_too_low}
use stellar_txwatch_contract.AlertRegistry.Store.{
  decode_admins, publish, load_admins, set_admins, assert_admin, is_paused,
  get_per_owner_alert_limit, get_alert_count,
}
use stellar_txwatch_contract.AlertRegistry.Admin
use stellar_txwatch_contract.AlertRegistry.Calls.{Call}
use stellar_txwatch_contract.AlertRegistry.Spec.{view, by_admin, configure, perform}
use stellar_txwatch_contract.Soroban.Matching.{on_ok, on_ok->>=, on_ok->>=-eq, on_ok-ok}
use stellar_txwatch_contract.AlertRegistry.Spec.Matching.{Spec-eq}

-- No limit is too low: the test asks for a number other than 0 and below 1.
limit_never_too_low : (n : ℕ) → (not (n == 0) && ltb n 1) ≡ false
limit_never_too_low n = ground arith

module _ (h : Host) where
  view-set_admins :
      (e : Event) (l : List Address) (s : State h)
      → view h (publish h e (set_admins h l s)) ≡ record (view h s) { admins = some l }
  unfolding view set_admins load_admins decode_admins is_paused get_per_owner_alert_limit
      get_alert_count
  view-set_admins e l s =
      Spec-eq (λ j. refl) refl
        (ap (λ o. elim o [ none ↦ none | some raw ↦ some (decode_admins raw) ])
          (h.get-set 0 0 (admin_set l) s.admin))
        refl refl refl

  has-is_some : (s : State h) → has h 0 s.admin ≡ is_some (load_admins h s)
  unfolding load_admins
  has-is_some s = elim (Option-cases (h.get 0 s.admin)) [
    | inl absent ↦ rw (absent, load_admins)
    | inr (raw, there) ↦ rw (there, load_admins)
  ]

  pub initialize-perform :
      (env : Env) (a : Address) (s : State h)
      → on_ok (view h) (Admin.initialize h a s) ≡ perform env (Call.initialize a) (view h s)
  unfolding Admin.initialize perform view
  initialize-perform env a s =
      rw (has-is_some s)
        (on_ok->>= _ _ _ _ λ _ _. on_ok-ok (view h) _ (view-set_admins _ (a ∷ []) s))

  module _ (env : Env) (s : State h) where
    pub transfer_admin-perform :
        (a b : Address)
        → on_ok (view h) (Admin.transfer_admin h env a b s)
          ≡ perform env (Call.transfer_admin a b) (view h s)
    unfolding Admin.transfer_admin perform configure view by_admin assert_admin
    transfer_admin-perform a b =
        on_ok->>= _ _ _ _
          λ _ _. on_ok->>= _ _ _ _ λ _ _. on_ok-ok (view h) _ (view-set_admins _ (b ∷ []) s)

    pub add_admin-perform :
        (a b : Address)
        → on_ok (view h) (Admin.add_admin h env a b s) ≡ perform env (Call.add_admin a b) (view h s)
    unfolding Admin.add_admin perform view by_admin assert_admin
    add_admin-perform a b = on_ok->>= _ _ _ _ λ _ _. on_ok->>= _ _ _ _ λ _ _.
        on_ok->>= _ _ _ _ λ admins _.
          on_ok->>= _ _ _ _ λ _ _. on_ok-ok (view h) _ (view-set_admins _ (admins ++ b ∷ []) s)

    pub remove_admin-perform :
        (a b : Address)
        → on_ok (view h) (Admin.remove_admin h env a b s)
          ≡ perform env (Call.remove_admin a b) (view h s)
    unfolding Admin.remove_admin perform view by_admin assert_admin
    remove_admin-perform a b = on_ok->>= _ _ _ _ λ _ _. on_ok->>= _ _ _ _ λ _ _.
        on_ok->>= _ _ _ _ λ admins _. on_ok->>= _ _ _ _ λ _ _.
          on_ok->>= _ _ _ _
            λ _ _. on_ok-ok (view h) _ (view-set_admins _ (keep_if (λ x. not (x == b)) admins) s)

    pub set_per_owner_alert_limit-perform :
        (a : Address) (n : ℕ)
        → on_ok (view h) (Admin.set_per_owner_alert_limit h env a n s)
          ≡ perform env (Call.set_per_owner_alert_limit a n) (view h s)
    unfolding Admin.set_per_owner_alert_limit perform configure view by_admin assert_admin
        load_admins is_paused get_per_owner_alert_limit get_alert_count
    set_per_owner_alert_limit-perform a n = on_ok->>= _ _ _ _ λ _ _. on_ok->>= _ _ _ _ λ _ _.
        on_ok->>=-eq (view h) _ (ap (λ b. reject_if b limit_too_low) (limit_never_too_low n)) (
          on_ok-ok (view h) _ (
            Spec-eq (λ j. refl) refl refl refl (ap (λ o. unwrap_or o 0) (h.get-set 0 0 n s.limit))
              refl))

    pub set_paused-perform :
        (a : Address) (b : Bool)
        → on_ok (view h) (Admin.set_paused h env a b s)
          ≡ perform env (Call.set_paused a b) (view h s)
    unfolding Admin.set_paused perform configure view by_admin assert_admin load_admins is_paused
        get_per_owner_alert_limit get_alert_count
    set_paused-perform a b = on_ok->>= _ _ _ _ λ _ _. on_ok->>= _ _ _ _ λ _ _. on_ok-ok (view h) _ (
        Spec-eq (λ j. refl) refl refl (ap (λ o. unwrap_or o false) (h.get-set 0 0 b s.paused)) refl
          refl)

    pub set_watcher_registry-perform :
        (a b : Address)
        → on_ok (view h) (Admin.set_watcher_registry h env a b s)
          ≡ perform env (Call.set_watcher_registry a b) (view h s)
    unfolding Admin.set_watcher_registry perform configure view by_admin assert_admin load_admins
        is_paused get_per_owner_alert_limit get_alert_count
    set_watcher_registry-perform a b = on_ok->>= _ _ _ _ λ _ _. on_ok->>= _ _ _ _ λ _ _.
        on_ok-ok (view h) _ (Spec-eq (λ j. refl) refl refl refl refl (h.get-set 0 0 b s.watchreg))
