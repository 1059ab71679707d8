-- ===== src/WatcherRegistry/Spec/Admins.antt =====
-- The entry points on the admin set and the pause do to the registry what `perform` says.
use stellar_txwatch_contract.Prelude.{
  ◌≡◌, refl, ◌∙◌, Bool, false, not, some, List, [], ◌∷◌, ◌++◌, arith, ◌==◌, contains, unwrap_or,
  keep_if, Bool-cases, Option-cases, inl, inr,
}
use stellar_txwatch_contract.Soroban.{
  Host, Address, Env, ok, ◌>>=◌, Ensures, Ensures-of, Ensures-ok,
}
use stellar_txwatch_contract.Soroban.Access.{load_list}
use stellar_txwatch_contract.Soroban.Matching.{on_ok, on_ok->>=, on_ok->>=-same, on_ok-ok}
use stellar_txwatch_contract.WatcherRegistry.Types.{ContractError, State, Event}
use stellar_txwatch_contract.WatcherRegistry.Store.{
  publish, extend_instance_ttl, is_paused, assert_not_paused, load_expiries, load_watchers,
  load_admins, save_admins, assert_admin,
}
use stellar_txwatch_contract.WatcherRegistry.Admins
use stellar_txwatch_contract.WatcherRegistry.Queries
use stellar_txwatch_contract.WatcherRegistry.Calls.{Call}
use stellar_txwatch_contract.WatcherRegistry.Spec.{view, by_admin, allowed, perform}

module _ (h : Host) where
  -- `assert_admin` reads the admin set that the description has.
  pub assert_admin-by_admin :
      (a : Address) (s : State h) → assert_admin h a s ≡ by_admin a (view h s)
  unfolding assert_admin load_admins by_admin view ◌>>=◌
  assert_admin-by_admin a s = elim (Option-cases (h.get 0 s.admins)) [
    | inl absent ↦ rw absent
    | inr (l, there) ↦ rw there
  ]

  pub privileged-allowed :
      (env : Env) (a : Address) (s : State h)
      → Admins.privileged h env a s ≡ allowed env a (view h s)
  unfolding Admins.privileged allowed view assert_not_paused
  privileged-allowed env a s = rw assert_admin-by_admin

  -- What a call on the admins leaves alone.
  abbrev pub SameWatchers : State h → State h → Type 0
  SameWatchers s s' = (s'.watchers ≡ s.watchers) × (s'.expiries ≡ s.expiries) × (s'.count ≡ s.count)

  view-saved_admins :
      (e : Event) (l : List Address) (s : State h)
      → view h (publish h e (extend_instance_ttl h (save_admins h l s)))
        ≡ record (view h s) { admins = some l }
  unfolding view extend_instance_ttl save_admins load_watchers load_expiries is_paused
  view-saved_admins e l s = λ i. record (view h s) { admins = h.get-set 0 0 l s.admins i }

  view-publish : (e : Event) (s : State h) → view h (publish h e s) ≡ view h s
  unfolding view load_watchers load_expiries is_paused
  view-publish e s = refl

  module _ (env : Env) (s : State h) where
    pub initialize-perform :
        (a : Address)
        → on_ok (view h) (Admins.initialize h env a s) ≡ perform env (Call.initialize a) (view h s)
    unfolding Admins.initialize perform view
    initialize-perform a =
        on_ok->>= _ _ _ _
          λ _ _. on_ok->>= _ _ _ _ λ _ _. on_ok-ok (view h) _ (view-saved_admins _ (a ∷ []) s)

    pub add_admin-perform :
        (a b : Address)
        → on_ok (view h) (Admins.add_admin h env a b s)
          ≡ perform env (Call.add_admin a b) (view h s)
    unfolding Admins.add_admin perform view load_admins
    add_admin-perform a b = on_ok->>=-same _ _ _ (privileged-allowed env a s) λ _ _.
        let l = load_list h 0 s.admins in
        elim (Bool-cases (contains l b)) [
          | inl there ↦ rw there (on_ok-ok (view h) s refl)
          | inr new ↦ rw new (on_ok-ok (view h) _ (view-saved_admins _ (l ++ b ∷ []) s))
        ]

    pub remove_admin-perform :
        (a b : Address)
        → on_ok (view h) (Admins.remove_admin h env a b s)
          ≡ perform env (Call.remove_admin a b) (view h s)
    unfolding Admins.remove_admin perform view load_admins
    remove_admin-perform a b = on_ok->>=-same _ _ _ (privileged-allowed env a s) λ _ _.
        on_ok->>= _ _ _ _ λ _ _.
          let l = keep_if (λ x. not (x == b)) (load_list h 0 s.admins) in
          elim (Bool-cases (a == b)) [
            | inl self ↦ rw self (
                on_ok-ok (view h) _ (
                  view-publish (Event.admin_self_remove a) _
                  ∙ view-saved_admins (Event.admin_remove a b) l s))
            | inr other ↦ rw other (on_ok-ok (view h) _ (view-saved_admins _ l s))
          ]

    pub transfer_admin-perform :
        (a b : Address)
        → on_ok (view h) (Admins.transfer_admin h env a b s)
          ≡ perform env (Call.transfer_admin a b) (view h s)
    unfolding Admins.transfer_admin perform view load_admins
    transfer_admin-perform a b =
        on_ok->>=-same _ _ _ (privileged-allowed env a s)
          λ _ _. on_ok->>= _ _ _ _ λ _ _. on_ok-ok (view h) _ (view-saved_admins _ (b ∷ []) s)

    view-set_paused :
        (e : Event) (b : Bool)
        → view h (publish h e (extend_instance_ttl h (record s { paused = h.set 0 b s.paused })))
          ≡ record (view h s) { paused = b }
    unfolding view extend_instance_ttl load_watchers load_expiries is_paused
    view-set_paused e b =
        λ i. record (view h s) { paused = unwrap_or (h.get-set 0 0 b s.paused i) false }

    pub set_paused-perform :
        (a : Address) (b : Bool)
        → on_ok (view h) (Admins.set_paused h env a b s)
          ≡ perform env (Call.set_paused a b) (view h s)
    unfolding Admins.set_paused perform
    set_paused-perform a b = on_ok->>= _ _ _ _ λ _ _.
        on_ok->>=-same _ _ _ (assert_admin-by_admin a s)
          λ _ _. on_ok-ok (view h) _ (view-set_paused _ b)

    pub initialize-SameWatchers :
        (a : Address) → Ensures (SameWatchers s) (Admins.initialize h env a s)
    unfolding ◌>>=◌ Admins.initialize save_admins extend_instance_ttl
    initialize-SameWatchers a = Ensures-of _ _ λ s' e. ground arith

    pub add_admin-SameWatchers :
        (a b : Address) → Ensures (SameWatchers s) (Admins.add_admin h env a b s)
    unfolding ◌>>=◌ Admins.add_admin save_admins extend_instance_ttl
    add_admin-SameWatchers a b = Ensures-of _ _ λ s' e. ground arith

    pub remove_admin-SameWatchers :
        (a b : Address) → Ensures (SameWatchers s) (Admins.remove_admin h env a b s)
    unfolding ◌>>=◌ Admins.remove_admin save_admins extend_instance_ttl
    remove_admin-SameWatchers a b = Ensures-of _ _ λ s' e. ground arith

    pub transfer_admin-SameWatchers :
        (a b : Address) → Ensures (SameWatchers s) (Admins.transfer_admin h env a b s)
    unfolding ◌>>=◌ Admins.transfer_admin save_admins extend_instance_ttl
    transfer_admin-SameWatchers a b = Ensures-of _ _ λ s' e. ground arith

    pub set_paused-SameWatchers :
        (a : Address) (b : Bool) → Ensures (SameWatchers s) (Admins.set_paused h env a b s)
    unfolding ◌>>=◌ Admins.set_paused extend_instance_ttl
    set_paused-SameWatchers a b = Ensures-of _ _ λ s' e. ground arith

    -- The checks of an authorization extend a lifetime and change nothing that the description has.
    pub is_watcher_authorized-perform :
        (a : Address)
        → on_ok (view h) (ok (Queries.is_watcher_authorized h env a s).1)
          ≡ perform env (Call.is_watcher_authorized a) (view h s)
    unfolding Queries.is_watcher_authorized extend_instance_ttl perform view load_watchers
        load_expiries is_paused
    is_watcher_authorized-perform a = on_ok-ok (view h) _ refl

    pub is_authorized-perform :
        (a : Address)
        → on_ok (view h) (ok (Queries.is_authorized h env a s).1)
          ≡ perform env (Call.is_authorized a) (view h s)
    unfolding Queries.is_authorized Queries.is_watcher_authorized extend_instance_ttl perform view
        load_watchers load_expiries is_paused
    is_authorized-perform a = on_ok-ok (view h) _ refl

    pub is_watcher_authorized-SameWatchers :
        (a : Address)
        → Ensures {E = ContractError}
            (SameWatchers s)
            (ok (Queries.is_watcher_authorized h env a s).1)
    unfolding Queries.is_watcher_authorized extend_instance_ttl
    is_watcher_authorized-SameWatchers a =
        Ensures-ok ContractError (SameWatchers s) (refl, refl, refl)
