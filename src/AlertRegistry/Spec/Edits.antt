-- ===== src/AlertRegistry/Spec/Edits.antt =====
-- The entry points that change one alert do to the map what `perform` says.
use stellar_txwatch_contract.Prelude.{
  ℕ, ◌≡◌, refl, Bool, true, Option, some, List, ◌==◌, if◌then◌else◌, contains,
}
use stellar_txwatch_contract.Soroban.{Host, Address, Bytes, Env, ok, ◌>>=◌}
use stellar_txwatch_contract.Soroban.Access.{get-put, load_list, extend-eq}
use stellar_txwatch_contract.AlertRegistry.Types.{
  ContractError, AlertConfig, State, Event, default_ttl,
}
use stellar_txwatch_contract.AlertRegistry.Store.{
  publish, assert_not_paused, assert_admin, load_alert, save_alert, save_active,
}
use stellar_txwatch_contract.AlertRegistry.Update.{
  extend_indexes, set_alert_active_by_admin, update_alert, update_webhook, propose_webhook,
  confirm_webhook, update_label, update_tags,
}
use stellar_txwatch_contract.AlertRegistry.Calls.{Call}
use stellar_txwatch_contract.AlertRegistry.Invariant.{IsValid}
use stellar_txwatch_contract.AlertRegistry.Invariant.Updates.{load_alert-eq-ok}
use stellar_txwatch_contract.AlertRegistry.Renewal.{stored_of_listed}
use stellar_txwatch_contract.AlertRegistry.Spec.{
  view, at_id, running, by_admin, stored, switch, perform,
}
use stellar_txwatch_contract.Soroban.Matching.{on_ok, on_ok->>=, on_ok-ok}
use stellar_txwatch_contract.AlertRegistry.Spec.Matching.{kept, view-at_id}

module _ (h : Host) where
  -- The index entries of a stored alert are there, so to extend them succeeds.
  pub extend_indexes_succeeds :
      (t id : ℕ) (c : AlertConfig) (s : State h)
      → contains (load_list h c.owner s.owner_indexes) id ≡ true
      → contains (load_list h c.target_contract s.contract_indexes) id ≡ true
      → extend_indexes h t c s
        ≡ ok (record s {
          owner_indexes = h.extended c.owner t t s.owner_indexes;
          contract_indexes = h.extended c.target_contract t t s.contract_indexes;
        })
  unfolding extend_indexes ◌>>=◌
  extend_indexes_succeeds t id c s o k =
      let (_, a) = stored_of_listed h c.owner id s.owner_indexes o in
      let (_, b) = stored_of_listed h c.target_contract id s.contract_indexes k in
      rw (
        extend-eq h {E = ContractError} t c.owner s.owner_indexes a,
        extend-eq h {E = ContractError} t c.target_contract s.contract_indexes b,
      )

  -- An alert has been stored again with the same owner and target, and its index entries are
  -- extended.
  edit_extended :
      (s s₁ : State h) (id : ℕ) (c c' : AlertConfig) (e : Event)
      → IsValid h s
      → load_alert h id s ≡ ok c
      → c'.owner ≡ c.owner
      → c'.target_contract ≡ c.target_contract
      → s₁.owner_indexes ≡ s.owner_indexes
      → s₁.contract_indexes ≡ s.contract_indexes
      → kept h s₁ ≡ kept h s
      → ((j : ℕ) → h.get j s₁.alerts ≡ (if id == j then some c' else h.get j s.alerts))
      → on_ok (view h) (extend_indexes h default_ttl c' s₁ >>= λ s₂. ok (publish h e s₂))
        ≡ ok (at_id id (some c') (view h s))
  unfolding ◌>>=◌
  edit_extended s s₁ id c c' e v loaded o t so st f a =
      let there = load_alert-eq-ok h s id loaded in
      let ext =
        extend_indexes_succeeds default_ttl id c' s₁ (rw (o, so) (v.owners.listed id c there))
          (rw (t, st) (v.targets.listed id c there)) in
      rw ext (on_ok-ok (view h) _ (view-at_id h s _ id (some c') f a))

  module _ (env : Env) (s : State h) where
    pub update_alert-perform :
        (a : Address) (id : ℕ) (rules : List Bytes) (active : Bool)
        → IsValid h s
        → on_ok (view h) (update_alert h env a id rules active s)
          ≡ perform env (Call.update_alert a id rules active) (view h s)
    unfolding update_alert perform view running stored assert_not_paused load_alert save_alert
        save_active
    update_alert-perform a id rules active v = on_ok->>= _ _ _ _ λ _ _. on_ok->>= _ _ _ _ λ _ _.
        on_ok->>= _ _ _ _ λ c e. on_ok->>= _ _ _ _ λ _ _. on_ok->>= _ _ _ _ λ _ _.
          let c' = record c { rules = rules; active = active; updated_at = env.timestamp } in
          edit_extended s (save_active h id active (save_alert h id c' s)) id c c' _ v e refl refl
            refl refl refl (λ j. get-put h default_ttl j id c' s.alerts)

    pub update_webhook-perform :
        (a : Address) (id : ℕ) (hash : Bytes)
        → IsValid h s
        → on_ok (view h) (update_webhook h env a id hash s)
          ≡ perform env (Call.update_webhook a id hash) (view h s)
    unfolding update_webhook perform view running stored assert_not_paused load_alert save_alert
    update_webhook-perform a id hash v = on_ok->>= _ _ _ _ λ _ _. on_ok->>= _ _ _ _ λ _ _.
        on_ok->>= _ _ _ _ λ c e. on_ok->>= _ _ _ _ λ _ _. on_ok->>= _ _ _ _ λ _ _.
          let c' = record c { webhook_hash = hash; updated_at = env.timestamp } in
          edit_extended s (save_alert h id c' s) id c c' _ v e refl refl refl refl refl
            (λ j. get-put h default_ttl j id c' s.alerts)

    pub update_label-perform :
        (a : Address) (id : ℕ) (label : Bytes)
        → IsValid h s
        → on_ok (view h) (update_label h env a id label s)
          ≡ perform env (Call.update_label a id label) (view h s)
    unfolding update_label perform view running stored assert_not_paused load_alert save_alert
    update_label-perform a id label v = on_ok->>= _ _ _ _ λ _ _. on_ok->>= _ _ _ _ λ _ _.
        on_ok->>= _ _ _ _ λ _ _. on_ok->>= _ _ _ _ λ c e. on_ok->>= _ _ _ _ λ _ _.
          let c' = record c { label = label; updated_at = env.timestamp } in
          edit_extended s (save_alert h id c' s) id c c' _ v e refl refl refl refl refl
            (λ j. get-put h default_ttl j id c' s.alerts)

    -- An alert is stored again, and an event is published.
    saved-at_id :
        (id : ℕ) (c : AlertConfig) (e : Event)
        → on_ok {E = ContractError} (view h) (ok (publish h e (save_alert h id c s)))
          ≡ ok (at_id id (some c) (view h s))
    unfolding save_alert
    saved-at_id id c e =
        on_ok-ok (view h) _
          (view-at_id h s _ id (some c) refl (λ j. get-put h default_ttl j id c s.alerts))

    pub propose_webhook-perform :
        (a : Address) (id : ℕ) (hash : Bytes)
        → on_ok (view h) (propose_webhook h env a id hash s)
          ≡ perform env (Call.propose_webhook a id hash) (view h s)
    unfolding propose_webhook perform view stored load_alert
    propose_webhook-perform a id hash =
        on_ok->>= _ _ _ _
          λ _ _. on_ok->>= _ _ _ _ λ c e. on_ok->>= _ _ _ _ λ _ _. saved-at_id id _ _

    pub confirm_webhook-perform :
        (a : Address) (id : ℕ)
        → on_ok (view h) (confirm_webhook h env a id s)
          ≡ perform env (Call.confirm_webhook a id) (view h s)
    unfolding confirm_webhook perform view stored load_alert
    confirm_webhook-perform a id = on_ok->>= _ _ _ _ λ _ _.
        on_ok->>= _ _ _ _
          λ c e. on_ok->>= _ _ _ _ λ _ _. on_ok->>= _ _ _ _ λ _ _. saved-at_id id _ _

    pub update_tags-perform :
        (a : Address) (id : ℕ) (tags : Option (List Bytes))
        → on_ok (view h) (update_tags h env a id tags s)
          ≡ perform env (Call.update_tags a id tags) (view h s)
    unfolding update_tags perform view running stored assert_not_paused load_alert
    update_tags-perform a id tags = on_ok->>= _ _ _ _ λ _ _. on_ok->>= _ _ _ _ λ _ _.
        on_ok->>= _ _ _ _
          λ c e. on_ok->>= _ _ _ _ λ _ _. on_ok->>= _ _ _ _ λ _ _. saved-at_id id _ _

    pub set_alert_active_by_admin-switch :
        (a : Address) (id : ℕ) (active : Bool)
        → on_ok (view h) (set_alert_active_by_admin h env a id active s)
          ≡ switch env a id active (view h s)
    unfolding set_alert_active_by_admin switch view by_admin stored assert_admin load_alert
        save_alert save_active
    set_alert_active_by_admin-switch a id active = on_ok->>= _ _ _ _ λ _ _. on_ok->>= _ _ _ _ λ _ _.
        on_ok->>= _ _ _ _ λ c e.
          let c' = record c { active = active; updated_at = env.timestamp } in
          on_ok-ok (view h) _
            (view-at_id h s _ id (some c') refl (λ j. get-put h default_ttl j id c' s.alerts))
