-- ===== src/AlertRegistry/Access.antt =====
-- Who can change an alert: a call changes or removes a stored alert only with the signature of its
-- owner or of an admin, and every other alert stays as it is.
pub mod Storing
pub mod Signed
use stellar_txwatch_contract.Prelude.{
  ℕ, ◌≡◌, refl, ◌⊎◌, inl, inr, Bool, true, false, Option, none, some, List, [], ◌∷◌, arith, ap, ◌∙◌,
  ◌==◌, contains, unwrap_or, if◌then◌else◌, ==_iff, Bool-cases, Option-cases,
}
use stellar_txwatch_contract.Soroban.{
  Host, Address, Bytes, Env, Outcome, ok, ◌>>=◌, Ensures, Ensures->>=, Ensures-ok, Ensures-of,
  Ensures-eq-ok,
}
use stellar_txwatch_contract.Soroban.Access.{
  put, get-put, get-extend, extend-eq-ok, require_auth-eq-ok,
}
use stellar_txwatch_contract.AlertRegistry.Types.{
  ContractError, AlertConfig, AlertInput, State, default_ttl,
}
use stellar_txwatch_contract.AlertRegistry.Store.{
  load_admins, assert_admin, assert_per_owner_limit, save_alert, save_active, remove_stored,
  remove_alert_record, remove_alert_record_by_admin, remove_from_contract_index,
  remove_from_owner_index, extend_instance_ttl, owner_index,
}
use stellar_txwatch_contract.AlertRegistry.Register.{
  register_alert, batch_register_alerts, store_inputs, store_new, new_config,
}
use stellar_txwatch_contract.AlertRegistry.Update.{
  extend_indexes, set_alert_active_by_admin, update_alert, update_webhook, propose_webhook,
  confirm_webhook, update_label, remove_alert, remove_alert_by_admin, update_target_contract,
  update_tags, transfer_alert_ownership,
}
use stellar_txwatch_contract.AlertRegistry.Invariant.{IsValid, counter}
use stellar_txwatch_contract.AlertRegistry.Invariant.Steps.{
  stored_new, store_new-eq-ok, stored_new-IsValid, assert_per_owner_limit_for-IsValid,
}
use stellar_txwatch_contract.AlertRegistry.Invariant.Moves.{
  push_owner_index-eq-ok, push_contract_index-eq-ok,
}
use stellar_txwatch_contract.AlertRegistry.Invariant.Updates.{load_alert-eq-ok, assert_owner-eq-ok}
use stellar_txwatch_contract.AlertRegistry.Registration.{counter_fresh}

module _ (h : Host) where
  pub assert_admin-eq-ok :
      (a : Address) (s : State h) {u : Unit {0}}
      → assert_admin h a s ≡ ok u
      → contains (unwrap_or (load_admins h s) []) a ≡ true
  unfolding assert_admin ◌>>=◌
  assert_admin-eq-ok a s e = ground arith

  pub extend_indexes-alerts :
      (t : ℕ) (c : AlertConfig) (s : State h)
      → Ensures (λ s'. s'.alerts ≡ s.alerts) (extend_indexes h t c s)
  unfolding extend_indexes ◌>>=◌
  extend_indexes-alerts t c s = Ensures-of _ _ λ s' e. ground arith

module _ (h : Host) (env : Env) where
  -- The call carries the signature of the alert's owner, or of one of the admins.
  abbrev pub IsSigned : State h → AlertConfig → Type 0
  IsSigned s c =
      (env.authorized c.owner ≡ true)
      ⊎ ((a : Address) × (contains (unwrap_or (load_admins h s) []) a ≡ true)
          × (env.authorized a ≡ true))

  -- Between two states every stored alert is as it was, or the call is signed for it.
  pub record Guarded (s s' : State h) : Type 0 where
    pub guard :
        (id : ℕ) (c : AlertConfig)
        → h.get id s.alerts ≡ some c
        → (h.get id s'.alerts ≡ some c) ⊎ IsSigned s c

  pub Guarded-same :
      (s s' : State h) → ((j : ℕ) → h.get j s'.alerts ≡ h.get j s.alerts) → Guarded s s'
  Guarded-same s s' e = record { guard = λ id c there. inl (e id ∙ there) }

  pub Guarded-at :
      (s s' : State h) (id : ℕ) (c : AlertConfig) (o : Option AlertConfig)
      → h.get id s.alerts ≡ some c
      → IsSigned s c
      → ((j : ℕ) → h.get j s'.alerts ≡ (if id == j then o else h.get j s.alerts))
      → Guarded s s'
  Guarded-at s s' id c o here signed e = record {
    guard = λ j d there. elim (Bool-cases (id == j)) [
      | inl same ↦ let p : c ≡ d = ground arith in inr (rw (← p) signed)
      | inr other ↦ inl (e j ∙ rw other there)
    ];
  }

  -- An owner's call that stores the alert again.
  by_owner :
      (s s' : State h) (caller : Address) (id : ℕ) (c : AlertConfig) (c' : AlertConfig)
      → env.authorized caller ≡ true
      → h.get id s.alerts ≡ some c
      → c.owner ≡ caller
      → s'.alerts ≡ put h default_ttl id c' s.alerts
      → Guarded s s'
  by_owner s s' caller id c c' signed here owned e =
      Guarded-at s s' id c (some c') here (inl (rw owned signed))
        (λ j. ap (h.get j) e ∙ get-put h default_ttl j id c' s.alerts)

  pub set_alert_active_by_admin-Guarded :
      (admin : Address) (id : ℕ) (active : Bool) (s : State h)
      → Ensures (Guarded s) (set_alert_active_by_admin h env admin id active s)
  unfolding set_alert_active_by_admin save_alert save_active
  set_alert_active_by_admin-Guarded admin id active s =
      let P = Guarded s in
      Ensures->>= P _ _ λ _ e₁. Ensures->>= P _ _ λ _ e₂. Ensures->>= P _ _ λ c e₃. Ensures-ok _ P (
        Guarded-at s _ id c _ (load_alert-eq-ok h s id e₃)
          (inr (admin, assert_admin-eq-ok h admin s e₂, require_auth-eq-ok env admin e₁))
          (λ j. get-put h default_ttl j id _ s.alerts))

  pub update_alert-Guarded :
      (caller : Address) (id : ℕ) (rules : List Bytes) (active : Bool) (s : State h)
      → Ensures (Guarded s) (update_alert h env caller id rules active s)
  unfolding update_alert save_alert save_active
  update_alert-Guarded caller id rules active s =
      let P = Guarded s in
      Ensures->>= P _ _ λ _ _. Ensures->>= P _ _ λ _ e₁. Ensures->>= P _ _ λ c e₂.
        Ensures->>= P _ _ λ _ e₃. Ensures->>= P _ _ λ _ _. Ensures->>= P _ _ λ s₂ e₄.
          Ensures-ok _ P (
            by_owner s _ caller id c _ (require_auth-eq-ok env caller e₁)
              (load_alert-eq-ok h s id e₂) (assert_owner-eq-ok c caller e₃)
              (Ensures-eq-ok _ (extend_indexes-alerts h _ _ _) e₄))

  pub update_webhook-Guarded :
      (caller : Address) (id : ℕ) (hash : Bytes) (s : State h)
      → Ensures (Guarded s) (update_webhook h env caller id hash s)
  unfolding update_webhook save_alert
  update_webhook-Guarded caller id hash s =
      let P = Guarded s in
      Ensures->>= P _ _ λ _ _. Ensures->>= P _ _ λ _ e₁. Ensures->>= P _ _ λ c e₂.
        Ensures->>= P _ _ λ _ e₃. Ensures->>= P _ _ λ _ _. Ensures->>= P _ _ λ s₂ e₄.
          Ensures-ok _ P (
            by_owner s _ caller id c _ (require_auth-eq-ok env caller e₁)
              (load_alert-eq-ok h s id e₂) (assert_owner-eq-ok c caller e₃)
              (Ensures-eq-ok _ (extend_indexes-alerts h _ _ _) e₄))

  pub update_label-Guarded :
      (caller : Address) (id : ℕ) (label : Bytes) (s : State h)
      → Ensures (Guarded s) (update_label h env caller id label s)
  unfolding update_label save_alert
  update_label-Guarded caller id label s =
      let P = Guarded s in
      Ensures->>= P _ _ λ _ _. Ensures->>= P _ _ λ _ e₁. Ensures->>= P _ _ λ _ _.
        Ensures->>= P _ _ λ c e₂. Ensures->>= P _ _ λ _ e₃. Ensures->>= P _ _ λ s₂ e₄.
          Ensures-ok _ P (
            by_owner s _ caller id c _ (require_auth-eq-ok env caller e₁)
              (load_alert-eq-ok h s id e₂) (assert_owner-eq-ok c caller e₃)
              (Ensures-eq-ok _ (extend_indexes-alerts h _ _ _) e₄))

  pub propose_webhook-Guarded :
      (caller : Address) (id : ℕ) (hash : Bytes) (s : State h)
      → Ensures (Guarded s) (propose_webhook h env caller id hash s)
  unfolding propose_webhook save_alert
  propose_webhook-Guarded caller id hash s =
      let P = Guarded s in
      Ensures->>= P _ _ λ _ e₁. Ensures->>= P _ _ λ c e₂. Ensures->>= P _ _ λ _ e₃. Ensures-ok _ P (
        by_owner s _ caller id c _ (require_auth-eq-ok env caller e₁) (load_alert-eq-ok h s id e₂)
          (assert_owner-eq-ok c caller e₃) refl)

  pub confirm_webhook-Guarded :
      (caller : Address) (id : ℕ) (s : State h)
      → Ensures (Guarded s) (confirm_webhook h env caller id s)
  unfolding confirm_webhook save_alert
  confirm_webhook-Guarded caller id s =
      let P = Guarded s in
      Ensures->>= P _ _ λ _ e₁. Ensures->>= P _ _ λ c e₂. Ensures->>= P _ _ λ _ e₃.
        Ensures->>= P _ _ λ _ _. Ensures-ok _ P (
          by_owner s _ caller id c _ (require_auth-eq-ok env caller e₁) (load_alert-eq-ok h s id e₂)
            (assert_owner-eq-ok c caller e₃) refl)

  pub update_tags-Guarded :
      (caller : Address) (id : ℕ) (tags : Option (List Bytes)) (s : State h)
      → Ensures (Guarded s) (update_tags h env caller id tags s)
  unfolding update_tags save_alert
  update_tags-Guarded caller id tags s =
      let P = Guarded s in
      Ensures->>= P _ _ λ _ _. Ensures->>= P _ _ λ _ e₁. Ensures->>= P _ _ λ c e₂.
        Ensures->>= P _ _ λ _ e₃. Ensures->>= P _ _ λ _ _. Ensures-ok _ P (
          by_owner s _ caller id c _ (require_auth-eq-ok env caller e₁) (load_alert-eq-ok h s id e₂)
            (assert_owner-eq-ok c caller e₃) refl)

  pub update_target_contract-Guarded :
      (caller : Address) (id : ℕ) (new_target : Address) (s : State h)
      → Ensures (Guarded s) (update_target_contract h env caller id new_target s)
  unfolding update_target_contract save_alert remove_from_contract_index
  update_target_contract-Guarded caller id new_target s =
      let P = Guarded s in
      Ensures->>= P _ _ λ _ _. Ensures->>= P _ _ λ _ e₁. Ensures->>= P _ _ λ c e₂.
        Ensures->>= P _ _ λ _ e₃. Ensures-of P _ λ s' e₄.
          by_owner s s' caller id c _ (require_auth-eq-ok env caller e₁)
            (load_alert-eq-ok h s id e₂) (assert_owner-eq-ok c caller e₃)
            (ap (λ t. t.alerts) (push_contract_index-eq-ok h _ _ _ e₄).1)
