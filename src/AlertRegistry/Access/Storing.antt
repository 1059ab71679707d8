-- ===== src/AlertRegistry/Access/Storing.antt =====
-- The remaining entry points, and the theorem over all of them.
use stellar_txwatch_contract.Prelude.{
  ℕ, ◌≡◌, refl, inl, inr, Option, none, some, List, [], ◌∷◌, arith, ap, ◌∙◌, ◌==◌, if◌then◌else◌,
  Bool-cases,
}
use stellar_txwatch_contract.Soroban.{
  Host, Address, Bytes, Env, ok, Ensures, Ensures->>=, Ensures-ok, Ensures-of, Ensures-eq-ok,
  >>=-eq-ok,
}
use stellar_txwatch_contract.Soroban.Access.{get-put, require_auth-eq-ok}
use stellar_txwatch_contract.AlertRegistry.Types.{AlertConfig, AlertInput, State, default_ttl}
use stellar_txwatch_contract.AlertRegistry.Store.{
  assert_per_owner_limit, save_alert, remove_stored, remove_alert_record,
  remove_alert_record_by_admin, remove_from_contract_index, remove_from_owner_index,
  extend_instance_ttl,
}
use stellar_txwatch_contract.AlertRegistry.Register.{
  register_alert, batch_register_alerts, store_inputs, store_new, new_config, config_of,
}
use stellar_txwatch_contract.AlertRegistry.Update.{
  remove_alert, remove_alert_by_admin, transfer_alert_ownership,
}
use stellar_txwatch_contract.AlertRegistry.Invariant.{IsValid, counter}
use stellar_txwatch_contract.AlertRegistry.Invariant.Steps.{
  stored_new, store_new-eq-ok, stored_new-IsValid, assert_per_owner_limit_for-IsValid,
}
use stellar_txwatch_contract.AlertRegistry.Invariant.Moves.{push_owner_index-eq-ok}
use stellar_txwatch_contract.AlertRegistry.Invariant.Updates.{load_alert-eq-ok, assert_owner-eq-ok}
use stellar_txwatch_contract.AlertRegistry.Registration.{counter_fresh}
use stellar_txwatch_contract.AlertRegistry.Access.{
  Guarded, Guarded-same, Guarded-at, assert_admin-eq-ok,
}

module _ (h : Host) (env : Env) where
  remove_stored-alerts :
      (s : State h) (c : AlertConfig) (id j : ℕ)
      → h.get j (remove_stored h c id s).alerts ≡ (if id == j then none else h.get j s.alerts)
  unfolding remove_stored remove_from_owner_index remove_from_contract_index
  remove_stored-alerts s c id j = h.get-remove j id s.alerts

  pub remove_alert-Guarded :
      (caller : Address) (id : ℕ) (s : State h)
      → Ensures (Guarded h env s) (remove_alert h env caller id s)
  unfolding remove_alert remove_alert_record
  remove_alert-Guarded caller id s =
      let P = Guarded h env s in
      Ensures->>= P _ _ λ _ _. Ensures->>= P _ _ λ _ e₁. Ensures->>= P _ _ λ c e₂.
        Ensures->>= P _ _ λ _ e₃. Ensures-ok _ P (
          Guarded-at h env s _ id c none (load_alert-eq-ok h s id e₂)
            (inl (rw (assert_owner-eq-ok c caller e₃) (require_auth-eq-ok env caller e₁)))
            (remove_stored-alerts s c id))

  pub remove_alert_by_admin-Guarded :
      (admin : Address) (id : ℕ) (s : State h)
      → Ensures (Guarded h env s) (remove_alert_by_admin h env admin id s)
  unfolding remove_alert_by_admin remove_alert_record_by_admin
  remove_alert_by_admin-Guarded admin id s =
      let P = Guarded h env s in
      Ensures->>= P _ _ λ _ _. Ensures->>= P _ _ λ _ e₁. Ensures->>= P _ _ λ _ e₂.
        Ensures->>= P _ _ λ c e₃. Ensures-ok _ P (
          Guarded-at h env s _ id c none (load_alert-eq-ok h s id e₃)
            (inr (admin, assert_admin-eq-ok h admin s e₂, require_auth-eq-ok env admin e₁))
            (remove_stored-alerts s c id))

  pub transfer_alert_ownership-Guarded :
      (owner : Address) (id : ℕ) (new_owner : Address) (s : State h)
      → IsValid h s
      → Ensures (Guarded h env s) (transfer_alert_ownership h env owner id new_owner s)
  unfolding transfer_alert_ownership assert_per_owner_limit save_alert remove_from_owner_index
  transfer_alert_ownership-Guarded owner id new_owner s v =
      let P = Guarded h env s in
      Ensures->>= P _ _ λ _ _. Ensures->>= P _ _ λ _ e₁. Ensures->>= P _ _ λ c e₂.
        Ensures->>= P _ _ λ _ e₃. elim (Bool-cases (new_owner == owner)) [
          | inl same ↦ rw same (Ensures-ok _ P (Guarded-same h env s s (λ j. refl)))
          | inr other ↦ rw other (
              Ensures->>= P _ _ λ s₁ e₄.
                let (_, al, _) =
                  Ensures-eq-ok _ (assert_per_owner_limit_for-IsValid h s _ _ v) e₄ in
                Ensures->>= P _ _ λ s₂ e₅.
                  let moved = ap (λ t. t.alerts) (push_owner_index-eq-ok h _ _ _ e₅).1 ∙ al in
                  Ensures-ok _ P (
                    Guarded-at h env s _ id c
                      (some (record c { owner = new_owner; updated_at = env.timestamp }))
                      (load_alert-eq-ok h s id e₂)
                      (inl (rw (assert_owner-eq-ok c owner e₃) (require_auth-eq-ok env owner e₁)))
                      (λ j. get-put h default_ttl j id _ s₂.alerts ∙ rw moved)))
        ]

  -- Storing a new alert keeps every alert that is stored.
  store_new-Guarded :
      (s : State h) (c : AlertConfig) {r : ℕ × State h}
      → IsValid h s
      → store_new h c s ≡ ok r
      → (j : ℕ) (d : AlertConfig) → h.get j s.alerts ≡ some d
      → h.get j r.1.alerts ≡ some d
  unfolding stored_new extend_instance_ttl
  store_new-Guarded s c {r} v e j d there =
      let stored =
        ap (λ p. h.get j p.1.alerts) (store_new-eq-ok h s c e)
        ∙ get-put h default_ttl j (counter h s) c s.alerts in
      ground (arith, stored, counter_fresh h s v)

  pub register_alert-Guarded :
      (owner target : Address) (label hash : Bytes) (rules : List Bytes)
      (tags : Option (List Bytes)) (s : State h)
      → IsValid h s
      → Ensures
          (λ r. Guarded h env s r.1)
          (register_alert h env owner target label hash rules tags s)
  unfolding register_alert assert_per_owner_limit
  register_alert-Guarded owner target label hash rules tags s v =
      let P = λ (r : ℕ × State h). Guarded h env s r.1 in
      Ensures->>= P _ _ λ _ _. Ensures->>= P _ _ λ _ _. Ensures->>= P _ _ λ _ _.
        Ensures->>= P _ _ λ _ _. Ensures->>= P _ _ λ _ _. Ensures->>= P _ _ λ _ _.
          Ensures->>= P _ _ λ s₁ e₁.
            let (v₁, al, _) =
              Ensures-eq-ok _ (assert_per_owner_limit_for-IsValid h s owner 1 v) e₁ in
            Ensures-of P _ λ r e₂. record {
              guard = λ j d there. inl (store_new-Guarded s₁ _ v₁ e₂ j d (ap (h.get j) al ∙ there));
            }

  store_inputs-Guarded :
      (caller : Address) (inputs : List AlertInput) (s : State h) {r : List ℕ × State h}
      → IsValid h s
      → store_inputs h env caller inputs s ≡ ok r
      → (j : ℕ) (d : AlertConfig) → h.get j s.alerts ≡ some d
      → h.get j r.1.alerts ≡ some d
  unfolding store_inputs config_of new_config
  store_inputs-Guarded caller [] s v e j d there = ground arith
  store_inputs-Guarded caller (input ∷ inputs) s {r} v e j d there =
      let (r₁, e₁, e₂) = >>=-eq-ok _ _ e in
      let (r₂, e₃, e₄) = >>=-eq-ok _ _ e₂ in
      let v₁ : IsValid h r₁.1 = rw (store_new-eq-ok h s _ e₁) (stored_new-IsValid h s _ v refl) in
      let kept =
        store_inputs-Guarded caller inputs r₁.1 v₁ e₃ j d (store_new-Guarded s _ v e₁ j d there) in
      ground (arith, kept)

  pub batch_register_alerts-Guarded :
      (caller : Address) (inputs : List AlertInput) (s : State h)
      → IsValid h s
      → Ensures (λ r. Guarded h env s r.1) (batch_register_alerts h env caller inputs s)
  unfolding batch_register_alerts
  batch_register_alerts-Guarded caller inputs s v =
      let P = λ (r : List ℕ × State h). Guarded h env s r.1 in
      Ensures->>= P _ _ λ _ _. Ensures->>= P _ _ λ _ _. Ensures->>= P _ _ λ _ _.
        Ensures->>= P _ _ λ _ _. Ensures->>= P _ _ λ s₁ e₁.
          let (v₁, al, _) =
            Ensures-eq-ok _ (assert_per_owner_limit_for-IsValid h s caller _ v) e₁ in
          Ensures-of P _ λ r e₂. record {
            guard = λ j d there.
                inl (store_inputs-Guarded caller inputs s₁ v₁ e₂ j d (ap (h.get j) al ∙ there));
          }
