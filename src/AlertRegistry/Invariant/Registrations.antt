-- ===== src/AlertRegistry/Invariant/Registrations.antt =====
-- `register_alert` and `batch_register_alerts` keep the invariant.
use stellar_txwatch_contract.Prelude.{ℕ, ◌≡◌, refl, true, Option, List, [], ◌∷◌}
use stellar_txwatch_contract.Soroban.{
  Host, Address, Bytes, Env, ok, Ensures, Ensures->>=, Ensures-ok, Ensures-of, Ensures-eq-ok,
}
use stellar_txwatch_contract.AlertRegistry.Types.{AlertConfig, AlertInput, State}
use stellar_txwatch_contract.AlertRegistry.Store.{assert_per_owner_limit}
use stellar_txwatch_contract.AlertRegistry.Register.{
  store_new, store_inputs, config_of, new_config, register_alert, batch_register_alerts,
}
use stellar_txwatch_contract.AlertRegistry.Invariant.{IsValid}
use stellar_txwatch_contract.AlertRegistry.Invariant.Steps.{
  assert_per_owner_limit_for-IsValid, store_new-eq-ok, stored_new-IsValid,
}

module _ (h : Host) where
  store_new-IsValid :
      (s : State h) (c : AlertConfig)
      → IsValid h s
      → c.active ≡ true
      → (r : ℕ × State h) → store_new h c s ≡ ok r
      → IsValid h r.1
  store_new-IsValid s c v act r e = rw (store_new-eq-ok h s c e) (stored_new-IsValid h s c v act)

module _ (h : Host) (env : Env) where
  pub register_alert-IsValid :
      (owner target : Address) (label hash : Bytes) (rules : List Bytes)
      (tags : Option (List Bytes)) (s : State h)
      → IsValid h s
      → Ensures (λ r. IsValid h r.1) (register_alert h env owner target label hash rules tags s)
  unfolding register_alert new_config assert_per_owner_limit
  register_alert-IsValid owner target label hash rules tags s v =
      let P = λ (r : ℕ × State h). IsValid h r.1 in
      Ensures->>= P _ _ λ _ _. Ensures->>= P _ _ λ _ _. Ensures->>= P _ _ λ _ _.
        Ensures->>= P _ _ λ _ _. Ensures->>= P _ _ λ _ _. Ensures->>= P _ _ λ _ _.
          Ensures->>= P _ _ λ s' e.
            let v' = Ensures-eq-ok _ (assert_per_owner_limit_for-IsValid h s owner 1 v) e in
            Ensures-of P _ (store_new-IsValid h s' _ v'.0 refl)

  store_inputs-IsValid :
      (caller : Address) (inputs : List AlertInput) (s : State h)
      → IsValid h s
      → Ensures (λ r. IsValid h r.1) (store_inputs h env caller inputs s)
  unfolding store_inputs config_of new_config
  store_inputs-IsValid caller [] s v = Ensures-ok _ (λ (r : List ℕ × State h). IsValid h r.1) v
  store_inputs-IsValid caller (input ∷ inputs) s v =
      let P = λ (r : List ℕ × State h). IsValid h r.1 in
      Ensures->>= P _ _ λ r₁ e₁. Ensures->>= P _ _ λ r₂ e₂. Ensures-ok _ P (
        Ensures-eq-ok _
          (store_inputs-IsValid caller inputs r₁.1 (store_new-IsValid h s _ v refl r₁ e₁)) e₂)

  pub batch_register_alerts-IsValid :
      (caller : Address) (inputs : List AlertInput) (s : State h)
      → IsValid h s
      → Ensures (λ r. IsValid h r.1) (batch_register_alerts h env caller inputs s)
  unfolding batch_register_alerts
  batch_register_alerts-IsValid caller inputs s v =
      let P = λ (r : List ℕ × State h). IsValid h r.1 in
      Ensures->>= P _ _ λ _ _. Ensures->>= P _ _ λ _ _. Ensures->>= P _ _ λ _ _.
        Ensures->>= P _ _ λ _ _. Ensures->>= P _ _ λ s' e.
          let v' = Ensures-eq-ok _ (assert_per_owner_limit_for-IsValid h s caller _ v) e in
          store_inputs-IsValid caller inputs s' v'.0
