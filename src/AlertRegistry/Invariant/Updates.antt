-- ===== src/AlertRegistry/Invariant/Updates.antt =====
-- The entry points that change or remove one alert keep the invariant.
use stellar_txwatch_contract.Prelude.{
  ℕ, ◌≡◌, refl, Bool, Option, some, List, arith, ap, ◌∙◌, ◌==◌, Bool-cases, inl, inr,
}
use stellar_txwatch_contract.Soroban.{
  Host, Address, Bytes, Env, ok, Ensures, Ensures->>=, Ensures-ok, Ensures-of, Ensures-eq-ok,
  ok_or-eq-ok,
}
use stellar_txwatch_contract.Soroban.Access.{get-extend}
use stellar_txwatch_contract.AlertRegistry.Types.{AlertConfig, State}
use stellar_txwatch_contract.AlertRegistry.Store.{
  load_alert, assert_owner, assert_per_owner_limit, remove_alert_record,
  remove_alert_record_by_admin,
}
use stellar_txwatch_contract.AlertRegistry.Update.{
  extend_indexes, set_alert_active_by_admin, update_alert, update_webhook, propose_webhook,
  confirm_webhook, update_label, remove_alert, remove_alert_by_admin, update_target_contract,
  update_tags, transfer_alert_ownership,
}
use stellar_txwatch_contract.AlertRegistry.Invariant.{
  IsValid, IsValid-same, publish-IsValid, save-IsValid, save_alert-IsValid,
}
use stellar_txwatch_contract.AlertRegistry.Invariant.Steps.{
  assert_per_owner_limit_for-IsValid, remove_stored-IsValid,
}
use stellar_txwatch_contract.AlertRegistry.Invariant.Moves.{retarget-IsValid, reown-IsValid}

pub assert_owner-eq-ok :
    (c : AlertConfig) (a : Address) {u : Unit {0}} → assert_owner c a ≡ ok u → c.owner ≡ a
unfolding assert_owner
assert_owner-eq-ok c a e = ground arith

module _ (h : Host) where
  pub load_alert-eq-ok :
      (s : State h) (id : ℕ) {c : AlertConfig}
      → load_alert h id s ≡ ok c
      → h.get id s.alerts ≡ some c
  unfolding load_alert
  load_alert-eq-ok s id e = ok_or-eq-ok (h.get id s.alerts) _ e

  pub extend_indexes-IsValid :
      (t : ℕ) (c : AlertConfig) (s : State h)
      → IsValid h s
      → Ensures (IsValid h) (extend_indexes h t c s)
  unfolding extend_indexes
  extend_indexes-IsValid t c s v = Ensures->>= (IsValid h) _ _ λ owners e₁.
      Ensures->>= (IsValid h) _ _ λ targets e₂. Ensures-ok _ (IsValid h) (
        IsValid-same h s _ v (λ j. refl) (λ j. refl)
          (λ j. get-extend h t j c.owner s.owner_indexes e₁)
          (λ j. get-extend h t j c.target_contract s.contract_indexes e₂) refl)

module _ (h : Host) (env : Env) where
  pub set_alert_active_by_admin-IsValid :
      (admin : Address) (id : ℕ) (active : Bool) (s : State h)
      → IsValid h s
      → Ensures (IsValid h) (set_alert_active_by_admin h env admin id active s)
  unfolding set_alert_active_by_admin
  set_alert_active_by_admin-IsValid admin id active s v =
      let P = IsValid h in
      Ensures->>= P _ _ λ _ _. Ensures->>= P _ _ λ _ _. Ensures->>= P _ _ λ c e.
        Ensures-ok _ P
          (publish-IsValid h _ _ (save-IsValid h s id c _ v (load_alert-eq-ok h s id e) refl refl))

  pub update_alert-IsValid :
      (caller : Address) (id : ℕ) (rules : List Bytes) (active : Bool) (s : State h)
      → IsValid h s
      → Ensures (IsValid h) (update_alert h env caller id rules active s)
  unfolding update_alert
  update_alert-IsValid caller id rules active s v =
      let P = IsValid h in
      Ensures->>= P _ _ λ _ _. Ensures->>= P _ _ λ _ _. Ensures->>= P _ _ λ c e.
        Ensures->>= P _ _ λ _ _. Ensures->>= P _ _ λ _ _.
          let v₁ = save-IsValid h s id c _ v (load_alert-eq-ok h s id e) refl refl in
          Ensures->>= P _ _ λ s₂ e₂.
            Ensures-ok _ P
              (publish-IsValid h _ _ (Ensures-eq-ok P (extend_indexes-IsValid h _ _ _ v₁) e₂))

  pub update_webhook-IsValid :
      (caller : Address) (id : ℕ) (hash : Bytes) (s : State h)
      → IsValid h s
      → Ensures (IsValid h) (update_webhook h env caller id hash s)
  unfolding update_webhook
  update_webhook-IsValid caller id hash s v =
      let P = IsValid h in
      Ensures->>= P _ _ λ _ _. Ensures->>= P _ _ λ _ _. Ensures->>= P _ _ λ c e.
        Ensures->>= P _ _ λ _ _. Ensures->>= P _ _ λ _ _.
          let v₁ = save_alert-IsValid h s id c _ v (load_alert-eq-ok h s id e) refl refl refl in
          Ensures->>= P _ _ λ s₂ e₂.
            Ensures-ok _ P
              (publish-IsValid h _ _ (Ensures-eq-ok P (extend_indexes-IsValid h _ _ _ v₁) e₂))

  pub propose_webhook-IsValid :
      (caller : Address) (id : ℕ) (hash : Bytes) (s : State h)
      → IsValid h s
      → Ensures (IsValid h) (propose_webhook h env caller id hash s)
  unfolding propose_webhook
  propose_webhook-IsValid caller id hash s v =
      let P = IsValid h in
      Ensures->>= P _ _ λ _ _. Ensures->>= P _ _ λ c e. Ensures->>= P _ _ λ _ _. Ensures-ok _ P (
        publish-IsValid h _ _
          (save_alert-IsValid h s id c _ v (load_alert-eq-ok h s id e) refl refl refl))

  pub confirm_webhook-IsValid :
      (caller : Address) (id : ℕ) (s : State h)
      → IsValid h s
      → Ensures (IsValid h) (confirm_webhook h env caller id s)
  unfolding confirm_webhook
  confirm_webhook-IsValid caller id s v =
      let P = IsValid h in
      Ensures->>= P _ _ λ _ _. Ensures->>= P _ _ λ c e. Ensures->>= P _ _ λ _ _.
        Ensures->>= P _ _ λ _ _. Ensures-ok _ P (
          publish-IsValid h _ _
            (save_alert-IsValid h s id c _ v (load_alert-eq-ok h s id e) refl refl refl))

  pub update_label-IsValid :
      (caller : Address) (id : ℕ) (label : Bytes) (s : State h)
      → IsValid h s
      → Ensures (IsValid h) (update_label h env caller id label s)
  unfolding update_label
  update_label-IsValid caller id label s v =
      let P = IsValid h in
      Ensures->>= P _ _ λ _ _. Ensures->>= P _ _ λ _ _. Ensures->>= P _ _ λ _ _.
        Ensures->>= P _ _ λ c e. Ensures->>= P _ _ λ _ _.
          let v₁ = save_alert-IsValid h s id c _ v (load_alert-eq-ok h s id e) refl refl refl in
          Ensures->>= P _ _ λ s₂ e₂.
            Ensures-ok _ P
              (publish-IsValid h _ _ (Ensures-eq-ok P (extend_indexes-IsValid h _ _ _ v₁) e₂))

  pub update_tags-IsValid :
      (caller : Address) (id : ℕ) (tags : Option (List Bytes)) (s : State h)
      → IsValid h s
      → Ensures (IsValid h) (update_tags h env caller id tags s)
  unfolding update_tags
  update_tags-IsValid caller id tags s v =
      let P = IsValid h in
      Ensures->>= P _ _ λ _ _. Ensures->>= P _ _ λ _ _. Ensures->>= P _ _ λ c e.
        Ensures->>= P _ _ λ _ _. Ensures->>= P _ _ λ _ _. Ensures-ok _ P (
          publish-IsValid h _ _
            (save_alert-IsValid h s id c _ v (load_alert-eq-ok h s id e) refl refl refl))

  pub remove_alert-IsValid :
      (caller : Address) (id : ℕ) (s : State h)
      → IsValid h s
      → Ensures (IsValid h) (remove_alert h env caller id s)
  unfolding remove_alert remove_alert_record
  remove_alert-IsValid caller id s v =
      let P = IsValid h in
      Ensures->>= P _ _ λ _ _. Ensures->>= P _ _ λ _ _. Ensures->>= P _ _ λ c e.
        Ensures->>= P _ _
          λ _ _. Ensures-ok _ P (publish-IsValid h _ _ (remove_stored-IsValid h s c id v))

  pub remove_alert_by_admin-IsValid :
      (admin : Address) (id : ℕ) (s : State h)
      → IsValid h s
      → Ensures (IsValid h) (remove_alert_by_admin h env admin id s)
  unfolding remove_alert_by_admin remove_alert_record_by_admin
  remove_alert_by_admin-IsValid admin id s v =
      let P = IsValid h in
      Ensures->>= P _ _ λ _ _. Ensures->>= P _ _ λ _ _. Ensures->>= P _ _ λ _ _.
        Ensures->>= P _ _
          λ c e. Ensures-ok _ P (publish-IsValid h _ _ (remove_stored-IsValid h s c id v))

  pub update_target_contract-IsValid :
      (caller : Address) (id : ℕ) (new_target : Address) (s : State h)
      → IsValid h s
      → Ensures (IsValid h) (update_target_contract h env caller id new_target s)
  unfolding update_target_contract
  update_target_contract-IsValid caller id new_target s v =
      let P = IsValid h in
      Ensures->>= P _ _ λ _ _. Ensures->>= P _ _ λ _ _. Ensures->>= P _ _ λ c e.
        Ensures->>= P _ _ λ _ _. Ensures-of P _ λ s' e'.
          retarget-IsValid h s id c
            (record c { target_contract = new_target; updated_at = env.timestamp }) v
            (load_alert-eq-ok h s id e) refl refl e'

  pub transfer_alert_ownership-IsValid :
      (owner : Address) (id : ℕ) (new_owner : Address) (s : State h)
      → IsValid h s
      → Ensures (IsValid h) (transfer_alert_ownership h env owner id new_owner s)
  unfolding transfer_alert_ownership assert_per_owner_limit
  transfer_alert_ownership-IsValid owner id new_owner s v =
      let P = IsValid h in
      Ensures->>= P _ _ λ _ _. Ensures->>= P _ _ λ _ _. Ensures->>= P _ _ λ c e.
        Ensures->>= P _ _ λ _ eo. elim (Bool-cases (new_owner == owner)) [
          | inl same ↦ rw same (Ensures-ok _ P v)
          | inr other ↦ rw other (
              Ensures->>= P _ _ λ s₁ e₁.
                let (v₁, al, _) =
                  Ensures-eq-ok _ (assert_per_owner_limit_for-IsValid h s _ _ v) e₁ in
                Ensures->>= P _ _ λ s₂ e₂. Ensures-ok _ P (
                  publish-IsValid h _ _ (
                    reown-IsValid h s₁ id c
                      (record c { owner = new_owner; updated_at = env.timestamp }) v₁
                      (ap (h.get id) al ∙ load_alert-eq-ok h s id e) refl refl
                      (rw (assert_owner-eq-ok c owner eo) e₂))))
        ]
