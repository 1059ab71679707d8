-- ===== src/AlertRegistry/Access/Signed.antt =====
-- No stored alert changes without the signature of its owner or of an admin.
use stellar_txwatch_contract.Prelude.{
  ℕ, ◌≡◌, refl, ◌⊎◌, inl, inr, Bool, true, false, some, List, [], ◌∷◌, arith, ap, ◌∙◌, ◌==◌,
  contains, Bool-cases, Option-cases,
}
use stellar_txwatch_contract.Soroban.{
  Host, Address, Env, Outcome, ok, ◌>>=◌, Ensures, Ensures->>=, Ensures-ok, Ensures-of,
  Ensures-eq-ok,
}
use stellar_txwatch_contract.Soroban.Access.{get-put, get-extend, require_auth-eq-ok}
use stellar_txwatch_contract.AlertRegistry.Types.{ContractError, AlertConfig, State, default_ttl}
use stellar_txwatch_contract.AlertRegistry.Store.{
  save_alert, save_active, owner_index, extend_instance_ttl,
}
use stellar_txwatch_contract.AlertRegistry.Update.{pause_alert, unpause_alert}
use stellar_txwatch_contract.AlertRegistry.Ttl.{
  extend_entries, extend_next_ids, bump_alert, renew_one, renew_loop, bulk_renew_ttl,
  deactivate_one, deactivate_loop, deactivate_all_alerts,
}
use stellar_txwatch_contract.AlertRegistry.Queries.{get_alert}
use stellar_txwatch_contract.AlertRegistry.Calls.{Call, execute, state_of}
use stellar_txwatch_contract.AlertRegistry.Invariant.{IsValid, owner_ids}
use stellar_txwatch_contract.AlertRegistry.Access
use stellar_txwatch_contract.AlertRegistry.Access.{
  IsSigned, Guarded, Guarded-same, extend_indexes-alerts,
}
use stellar_txwatch_contract.AlertRegistry.Access.Storing
use stellar_txwatch_contract.AlertRegistry.Reachable
use stellar_txwatch_contract.AlertRegistry.Reachable.{SameAlerts}

module _ (h : Host) where
  -- Two states with the same alerts, as data.
  abbrev pub SameData : State h → State h → Type 0
  SameData s s' = (j : ℕ) → h.get j s'.alerts ≡ h.get j s.alerts

  pub extend_entries-SameData :
      (t id : ℕ) (c : AlertConfig) (s : State h) → Ensures (SameData s) (extend_entries h t id c s)
  unfolding extend_entries
  extend_entries-SameData t id c s =
      let P = SameData s in
      Ensures->>= P _ _ λ al e₁. Ensures->>= P _ _ λ ac e₂. Ensures-of P _ λ s' e₃ j.
        ap (h.get j) (Ensures-eq-ok _ (extend_indexes-alerts h t c _) e₃)
        ∙ get-extend h t j id s.alerts e₁

  extend_next_ids-alerts :
      (t : ℕ) (s : State h) → Ensures (λ s'. s'.alerts ≡ s.alerts) (extend_next_ids h t s)
  unfolding extend_next_ids ◌>>=◌
  extend_next_ids-alerts t s = Ensures-of _ _ λ s' e. ground arith

  pub bump_alert-SameData :
      (id ttl : ℕ) (s : State h) → Ensures (SameData s) (bump_alert h id ttl s)
  unfolding bump_alert extend_instance_ttl
  bump_alert-SameData id ttl s =
      let P = SameData s in
      Ensures->>= P _ _ λ _ _. Ensures->>= P _ _ λ c e₁. Ensures->>= P _ _ λ s₁ e₂.
        Ensures->>= P _ _ λ s₂ e₃. Ensures-ok _ P λ j.
          ap (h.get j) (Ensures-eq-ok _ (extend_next_ids-alerts _ s₁) e₃)
          ∙ Ensures-eq-ok _ (extend_entries-SameData _ id c s) e₂ j

  pub renew_one-SameData : (id : ℕ) (s : State h) → Ensures (λ r. SameData s r.1) (renew_one h id s)
  unfolding renew_one
  renew_one-SameData id s =
      let P = λ (r : Bool × State h). SameData s r.1 in
      elim (Option-cases (h.get id s.alerts)) [
        | inl absent ↦ rw (absent, renew_one) (Ensures-ok _ P (λ j. refl))
        | inr (c, there) ↦
            rw (there, renew_one)
              (Ensures->>= P _ _
                λ s' e. Ensures-ok _ P (Ensures-eq-ok _ (extend_entries-SameData _ id c s) e))
      ]

  pub renew_loop-SameData :
      (ids : List ℕ) (s : State h) → Ensures (λ r. SameData s r.1) (renew_loop h ids s)
  unfolding renew_loop
  renew_loop-SameData [] s = Ensures-ok _ (λ (r : ℕ × State h). SameData s r.1) (λ j. refl)
  renew_loop-SameData (id ∷ ids) s =
      let P = λ (r : ℕ × State h). SameData s r.1 in
      Ensures->>= P _ _ λ r₁ e₁. Ensures->>= P _ _ λ r₂ e₂. Ensures-ok _ P λ j.
        Ensures-eq-ok _ (renew_loop-SameData ids r₁.1) e₂ j
        ∙ Ensures-eq-ok _ (renew_one-SameData id s) e₁ j

  pub bulk_renew_ttl-SameData :
      (ids : List ℕ) (s : State h) → Ensures (λ r. SameData s r.1) (bulk_renew_ttl h ids s)
  unfolding bulk_renew_ttl
  bulk_renew_ttl-SameData ids s =
      Ensures->>= (λ (r : ℕ × State h). SameData s r.1) _ _ λ _ _. renew_loop-SameData ids s

  pub get_alert-SameData : (id : ℕ) (s : State h) → SameData s (get_alert h id s).1
  unfolding get_alert
  get_alert-SameData id s j = elim (Option-cases (h.get id s.alerts)) [
    | inl absent ↦ rw (absent, get_alert)
    | inr (c, there) ↦ rw (there, get_alert) (h.get-extended j id _ _ s.alerts)
  ]

module _ (h : Host) (env : Env) where
  deactivate_one_ne :
      (id j : ℕ) (s : State h)
      → (id == j) ≡ false
      → h.get j (deactivate_one h env id s).1.alerts ≡ h.get j s.alerts
  unfolding deactivate_one save_alert save_active
  deactivate_one_ne id j s ne = elim (Option-cases (h.get id s.alerts)) [
    | inl absent ↦ rw (absent, deactivate_one)
    | inr (c, there) ↦ elim (Bool-cases c.active) [
      | inl on ↦
          rw (there, deactivate_one, on)
            (get-put h default_ttl j id (record c { active = false; updated_at = env.timestamp })
                s.alerts
              ∙ rw ne)
      | inr off ↦ rw (there, deactivate_one, off)
    ]
  ]

  -- `deactivate_all_alerts` writes to the alerts in the list only.
  pub deactivate_loop_ne :
      (ids : List ℕ) (j : ℕ) (s : State h)
      → contains ids j ≡ false
      → h.get j (deactivate_loop h env ids s).1.alerts ≡ h.get j s.alerts
  unfolding deactivate_loop contains
  deactivate_loop_ne [] j s out = refl
  deactivate_loop_ne (id ∷ ids) j s out =
      deactivate_loop_ne ids j (deactivate_one h env id s).1 (ground arith)
      ∙ deactivate_one_ne id j s (ground arith)

  deactivate_all_alerts-Guarded :
      (caller : Address) (s : State h)
      → IsValid h s
      → Ensures (λ r. Guarded h env s r.1) (deactivate_all_alerts h env caller s)
  unfolding deactivate_all_alerts owner_index
  deactivate_all_alerts-Guarded caller s v =
      let P = λ (r : ℕ × State h). Guarded h env s r.1 in
      Ensures->>= P _ _ λ _ _. Ensures->>= P _ _ λ _ e₁. Ensures-ok _ P (record {
        guard = λ j c there. elim (Bool-cases (contains (owner_ids h s caller) j)) [
          | inl listed ↦
              inr (
                inl (rw (v.owners.only caller j c listed there) (require_auth-eq-ok env caller e₁)))
          | inr out ↦ inl (deactivate_loop_ne (owner_ids h s caller) j s out ∙ there)
        ];
      })

  -- An entry point of the configuration changes no alert.
  admin_frame :
      {m : Outcome ContractError (State h)} (s s' : State h)
      → Ensures (SameAlerts h s) m
      → m ≡ ok s'
      → Guarded h env s s'
  admin_frame s s' k e = Guarded-same h env s s' (λ j. ap (h.get j) ((Ensures-eq-ok _ k e).0))

  state_of-Guarded :
      {A : Type 0} (m : Outcome ContractError (A × State h)) (s : State h)
      → Ensures (λ r. Guarded h env s r.1) m
      → Ensures (Guarded h env s) (state_of h m)
  state_of-Guarded m s k =
      Ensures->>= _ _ _ λ r e. Ensures-ok _ (Guarded h env s) (Ensures-eq-ok _ k e)

  execute-Guarded :
      (call : Call) (s : State h) → IsValid h s → Ensures (Guarded h env s) (execute h env call s)
  unfolding execute pause_alert unpause_alert
  execute-Guarded (Call.initialize a) s v =
      Ensures-of _ _ λ s' e. admin_frame s s' (Reachable.initialize-SameAlerts h env s a) e
  execute-Guarded (Call.transfer_admin a b) s v =
      Ensures-of _ _ λ s' e. admin_frame s s' (Reachable.transfer_admin-SameAlerts h env s a b) e
  execute-Guarded (Call.add_admin a b) s v =
      Ensures-of _ _ λ s' e. admin_frame s s' (Reachable.add_admin-SameAlerts h env s a b) e
  execute-Guarded (Call.remove_admin a b) s v =
      Ensures-of _ _ λ s' e. admin_frame s s' (Reachable.remove_admin-SameAlerts h env s a b) e
  execute-Guarded (Call.set_per_owner_alert_limit a n) s v =
      Ensures-of _ _
        λ s' e. admin_frame s s' (Reachable.set_per_owner_alert_limit-SameAlerts h env s a n) e
  execute-Guarded (Call.set_paused a b) s v =
      Ensures-of _ _ λ s' e. admin_frame s s' (Reachable.set_paused-SameAlerts h env s a b) e
  execute-Guarded (Call.set_watcher_registry a b) s v =
      Ensures-of _ _
        λ s' e. admin_frame s s' (Reachable.set_watcher_registry-SameAlerts h env s a b) e
  execute-Guarded (Call.register_alert a b l w rs ts) s v =
      state_of-Guarded _ s (Storing.register_alert-Guarded h env a b l w rs ts s v)
  execute-Guarded (Call.batch_register_alerts a is) s v =
      state_of-Guarded _ s (Storing.batch_register_alerts-Guarded h env a is s v)
  execute-Guarded (Call.pause_alert a id) s v =
      Access.set_alert_active_by_admin-Guarded h env a id false s
  execute-Guarded (Call.unpause_alert a id) s v =
      Access.set_alert_active_by_admin-Guarded h env a id true s
  execute-Guarded (Call.update_alert a id rs b) s v = Access.update_alert-Guarded h env a id rs b s
  execute-Guarded (Call.update_webhook a id w) s v = Access.update_webhook-Guarded h env a id w s
  execute-Guarded (Call.propose_webhook a id w) s v = Access.propose_webhook-Guarded h env a id w s
  execute-Guarded (Call.update_label a id l) s v = Access.update_label-Guarded h env a id l s
  execute-Guarded (Call.confirm_webhook a id) s v = Access.confirm_webhook-Guarded h env a id s
  execute-Guarded (Call.remove_alert a id) s v = Storing.remove_alert-Guarded h env a id s
  execute-Guarded (Call.remove_alert_by_admin a id) s v =
      Storing.remove_alert_by_admin-Guarded h env a id s
  execute-Guarded (Call.bump_alert id t) s v =
      Ensures-of _ _
        λ s' e. Guarded-same h env s s' (Ensures-eq-ok _ (bump_alert-SameData h id t s) e)
  execute-Guarded (Call.bulk_renew_ttl ids) s v = state_of-Guarded _ s (
      Ensures-of _ _
        λ r e. Guarded-same h env s r.1 (Ensures-eq-ok _ (bulk_renew_ttl-SameData h ids s) e))
  execute-Guarded (Call.get_alert id) s v =
      Ensures-ok _ (Guarded h env s) (Guarded-same h env s _ (get_alert-SameData h id s))
  execute-Guarded (Call.deactivate_all_alerts a) s v =
      state_of-Guarded _ s (deactivate_all_alerts-Guarded a s v)
  execute-Guarded (Call.update_target_contract a id b) s v =
      Access.update_target_contract-Guarded h env a id b s
  execute-Guarded (Call.transfer_alert_ownership a id b) s v =
      Storing.transfer_alert_ownership-Guarded h env a id b s v
  execute-Guarded (Call.update_tags a id ts) s v = Access.update_tags-Guarded h env a id ts s

  -- In a valid state a successful call leaves a stored alert exactly as it is, unless it carries the
  -- signature of the alert's owner or of an address in the admin set.
  pub execute_change-IsSigned :
      (call : Call) (s : State h) {s' : State h}
      → IsValid h s
      → execute h env call s ≡ ok s'
      → (id : ℕ) (c : AlertConfig) → h.get id s.alerts ≡ some c
      → (h.get id s'.alerts ≡ some c) ⊎ IsSigned h env s c
  execute_change-IsSigned call s v e = (Ensures-eq-ok _ (execute-Guarded call s v) e).guard
