-- ===== src/AlertRegistry/Invariant/Renewals.antt =====
-- The entry points that renew lifetimes, and `deactivate_all_alerts`, keep the invariant.
use stellar_txwatch_contract.Prelude.{
  ℕ, refl, Bool, false, List, [], ◌∷◌, Option-cases, inl, inr, Bool-cases,
}
use stellar_txwatch_contract.Soroban.{
  Host, Address, Env, Ensures, Ensures->>=, Ensures-ok, Ensures-eq-ok,
}
use stellar_txwatch_contract.Soroban.Access.{get-extend}
use stellar_txwatch_contract.AlertRegistry.Types.{AlertConfig, State}
use stellar_txwatch_contract.AlertRegistry.Store.{extend_instance_ttl}
use stellar_txwatch_contract.AlertRegistry.Queries.{get_alert}
use stellar_txwatch_contract.AlertRegistry.Ttl.{
  extend_entries, extend_next_ids, bump_alert, renew_one, renew_loop, bulk_renew_ttl,
  deactivate_one, deactivate_loop, deactivate_all_alerts,
}
use stellar_txwatch_contract.AlertRegistry.Invariant.{
  IsValid, IsValid-same, publish-IsValid, save-IsValid,
}
use stellar_txwatch_contract.AlertRegistry.Invariant.Updates.{extend_indexes-IsValid}

module _ (h : Host) where
  extend_entries-IsValid :
      (t id : ℕ) (c : AlertConfig) (s : State h)
      → IsValid h s
      → Ensures (IsValid h) (extend_entries h t id c s)
  unfolding extend_entries
  extend_entries-IsValid t id c s v =
      let P = IsValid h in
      Ensures->>= P _ _ λ al e₁. Ensures->>= P _ _ λ ac e₂. extend_indexes-IsValid h t c _ (
        IsValid-same h s (record s { alerts = al; alert_actives = ac }) v
          (λ j. get-extend h t j id s.alerts e₁) (λ j. get-extend h t j id s.alert_actives e₂)
          (λ j. refl) (λ j. refl) refl)

  extend_next_ids-IsValid :
      (t : ℕ) (s : State h) → IsValid h s → Ensures (IsValid h) (extend_next_ids h t s)
  unfolding extend_next_ids
  extend_next_ids-IsValid t s v = elim (Option-cases (h.get 0 s.next_ids)) [
    | inl absent ↦ rw absent (Ensures-ok _ (IsValid h) v)
    | inr (n, there) ↦ rw there (
        Ensures->>= (IsValid h) _ _ λ n' e.
          Ensures-ok _ (IsValid h)
            (record { owners = v.owners; targets = v.targets; agree = v.agree }))
  ]

  extend_instance_ttl-IsValid :
      (t : ℕ) (s : State h) → IsValid h s → IsValid h (extend_instance_ttl h t s)
  unfolding extend_instance_ttl
  extend_instance_ttl-IsValid t s v = record {
    owners = v.owners;
    targets = v.targets;
    agree = v.agree;
  }

  pub bump_alert-IsValid :
      (id ttl : ℕ) (s : State h) → IsValid h s → Ensures (IsValid h) (bump_alert h id ttl s)
  unfolding bump_alert
  bump_alert-IsValid id ttl s v =
      let P = IsValid h in
      Ensures->>= P _ _ λ _ _. Ensures->>= P _ _ λ c e. Ensures->>= P _ _ λ s₁ e₁.
        Ensures->>= P _ _ λ s₂ e₂.
          let v₁ = Ensures-eq-ok P (extend_entries-IsValid _ id c s v) e₁ in
          let v₂ = Ensures-eq-ok P (extend_next_ids-IsValid _ s₁ v₁) e₂ in
          Ensures-ok _ P (publish-IsValid h _ _ (extend_instance_ttl-IsValid _ s₂ v₂))

  pub renew_one-IsValid :
      (id : ℕ) (s : State h) → IsValid h s → Ensures (λ r. IsValid h r.1) (renew_one h id s)
  unfolding renew_one
  renew_one-IsValid id s v =
      let P = λ (r : Bool × State h). IsValid h r.1 in
      elim (Option-cases (h.get id s.alerts)) [
        | inl absent ↦ rw (absent, renew_one) (Ensures-ok _ P v)
        | inr (c, there) ↦
            rw (there, renew_one)
              (Ensures->>= P _ _ λ s' e. Ensures-ok _ P (
                publish-IsValid h _ _
                  (Ensures-eq-ok (IsValid h) (extend_entries-IsValid _ id c s v) e)))
      ]

  renew_loop-IsValid :
      (ids : List ℕ) (s : State h) → IsValid h s → Ensures (λ r. IsValid h r.1) (renew_loop h ids s)
  unfolding renew_loop
  renew_loop-IsValid [] s v = Ensures-ok _ (λ (r : ℕ × State h). IsValid h r.1) v
  renew_loop-IsValid (id ∷ ids) s v =
      let P = λ (r : ℕ × State h). IsValid h r.1 in
      Ensures->>= P _ _ λ r₁ e₁. Ensures->>= P _ _ λ r₂ e₂.
        let v₁ = Ensures-eq-ok _ (renew_one-IsValid id s v) e₁ in
        Ensures-ok _ P (Ensures-eq-ok _ (renew_loop-IsValid ids r₁.1 v₁) e₂)

  pub bulk_renew_ttl-IsValid :
      (ids : List ℕ) (s : State h)
      → IsValid h s
      → Ensures (λ r. IsValid h r.1) (bulk_renew_ttl h ids s)
  unfolding bulk_renew_ttl
  bulk_renew_ttl-IsValid ids s v =
      let P = λ (r : ℕ × State h). IsValid h r.1 in
      Ensures->>= P _ _ λ _ _. renew_loop-IsValid ids s v

  -- A read may renew a lifetime, and changes no data.
  pub get_alert-IsValid : (id : ℕ) (s : State h) → IsValid h s → IsValid h (get_alert h id s).1
  unfolding get_alert
  get_alert-IsValid id s v = elim (Option-cases (h.get id s.alerts)) [
    | inl absent ↦ rw (absent, get_alert) v
    | inr (c, there) ↦
        rw (there, get_alert)
          (IsValid-same h s _ v (λ j. h.get-extended j id _ _ s.alerts) (λ j. refl) (λ j. refl)
            (λ j. refl) refl)
  ]

module _ (h : Host) (env : Env) where
  deactivate_one-IsValid :
      (id : ℕ) (s : State h) → IsValid h s → IsValid h (deactivate_one h env id s).1
  unfolding deactivate_one
  deactivate_one-IsValid id s v = elim (Option-cases (h.get id s.alerts)) [
    | inl absent ↦ rw (absent, deactivate_one) v
    | inr (c, there) ↦ elim (Bool-cases c.active) [
      | inl on ↦
          rw (there, deactivate_one, on)
            (save-IsValid h s id c (record c { active = false; updated_at = env.timestamp }) v there
              refl refl)
      | inr off ↦ rw (there, deactivate_one, off) v
    ]
  ]

  pub deactivate_loop-IsValid :
      (ids : List ℕ) (s : State h) → IsValid h s → IsValid h (deactivate_loop h env ids s).1
  unfolding deactivate_loop
  deactivate_loop-IsValid [] s v = v
  deactivate_loop-IsValid (id ∷ ids) s v =
      deactivate_loop-IsValid ids _ (deactivate_one-IsValid id s v)

  pub deactivate_all_alerts-IsValid :
      (caller : Address) (s : State h)
      → IsValid h s
      → Ensures (λ r. IsValid h r.1) (deactivate_all_alerts h env caller s)
  unfolding deactivate_all_alerts
  deactivate_all_alerts-IsValid caller s v =
      let P = λ (r : ℕ × State h). IsValid h r.1 in
      Ensures->>= P _ _
        λ _ _. Ensures->>= P _ _ λ _ _. Ensures-ok _ P (deactivate_loop-IsValid _ s v)
