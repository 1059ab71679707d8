-- ===== src/AlertRegistry/Spec/Creation.antt =====
-- Registrations do to the map what `perform` says.
use stellar_txwatch_contract.Prelude.{
  ℕ, ◌+◌, ◌≡◌, refl, ap, ◌∙◌, sym, Option, some, List, [], ◌∷◌, ltb, ltb→lt, length, Bool-cases,
  inl, inr, ◌⊎◌,
}
use stellar_txwatch_contract.Soroban.{Host, Address, Bytes, Env, ok, err, ◌>>=◌}
use stellar_txwatch_contract.AlertRegistry.Types.{AlertConfig, AlertInput, State, counter_overflow}
use stellar_txwatch_contract.AlertRegistry.Store.{
  is_paused, assert_not_paused, load_admins, get_per_owner_alert_limit, assert_per_owner_limit,
  get_alert_count, next_id, u64_max, extend_instance_ttl,
}
use stellar_txwatch_contract.AlertRegistry.Register.{
  new_config, config_of, store_new, store_inputs, register_alert, batch_register_alerts,
}
use stellar_txwatch_contract.AlertRegistry.Calls.{Call}
use stellar_txwatch_contract.AlertRegistry.Invariant.{IsValid, counter}
use stellar_txwatch_contract.AlertRegistry.Invariant.Steps.{stored_new, stored_new-IsValid}
use stellar_txwatch_contract.AlertRegistry.Admission.{
  store_new_valid, counter-stored_new, get-stored_new,
}
use stellar_txwatch_contract.AlertRegistry.Spec.{
  Spec, view, at_id, running, create, create_all, perform,
}
use stellar_txwatch_contract.Soroban.Matching.{on_ok, on_ok->>=, on_ok->>=-ok}
use stellar_txwatch_contract.AlertRegistry.Spec.Matching.{Spec-eq}
use stellar_txwatch_contract.AlertRegistry.Spec.Counting.{assert_per_owner_limit_for->>=}

module _ (h : Host) where
  -- The map after a creation.
  abbrev created : AlertConfig → Spec → Spec
  created c v = record (at_id v.next (some c) v) { next = v.next + 1 }

  view-stored_new :
      (c : AlertConfig) (s : State h) → view h (stored_new h c s) ≡ created c (view h s)
  unfolding view get_alert_count load_admins is_paused get_per_owner_alert_limit stored_new
      extend_instance_ttl
  view-stored_new c s =
      Spec-eq (λ j. get-stored_new h j c s) (counter-stored_new h c s) refl refl refl refl

  -- A creation in a valid state either runs out of IDs, on the storage and on the map, or leaves the storage that stands for the map
  -- with the new alert.
  store_new-create :
      (c : AlertConfig) (s : State h)
      → IsValid h s
      → ((store_new h c s ≡ err counter_overflow) × (create c (view h s) ≡ err counter_overflow))
        ⊎ ((store_new h c s ≡ ok (counter h s, stored_new h c s))
            × (create c (view h s) ≡ ok (view h (stored_new h c s))))
  unfolding create view store_new next_id get_alert_count ◌>>=◌
  store_new-create c s v = elim (Bool-cases (ltb (counter h s) u64_max)) [
    | inl more ↦
        inr (store_new_valid h s c v (ltb→lt _ _ more), rw more (ap ok (sym (view-stored_new c s))))
    | inr full ↦ inl (rw full, rw full)
  ]

  on_ok-store_new :
      (c : AlertConfig) (s : State h)
      → IsValid h s
      → on_ok (λ (r : ℕ × State h). view h r.1) (store_new h c s) ≡ create c (view h s)
  unfolding on_ok
  on_ok-store_new c s v = elim (store_new-create c s v) [
    | inl (e, f) ↦ rw (e, f)
    | inr (e, f) ↦ rw (e, f)
  ]

  module _ (env : Env) where
    on_ok-store_inputs :
        (caller : Address) (inputs : List AlertInput) (s : State h)
        → IsValid h s
        → on_ok (λ (r : List ℕ × State h). view h r.1) (store_inputs h env caller inputs s)
          ≡ create_all env caller inputs (view h s)
    unfolding store_inputs create_all on_ok ◌>>=◌ config_of new_config
    on_ok-store_inputs caller [] s v = refl
    on_ok-store_inputs caller (input ∷ inputs) s v =
        let c = config_of env caller input in
        elim (store_new-create c s v) [
          | inl (e, f) ↦ rw (e, f)
          | inr (e, f) ↦
              rw (e, f)
                (on_ok->>=-ok _ (store_inputs h env caller inputs (stored_new h c s)) _
                  ∙ on_ok-store_inputs caller inputs _ (stored_new-IsValid h s c v refl))
        ]

    pub register_alert-perform :
        (owner target : Address) (label hash : Bytes) (rules : List Bytes)
        (tags : Option (List Bytes)) (s : State h)
        → IsValid h s
        → on_ok
            (λ (r : ℕ × State h). view h r.1)
            (register_alert h env owner target label hash rules tags s)
          ≡ perform env (Call.register_alert owner target label hash rules tags) (view h s)
    unfolding register_alert assert_per_owner_limit perform view running assert_not_paused
    register_alert-perform owner target label hash rules tags s v = on_ok->>= _ _ _ _ λ _ _.
        on_ok->>= _ _ _ _ λ _ _. on_ok->>= _ _ _ _ λ _ _. on_ok->>= _ _ _ _ λ _ _.
          on_ok->>= _ _ _ _ λ _ _. on_ok->>= _ _ _ _ λ _ _.
            assert_per_owner_limit_for->>= h _ owner 1 s _ _ v
              λ s' v' w al q. on_ok-store_new _ s' v' ∙ ap (create _) w

    pub batch_register_alerts-perform :
        (caller : Address) (inputs : List AlertInput) (s : State h)
        → IsValid h s
        → on_ok (λ (r : List ℕ × State h). view h r.1) (batch_register_alerts h env caller inputs s)
          ≡ perform env (Call.batch_register_alerts caller inputs) (view h s)
    unfolding batch_register_alerts perform view running assert_not_paused
    batch_register_alerts-perform caller inputs s v = on_ok->>= _ _ _ _ λ _ _.
        on_ok->>= _ _ _ _ λ _ _. on_ok->>= _ _ _ _ λ _ _. on_ok->>= _ _ _ _ λ _ _.
          assert_per_owner_limit_for->>= h _ caller (length inputs) s _ _ v λ s' v' w al q.
            on_ok-store_inputs caller inputs s' v' ∙ ap (create_all env caller inputs) w
