-- ===== src/AlertRegistry/Spec/Renewals.antt =====
-- The entry points that renew lifetimes leave the map alone, and `deactivate_all_alerts` does to it
-- what `perform` says.
use stellar_txwatch_contract.Prelude.{
  ℕ, ◌+◌, ◌≡◌, refl, ◌∙◌, false, Option, none, some, List, [], ◌∷◌, ◌==◌, if◌then◌else◌, arith, min,
  contains, Bool-cases, Option-cases, inl, inr,
}
use stellar_txwatch_contract.Soroban.{Host, Address, Env, ok, ◌>>=◌, Ensures-eq-ok}
use stellar_txwatch_contract.Soroban.Access.{get-put}
use stellar_txwatch_contract.AlertRegistry.Types.{AlertConfig, State, default_ttl, max_ttl}
use stellar_txwatch_contract.AlertRegistry.Store.{
  assert_not_paused, load_alert, save_alert, save_active, owner_index, extend_instance_ttl,
}
use stellar_txwatch_contract.AlertRegistry.Ttl.{
  bump_alert, renew_loop, bulk_renew_ttl, deactivate_one, deactivate_loop, deactivate_all_alerts,
}
use stellar_txwatch_contract.AlertRegistry.Queries.{get_alert}
use stellar_txwatch_contract.AlertRegistry.Calls.{Call}
use stellar_txwatch_contract.AlertRegistry.Invariant.{IsValid, owner_ids}
use stellar_txwatch_contract.AlertRegistry.Invariant.Updates.{load_alert-eq-ok}
use stellar_txwatch_contract.AlertRegistry.Invariant.Renewals.{renew_one-IsValid}
use stellar_txwatch_contract.AlertRegistry.Renewal.{
  extended_entries, extend_entries-eq, extend_next_ids-eq,
}
use stellar_txwatch_contract.AlertRegistry.Renewal.Bulk.{
  renewed_one, renew_one_absent, renew_one_stored,
}
use stellar_txwatch_contract.AlertRegistry.Spec.{view, switch_off, running, stored, perform}
use stellar_txwatch_contract.Soroban.Matching.{on_ok, on_ok->>=, on_ok-ok, on_ok-eq, on_ok->>=-eq}
use stellar_txwatch_contract.AlertRegistry.Spec.Matching.{kept, view-eq, view-same}

-- `deactivate_all_alerts` on an entry of the caller.
abbrev stopped : ℕ → Option AlertConfig → Option AlertConfig
stopped now none = none
stopped now (some c) =
    if c.active then some (record c { active = false; updated_at = now }) else some c

stopped_twice : (now : ℕ) (o : Option AlertConfig) → stopped now (stopped now o) ≡ stopped now o
stopped_twice now none = refl
stopped_twice now (some c) = ground arith

module _ (h : Host) where
  pub bump_alert-perform :
      (env : Env) (id ttl : ℕ) (s : State h)
      → IsValid h s
      → on_ok (view h) (bump_alert h id ttl s) ≡ perform env (Call.bump_alert id ttl) (view h s)
  unfolding bump_alert perform view running stored assert_not_paused load_alert extended_entries
      extend_instance_ttl
  bump_alert-perform env id ttl s v = on_ok->>= _ _ _ _ λ _ _. on_ok->>= _ _ _ _ λ c e.
      let t = min ttl max_ttl in
      let s₁ = extended_entries h t id c s in
      let (n, f) = extend_next_ids-eq h t s₁ in
      on_ok->>=-eq (view h) _ (extend_entries-eq h t id c s v (load_alert-eq-ok h s id e)) (
        on_ok->>=-eq (view h) _ f
          (on_ok-ok (view h) _ (view-same h s _ refl (λ j. h.get-extended j id t t s.alerts))))

  view-renewed_one :
      (id : ℕ) (c : AlertConfig) (s : State h) → view h (renewed_one h id c s) ≡ view h s
  unfolding renewed_one extended_entries
  view-renewed_one id c s =
      view-same h s _ refl (λ j. h.get-extended j id default_ttl default_ttl s.alerts)

  -- The loop ends, and the storage stands for the same map.
  renew_loop_keeps :
      (ids : List ℕ) (s : State h)
      → IsValid h s
      → (r : ℕ × State h) × (renew_loop h ids s ≡ ok r) × (view h r.1 ≡ view h s)
  unfolding renew_loop ◌>>=◌
  renew_loop_keeps [] s v = ((0, s), refl, refl)
  renew_loop_keeps (id ∷ ids) s v = elim (Option-cases (h.get id s.alerts)) [
    | inl absent ↦
        let (r, e, q) = renew_loop_keeps ids s v in (r, rw (renew_one_absent h id s absent, e), q)
    | inr (c, there) ↦
        let first = renew_one_stored h id c s v there in
        let (r, e, q) =
          renew_loop_keeps ids (renewed_one h id c s)
            (Ensures-eq-ok _ (renew_one-IsValid h id s v) first) in
        ((r.0 + 1, r.1), rw (first, e), q ∙ view-renewed_one id c s)
  ]

  pub bulk_renew_ttl-perform :
      (env : Env) (ids : List ℕ) (s : State h)
      → IsValid h s
      → on_ok (λ (r : ℕ × State h). view h r.1) (bulk_renew_ttl h ids s)
        ≡ perform env (Call.bulk_renew_ttl ids) (view h s)
  unfolding bulk_renew_ttl perform
  bulk_renew_ttl-perform env ids s v = on_ok->>= _ _ _ _ λ _ _.
      let (r, e, q) = renew_loop_keeps ids s v in on_ok-eq (λ (r : ℕ × State h). view h r.1) e q

  pub view-get_alert : (id : ℕ) (s : State h) → view h (get_alert h id s).1 ≡ view h s
  unfolding get_alert
  view-get_alert id s = elim (Option-cases (h.get id s.alerts)) [
    | inl absent ↦ rw (absent, get_alert)
    | inr (c, there) ↦
        rw (there, get_alert) (view-same h s _ refl (λ j. h.get-extended j id _ _ s.alerts))
  ]

  module _ (env : Env) where
    get-deactivate_one :
        (id j : ℕ) (s : State h)
        → h.get j (deactivate_one h env id s).1.alerts
          ≡ (if id == j then stopped env.timestamp (h.get j s.alerts) else h.get j s.alerts)
    unfolding deactivate_one save_alert save_active
    get-deactivate_one id j s = elim (Option-cases (h.get id s.alerts)) [
      | inl absent ↦ rw (absent, deactivate_one) (ground arith)
      | inr (c, there) ↦ elim (Bool-cases c.active) [
        | inl on ↦
            rw (there, deactivate_one, on)
              (get-put h default_ttl j id (record c { active = false; updated_at = env.timestamp })
                  s.alerts
                ∙ ground arith)
        | inr off ↦ rw (there, deactivate_one, off) (ground arith)
      ]
    ]

    get-deactivate_loop :
        (ids : List ℕ) (j : ℕ) (s : State h)
        → h.get j (deactivate_loop h env ids s).1.alerts
          ≡ (if contains ids j then stopped env.timestamp (h.get j s.alerts) else h.get j s.alerts)
    unfolding deactivate_loop contains
    get-deactivate_loop [] j s = refl
    get-deactivate_loop (id ∷ ids) j s =
        get-deactivate_loop ids j (deactivate_one h env id s).1
        ∙ ground (arith, get-deactivate_one id j s, stopped_twice env.timestamp (h.get j s.alerts))

    -- The owner's list has the alerts of the owner.
    switched_off :
        (a : Address) (j : ℕ) (s : State h)
        → IsValid h s
        → (if contains (owner_ids h s a) j
            then stopped env.timestamp (h.get j s.alerts)
            else h.get j s.alerts)
          ≡ switch_off env.timestamp a (h.get j s.alerts)
    switched_off a j s v = elim (Option-cases (h.get j s.alerts)) [
      | inl absent ↦ rw absent (ground arith)
      | inr (c, there) ↦ rw there (ground (arith, v.owners.listed j c there, v.owners.only a j c))
    ]

    kept-deactivate_loop :
        (ids : List ℕ) (s : State h) → kept h (deactivate_loop h env ids s).1 ≡ kept h s
    unfolding deactivate_loop deactivate_one save_alert save_active
    kept-deactivate_loop [] s = refl
    kept-deactivate_loop (id ∷ ids) s =
        kept-deactivate_loop ids (deactivate_one h env id s).1 ∙ ground arith

    pub deactivate_all_alerts-perform :
        (a : Address) (s : State h)
        → IsValid h s
        → on_ok (λ (r : ℕ × State h). view h r.1) (deactivate_all_alerts h env a s)
          ≡ perform env (Call.deactivate_all_alerts a) (view h s)
    unfolding deactivate_all_alerts perform view running assert_not_paused owner_index
    deactivate_all_alerts-perform a s v = on_ok->>= _ _ _ _ λ _ _. on_ok->>= _ _ _ _ λ _ _.
        on_ok-ok (λ (r : ℕ × State h). view h r.1) _
          (view-eq h s _
            (record (view h s) { alerts = λ id. switch_off env.timestamp a (h.get id s.alerts) })
            (kept-deactivate_loop (owner_ids h s a) s)
            (λ j. get-deactivate_loop (owner_ids h s a) j s ∙ switched_off a j s v) refl refl refl
            refl refl)
