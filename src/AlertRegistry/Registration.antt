-- ===== src/AlertRegistry/Registration.antt =====
-- What a successful registration does, and when it succeeds.
use stellar_txwatch_contract.Prelude.{
  ℕ, ◌≡◌, ◌≢◌, ◌≤◌, ◌<◌, ◌+◌, ap, ◌∙◌, Option, none, some, List, [], ◌∷◌, ◌++◌, arith, is_some,
  length, length-append, unwrap_or, ==-refl, length-keep_if-le, Option-cases, inl, inr,
}
use stellar_txwatch_contract.Soroban.{Host, Address, Bytes, Env, ok, >>=-eq-ok, Ensures-eq-ok}
use stellar_txwatch_contract.Soroban.Access.{get-put, load_list-put}
use stellar_txwatch_contract.AlertRegistry.Types.{State, default_ttl}
use stellar_txwatch_contract.AlertRegistry.Store.{
  owner_index, live_ids, get_alert_count, assert_per_owner_limit, extend_instance_ttl,
  get_per_owner_alert_limit, u32_max,
}
use stellar_txwatch_contract.AlertRegistry.Register.{register_alert, new_config}
use stellar_txwatch_contract.AlertRegistry.Queries.{get_active_alert_count}
use stellar_txwatch_contract.AlertRegistry.Invariant.{IsValid, owner_ids, counter}
use stellar_txwatch_contract.AlertRegistry.Invariant.Registrations.{register_alert-IsValid}
use stellar_txwatch_contract.AlertRegistry.Spec.{owned, view}
use stellar_txwatch_contract.AlertRegistry.Spec.Counting.{length-live_ids}
use stellar_txwatch_contract.AlertRegistry.Invariant.Steps.{
  stored_new, store_new-eq-ok, assert_per_owner_limit_for-IsValid, assert_per_owner_limit_for_bound,
}

module _ (h : Host) where
  -- The next ID is not in use.
  pub counter_fresh : (s : State h) → IsValid h s → h.get (counter h s) s.alerts ≡ none
  counter_fresh s v = elim (Option-cases (h.get (counter h s) s.alerts)) [
    | inl absent ↦ absent
    | inr (c, there) ↦ absurd (omega (arith, v.owners.fresh _ _ (v.owners.listed _ c there)))
  ]

module _ (h : Host) (env : Env) where
  -- What the register call has become by its last step: the limit check has passed, and the record
  -- was stored under the counter's value.
  register_alert-eq-ok :
      (owner target : Address) (label hash : Bytes) (rules : List Bytes)
      (tags : Option (List Bytes)) (s : State h) {r : ℕ × State h}
      → register_alert h env owner target label hash rules tags s ≡ ok r
      → (s₁ : State h) × (assert_per_owner_limit h owner s ≡ ok s₁)
        × (r ≡ (
          counter h s₁,
          stored_new h (new_config env.timestamp owner target label hash rules tags) s₁,
        ))
  unfolding register_alert
  register_alert-eq-ok owner target label hash rules tags s e =
      let (_, _, e₁) = >>=-eq-ok _ _ e in
      let (_, _, e₂) = >>=-eq-ok _ _ e₁ in
      let (_, _, e₃) = >>=-eq-ok _ _ e₂ in
      let (_, _, e₄) = >>=-eq-ok _ _ e₃ in
      let (_, _, e₅) = >>=-eq-ok _ _ e₄ in
      let (_, _, e₆) = >>=-eq-ok _ _ e₅ in
      let (s₁, l, e₇) = >>=-eq-ok _ _ e₆ in (s₁, l, store_new-eq-ok h s₁ _ e₇)

  -- A successful registration in a valid state returns the counter's value, under which nothing was
  -- stored; afterwards the new record is stored there, every other record is as it was, and the
  -- counter is one higher.
  pub register_alert_stores :
      (owner target : Address) (label hash : Bytes) (rules : List Bytes)
      (tags : Option (List Bytes)) (s : State h) {id : ℕ} {s' : State h}
      → IsValid h s
      → register_alert h env owner target label hash rules tags s ≡ ok (id, s')
      → (id ≡ get_alert_count h s)
        × (h.get id s.alerts ≡ none)
        × (h.get id s'.alerts ≡ some (new_config env.timestamp owner target label hash rules tags))
        × ((j : ℕ) → j ≢ id → h.get j s'.alerts ≡ h.get j s.alerts)
        × (get_alert_count h s' ≡ id + 1)
  unfolding get_alert_count stored_new extend_instance_ttl assert_per_owner_limit
  register_alert_stores owner target label hash rules tags s {id} {s'} v e =
      let (s₁, l, r) = register_alert-eq-ok owner target label hash rules tags s e in
      let (v₁, al, n) = Ensures-eq-ok _ (assert_per_owner_limit_for-IsValid h s owner 1 v) l in
      let c = new_config env.timestamp owner target label hash rules tags in
      let same : counter h s₁ ≡ counter h s = ap (λ t. unwrap_or (h.get 0 t) 0) n in
      let idₑ : id ≡ counter h s = ap (λ p. p.0) r ∙ same in
      let stored = λ (j : ℕ).
        ap (λ p. h.get j p.1.alerts) r ∙ get-put h default_ttl j (counter h s₁) c s₁.alerts in
      let before = λ (j : ℕ). ap (h.get j) al in
      (
        idₑ,
        rw idₑ (counter_fresh h s v),
        ground (arith, stored id),
        (λ j ne. ground (arith, stored j, before j)),
        ground (arith, ap (λ p. p.1.next_id) r, h.get-set 0 0 (counter h s₁ + 1) s₁.next_id),
      )

  -- The live entries of the owner's index are within the limit.
  length-live_within_limit :
      (owner target : Address) (label hash : Bytes) (rules : List Bytes)
      (tags : Option (List Bytes)) (s : State h) {id : ℕ} {s' : State h}
      → register_alert h env owner target label hash rules tags s ≡ ok (id, s')
      → 0 < get_per_owner_alert_limit h s
      → get_per_owner_alert_limit h s < u32_max
      → length (live_ids h (owner_index h owner s') s') ≤ get_per_owner_alert_limit h s
  unfolding live_ids owner_index stored_new extend_instance_ttl new_config assert_per_owner_limit
  length-live_within_limit owner target label hash rules tags s {id} {s'} e pos fits =
      let (s₁, l, r) = register_alert-eq-ok owner target label hash rules tags s e in
      let (_, bound) = assert_per_owner_limit_for_bound h s owner 1 l pos fits in
      let now =
        ap (λ p. owner_ids h p.1 owner) r
        ∙ load_list-put h default_ttl owner owner (owner_ids h s₁ owner ++ counter h s₁ ∷ [])
            s₁.owner_indexes in
      let len =
        ap length now
        ∙ ap length (rw (==-refl owner))
        ∙ length-append (owner_ids h s₁ owner) (counter h s₁ ∷ []) in
      omega (
        arith,
        bound,
        len,
        length-keep_if-le (λ j. is_some (h.get j s'.alerts)) (owner_ids h s' owner),
      )

  -- In a valid state with a limit above 0 and below `u32::MAX`, after a successful registration at most that many of the stored
  -- alerts are the owner's, and `get_active_alert_count` returns their number.
  pub register_alert_within_limit :
      (owner target : Address) (label hash : Bytes) (rules : List Bytes)
      (tags : Option (List Bytes)) (s : State h) {id : ℕ} {s' : State h}
      → IsValid h s
      → register_alert h env owner target label hash rules tags s ≡ ok (id, s')
      → 0 < get_per_owner_alert_limit h s
      → get_per_owner_alert_limit h s < u32_max
      → (owned owner (view h s') ≤ get_per_owner_alert_limit h s)
        × (get_active_alert_count h owner s' ≡ owned owner (view h s'))
  unfolding get_active_alert_count
  register_alert_within_limit owner target label hash rules tags s {id} {s'} v e pos fits =
      let v' : IsValid h s' =
        Ensures-eq-ok _ (register_alert-IsValid h env owner target label hash rules tags s v) e in
      let all = length-live_ids h owner s' v' in
      let few = length-live_within_limit owner target label hash rules tags s e pos fits in
      (omega (arith, all, few), all)
