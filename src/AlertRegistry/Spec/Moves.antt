-- ===== src/AlertRegistry/Spec/Moves.antt =====
-- Removals, and the entry points that move an alert from one index entry to another, do to the map
-- what `perform` says.
use mathlib.Core.Path.{subst}
use stellar_txwatch_contract.Prelude.{
  ℕ, ◌≡◌, refl, ap, ◌∙◌, false, not, none, some, [], ◌∷◌, ◌++◌, ◌==◌, arith, contains, keep_if,
  contains-keep_if, Bool-cases, inl, inr,
}
use stellar_txwatch_contract.Soroban.{Host, Address, Env, ok, ◌>>=◌}
use stellar_txwatch_contract.Soroban.Access.{put, get-put, load_list-put_list}
use stellar_txwatch_contract.AlertRegistry.Types.{AlertConfig, State, Event, default_ttl}
use stellar_txwatch_contract.AlertRegistry.Store.{
  publish, assert_not_paused, assert_admin, load_alert, save_alert, owner_index, contract_index,
  remove_stored, remove_alert_record, remove_alert_record_by_admin, remove_from_owner_index,
  remove_from_contract_index, push_owner_index, push_contract_index, assert_per_owner_limit,
}
use stellar_txwatch_contract.AlertRegistry.Update.{
  remove_alert, remove_alert_by_admin, update_target_contract, transfer_alert_ownership,
}
use stellar_txwatch_contract.AlertRegistry.Calls.{Call}
use stellar_txwatch_contract.AlertRegistry.Invariant.{IsValid, owner_ids, contract_ids}
use stellar_txwatch_contract.AlertRegistry.Invariant.Updates.{load_alert-eq-ok, assert_owner-eq-ok}
use stellar_txwatch_contract.AlertRegistry.Spec.{view, at_id, running, by_admin, stored, perform}
use stellar_txwatch_contract.Soroban.Matching.{on_ok, on_ok->>=, on_ok-ok, on_ok-eq, on_ok->>=-eq}
use stellar_txwatch_contract.AlertRegistry.Spec.Matching.{view-at_id}
use stellar_txwatch_contract.AlertRegistry.Spec.Counting.{assert_per_owner_limit_for->>=}

module _ (h : Host) where
  view-remove_stored :
      (e : Event) (id : ℕ) (c : AlertConfig) (s : State h)
      → view h (publish h e (remove_stored h c id s)) ≡ at_id id none (view h s)
  unfolding remove_stored remove_from_owner_index remove_from_contract_index
  view-remove_stored e id c s = view-at_id h s _ id none refl (λ j. h.get-remove j id s.alerts)

  push_owner_index_succeeds :
      (k : Address) (id : ℕ) (s : State h)
      → contains (owner_ids h s k) id ≡ false
      → push_owner_index h k id s
        ≡ ok (record s {
          owner_indexes = put h default_ttl k (owner_ids h s k ++ id ∷ []) s.owner_indexes;
        })
  unfolding push_owner_index owner_index ◌>>=◌
  push_owner_index_succeeds k id s new = rw new

  push_contract_index_succeeds :
      (k : Address) (id : ℕ) (s : State h)
      → contains (contract_ids h s k) id ≡ false
      → push_contract_index h k id s
        ≡ ok (record s {
          contract_indexes = put h default_ttl k (contract_ids h s k ++ id ∷ []) s.contract_indexes;
        })
  unfolding push_contract_index contract_index ◌>>=◌
  push_contract_index_succeeds k id s new = rw new

  -- Once an ID has left the list of its owner, no owner's list has it.
  gone_from_owners :
      (id : ℕ) (c : AlertConfig) (a : Address) (s : State h)
      → IsValid h s
      → h.get id s.alerts ≡ some c
      → contains (owner_ids h (remove_from_owner_index h c.owner id s) a) id ≡ false
  unfolding remove_from_owner_index owner_index
  gone_from_owners id c a s v there = ground (
    arith,
    load_list-put_list h default_ttl a c.owner
        (keep_if (λ v. not (v == id)) (owner_ids h s c.owner)) s.owner_indexes,
    contains-keep_if (λ v. not (v == id)) (owner_ids h s c.owner) id,
    v.owners.only a id c,
  )

  gone_from_contracts :
      (id : ℕ) (c : AlertConfig) (a : Address) (s : State h)
      → IsValid h s
      → h.get id s.alerts ≡ some c
      → contains (contract_ids h (remove_from_contract_index h c.target_contract id s) a) id ≡ false
  unfolding remove_from_contract_index contract_index
  gone_from_contracts id c a s v there = ground (
    arith,
    load_list-put_list h default_ttl a c.target_contract
        (keep_if (λ v. not (v == id)) (contract_ids h s c.target_contract)) s.contract_indexes,
    contains-keep_if (λ v. not (v == id)) (contract_ids h s c.target_contract) id,
    v.targets.only a id c,
  )

  module _ (env : Env) (s : State h) where
    pub remove_alert-perform :
        (a : Address) (id : ℕ)
        → on_ok (view h) (remove_alert h env a id s)
          ≡ perform env (Call.remove_alert a id) (view h s)
    unfolding remove_alert remove_alert_record perform view running stored assert_not_paused
        load_alert
    remove_alert-perform a id = on_ok->>= _ _ _ _ λ _ _. on_ok->>= _ _ _ _ λ _ _.
        on_ok->>= _ _ _ _
          λ c e. on_ok->>= _ _ _ _ λ _ _. on_ok-ok (view h) _ (view-remove_stored _ id c s)

    pub remove_alert_by_admin-perform :
        (a : Address) (id : ℕ)
        → on_ok (view h) (remove_alert_by_admin h env a id s)
          ≡ perform env (Call.remove_alert_by_admin a id) (view h s)
    unfolding remove_alert_by_admin remove_alert_record_by_admin perform view running stored
        by_admin assert_admin assert_not_paused load_alert
    remove_alert_by_admin-perform a id = on_ok->>= _ _ _ _ λ _ _. on_ok->>= _ _ _ _ λ _ _.
        on_ok->>= _ _ _ _
          λ _ _. on_ok->>= _ _ _ _ λ c e. on_ok-ok (view h) _ (view-remove_stored _ id c s)

    pub update_target_contract-perform :
        (a : Address) (id : ℕ) (target : Address)
        → IsValid h s
        → on_ok (view h) (update_target_contract h env a id target s)
          ≡ perform env (Call.update_target_contract a id target) (view h s)
    unfolding update_target_contract perform view running stored assert_not_paused load_alert
        save_alert remove_from_contract_index contract_index
    update_target_contract-perform a id target v = on_ok->>= _ _ _ _ λ _ _. on_ok->>= _ _ _ _ λ _ _.
        on_ok->>= _ _ _ _ λ c e. on_ok->>= _ _ _ _ λ _ _.
          let c' = record c { target_contract = target; updated_at = env.timestamp } in
          let s₂ = remove_from_contract_index h c.target_contract id (save_alert h id c' s) in
          let gone : contains (contract_ids h s₂ target) id ≡ false =
            gone_from_contracts id c target s v (load_alert-eq-ok h s id e) in
          on_ok-eq (view h) (push_contract_index_succeeds target id s₂ gone)
            (view-at_id h s _ id (some c') refl (λ j. get-put h default_ttl j id c' s.alerts))

    pub transfer_alert_ownership-perform :
        (a : Address) (id : ℕ) (b : Address)
        → IsValid h s
        → on_ok (view h) (transfer_alert_ownership h env a id b s)
          ≡ perform env (Call.transfer_alert_ownership a id b) (view h s)
    unfolding transfer_alert_ownership assert_per_owner_limit perform view running stored
        assert_not_paused load_alert save_alert remove_from_owner_index owner_index
    transfer_alert_ownership-perform a id b v = on_ok->>= _ _ _ _ λ _ _. on_ok->>= _ _ _ _ λ _ _.
        on_ok->>= _ _ _ _ λ c e. on_ok->>= _ _ _ _ λ _ o. elim (Bool-cases (b == a)) [
          | inl same ↦ rw same (on_ok-ok (view h) s refl)
          | inr other ↦ rw other (
              assert_per_owner_limit_for->>= h (view h) b 1 s _ _ v λ s₁ v₁ w al q.
                let there : h.get id s₁.alerts ≡ some c =
                  ap (h.get id) al ∙ load_alert-eq-ok h s id e in
                let gone =
                  subst
                    (λ x. contains (owner_ids h (remove_from_owner_index h x id s₁) b) id ≡ false)
                    (assert_owner-eq-ok c a o) (gone_from_owners id c b s₁ v₁ there) in
                let s₂ = remove_from_owner_index h a id s₁ in
                let c' = record c { owner = b; updated_at = env.timestamp } in
                on_ok->>=-eq (view h) _ (push_owner_index_succeeds b id s₂ gone) (
                  on_ok-ok (view h) _ (
                    view-at_id h s₁ _ id (some c') refl
                      (λ j. get-put h default_ttl j id c' s₁.alerts)
                    ∙ ap (at_id id (some c')) w)))
        ]
