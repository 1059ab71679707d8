-- ===== src/Modular/Invariant/Operations.antt =====
-- Each entry point of the second implementation keeps its invariant.
use stellar_txwatch_contract.Prelude.{ℕ, ◌≡◌, refl, ap, Bool, some, List, arith}
use stellar_txwatch_contract.Soroban.{
  Host, Env, Address, Bytes, Outcome, ok, ◌>>=◌, Ensures, Ensures->>=, Ensures-ok, Ensures-eq-ok,
  Ensures-of, ok_or-eq-ok,
}
use stellar_txwatch_contract.Modular.Types.{ContractError, AlertConfig, Event, State}
use stellar_txwatch_contract.AlertRegistry.Types.{default_ttl}
use stellar_txwatch_contract.Modular.Storage
use stellar_txwatch_contract.Modular.Checks.{publish}
use stellar_txwatch_contract.Modular.Contract
use stellar_txwatch_contract.Modular.Calls.{state_of}
use stellar_txwatch_contract.Modular.Invariant.{
  IsValid, IsValid-same, set_alert-IsValid, remove_alert_record-IsValid, store_new-eq-ok,
  stored_new-IsValid,
}
use stellar_txwatch_contract.Modular.Renewal.{
  SameData, extend_three, extend_if_there_succeeds, bulk_renew_ttl_succeeds,
}

module _ (h : Host) where
  pub SameData-IsValid : (s s' : State h) → IsValid h s → SameData h s s' → IsValid h s'
  SameData-IsValid s s' v d = IsValid-same h s s' v d.alerts d.owners d.targets (d.next 0)

  pub load_alert-eq-ok :
      (s : State h) (id : ℕ) {c : AlertConfig}
      → Contract.load_alert h id s ≡ ok c
      → h.get id s.alerts ≡ some c
  unfolding Contract.load_alert Storage.get_alert
  load_alert-eq-ok s id e = ok_or-eq-ok (h.get id s.alerts) _ e

  pub extend_next_id_ttl-IsValid :
      (s : State h) → IsValid h s → Ensures (IsValid h) (Storage.extend_next_id_ttl h s)
  unfolding Storage.extend_next_id_ttl ◌>>=◌
  extend_next_id_ttl-IsValid s v =
      let (n, e, same) = extend_if_there_succeeds h default_ttl 0 s.next_ids in
      rw e (
        Ensures-ok ContractError (IsValid h) (
          IsValid-same h s (record s { next_ids = n }) v (λ j. refl) (λ j. refl) (λ j. refl)
            (same 0)))

  pub state_of-IsValid :
      {A : Type 0} (m : Outcome ContractError (A × State h))
      → Ensures (λ r. IsValid h r.1) m
      → Ensures (IsValid h) (state_of h m)
  state_of-IsValid m k =
      Ensures->>= (IsValid h) _ _ λ r e. Ensures-ok _ (IsValid h) (Ensures-eq-ok _ k e)

  module _ (env : Env) (s : State h) (v : IsValid h s) where
    pub register_alert-IsValid :
        (a b : Address) (l w : Bytes) (rs : List Bytes)
        → Ensures (λ r. IsValid h r.1) (Contract.register_alert h env a b l w rs s)
    unfolding Contract.register_alert
    register_alert-IsValid a b l w rs =
        let P = λ (r : ℕ × State h). IsValid h r.1 in
        Ensures->>= P _ _ λ _ _. Ensures->>= P _ _ λ _ _. Ensures->>= P _ _ λ _ _.
          Ensures->>= P _ _ λ _ _. Ensures->>= P _ _ λ _ _. Ensures-of P _ λ r e.
            let c = Contract.new_config env.timestamp a b l w rs in
            rw (store_new-eq-ok h s c e) (stored_new-IsValid h s c v)

    -- A loaded alert is stored again with the same owner and target.
    edited :
        (id : ℕ) (c : AlertConfig) (c' : AlertConfig) {e : Event}
        → Contract.load_alert h id s ≡ ok c
        → c'.owner ≡ c.owner
        → c'.target_contract ≡ c.target_contract
        → IsValid h (publish h e (Storage.set_alert h id c' s))
    edited id c c' {e} loaded o t =
        set_alert-IsValid h s id c c' e v (load_alert-eq-ok s id loaded) o t

    -- An entry point that checks signature, pause, owner and then stores the alert again.
    pub update_alert-IsValid :
        (a : Address) (id : ℕ) (rs : List Bytes) (b : Bool)
        → Ensures (IsValid h) (Contract.update_alert h env a id rs b s)
    unfolding Contract.update_alert
    update_alert-IsValid a id rs b =
        let P = IsValid h in
        Ensures->>= P _ _ λ _ _. Ensures->>= P _ _ λ _ _. Ensures->>= P _ _ λ c e.
          Ensures->>= P _ _
            λ _ _. Ensures->>= P _ _ λ _ _. Ensures-ok _ P (edited id c _ e refl refl)

    pub update_webhook-IsValid :
        (o : Address) (b : Bool) (a : Address) (id : ℕ) (w : Bytes)
        → Ensures (IsValid h) (Contract.update_webhook h env o b a id w s)
    unfolding Contract.update_webhook
    update_webhook-IsValid o b a id w =
        let P = IsValid h in
        Ensures->>= P _ _ λ _ _. Ensures->>= P _ _ λ _ _.
          Ensures->>= P _ _
            λ c e. Ensures->>= P _ _ λ _ _. Ensures-ok _ P (edited id c _ e refl refl)

    pub propose_webhook-IsValid :
        (a : Address) (id : ℕ) (w : Bytes)
        → Ensures (IsValid h) (Contract.propose_webhook h env a id w s)
    unfolding Contract.propose_webhook
    propose_webhook-IsValid a id w =
        let P = IsValid h in
        Ensures->>= P _ _ λ _ _. Ensures->>= P _ _ λ _ _.
          Ensures->>= P _ _
            λ c e. Ensures->>= P _ _ λ _ _. Ensures-ok _ P (edited id c _ e refl refl)

    pub confirm_webhook-IsValid :
        (a : Address) (id : ℕ) → Ensures (IsValid h) (Contract.confirm_webhook h env a id s)
    unfolding Contract.confirm_webhook
    confirm_webhook-IsValid a id =
        let P = IsValid h in
        Ensures->>= P _ _ λ _ _. Ensures->>= P _ _ λ _ _. Ensures->>= P _ _ λ c e.
          Ensures->>= P _ _
            λ _ _. Ensures->>= P _ _ λ _ _. Ensures-ok _ P (edited id c _ e refl refl)

    pub remove_alert-IsValid :
        (a : Address) (id : ℕ) → Ensures (IsValid h) (Contract.remove_alert h env a id s)
    unfolding Contract.remove_alert
    remove_alert-IsValid a id =
        let P = IsValid h in
        Ensures->>= P _ _ λ _ _. Ensures->>= P _ _ λ _ _.
          Ensures->>= P _ _ λ c _.
            Ensures->>= P _ _ λ _ _. Ensures-ok _ P (remove_alert_record-IsValid h s c id a v)

    pub remove_alert_by_admin-IsValid :
        (a : Address) (id : ℕ) → Ensures (IsValid h) (Contract.remove_alert_by_admin h env a id s)
    unfolding Contract.remove_alert_by_admin
    remove_alert_by_admin-IsValid a id =
        let P = IsValid h in
        Ensures->>= P _ _ λ _ _. Ensures->>= P _ _ λ _ _.
          Ensures->>= P _ _ λ _ _.
            Ensures->>= P _ _ λ c _. Ensures-ok _ P (remove_alert_record-IsValid h s c id a v)

    pub renew_alert_ttl-IsValid :
        (a : Address) (id : ℕ) → Ensures (IsValid h) (Contract.renew_alert_ttl h env a id s)
    unfolding Contract.renew_alert_ttl
    renew_alert_ttl-IsValid a id =
        let P = IsValid h in
        Ensures->>= P _ _ λ _ _. Ensures->>= P _ _ λ _ _. Ensures->>= P _ _ λ c e.
          Ensures->>= P _ _ λ _ _.
            let (s₁, d, go) =
              extend_three h (Storage.extend_next_id_ttl h) id c s (load_alert-eq-ok s id e) in
            rw go (extend_next_id_ttl-IsValid s₁ (SameData-IsValid s s₁ v d))

    -- What an entry point of the configuration leaves alone.
    abbrev pub SameAlerts : State h → Type 0
    SameAlerts s' =
        (s'.alerts ≡ s.alerts)
        × (s'.owner_indexes ≡ s.owner_indexes)
        × (s'.contract_indexes ≡ s.contract_indexes)
        × (s'.next_ids ≡ s.next_ids)

    pub config-IsValid :
        (m : Outcome ContractError (State h)) → Ensures SameAlerts m → Ensures (IsValid h) m
    config-IsValid m k = Ensures-of (IsValid h) _ λ s' e.
        let (al, ow, co, n) = Ensures-eq-ok _ k e in
        IsValid-same h s s' v (λ j. ap (h.get j) al) (λ j. ap (h.get j) ow) (λ j. ap (h.get j) co)
          (ap (h.get 0) n)

    pub initialize-SameAlerts : (a : Address) → Ensures SameAlerts (Contract.initialize h a s)
    unfolding ◌>>=◌ Contract.initialize Storage.set_admin
    initialize-SameAlerts a = Ensures-of _ _ λ s' e. ground arith

    pub transfer_admin-SameAlerts :
        (a b : Address) → Ensures SameAlerts (Contract.transfer_admin h env a b s)
    unfolding ◌>>=◌ Contract.transfer_admin Storage.set_admin
    transfer_admin-SameAlerts a b = Ensures-of _ _ λ s' e. ground arith

    pub set_per_owner_alert_limit-SameAlerts :
        (a : Address) (n : ℕ) → Ensures SameAlerts (Contract.set_per_owner_alert_limit h env a n s)
    unfolding ◌>>=◌ Contract.set_per_owner_alert_limit Storage.set_limit
    set_per_owner_alert_limit-SameAlerts a n = Ensures-of _ _ λ s' e. ground arith

    pub set_paused-SameAlerts :
        (a : Address) (b : Bool) → Ensures SameAlerts (Contract.set_paused h env a b s)
    unfolding ◌>>=◌ Contract.set_paused
    set_paused-SameAlerts a b = Ensures-of _ _ λ s' e. ground arith

    pub bulk_renew_ttl-IsValid :
        (ids : List ℕ) → Ensures (λ r. IsValid h r.1) (Contract.bulk_renew_ttl h ids s)
    bulk_renew_ttl-IsValid ids =
        let (s', d, e) = bulk_renew_ttl_succeeds h ids s in
        rw e (Ensures-ok _ (λ (r : ℕ × State h). IsValid h r.1) (SameData-IsValid s s' v d))
