-- ===== src/Modular/Invariant.antt =====
-- The invariant of the storage of the second implementation: every change keeps it.
pub mod Operations
use native.Mathlib.Numerals.{add-one}
use stellar_txwatch_contract.Prelude.{
  ℕ, ◌+◌, ◌≡◌, refl, ap, ◌∙◌, Bool, true, false, not, Option, none, some, List, [], ◌∷◌, ◌++◌,
  arith, ◌==◌, if◌then◌else◌, unwrap_or, contains, keep_if, Option-cases, inl, inr,
}
use stellar_txwatch_contract.Soroban.{
  Host, Address, Bytes, Env, Outcome, ok, ◌>>=◌, Ensures, Ensures->>=, Ensures-ok, Ensures-of,
  Ensures-eq-ok, ok_or-eq-ok,
}
use stellar_txwatch_contract.Soroban.Access.{
  put, load_list, get-put, load_list-put, extend, get-extend,
}
use stellar_txwatch_contract.AlertRegistry.Types.{default_ttl}
use stellar_txwatch_contract.Indexed.{
  Indexed, Indexed-insert, Indexed-update, Indexed-remove, Indexed-same,
}
use stellar_txwatch_contract.Modular.Types.{ContractError, AlertConfig, Event, State}
use stellar_txwatch_contract.Modular.Storage
use stellar_txwatch_contract.Modular.Checks.{publish, remove_alert_record}
use stellar_txwatch_contract.Modular.Contract.{
  store_new, load_alert, renew_one, renew_loop, bulk_renew_ttl,
}

module _ (h : Host) where
  abbrev pub alert_at : State h → ℕ → Option AlertConfig
  alert_at s j = h.get j s.alerts

  abbrev pub owner_ids : State h → Address → List ℕ
  owner_ids s a = load_list h a s.owner_indexes

  abbrev pub contract_ids : State h → Address → List ℕ
  contract_ids s a = load_list h a s.contract_indexes

  abbrev pub counter : State h → ℕ
  counter s = unwrap_or (h.get 0 s.next_ids) 0

-- Both indexes list every stored alert, under its owner and under its target, and no alert of
-- another; all listed IDs are below the counter, none twice.
pub record IsValid (h : Host) (s : State h) : Type 0 where
  pub owners : Indexed (λ c. c.owner) (alert_at h s) (owner_ids h s) (counter h s)
  pub targets : Indexed (λ c. c.target_contract) (alert_at h s) (contract_ids h s) (counter h s)

module _ (h : Host) where
  -- The invariant reads the alerts, the indexes and the counter only.
  pub IsValid-same :
      (s s' : State h)
      → IsValid h s
      → ((j : ℕ) → h.get j s'.alerts ≡ h.get j s.alerts)
      → ((j : Address) → h.get j s'.owner_indexes ≡ h.get j s.owner_indexes)
      → ((j : Address) → h.get j s'.contract_indexes ≡ h.get j s.contract_indexes)
      → h.get 0 s'.next_ids ≡ h.get 0 s.next_ids
      → IsValid h s'
  IsValid-same s s' v al ow co n = record {
    owners = rw n (Indexed-same (λ c. c.owner) v.owners al (λ a. ground (arith, ow a)));
    targets = rw n (Indexed-same (λ c. c.target_contract) v.targets al (λ a. ground (arith, co a)));
  }

  -- An alert is stored again with the same owner and target, and an event is published.
  pub set_alert-IsValid :
      (s : State h) (id : ℕ) (c c' : AlertConfig) (e : Event)
      → IsValid h s
      → h.get id s.alerts ≡ some c
      → c'.owner ≡ c.owner
      → c'.target_contract ≡ c.target_contract
      → IsValid h (publish h e (Storage.set_alert h id c' s))
  unfolding Storage.set_alert
  set_alert-IsValid s id c c' e v here o t = record {
    owners =
        Indexed-update (λ d. d.owner) id c c' v.owners here o (λ j. get-put h _ j id c' s.alerts)
          (λ a. refl);
    targets =
        Indexed-update (λ d. d.target_contract) id c c' v.targets here t
          (λ j. get-put h _ j id c' s.alerts) (λ a. refl);
  }

  pub remove_alert_record-IsValid :
      (s : State h) (c : AlertConfig) (id : ℕ) (a : Address)
      → IsValid h s
      → IsValid h (remove_alert_record h c id a s)
  unfolding remove_alert_record Storage.remove_alert Storage.remove_from_owner_index
      Storage.remove_from_contract_index Storage.owner_index Storage.contract_index
  remove_alert_record-IsValid s c id a v = record {
    owners =
        Indexed-remove (λ d. d.owner) id c.owner v.owners (λ j. h.get-remove j id s.alerts)
          (λ k. ground (
            arith,
            load_list-put h default_ttl k c.owner
                (keep_if (λ w. not (w == id)) (owner_ids h s c.owner)) s.owner_indexes,
          ));
    targets =
        Indexed-remove (λ d. d.target_contract) id c.target_contract v.targets
          (λ j. h.get-remove j id s.alerts)
          (λ k. ground (
            arith,
            load_list-put h default_ttl k c.target_contract
                (keep_if (λ w. not (w == id)) (contract_ids h s c.target_contract))
                s.contract_indexes,
          ));
  }

  -- The state after a new alert has been stored under the ID `counter h s`.
  unfoldable pub stored_new : AlertConfig → State h → State h
  stored_new c s =
      let id = counter h s in
      let owner_list = owner_ids h s c.owner ++ id ∷ [] in
      let contract_list = contract_ids h s c.target_contract ++ id ∷ [] in
      publish h (Event.alert_register id c.owner c.target_contract) (record s {
        alerts = put h default_ttl id c s.alerts;
        owner_indexes = put h default_ttl c.owner owner_list s.owner_indexes;
        contract_indexes = put h default_ttl c.target_contract contract_list s.contract_indexes;
        next_ids = put h default_ttl 0 (id + 1) s.next_ids;
      })

  -- A success of `store_new` gives out the counter's value and stores exactly that.
  pub store_new-eq-ok :
      (s : State h) (c : AlertConfig) {r : ℕ × State h}
      → store_new h c s ≡ ok r
      → r ≡ (counter h s, stored_new c s)
  unfolding ◌>>=◌ store_new Storage.next_id Storage.push_owner_index Storage.owner_index
      Storage.push_contract_index Storage.contract_index Storage.set_alert stored_new
  store_new-eq-ok s c e = ground arith

  pub stored_new-IsValid :
      (s : State h) (c : AlertConfig) → IsValid h s → IsValid h (stored_new c s)
  unfolding stored_new
  stored_new-IsValid s c v = record {
    owners = rw get-put (
        simp add-one (
          Indexed-insert (λ d. d.owner) c v.owners (λ j. get-put h _ j _ c s.alerts)
            (λ a. ground (
              arith,
              load_list-put h default_ttl a c.owner (owner_ids h s c.owner ++ counter h s ∷ [])
                  s.owner_indexes,
            ))));
    targets = rw get-put (
        simp add-one (
          Indexed-insert (λ d. d.target_contract) c v.targets (λ j. get-put h _ j _ c s.alerts)
            (λ a. ground (
              arith,
              load_list-put h default_ttl a c.target_contract
                  (contract_ids h s c.target_contract ++ counter h s ∷ []) s.contract_indexes,
            ))));
  }
