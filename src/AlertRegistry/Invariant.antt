-- ===== src/AlertRegistry/Invariant.antt =====
-- The invariant of the alert registry's storage, and the changes of storage that keep it.
pub mod Steps
pub mod Moves
pub mod Registrations
pub mod Updates
pub mod Renewals
use stellar_txwatch_contract.Prelude.{
  ℕ, suc, ◌+◌, ◌≡◌, refl, Bool, true, false, not, Option, none, some, List, [], ◌∷◌, ◌++◌, arith,
  ◌==◌, if◌then◌else◌, is_some, unwrap_or, length, contains, distinct, keep_if, keep_if_all,
  contains-keep_if,
}
use stellar_txwatch_contract.Soroban.{
  Host, Address, Outcome, ok, Ensures, Ensures->>=, reject_if-eq-ok,
}
use stellar_txwatch_contract.Soroban.Access.{
  put, put_list, extend, load_list, get-put, load_list-put, load_list-put_list, get-extend,
}
use stellar_txwatch_contract.AlertRegistry.Types.{
  ContractError, AlertConfig, Event, State, default_ttl,
}
use stellar_txwatch_contract.Indexed.{
  Indexed, Indexed-insert, Indexed-update, Indexed-remove, Indexed-prune, Indexed-move,
  Indexed-same,
}
use stellar_txwatch_contract.AlertRegistry.Store.{
  publish, get_alert_count, owner_index, contract_index, live_ids, save_alert, save_active,
  prune_owner_index, assert_per_owner_limit_for, next_id, push_owner_index, push_contract_index,
  remove_from_owner_index, remove_from_contract_index, remove_stored,
}

-- The flag that `AlertActive` has to hold beside an alert.
abbrev pub active_of : Option AlertConfig → Option Bool
active_of none = none
active_of (some c) = some c.active

module _ (h : Host) where
  abbrev pub alert_at : State h → ℕ → Option AlertConfig
  alert_at s j = h.get j s.alerts

  abbrev pub owner_ids : State h → Address → List ℕ
  owner_ids s a = load_list h a s.owner_indexes

  abbrev pub contract_ids : State h → Address → List ℕ
  contract_ids s a = load_list h a s.contract_indexes

  abbrev pub counter : State h → ℕ
  counter s = unwrap_or (h.get 0 s.next_id) 0

-- Both indexes list every stored alert, under its owner and under its target, and no alert of
-- another; all listed IDs are below the counter, none twice; the separate flag of an alert is the
-- one in its record.
pub record IsValid (h : Host) (s : State h) : Type 0 where
  pub owners : Indexed (λ c. c.owner) (alert_at h s) (owner_ids h s) (counter h s)
  pub targets : Indexed (λ c. c.target_contract) (alert_at h s) (contract_ids h s) (counter h s)
  pub agree : (id : ℕ) → h.get id s.alert_actives ≡ active_of (h.get id s.alerts)

module _ (h : Host) where
  -- The invariant reads the stores of the alerts, the flags, the indexes and the counter only.
  pub IsValid-same :
      (s s' : State h)
      → IsValid h s
      → ((j : ℕ) → h.get j s'.alerts ≡ h.get j s.alerts)
      → ((j : ℕ) → h.get j s'.alert_actives ≡ h.get j s.alert_actives)
      → ((j : Address) → h.get j s'.owner_indexes ≡ h.get j s.owner_indexes)
      → ((j : Address) → h.get j s'.contract_indexes ≡ h.get j s.contract_indexes)
      → s'.next_id ≡ s.next_id
      → IsValid h s'
  IsValid-same s s' v al ac ow co n = record {
    owners = rw n (Indexed-same (λ c. c.owner) v.owners al (λ a. ground (arith, ow a)));
    targets = rw n (Indexed-same (λ c. c.target_contract) v.targets al (λ a. ground (arith, co a)));
    agree = λ id. ground (arith, al id, ac id, v.agree id);
  }

  pub publish-IsValid : (s : State h) (e : Event) → IsValid h s → IsValid h (publish h e s)
  publish-IsValid s e v = record { owners = v.owners; targets = v.targets; agree = v.agree }

  -- An alert is stored again with the same owner and target, and its flag with it.
  pub save-IsValid :
      (s : State h) (id : ℕ) (c c' : AlertConfig)
      → IsValid h s
      → h.get id s.alerts ≡ some c
      → c'.owner ≡ c.owner
      → c'.target_contract ≡ c.target_contract
      → IsValid h (save_active h id c'.active (save_alert h id c' s))
  unfolding save_active save_alert
  save-IsValid s id c c' v here o t = record {
    owners =
        Indexed-update (λ d. d.owner) id c c' v.owners here o (λ j. get-put h _ j id c' s.alerts)
          (λ a. refl);
    targets =
        Indexed-update (λ d. d.target_contract) id c c' v.targets here t
          (λ j. get-put h _ j id c' s.alerts) (λ a. refl);
    agree = λ j. ground (
      arith,
      get-put h default_ttl j id c' s.alerts,
      get-put h default_ttl j id c'.active s.alert_actives,
      v.agree j,
    );
  }

  -- The same, where the flag does not change and is not stored again.
  pub save_alert-IsValid :
      (s : State h) (id : ℕ) (c c' : AlertConfig)
      → IsValid h s
      → h.get id s.alerts ≡ some c
      → c'.owner ≡ c.owner
      → c'.target_contract ≡ c.target_contract
      → c'.active ≡ c.active
      → IsValid h (save_alert h id c' s)
  unfolding save_alert
  save_alert-IsValid s id c c' v here o t a = record {
    owners =
        Indexed-update (λ d. d.owner) id c c' v.owners here o (λ j. get-put h _ j id c' s.alerts)
          (λ a. refl);
    targets =
        Indexed-update (λ d. d.target_contract) id c c' v.targets here t
          (λ j. get-put h _ j id c' s.alerts) (λ a. refl);
    agree = λ j. ground (arith, get-put h default_ttl j id c' s.alerts, v.agree j, v.agree id);
  }
