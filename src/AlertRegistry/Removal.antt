-- ===== src/AlertRegistry/Removal.antt =====
-- What the two removals leave behind.
use stellar_txwatch_contract.Prelude.{
  ℕ, ◌≡◌, ◌≢◌, true, false, some, none, arith, ◌==◌, not, contains, keep_if, contains-keep_if,
  ==-refl,
}
use stellar_txwatch_contract.Soroban.{Host, Address, Env, ok, ◌>>=◌}
use stellar_txwatch_contract.Soroban.Access.{load_list-put_list}
use stellar_txwatch_contract.AlertRegistry.Types.{AlertConfig, Event, State, default_ttl}
use stellar_txwatch_contract.AlertRegistry.Store.{
  publish, is_paused, assert_not_paused, assert_admin, load_alert, assert_owner, owner_index,
  contract_index, remove_stored, remove_alert_record, remove_alert_record_by_admin,
  remove_from_owner_index, remove_from_contract_index,
}
use stellar_txwatch_contract.AlertRegistry.Update.{remove_alert, remove_alert_by_admin}
use stellar_txwatch_contract.AlertRegistry.Invariant.{owner_ids, contract_ids}

module _ (h : Host) where
  -- The alert and its flag are gone, the indexes of its owner and its target do not list it, and
  -- every other alert is as it was.
  pub record IsRemoved (id : ℕ) (c : AlertConfig) (s s' : State h) : Type 0 where
    pub no_alert : h.get id s'.alerts ≡ none
    pub no_active : h.get id s'.alert_actives ≡ none
    pub not_owned : contains (owner_index h c.owner s') id ≡ false
    pub not_watching : contains (contract_index h c.target_contract s') id ≡ false
    pub others : (j : ℕ) → j ≢ id → h.get j s'.alerts ≡ h.get j s.alerts

  remove_stored-IsRemoved :
      (e : Event) (id : ℕ) (c : AlertConfig) (s : State h)
      → IsRemoved id c s (publish h e (remove_stored h c id s))
  unfolding remove_stored remove_from_owner_index remove_from_contract_index owner_index
      contract_index
  remove_stored-IsRemoved e id c s = record {
    no_alert = rw (h.get-remove, ==-refl);
    no_active = rw (h.get-remove, ==-refl);
    not_owned = ground (
      arith,
      load_list-put_list h default_ttl c.owner c.owner
          (keep_if (λ v. not (v == id)) (owner_ids h s c.owner)) s.owner_indexes,
      contains-keep_if (λ v. not (v == id)) (owner_ids h s c.owner) id,
    );
    not_watching = ground (
      arith,
      load_list-put_list h default_ttl c.target_contract c.target_contract
          (keep_if (λ v. not (v == id)) (contract_ids h s c.target_contract)) s.contract_indexes,
      contains-keep_if (λ v. not (v == id)) (contract_ids h s c.target_contract) id,
    );
    others = λ j ne. ground (arith, h.get-remove j id s.alerts);
  }

module _ (h : Host) (env : Env) where
  -- While the registry is not paused, `remove_alert` of a stored alert with its owner's signature
  -- succeeds: the alert and its flag are gone, the indexes of its owner and its target do not list
  -- it, and every other alert is as it was.
  pub remove_alert-IsRemoved :
      (id : ℕ) (c : AlertConfig) (s : State h)
      → is_paused h s ≡ false
      → h.get id s.alerts ≡ some c
      → env.authorized c.owner ≡ true
      → (s' : State h) × (remove_alert h env c.owner id s ≡ ok s') × IsRemoved h id c s s'
  unfolding remove_alert remove_alert_record assert_not_paused load_alert assert_owner ◌>>=◌
  remove_alert-IsRemoved id c s running there signed = (
    remove_alert_record h c id c.owner s,
    ground (arith, ==-refl c.owner),
    remove_stored-IsRemoved h _ id c s,
  )

  -- While the registry is not paused, `remove_alert_by_admin` of a stored alert with the signature of
  -- an admin succeeds: the alert and its flag are gone, the indexes of its owner and its target do
  -- not list it, and every other alert is as it was.
  pub remove_alert_by_admin-IsRemoved :
      (admin : Address) (id : ℕ) (c : AlertConfig) (s : State h)
      → is_paused h s ≡ false
      → h.get id s.alerts ≡ some c
      → env.authorized admin ≡ true
      → assert_admin h admin s ≡ ok tt
      → (s' : State h) × (remove_alert_by_admin h env admin id s ≡ ok s') × IsRemoved h id c s s'
  unfolding remove_alert_by_admin remove_alert_record_by_admin assert_not_paused load_alert ◌>>=◌
  remove_alert_by_admin-IsRemoved admin id c s running there signed known = (
    remove_alert_record_by_admin h c id admin c.owner s,
    ground arith,
    remove_stored-IsRemoved h _ id c s,
  )
