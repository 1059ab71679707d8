-- ===== src/AlertRegistry/Invariant/Moves.antt =====
-- An alert that is stored again under another owner or target keeps the invariant.
use stellar_txwatch_contract.Prelude.{
  ℕ, ◌≡◌, refl, false, not, some, [], ◌∷◌, ◌++◌, arith, ◌==◌, contains, keep_if,
}
use stellar_txwatch_contract.Soroban.{Host, Address, ok, ◌>>=◌}
use stellar_txwatch_contract.Soroban.Access.{put, get-put, load_list-put, load_list-put_list}
use stellar_txwatch_contract.AlertRegistry.Types.{AlertConfig, State, default_ttl}
use stellar_txwatch_contract.Indexed.{Indexed-update, Indexed-move}
use stellar_txwatch_contract.AlertRegistry.Invariant.{IsValid, owner_ids, contract_ids}
use stellar_txwatch_contract.AlertRegistry.Store.{
  owner_index, contract_index, save_alert, push_owner_index, push_contract_index,
  remove_from_owner_index, remove_from_contract_index,
}

module _ (h : Host) where
  pub push_owner_index-eq-ok :
      (s : State h) (k : Address) (id : ℕ) {s' : State h}
      → push_owner_index h k id s ≡ ok s'
      → (contains (owner_ids h s k) id ≡ false)
        × (s' ≡ record s {
          owner_indexes = put h default_ttl k (owner_ids h s k ++ id ∷ []) s.owner_indexes;
        })
  unfolding ◌>>=◌ push_owner_index owner_index
  push_owner_index-eq-ok s k id e = ground arith

  pub push_contract_index-eq-ok :
      (s : State h) (k : Address) (id : ℕ) {s' : State h}
      → push_contract_index h k id s ≡ ok s'
      → (contains (contract_ids h s k) id ≡ false)
        × (s' ≡ record s {
          contract_indexes = put h default_ttl k (contract_ids h s k ++ id ∷ []) s.contract_indexes;
        })
  unfolding ◌>>=◌ push_contract_index contract_index
  push_contract_index-eq-ok s k id e = ground arith

  -- An alert is stored again under another target, and its entry moves.
  pub retarget-IsValid :
      (s : State h) (id : ℕ) (c c' : AlertConfig) {s' : State h}
      → IsValid h s
      → h.get id s.alerts ≡ some c
      → c'.owner ≡ c.owner
      → c'.active ≡ c.active
      → push_contract_index h c'.target_contract id
          (remove_from_contract_index h c.target_contract id (save_alert h id c' s))
        ≡ ok s'
      → IsValid h s'
  unfolding remove_from_contract_index contract_index save_alert
  retarget-IsValid s id c c' v here o act e =
      let (gone, same) = push_contract_index-eq-ok _ _ _ e in
      rw same (record {
        owners =
            Indexed-update (λ d. d.owner) id c c' v.owners here o
              (λ j. get-put h _ j id c' s.alerts) (λ a. refl);
        targets =
            Indexed-move (λ d. d.target_contract) id c c'
              {mid = λ a. contract_ids h (remove_from_contract_index h c.target_contract id s) a}
              v.targets here (λ j. get-put h _ j id c' s.alerts)
              (λ a. ground (
                arith,
                load_list-put_list h default_ttl a c.target_contract
                    (keep_if (λ v. not (v == id)) (contract_ids h s c.target_contract))
                    s.contract_indexes,
              ))
              (λ a. rw load_list-put (ground arith)) gone;
        agree = λ j. ground (arith, get-put h default_ttl j id c' s.alerts, v.agree j, v.agree id);
      })

  -- An alert is stored again under another owner, and its entry moves.
  pub reown-IsValid :
      (s : State h) (id : ℕ) (c c' : AlertConfig) {s' : State h}
      → IsValid h s
      → h.get id s.alerts ≡ some c
      → c'.target_contract ≡ c.target_contract
      → c'.active ≡ c.active
      → push_owner_index h c'.owner id (remove_from_owner_index h c.owner id s) ≡ ok s'
      → IsValid h (save_alert h id c' s')
  unfolding remove_from_owner_index owner_index save_alert
  reown-IsValid s id c c' v here o act e =
      let (gone, same) = push_owner_index-eq-ok _ _ _ e in
      rw same (record {
        owners =
            Indexed-move (λ d. d.owner) id c c'
              {mid = λ a. owner_ids h (remove_from_owner_index h c.owner id s) a} v.owners here
              (λ j. get-put h _ j id c' s.alerts)
              (λ a. ground (
                arith,
                load_list-put_list h default_ttl a c.owner
                    (keep_if (λ v. not (v == id)) (owner_ids h s c.owner)) s.owner_indexes,
              ))
              (λ a. rw load_list-put (ground arith)) gone;
        targets =
            Indexed-update (λ d. d.target_contract) id c c' v.targets here o
              (λ j. get-put h _ j id c' s.alerts) (λ a. refl);
        agree = λ j. ground (arith, get-put h default_ttl j id c' s.alerts, v.agree j, v.agree id);
      })
