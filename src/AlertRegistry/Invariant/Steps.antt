-- ===== src/AlertRegistry/Invariant/Steps.antt =====
-- The helpers that hand out IDs and enter or delete index entries keep the invariant.
use native.Mathlib.Numerals.{add-one}
use stellar_txwatch_contract.Prelude.{
  ℕ, ◌+◌, ◌≡◌, true, false, not, [], ◌∷◌, ◌++◌, arith, ap, ◌==◌, if◌then◌else◌, is_some, length,
  ◌<◌, ◌≤◌, contains, keep_if, keep_if_all,
}
use stellar_txwatch_contract.Soroban.{Host, Address, ok, Ensures, Ensures-of, ◌>>=◌}
use stellar_txwatch_contract.Soroban.Access.{
  put, load_list, get-put, load_list-put, load_list-put_list,
}
use stellar_txwatch_contract.AlertRegistry.Types.{AlertConfig, Event, State, default_ttl}
use stellar_txwatch_contract.Indexed.{Indexed-insert, Indexed-remove, Indexed-prune, Indexed-same}
use stellar_txwatch_contract.AlertRegistry.Invariant.{IsValid, owner_ids, contract_ids, counter}
use stellar_txwatch_contract.AlertRegistry.Register.{store_new}
use stellar_txwatch_contract.AlertRegistry.Store.{
  publish, get_alert_count, owner_index, contract_index, live_ids, save_alert, save_active,
  prune_owner_index, assert_per_owner_limit_for, next_id, push_owner_index, push_contract_index,
  remove_from_owner_index, remove_from_contract_index, remove_stored, extend_instance_ttl, u64_max,
  u32_max, get_per_owner_alert_limit,
}

module _ (h : Host) where
  pub owner_ids-prune_owner_index :
      (s : State h) (k a : Address)
      → owner_ids h (prune_owner_index h k s) a
        ≡ (if k == a then live_ids h (owner_ids h s a) s else owner_ids h s a)
  unfolding prune_owner_index live_ids owner_index
  owner_ids-prune_owner_index s k a = ground (
    arith,
    load_list-put_list h default_ttl a k
        (keep_if (λ id. is_some (h.get id s.alerts)) (owner_ids h s k)) s.owner_indexes,
    keep_if_all (λ id. is_some (h.get id s.alerts)) (owner_ids h s k),
  )

  -- Pruning an owner's list touches nothing else.
  prune_owner_index_frame :
      (s : State h) (k : Address)
      → let s' = prune_owner_index h k s in
        (s'.alerts ≡ s.alerts)
        × (s'.alert_actives ≡ s.alert_actives)
        × (s'.contract_indexes ≡ s.contract_indexes)
        × (s'.next_id ≡ s.next_id)
  unfolding prune_owner_index
  prune_owner_index_frame s k = ground arith

  pub prune_owner_index-IsValid :
      (s : State h) (k : Address) → IsValid h s → IsValid h (prune_owner_index h k s)
  unfolding live_ids
  prune_owner_index-IsValid s k v =
      let (al, ac, co, n) = prune_owner_index_frame s k in
      record {
        owners = rw n (
            Indexed-prune (λ c. c.owner) k v.owners (λ j. ap (h.get j) al)
              (owner_ids-prune_owner_index s k));
        targets = rw n (
            Indexed-same (λ c. c.target_contract) v.targets (λ j. ap (h.get j) al)
              (λ a. ap (load_list h a) co));
        agree = λ id. rw (al, ac) (v.agree id);
      }

  -- The limit check may prune a list of the index, and stores nothing else.
  pub assert_per_owner_limit_for-IsValid :
      (s : State h) (k : Address) (n : ℕ)
      → IsValid h s
      → Ensures
          (λ s'. IsValid h s' × (s'.alerts ≡ s.alerts) × (s'.next_id ≡ s.next_id))
          (assert_per_owner_limit_for h k n s)
  unfolding ◌>>=◌ assert_per_owner_limit_for prune_owner_index
  assert_per_owner_limit_for-IsValid s k n v =
      Ensures-of _ _ λ s' e. ground (arith, prune_owner_index-IsValid s k v)

  -- With a limit set, what the check lets through fits under it, and the owner's list is the live
  -- one afterwards.
  pub assert_per_owner_limit_for_bound :
      (s : State h) (k : Address) (n : ℕ) {s' : State h}
      → assert_per_owner_limit_for h k n s ≡ ok s'
      → 0 < get_per_owner_alert_limit h s
      → get_per_owner_alert_limit h s < u32_max
      → (owner_ids h s' k ≡ live_ids h (owner_ids h s k) s)
        × (length (owner_ids h s' k) + n ≤ get_per_owner_alert_limit h s)
  unfolding ◌>>=◌ assert_per_owner_limit_for owner_index
  assert_per_owner_limit_for_bound s k n e pos fits =
      ground (arith, owner_ids-prune_owner_index s k k)

  -- The state after a new alert has been stored under the ID `counter h s`.
  unfoldable pub stored_new : AlertConfig → State h → State h
  stored_new c s =
      let id = counter h s in
      let owner_list = owner_ids h s c.owner ++ id ∷ [] in
      let contract_list = contract_ids h s c.target_contract ++ id ∷ [] in
      publish h (Event.alert_register id c.owner c.target_contract) (
        extend_instance_ttl h default_ttl (record s {
          alerts = put h default_ttl id c s.alerts;
          alert_actives = put h default_ttl id true s.alert_actives;
          owner_indexes = put h default_ttl c.owner owner_list s.owner_indexes;
          contract_indexes = put h default_ttl c.target_contract contract_list s.contract_indexes;
          next_id = h.set 0 (id + 1) s.next_id;
        }))

  -- A success of `store_new` gives out the counter's value and stores exactly that.
  pub store_new-eq-ok :
      (s : State h) (c : AlertConfig) {r : ℕ × State h}
      → store_new h c s ≡ ok r
      → r ≡ (counter h s, stored_new c s)
  unfolding ◌>>=◌ store_new next_id get_alert_count push_owner_index owner_index push_contract_index
      contract_index extend_instance_ttl save_alert save_active stored_new
  store_new-eq-ok s c e = ground arith

  -- It succeeds if the counter has not run out and neither index lists the new ID.
  pub store_new_succeeds :
      (s : State h) (c : AlertConfig)
      → counter h s < u64_max
      → contains (owner_ids h s c.owner) (counter h s) ≡ false
      → contains (contract_ids h s c.target_contract) (counter h s) ≡ false
      → store_new h c s ≡ ok (counter h s, stored_new c s)
  unfolding ◌>>=◌ store_new next_id get_alert_count push_owner_index owner_index push_contract_index
      contract_index extend_instance_ttl save_alert save_active stored_new
  store_new_succeeds s c e o t = ground arith

  pub stored_new-IsValid :
      (s : State h) (c : AlertConfig) → IsValid h s → c.active ≡ true → IsValid h (stored_new c s)
  unfolding stored_new extend_instance_ttl
  stored_new-IsValid s c v act = record {
    owners = rw h.get-set (
        simp add-one (
          Indexed-insert (λ d. d.owner) c v.owners (λ j. get-put h _ j _ c s.alerts)
            (λ a. ground (
              arith,
              load_list-put h default_ttl a c.owner (owner_ids h s c.owner ++ counter h s ∷ [])
                  s.owner_indexes,
            ))));
    targets = rw h.get-set (
        simp add-one (
          Indexed-insert (λ d. d.target_contract) c v.targets (λ j. get-put h _ j _ c s.alerts)
            (λ a. ground (
              arith,
              load_list-put h default_ttl a c.target_contract
                  (contract_ids h s c.target_contract ++ counter h s ∷ []) s.contract_indexes,
            ))));
    agree = λ j. ground (
      arith,
      get-put h default_ttl j (counter h s) c s.alerts,
      get-put h default_ttl j (counter h s) true s.alert_actives,
      v.agree j,
    );
  }

  -- The alert, its flag and its two index entries go.
  pub remove_stored-IsValid :
      (s : State h) (c : AlertConfig) (id : ℕ) → IsValid h s → IsValid h (remove_stored h c id s)
  unfolding remove_stored remove_from_owner_index remove_from_contract_index owner_index
      contract_index
  remove_stored-IsValid s c id v = record {
    owners =
        Indexed-remove (λ d. d.owner) id c.owner v.owners (λ j. h.get-remove j id s.alerts)
          (λ a. ground (
            arith,
            load_list-put_list h default_ttl a c.owner
                (keep_if (λ v. not (v == id)) (owner_ids h s c.owner)) s.owner_indexes,
          ));
    targets =
        Indexed-remove (λ d. d.target_contract) id c.target_contract v.targets
          (λ j. h.get-remove j id s.alerts)
          (λ a. ground (
            arith,
            load_list-put_list h default_ttl a c.target_contract
                (keep_if (λ v. not (v == id)) (contract_ids h s c.target_contract))
                s.contract_indexes,
          ));
    agree = λ j.
        ground (arith, h.get-remove j id s.alerts, h.get-remove j id s.alert_actives, v.agree j);
  }
