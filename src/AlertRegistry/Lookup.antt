-- ===== src/AlertRegistry/Lookup.antt =====
-- What the index queries return in a valid state.
use stellar_txwatch_contract.Prelude.{
  ℕ, ◌≡◌, ◌↔◌, true, some, List, arith, is_some, contains, distinct, contains-keep_if,
  distinct-keep_if, Option-cases, inl, inr,
}
use stellar_txwatch_contract.Soroban.{Host, Address}
use stellar_txwatch_contract.AlertRegistry.Types.{AlertConfig, State}
use stellar_txwatch_contract.AlertRegistry.Store.{owner_index, contract_index, live_ids}
use stellar_txwatch_contract.AlertRegistry.Queries.{
  get_alert_ids_for_contract, get_alert_ids_by_owner,
}
use stellar_txwatch_contract.AlertRegistry.Invariant.{IsValid, owner_ids, contract_ids}

module _ (h : Host) (s : State h) where
  -- An ID is among the live ones of a list exactly if it is listed and its alert is stored.
  pub contains-live_ids :
      (ids : List ℕ) (id : ℕ)
      → (contains (live_ids h ids s) id ≡ true)
        ↔ ((c : AlertConfig) × (contains ids id ≡ true) × (h.get id s.alerts ≡ some c))
  unfolding live_ids
  contains-live_ids ids id = (
    (λ m. elim (Option-cases (h.get id s.alerts)) [
      | inl absent ↦
          absurd (ground (arith, contains-keep_if (λ j. is_some (h.get j s.alerts)) ids id))
      | inr (c, there) ↦
          (c, ground (arith, contains-keep_if (λ j. is_some (h.get j s.alerts)) ids id), there)
    ]),
    λ (c, m, there). ground (arith, contains-keep_if (λ j. is_some (h.get j s.alerts)) ids id),
  )

  -- In a valid state `get_alert_ids_for_contract` returns exactly the IDs of the stored alerts that
  -- watch the contract, each once.
  pub get_alert_ids_for_contract_iff :
      (target : Address)
      → IsValid h s
      → (distinct (get_alert_ids_for_contract h target s) ≡ true)
        × ((id : ℕ)
            → (contains (get_alert_ids_for_contract h target s) id ≡ true)
              ↔ ((c : AlertConfig) × (h.get id s.alerts ≡ some c) × (c.target_contract ≡ target)))
  unfolding get_alert_ids_for_contract contract_index
  get_alert_ids_for_contract_iff target v = (
    unfold live_ids in distinct-keep_if _ (contract_ids h s target) (v.targets.unique target),
    λ id. (
      (λ m.
          let (c, listed, there) = (contains-live_ids (contract_ids h s target) id).0 m in
          (c, there, v.targets.only target id c listed there)),
      λ (c, there, watches).
          (contains-live_ids (contract_ids h s target) id).1
            (c, ground (arith, v.targets.listed id c there), there),
    ),
  )

  -- In a valid state `get_alert_ids_by_owner` returns exactly the IDs of the stored alerts of the
  -- owner, each once.
  pub get_alert_ids_by_owner_iff :
      (owner : Address)
      → IsValid h s
      → (distinct (get_alert_ids_by_owner h owner s) ≡ true)
        × ((id : ℕ)
            → (contains (get_alert_ids_by_owner h owner s) id ≡ true)
              ↔ ((c : AlertConfig) × (h.get id s.alerts ≡ some c) × (c.owner ≡ owner)))
  unfolding get_alert_ids_by_owner owner_index
  get_alert_ids_by_owner_iff owner v = (
    unfold live_ids in distinct-keep_if _ (owner_ids h s owner) (v.owners.unique owner),
    λ id. (
      (λ m.
          let (c, listed, there) = (contains-live_ids (owner_ids h s owner) id).0 m in
          (c, there, v.owners.only owner id c listed there)),
      λ (c, there, owned).
          (contains-live_ids (owner_ids h s owner) id).1
            (c, ground (arith, v.owners.listed id c there), there),
    ),
  )
