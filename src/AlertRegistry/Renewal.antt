-- ===== src/AlertRegistry/Renewal.antt =====
-- What `bump_alert` does in a valid state: it never traps, and what it renews stays.
pub mod Bulk
use stellar_txwatch_contract.Prelude.{
  ℕ, ◌≤◌, min, ◌≡◌, true, false, some, List, [], arith, contains, unwrap_or, Option-cases, inl, inr,
}
use stellar_txwatch_contract.Soroban.{Host, ok, ◌>>=◌}
use stellar_txwatch_contract.Soroban.Access.{extend, extend-eq, ttl-extended-ge}
use stellar_txwatch_contract.AlertRegistry.Types.{AlertConfig, ContractError, State, Event, max_ttl}
use stellar_txwatch_contract.AlertRegistry.Store.{
  publish, is_paused, assert_not_paused, load_alert, extend_instance_ttl,
}
use stellar_txwatch_contract.AlertRegistry.Update.{extend_indexes}
use stellar_txwatch_contract.AlertRegistry.Ttl.{extend_entries, extend_next_ids, bump_alert}
use stellar_txwatch_contract.AlertRegistry.Invariant.{IsValid}

module _ (h : Host) where
  -- A list that has an entry is stored.
  pub stored_of_listed :
      (k id : ℕ) (ix : h.Store (List ℕ))
      → contains (unwrap_or (h.get k ix) []) id ≡ true
      → (l : List ℕ) × (h.get k ix ≡ some l)
  unfolding contains
  stored_of_listed k id ix m = elim (Option-cases (h.get k ix)) [
    | inl absent ↦ absurd (ground arith)
    | inr there ↦ there
  ]

  -- The state after the four entries of an alert have been extended.
  unfoldable pub extended_entries : ℕ → ℕ → AlertConfig → State h → State h
  extended_entries t id c s = record s {
    alerts = h.extended id t t s.alerts;
    alert_actives = h.extended id t t s.alert_actives;
    owner_indexes = h.extended c.owner t t s.owner_indexes;
    contract_indexes = h.extended c.target_contract t t s.contract_indexes;
  }

  -- In a valid state the four entries of a stored alert are there, so extending them succeeds.
  pub extend_entries-eq :
      (t id : ℕ) (c : AlertConfig) (s : State h)
      → IsValid h s
      → h.get id s.alerts ≡ some c
      → extend_entries h t id c s ≡ ok (extended_entries t id c s)
  unfolding extend_entries extend_indexes ◌>>=◌ extended_entries
  extend_entries-eq t id c s v there =
      let (_, o) = stored_of_listed c.owner id s.owner_indexes (v.owners.listed id c there) in
      let (_, k) =
        stored_of_listed c.target_contract id s.contract_indexes (v.targets.listed id c there) in
      let a : h.get id s.alert_actives ≡ some c.active = ground (arith, v.agree id) in
      rw (
        extend-eq h {E = ContractError} t id s.alerts there,
        extend-eq h {E = ContractError} t id s.alert_actives a,
        extend-eq h {E = ContractError} t c.owner s.owner_indexes o,
        extend-eq h {E = ContractError} t c.target_contract s.contract_indexes k,
      )

  pub extend_next_ids-eq :
      (t : ℕ) (s : State h)
      → (n : h.Store ℕ) × (extend_next_ids h t s ≡ ok (record s { next_ids = n }))
  unfolding extend_next_ids ◌>>=◌ extend
  extend_next_ids-eq t s = elim (Option-cases (h.get 0 s.next_ids)) [
    | inl absent ↦ (s.next_ids, rw absent)
    | inr (n, there) ↦ (h.extended 0 t t s.next_ids, rw there)
  ]

  -- In a valid state that is not paused `bump_alert` of a stored alert succeeds, and the alert, its
  -- flag, its owner's index, its target's index and the instance storage then have at least the
  -- requested lifetime, or the maximum if more was requested.
  pub bump_alert_extends :
      (id ttl : ℕ) (c : AlertConfig) (s : State h)
      → IsValid h s
      → is_paused h s ≡ false
      → h.get id s.alerts ≡ some c
      → (s' : State h) × (bump_alert h id ttl s ≡ ok s')
        × (min ttl max_ttl ≤ h.ttl id s'.alerts)
        × (min ttl max_ttl ≤ h.ttl id s'.alert_actives)
        × (min ttl max_ttl ≤ h.ttl c.owner s'.owner_indexes)
        × (min ttl max_ttl ≤ h.ttl c.target_contract s'.contract_indexes)
        × (min ttl max_ttl ≤ s'.instance_ttl)
  unfolding bump_alert assert_not_paused load_alert ◌>>=◌ extended_entries extend_instance_ttl
  bump_alert_extends id ttl c s v running there =
      let t = min ttl max_ttl in
      let s₁ = extended_entries t id c s in
      let (n, e) = extend_next_ids-eq t s₁ in
      (
        publish h (Event.alert_bump id t) (extend_instance_ttl h t (record s₁ { next_ids = n })),
        rw (running, there, extend_entries-eq t id c s v there, e),
        ttl-extended-ge h t id s.alerts,
        ttl-extended-ge h t id s.alert_actives,
        ttl-extended-ge h t c.owner s.owner_indexes,
        ttl-extended-ge h t c.target_contract s.contract_indexes,
        ground arith,
      )
