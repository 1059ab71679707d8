-- ===== src/Modular/Reads.antt =====
-- The queries of the second implementation against the lists that they read.
use stellar_txwatch_contract.Prelude.{
  ℕ, ◌+◌, ◌≤◌, ◌≡◌, ap, List, [], ◌∷◌, arith, length, take, drop, leb, if◌then◌else◌, Bool-cases,
  inl, inr,
}
use stellar_txwatch_contract.Soroban.{Host, Address, ok, trap}
use stellar_txwatch_contract.AlertRegistry.Store.{u32_max, saturating_add}
use stellar_txwatch_contract.AlertRegistry.Queries.Pages.{slice_lem}
use stellar_txwatch_contract.Modular.Types.{State}
use stellar_txwatch_contract.Modular.Storage.{
  configs_for_ids, configs_paginated, has_alert, owner_index, contract_index,
}
use stellar_txwatch_contract.Modular.Checks.{count_live}
use stellar_txwatch_contract.Modular.Queries.{
  get_active_alert_count, get_alert_count_for_contract, get_alerts_by_owner,
  get_alerts_for_contract,
}

module _ (h : Host) (s : State h) where
  -- For a list of at most `u32::MAX` IDs a page is, of the list from the offset on, the first `limit` IDs, read
  -- one by one; the call traps exactly if offset and limit sum to more than `u32::MAX`.
  pub configs_paginated_lem :
      (ids : List ℕ) (offset limit : ℕ)
      → length ids ≤ u32_max
      → configs_paginated h ids offset limit s ≡ (
          if leb (offset + limit) u32_max
          then ok (configs_for_ids h (take limit (drop offset ids)) s)
          else trap)
  unfolding configs_paginated
  configs_paginated_lem ids offset limit small = elim (Bool-cases (leb (offset + limit) u32_max)) [
    | inl fits ↦
        let sum : saturating_add offset limit ≡ offset + limit = ground arith in
        let page = slice_lem offset limit ids small in
        rw fits (ap (λ l. ok (configs_for_ids h l s)) (rw sum at page))
    | inr large ↦ rw large
  ]

  -- The loop adds up what the list of the alerts is long.
  count_live-configs_for_ids :
      (count : ℕ) (ids : List ℕ)
      → count_live h count ids s ≡ count + length (configs_for_ids h ids s)
  unfolding count_live configs_for_ids has_alert
  count_live-configs_for_ids count [] = omega arith
  count_live-configs_for_ids count (id ∷ ids) =
      ground
        (arith, count_live-configs_for_ids count ids, count_live-configs_for_ids (count + 1) ids)

  -- The two counts of live alerts are the lengths of the lists that the queries by owner and by contract
  -- return.
  pub counts_of_queries :
      (a : Address)
      → (get_active_alert_count h a s ≡ length (get_alerts_by_owner h a s))
        × (get_alert_count_for_contract h a s ≡ length (get_alerts_for_contract h a s))
  unfolding get_active_alert_count get_alerts_by_owner get_alert_count_for_contract
      get_alerts_for_contract
  counts_of_queries a = (
    omega (arith, count_live-configs_for_ids 0 (owner_index h a s)),
    omega (arith, count_live-configs_for_ids 0 (contract_index h a s)),
  )
