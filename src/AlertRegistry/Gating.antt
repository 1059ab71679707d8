-- ===== src/AlertRegistry/Gating.antt =====
-- The watcher gating of four of the queries.
use stellar_txwatch_contract.Prelude.{
  ℕ, ◌≡◌, ◌⊎◌, inl, inr, true, none, some, arith, Option-cases, List,
}
use stellar_txwatch_contract.Soroban.{Host, Address, ok, >>=-eq-ok}
use stellar_txwatch_contract.AlertRegistry.Types.{AlertConfig, State}
use stellar_txwatch_contract.AlertRegistry.Queries.{
  WatcherClient, assert_watcher_if_configured, get_alerts_for_contract, get_alerts_by_owner,
  get_contract_alerts_paginated, get_alerts_by_owner_paginated,
}

module _ (h : Host) (client : WatcherClient) (querier : Address) (s : State h) where
  -- Nothing gates the queries, or the configured registry has called the querier a watcher.
  abbrev pub IsAdmitted : Type 0
  IsAdmitted =
      (h.get 0 s.watchreg ≡ none)
      ⊎ ((registry : Address) × (h.get 0 s.watchreg ≡ some registry)
          × (client registry querier ≡ some true))

  assert_watcher_if_configured-IsAdmitted :
      {u : Unit {0}} → assert_watcher_if_configured h client querier s ≡ ok u → IsAdmitted
  unfolding assert_watcher_if_configured
  assert_watcher_if_configured-IsAdmitted e = elim (Option-cases (h.get 0 s.watchreg)) [
    | inl open_to_all ↦ inl open_to_all
    | inr (registry, there) ↦ inr (registry, there, ground arith)
  ]

  -- Each of the four gated queries answers only a querier that is admitted: no watcher registry is
  -- configured, or the configured one says that the querier is a watcher.
  pub gated_queries-IsAdmitted :
      (key : Address) (offset limit : ℕ) (l : List AlertConfig)
      → ((get_alerts_for_contract h client querier key s ≡ ok l)
          ⊎ ((get_alerts_by_owner h client querier key s ≡ ok l)
              ⊎ ((get_contract_alerts_paginated h client querier key offset limit s ≡ ok l)
                  ⊎ (get_alerts_by_owner_paginated h client querier key offset limit s ≡ ok l))))
      → IsAdmitted
  unfolding get_alerts_for_contract get_alerts_by_owner get_contract_alerts_paginated
      get_alerts_by_owner_paginated
  gated_queries-IsAdmitted key offset limit l (inl e) =
      assert_watcher_if_configured-IsAdmitted (>>=-eq-ok _ _ e).1
  gated_queries-IsAdmitted key offset limit l (inr (inl e)) =
      assert_watcher_if_configured-IsAdmitted (>>=-eq-ok _ _ e).1
  gated_queries-IsAdmitted key offset limit l (inr (inr (inl e))) =
      assert_watcher_if_configured-IsAdmitted (>>=-eq-ok _ _ e).1
  gated_queries-IsAdmitted key offset limit l (inr (inr (inr e))) =
      assert_watcher_if_configured-IsAdmitted (>>=-eq-ok _ _ e).1
