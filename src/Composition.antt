-- ===== src/Composition.antt =====
-- The two registries together: the gated queries of the alert registry with the watcher registry as
-- the contract that they ask (contracts/alert-registry/src/lib.rs, contracts/watcher-registry/src/lib.rs).
mod Tests
use stellar_txwatch_contract.Prelude.{
  ℕ, ◌≡◌, ◌≢◌, refl, ap, ◌∙◌, Bool, true, false, not, some, none, List, arith, ◌==◌, ==-refl,
  if◌then◌else◌, Bool-cases, inl, inr,
}
use stellar_txwatch_contract.Soroban.{Host, Address, Env, Outcome, ok, err, ◌>>=◌, reject_if}
use stellar_txwatch_contract.AlertRegistry.Types as AlertTypes
use stellar_txwatch_contract.AlertRegistry.Store.{owner_index, contract_index}
use stellar_txwatch_contract.AlertRegistry.Queries.{
  WatcherClient, assert_watcher_if_configured, configs_for_ids, configs_paginated,
  get_alerts_for_contract, get_alerts_by_owner, get_contract_alerts_paginated,
  get_alerts_by_owner_paginated,
}
use stellar_txwatch_contract.WatcherRegistry.Types as WatcherTypes
use stellar_txwatch_contract.WatcherRegistry.Store as WatcherStore
use stellar_txwatch_contract.WatcherRegistry.Queries as WatcherQueries
use stellar_txwatch_contract.WatcherRegistry.Watchers.{remove_watcher}
use stellar_txwatch_contract.WatcherRegistry.Revocation.{remove_watcher_revokes}
use stellar_txwatch_contract.WatcherRegistry.Calls as WatcherCalls
use stellar_txwatch_contract.WatcherRegistry.Spec.{view, allows, perform_all}
use stellar_txwatch_contract.WatcherRegistry.Spec.Refinement.{IsFresh, run-perform_all_roster}

module _ (h : Host) (env : Env) where
  -- The watcher registry with storage `w` stands at one address, and nothing at the others.
  abbrev pub deployed_at : Address → WatcherTypes.State h → WatcherClient
  deployed_at registry w a querier =
      if a == registry then some (WatcherQueries.is_watcher_authorized h env querier w).0 else none

  -- The answer to a querier: the list, or the refusal.
  abbrev pub answer : {A : Type 0} → Bool → A → Outcome AlertTypes.ContractError A
  answer admitted l = if admitted then ok l else err AlertTypes.not_a_watcher

  reject_if-not : (b : Bool) → reject_if (not b) AlertTypes.not_a_watcher ≡ answer b tt
  reject_if-not true = refl
  reject_if-not false = refl

  answer->>= :
      {A : Type 0} (b : Bool) (m : Outcome AlertTypes.ContractError (Unit {0})) (l : A)
      → m ≡ answer b tt
      → (m >>= λ _. ok l) ≡ answer b l
  unfolding ◌>>=◌
  answer->>= true m l e = rw e
  answer->>= false m l e = rw e

  gate_lem :
      (registry querier : Address) (w : WatcherTypes.State h) (s : AlertTypes.State h)
      → h.get 0 s.watchreg ≡ some registry
      → assert_watcher_if_configured h (deployed_at registry w) querier s
        ≡ answer (WatcherQueries.is_authorized_at h env.timestamp querier w) tt
  unfolding assert_watcher_if_configured WatcherQueries.is_watcher_authorized
      WatcherStore.extend_instance_ttl WatcherQueries.is_authorized_at WatcherStore.load_watchers
      WatcherStore.load_expiries
  gate_lem registry querier w s there =
      rw (there, assert_watcher_if_configured, ==-refl registry) (reject_if-not _)

  module _ (key : Address) (offset limit : ℕ) (s : AlertTypes.State h) where
    -- Each of the four gated queries answers with its list, or refuses the querier.
    abbrev pub Answered : WatcherClient → Address → Bool → Type 0
    Answered client querier admitted =
        (get_alerts_for_contract h client querier key s
          ≡ answer admitted (configs_for_ids h (contract_index h key s) s))
        × (get_alerts_by_owner h client querier key s
            ≡ answer admitted (configs_for_ids h (owner_index h key s) s))
        × (get_contract_alerts_paginated h client querier key offset limit s
            ≡ answer admitted (configs_paginated h (contract_index h key s) offset limit s))
        × (get_alerts_by_owner_paginated h client querier key offset limit s
            ≡ answer admitted (configs_paginated h (owner_index h key s) offset limit s))

    gate-Answered :
        (client : WatcherClient) (querier : Address) (b : Bool)
        → assert_watcher_if_configured h client querier s ≡ answer b tt
        → Answered client querier b
    unfolding get_alerts_for_contract get_alerts_by_owner get_contract_alerts_paginated
        get_alerts_by_owner_paginated
    gate-Answered client querier b gate =
        (answer->>= b _ _ gate, answer->>= b _ _ gate, answer->>= b _ _ gate, answer->>= b _ _ gate)

    module _ (registry : Address) (there : h.get 0 s.watchreg ≡ some registry) where
      -- Where the alert registry is set to ask a watcher registry that has gone through any history of calls but
      -- `register_watcher` from a storage without entries of watchers, each of the four gated queries answers with its
      -- list if the roster of that history allows the querier at the ledger's time, and with NotAWatcher if not.
      pub gated_queries-allows :
          (ticks : List WatcherCalls.Tick) (w : WatcherTypes.State h) (querier : Address)
          → IsFresh h w
          → Answered
              (deployed_at registry (WatcherCalls.run h ticks w))
              querier
              (allows env.timestamp querier (perform_all ticks (view h w)).roster)
      gated_queries-allows ticks w querier f = gate-Answered _ querier _ (
          gate_lem registry querier (WatcherCalls.run h ticks w) s there
          ∙ ap (λ b. answer b tt) ((run-perform_all_roster h ticks w f).1 env.timestamp querier))

      -- Where the alert registry is set to ask the watcher registry, after a successful remove_watcher there each of the
      -- four gated queries refuses that address with NotAWatcher, at any time, and answers to every other address as
      -- it answered before.
      pub removed_watcher-Answered :
          (removal : Env) (admin watcher : Address) (w : WatcherTypes.State h)
          {w' : WatcherTypes.State h}
          → remove_watcher h removal admin watcher w ≡ ok w'
          → Answered (deployed_at registry w') watcher false
            × ((other : Address)
                → other ≢ watcher
                → Answered
                    (deployed_at registry w)
                    other
                    (WatcherQueries.is_authorized_at h env.timestamp other w)
                  × Answered
                      (deployed_at registry w')
                      other
                      (WatcherQueries.is_authorized_at h env.timestamp other w))
      removed_watcher-Answered removal admin watcher w {w'} e =
          let (_, gone, same) = remove_watcher_revokes h removal admin watcher w e in
          let gate = λ (q : Address) (v : WatcherTypes.State h). gate_lem registry q v s there in
          (
            gate-Answered _ watcher false
                (gate watcher w' ∙ ap (λ b. answer b tt) (gone env.timestamp)),
            λ other ne. (
              gate-Answered _ other (WatcherQueries.is_authorized_at h env.timestamp other w)
                  (gate other w),
              gate-Answered _ other (WatcherQueries.is_authorized_at h env.timestamp other w)
                  (gate other w' ∙ ap (λ b. answer b tt) (same env.timestamp other ne)),
            ),
          )
