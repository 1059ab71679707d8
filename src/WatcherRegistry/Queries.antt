-- ===== src/WatcherRegistry/Queries.antt =====
-- The reads of the watcher registry (contracts/watcher-registry/src/lib.rs).
use stellar_txwatch_contract.Prelude.{
  ℕ, ◌+◌, ◌-◌, Bool, true, false, Option, none, some, List, [], ◌∷◌, leb, length, min, take, drop,
  contains, if◌then◌else◌,
}
use stellar_txwatch_contract.Soroban.{Host, Address, Env, Outcome, ok, trap, ◌>>=◌, ◌>>◌, reject_if}
use stellar_txwatch_contract.Soroban.Access.{has}
use stellar_txwatch_contract.WatcherRegistry.Types.{
  ContractError, State, WatcherInfo, not_initialized,
}
use stellar_txwatch_contract.WatcherRegistry.Store.{
  map_get, extend_instance_ttl, load_expiries, load_watchers, load_admins,
}

module _ (h : Host) where
  -- The answer of `is_watcher_authorized`, at a ledger time.
  unfoldable pub is_authorized_at : ℕ → Address → State h → Bool
  is_authorized_at now watcher s =
      if contains (load_watchers h s) watcher
      then elim (map_get watcher (load_expiries h s)) [ none ↦ true | some exp ↦ leb now exp ]
      else false

  unfoldable pub is_watcher_authorized : Env → Address → State h → Bool × State h
  is_watcher_authorized env watcher s =
      let s' = extend_instance_ttl h s in (is_authorized_at env.timestamp watcher s', s')

  unfoldable pub is_authorized : Env → Address → State h → Bool × State h
  is_authorized env watcher s = is_watcher_authorized env watcher s

  unfoldable pub get_watchers : State h → List Address
  get_watchers s = load_watchers h s

  unfoldable get_all_watchers : State h → List Address
  get_all_watchers s = load_watchers h s

  unfoldable pub get_watcher_info : Address → State h → Option WatcherInfo
  get_watcher_info watcher s = h.get watcher s.infos

  -- The source does not declare `MAX_PAGE_LIMIT`: it is an argument. The loop runs from `offset` up
  -- to `end`, which is within the list.
  unfoldable pub get_all_watchers_paginated : ℕ → ℕ → ℕ → State h → List Address
  get_all_watchers_paginated max_page_limit offset limit s =
      let watchers = load_watchers h s in
      let end = min (min (offset + min limit max_page_limit) 4294967295) (length watchers) in
      take (end - offset) (drop offset watchers)

  unfoldable pub get_admins : State h → Outcome ContractError (List Address)
  get_admins s = do
    reject_if (if has h 0 s.admins then false else true) not_initialized
    ok (load_admins h s)

  unfoldable pub is_initialized : State h → Bool
  is_initialized s = has h 0 s.admins

  unfoldable pub is_admin : Address → State h → Bool
  is_admin address s = if has h 0 s.admins then contains (load_admins h s) address else false

  -- `get(0).unwrap()`
  unfoldable pub first_admin : List Address → Outcome ContractError Address
  first_admin [] = trap
  first_admin (a ∷ admins) = ok a

  unfoldable pub get_admin : State h → Outcome ContractError Address
  get_admin s = do admins ← get_admins s; first_admin admins
