-- ===== src/WatcherRegistry/Spec.antt =====
-- What the watcher registry promises, with one list for the watchers, their expiries and their
-- count: `perform` is each call on that, its errors included.
pub mod Rosters
pub mod Admins
pub mod Watchers
pub mod Enlisting
pub mod Consistent
pub mod Refinement
use stellar_txwatch_contract.Prelude.{
  ℕ, Bool, true, false, not, ◌||◌, Option, none, some, List, [], ◌∷◌, ◌++◌, map, ltb, leb, ◌==◌,
  length, keep_if, contains, if◌then◌else◌, is_some, unwrap_or,
}
use stellar_txwatch_contract.Soroban.{
  Host, Address, Env, Outcome, ok, err, trap, ◌>>=◌, ◌>>◌, reject_if, ok_or,
}
use stellar_txwatch_contract.Soroban.Access.{require_auth}
use stellar_txwatch_contract.WatcherRegistry.Types.{
  ContractError, State, max_batch_size, max_watchers, already_initialized, unauthorized,
  not_initialized, last_admin, watcher_not_found, contract_paused, batch_too_large,
  watcher_limit_exceeded, multiple_admins_exist,
}
use stellar_txwatch_contract.WatcherRegistry.Store.{
  map_get, load_watchers, load_expiries, is_paused,
}
use stellar_txwatch_contract.WatcherRegistry.Calls.{Call, Tick}

-- A watcher stands for good, or until a time.
abbrev pub Roster : Type 0
Roster = List (Address × Option ℕ)

pub record Registry : Type 0 where
  pub admins : Option (List Address)
  pub paused : Bool
  pub roster : Roster

abbrev pub row : List (Address × ℕ) → Address → Address × Option ℕ
row expiries w = (w, map_get w expiries)

-- What a storage stands for.
unfoldable pub view : (h : Host) → State h → Registry
view h s = record {
  admins = h.get 0 s.admins;
  paused = is_paused h s;
  roster = map (row (load_expiries h s)) (load_watchers h s);
}

unfoldable pub on_roster : Address → Roster → Bool
on_roster a [] = false
on_roster a (p ∷ r) = p.0 == a || on_roster a r

-- Whether an address is a watcher at a ledger time.
unfoldable pub allows : ℕ → Address → Roster → Bool
allows now a [] = false
allows now a ((b, e) ∷ r) =
    let rest = allows now a r in
    if b == a then elim e [ none ↦ true | some exp ↦ leb now exp ] else rest

abbrev pub off : Address → Roster → Roster
off a r = keep_if (λ p. not (p.0 == a)) r

-- The watcher gets another expiry.
abbrev pub renewed : Address → Option ℕ → Roster → Roster
renewed a e r = map (λ p. if p.0 == a then (p.0, e) else p) r

-- A new watcher stands at the end, for good.
abbrev pub enlist : Address → Roster → Roster
enlist a r = if on_roster a r then r else r ++ (a, none) ∷ []

unfoldable pub enlist_all : List Address → Roster → Roster
enlist_all [] r = r
enlist_all (w ∷ ws) r = enlist_all ws (enlist w r)

unfoldable pub by_admin : Address → Registry → Outcome ContractError (Unit {0})
by_admin caller v = do
  admins ← ok_or v.admins not_initialized
  reject_if (not (contains admins caller)) unauthorized

module _ (env : Env) where
  -- What the calls begin with, but for `initialize` and `set_paused`.
  unfoldable pub allowed : Address → Registry → Outcome ContractError (Unit {0})
  allowed caller v = do
    require_auth env caller
    by_admin caller v
    reject_if v.paused contract_paused
    ok tt

  unfoldable pub perform : Call → Registry → Outcome ContractError Registry
  perform (Call.initialize a) v = do
    require_auth env a
    reject_if (is_some v.admins) already_initialized
    ok (record v { admins = some (a ∷ []) })
  perform (Call.add_admin a b) v = do
    allowed a v
    let l = unwrap_or v.admins []
    ok (if contains l b then v else record v { admins = some (l ++ b ∷ []) })
  perform (Call.remove_admin a b) v = do
    allowed a v
    let l = unwrap_or v.admins []
    reject_if (leb (length l) 1) last_admin
    ok (record v { admins = some (keep_if (λ x. not (x == b)) l) })
  perform (Call.transfer_admin a b) v = do
    allowed a v
    reject_if (ltb 1 (length (unwrap_or v.admins []))) multiple_admins_exist
    ok (record v { admins = some (b ∷ []) })
  perform (Call.set_paused a b) v = do
    require_auth env a
    by_admin a v
    ok (record v { paused = b })
  perform (Call.remove_watcher a w) v = do
    allowed a v
    reject_if (not (on_roster w v.roster)) watcher_not_found
    ok (record v { roster = off w v.roster })
  perform (Call.replace_watcher a o n) v = do
    allowed a v
    reject_if (not (on_roster o v.roster)) watcher_not_found
    ok (record v { roster = enlist n (off o v.roster) })
  perform (Call.batch_register_watchers a ws) v = do
    allowed a v
    reject_if (ltb max_batch_size (length ws)) batch_too_large
    let roster = enlist_all ws v.roster
    reject_if (ltb max_watchers (length roster)) watcher_limit_exceeded
    ok (record v { roster = roster })
  perform (Call.renew_watcher a w e) v = do
    allowed a v
    reject_if (not (on_roster w v.roster)) watcher_not_found
    ok (record v { roster = renewed w e v.roster })
  perform (Call.clear_all_watchers a) v = do allowed a v; ok (record v { roster = [] })
  perform (Call.is_watcher_authorized a) v = ok v
  perform (Call.is_authorized a) v = ok v

-- The result of a call, or the registry as it was after an error or a trap.
unfoldable pub settle : Outcome ContractError Registry → Registry → Registry
settle (ok w) v = w
settle (err e) v = v
settle trap v = v

unfoldable pub perform_all : List Tick → Registry → Registry
perform_all [] v = v
perform_all ((env, c) ∷ ticks) v = perform_all ticks (settle (perform env c v) v)
