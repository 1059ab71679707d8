-- ===== src/WatcherRegistry/Calls.antt =====
-- The watcher registry as the host drives it: a call of an entry point that changes storage, and a
-- sequence of such calls. What a failed call wrote is undone. `register_watcher`, which reads names
-- that the source does not declare, is not among them.
use stellar_txwatch_contract.Prelude.{ℕ, Bool, Option, List, [], ◌∷◌}
use stellar_txwatch_contract.Soroban.{Host, Address, Env, Outcome, ok, err, trap, ◌>>=◌}
use stellar_txwatch_contract.WatcherRegistry.Types.{ContractError, State}
use stellar_txwatch_contract.WatcherRegistry.Admins
use stellar_txwatch_contract.WatcherRegistry.Queries
use stellar_txwatch_contract.WatcherRegistry.Watchers

-- The entry points that write, with their arguments; the two last ones extend a lifetime.
pub data Call : Type 0 where
  initialize : Address → Call
  add_admin remove_admin transfer_admin remove_watcher : Address → Address → Call
  set_paused : Address → Bool → Call
  replace_watcher : Address → Address → Address → Call
  batch_register_watchers : Address → List Address → Call
  renew_watcher : Address → Address → Option ℕ → Call
  clear_all_watchers is_watcher_authorized is_authorized : Address → Call

-- A call, with its signatures and its time.
abbrev pub Tick : Type 0
Tick = Env × Call

module _ (h : Host) where
  -- The state that a success leaves behind.
  abbrev pub state_of :
      {A : Type 0} → Outcome ContractError (A × State h) → Outcome ContractError (State h)
  state_of m = m >>= λ r. ok r.1

  unfoldable pub execute : Env → Call → State h → Outcome ContractError (State h)
  execute env (Call.initialize a) s = Admins.initialize h env a s
  execute env (Call.add_admin a b) s = Admins.add_admin h env a b s
  execute env (Call.remove_admin a b) s = Admins.remove_admin h env a b s
  execute env (Call.transfer_admin a b) s = Admins.transfer_admin h env a b s
  execute env (Call.set_paused a b) s = Admins.set_paused h env a b s
  execute env (Call.remove_watcher a w) s = Watchers.remove_watcher h env a w s
  execute env (Call.replace_watcher a o n) s = Watchers.replace_watcher h env a o n s
  execute env (Call.batch_register_watchers a ws) s =
      state_of (Watchers.batch_register_watchers h env a ws s)
  execute env (Call.renew_watcher a w e) s = Watchers.renew_watcher h env a w e s
  execute env (Call.clear_all_watchers a) s = Watchers.clear_all_watchers h env a s
  execute env (Call.is_watcher_authorized a) s = ok (Queries.is_watcher_authorized h env a s).1
  execute env (Call.is_authorized a) s = ok (Queries.is_authorized h env a s).1

  -- An error or a trap leaves the storage as it was.
  unfoldable pub commit : Outcome ContractError (State h) → State h → State h
  commit (ok s') s = s'
  commit (err e) s = s
  commit trap s = s

  unfoldable pub run : List Tick → State h → State h
  run [] s = s
  run ((env, c) ∷ ticks) s = run ticks (commit (execute env c s) s)
