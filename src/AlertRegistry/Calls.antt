-- ===== src/AlertRegistry/Calls.antt =====
-- The contract as the host drives it: a call of an entry point that changes storage, and a
-- sequence of such calls. What a failed call wrote is undone.
use stellar_txwatch_contract.Prelude.{ℕ, Bool, Option, List, [], ◌∷◌}
use stellar_txwatch_contract.Soroban.{Host, Address, Bytes, Env, Outcome, ok, err, trap, ◌>>=◌}
use stellar_txwatch_contract.AlertRegistry.Types.{ContractError, AlertInput, State}
use stellar_txwatch_contract.AlertRegistry.Admin
use stellar_txwatch_contract.AlertRegistry.Register
use stellar_txwatch_contract.AlertRegistry.Update
use stellar_txwatch_contract.AlertRegistry.Ttl
use stellar_txwatch_contract.AlertRegistry.Queries

-- The entry points that write, with their arguments.
pub data Call : Type 0 where
  initialize : Address → Call
  transfer_admin add_admin remove_admin set_watcher_registry : Address → Address → Call
  set_per_owner_alert_limit : Address → ℕ → Call
  set_paused : Address → Bool → Call
  register_alert : Address → Address → Bytes → Bytes → List Bytes → Option (List Bytes) → Call
  batch_register_alerts : Address → List AlertInput → Call
  pause_alert unpause_alert : Address → ℕ → Call
  update_alert : Address → ℕ → List Bytes → Bool → Call
  update_webhook propose_webhook update_label : Address → ℕ → Bytes → Call
  confirm_webhook remove_alert remove_alert_by_admin : Address → ℕ → Call
  bump_alert : ℕ → ℕ → Call
  bulk_renew_ttl : List ℕ → Call
  get_alert : ℕ → Call
  deactivate_all_alerts : Address → Call
  update_target_contract transfer_alert_ownership : Address → ℕ → Address → Call
  update_tags : Address → ℕ → Option (List Bytes) → Call

pub data Tick : Type 0 where
  call : Env → Call → Tick
  expire : ℕ → Tick

module _ (h : Host) where
  -- The state that a success leaves behind.
  abbrev pub state_of :
      {A : Type 0} → Outcome ContractError (A × State h) → Outcome ContractError (State h)
  state_of m = m >>= λ r. ok r.1

  unfoldable pub execute : Env → Call → State h → Outcome ContractError (State h)
  execute env (Call.initialize a) s = Admin.initialize h a s
  execute env (Call.transfer_admin a b) s = Admin.transfer_admin h env a b s
  execute env (Call.add_admin a b) s = Admin.add_admin h env a b s
  execute env (Call.remove_admin a b) s = Admin.remove_admin h env a b s
  execute env (Call.set_watcher_registry a b) s = Admin.set_watcher_registry h env a b s
  execute env (Call.set_per_owner_alert_limit a n) s = Admin.set_per_owner_alert_limit h env a n s
  execute env (Call.set_paused a b) s = Admin.set_paused h env a b s
  execute env (Call.register_alert a b l w rs ts) s =
      state_of (Register.register_alert h env a b l w rs ts s)
  execute env (Call.batch_register_alerts a is) s =
      state_of (Register.batch_register_alerts h env a is s)
  execute env (Call.pause_alert a id) s = Update.pause_alert h env a id s
  execute env (Call.unpause_alert a id) s = Update.unpause_alert h env a id s
  execute env (Call.update_alert a id rs b) s = Update.update_alert h env a id rs b s
  execute env (Call.update_webhook a id w) s = Update.update_webhook h env a id w s
  execute env (Call.propose_webhook a id w) s = Update.propose_webhook h env a id w s
  execute env (Call.update_label a id l) s = Update.update_label h env a id l s
  execute env (Call.confirm_webhook a id) s = Update.confirm_webhook h env a id s
  execute env (Call.remove_alert a id) s = Update.remove_alert h env a id s
  execute env (Call.remove_alert_by_admin a id) s = Update.remove_alert_by_admin h env a id s
  execute env (Call.bump_alert id t) s = Ttl.bump_alert h id t s
  execute env (Call.bulk_renew_ttl ids) s = state_of (Ttl.bulk_renew_ttl h ids s)
  execute env (Call.get_alert id) s = ok (Queries.get_alert h id s).1
  execute env (Call.deactivate_all_alerts a) s = state_of (Ttl.deactivate_all_alerts h env a s)
  execute env (Call.update_target_contract a id b) s = Update.update_target_contract h env a id b s
  execute env (Call.transfer_alert_ownership a id b) s =
      Update.transfer_alert_ownership h env a id b s
  execute env (Call.update_tags a id ts) s = Update.update_tags h env a id ts s

  -- An error or a trap leaves the storage as it was.
  unfoldable pub commit : Outcome ContractError (State h) → State h → State h
  commit (ok s') s = s'
  commit (err e) s = s
  commit trap s = s

  -- What happens to the storage: a call, with its signatures and its time, or the expiry of an
  -- alert, whose record and flag go.
  unfoldable pub advance : Tick → State h → State h
  advance (Tick.call env c) s = commit (execute env c s) s
  advance (Tick.expire id) s = record s {
    alerts = h.remove id s.alerts;
    alert_actives = h.remove id s.alert_actives;
  }

  unfoldable pub run : List Tick → State h → State h
  run [] s = s
  run (tick ∷ ticks) s = run ticks (advance tick s)
