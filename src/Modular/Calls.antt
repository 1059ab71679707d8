-- ===== src/Modular/Calls.antt =====
-- The second implementation as a host would drive it: a call of an entry point that changes storage,
-- and a sequence of such calls. What a failed call wrote is undone.
use stellar_txwatch_contract.Prelude.{ℕ, Bool, List, [], ◌∷◌}
use stellar_txwatch_contract.Soroban.{Host, Address, Bytes, Env, Outcome, ok, err, trap, ◌>>=◌}
use stellar_txwatch_contract.Modular.Types.{ContractError, State}
use stellar_txwatch_contract.Modular.Contract

-- The entry points that write, with their arguments.
pub data Call : Type 0 where
  initialize : Address → Call
  transfer_admin : Address → Address → Call
  set_per_owner_alert_limit : Address → ℕ → Call
  set_paused : Address → Bool → Call
  register_alert : Address → Address → Bytes → Bytes → List Bytes → Call
  update_alert : Address → ℕ → List Bytes → Bool → Call
  update_webhook : Address → Bool → Address → ℕ → Bytes → Call
  propose_webhook : Address → ℕ → Bytes → Call
  confirm_webhook renew_alert_ttl remove_alert remove_alert_by_admin : Address → ℕ → Call
  bulk_renew_ttl : List ℕ → Call

pub data Tick : Type 0 where
  call : Env → Call → Tick
  expire : ℕ → Tick

module _ (h : Host) where
  -- The state that a success leaves behind.
  abbrev pub state_of :
      {A : Type 0} → Outcome ContractError (A × State h) → Outcome ContractError (State h)
  state_of m = m >>= λ r. ok r.1

  unfoldable pub execute : Env → Call → State h → Outcome ContractError (State h)
  execute env (Call.initialize a) s = Contract.initialize h a s
  execute env (Call.transfer_admin a b) s = Contract.transfer_admin h env a b s
  execute env (Call.set_per_owner_alert_limit a n) s =
      Contract.set_per_owner_alert_limit h env a n s
  execute env (Call.set_paused a b) s = Contract.set_paused h env a b s
  execute env (Call.register_alert a b l w rs) s =
      state_of (Contract.register_alert h env a b l w rs s)
  execute env (Call.update_alert a id rs b) s = Contract.update_alert h env a id rs b s
  execute env (Call.update_webhook o b a id w) s = Contract.update_webhook h env o b a id w s
  execute env (Call.propose_webhook a id w) s = Contract.propose_webhook h env a id w s
  execute env (Call.confirm_webhook a id) s = Contract.confirm_webhook h env a id s
  execute env (Call.renew_alert_ttl a id) s = Contract.renew_alert_ttl h env a id s
  execute env (Call.remove_alert a id) s = Contract.remove_alert h env a id s
  execute env (Call.remove_alert_by_admin a id) s = Contract.remove_alert_by_admin h env a id s
  execute env (Call.bulk_renew_ttl ids) s = state_of (Contract.bulk_renew_ttl h ids s)

  -- An error or a trap leaves the storage as it was.
  unfoldable pub commit : Outcome ContractError (State h) → State h → State h
  commit (ok s') s = s'
  commit (err e) s = s
  commit trap s = s

  -- A call, or the expiry of an alert.
  unfoldable pub advance : Tick → State h → State h
  advance (Tick.call env c) s = commit (execute env c s) s
  advance (Tick.expire id) s = record s { alerts = h.remove id s.alerts }

  unfoldable pub run : List Tick → State h → State h
  run [] s = s
  run (tick ∷ ticks) s = run ticks (advance tick s)
