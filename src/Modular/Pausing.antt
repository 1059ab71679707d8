-- ===== src/Modular/Pausing.antt =====
-- What the pause of the second implementation stops, and what it does not reach.
use stellar_txwatch_contract.Prelude.{
  ◌≡◌, refl, ap, true, false, Option, none, some, arith, unwrap_or, ==-refl,
}
use stellar_txwatch_contract.Soroban.{Host, Address, Env, ok, err, ◌>>=◌}
use stellar_txwatch_contract.Modular.Types.{State, Event, contract_paused}
use stellar_txwatch_contract.Modular.Storage
use stellar_txwatch_contract.Modular.Checks.{publish, assert_not_paused, assert_admin}
use stellar_txwatch_contract.Modular.Contract
use stellar_txwatch_contract.Modular.Queries
use stellar_txwatch_contract.Modular.Calls.{Call, execute}

-- Who has to sign a call, of the calls that the pause stops.
unfoldable pub pausable_by : Call → Option Address
pausable_by (Call.initialize a) = none
pausable_by (Call.transfer_admin a b) = some a
pausable_by (Call.set_per_owner_alert_limit a n) = some a
pausable_by (Call.set_paused a b) = none
pausable_by (Call.register_alert a b l w rs) = some a
pausable_by (Call.update_alert a id rs b) = some a
pausable_by (Call.update_webhook o b a id w) = some a
pausable_by (Call.propose_webhook a id w) = some a
pausable_by (Call.confirm_webhook a id) = some a
pausable_by (Call.renew_alert_ttl a id) = some a
pausable_by (Call.remove_alert a id) = some a
pausable_by (Call.remove_alert_by_admin a id) = some a
pausable_by (Call.bulk_renew_ttl ids) = none

module _ (h : Host) (env : Env) where
  execute_paused :
      (c : Call) (a : Address) (s : State h)
      → unwrap_or (h.get 0 s.paused) false ≡ true
      → pausable_by c ≡ some a
      → env.authorized a ≡ true
      → execute h env c s ≡ err contract_paused
  unfolding execute pausable_by assert_not_paused ◌>>=◌ Contract.transfer_admin
      Contract.set_per_owner_alert_limit Contract.register_alert Contract.update_alert
      Contract.update_webhook Contract.propose_webhook Contract.confirm_webhook
      Contract.renew_alert_ttl Contract.remove_alert Contract.remove_alert_by_admin
  execute_paused (Call.initialize b) a s p q signed = cc
  execute_paused (Call.transfer_admin b d) a s p q signed = ground arith
  execute_paused (Call.set_per_owner_alert_limit b n) a s p q signed = ground arith
  execute_paused (Call.set_paused b d) a s p q signed = cc
  execute_paused (Call.register_alert b d l w rs) a s p q signed = ground arith
  execute_paused (Call.update_alert b id rs d) a s p q signed = ground arith
  execute_paused (Call.update_webhook o d b id w) a s p q signed = ground arith
  execute_paused (Call.propose_webhook b id w) a s p q signed = ground arith
  execute_paused (Call.confirm_webhook b id) a s p q signed = ground arith
  execute_paused (Call.renew_alert_ttl b id) a s p q signed = ground arith
  execute_paused (Call.remove_alert b id) a s p q signed = ground arith
  execute_paused (Call.remove_alert_by_admin b id) a s p q signed = ground arith
  execute_paused (Call.bulk_renew_ttl ids) a s p q signed = cc

module _ (h : Host) (env later : Env) where
  -- In the second implementation the admin's signed `set_paused` with `true` succeeds; afterwards `is_paused` says so, a
  -- call that a pause stops, which its signer has signed, returns ContractPaused, whatever its time and its other signatures, and
  -- the flag that the storage module reads, for the rate limit, is what it was before.
  pub set_paused_stops :
      (admin : Address) (c : Call) (signer : Address) (s : State h)
      → h.get 0 s.admin ≡ some admin
      → env.authorized admin ≡ true
      → pausable_by c ≡ some signer
      → later.authorized signer ≡ true
      → (s' : State h) × (Contract.set_paused h env admin true s ≡ ok s')
        × (Queries.is_paused h s' ≡ true)
        × (execute h later c s' ≡ err contract_paused)
        × (Storage.is_paused h s' ≡ Storage.is_paused h s)
  unfolding Contract.set_paused assert_admin Storage.get_admin Storage.is_paused Queries.is_paused
      ◌>>=◌
  set_paused_stops admin c signer s is_admin signed pausable signed' =
      let s' = publish h (Event.admin_pause admin) (record s { paused = h.set 0 true s.paused }) in
      let on : unwrap_or (h.get 0 s'.paused) false ≡ true =
        ap (λ o. unwrap_or o false) (h.get-set 0 0 true s.paused) in
      (
        s',
        rw (signed, assert_admin, is_admin, ==-refl admin),
        on,
        execute_paused h later c signer s' on pausable signed',
        refl,
      )
