-- ===== src/WatcherRegistry/Admins.antt =====
-- The entry points on the admin set and the pause of the watcher registry
-- (contracts/watcher-registry/src/lib.rs).
use stellar_txwatch_contract.Prelude.{
  Bool, [], ◌∷◌, ◌++◌, ltb, leb, ◌==◌, not, length, keep_if, contains, if◌then◌else◌,
}
use stellar_txwatch_contract.Soroban.{Host, Address, Env, Outcome, ok, ◌>>◌, reject_if}
use stellar_txwatch_contract.Soroban.Access.{require_auth, has}
use stellar_txwatch_contract.WatcherRegistry.Types.{
  ContractError, State, Event, already_initialized, last_admin, multiple_admins_exist,
}
use stellar_txwatch_contract.WatcherRegistry.Store.{
  publish, extend_instance_ttl, assert_not_paused, load_admins, save_admins, assert_admin,
}

module _ (h : Host) (env : Env) where
  unfoldable pub initialize : Address → State h → Outcome ContractError (State h)
  initialize admin s = do
    require_auth env admin
    reject_if (has h 0 s.admins) already_initialized
    ok (publish h (Event.admin_init admin) (extend_instance_ttl h (save_admins h (admin ∷ []) s)))

  -- The guards that the privileged entry points begin with.
  unfoldable pub privileged : Address → State h → Outcome ContractError (Unit {0})
  privileged caller s = do require_auth env caller; assert_admin h caller s; assert_not_paused h s

  unfoldable pub add_admin : Address → Address → State h → Outcome ContractError (State h)
  add_admin caller new_admin s = do
    privileged caller s
    let admins = load_admins h s
    if contains admins new_admin
        then ok s
        else ok (
            publish h (Event.admin_add caller new_admin)
              (extend_instance_ttl h (save_admins h (admins ++ new_admin ∷ []) s)))

  unfoldable pub remove_admin : Address → Address → State h → Outcome ContractError (State h)
  remove_admin caller target_admin s = do
    privileged caller s
    let admins = load_admins h s
    reject_if (leb (length admins) 1) last_admin
    let updated = keep_if (λ a. not (a == target_admin)) admins
    let s₁ =
        publish h (Event.admin_remove caller target_admin)
          (extend_instance_ttl h (save_admins h updated s))
    ok (if caller == target_admin then publish h (Event.admin_self_remove caller) s₁ else s₁)

  unfoldable pub transfer_admin : Address → Address → State h → Outcome ContractError (State h)
  transfer_admin admin new_admin s = do
    privileged admin s
    reject_if (ltb 1 (length (load_admins h s))) multiple_admins_exist
    ok (
        publish h (Event.admin_transfer admin new_admin)
          (extend_instance_ttl h (save_admins h (new_admin ∷ []) s)))

  unfoldable pub set_paused : Address → Bool → State h → Outcome ContractError (State h)
  set_paused admin paused s = do
    require_auth env admin
    assert_admin h admin s
    let topic = if paused then Event.admin_pause admin else Event.admin_unpause admin
    ok (publish h topic (extend_instance_ttl h (record s { paused = h.set 0 paused s.paused })))
