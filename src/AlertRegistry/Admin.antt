-- ===== src/AlertRegistry/Admin.antt =====
-- The configuration entry points of the alert registry: `initialize` to `get_watcher_registry`
-- (contracts/alert-registry/src/lib.rs).
use stellar_txwatch_contract.Prelude.{
  ℕ, Bool, Option, none, some, List, [], ◌∷◌, ◌++◌, ltb, leb, ◌==◌, ◌&&◌, not, length, keep_if,
  contains, if◌then◌else◌,
}
use stellar_txwatch_contract.Soroban.{
  Host, Address, Env, Outcome, ok, ◌>>=◌, ◌>>◌, reject_if, ok_or,
}
use stellar_txwatch_contract.Soroban.Access.{require_auth, has}
use stellar_txwatch_contract.AlertRegistry.Types.{
  ContractError, Event, State, already_initialized, not_initialized, already_admin, not_admin,
  last_admin, limit_too_low,
}
use stellar_txwatch_contract.AlertRegistry.Store.{publish, load_admins, set_admins, assert_admin}

-- The first address of a list: `a.get(0)`.
abbrev first : List Address → Option Address
first [] = none
first (a ∷ as') = some a

module _ (h : Host) where
  unfoldable pub initialize : Address → State h → Outcome ContractError (State h)
  initialize admin s = do
    reject_if (has h 0 s.admin) already_initialized
    ok (publish h (Event.admin_init admin) (set_admins h (admin ∷ []) s))

  unfoldable pub get_admin : State h → Outcome ContractError Address
  get_admin s = do
    admins ← ok_or (load_admins h s) not_initialized
    ok_or (first admins) not_initialized

  unfoldable pub get_admins : State h → Option (List Address)
  get_admins s = load_admins h s

  unfoldable pub get_watcher_registry : State h → Option Address
  get_watcher_registry s = h.get 0 s.watchreg

module _ (h : Host) (env : Env) where
  unfoldable pub transfer_admin : Address → Address → State h → Outcome ContractError (State h)
  transfer_admin admin new_admin s = do
    require_auth env admin
    assert_admin h admin s
    ok (publish h (Event.admin_transfer admin new_admin) (set_admins h (new_admin ∷ []) s))

  unfoldable pub add_admin : Address → Address → State h → Outcome ContractError (State h)
  add_admin caller new_admin s = do
    require_auth env caller
    assert_admin h caller s
    admins ← ok_or (load_admins h s) not_initialized
    reject_if (contains admins new_admin) already_admin
    ok (publish h (Event.admin_add caller new_admin) (set_admins h (admins ++ new_admin ∷ []) s))

  unfoldable pub remove_admin : Address → Address → State h → Outcome ContractError (State h)
  remove_admin caller target_admin s = do
    require_auth env caller
    assert_admin h caller s
    admins ← ok_or (load_admins h s) not_initialized
    reject_if (not (contains admins target_admin)) not_admin
    reject_if (leb (length admins) 1) last_admin
    let updated = keep_if (λ a. not (a == target_admin)) admins
    ok (publish h (Event.admin_remove caller target_admin) (set_admins h updated s))

  unfoldable pub set_per_owner_alert_limit : Address → ℕ → State h → Outcome ContractError (State h)
  set_per_owner_alert_limit admin limit s = do
    require_auth env admin
    assert_admin h admin s
    reject_if (not (limit == 0) && ltb limit 1) limit_too_low
    ok (publish h (Event.admin_limit admin limit) (record s { limit = h.set 0 limit s.limit }))

  unfoldable pub set_paused : Address → Bool → State h → Outcome ContractError (State h)
  set_paused admin paused s = do
    require_auth env admin
    assert_admin h admin s
    let topic = if paused then Event.admin_pause admin else Event.admin_unpause admin
    ok (publish h topic (record s { paused = h.set 0 paused s.paused }))

  unfoldable pub set_watcher_registry :
      Address → Address → State h → Outcome ContractError (State h)
  set_watcher_registry admin watcher_registry s = do
    require_auth env admin
    assert_admin h admin s
    ok (record s { watchreg = h.set 0 watcher_registry s.watchreg })
