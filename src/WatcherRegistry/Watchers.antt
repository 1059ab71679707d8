-- ===== src/WatcherRegistry/Watchers.antt =====
-- The entry points on the watcher list (contracts/watcher-registry/src/lib.rs).
use stellar_txwatch_contract.Prelude.{
  ℕ, Option, none, List, [], ◌∷◌, ◌++◌, ltb, leb, ◌==◌, not, length, keep_if, contains,
  if◌then◌else◌, unwrap_or,
}
use stellar_txwatch_contract.Soroban.{
  Host, Address, Bytes, Env, Outcome, ok, ◌>>=◌, ◌>>◌, reject_if,
}
use stellar_txwatch_contract.Soroban.Access.{has}
use stellar_txwatch_contract.WatcherRegistry.Types.{
  ContractError, State, Event, WatcherInfo, max_batch_size, max_watchers, watcher_not_found,
  batch_too_large, watcher_limit_exceeded, label_too_long,
}
use stellar_txwatch_contract.WatcherRegistry.Store.{
  publish, extend_instance_ttl, save_info, increment_watcher_count, decrement_watcher_count,
  set_expiry, load_watchers, save_watchers,
}
use stellar_txwatch_contract.WatcherRegistry.Admins.{privileged}

-- The loop of `remove_watcher` and of `replace_watcher`: all but one address.
abbrev pub without : Address → List Address → List Address
without watcher watchers = keep_if (λ w. not (w == watcher)) watchers

-- The first loop of `batch_register_watchers`, with its lists `stored` and `added`.
unfoldable pub merge : List Address → List Address → List Address → List Address × List Address
merge [] stored added = (stored, added)
merge (w ∷ watchers) stored added =
    let skip = merge watchers stored added in
    let push = merge watchers (stored ++ w ∷ []) (added ++ w ∷ []) in
    if contains stored w then skip else push

module _ (h : Host) where
  -- The second loop of `batch_register_watchers`.
  unfoldable pub count_added : List Address → State h → Outcome ContractError (State h)
  count_added [] s = ok s
  count_added (w ∷ added) s = do
    s₁ ← increment_watcher_count h s
    count_added added (publish h (Event.watcher_register w) s₁)

  -- The loop of `clear_all_watchers`.
  unfoldable pub clear_infos : List Address → State h → State h
  clear_infos [] s = s
  clear_infos (w ∷ watchers) s =
      let s₁ = publish h (Event.watcher_remove w) s in
      clear_infos watchers (record s₁ { infos = h.remove w s₁.infos })

module _ (h : Host) (env : Env) where
  -- The source does not declare `label`, `watchers` and `MAX_LABEL_BYTES` here: they are arguments.
  unfoldable pub register_watcher :
      ℕ
      → Option Bytes
      → List Address
      → Address
      → Address
      → Option ℕ
      → State h
      → Outcome ContractError (State h)
  register_watcher max_label_bytes label watchers admin watcher expires_at s = do
    privileged h env admin s
    reject_if (ltb max_label_bytes (length (unwrap_or label []))) label_too_long
    if has h watcher s.infos then ok s else (do
      reject_if (leb max_watchers (length watchers)) watcher_limit_exceeded
      let s₁ = save_watchers h (watchers ++ watcher ∷ []) (set_expiry h watcher expires_at s)
      s₂ ← increment_watcher_count h (extend_instance_ttl h s₁)
      ok (publish h (Event.watcher_register watcher) s₂))

  unfoldable pub remove_watcher : Address → Address → State h → Outcome ContractError (State h)
  remove_watcher admin watcher s = do
    privileged h env admin s
    let watchers = load_watchers h s
    reject_if (not (contains watchers watcher)) watcher_not_found
    let s₁ = extend_instance_ttl h (save_watchers h (without watcher watchers) s)
    let s₂ = decrement_watcher_count h (set_expiry h watcher none s₁)
    ok (publish h (Event.watcher_remove watcher) s₂)

  unfoldable pub replace_watcher :
      Address → Address → Address → State h → Outcome ContractError (State h)
  replace_watcher admin old_watcher new_watcher s = do
    privileged h env admin s
    let watchers = load_watchers h s
    reject_if (not (contains watchers old_watcher)) watcher_not_found
    let updated = without old_watcher watchers
    let s₁ = set_expiry h old_watcher none s
    let s₂ = record s₁ { infos = h.remove old_watcher s₁.infos }
    let info : WatcherInfo = record {
      address = new_watcher;
      label = [];
      registered_at = env.timestamp;
      registered_by = admin;
    }
    let s₃ =
        if contains updated new_watcher
        then save_watchers h updated (decrement_watcher_count h s₂)
        else save_watchers h (updated ++ new_watcher ∷ []) (save_info h info s₂)
    let s₄ = publish h (Event.watcher_remove old_watcher) (extend_instance_ttl h s₃)
    ok (publish h (Event.watcher_replace old_watcher new_watcher) s₄)

  unfoldable pub batch_register_watchers :
      Address → List Address → State h → Outcome ContractError (ℕ × State h)
  batch_register_watchers admin watchers s = do
    privileged h env admin s
    reject_if (ltb max_batch_size (length watchers)) batch_too_large
    let merged = merge watchers (load_watchers h s) []
    reject_if (ltb max_watchers (length merged.0)) watcher_limit_exceeded
    s' ← count_added h merged.1 (extend_instance_ttl h (save_watchers h merged.0 s))
    ok (length merged.1, s')

  unfoldable pub renew_watcher :
      Address → Address → Option ℕ → State h → Outcome ContractError (State h)
  renew_watcher admin watcher new_expiry s = do
    privileged h env admin s
    reject_if (not (contains (load_watchers h s) watcher)) watcher_not_found
    let s₁ = extend_instance_ttl h (set_expiry h watcher new_expiry s)
    ok (publish h (Event.watcher_renew watcher new_expiry) s₁)

  unfoldable pub clear_all_watchers : Address → State h → Outcome ContractError (State h)
  clear_all_watchers admin s = do
    privileged h env admin s
    let s₁ = save_watchers h [] (clear_infos h (load_watchers h s) s)
    let s₂ = extend_instance_ttl h (record s₁ { expiries = h.remove 0 s₁.expiries })
    ok (record s₂ { count = h.set 0 0 s₂.count })
