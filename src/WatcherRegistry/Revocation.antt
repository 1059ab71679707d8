-- ===== src/WatcherRegistry/Revocation.antt =====
-- Who is an authorized watcher after a removal.
use stellar_txwatch_contract.Prelude.{
  ℕ, ◌≡◌, ◌≢◌, true, false, none, List, [], ◌∷◌, arith, ◌==◌, contains, keep_if, contains-keep_if,
  sym, ==-refl, if◌then◌else◌, ap, ◌∙◌,
}
use stellar_txwatch_contract.Soroban.{Host, Address, Env, ok, >>=-eq-ok, reject_if-eq-ok}
use stellar_txwatch_contract.WatcherRegistry.Types.{State, Event}
use stellar_txwatch_contract.WatcherRegistry.Store.{
  publish, map_get, map_remove, decrement_watcher_count, set_expiry, load_expiries, load_watchers,
  save_watchers, extend_instance_ttl,
}
use stellar_txwatch_contract.WatcherRegistry.Watchers.{without, remove_watcher}
use stellar_txwatch_contract.WatcherRegistry.Queries.{is_authorized_at}

pub map_get-map_remove :
    (a b : Address) (m : List (Address × ℕ))
    → map_get b (map_remove a m) ≡ (if a == b then none else map_get b m)
unfolding map_get map_remove keep_if
map_get-map_remove a b [] = ground arith
map_get-map_remove a b ((c, e) ∷ m) = ground (arith, map_get-map_remove a b m)

module _ (h : Host) where
  decrement-watchers : (s : State h) → (decrement_watcher_count h s).watchers ≡ s.watchers
  unfolding decrement_watcher_count
  decrement-watchers s = ground arith

  decrement-expiries : (s : State h) → (decrement_watcher_count h s).expiries ≡ s.expiries
  unfolding decrement_watcher_count
  decrement-expiries s = ground arith

  -- The state after a watcher has left the list and the expiries.
  unfoldable pub left_state : Address → State h → State h
  left_state watcher s =
      let s₁ = extend_instance_ttl h (save_watchers h (without watcher (load_watchers h s)) s) in
      publish h (Event.watcher_remove watcher)
        (decrement_watcher_count h (set_expiry h watcher none s₁))

  pub load_watchers-left_state :
      (watcher : Address) (s : State h)
      → load_watchers h (left_state watcher s) ≡ without watcher (load_watchers h s)
  unfolding left_state load_watchers save_watchers set_expiry extend_instance_ttl
  load_watchers-left_state watcher s = rw (decrement-watchers, h.get-set)

  pub load_expiries-left_state :
      (watcher : Address) (s : State h)
      → load_expiries h (left_state watcher s) ≡ map_remove watcher (load_expiries h s)
  unfolding left_state load_expiries save_watchers set_expiry extend_instance_ttl
  load_expiries-left_state watcher s = rw (decrement-expiries, h.get-set)

  is_authorized_at-left_state :
      (now : ℕ) (w watcher : Address) (s : State h)
      → is_authorized_at h now w (left_state watcher s)
        ≡ (if w == watcher then false else is_authorized_at h now w s)
  unfolding is_authorized_at
  is_authorized_at-left_state now w watcher s =
      rw (load_watchers-left_state, load_expiries-left_state, map_get-map_remove, contains-keep_if)
        (ground arith)

  -- A successful `remove_watcher` had the watcher in the list; afterwards the watcher is not
  -- authorized at any time, and every other address is authorized exactly when it was before.
  pub remove_watcher_revokes :
      (env : Env) (admin watcher : Address) (s : State h) {s' : State h}
      → remove_watcher h env admin watcher s ≡ ok s'
      → (contains (load_watchers h s) watcher ≡ true)
        × ((now : ℕ) → is_authorized_at h now watcher s' ≡ false)
        × ((now : ℕ) (w : Address)
            → w ≢ watcher
            → is_authorized_at h now w s' ≡ is_authorized_at h now w s)
  unfolding remove_watcher left_state is_authorized_at
  remove_watcher_revokes env admin watcher s {s'} e =
      let (_, _, e₁) = >>=-eq-ok _ _ e in
      let (_, there, e₂) = >>=-eq-ok _ _ e₁ in
      let same : left_state watcher s ≡ s' = ground arith in
      (
        ground (arith, reject_if-eq-ok _ _ there),
        (λ now.
            ap (is_authorized_at h now watcher) (sym same)
            ∙ is_authorized_at-left_state now watcher watcher s
            ∙ rw (==-refl watcher)),
        λ now w ne.
            ap (is_authorized_at h now w) (sym same)
            ∙ is_authorized_at-left_state now w watcher s
            ∙ ground arith,
      )
