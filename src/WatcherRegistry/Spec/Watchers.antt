-- ===== src/WatcherRegistry/Spec/Watchers.antt =====
-- The entry points on the watcher list do to the registry what `perform` says.
use stellar_txwatch_contract.Prelude.{
  ℕ, ◌+◌, ◌≡◌, ◌≤◌, refl, ap, ◌∙◌, sym, false, not, Option, none, some, List, [], ◌∷◌, map, arith,
  length, ◌==◌, contains, unwrap_or, contains-keep_if,
}
use stellar_txwatch_contract.Soroban.{Host, Address, Env, ok, ◌>>=◌, reject_if}
use stellar_txwatch_contract.Soroban.Access.{load_list}
use stellar_txwatch_contract.Soroban.Matching.{on_ok, on_ok->>=-same, on_ok-ok}
use stellar_txwatch_contract.WatcherRegistry.Types.{ContractError, State, Event}
use stellar_txwatch_contract.WatcherRegistry.Store.{
  map_remove, publish, extend_instance_ttl, get_watcher_count, increment_watcher_count,
  decrement_watcher_count, is_paused, load_expiries, set_expiry, load_watchers, save_watchers,
}
use stellar_txwatch_contract.WatcherRegistry.Watchers
use stellar_txwatch_contract.WatcherRegistry.Revocation.{
  left_state, load_watchers-left_state, load_expiries-left_state, map_get-map_remove,
}
use stellar_txwatch_contract.WatcherRegistry.Spec.Admins.{privileged-allowed}
use stellar_txwatch_contract.WatcherRegistry.Calls.{Call}
use stellar_txwatch_contract.WatcherRegistry.Spec.{row, view, on_roster, perform}
use stellar_txwatch_contract.WatcherRegistry.Spec.Rosters

module _ (h : Host) where
  -- Only listed watchers have an expiry.
  abbrev pub NoStale : State h → Type 0
  NoStale s = Rosters.NoStale (load_expiries h s) (load_watchers h s)

  -- What a call on the watchers leaves behind: the list and the expiries, and the admins and the pause
  -- as they were.
  pub record Effect (s s' : State h) (l : List Address) (m : List (Address × ℕ)) : Type 0 where
    pub admins : s'.admins ≡ s.admins
    pub paused : s'.paused ≡ s.paused
    pub watchers : load_watchers h s' ≡ l
    pub expiries : load_expiries h s' ≡ m

  pub view-Effect :
      {s s' : State h} {l : List Address} {m : List (Address × ℕ)}
      → Effect s s' l m
      → view h s' ≡ record (view h s) { roster = map (row m) l }
  unfolding view is_paused
  view-Effect {s} e = λ i. record {
    admins = h.get 0 (e.admins i);
    paused = unwrap_or (h.get 0 (e.paused i)) false;
    roster = map (row (e.expiries i)) (e.watchers i);
  }

  pub NoStale-Effect :
      {s s' : State h} {l : List Address} {m : List (Address × ℕ)}
      → Effect s s' l m
      → Rosters.NoStale m l
      → NoStale s'
  NoStale-Effect e n = rw (e.watchers, e.expiries) n

  pub decrement_watcher_count-same :
      (s : State h)
      → ((decrement_watcher_count h s).admins ≡ s.admins)
        × ((decrement_watcher_count h s).paused ≡ s.paused)
        × ((decrement_watcher_count h s).expiries ≡ s.expiries)
        × ((decrement_watcher_count h s).watchers ≡ s.watchers)
  unfolding decrement_watcher_count
  decrement_watcher_count-same s = ground arith

  pub left_state-Effect :
      (w : Address) (s : State h)
      → Effect s
          (left_state h w s)
          (Watchers.without w (load_watchers h s))
          (map_remove w (load_expiries h s))
  unfolding left_state set_expiry save_watchers extend_instance_ttl
  left_state-Effect w s =
      let l = Watchers.without w (load_watchers h s) in
      let (a, p, _, _) =
        decrement_watcher_count-same
          (set_expiry h w none (extend_instance_ttl h (save_watchers h l s))) in
      record {
        admins = a;
        paused = p;
        watchers = load_watchers-left_state h w s;
        expiries = load_expiries-left_state h w s;
      }

  -- The checks that a watcher is there agree.
  pub listed-on_roster :
      (w : Address) (e : ContractError) (s : State h)
      → reject_if (not (contains (load_watchers h s) w)) e
        ≡ reject_if (not (on_roster w ((view h s).roster))) e
  unfolding view
  listed-on_roster w e s =
      ap (λ b. reject_if (not b) e)
        (sym (Rosters.on_roster-map (load_expiries h s) w (load_watchers h s)))

  pub NoStale-without :
      (w : Address) (m : List (Address × ℕ)) (l : List Address)
      → Rosters.NoStale m l
      → Rosters.NoStale (map_remove w m) (Watchers.without w l)
  NoStale-without w m l fresh a out =
      map_get-map_remove w a m ∙ ground (arith, fresh a, contains-keep_if (λ x. not (x == w)) l a)

  pub load_expiries-set_expiry :
      (w : Address) (e : Option ℕ) (s : State h)
      → load_expiries h (set_expiry h w e s) ≡ Rosters.set_to w e (load_expiries h s)
  unfolding load_expiries set_expiry Rosters.set_to
  load_expiries-set_expiry w none s = rw h.get-set
  load_expiries-set_expiry w (some e) s = rw h.get-set

  pub set_expiry-same :
      (w : Address) (e : Option ℕ) (s : State h)
      → ((set_expiry h w e s).watchers ≡ s.watchers)
        × ((set_expiry h w e s).admins ≡ s.admins)
        × ((set_expiry h w e s).paused ≡ s.paused)
  unfolding set_expiry
  set_expiry-same w none s = (refl, refl, refl)
  set_expiry-same w (some e) s = (refl, refl, refl)

  -- The counter has room for a batch.
  pub count_added_succeeds :
      (added : List Address) (s : State h)
      → get_watcher_count h s + length added ≤ 4294967295
      → (s' : State h) × (Watchers.count_added h added s ≡ ok s')
        × (s'.watchers ≡ s.watchers)
        × (s'.expiries ≡ s.expiries)
        × (s'.admins ≡ s.admins)
        × (s'.paused ≡ s.paused)
  unfolding Watchers.count_added increment_watcher_count get_watcher_count ◌>>=◌
  count_added_succeeds [] s room = (s, refl, refl, refl, refl, refl)
  count_added_succeeds (w ∷ added) s room =
      let n = get_watcher_count h s in
      let s₁ =
        publish h (Event.watcher_register w) (record s { count = h.set 0 (n + 1) s.count }) in
      let next : get_watcher_count h s₁ ≡ n + 1 =
        ap (λ o. unwrap_or o 0) (h.get-set 0 0 (n + 1) s.count) in
      let (s', e, w', x, a, p) = count_added_succeeds added s₁ (omega (arith, next)) in
      (s', ground arith, w', x, a, p)

  unfoldable pub cleared_state : State h → State h
  cleared_state s =
      let s₁ = save_watchers h [] (Watchers.clear_infos h (load_watchers h s) s) in
      let s₂ = extend_instance_ttl h (record s₁ { expiries = h.remove 0 s₁.expiries }) in
      record s₂ { count = h.set 0 0 s₂.count }

  clear_infos-same :
      (l : List Address) (s : State h)
      → ((Watchers.clear_infos h l s).admins ≡ s.admins)
        × ((Watchers.clear_infos h l s).paused ≡ s.paused)
  unfolding Watchers.clear_infos
  clear_infos-same [] s = (refl, refl)
  clear_infos-same (w ∷ l) s = clear_infos-same l _

  pub cleared_state-Effect : (s : State h) → Effect s (cleared_state s) [] []
  unfolding cleared_state save_watchers extend_instance_ttl load_watchers load_expiries
  cleared_state-Effect s =
      let (a, p) = clear_infos-same (load_watchers h s) s in
      record { admins = a; paused = p; watchers = rw h.get-set; expiries = rw h.get-remove }

  unfoldable pub renewed_state : Address → Option ℕ → State h → State h
  renewed_state w e s =
      publish h (Event.watcher_renew w e) (extend_instance_ttl h (set_expiry h w e s))

  pub renewed_state-Effect :
      (w : Address) (e : Option ℕ) (s : State h)
      → Effect s (renewed_state w e s) (load_watchers h s) (Rosters.set_to w e (load_expiries h s))
  unfolding renewed_state extend_instance_ttl load_watchers load_expiries
  renewed_state-Effect w e s =
      let (l, a, p) = set_expiry-same w e s in
      record {
        admins = a;
        paused = p;
        watchers = ap (load_list h 0) l;
        expiries = load_expiries-set_expiry w e s;
      }

  module _ (env : Env) (s : State h) where
    pub remove_watcher-perform :
        (a w : Address)
        → on_ok (view h) (Watchers.remove_watcher h env a w s)
          ≡ perform env (Call.remove_watcher a w) (view h s)
    unfolding Watchers.remove_watcher perform left_state view
    remove_watcher-perform a w = on_ok->>=-same _ _ _ (privileged-allowed h env a s) λ _ _.
        on_ok->>=-same _ _ _ (listed-on_roster w _ s) λ _ _. on_ok-ok (view h) (left_state h w s) (
          view-Effect (left_state-Effect w s)
          ∙ ap (λ r. record (view h s) { roster = r })
              (Rosters.map-without (load_expiries h s) w (load_watchers h s)))

    pub clear_all_watchers-perform :
        (a : Address)
        → on_ok (view h) (Watchers.clear_all_watchers h env a s)
          ≡ perform env (Call.clear_all_watchers a) (view h s)
    unfolding Watchers.clear_all_watchers perform cleared_state
    clear_all_watchers-perform a =
        on_ok->>=-same _ _ _ (privileged-allowed h env a s)
          λ _ _. on_ok-ok (view h) (cleared_state s) (view-Effect (cleared_state-Effect s))

    pub renew_watcher-perform :
        (a w : Address) (e : Option ℕ)
        → on_ok (view h) (Watchers.renew_watcher h env a w e s)
          ≡ perform env (Call.renew_watcher a w e) (view h s)
    unfolding Watchers.renew_watcher perform renewed_state view
    renew_watcher-perform a w e = on_ok->>=-same _ _ _ (privileged-allowed h env a s) λ _ _.
        on_ok->>=-same _ _ _ (listed-on_roster w _ s) λ _ _.
          on_ok-ok (view h) (renewed_state w e s) (
            view-Effect (renewed_state-Effect w e s)
            ∙ ap (λ r. record (view h s) { roster = r })
                (Rosters.map-set_to (load_expiries h s) w e (load_watchers h s)))
