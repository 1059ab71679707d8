-- ===== src/WatcherRegistry/Spec/Enlisting.antt =====
-- The entry points that put watchers on the list do to the registry what `perform` says.
use stellar_txwatch_contract.Prelude.{
  ℕ, ◌≡◌, ◌≤◌, ap, ◌∙◌, sym, none, List, [], ◌∷◌, ◌++◌, arith, length, if◌then◌else◌, contains, ltb,
  Bool-cases, inl, inr,
}
use stellar_txwatch_contract.Soroban.{Host, Address, Env, ok, reject_if, reject_if-eq-ok}
use stellar_txwatch_contract.Soroban.Access.{load_list}
use stellar_txwatch_contract.Soroban.Matching.{
  on_ok, on_ok->>=, on_ok->>=-same, on_ok-ok, on_ok->>=-eq,
}
use stellar_txwatch_contract.WatcherRegistry.Types.{State, Event, max_watchers}
use stellar_txwatch_contract.WatcherRegistry.Store.{
  map_remove, publish, extend_instance_ttl, get_watcher_count, decrement_watcher_count,
  load_expiries, set_expiry, load_watchers, save_watchers, save_info,
}
use stellar_txwatch_contract.WatcherRegistry.Watchers
use stellar_txwatch_contract.WatcherRegistry.Types.{WatcherInfo, watcher_limit_exceeded}
use stellar_txwatch_contract.WatcherRegistry.Counting.{IsCounted, merge_lem}
use stellar_txwatch_contract.WatcherRegistry.Spec.Admins.{privileged-allowed}
use stellar_txwatch_contract.WatcherRegistry.Spec.Watchers.{
  NoStale, Effect, view-Effect, listed-on_roster, count_added_succeeds, NoStale-without,
  decrement_watcher_count-same, set_expiry-same, load_expiries-set_expiry,
}
use stellar_txwatch_contract.WatcherRegistry.Calls.{Call}
use stellar_txwatch_contract.WatcherRegistry.Spec.{view, enlist, perform}
use stellar_txwatch_contract.WatcherRegistry.Spec.Rosters

module _ (h : Host) where
  -- The list after a replacement.
  abbrev pub replaced : Address → Address → List Address → List Address
  replaced o n l =
      let updated = Watchers.without o l in
      if contains updated n then updated else updated ++ n ∷ []

  unfoldable pub replaced_state : Env → Address → Address → Address → State h → State h
  replaced_state env admin o n s =
      let updated = Watchers.without o (load_watchers h s) in
      let s₁ = set_expiry h o none s in
      let s₂ = record s₁ { infos = h.remove o s₁.infos } in
      let info : WatcherInfo = record {
        address = n;
        label = [];
        registered_at = env.timestamp;
        registered_by = admin;
      } in
      let s₃ =
        if contains updated n
        then save_watchers h updated (decrement_watcher_count h s₂)
        else save_watchers h (updated ++ n ∷ []) (save_info h info s₂) in
      let s₄ = publish h (Event.watcher_remove o) (extend_instance_ttl h s₃) in
      publish h (Event.watcher_replace o n) s₄

  pub replaced_state-Effect :
      (env : Env) (a o n : Address) (s : State h)
      → Effect h s
          (replaced_state env a o n s)
          (replaced o n (load_watchers h s))
          (map_remove o (load_expiries h s))
  unfolding replaced_state save_watchers extend_instance_ttl load_watchers load_expiries save_info
      map_remove Rosters.set_to
  replaced_state-Effect env a o n s =
      let updated = Watchers.without o (load_watchers h s) in
      let s₁ = set_expiry h o none s in
      let s₂ : State h = record s₁ { infos = h.remove o s₁.infos } in
      let (_, a₁, p₁) = set_expiry-same h o none s in
      let gone = load_expiries-set_expiry h o none s in
      let (a₂, p₂, x₂, _) = decrement_watcher_count-same h s₂ in
      elim (Bool-cases (contains updated n)) [
        | inl there ↦ rw there (record {
          admins = a₂ ∙ a₁;
          paused = p₂ ∙ p₁;
          watchers = rw h.get-set;
          expiries = ap (load_list h 0) x₂ ∙ gone;
        })
        | inr new ↦
            rw new (record { admins = a₁; paused = p₁; watchers = rw h.get-set; expiries = gone })
      ]

  -- The state after the checks of a batch.
  unfoldable pub merged_state : List Address → State h → State h
  merged_state ws s =
      extend_instance_ttl h (save_watchers h (Watchers.merge ws (load_watchers h s) []).0 s)

  pub batch_counts :
      (ws : List Address) (s : State h)
      → IsCounted h s
      → length (Watchers.merge ws (load_watchers h s) []).0 ≤ max_watchers
      → (s' : State h) × (Watchers.count_added h
            (Watchers.merge ws (load_watchers h s) []).1
            (merged_state ws s)
          ≡ ok s')
        × Effect h s s' (Watchers.merge ws (load_watchers h s) []).0 (load_expiries h s)
  unfolding merged_state extend_instance_ttl save_watchers get_watcher_count load_watchers
      load_expiries
  batch_counts ws s v few =
      let l = load_watchers h s in
      let (_, n) = merge_lem ws l [] v.unique in
      let added = (Watchers.merge ws l []).1 in
      let (s', e, w, x, a, p) =
        count_added_succeeds h added (merged_state ws s) (omega (arith, n, v.count)) in
      (
        s',
        e,
        record {
          admins = a;
          paused = p;
          watchers = ap (load_list h 0) w ∙ rw h.get-set;
          expiries = ap (load_list h 0) x;
        },
      )

  module _ (env : Env) (s : State h) where
    pub replace_watcher-perform :
        (a o n : Address)
        → NoStale h s
        → on_ok (view h) (Watchers.replace_watcher h env a o n s)
          ≡ perform env (Call.replace_watcher a o n) (view h s)
    unfolding Watchers.replace_watcher perform view replaced_state
    replace_watcher-perform a o n fresh =
        let m = load_expiries h s in
        let l = load_watchers h s in
        on_ok->>=-same _ _ _ (privileged-allowed h env a s) λ _ _.
          on_ok->>=-same _ _ _ (listed-on_roster h o _ s) λ _ _.
            on_ok-ok (view h) (replaced_state env a o n s) (
              view-Effect h (replaced_state-Effect env a o n s)
              ∙ ap (λ r. record (view h s) { roster = r })
                  (Rosters.map-enlist (map_remove o m) n (Watchers.without o l)
                      (NoStale-without h o m l fresh)
                    ∙ ap (enlist n) (Rosters.map-without m o l)))

    pub batch_register_watchers-perform :
        (a : Address) (ws : List Address)
        → IsCounted h s
        → NoStale h s
        → on_ok (λ (r : ℕ × State h). view h r.1) (Watchers.batch_register_watchers h env a ws s)
          ≡ perform env (Call.batch_register_watchers a ws) (view h s)
    unfolding Watchers.batch_register_watchers perform view merged_state
    batch_register_watchers-perform a ws counted fresh =
        let m = load_expiries h s in
        let l = load_watchers h s in
        let k = λ (r : ℕ × State h). view h r.1 in
        let same = Rosters.map-merge m ws l [] fresh in
        let len = sym (Rosters.length-map m (Watchers.merge ws l []).0) ∙ ap length same in
        on_ok->>=-same _ _ _ (privileged-allowed h env a s) λ _ _. on_ok->>= _ _ _ _ λ _ _.
          on_ok->>=-same _ _ _ (ap (λ x. reject_if (ltb max_watchers x) watcher_limit_exceeded) len)
            λ _ few.
              let (s', e, q) =
                batch_counts ws s counted (ground (arith, reject_if-eq-ok _ _ few)) in
              on_ok->>=-eq k _ e
                (on_ok-ok k _ (view-Effect h q ∙ ap (λ r. record (view h s) { roster = r }) same))
