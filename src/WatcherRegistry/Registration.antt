-- ===== src/WatcherRegistry/Registration.antt =====
-- What `register_watcher` leaves behind, with the stored list for the name `watchers` that it does not declare.
use mathlib.Core.Path.{subst}
use stellar_txwatch_contract.Prelude.{
  ℕ, ◌+◌, ◌≡◌, ◌≤◌, refl, Bool, true, false, Option, none, some, [], ◌∷◌, ◌++◌, arith, leb, length,
  ◌==◌, if◌then◌else◌, Bool-cases, inl, inr, ap, ◌∙◌, contains-snoc, length-append,
}
use stellar_txwatch_contract.Soroban.{Host, Address, Env, Bytes, ok, >>=-eq-ok, reject_if-eq-ok}
use stellar_txwatch_contract.Soroban.Access.{has}
use stellar_txwatch_contract.WatcherRegistry.Types.{State, Event, max_watchers}
use stellar_txwatch_contract.WatcherRegistry.Store.{
  publish, get_watcher_count, increment_watcher_count, set_expiry, load_expiries, load_watchers,
  save_watchers, extend_instance_ttl,
}
use stellar_txwatch_contract.WatcherRegistry.Watchers.{register_watcher}
use stellar_txwatch_contract.WatcherRegistry.Queries.{is_authorized_at}
use stellar_txwatch_contract.WatcherRegistry.Spec.Rosters.{set_to, map_get-set_to}

-- Whether an authorization with this expiry is good at a time.
abbrev pub lasts : ℕ → Option ℕ → Bool
lasts now e = elim e [ none ↦ true | some exp ↦ leb now exp ]

module _ (h : Host) where
  -- The state after a new watcher has been listed and counted.
  unfoldable enrolled_state : Address → Option ℕ → State h → State h
  enrolled_state w e s =
      let s₁ =
        extend_instance_ttl h
          (save_watchers h (load_watchers h s ++ w ∷ []) (set_expiry h w e s)) in
      publish h (Event.watcher_register w)
        (record s₁ { count = h.set 0 (get_watcher_count h s₁ + 1) s₁.count })

  enrolled_state_lem :
      (w : Address) (e : Option ℕ) (s : State h)
      → (load_watchers h (enrolled_state w e s) ≡ load_watchers h s ++ w ∷ [])
        × (load_expiries h (enrolled_state w e s) ≡ set_to w e (load_expiries h s))
        × (get_watcher_count h (enrolled_state w e s) ≡ get_watcher_count h s + 1)
        × ((enrolled_state w e s).infos ≡ s.infos)
  unfolding enrolled_state extend_instance_ttl save_watchers set_expiry load_watchers load_expiries
      get_watcher_count set_to
  enrolled_state_lem w none s = (rw h.get-set, rw h.get-set, rw h.get-set, refl)
  enrolled_state_lem w (some x) s = (rw h.get-set, rw h.get-set, rw h.get-set, refl)

  increment_watcher_count-eq-ok :
      (t : State h) {t' : State h}
      → increment_watcher_count h t ≡ ok t'
      → record t { count = h.set 0 (get_watcher_count h t + 1) t.count } ≡ t'
  unfolding increment_watcher_count
  increment_watcher_count-eq-ok t e = ground arith

  is_authorized_at-enrolled_state :
      (now : ℕ) (a w : Address) (e : Option ℕ) (s : State h)
      → is_authorized_at h now a (enrolled_state w e s)
        ≡ (if w == a then lasts now e else is_authorized_at h now a s)
  unfolding is_authorized_at
  is_authorized_at-enrolled_state now a w e s =
      let (l, x, _, _) = enrolled_state_lem w e s in
      elim (Bool-cases (w == a)) [
        | inl same ↦ rw (l, x, map_get-set_to, contains-snoc, same) (ground arith)
        | inr other ↦ rw (l, x, map_get-set_to, contains-snoc, other) (ground arith)
      ]

  register_watcher-eq-ok :
      (env : Env) (max_label_bytes : ℕ) (label : Option Bytes) (admin watcher : Address)
      (e : Option ℕ) (s : State h) {s' : State h}
      → h.get watcher s.infos ≡ none
      → register_watcher h env max_label_bytes label (load_watchers h s) admin watcher e s ≡ ok s'
      → (leb max_watchers (length (load_watchers h s)) ≡ false) × (enrolled_state watcher e s ≡ s')
  unfolding register_watcher enrolled_state
  register_watcher-eq-ok env max_label_bytes label admin watcher e s {s'} new e₀ =
      let (_, _, e₁) = >>=-eq-ok _ _ e₀ in
      let (_, _, e₂) = >>=-eq-ok _ _ e₁ in
      let listed : has h watcher s.infos ≡ false = rw new in
      let (_, room, e₃) = >>=-eq-ok _ _ (rw listed at e₂) in
      let (s₂, counted, e₄) = >>=-eq-ok _ _ e₃ in
      let p = increment_watcher_count-eq-ok _ counted in
      (reject_if-eq-ok _ _ room, ap (publish h (Event.watcher_register watcher)) p ∙ cc)

  -- The address is listed and counted, and authorized until its expiry; nothing else is authorized anew.
  abbrev pub Enrolled : Address → Option ℕ → State h → State h → Type 0
  Enrolled watcher e s s' =
      (load_watchers h s' ≡ load_watchers h s ++ watcher ∷ [])
      × (get_watcher_count h s' ≡ get_watcher_count h s + 1)
      × (h.get watcher s'.infos ≡ none)
      × (length (load_watchers h s') ≤ max_watchers)
      × ((now : ℕ) (a : Address)
          → is_authorized_at h now a s'
            ≡ (if watcher == a then lasts now e else is_authorized_at h now a s))

  -- With the stored list for `watchers`, a successful register_watcher of an address without stored information
  -- appends it to the list and counts it, whether or not the list has it already, and stores no information of
  -- it. The list has at most 1,000 entries then. The address is authorized until the given expiry, for good without one,
  -- and every other address exactly when it was before.
  pub register_watcher-Enrolled :
      (env : Env) (max_label_bytes : ℕ) (label : Option Bytes) (admin watcher : Address)
      (e : Option ℕ) (s : State h) {s' : State h}
      → h.get watcher s.infos ≡ none
      → register_watcher h env max_label_bytes label (load_watchers h s) admin watcher e s ≡ ok s'
      → Enrolled watcher e s s'
  register_watcher-Enrolled env max_label_bytes label admin watcher e s new e₀ =
      let (room, same) =
        register_watcher-eq-ok env max_label_bytes label admin watcher e s new e₀ in
      let (l, x, c, i) = enrolled_state_lem watcher e s in
      subst (Enrolled watcher e s) same (
        l,
        c,
        ap (h.get watcher) i ∙ new,
        rw l (ground (arith, length-append (load_watchers h s) (watcher ∷ []), room)),
        λ now a. is_authorized_at-enrolled_state now a watcher e s,
      )
