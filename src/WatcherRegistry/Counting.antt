-- ===== src/WatcherRegistry/Counting.antt =====
-- The watcher list has no repetition, is within its bound, and is counted.
use stellar_txwatch_contract.Prelude.{
  ℕ, ◌+◌, ◌-◌, ◌≡◌, refl, ◌≤◌, true, none, some, List, [], ◌∷◌, ◌++◌, arith, length, ◌==◌, not,
  contains, distinct, distinct-snoc, distinct-keep_if, length-append, length-keep_if_once, ap, ◌∙◌,
  sym, Bool-cases, inl, inr, Option,
}
use stellar_txwatch_contract.Soroban.{
  Host, Address, Env, ok, Ensures, Ensures->>=, Ensures-ok, Ensures-of, Ensures-eq-ok,
  reject_if-eq-ok,
}
use stellar_txwatch_contract.WatcherRegistry.Types.{State, Event, max_watchers}
use stellar_txwatch_contract.WatcherRegistry.Store.{
  publish, decrement_watcher_count, increment_watcher_count, get_watcher_count, set_expiry,
  load_watchers, save_watchers, extend_instance_ttl, save_info,
}
use stellar_txwatch_contract.WatcherRegistry.Watchers.{
  without, merge, count_added, remove_watcher, replace_watcher, batch_register_watchers,
  renew_watcher, clear_all_watchers,
}

-- What the first loop of a batch makes of its two lists.
pub merge_lem :
    (ws stored added : List Address)
    → distinct stored ≡ true
    → (distinct (merge ws stored added).0 ≡ true)
      × (length (merge ws stored added).0 + length added
          ≡ length stored + length (merge ws stored added).1)
unfolding merge
merge_lem [] stored added d = (d, omega arith)
merge_lem (w ∷ ws) stored added d = elim (Bool-cases (contains stored w)) [
  | inl there ↦ rw there (merge_lem ws stored added d)
  | inr new ↦
      let (e, n) =
        merge_lem ws (stored ++ w ∷ []) (added ++ w ∷ []) (distinct-snoc stored w d new) in
      rw new (e, omega (arith, n, length-append stored (w ∷ []), length-append added (w ∷ [])))
]

module _ (h : Host) where
  -- No watcher stands twice in the list, it has 1,000 entries at most, and the counter has its
  -- length.
  pub record IsCounted (s : State h) : Type 0 where
    pub unique : distinct (load_watchers h s) ≡ true
    pub bound : length (load_watchers h s) ≤ max_watchers
    pub count : get_watcher_count h s ≡ length (load_watchers h s)

  pub IsCounted-same :
      (s s' : State h) → IsCounted s → s'.watchers ≡ s.watchers → s'.count ≡ s.count → IsCounted s'
  unfolding load_watchers get_watcher_count
  IsCounted-same s s' v w c = record {
    unique = rw w v.unique;
    bound = rw w v.bound;
    count = rw (w, c) v.count;
  }

  increment_watcher_count-eq-ok :
      (s : State h) {s' : State h}
      → increment_watcher_count h s ≡ ok s'
      → (s'.watchers ≡ s.watchers) × (get_watcher_count h s' ≡ get_watcher_count h s + 1)
  unfolding increment_watcher_count get_watcher_count
  increment_watcher_count-eq-ok s e =
      ground (arith, h.get-set 0 0 (get_watcher_count h s + 1) s.count)

  decrement_watcher_count_lem :
      (s : State h)
      → ((decrement_watcher_count h s).watchers ≡ s.watchers)
        × (get_watcher_count h (decrement_watcher_count h s) ≡ get_watcher_count h s - 1)
  unfolding decrement_watcher_count get_watcher_count
  decrement_watcher_count_lem s = ground (arith, h.get-set 0 0 (get_watcher_count h s - 1) s.count)

  count_added_lem :
      (added : List Address) (s : State h)
      → Ensures
          (λ s'.
            (s'.watchers ≡ s.watchers)
            × (get_watcher_count h s' ≡ get_watcher_count h s + length added))
          (count_added h added s)
  unfolding count_added get_watcher_count
  count_added_lem [] s = Ensures-ok _ _ (refl, omega arith)
  count_added_lem (w ∷ added) s = Ensures->>= _ _ _ λ s₁ e. Ensures-of _ _ λ s' e'.
      let (x, n) = increment_watcher_count-eq-ok s e in
      let (y, m) =
        Ensures-eq-ok _ (count_added_lem added (publish h (Event.watcher_register w) s₁)) e' in
      (y ∙ x, omega (arith, n, m))

  set_expiry-same :
      (watcher : Address) (exp : Option ℕ) (s : State h)
      → ((set_expiry h watcher exp s).watchers ≡ s.watchers)
        × ((set_expiry h watcher exp s).count ≡ s.count)
  unfolding set_expiry
  set_expiry-same watcher none s = (refl, refl)
  set_expiry-same watcher (some e) s = (refl, refl)

  -- A state whose list has just been written.
  IsCounted-written :
      (l : List Address) (t : h.Store (List Address)) (s' : State h)
      → s'.watchers ≡ h.set 0 l t
      → distinct l ≡ true
      → length l ≤ max_watchers
      → get_watcher_count h s' ≡ length l
      → IsCounted s'
  IsCounted-written l t s' w d b n =
      let loaded : load_watchers h s' ≡ l = unfold load_watchers in rw (w, h.get-set) in
      record { unique = rw loaded d; bound = rw loaded b; count = n ∙ ap length (sym loaded) }

  -- The entry points on the watcher list.
  module _ (env : Env) (admin : Address) (s : State h) (v : IsCounted s) where
    remove_watcher-IsCounted :
        (watcher : Address) → Ensures IsCounted (remove_watcher h env admin watcher s)
    unfolding remove_watcher extend_instance_ttl set_expiry save_watchers get_watcher_count
    remove_watcher-IsCounted watcher = Ensures->>= IsCounted _ _ λ _ _.
        Ensures->>= IsCounted _ _ λ _ there. Ensures-ok _ IsCounted (
          let l = load_watchers h s in
          let s₂ =
            set_expiry h watcher none
              (extend_instance_ttl h (save_watchers h (without watcher l) s)) in
          let (w, n) = decrement_watcher_count_lem s₂ in
          let listed : contains l watcher ≡ true = ground (arith, reject_if-eq-ok _ _ there) in
          let shorter = length-keep_if_once watcher l v.unique listed in
          IsCounted-written (without watcher l) s.watchers _ w
            (distinct-keep_if (λ a. not (a == watcher)) l v.unique)
            (omega (arith, shorter, v.bound)) (omega (arith, n, shorter, v.count)))

    batch_register_watchers-IsCounted :
        (ws : List Address)
        → Ensures (λ r. IsCounted r.1) (batch_register_watchers h env admin ws s)
    unfolding batch_register_watchers extend_instance_ttl save_watchers get_watcher_count
    batch_register_watchers-IsCounted ws =
        let P = λ (r : ℕ × State h). IsCounted r.1 in
        Ensures->>= P _ _ λ _ _. Ensures->>= P _ _ λ _ _. Ensures->>= P _ _ λ _ few.
          Ensures->>= P _ _ λ s' e. Ensures-ok _ P (
            let l = load_watchers h s in
            let (d, n) = merge_lem ws l [] v.unique in
            let (w, m) = Ensures-eq-ok _ (count_added_lem _ _) e in
            IsCounted-written (merge ws l []).0 s.watchers s' w d
              (ground (arith, reject_if-eq-ok _ _ few)) (omega (arith, n, m, v.count)))

    renew_watcher-IsCounted :
        (watcher : Address) (exp : Option ℕ)
        → Ensures IsCounted (renew_watcher h env admin watcher exp s)
    unfolding renew_watcher extend_instance_ttl
    renew_watcher-IsCounted watcher exp = Ensures->>= IsCounted _ _ λ _ _.
        Ensures->>= IsCounted _ _ λ _ _.
          Ensures-ok _ IsCounted (
            IsCounted-same s _ v (set_expiry-same watcher exp s).0
              (set_expiry-same watcher exp s).1)

    clear_all_watchers-IsCounted : Ensures IsCounted (clear_all_watchers h env admin s)
    unfolding clear_all_watchers extend_instance_ttl save_watchers get_watcher_count distinct
    clear_all_watchers-IsCounted = Ensures->>= IsCounted _ _ λ _ _.
        Ensures-ok _ IsCounted (IsCounted-written [] _ _ refl refl (omega arith) (rw h.get-set))

    replace_watcher-IsCounted :
        (old new : Address) → Ensures IsCounted (replace_watcher h env admin old new s)
    unfolding replace_watcher extend_instance_ttl save_watchers get_watcher_count set_expiry
        save_info
    replace_watcher-IsCounted old new = Ensures->>= IsCounted _ _ λ _ _.
        Ensures->>= IsCounted _ _ λ _ there. Ensures-ok _ IsCounted (
          let l = load_watchers h s in
          let updated = without old l in
          let listed : contains l old ≡ true = ground (arith, reject_if-eq-ok _ _ there) in
          let shorter = length-keep_if_once old l v.unique listed in
          let d = distinct-keep_if (λ a. not (a == old)) l v.unique in
          let more = length-append updated (new ∷ []) in
          let s₁ = set_expiry h old none s in
          let s₂ : State h = record s₁ { infos = h.remove old s₁.infos } in
          elim (Bool-cases (contains updated new)) [
            | inl present ↦ rw present (
                IsCounted-written updated _ _ refl d (omega (arith, shorter, v.bound))
                  (omega (arith, (decrement_watcher_count_lem s₂).1, shorter, v.count)))
            | inr absent ↦ rw absent (
                IsCounted-written (updated ++ new ∷ []) _ _ refl
                  (distinct-snoc updated new d absent) (omega (arith, shorter, v.bound, more))
                  (omega (arith, shorter, v.count, more)))
          ])

    -- If the watcher list has no repetition, at most 1,000 entries, and its length in the counter,
    -- then so it is after each of the other changes of the list than `register_watcher` that
    -- succeeds: a removal, a replacement, a batch, a renewal, a clearing.
    pub watcher_calls-IsCounted :
        (old new : Address) (exp : Option ℕ) (ws : List Address)
        → Ensures IsCounted (remove_watcher h env admin old s)
          × Ensures IsCounted (replace_watcher h env admin old new s)
          × Ensures (λ r. IsCounted r.1) (batch_register_watchers h env admin ws s)
          × Ensures IsCounted (renew_watcher h env admin old exp s)
          × Ensures IsCounted (clear_all_watchers h env admin s)
    watcher_calls-IsCounted old new exp ws = (
      remove_watcher-IsCounted old,
      replace_watcher-IsCounted old new,
      batch_register_watchers-IsCounted ws,
      renew_watcher-IsCounted old exp,
      clear_all_watchers-IsCounted,
    )
