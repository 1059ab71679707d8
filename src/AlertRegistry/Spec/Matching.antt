-- ===== src/AlertRegistry/Spec/Matching.antt =====
-- How a call on the storage is compared with its description on the map, step by step.
use stellar_txwatch_contract.Prelude.{
  ℕ, ◌≡◌, refl, ap, ◌∙◌, sym, Bool, false, Option, none, some, ◌==◌, if◌then◌else◌, unwrap_or,
}
use stellar_txwatch_contract.Soroban.{Host, Address}
use stellar_txwatch_contract.AlertRegistry.Types.{AdminEntry, AlertConfig, State}
use stellar_txwatch_contract.AlertRegistry.Store.{
  decode_admins, load_admins, is_paused, get_per_owner_alert_limit, get_alert_count,
}
use stellar_txwatch_contract.AlertRegistry.Spec.{Spec, view, at_id}

pub Spec-eq :
    {v w : Spec}
    → ((j : ℕ) → v.alerts j ≡ w.alerts j)
    → v.next ≡ w.next
    → v.admins ≡ w.admins
    → v.paused ≡ w.paused
    → v.limit ≡ w.limit
    → v.watcher_registry ≡ w.watcher_registry
    → v ≡ w
Spec-eq a n d p l r = λ i. record {
  alerts = λ j. a j i;
  next = n i;
  admins = d i;
  paused = p i;
  limit = l i;
  watcher_registry = r i;
}

module _ (h : Host) where
  -- What an entry point of the alerts does not write, but for the counter.
  abbrev pub kept :
      State h → h.Store ℕ × h.Store AdminEntry × h.Store Bool × h.Store ℕ × h.Store Address
  kept s = (s.next_id, s.admin, s.paused, s.limit, s.watchreg)

  pub view-eq :
      (s s' : State h) (w : Spec)
      → kept s' ≡ kept s
      → ((j : ℕ) → h.get j s'.alerts ≡ w.alerts j)
      → w.next ≡ get_alert_count h s
      → w.admins ≡ load_admins h s
      → w.paused ≡ is_paused h s
      → w.limit ≡ get_per_owner_alert_limit h s
      → w.watcher_registry ≡ h.get 0 s.watchreg
      → view h s' ≡ w
  unfolding view get_alert_count load_admins is_paused get_per_owner_alert_limit
  view-eq s s' w f a n d p l r =
      Spec-eq a (ap (λ k. unwrap_or (h.get 0 k.0) 0) f ∙ sym n)
        (ap (λ k. elim (h.get 0 k.1) [ none ↦ none | some raw ↦ some (decode_admins raw) ]) f
          ∙ sym d)
        (ap (λ k. unwrap_or (h.get 0 k.2) false) f ∙ sym p)
        (ap (λ k. unwrap_or (h.get 0 k.3) 0) f ∙ sym l) (ap (λ k. h.get 0 k.4) f ∙ sym r)

  pub view-at_id :
      (s s' : State h) (id : ℕ) (o : Option AlertConfig)
      → kept s' ≡ kept s
      → ((j : ℕ) → h.get j s'.alerts ≡ (if id == j then o else h.get j s.alerts))
      → view h s' ≡ at_id id o (view h s)
  unfolding view
  view-at_id s s' id o f a = view-eq s s' (at_id id o (view h s)) f a refl refl refl refl refl

  pub view-same :
      (s s' : State h)
      → kept s' ≡ kept s
      → ((j : ℕ) → h.get j s'.alerts ≡ h.get j s.alerts)
      → view h s' ≡ view h s
  unfolding view
  view-same s s' f a = view-eq s s' (view h s) f a refl refl refl refl refl
