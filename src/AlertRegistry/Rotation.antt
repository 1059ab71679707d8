-- ===== src/AlertRegistry/Rotation.antt =====
-- The two-step rotation of a webhook.
use stellar_txwatch_contract.Prelude.{ℕ, ◌≡◌, refl, true, none, some, arith, ==-refl}
use stellar_txwatch_contract.Soroban.{Host, Address, Bytes, Env, ok, err, ◌>>=◌}
use stellar_txwatch_contract.Soroban.Access.{get-put}
use stellar_txwatch_contract.AlertRegistry.Types.{AlertConfig, State, Event, no_pending_webhook}
use stellar_txwatch_contract.AlertRegistry.Store.{publish, load_alert, save_alert, assert_owner}
use stellar_txwatch_contract.AlertRegistry.Update.{propose_webhook, confirm_webhook}

module _ (h : Host) where
  pub get-save_alert :
      (id : ℕ) (c : AlertConfig) (s : State h) → h.get id (save_alert h id c s).alerts ≡ some c
  unfolding save_alert
  get-save_alert id c s = rw (get-put, ==-refl)

module _ (h : Host) (env : Env) where
  proposed : Address → ℕ → AlertConfig → Bytes → State h → State h
  proposed caller id c hash s = publish h (Event.alert_wh_prop id caller) (
      save_alert h id (record c { pending_webhook_hash = some hash; updated_at = env.timestamp }) s)

  propose_webhook-eq :
      (caller : Address) (id : ℕ) (c : AlertConfig) (hash : Bytes) (s : State h)
      → env.authorized caller ≡ true
      → h.get id s.alerts ≡ some c
      → c.owner ≡ caller
      → propose_webhook h env caller id hash s ≡ ok (proposed caller id c hash s)
  unfolding propose_webhook load_alert assert_owner ◌>>=◌ proposed
  propose_webhook-eq caller id c hash s signed there owned = ground arith

  confirm_webhook-eq :
      (caller : Address) (id : ℕ) (c : AlertConfig) (hash : Bytes) (s : State h)
      → env.authorized caller ≡ true
      → h.get id s.alerts ≡ some c
      → c.owner ≡ caller
      → c.pending_webhook_hash ≡ some hash
      → confirm_webhook h env caller id s
        ≡ ok (
            publish h (Event.alert_webhook id caller) (
              save_alert h id
                (record c {
                  pending_webhook_hash = none;
                  webhook_hash = hash;
                  updated_at = env.timestamp;
                })
                s))
  unfolding confirm_webhook load_alert assert_owner ◌>>=◌
  confirm_webhook-eq caller id c hash s signed there owned pending = ground arith

  confirm_webhook_twice :
      (caller : Address) (id : ℕ) (c : AlertConfig) (s : State h)
      → env.authorized caller ≡ true
      → h.get id s.alerts ≡ some c
      → c.owner ≡ caller
      → c.pending_webhook_hash ≡ none
      → confirm_webhook h env caller id s ≡ err no_pending_webhook
  unfolding confirm_webhook load_alert assert_owner ◌>>=◌
  confirm_webhook_twice caller id c s signed there owned pending = ground arith

  -- With the owner's signature, to propose a webhook hash and then to confirm it succeeds in any
  -- state, paused or not, and for a hash of any length; the alert then has that hash, no pending
  -- one, and otherwise its fields with the time of the call. A second confirmation fails.
  pub confirm_webhook-propose_webhook :
      (caller : Address) (id : ℕ) (c : AlertConfig) (hash : Bytes) (s : State h)
      → env.authorized caller ≡ true
      → h.get id s.alerts ≡ some c
      → c.owner ≡ caller
      → (s' : State h) × ((propose_webhook h env caller id hash s
            >>= confirm_webhook h env caller id)
          ≡ ok s')
        × (h.get id s'.alerts
            ≡ some (record c {
              pending_webhook_hash = none;
              webhook_hash = hash;
              updated_at = env.timestamp;
            }))
        × (confirm_webhook h env caller id s' ≡ err no_pending_webhook)
  unfolding ◌>>=◌
  confirm_webhook-propose_webhook caller id c hash s signed there owned =
      let c₁ : AlertConfig = record c {
        pending_webhook_hash = some hash;
        updated_at = env.timestamp;
      } in
      let c₂ : AlertConfig = record c {
        pending_webhook_hash = none;
        webhook_hash = hash;
        updated_at = env.timestamp;
      } in
      let s₁ = proposed caller id c hash s in
      let s₂ = publish h (Event.alert_webhook id caller) (save_alert h id c₂ s₁) in
      let there₁ : h.get id s₁.alerts ≡ some c₁ = unfold proposed in get-save_alert h id c₁ s in
      let there₂ : h.get id s₂.alerts ≡ some c₂ = get-save_alert h id c₂ s₁ in
      (
        s₂,
        rw (propose_webhook-eq caller id c hash s signed there owned)
            (confirm_webhook-eq caller id c₁ hash s₁ signed there₁ owned refl),
        there₂,
        confirm_webhook_twice caller id c₂ s₂ signed there₂ owned refl,
      )
