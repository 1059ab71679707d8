-- ===== src/AlertRegistry/Admission.antt =====
-- When a registration succeeds, and which IDs a batch gets.
use mathlib.Core.Path.{subst}
use stellar_txwatch_contract.Prelude.{
  ℕ, zero, suc, ◌+◌, ◌≡◌, refl, ◌≤◌, ◌<◌, ap, ◌∙◌, true, false, Option, some, List, [], ◌∷◌, arith,
  length, contains, unwrap_or, ltb, ◌==◌, if◌then◌else◌, ==-refl, Bool-cases, inl, inr,
}
use stellar_txwatch_contract.Soroban.{
  Host, Address, Bytes, Env, ok, ◌>>=◌, >>=-eq-ok, Ensures, Ensures->>=, Ensures-ok, Ensures-eq-ok,
  reject_if-eq-ok,
}
use stellar_txwatch_contract.AlertRegistry.Types.{
  AlertConfig, AlertInput, State, max_batch_size, default_ttl,
}
use stellar_txwatch_contract.Soroban.Access.{get-put}
use stellar_txwatch_contract.AlertRegistry.Validate.{validate_label, validate_rules, validate_tags}
use stellar_txwatch_contract.AlertRegistry.Store.{
  u64_max, saturating_add, is_paused, assert_not_paused, get_per_owner_alert_limit,
  prune_owner_index, assert_per_owner_limit, assert_per_owner_limit_for, get_alert_count,
  extend_instance_ttl,
}
use stellar_txwatch_contract.AlertRegistry.Register.{
  new_config, check_webhook_hash, store_new, store_inputs, config_of, register_alert,
  batch_register_alerts,
}
use stellar_txwatch_contract.AlertRegistry.Queries.{get_active_alert_count}
use stellar_txwatch_contract.AlertRegistry.Invariant.{IsValid, counter, owner_ids, contract_ids}
use stellar_txwatch_contract.AlertRegistry.Invariant.Steps.{
  stored_new, store_new-eq-ok, store_new_succeeds, assert_per_owner_limit_for-IsValid,
}

-- `n` numbers from `id` on.
abbrev pub ids_from : ℕ → ℕ → List ℕ
ids_from id zero = []
ids_from id (suc n) = id ∷ ids_from (id + 1) n

module _ (h : Host) where
  -- No list of the indexes has the ID that comes next.
  next_unlisted :
      (s : State h)
      → IsValid h s
      → (a : Address)
      → (contains (owner_ids h s a) (counter h s) ≡ false)
        × (contains (contract_ids h s a) (counter h s) ≡ false)
  next_unlisted s v a = (
    ground (arith, v.owners.fresh a (counter h s)),
    ground (arith, v.targets.fresh a (counter h s)),
  )

  pub store_new_valid :
      (s : State h) (c : AlertConfig)
      → IsValid h s
      → counter h s < u64_max
      → store_new h c s ≡ ok (counter h s, stored_new h c s)
  store_new_valid s c v more =
      store_new_succeeds h s c more (next_unlisted s v c.owner).0
        (next_unlisted s v c.target_contract).1

  pub counter-stored_new :
      (c : AlertConfig) (s : State h) → counter h (stored_new h c s) ≡ counter h s + 1
  unfolding stored_new extend_instance_ttl
  counter-stored_new c s = rw h.get-set

  pub get-stored_new :
      (j : ℕ) (c : AlertConfig) (s : State h)
      → h.get j (stored_new h c s).alerts ≡ (if counter h s == j then some c else h.get j s.alerts)
  unfolding stored_new extend_instance_ttl
  get-stored_new j c s = get-put h default_ttl j (counter h s) c s.alerts

  -- The limit check passes if no limit is set, or if there is room for one more; it keeps the
  -- state valid and the counter as it was.
  assert_per_owner_limit_passes :
      (owner : Address) (s : State h)
      → IsValid h s
      → (0 < get_per_owner_alert_limit h s
          → saturating_add (get_active_alert_count h owner s) 1 ≤ get_per_owner_alert_limit h s)
      → (s₁ : State h) × (assert_per_owner_limit_for h owner 1 s ≡ ok s₁)
        × IsValid h s₁
        × (counter h s₁ ≡ counter h s)
  unfolding assert_per_owner_limit_for get_active_alert_count ◌>>=◌
  assert_per_owner_limit_passes owner s v room =
      let checked = λ (s₁ : State h) (e : assert_per_owner_limit_for h owner 1 s ≡ ok s₁).
        Ensures-eq-ok _ (assert_per_owner_limit_for-IsValid h s owner 1 v) e in
      elim (Bool-cases (ltb 0 (get_per_owner_alert_limit h s))) [
        | inl limited ↦
            let e : assert_per_owner_limit_for h owner 1 s ≡ ok (prune_owner_index h owner s) =
              ground arith in
            let (v₁, _, n) = checked _ e in
            (prune_owner_index h owner s, e, v₁, ap (λ t. unwrap_or (h.get 0 t) 0) n)
        | inr free ↦ (s, ground arith, v, refl)
      ]

module _ (h : Host) (env : Env) where
  -- In a valid state that is not paused, whose counter has not run out, a registration that the
  -- owner signed succeeds if its webhook hash has 64 characters, its label, rules and tags pass
  -- their checks, and the owner's limit, if one is set, leaves room for one more alert; it
  -- returns the counter's value.
  pub register_alert_succeeds :
      (owner target : Address) (label hash : Bytes) (rules : List Bytes)
      (tags : Option (List Bytes)) (s : State h)
      → IsValid h s
      → is_paused h s ≡ false
      → get_alert_count h s < u64_max
      → env.authorized owner ≡ true
      → length hash ≡ 64
      → length label ≤ 128
      → validate_rules rules ≡ ok tt
      → validate_tags tags ≡ ok tt
      → (0 < get_per_owner_alert_limit h s
          → saturating_add (get_active_alert_count h owner s) 1 ≤ get_per_owner_alert_limit h s)
      → (s' : State h) × (register_alert h env owner target label hash rules tags s
          ≡ ok (get_alert_count h s, s'))
  unfolding register_alert assert_per_owner_limit assert_not_paused check_webhook_hash
      validate_label get_alert_count ◌>>=◌
  register_alert_succeeds owner target label hash rules tags s v running more signed hl ll rl tl
        room =
      let (s₁, l, v₁, same) = assert_per_owner_limit_passes h owner s v room in
      let c = new_config env.timestamp owner target label hash rules tags in
      let st = store_new_valid h s₁ c v₁ (rw same more) in (stored_new h c s₁, ground arith)

  -- From the ID `id` on, the state has an alert of the caller for each of the inputs, in order.
  abbrev pub AllStored : Address → ℕ → List AlertInput → State h → Type 0
  AllStored caller id [] s = Unit
  AllStored caller id (input ∷ inputs) s =
      (h.get id s.alerts ≡ some (config_of env caller input)) × AllStored caller (id + 1) inputs s

  -- What the second loop of a batch does.
  record Batch (caller : Address) (inputs : List AlertInput) (s : State h) (r : List ℕ × State h)
      : Type 0 where
    ids : r.0 ≡ ids_from (counter h s) (length inputs)
    count : counter h r.1 ≡ counter h s + length inputs
    stored : AllStored caller (counter h s) inputs r.1
    kept : (j : ℕ) → j < counter h s → h.get j r.1.alerts ≡ h.get j s.alerts

  store_inputs-Batch :
      (caller : Address) (inputs : List AlertInput) (s : State h)
      → Ensures (Batch caller inputs s) (store_inputs h env caller inputs s)
  unfolding store_inputs
  store_inputs-Batch caller [] s =
      Ensures-ok _ (Batch caller [] s)
        (record { ids = refl; count = omega arith; stored = tt; kept = λ j l. refl })
  store_inputs-Batch caller (input ∷ inputs) s =
      let P = Batch caller (input ∷ inputs) s in
      Ensures->>= P _ _ λ r₁ e₁. Ensures->>= P _ _ λ r₂ e₂. Ensures-ok _ P (
        let c = config_of env caller input in
        let new = store_new-eq-ok h s c e₁ in
        let b = Ensures-eq-ok _ (store_inputs-Batch caller inputs r₁.1) e₂ in
        let next : counter h r₁.1 ≡ counter h s + 1 =
          ap (λ r. counter h r.1) new ∙ counter-stored_new h c s in
        let now = λ (j : ℕ). ap (λ r. h.get j r.1.alerts) new ∙ get-stored_new h j c s in
        record {
          ids =
              ap (λ i. i ∷ r₂.0) (ap (λ r. r.0) new)
              ∙ ap (◌∷◌ (counter h s)) (b.ids ∙ ap (λ i. ids_from i (length inputs)) next);
          count = omega (arith, b.count, next);
          stored = (
            b.kept (counter h s) (omega (arith, next))
                ∙ now (counter h s)
                ∙ rw (==-refl (counter h s)),
            subst (λ i. AllStored caller i inputs r₂.1) next b.stored,
          );
          kept = λ j l. ground (arith, b.kept j, now j);
        })

  -- A successful batch in a valid state has at most 50 inputs, and returns as many consecutive IDs from the counter
  -- on; afterwards the alert of each input is stored under its ID, in order, every record below
  -- the counter is as it was, and the counter has moved past the batch.
  pub batch_register_alerts_stores :
      (caller : Address) (inputs : List AlertInput) (s : State h) {ids : List ℕ} {s' : State h}
      → IsValid h s
      → batch_register_alerts h env caller inputs s ≡ ok (ids, s')
      → (length inputs ≤ max_batch_size)
        × (ids ≡ ids_from (get_alert_count h s) (length inputs))
        × (get_alert_count h s' ≡ get_alert_count h s + length inputs)
        × AllStored caller (get_alert_count h s) inputs s'
        × ((j : ℕ) → j < get_alert_count h s → h.get j s'.alerts ≡ h.get j s.alerts)
  unfolding batch_register_alerts get_alert_count
  batch_register_alerts_stores caller inputs s {ids} {s'} v e =
      let (_, _, e₁) = >>=-eq-ok _ _ e in
      let (_, small, e₂) = >>=-eq-ok _ _ e₁ in
      let (_, _, e₃) = >>=-eq-ok _ _ e₂ in
      let (_, _, e₄) = >>=-eq-ok _ _ e₃ in
      let (s₁, l, e₅) = >>=-eq-ok _ _ e₄ in
      let (_, al, n) =
        Ensures-eq-ok _ (assert_per_owner_limit_for-IsValid h s caller (length inputs) v) l in
      let b = Ensures-eq-ok _ (store_inputs-Batch caller inputs s₁) e₅ in
      let same : counter h s₁ ≡ counter h s = ap (λ t. unwrap_or (h.get 0 t) 0) n in
      let few = reject_if-eq-ok _ _ small in
      (
        ground arith,
        b.ids ∙ ap (λ i. ids_from i (length inputs)) same,
        omega (arith, b.count, same),
        subst (λ i. AllStored caller i inputs s') same b.stored,
        λ j below. b.kept j (omega (arith, same)) ∙ ap (h.get j) al,
      )
