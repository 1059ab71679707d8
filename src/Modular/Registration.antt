-- ===== src/Modular/Registration.antt =====
-- What a successful registration of the second implementation does.
use stellar_txwatch_contract.Prelude.{
  ℕ, ◌≡◌, ◌≢◌, ◌≤◌, ◌<◌, ◌+◌, refl, ap, ◌∙◌, false, none, some, List, [], ◌∷◌, ◌++◌, ◌==◌,
  if◌then◌else◌, arith, unwrap_or, ==-refl, ltb, Option-cases, Bool-cases, inl, inr, contains, ◌⊎◌,
}
use stellar_txwatch_contract.Soroban.{Host, Address, Bytes, Env, ok, >>=-eq-ok}
use stellar_txwatch_contract.Soroban.Access.{get-put, load_list-put}
use stellar_txwatch_contract.AlertRegistry.Types.{default_ttl}
use stellar_txwatch_contract.Modular.Types.{AlertConfig, State}
use stellar_txwatch_contract.Modular.Storage
use stellar_txwatch_contract.Modular.Checks.{count_live, assert_per_owner_limit}
use stellar_txwatch_contract.Modular.Contract.{register_alert, new_config}
use stellar_txwatch_contract.Modular.Queries.{
  get_alert_count, get_active_alert_count, get_per_owner_alert_limit,
}
use stellar_txwatch_contract.Modular.Invariant.{
  IsValid, counter, owner_ids, stored_new, store_new-eq-ok,
}

module _ (h : Host) where
  counter_fresh : (s : State h) → IsValid h s → h.get (counter h s) s.alerts ≡ none
  counter_fresh s v = elim (Option-cases (h.get (counter h s) s.alerts)) [
    | inl absent ↦ absent
    | inr (c, there) ↦ absurd (omega (arith, v.owners.fresh _ _ (v.owners.listed _ c there)))
  ]

  get-stored_new :
      (j : ℕ) (c : AlertConfig) (s : State h)
      → h.get j (stored_new h c s).alerts ≡ (if counter h s == j then some c else h.get j s.alerts)
  unfolding stored_new
  get-stored_new j c s = get-put h default_ttl j (counter h s) c s.alerts

  -- The count over a list that does not have the new ID is the same before and after.
  count_live-stored_new :
      (ids : List ℕ) (n : ℕ) (c : AlertConfig) (s : State h)
      → contains ids (counter h s) ≡ false
      → count_live h n ids (stored_new h c s) ≡ count_live h n ids s
  unfolding count_live contains Storage.has_alert
  count_live-stored_new [] n c s out = refl
  count_live-stored_new (id ∷ ids) n c s out =
      let same : h.get id (stored_new h c s).alerts ≡ h.get id s.alerts =
        get-stored_new id c s ∙ ground arith in
      rw same (count_live-stored_new ids _ c s (ground arith))

  count_live-append :
      (xs ys : List ℕ) (n : ℕ) (s : State h)
      → count_live h n (xs ++ ys) s ≡ count_live h (count_live h n xs s) ys s
  unfolding count_live
  count_live-append [] ys n s = refl
  count_live-append (x ∷ xs) ys n s = count_live-append xs ys _ s

  owner_ids-stored_new :
      (c : AlertConfig) (s : State h)
      → owner_ids h (stored_new h c s) c.owner ≡ owner_ids h s c.owner ++ counter h s ∷ []
  unfolding stored_new
  owner_ids-stored_new c s =
      load_list-put h default_ttl c.owner c.owner (owner_ids h s c.owner ++ counter h s ∷ [])
        s.owner_indexes
      ∙ rw (==-refl c.owner)

  -- A new alert is one more live alert of its owner.
  get_active_alert_count-stored_new :
      (c : AlertConfig) (s : State h)
      → IsValid h s
      → get_active_alert_count h c.owner (stored_new h c s) ≡ get_active_alert_count h c.owner s + 1
  unfolding get_active_alert_count Storage.owner_index count_live Storage.has_alert
  get_active_alert_count-stored_new c s v =
      let new : contains (owner_ids h s c.owner) (counter h s) ≡ false =
        ground (arith, v.owners.fresh c.owner (counter h s)) in
      let there : h.get (counter h s) (stored_new h c s).alerts ≡ some c =
        get-stored_new (counter h s) c s ∙ rw (==-refl (counter h s)) in
      rw (
        owner_ids-stored_new c s,
        count_live-append,
        there,
        count_live-stored_new (owner_ids h s c.owner) 0 c s new,
      )

  counter-stored_new :
      (c : AlertConfig) (s : State h) → counter h (stored_new h c s) ≡ counter h s + 1
  unfolding stored_new
  counter-stored_new c s = rw get-put

  -- The limit in force: 0 is none.
  abbrev pub limit_of : State h → ℕ
  limit_of s = unwrap_or (get_per_owner_alert_limit h s) 0

  assert_per_owner_limit_bound :
      (a : Address) (s : State h) {u : Unit {0}}
      → assert_per_owner_limit h a s ≡ ok u
      → (limit_of s ≡ 0) ⊎ (get_active_alert_count h a s < limit_of s)
  unfolding assert_per_owner_limit get_per_owner_alert_limit get_active_alert_count
  assert_per_owner_limit_bound a s e = elim (Bool-cases (ltb 0 (limit_of s))) [
    | inl limited ↦ inr (ground arith)
    | inr free ↦ inl (ground arith)
  ]

module _ (h : Host) (env : Env) where
  -- In a valid state of the second implementation a successful registration returns the counter's value, under which nothing was
  -- stored; afterwards the new record is stored there, every other record is as it was, the counter is one higher, its
  -- owner has one live alert more, and, if a limit above 0 is set, no more than the limit.
  pub register_alert_stored :
      (owner target : Address) (label hash : Bytes) (rules : List Bytes) (s : State h) {id : ℕ}
      {s' : State h}
      → IsValid h s
      → register_alert h env owner target label hash rules s ≡ ok (id, s')
      → (id ≡ get_alert_count h s)
        × (h.get id s.alerts ≡ none)
        × (h.get id s'.alerts ≡ some (new_config env.timestamp owner target label hash rules))
        × ((j : ℕ) → j ≢ id → h.get j s'.alerts ≡ h.get j s.alerts)
        × (get_alert_count h s' ≡ id + 1)
        × (get_active_alert_count h owner s' ≡ get_active_alert_count h owner s + 1)
        × ((limit_of h s ≡ 0) ⊎ (get_active_alert_count h owner s' ≤ limit_of h s))
  unfolding register_alert new_config get_alert_count
  register_alert_stored owner target label hash rules s {id} {s'} v e =
      let (_, _, e₁) = >>=-eq-ok _ _ e in
      let (_, _, e₂) = >>=-eq-ok _ _ e₁ in
      let (_, _, e₃) = >>=-eq-ok _ _ e₂ in
      let (_, _, e₄) = >>=-eq-ok _ _ e₃ in
      let (_, l, e₅) = >>=-eq-ok _ _ e₄ in
      let c = new_config env.timestamp owner target label hash rules in
      let r = store_new-eq-ok h s c e₅ in
      let i : id ≡ counter h s = ap (λ p. p.0) r in
      let t : s' ≡ stored_new h c s = ap (λ p. p.1) r in
      let more = get_active_alert_count-stored_new h c s v in
      (
        i,
        rw i (counter_fresh h s v),
        rw (i, t) (get-stored_new h (counter h s) c s ∙ rw (==-refl (counter h s))),
        (λ j ne. rw t (get-stored_new h j c s ∙ ground arith)),
        rw (i, t) (counter-stored_new h c s),
        rw t more,
        elim (assert_per_owner_limit_bound h owner s l) [
          | inl free ↦ inl free
          | inr room ↦ inr (rw t (omega (arith, more, room)))
        ],
      )
