-- ===== src/AlertRegistry/Deactivation.antt =====
-- What `deactivate_all_alerts` leaves behind.
use stellar_txwatch_contract.Prelude.{
  ℕ, ◌≡◌, refl, ◌⊎◌, inl, inr, true, false, some, List, [], ◌∷◌, arith, ◌==◌, contains, Bool-cases,
  Option-cases, ap, ◌∙◌, sym, ◌≢◌, unwrap_or,
}
use stellar_txwatch_contract.Soroban.{Host, Address, Env, ok, ◌>>=◌}
use stellar_txwatch_contract.Soroban.Access.{get-put}
use stellar_txwatch_contract.AlertRegistry.Types.{AlertConfig, State, default_ttl}
use stellar_txwatch_contract.AlertRegistry.Store.{
  is_paused, assert_not_paused, save_alert, save_active, owner_index,
}
use stellar_txwatch_contract.AlertRegistry.Ttl.{
  deactivate_one, deactivate_loop, deactivate_all_alerts,
}
use stellar_txwatch_contract.AlertRegistry.Invariant.{IsValid, owner_ids}
use stellar_txwatch_contract.AlertRegistry.Invariant.Renewals.{deactivate_loop-IsValid}
use stellar_txwatch_contract.AlertRegistry.Access.Signed.{deactivate_loop_ne}

module _ (h : Host) (env : Env) where
  -- What is stored under the ID, if anything, is not active.
  abbrev pub Inactive : ℕ → State h → Type 0
  Inactive j s = (c : AlertConfig) → h.get j s.alerts ≡ some c → c.active ≡ false

  Inactive-deactivate_one :
      (id j : ℕ) (s : State h)
      → ((id == j) ≡ true) ⊎ Inactive j s
      → Inactive j (deactivate_one h env id s).1
  unfolding deactivate_one save_alert save_active
  Inactive-deactivate_one id j s p = elim (Option-cases (h.get id s.alerts)) [
    | inl absent ↦
        rw (absent, deactivate_one) (λ c e. elim p [ inl same ↦ ground arith | inr q ↦ q c e ])
    | inr (d, there) ↦ elim (Bool-cases d.active) [
      | inl on ↦
          rw (there, deactivate_one, on)
            (λ c e.
              let e' =
                sym (
                  get-put h default_ttl j id
                    (record d { active = false; updated_at = env.timestamp }) s.alerts)
                ∙ e in
              elim p [
                | inl same ↦ ground arith
                | inr q ↦ elim (Bool-cases (id == j)) [
                  | inl same ↦ ground arith
                  | inr ne ↦ q c (ground arith)
                ]
              ])
      | inr off ↦
          rw (there, deactivate_one, off)
            (λ c e. elim p [ inl same ↦ ground arith | inr q ↦ q c e ])
    ]
  ]

  Inactive-deactivate_loop :
      (ids : List ℕ) (j : ℕ) (s : State h)
      → (contains ids j ≡ true) ⊎ Inactive j s
      → Inactive j (deactivate_loop h env ids s).1
  unfolding deactivate_loop contains
  Inactive-deactivate_loop [] j s (inl listed) = absurd (ground arith)
  Inactive-deactivate_loop [] j s (inr q) = q
  Inactive-deactivate_loop (id ∷ ids) j s p =
      Inactive-deactivate_loop ids j (deactivate_one h env id s).1
        (elim (Bool-cases (contains ids j)) [
          | inl later ↦ inl later
          | inr not_later ↦ inr (
              Inactive-deactivate_one id j s
                (elim p [ inl listed ↦ inl (ground arith) | inr q ↦ inr q ]))
        ])

  owner_indexes-deactivate_loop :
      (ids : List ℕ) (s : State h) → (deactivate_loop h env ids s).1.owner_indexes ≡ s.owner_indexes
  unfolding deactivate_loop deactivate_one save_alert save_active
  owner_indexes-deactivate_loop [] s = refl
  owner_indexes-deactivate_loop (id ∷ ids) s =
      owner_indexes-deactivate_loop ids (deactivate_one h env id s).1 ∙ ground arith

  -- In a valid state that is not paused, `deactivate_all_alerts` with the caller's signature succeeds
  -- and leaves every stored alert of the caller inactive, and every alert of another owner as it was.
  pub deactivate_all_alerts_stops :
      (caller : Address) (s : State h)
      → IsValid h s
      → is_paused h s ≡ false
      → env.authorized caller ≡ true
      → (n : ℕ) × (s' : State h) × (deactivate_all_alerts h env caller s ≡ ok (n, s'))
        × ((id : ℕ) (c : AlertConfig)
            → h.get id s'.alerts ≡ some c
            → c.owner ≡ caller
            → c.active ≡ false)
        × ((id : ℕ) (c : AlertConfig)
            → h.get id s.alerts ≡ some c
            → c.owner ≢ caller
            → h.get id s'.alerts ≡ some c)
  unfolding deactivate_all_alerts assert_not_paused ◌>>=◌ owner_index
  deactivate_all_alerts_stops caller s v running signed =
      let ids = owner_ids h s caller in
      let after = deactivate_loop h env ids s in
      (
        after.0,
        after.1,
        ground arith,
        (λ id c there owned.
            Inactive-deactivate_loop ids id s
              (inl (
                ground (
                  arith,
                  (deactivate_loop-IsValid h env ids s v).owners.listed id c there,
                  ap (λ t. unwrap_or (h.get caller t) []) (owner_indexes-deactivate_loop ids s),
                )))
              c there),
        λ id c there other. elim (Bool-cases (contains ids id)) [
          | inl listed ↦ absurd (other (v.owners.only caller id c listed there))
          | inr out ↦ deactivate_loop_ne h env ids id s out ∙ there
        ],
      )
